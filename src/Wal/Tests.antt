-- ===== src/Wal/Tests.antt =====
-- Runs of the log of nanograph-wal: a header, two records, a torn third, a restart and the head.
use nanograph.Prelude.{
  ◌<◌, true, ◌≡◌, refl, none, some, ok, err, ◌⊎◌, [], ◌∷◌, ◌++◌, length, take, replicate, arith,
  ◌==◌,
}
use nanograph.Util.Integrity.{crc32c}
use nanograph.Util.Compression.{no_compression}
use nanograph.Util.Encryption.{no_encryption}
use nanograph.Vfs.MemoryFile.{MemoryFile, get_size, unlocked}
use nanograph.Wal.Platform.{big_endian, sums}
use nanograph.Wal.Lsn.{corruption, header_size, invalid_lsn}
use nanograph.Wal.Header.{SegmentHeader, encode, decode}
use nanograph.Wal.Header.RoundTrip.{IsInRange, sealed, decode-encode}
use nanograph.Wal.Segment.{
  WriteAheadLogFile, WriteAheadLogRecord, new_header, create, open_existing, record_bytes,
}
use nanograph.Wal.Reader.{WriteAheadLogReader, Step, at, next, reader_from_offset}
use nanograph.Wal.Writer.{append_batch, synced}
use nanograph.Wal.Manager.{
  WriteAheadLogManager, WriteAheadLogConfig, new, reader_from, head_lsn, truncate_before,
  empty_file,
}
use nanograph.Wal.Manager.Head.{written, first_lsn, new-head_lsn}
use nanograph.Wal.Manager.Truncate.{reader_from-truncate_before}
use nanograph.Wal.Log.{next_total}
use nanograph.Wal.Log.Records.{length-record_bytes}
use nanograph.Wal.Log.Records
use nanograph.Wal.Log.Replay.{Reads, IsOpen, entries, log_bytes, append_batch-Reads, torn-Reads}
use nanograph.Wal.Log.Restart.{open_existing-append_batch}

abbrev header : SegmentHeader
header = new_header 1700000000000 123 4 0 crc32c no_compression no_encryption 5

later_header-IsInRange : IsInRange (new_header 7 123 4 0 crc32c no_compression no_encryption 5)
unfolding new_header
later_header-IsInRange = record {
  version_u16 = omega arith;
  shard_id_u128 = omega arith;
  segment_id_u64 = omega arith;
  start_offset_u64 = omega arith;
  created_at_u64 = omega arith;
  encryption_key_id_u128 = omega arith;
}

header-IsInRange : IsInRange header
unfolding new_header
header-IsInRange = record {
  version_u16 = omega arith;
  shard_id_u128 = omega arith;
  segment_id_u64 = omega arith;
  start_offset_u64 = omega arith;
  created_at_u64 = omega arith;
  encryption_key_id_u128 = omega arith;
}

decode-encode_example :
    decode big_endian sums (encode big_endian sums header (replicate header_size 0))
    ≡ ok (sealed big_endian sums header (replicate header_size 0))
decode-encode_example =
    decode-encode big_endian sums header (replicate header_size 0) header-IsInRange refl

abbrev hello : WriteAheadLogRecord
hello = record { kind = 1; payload = 104 ∷ 101 ∷ 108 ∷ 108 ∷ 111 ∷ [] }

abbrev bye : WriteAheadLogRecord
bye = record { kind = 2; payload = 98 ∷ 121 ∷ 101 ∷ [] }

hello-IsInRange : Records.IsInRange hello
hello-IsInRange = record { kind_u16 = omega arith; length_u32 = omega arith }

bye-IsInRange : Records.IsInRange bye
bye-IsInRange = record { kind_u16 = omega arith; length_u32 = omega arith }

-- A segment at its first record.
abbrev segment : WriteAheadLogFile
segment = record {
  file = record { cursor = 0; data_ = record { buffer = replicate 69 0; lock = unlocked } };
  shard_id = 123;
  segment_id = 4;
  start_offset = 0;
  write_offset = 69;
  integrity = crc32c;
}

segment-IsOpen : IsOpen segment
unfolding get_size
segment-IsOpen = refl

append_batch-Reads_example :
    (r' : WriteAheadLogReader) × Reads big_endian sums
      (append_batch big_endian sums segment (hello ∷ bye ∷ []) synced).1.file
      r'
      (reader_from_offset (append_batch big_endian sums segment (hello ∷ bye ∷ []) synced).1 69)
      (entries big_endian sums crc32c 4 69 (hello ∷ bye ∷ []))
    × (next big_endian sums r'
          (append_batch big_endian sums segment (hello ∷ bye ∷ []) synced).1.file
        ≡ some (ok none, r'))
    × IsOpen (append_batch big_endian sums segment (hello ∷ bye ∷ []) synced).1
append_batch-Reads_example =
    append_batch-Reads big_endian sums segment (hello ∷ bye ∷ []) synced segment-IsOpen
      (hello-IsInRange, (bye-IsInRange, _))

-- The file of a segment whose third record lost its last bytes.
abbrev torn_file : MemoryFile
torn_file = record {
  cursor = 0;
  data_ = record {
    buffer =
        replicate 69 0
        ++ (log_bytes big_endian sums crc32c (hello ∷ bye ∷ [])
            ++ take 15 (record_bytes big_endian sums crc32c hello));
    lock = unlocked;
  };
}

abbrev first_reader : WriteAheadLogReader
first_reader = record { segment_id = 4; offset = 69; integrity = crc32c }

length-hello : 15 < length (record_bytes big_endian sums crc32c hello)
length-hello = omega (arith, length-record_bytes big_endian sums crc32c hello)

torn-Reads_example :
    (r' : WriteAheadLogReader) × Reads big_endian sums torn_file r' first_reader
      (entries big_endian sums crc32c 4 69 (hello ∷ bye ∷ []))
    × ((next big_endian sums r' torn_file ≡ some (ok none, r'))
        ⊎ (next big_endian sums r' torn_file ≡ some (err (corruption (at r')), r')))
torn-Reads_example =
    torn-Reads big_endian sums first_reader torn_file (replicate 69 0) (hello ∷ bye ∷ []) hello 15
      (hello-IsInRange, (bye-IsInRange, _)) hello-IsInRange length-hello refl refl

open_existing-append_batch_example :
    open_existing big_endian sums
      (append_batch big_endian sums
        (create big_endian sums 7 empty_file 123 4 0 crc32c no_compression no_encryption 5)
        (hello ∷ bye ∷ [])
        synced).1.file
    ≡ some (
        ok
          (append_batch big_endian sums
            (create big_endian sums 7 empty_file 123 4 0 crc32c no_compression no_encryption 5)
            (hello ∷ bye ∷ [])
            synced).1)
open_existing-append_batch_example =
    open_existing-append_batch big_endian sums 7 empty_file 123 4 0 crc32c no_compression
      no_encryption 5 (hello ∷ bye ∷ []) synced refl later_header-IsInRange

abbrev config : WriteAheadLogConfig
config = record {
  shard_id = 123;
  max_segment_size = 1024;
  sync_on_rotate = true;
  checksum = crc32c;
  compression = no_compression;
  encryption = no_encryption;
  encryption_key = none;
}

new-head_lsn_example :
    (m : WriteAheadLogManager) × (r s s' : WriteAheadLogReader) × (new big_endian sums 7 none config
      ≡ some (ok m))
    × (head_lsn m ≡ first_lsn 0)
    × (head_lsn (written big_endian sums m (hello ∷ bye ∷ []) synced) ≡ first_lsn 0)
    × (reader_from (written big_endian sums m (hello ∷ bye ∷ []) synced) (first_lsn 0) ≡ ok r)
    × (next big_endian sums r
          (written big_endian sums m (hello ∷ bye ∷ []) synced).active_segment.file
        ≡ some (err (corruption (first_lsn 0)), r))
    × (reader_from (written big_endian sums m (hello ∷ bye ∷ []) synced) (first_lsn header_size)
        ≡ ok s)
    × Reads big_endian sums
        (written big_endian sums m (hello ∷ bye ∷ []) synced).active_segment.file
        s'
        s
        (entries big_endian sums crc32c 0 header_size (hello ∷ bye ∷ []))
new-head_lsn_example =
    new-head_lsn big_endian sums 7 config (hello ∷ bye ∷ []) synced
      (hello-IsInRange, (bye-IsInRange, _))

next_total_example : (s : Step) × (next big_endian sums first_reader torn_file ≡ some s)
next_total_example = next_total big_endian sums first_reader torn_file

abbrev manager : WriteAheadLogManager
manager = record {
  active_segment = segment;
  archived_segments = record segment { segment_id = 1 } ∷ record segment { segment_id = 3 } ∷ [];
}

reader_from-truncate_before_example :
    reader_from
      (truncate_before (λ id. id == 1) manager (record { segment_id = 2; offset = 69 })).1
      (record { segment_id = 1; offset = 69 })
    ≡ err invalid_lsn
reader_from-truncate_before_example =
    reader_from-truncate_before (λ id. id == 1) manager (record { segment_id = 2; offset = 69 })
      (record { segment_id = 1; offset = 69 })
