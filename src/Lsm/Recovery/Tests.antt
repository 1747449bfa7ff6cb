-- ===== src/Lsm/Recovery/Tests.antt =====
-- Runs of the recovery of nanograph-lsm.
use nanograph.Prelude.{◌≡◌, ◌<◌, refl, [], ◌∷◌, ◌++◌, List, length, replicate, take, arith}
use nanograph.Bytes.{Bytes}
use nanograph.Util.Integrity.{crc32c}
use nanograph.Vfs.MemoryFile.{MemoryFile, unlocked, get_size}
use nanograph.Wal.Platform.{big_endian, sums}
use nanograph.Wal.Segment.{WriteAheadLogFile, record_bytes}
use nanograph.Wal.Reader.{WriteAheadLogReader, reader_from_offset}
use nanograph.Wal.Writer.{synced, append_batch}
use nanograph.Wal.Log.Records.{length-record_bytes}
use nanograph.Wal.Log.Replay.{IsOpen, log_bytes}
use nanograph.Lsm.Records.{storage_corruption}
use nanograph.Lsm.Records.Logged.{put_record, length-encode_put}
use nanograph.Lsm.MemTable.{new}
use nanograph.Lsm.Recovery.{recovered, failed, recover_from_wal}
use nanograph.Lsm.Recovery.Replayed.{put_all, put_records, recover_from_wal-append_batch}
use nanograph.Lsm.Recovery.Crash.{recover_from_wal-torn}

abbrev key : Bytes
key = 107 ∷ 49 ∷ []

abbrev value : Bytes
value = 118 ∷ []

-- A put, and a later put of another value under its key.
abbrev puts : List (Bytes × Bytes)
puts = (key, value) ∷ (key, key) ∷ []

abbrev segment : WriteAheadLogFile
segment = record {
  file = record { cursor = 0; data_ = record { buffer = replicate 69 0; lock = unlocked } };
  shard_id = 1;
  segment_id = 4;
  start_offset = 0;
  write_offset = 69;
  integrity = crc32c;
}

segment-IsOpen : IsOpen segment
unfolding get_size
segment-IsOpen = refl

recover_from_wal-append_batch_example :
    recover_from_wal big_endian sums
      (append_batch big_endian sums segment (put_records puts) synced).1.file
      (reader_from_offset (append_batch big_endian sums segment (put_records puts) synced).1 69)
      7
      new
    ≡ recovered (put_all 7 new puts).0 (put_all 7 new puts).1
recover_from_wal-append_batch_example =
    recover_from_wal-append_batch big_endian sums segment puts synced 7 new segment-IsOpen
      (omega arith, (omega arith, _))

-- The file of a segment whose third record lost its last bytes.
abbrev torn_file : MemoryFile
torn_file = record {
  cursor = 0;
  data_ = record {
    buffer =
        replicate 69 0
        ++ (log_bytes big_endian sums crc32c (put_records puts)
            ++ take 15 (record_bytes big_endian sums crc32c (put_record key value)));
    lock = unlocked;
  };
}

abbrev first_reader : WriteAheadLogReader
first_reader = record { segment_id = 4; offset = 69; integrity = crc32c }

length-third : 15 < length (record_bytes big_endian sums crc32c (put_record key value))
length-third = omega (
  arith,
  length-record_bytes big_endian sums crc32c (put_record key value),
  length-encode_put key value,
)

recover_from_wal-torn_example :
    recover_from_wal big_endian sums torn_file first_reader 7 new ≡ failed storage_corruption
recover_from_wal-torn_example =
    recover_from_wal-torn big_endian sums first_reader torn_file (replicate 69 0) puts (key, value)
      15 7 new (omega arith, (omega arith, _)) (omega arith) (omega arith) length-third refl refl
      (omega arith)
