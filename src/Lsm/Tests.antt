-- ===== src/Lsm/Tests.antt =====
-- Runs of the records of nanograph-lsm.
use nanograph.Prelude.{◌≡◌, refl, some, ok, [], ◌∷◌, replicate, arith}
use nanograph.Bytes.{Bytes}
use nanograph.Util.Integrity.{crc32c}
use nanograph.Vfs.MemoryFile.{unlocked, get_size}
use nanograph.Wal.Platform.{big_endian, sums}
use nanograph.Wal.Segment.{WriteAheadLogFile, append}
use nanograph.Wal.Reader.{WriteAheadLogReader, WriteAheadLogEntry, next, reader_from_offset}
use nanograph.Wal.Log.Replay.{IsOpen}
use nanograph.Lsm.Records.{put, from_u16, decode_put}
use nanograph.Lsm.Records.Logged.{put_record, append-decode_put}

abbrev key : Bytes
key = 107 ∷ 49 ∷ []

abbrev value : Bytes
value = 118 ∷ []

abbrev segment : WriteAheadLogFile
segment = record {
  file = record { cursor = 0; data_ = record { buffer = replicate 69 0; lock = unlocked } };
  shard_id = 1;
  segment_id = 4;
  start_offset = 0;
  write_offset = 69;
  integrity = crc32c;
}

segment-IsOpen : IsOpen segment
unfolding get_size
segment-IsOpen = refl

append-decode_put_example :
    (e : WriteAheadLogEntry) × (r' : WriteAheadLogReader) × (next big_endian sums
        (reader_from_offset segment
          (append big_endian sums segment (put_record key value)).0.offset)
        (append big_endian sums segment (put_record key value)).1.file
      ≡ some (ok (some e), r'))
    × (e.lsn ≡ (append big_endian sums segment (put_record key value)).0)
    × (from_u16 e.kind ≡ some put)
    × (decode_put e.payload ≡ some (ok (key, value)))
append-decode_put_example =
    append-decode_put big_endian sums segment key value segment-IsOpen (omega arith)
