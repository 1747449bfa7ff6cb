-- ===== src/Lsm/Records/Logged.antt =====
-- A put of the LSM engine on its way through the log: nanograph-lsm/src/wal_record.rs over
-- nanograph-wal/src/walfile.rs and reader.rs.
use nanograph.Prelude.{
  ◌+◌, ◌<◌, ◌^◌, ◌≡◌, refl, sym, ap, ◌∙◌, some, ok, ◌++◌, [], length, length-append, arith,
}
use mathlib.Core.List.{append-nil}
use nanograph.Bytes.{Bytes}
use nanograph.Util.Integrity.{Hashes}
use nanograph.Vfs.MemoryFile.{bytes, get_size}
use nanograph.Wal.Header.{ByteOrder}
use nanograph.Wal.Segment.{WriteAheadLogFile, WriteAheadLogRecord, append, record_bytes}
use nanograph.Wal.Reader.{WriteAheadLogReader, WriteAheadLogEntry, next, reader_from_offset}
use nanograph.Wal.Log.Records.{IsInRange, next-record_bytes}
use nanograph.Wal.Log.Replay.{IsOpen, append-IsOpen}
use nanograph.Lsm.Records.{put, to_u16, from_u16, encode_put, decode_put, length_bytes}
use nanograph.Lsm.Records.Fields.{length-length_bytes}
use nanograph.Lsm.Records.RoundTrip.{from_u16-to_u16, decode_put-encode_put}

-- The record that the engine appends for a put.
abbrev pub put_record : Bytes → Bytes → WriteAheadLogRecord
put_record key value = record { kind = to_u16 put; payload = encode_put key value }

pub length-encode_put :
    (key value : Bytes) → length (encode_put key value) ≡ 4 + length key + 4 + length value
unfolding encode_put
length-encode_put key value = omega (
  arith,
  length-append (length_bytes key) (key ++ (length_bytes value ++ (value ++ []))),
  length-append key (length_bytes value ++ (value ++ [])),
  length-append (length_bytes value) (value ++ []),
  length-append value [],
  length-length_bytes key,
  length-length_bytes value,
)

small_kind : to_u16 put < 2 ^ 16
unfolding to_u16
small_kind = omega arith

pub put_record-IsInRange :
    (key value : Bytes)
    → 4 + length key + 4 + length value < 2 ^ 32
    → IsInRange (put_record key value)
put_record-IsInRange key value l = record {
  kind_u16 = small_kind;
  length_u32 = omega (arith, length-encode_put key value);
}

at_end : (s : WriteAheadLogFile) → IsOpen s → s.write_offset ≡ length (bytes s.file)
unfolding get_size
at_end s h = h

-- A put that is appended to an open segment, its payload shorter than 2^32 bytes, is found by a
-- reader at the returned position: an entry of kind put whose payload decodes to the same key and
-- value.
pub append-decode_put :
    (B : ByteOrder) (H : Hashes) (s : WriteAheadLogFile) (key value : Bytes)
    → IsOpen s
    → 4 + length key + 4 + length value < 2 ^ 32
    → (e : WriteAheadLogEntry) × (r' : WriteAheadLogReader) × (next B H
          (reader_from_offset s (append B H s (put_record key value)).0.offset)
          (append B H s (put_record key value)).1.file
        ≡ some (ok (some e), r'))
      × (e.lsn ≡ (append B H s (put_record key value)).0)
      × (from_u16 e.kind ≡ some put)
      × (decode_put e.payload ≡ some (ok (key, value)))
unfolding append reader_from_offset
append-decode_put B H s key value h l =
    let c = put_record key value in
    let range = put_record-IsInRange key value l in
    let (e, _) = append-IsOpen B H s c h in
    let r = reader_from_offset s s.write_offset in
    let whole : bytes (append B H s c).1.file
        ≡ bytes s.file ++ (record_bytes B H s.integrity c ++ []) =
      e ∙ ap (λ b. bytes s.file ++ b) (sym (append-nil (record_bytes B H s.integrity c))) in
    let found =
      next-record_bytes B H s.integrity c r (append B H s c).1.file (bytes s.file) [] range refl
        whole (at_end s h) in
    (
      _,
      _,
      found,
      refl,
      from_u16-to_u16 put,
      decode_put-encode_put key value (omega arith) (omega arith),
    )
