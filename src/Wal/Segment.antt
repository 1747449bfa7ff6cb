-- ===== src/Wal/Segment.antt =====
-- `WriteAheadLogFile` of nanograph-wal/src/walfile.rs: one segment, over the file in memory. The
-- handle and its readers share the file, so it is a field of the segment and an argument of the
-- reader. `now` is the clock's time in milliseconds. A method returns the segment after the call;
-- `none` is a panic of the file. No lock is poisoned, as nothing panics while it holds one.
use nanograph.Prelude.{
  ℕ, ◌+◌, ◌-◌, ◌%◌, ◌^◌, Option, some, Result, ok, err, ◌++◌, length, replicate,
}
use nanograph.Prelude.Options.{◌>>=◌}
use nanograph.Bytes.{Bytes}
use nanograph.Util.Integrity.{Hashes, IntegrityAlgorithm}
use nanograph.Util.Compression.{CompressionAlgorithm}
use nanograph.Util.Encryption.{EncryptionAlgorithm}
use nanograph.Vfs.MemoryFile.{
  MemoryFile, read_at_offset, write_to_offset, get_size, sync_all, sync_data,
}
use nanograph.Wal.Lsn.{LogSequenceNumber, WriteAheadLogError, header_size}
use nanograph.Wal.Header.{ByteOrder, SegmentHeader, encode, decode, checksum_of}

abbrev pub record_magic : ℕ
record_magic = 0x474e414f

pub record WriteAheadLogRecord : Type 0 where
  pub kind : ℕ
  pub payload : Bytes

pub record WriteAheadLogFile : Type 0 where
  pub file : MemoryFile
  pub shard_id : ℕ
  pub segment_id : ℕ
  pub start_offset : ℕ
  pub write_offset : ℕ
  pub integrity : IntegrityAlgorithm

-- The bytes of a record before its checksum.
unfoldable pub record_body : ByteOrder → WriteAheadLogRecord → Bytes
record_body B r =
    B.write 4 record_magic
    ++ (B.write 2 r.kind ++ (B.write 4 (length r.payload % 2 ^ 32) ++ r.payload))

unfoldable pub record_bytes : ByteOrder → Hashes → IntegrityAlgorithm → WriteAheadLogRecord → Bytes
record_bytes B H a r = record_body B r ++ B.write 4 (checksum_of H a (record_body B r))

-- The header that `create` puts together.
unfoldable pub new_header :
    ℕ
    → ℕ
    → ℕ
    → ℕ
    → IntegrityAlgorithm
    → CompressionAlgorithm
    → EncryptionAlgorithm
    → ℕ
    → SegmentHeader
new_header now shard_id segment_id start_offset integrity compression encryption key_id = record {
  version = 1;
  shard_id = shard_id;
  segment_id = segment_id;
  start_offset = start_offset;
  created_at_unix_ms = now;
  integrity = integrity;
  compression = compression;
  encryption = encryption;
  encryption_key_id = key_id;
  checksum = 0;
}

module _ (B : ByteOrder) (H : Hashes) where
  -- `create` with the clock's time before the source's arguments.
  unfoldable pub create :
      ℕ
      → MemoryFile
      → ℕ
      → ℕ
      → ℕ
      → IntegrityAlgorithm
      → CompressionAlgorithm
      → EncryptionAlgorithm
      → ℕ
      → WriteAheadLogFile
  create now file shard_id segment_id start_offset integrity compression encryption key_id =
      let header =
        new_header now shard_id segment_id start_offset integrity compression encryption key_id in
      let (_, f) = write_to_offset file 0 (encode B H header (replicate header_size 0)) in
      record {
        file = f;
        shard_id = shard_id;
        segment_id = segment_id;
        start_offset = start_offset;
        write_offset = header_size;
        integrity = integrity;
      }

  -- `open_existing` from the decoding of the header on.
  unfoldable pub open_decoded : MemoryFile → Bytes → Result WriteAheadLogFile WriteAheadLogError
  open_decoded file buffer = elim (decode B H buffer) [
    | err e ↦ err e
    | ok header ↦ ok (record {
      file = file;
      shard_id = header.shard_id;
      segment_id = header.segment_id;
      start_offset = header.start_offset;
      write_offset = get_size file;
      integrity = header.integrity;
    })
  ]

  -- The buffer starts out as zeros.
  unfoldable pub open_existing : MemoryFile → Option (Result WriteAheadLogFile WriteAheadLogError)
  unfolding open_decoded
  open_existing file = read_at_offset file 0 header_size >>= λ found.
      some (open_decoded file (found ++ replicate (header_size - length found) 0))

  unfoldable pub append :
      WriteAheadLogFile → WriteAheadLogRecord → LogSequenceNumber × WriteAheadLogFile
  append s r =
      let buffer = record_bytes B H s.integrity r in
      let (_, f) = write_to_offset s.file s.write_offset buffer in
      (
        record { segment_id = s.segment_id; offset = s.write_offset },
        record s { file = f; write_offset = s.write_offset + length buffer },
      )

unfoldable pub start_lsn : WriteAheadLogFile → LogSequenceNumber
start_lsn s = record { segment_id = s.segment_id; offset = s.start_offset }

unfoldable pub tail_lsn : WriteAheadLogFile → LogSequenceNumber
tail_lsn s = record { segment_id = s.segment_id; offset = s.write_offset }

unfoldable pub flush : WriteAheadLogFile → WriteAheadLogFile
flush s = record s { file = sync_data s.file }

unfoldable pub sync : WriteAheadLogFile → WriteAheadLogFile
sync s = record s { file = sync_all s.file }
