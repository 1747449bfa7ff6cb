-- ===== src/Wal/Reader.antt =====
-- `WriteAheadLogReader` of nanograph-wal/src/reader.rs, over the file as it is when `next` is
-- called.
use nanograph.Prelude.{
  ℕ, ◌+◌, Option, none, some, Result, ok, err, not, ◌&&◌, ltb, leb, ◌==◌, length, ◌++◌, slice,
  if◌then◌else◌,
}
use nanograph.Prelude.Options.{◌>>=◌}
use nanograph.Bytes.{Bytes}
use nanograph.Util.Integrity.{Hashes, IntegrityAlgorithm}
use nanograph.Vfs.MemoryFile.{MemoryFile, read_at_offset, get_size}
use nanograph.Wal.Lsn.{LogSequenceNumber, WriteAheadLogError, corruption}
use nanograph.Wal.Header.{ByteOrder, checksum_of, is_checked}
use nanograph.Wal.Segment.{WriteAheadLogFile, record_magic}

pub record WriteAheadLogReader : Type 0 where
  pub segment_id : ℕ
  pub offset : ℕ
  pub integrity : IntegrityAlgorithm

pub record WriteAheadLogEntry : Type 0 where
  pub lsn : LogSequenceNumber
  pub kind : ℕ
  pub payload : Bytes

abbrev pub at : WriteAheadLogReader → LogSequenceNumber
at r = record { segment_id = r.segment_id; offset = r.offset }

-- What `next` returns, with the reader after the call.
abbrev pub Step : Type 0
Step = Result (Option WriteAheadLogEntry) WriteAheadLogError × WriteAheadLogReader

abbrev corrupted : WriteAheadLogReader → Option Step
corrupted r = some (err (corruption (at r)), r)

unfoldable pub reader_from_offset : WriteAheadLogFile → ℕ → WriteAheadLogReader
reader_from_offset s offset = record {
  segment_id = s.segment_id;
  offset = offset;
  integrity = s.integrity;
}

module _ (B : ByteOrder) (H : Hashes) where
  -- From the comparison of the checksum on.
  unfoldable pub finish : WriteAheadLogReader → Bytes → ℕ → Bytes → Bytes → Option Step
  finish r header len payload checksum =
      if is_checked r.integrity
        && not (B.read checksum == checksum_of H r.integrity (header ++ payload))
      then corrupted r
      else some (
        ok (some (record { lsn = at r; kind = B.read (slice 4 6 header); payload = payload })),
        record r { offset = r.offset + (10 + len + 4) },
      )

  -- From the reading of the payload on.
  unfoldable pub read_rest : WriteAheadLogReader → MemoryFile → Bytes → Option Step
  unfolding finish
  read_rest r f header =
      let len = B.read (slice 6 10 header) in
      read_at_offset f (r.offset + 10) len >>= λ payload.
      if ltb (length payload) len
      then corrupted r
      else read_at_offset f (r.offset + 10 + len) 4 >>= λ checksum.
          if ltb (length checksum) 4 then corrupted r else finish r header len payload checksum

  unfoldable pub next : WriteAheadLogReader → MemoryFile → Option Step
  unfolding read_rest
  next r f =
      if leb (get_size f) r.offset
      then some (ok none, r)
      else read_at_offset f r.offset 10 >>= λ header.
          if ltb (length header) 10
          then some (ok none, r)
          else if not (B.read (slice 0 4 header) == record_magic)
          then corrupted r
          else read_rest r f header
