-- ===== src/Wal/Log.antt =====
-- The records of a segment as its readers see them: nanograph-wal/src/reader.rs against `append`
-- of nanograph-wal/src/walfile.rs.
pub mod Records
pub mod Torn
pub mod Replay
pub mod Restart
use nanograph.Prelude.{
  ℕ, ◌+◌, ◌-◌, ◌%◌, ◌^◌, ◌≤◌, ◌<◌, ◌≡◌, refl, sym, ◌∙◌, ap, Option, none, some, Result, ok, err,
  ◌⊎◌, inl, inr, List, [], ◌∷◌, ◌++◌, Bool, true, false, not, ltb, leb, ◌==◌, ==_iff, length, take,
  drop, slice, min, arith, Bool-cases, if◌then◌else◌, length-append, length-take,
}
use nanograph.Prelude.Slices.{take-append_at, take-take, drop-append_at}
use mathlib.Core.List.{append_assoc, append-nil}
use nanograph.Bytes.{Bytes}
use nanograph.Bytes.Chunks.{concat, slice-chunk, HasWidths, length-concat}
use nanograph.Util.Integrity.{Hashes, IntegrityAlgorithm}
use nanograph.Vfs.MemoryFile.{MemoryFile, bytes, read_at_offset, get_size}
use nanograph.Vfs.MemoryFile.Contents.{read_at_offset_within, read_at_offset_chunk}
use nanograph.Wal.Lsn.{LogSequenceNumber, corruption}
use nanograph.Wal.Header.{ByteOrder, checksum_of, checksum_of_bound, is_checked}
use nanograph.Wal.Segment.{WriteAheadLogRecord, record_magic, record_body, record_bytes}
use nanograph.Wal.Reader.{
  WriteAheadLogReader, WriteAheadLogEntry, Step, at, next, read_rest, finish,
}

one_or_other :
    {A : Type 0} (c : Bool) (x y : A) → (s : A) × ((if c then some x else some y) ≡ some s)
one_or_other true x y = (x, refl)
one_or_other false x y = (y, refl)

module _ (B : ByteOrder) (H : Hashes) where
  finish_total :
      (r : WriteAheadLogReader) (header : Bytes) (len : ℕ) (payload checksum : Bytes)
      → (s : Step) × (finish B H r header len payload checksum ≡ some s)
  unfolding finish
  finish_total r header len payload checksum = one_or_other _ _ _

  read_rest_total :
      (r : WriteAheadLogReader) (f : MemoryFile) (header : Bytes)
      → r.offset + 10 ≤ get_size f
      → (s : Step) × (read_rest B H r f header ≡ some s)
  unfolding read_rest
  read_rest_total r f header h =
      let len = B.read (slice 6 10 header) in
      let (payload, e, l, _) = read_at_offset_within f (r.offset + 10) len h in
      elim (Bool-cases (ltb (length payload) len)) [
        | inl short ↦ ((err (corruption (at r)), r), rw (e, short))
        | inr full ↦
            let room : r.offset + 10 + len ≤ get_size f = ground arith in
            let (checksum, e', l', _) = read_at_offset_within f (r.offset + 10 + len) 4 room in
            elim (Bool-cases (ltb (length checksum) 4)) [
              | inl short ↦ ((err (corruption (at r)), r), rw (e, full, e', short))
              | inr whole ↦
                  let (s, done) = finish_total r header len payload checksum in
                  (s, rw (e, full, e', whole, done))
            ]
      ]

  -- `next` never panics, wherever its reader stands and whatever the file holds.
  pub next_total : (r : WriteAheadLogReader) (f : MemoryFile) → (s : Step) × (next B H r f ≡ some s)
  unfolding next
  next_total r f = elim (Bool-cases (leb (get_size f) r.offset)) [
    | inl past ↦ ((ok none, r), rw past)
    | inr before ↦
        let (header, e, l, _) = read_at_offset_within f r.offset 10 (ground arith) in
        elim (Bool-cases (ltb (length header) 10)) [
          | inl short ↦ ((ok none, r), rw (before, e, short))
          | inr full ↦ elim (Bool-cases (not (B.read (slice 0 4 header) == record_magic))) [
            | inl bad ↦ ((err (corruption (at r)), r), rw (before, e, full, bad))
            | inr good ↦
                let (s, done) = read_rest_total r f header (ground arith) in
                (s, rw (before, e, full, good, done))
          ]
        ]
  ]
