-- ===== src/Wal/Log/Torn.antt =====
-- A record that a crash cut short, under the reader of nanograph-wal/src/reader.rs.
use nanograph.Prelude.{
  ℕ, ◌+◌, ◌≤◌, ◌<◌, ◌≡◌, sym, none, some, ok, err, ◌⊎◌, inl, inr, ◌++◌, true, ltb, leb, length,
  take, arith, length-append, length-take, Bool-cases,
}
use nanograph.Prelude.Slices.{take-append_at, take-take}
use nanograph.Bytes.{Bytes}
use nanograph.Util.Integrity.{Hashes, IntegrityAlgorithm}
use nanograph.Vfs.MemoryFile.{MemoryFile, bytes, get_size}
use nanograph.Vfs.MemoryFile.Contents.{read_at_offset_within}
use nanograph.Wal.Lsn.{corruption}
use nanograph.Wal.Header.{ByteOrder}
use nanograph.Wal.Segment.{WriteAheadLogRecord, record_bytes}
use nanograph.Wal.Reader.{WriteAheadLogReader, at, next, read_rest}
use nanograph.Wal.Log.Records.{
  IsInRange, head, length-head, len_field, record_bytes-parts, length-record_bytes, next-head,
}

module _ (B : ByteOrder) (H : Hashes) (a : IntegrityAlgorithm) (c : WriteAheadLogRecord) where
  -- Fewer than ten bytes are the end of the log.
  next_short :
      (r : WriteAheadLogReader) (f : MemoryFile)
      → r.offset ≤ get_size f
      → get_size f < r.offset + 10
      → next B H r f ≡ some (ok none, r)
  unfolding next
  next_short r f h k =
      let (header, e, l, _) = read_at_offset_within f r.offset 10 h in
      elim (Bool-cases (leb (get_size f) r.offset)) [
        | inl past ↦ rw past
        | inr before ↦
            let short : ltb (length header) 10 ≡ true = ground (arith, l) in rw (before, e, short)
      ]

  -- A payload or a checksum that is not all there is corruption.
  read_rest_short :
      (r : WriteAheadLogReader) (f : MemoryFile)
      → IsInRange c
      → r.offset + 10 ≤ get_size f
      → get_size f < r.offset + 10 + length c.payload + 4
      → read_rest B H r f (head B H a c) ≡ some (err (corruption (at r)), r)
  unfolding read_rest
  read_rest_short r f i h k =
      let len = length c.payload in
      let (payload, e, l, _) = read_at_offset_within f (r.offset + 10) len h in
      elim (Bool-cases (ltb (length payload) len)) [
        | inl short ↦ rw (len_field B H a c i, e, short)
        | inr full ↦
            let (sum, e', l', _) = read_at_offset_within f (r.offset + 10 + len) 4 (ground arith) in
            let short : ltb (length sum) 4 ≡ true = ground (arith, l') in
            rw (len_field B H a c i, e, full, e', short)
      ]

  -- Where ten bytes or more of a record reached the file, and not all, there is corruption.
  pub next_torn_late :
      (r : WriteAheadLogReader) (f : MemoryFile) (before : Bytes) (n : ℕ)
      → IsInRange c
      → 10 ≤ n
      → n < length (record_bytes B H a c)
      → bytes f ≡ before ++ take n (record_bytes B H a c)
      → r.offset ≡ length before
      → next B H r f ≡ some (err (corruption (at r)), r)
  unfolding get_size
  next_torn_late r f before n i late h e l =
      let whole = record_bytes B H a c in
      let size : length (bytes f) ≡ length before + n =
        rw e (omega (arith, length-append before (take n whole), length-take n whole)) in
      let start : take 10 (take n whole) ≡ head B H a c =
        rw (take-take 10 n whole late, record_bytes-parts B H a c)
          (take-append_at 10 (head B H a c) _ (sym (length-head B H a c))) in
      let long : 10 ≤ length (take n whole) = omega (arith, length-take n whole) in
      let goes_on = next-head B H a c r f before (take n whole) e l long start in
      rw goes_on (read_rest_short r f i (omega arith) (omega (arith, length-record_bytes B H a c)))

  -- Where only a proper prefix of a record reached the file, its last bytes lost, a reader at the
  -- record stays where it is and returns either the end of the log or corruption at its own
  -- position, and never an entry.
  pub next_torn :
      (r : WriteAheadLogReader) (f : MemoryFile) (before : Bytes) (n : ℕ)
      → IsInRange c
      → n < length (record_bytes B H a c)
      → bytes f ≡ before ++ take n (record_bytes B H a c)
      → r.offset ≡ length before
      → (next B H r f ≡ some (ok none, r)) ⊎ (next B H r f ≡ some (err (corruption (at r)), r))
  unfolding get_size
  next_torn r f before n i h e l =
      let whole = record_bytes B H a c in
      let size : length (bytes f) ≡ length before + n =
        rw e (omega (arith, length-append before (take n whole), length-take n whole)) in
      elim (Bool-cases (ltb n 10)) [
        | inl short ↦ inl (next_short r f (omega arith) (ground arith))
        | inr full ↦ inr (next_torn_late r f before n i (ground arith) h e l)
      ]
