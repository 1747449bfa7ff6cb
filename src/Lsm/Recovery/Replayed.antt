-- ===== src/Lsm/Recovery/Replayed.antt =====
-- What `recover_from_wal` of nanograph-lsm/src/engine.rs brings back of the puts in a log.
use nanograph.Prelude.{
  ℕ, zero, suc, ◌+◌, ◌≤◌, ◌<◌, ◌≡◌, ◌^◌, ap, none, some, ok, List, [], ◌∷◌, length, length-append,
  arith,
}
use nanograph.Bytes.{Bytes}
use nanograph.BTree.Entries.{All}
use nanograph.Util.Integrity.{Hashes, IntegrityAlgorithm}
use nanograph.Vfs.MemoryFile.{MemoryFile, bytes, get_size}
use nanograph.Wal.Lsn.{LogSequenceNumber, zero_lsn}
use nanograph.Wal.Header.{ByteOrder}
use nanograph.Wal.Segment.{WriteAheadLogFile, WriteAheadLogRecord, record_bytes}
use nanograph.Wal.Reader.{WriteAheadLogReader, next, reader_from_offset}
use nanograph.Wal.Writer.{Durability, append_batch, append_all}
use nanograph.Wal.Log.Records.{IsInRange, length-record_bytes}
use nanograph.Wal.Log.Replay.{
  Reads, done, entry, IsOpen, log_bytes, entries, append_all-IsOpen, append_batch-Reads, settle_lem,
}
use nanograph.Lsm.Records.{put}
use nanograph.Lsm.Records.RoundTrip.{from_u16-to_u16, decode_put-encode_put}
use nanograph.Lsm.Records.Logged.{put_record, put_record-IsInRange}
use nanograph.Lsm.MemTable.{MemTable, put_committed}
use nanograph.Lsm.Recovery.{
  Outcome, recovered, biased, tick, apply_entry, recover_loop, recover_from_wal,
}

-- A payload that a record can hold.
abbrev pub FitsRecord : Bytes × Bytes → Type 0
FitsRecord p = 4 + length p.0 + 4 + length p.1 < 2 ^ 32

-- The puts in their order, each committed at the next timestamp.
unfoldable pub put_all : ℕ → MemTable → List (Bytes × Bytes) → ℕ × MemTable
put_all clock m [] = (clock, m)
put_all clock m (p ∷ ps) = put_all (tick clock) (put_committed m p.0 p.1 (biased clock)).1 ps

abbrev pub put_records : List (Bytes × Bytes) → List WriteAheadLogRecord
put_records [] = []
put_records (p ∷ ps) = put_record p.0 p.1 ∷ put_records ps

apply_put :
    (clock : ℕ) (m : MemTable) (p : Bytes × Bytes) (lsn : LogSequenceNumber)
    → FitsRecord p
    → apply_entry clock m (record {
      lsn = lsn;
      kind = (put_record p.0 p.1).kind;
      payload = (put_record p.0 p.1).payload;
    })
      ≡ recovered (tick clock) (put_committed m p.0 p.1 (biased clock)).1
unfolding apply_entry
apply_put clock m p lsn h =
    rw (apply_entry, from_u16-to_u16 put, decode_put-encode_put p.0 p.1 (omega arith) (omega arith))

pub put_records-IsInRange :
    (ps : List (Bytes × Bytes)) → All FitsRecord ps → All IsInRange (put_records ps)
put_records-IsInRange [] h = _
put_records-IsInRange (p ∷ ps) (h, hs) =
    (put_record-IsInRange p.0 p.1 h, put_records-IsInRange ps hs)

module _ (B : ByteOrder) (H : Hashes) (a : IntegrityAlgorithm) where
  pub length-put_records :
      (ps : List (Bytes × Bytes)) → length ps ≤ length (log_bytes B H a (put_records ps))
  unfolding log_bytes
  length-put_records [] = omega arith
  length-put_records (p ∷ ps) = omega (
    arith,
    length-append (record_bytes B H a (put_record p.0 p.1)) (log_bytes B H a (put_records ps)),
    length-record_bytes B H a (put_record p.0 p.1),
    length-put_records ps,
  )

  -- The loop goes on behind the puts that are read.
  pub recover_loop-Reads :
      (ps : List (Bytes × Bytes)) (f : MemoryFile) (r r' : WriteAheadLogReader)
      (segment_id offset fuel clock : ℕ) (m : MemTable) (o : Outcome)
      → All FitsRecord ps
      → Reads B H f r' r (entries B H a segment_id offset (put_records ps))
      → ((n : ℕ) → recover_loop B H f (suc n) r' (put_all clock m ps).0 (put_all clock m ps).1 ≡ o)
      → length ps < fuel
      → recover_loop B H f fuel r clock m ≡ o
  unfolding put_all entries recover_loop
  recover_loop-Reads ps f r r' segment_id offset zero clock m o h reads end l = absurd (omega arith)
  recover_loop-Reads [] f r r' segment_id offset (suc fuel) clock m o h done end l = end fuel
  recover_loop-Reads (p ∷ ps) f r r' segment_id offset (suc fuel) clock m o (h, hs) (entry e reads)
        end l =
      rw
        (
          recover_loop,
          e,
          apply_put clock m p (record { segment_id = segment_id; offset = offset }) h,
        )
        (recover_loop-Reads ps f _ r' segment_id _ fuel _ _ o hs reads end (omega arith))

loop_end :
    (B : ByteOrder) (H : Hashes) (f : MemoryFile) (r : WriteAheadLogReader) (n clock : ℕ)
    (m : MemTable)
    → next B H r f ≡ some (ok none, r)
    → recover_loop B H f (suc n) r clock m ≡ recovered clock m
unfolding recover_loop
loop_end B H f r n clock m e = rw (recover_loop, e)

-- Puts that are appended to an open segment as one batch are all recovered: the loop, started at
-- the offset where the segment ended before, ends without an error, and leaves the table as after
-- committing the puts in their order, each at the next timestamp.
pub recover_from_wal-append_batch :
    (B : ByteOrder) (H : Hashes) (s : WriteAheadLogFile) (ps : List (Bytes × Bytes))
    (d : Durability) (clock : ℕ) (m : MemTable)
    → IsOpen s
    → All FitsRecord ps
    → recover_from_wal B H
        (append_batch B H s (put_records ps) d).1.file
        (reader_from_offset (append_batch B H s (put_records ps) d).1 s.write_offset)
        clock
        m
      ≡ recovered (put_all clock m ps).0 (put_all clock m ps).1
unfolding recover_from_wal get_size append_batch
recover_from_wal-append_batch B H s ps d clock m h fits =
    let cs = put_records ps in
    let t = (append_all B H s zero_lsn cs).1 in
    let (e, _, _, _) = append_all-IsOpen B H cs s zero_lsn h in
    let (r', reads, end, _) = append_batch-Reads B H s cs d h (put_records-IsInRange ps fits) in
    let size : length (bytes t.file)
        ≡ length (bytes s.file) + length (log_bytes B H s.integrity cs) =
      rw e (length-append (bytes s.file) (log_bytes B H s.integrity cs)) in
    let size_settled : length (bytes (append_batch B H s cs d).1.file) ≡ length (bytes t.file) =
      ap (λ x. length (bytes x.file)) (settle_lem B H d t) in
    recover_loop-Reads B H s.integrity ps (append_batch B H s cs d).1.file _ r' s.segment_id
      s.write_offset _ clock m _ fits reads
      (λ n. loop_end B H (append_batch B H s cs d).1.file r' n _ _ end)
      (omega (arith, length-put_records B H s.integrity ps))
