-- ===== src/Lsm/Recovery/Crash.antt =====
-- `recover_from_wal` of nanograph-lsm/src/engine.rs after a crash in the middle of an append.
use nanograph.Prelude.{
  ℕ, suc, ◌+◌, ◌≤◌, ◌<◌, ◌≡◌, refl, sym, ◌∙◌, some, err, false, ◌&&◌, ◌==◌, List, ◌++◌, length,
  take, length-append, arith,
}
use mathlib.Core.List.{append_assoc}
use nanograph.Bytes.{Bytes}
use nanograph.BTree.Entries.{All}
use nanograph.Util.Integrity.{Hashes}
use nanograph.Vfs.MemoryFile.{MemoryFile, bytes, get_size}
use nanograph.Wal.Lsn.{corruption}
use nanograph.Wal.Header.{ByteOrder}
use nanograph.Wal.Segment.{record_bytes}
use nanograph.Wal.Reader.{WriteAheadLogReader, next, at}
use nanograph.Wal.Log.Replay.{log_bytes, log_bytes-Reads, moved}
use nanograph.Wal.Log.Torn.{next_torn_late}
use nanograph.Lsm.Records.{storage_corruption}
use nanograph.Lsm.Records.Logged.{put_record, put_record-IsInRange}
use nanograph.Lsm.MemTable.{MemTable}
use nanograph.Lsm.Recovery.{failed, recover_loop, recover_from_wal}
use nanograph.Lsm.Recovery.Replayed.{
  FitsRecord, put_records, put_records-IsInRange, length-put_records, recover_loop-Reads,
}

loop_corrupt :
    (B : ByteOrder) (H : Hashes) (f : MemoryFile) (r : WriteAheadLogReader) (n clock : ℕ)
    (m : MemTable)
    → 0 < r.offset
    → next B H r f ≡ some (err (corruption (at r)), r)
    → recover_loop B H f (suc n) r clock m ≡ failed storage_corruption
unfolding recover_loop
loop_corrupt B H f r n clock m h e =
    let later : ((r.segment_id == 0) && (r.offset == 0)) ≡ false = ground arith in
    rw (recover_loop, e, later)

-- Where the log ends in a put of which ten bytes or more reached the file, and not all, the
-- recovery fails with an error, however many whole puts stand before it, and gives no table: the
-- engine does not open after a crash in the middle of an append.
pub recover_from_wal-torn :
    (B : ByteOrder) (H : Hashes) (r : WriteAheadLogReader) (f : MemoryFile) (before : Bytes)
    (ps : List (Bytes × Bytes)) (p : Bytes × Bytes) (n clock : ℕ) (m : MemTable)
    → All FitsRecord ps
    → FitsRecord p
    → 10 ≤ n
    → n < length (record_bytes B H r.integrity (put_record p.0 p.1))
    → bytes f
      ≡ before
        ++ (log_bytes B H r.integrity (put_records ps)
            ++ take n (record_bytes B H r.integrity (put_record p.0 p.1)))
    → r.offset ≡ length before
    → 0 < r.offset
    → recover_from_wal B H f r clock m ≡ failed storage_corruption
unfolding recover_from_wal get_size
recover_from_wal-torn B H r f before ps p n clock m fits fit late h e l inside =
    let a = r.integrity in
    let cs = put_records ps in
    let log = log_bytes B H a cs in
    let part = take n (record_bytes B H a (put_record p.0 p.1)) in
    let r' = moved B H a r (r.offset + length log) in
    let reads =
      log_bytes-Reads B H a cs r f before part _ (put_records-IsInRange ps fits) refl e l refl in
    let torn =
      next_torn_late B H a (put_record p.0 p.1) r' f (before ++ log) n
        (put_record-IsInRange p.0 p.1 fit) late h (e ∙ sym (append_assoc before log part))
        (omega (arith, length-append before log)) in
    let size : length (bytes f) ≡ length before + length (log ++ part) =
      rw e (length-append before (log ++ part)) in
    recover_loop-Reads B H a ps f r r' r.segment_id r.offset _ clock m _ fits reads
      (λ k. loop_corrupt B H f r' k _ _ (omega arith) torn)
      (omega (arith, length-put_records B H a ps, length-append log part))
