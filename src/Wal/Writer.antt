-- ===== src/Wal/Writer.antt =====
-- `WriteAheadLogWriter` of nanograph-wal/src/writer.rs, without its metrics, and `Durability` of
-- nanograph-wal/src/config.rs. A method takes the active segment and returns it after the call.
use nanograph.Prelude.{List, [], ◌∷◌}
use nanograph.Util.Integrity.{Hashes}
use nanograph.Wal.Lsn.{LogSequenceNumber, zero_lsn}
use nanograph.Wal.Header.{ByteOrder}
use nanograph.Wal.Segment.{WriteAheadLogFile, WriteAheadLogRecord}
use nanograph.Wal.Segment

pub data Durability : Type 0 where
  unsynced : Durability
  buffered : Durability
  synced : Durability

unfoldable pub settle : Durability → WriteAheadLogFile → WriteAheadLogFile
settle unsynced s = s
settle buffered s = Segment.flush s
settle synced s = Segment.sync s

module _ (B : ByteOrder) (H : Hashes) where
  unfoldable pub append :
      WriteAheadLogFile → WriteAheadLogRecord → Durability → LogSequenceNumber × WriteAheadLogFile
  append s r durability = let (lsn, s') = Segment.append B H s r in (lsn, settle durability s')

  -- The loop over the records, with the LSN of the last one.
  unfoldable pub append_all :
      WriteAheadLogFile
      → LogSequenceNumber
      → List WriteAheadLogRecord
      → LogSequenceNumber × WriteAheadLogFile
  append_all s last_lsn [] = (last_lsn, s)
  append_all s last_lsn (r ∷ rs) = let (lsn, s') = Segment.append B H s r in append_all s' lsn rs

  unfoldable pub append_batch :
      WriteAheadLogFile
      → List WriteAheadLogRecord
      → Durability
      → LogSequenceNumber × WriteAheadLogFile
  append_batch s rs durability =
      let (lsn, s') = append_all s zero_lsn rs in (lsn, settle durability s')

unfoldable pub tail_lsn : WriteAheadLogFile → LogSequenceNumber
tail_lsn s = Segment.tail_lsn s
