-- ===== src/Wal/Manager/Truncate.antt =====
-- What can still be read after `truncate_before` of nanograph-wal/src/manager.rs.
use nanograph.Prelude.{ℕ, ◌≡◌, err, Bool, ◌||◌, leb, ◌==◌, List, [], ◌∷◌, arith, if◌then◌else◌}
use nanograph.Wal.Lsn.{LogSequenceNumber, invalid_lsn}
use nanograph.Wal.Segment.{WriteAheadLogFile}
use nanograph.Wal.Manager.{
  WriteAheadLogManager, find_archived, reader_from, retained, truncate_before,
}

find_archived-retained :
    (id : ℕ) (ss : List WriteAheadLogFile) (lsn : LogSequenceNumber)
    → find_archived (retained id ss) lsn
      ≡ (if leb id lsn.segment_id then find_archived ss lsn else err invalid_lsn)
unfolding find_archived retained
find_archived-retained id [] lsn = ground arith
find_archived-retained id (s ∷ ss) lsn = ground (arith, find_archived-retained id ss lsn)

-- Truncation keeps every position from the given segment on, and every one in the active segment,
-- readable as before, and every other position is refused from then on; whether the files could
-- be removed makes no difference to that.
pub reader_from-truncate_before :
    (remove : ℕ → Bool) (m : WriteAheadLogManager) (lsn at : LogSequenceNumber)
    → reader_from (truncate_before remove m lsn).1 at ≡ (
        if leb lsn.segment_id at.segment_id || (m.active_segment.segment_id == at.segment_id)
        then reader_from m at
        else err invalid_lsn)
unfolding reader_from truncate_before find_archived
reader_from-truncate_before remove m lsn at =
    ground (arith, find_archived-retained lsn.segment_id m.archived_segments at)
