-- ===== src/Wal/Lsn.antt =====
-- `LogSequenceNumber` of nanograph-wal/src/lsn.rs and the errors of nanograph-wal/src/result.rs
-- that the log itself gives.
use nanograph.Prelude.{ℕ, ◌<◌, ◌≡◌, ◌⊎◌}

pub record LogSequenceNumber : Type 0 where
  pub segment_id : ℕ
  pub offset : ℕ

-- The derived order: by segment, then by offset.
infix 50 ◌≺◌
unfoldable pub ◌≺◌ : LogSequenceNumber → LogSequenceNumber → Type 0
a ≺ b = (a.segment_id < b.segment_id) ⊎ ((a.segment_id ≡ b.segment_id) × (a.offset < b.offset))

abbrev pub header_size : ℕ
header_size = 69

abbrev pub zero_lsn : LogSequenceNumber
zero_lsn = record { segment_id = 0; offset = header_size }

-- `delete_failed` stands for the wrapped error of a segment whose file could not be removed.
pub data WriteAheadLogError : Type 0 where
  corruption : LogSequenceNumber → WriteAheadLogError
  invalid_lsn : WriteAheadLogError
  version_mismatch : WriteAheadLogError
  checksum_mismatch : WriteAheadLogError
  delete_failed : ℕ → WriteAheadLogError
