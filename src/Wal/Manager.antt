-- ===== src/Wal/Manager.antt =====
-- `WriteAheadLogManager` of nanograph-wal/src/manager.rs: the active segment and the archived ones.
-- `remove` says whether the file system removes the file of a segment.
pub mod Truncate
pub mod Head
use nanograph.Prelude.{
  ℕ, Option, none, some, Result, ok, err, Bool, not, ◌==◌, ltb, leb, List, [], ◌∷◌, map,
  if◌then◌else◌,
}
use nanograph.Wal.Lsn.{LogSequenceNumber, WriteAheadLogError, invalid_lsn, delete_failed}
use nanograph.Prelude.Options.{◌>>=◌}
use nanograph.Bytes.{Bytes}
use nanograph.Util.Integrity.{Hashes, IntegrityAlgorithm}
use nanograph.Util.Compression.{CompressionAlgorithm}
use nanograph.Util.Encryption.{EncryptionAlgorithm}
use nanograph.Vfs.MemoryFile.{MemoryFile, unlocked}
use nanograph.Wal.Header.{ByteOrder}
use nanograph.Wal.Segment.{WriteAheadLogFile, create, open_existing}
use nanograph.Wal.Segment
use nanograph.Wal.Reader.{WriteAheadLogReader, reader_from_offset}

pub record WriteAheadLogManager : Type 0 where
  pub active_segment : WriteAheadLogFile
  pub archived_segments : List WriteAheadLogFile

pub record WriteAheadLogConfig : Type 0 where
  pub shard_id : ℕ
  pub max_segment_size : ℕ
  pub sync_on_rotate : Bool
  pub checksum : IntegrityAlgorithm
  pub compression : CompressionAlgorithm
  pub encryption : EncryptionAlgorithm
  pub encryption_key : Option Bytes

abbrev pub empty_file : MemoryFile
empty_file = record { cursor = 0; data_ = record { buffer = []; lock = unlocked } }

abbrev pub with_active : WriteAheadLogFile → WriteAheadLogManager
with_active s = record { active_segment = s; archived_segments = [] }

-- `new` at the clock's time, where the file of segment 0 exists already or does not.
unfoldable pub new :
    ByteOrder
    → Hashes
    → ℕ
    → Option MemoryFile
    → WriteAheadLogConfig
    → Option (Result WriteAheadLogManager WriteAheadLogError)
new B H now none config = some (
    ok (
      with_active (
        create B H now empty_file config.shard_id 0 0 config.checksum config.compression
          config.encryption 0)))
new B H now (some file) config = open_existing B H file >>= λ opened. elim opened [
  | ok s ↦ some (ok (with_active s))
  | err e ↦ some (err e)
]

-- The loop over the archived segments.
unfoldable pub find_archived :
    List WriteAheadLogFile → LogSequenceNumber → Result WriteAheadLogReader WriteAheadLogError
find_archived [] lsn = err invalid_lsn
find_archived (s ∷ ss) lsn =
    if s.segment_id == lsn.segment_id
    then ok (reader_from_offset s lsn.offset)
    else find_archived ss lsn

unfoldable pub reader_from :
    WriteAheadLogManager → LogSequenceNumber → Result WriteAheadLogReader WriteAheadLogError
unfolding find_archived
reader_from m lsn =
    if m.active_segment.segment_id == lsn.segment_id
    then ok (reader_from_offset m.active_segment lsn.offset)
    else find_archived m.archived_segments lsn

unfoldable pub head_lsn : WriteAheadLogManager → LogSequenceNumber
head_lsn m = elim m.archived_segments [
  | [] ↦ Segment.start_lsn m.active_segment
  | first ∷ _ ↦ Segment.start_lsn first
]

unfoldable pub tail_lsn : WriteAheadLogManager → LogSequenceNumber
tail_lsn m = Segment.tail_lsn m.active_segment

-- `retain` of the segments from an id on, and the ids of the others.
unfoldable pub retained : ℕ → List WriteAheadLogFile → List WriteAheadLogFile
retained id [] = []
retained id (s ∷ ss) = let rest = retained id ss in if leb id s.segment_id then s ∷ rest else rest

unfoldable pub segments_to_delete : ℕ → List WriteAheadLogFile → List ℕ
segments_to_delete id [] = []
segments_to_delete id (s ∷ ss) =
    let rest = segments_to_delete id ss in if ltb s.segment_id id then s.segment_id ∷ rest else rest

-- The first id whose file could not be removed; the loop goes on behind it.
unfoldable pub first_failed : (ℕ → Bool) → List ℕ → Option ℕ
first_failed remove [] = none
first_failed remove (id ∷ ids) =
    let later = first_failed remove ids in if remove id then later else some id

unfoldable pub truncate_before :
    (ℕ → Bool)
    → WriteAheadLogManager
    → LogSequenceNumber
    → Option WriteAheadLogError × WriteAheadLogManager
truncate_before remove m lsn = (
  (elim (first_failed remove (segments_to_delete lsn.segment_id m.archived_segments)) [
    | none ↦ none
    | some id ↦ some (delete_failed id)
  ]),
  record m { archived_segments = retained lsn.segment_id m.archived_segments },
)
