-- ===== src/Lsm/Recovery.antt =====
-- `recover_from_wal` of nanograph-lsm/src/engine.rs: the loop over the log's entries, into the
-- table in memory. `clock` is `GLOBAL_TIMESTAMP`. The loop runs on fuel; a reader moves on by at
-- least 14 bytes with every entry, so that the size of the file is enough.
pub mod Replayed
pub mod Crash
mod Tests
use nanograph.Prelude.{
  ℕ, zero, suc, ◌+◌, ◌%◌, ◌^◌, Option, none, some, Result, ok, err, Bool, false, ◌&&◌, ◌==◌,
  if◌then◌else◌,
}
use nanograph.Bytes.{Bytes}
use nanograph.Util.Integrity.{Hashes}
use nanograph.Vfs.MemoryFile.{MemoryFile, get_size}
use nanograph.Wal.Lsn.{LogSequenceNumber, WriteAheadLogError, corruption}
use nanograph.Wal.Header.{ByteOrder}
use nanograph.Wal.Reader.{WriteAheadLogReader, WriteAheadLogEntry, next}
use nanograph.Lsm.Records.{
  WalRecordKind, put, delete, put_committed, delete_committed, commit, checkpoint, flush_complete,
  from_u16, KeyValueError, storage_corruption, decode_put, decode_delete, decode_put_committed,
  decode_delete_committed,
}
use nanograph.Lsm.MemTable.{MemTable}
use nanograph.Lsm.MemTable

-- What the loop ends with: the clock and the table, an error, a panic, or no fuel.
pub data Outcome : Type 0 where
  recovered : ℕ → MemTable → Outcome
  failed : KeyValueError → Outcome
  panicked : Outcome
  out_of_fuel : Outcome

-- A timestamp in two's complement, counted from the least i64.
abbrev pub biased : ℕ → ℕ
biased ts = (ts + 2 ^ 63) % 2 ^ 64

abbrev pub tick : ℕ → ℕ
tick clock = (clock + 1) % 2 ^ 64

-- `decode(...)?` with what follows it.
abbrev pub decoded : {A : Type 0} → Option (Result A KeyValueError) → (A → Outcome) → Outcome
decoded none rest = panicked
decoded (some (err e)) rest = failed e
decoded (some (ok v)) rest = rest v

-- One entry of the log.
unfoldable pub apply_entry : ℕ → MemTable → WriteAheadLogEntry → Outcome
apply_entry clock m e = elim (from_u16 e.kind) [
  | none ↦ recovered clock m
  | some k ↦ elim k [
    | put ↦
        decoded (decode_put e.payload)
          (λ p. recovered (tick clock) (MemTable.put_committed m p.0 p.1 (biased clock)).1)
    | put_committed ↦
        decoded (decode_put_committed e.payload)
          (λ p. recovered clock (MemTable.put_committed m p.0 p.1 (biased p.2)).1)
    | delete ↦
        decoded (decode_delete e.payload)
          (λ key. recovered (tick clock) (MemTable.delete_committed m key (biased clock)).1)
    | delete_committed ↦
        decoded (decode_delete_committed e.payload)
          (λ p. recovered clock (MemTable.delete_committed m p.0 (biased p.1)).1)
    | commit ↦ recovered clock m
    | checkpoint ↦ recovered clock m
    | flush_complete ↦ recovered clock m
  ]
]

-- The error that the loop takes for the end of an empty log.
abbrev pub is_start : WriteAheadLogError → Bool
is_start (corruption lsn) = (lsn.segment_id == 0) && (lsn.offset == 0)
is_start _ = false

module _ (B : ByteOrder) (H : Hashes) (f : MemoryFile) where
  unfoldable pub recover_loop : ℕ → WriteAheadLogReader → ℕ → MemTable → Outcome
  recover_loop zero r clock m = out_of_fuel
  recover_loop (suc fuel) r clock m = elim (next B H r f) [
    | none ↦ panicked
    | some (err e, r') ↦ if is_start e then recovered clock m else failed storage_corruption
    | some (ok none, r') ↦ recovered clock m
    | some (ok (some e), r') ↦ elim (apply_entry clock m e) [
      | recovered clock' m' ↦ recover_loop fuel r' clock' m'
      | failed x ↦ failed x
      | panicked ↦ panicked
      | out_of_fuel ↦ out_of_fuel
    ]
  ]

  unfoldable pub recover_from_wal : WriteAheadLogReader → ℕ → MemTable → Outcome
  recover_from_wal r clock m = recover_loop (suc (get_size f)) r clock m
