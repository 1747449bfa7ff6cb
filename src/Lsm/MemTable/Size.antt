-- ===== src/Lsm/MemTable/Size.antt =====
-- The size that the table of nanograph-lsm/src/memtable.rs keeps.
use nanograph.Prelude.{ℕ, ◌+◌, ◌≡◌, refl, sym, ◌∙◌, Option, none, some, [], ◌∷◌, arith}
use nanograph.Bytes.{Bytes}
use nanograph.Lsm.MemTable.{
  Entry, Data, MemTable, ValueLocation, entry_size, map_insert, new, store, adjusted, put,
  put_committed, delete, delete_committed, commit_data, commit_entry, clear,
}

unfoldable pub total_size : Data → ℕ
total_size [] = 0
total_size ((k, e) ∷ rest) = entry_size e + total_size rest

-- The counter is the sum of the sizes of the entries.
abbrev pub IsSized : MemTable → Type 0
IsSized m = m.size ≡ total_size m.data_

abbrev old_size : Option Entry → ℕ
old_size none = 0
old_size (some e) = entry_size e

total_size-map_insert :
    (k : Bytes) (e : Entry) (m : Data)
    → total_size (map_insert k e m).1 + old_size (map_insert k e m).0 ≡ total_size m + entry_size e
unfolding total_size map_insert
total_size-map_insert k e [] = ground arith
total_size-map_insert k e ((h, x) ∷ rest) = ground (arith, total_size-map_insert k e rest)

store-IsSized :
    (m : MemTable) (k : Bytes) (v : Option ValueLocation) (ts : Option ℕ)
    → IsSized m
    → IsSized (store m k v ts).1
unfolding store adjusted
store-IsSized m k v ts h =
    let e : Entry = record { key = k; value = v; sequence = m.sequence; commit_ts = ts } in
    ground (arith, total_size-map_insert k e m.data_)

total_size-commit_data :
    (k : Bytes) (ts : ℕ) (m : Data) → total_size (commit_data k ts m).1 ≡ total_size m
unfolding total_size commit_data entry_size
total_size-commit_data k ts [] = refl
total_size-commit_data k ts ((h, x) ∷ rest) = ground (arith, total_size-commit_data k ts rest)

-- In a new table the size is the sum of the sizes of the entries, and every write, commit and
-- clearing keeps it so: overwriting an entry adds or takes away the difference exactly.
pub writes-IsSized :
    (m : MemTable) (k v : Bytes) (ts : ℕ)
    → IsSized m
    → IsSized new
      × IsSized (put m k v).1
      × IsSized (put_committed m k v ts).1
      × IsSized (delete m k).1
      × IsSized (delete_committed m k ts).1
      × IsSized (commit_entry m k ts).1
      × IsSized (clear m)
unfolding new put put_committed delete delete_committed commit_entry clear total_size
writes-IsSized m k v ts h = (
  refl,
  store-IsSized m k _ _ h,
  store-IsSized m k _ _ h,
  store-IsSized m k _ _ h,
  store-IsSized m k _ _ h,
  h ∙ sym (total_size-commit_data k ts m.data_),
  refl,
)
