-- ===== src/Lsm/MemTable/Tests.antt =====
-- Runs of the table in memory of nanograph-lsm.
use nanograph.Prelude.{◌≡◌, refl, some, none, [], ◌∷◌, arith, if◌then◌else◌}
use nanograph.Bytes.{Bytes, same}
use nanograph.Lsm.MemTable.{
  MemTable, inline, new, put, put_committed, delete, delete_committed, commit_entry, clear, get,
  get_at_snapshot, entry_size, location_size,
}
use nanograph.Lsm.MemTable.Size.{IsSized, total_size, writes-IsSized}
use nanograph.Lsm.MemTable.Reads.{written, get_after_write, get_at_snapshot-overwritten}

abbrev key : Bytes
key = 107 ∷ 49 ∷ []

abbrev value : Bytes
value = 118 ∷ []

-- A table with one committed entry.
abbrev one_entry : MemTable
one_entry = record {
  data_ =
      (key, record { key = key; value = some (inline value); sequence = 0; commit_ts = some 5 })
      ∷ [];
  size = 19;
  sequence = 1;
}

one_entry-IsSized : IsSized one_entry
unfolding total_size entry_size location_size
one_entry-IsSized = refl

writes-IsSized_example :
    IsSized new
    × IsSized (put one_entry key (118 ∷ 118 ∷ [])).1
    × IsSized (put_committed one_entry key (118 ∷ 118 ∷ []) 9).1
    × IsSized (delete one_entry key).1
    × IsSized (delete_committed one_entry key 9).1
    × IsSized (commit_entry one_entry key 9).1
    × IsSized (clear one_entry)
writes-IsSized_example = writes-IsSized one_entry key (118 ∷ 118 ∷ []) 9 one_entry-IsSized

get_after_write_example :
    (get (put one_entry key value).1 key ≡ (
      if same key key
      then some (written one_entry key (some (inline value)) none)
      else get one_entry key))
    × (get (put_committed one_entry key value 9).1 key ≡ (
        if same key key
        then some (written one_entry key (some (inline value)) (some 9))
        else get one_entry key))
    × (get (delete one_entry key).1 key
        ≡ (if same key key then some (written one_entry key none none) else get one_entry key))
    × (get (delete_committed one_entry key 9).1 key
        ≡ (if same key key then some (written one_entry key none (some 9)) else get one_entry key))
get_after_write_example = get_after_write one_entry key key value 9

get_at_snapshot-overwritten_example :
    (get_at_snapshot (put one_entry key value).1 key 7 ≡ none)
    × (get_at_snapshot (put_committed one_entry key value 9).1 key 7 ≡ none)
    × (get_at_snapshot (delete_committed one_entry key 9).1 key 7 ≡ none)
get_at_snapshot-overwritten_example =
    get_at_snapshot-overwritten one_entry key value 9 7 (omega arith)
