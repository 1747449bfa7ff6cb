-- ===== src/Lsm/Compaction/Tests.antt =====
-- Runs of the compaction of nanograph-lsm/src/compaction.rs.
use nanograph.Prelude.{
  ℕ, inl, ◌++◌, ◌+◌, ◌≡◌, ◌⊎◌, ◌<◌, ◌≤◌, length, refl, none, some, Bool, List, [], ◌∷◌, get_elem?,
  arith,
}
use nanograph.Bytes.{Bytes, cmp}
use nanograph.Lsm.MemTable.{Entry, ValueLocation, inline, is_deletion, entry_size, location_size}
use nanograph.Lsm.Compaction.{
  SsTableMetadata, merge_loop, cursors, pop, advance, greater, cmp_entries, deduplicate_and_filter,
  filter_from, CompactionStrategy, select_compaction, select_level, target_size, level_size,
  execute, find_overlapping_sstables, merge_sstables, batches,
}
use nanograph.Lsm.Compaction.Merged.{count, count_all, merge_sstables_total}
use nanograph.Lsm.Compaction.Batched.{joined, AllFit, batches-AllFit}
use nanograph.Lsm.Compaction.Order.{IsOrdered}
use nanograph.Lsm.Compaction.Filtered.{has_key, deletes, is_older}
use nanograph.Lsm.Compaction.Oldest.{execute-NoneOlder}
use nanograph.BTree.Entries.{All}
use nanograph.Lsm.Compaction.Due.{select_compaction_within}
use nanograph.Lsm.Compaction.Chosen.{find_overlapping_sstables_meets}

abbrev entry : ℕ → ValueLocation → ℕ → Entry
entry k v n = record { key = k ∷ []; value = some v; sequence = n; commit_ts = none }

abbrev first_write : Entry
first_write = entry 7 (inline (1 ∷ [])) 1

abbrev second_write : Entry
second_write = entry 7 (inline (2 ∷ [])) 2

abbrev table : ℕ → ℕ → SsTableMetadata
table low high = record {
  file_number = low;
  level = 1;
  min_key = low ∷ [];
  max_key = high ∷ [];
  min_sequence = 0;
  max_sequence = 9;
  entry_count = 2;
  file_size = 64;
  created_at = 0;
}

-- The newer write in the source, the older in the target.
abbrev newer_tables : List (List Entry)
newer_tables = (second_write ∷ entry 9 (inline []) 3 ∷ []) ∷ []

abbrev older_tables : List (List Entry)
older_tables = (first_write ∷ []) ∷ []

tables-IsOrdered : All IsOrdered (newer_tables ++ older_tables)
unfolding cmp
tables-IsOrdered = ((inl refl, tt), (tt, tt))

execute-NoneOlder_example :
    (out : List (List Entry)) × (execute 4096 newer_tables older_tables ≡ some out)
    × All
        (λ o. count_all (is_older o) newer_tables + count_all (is_older o) older_tables ≡ 0)
        (joined out)
    × ((k : Bytes)
        → (count_all (has_key k) newer_tables + count_all (has_key k) older_tables ≡ 0)
          ⊎ (1 ≤ count_all (deletes k) newer_tables + count_all (deletes k) older_tables)
          ⊎ (1 ≤ count (has_key k) (joined out)))
execute-NoneOlder_example = execute-NoneOlder 4096 newer_tables older_tables tables-IsOrdered

-- The second write of the key 7 is dropped.
execute_run :
    execute 4096 newer_tables older_tables ≡ some ((first_write ∷ entry 9 (inline []) 3 ∷ []) ∷ [])
unfolding execute merge_sstables merge_loop cursors pop advance greater cmp_entries cmp
    deduplicate_and_filter filter_from batches entry_size location_size is_deletion
execute_run = refl

merge_sstables_total_example :
    (es : List Entry) × (merge_sstables ((second_write ∷ []) ∷ []) ((first_write ∷ []) ∷ [])
      ≡ some es)
    × ((p : Entry → Bool)
        → count p es
          ≡ count_all p ((second_write ∷ []) ∷ []) + count_all p ((first_write ∷ []) ∷ []))
merge_sstables_total_example =
    merge_sstables_total ((second_write ∷ []) ∷ []) ((first_write ∷ []) ∷ [])

batches-AllFit_example :
    (joined (batches 20 [] 0 (first_write ∷ second_write ∷ [])) ≡ first_write ∷ second_write ∷ [])
    × AllFit 20 (batches 20 [] 0 (first_write ∷ second_write ∷ []))
batches-AllFit_example = batches-AllFit 20 (first_write ∷ second_write ∷ [])

find_overlapping_sstables_meets_example :
    (n : ℕ) × (get_elem?
        (find_overlapping_sstables (table 1 4 ∷ table 3 8 ∷ []) (table 0 0 ∷ table 6 9 ∷ []))
        n
      ≡ some (table 6 9))
unfolding cmp
find_overlapping_sstables_meets_example =
    find_overlapping_sstables_meets (table 1 4 ∷ table 3 8 ∷ []) (table 0 0 ∷ table 6 9 ∷ []) 1 1
      (table 3 8) (table 6 9) (7 ∷ []) refl refl refl refl refl refl

abbrev strategy : CompactionStrategy
strategy = record {
  level_size_multiplier = 10;
  max_level = 7;
  level0_file_num_compaction_trigger = 4;
}

abbrev small_levels : List (List SsTableMetadata)
small_levels = (table 0 3 ∷ []) ∷ (table 1 4 ∷ []) ∷ []

abbrev second_level : ℕ
second_level = 1

select_compaction_within_example :
    ((second_level ≡ 0) × (length (table 1 4 ∷ []) < strategy.level0_file_num_compaction_trigger))
    ⊎ ((1 ≤ second_level) × (level_size (table 1 4 ∷ []) ≤ target_size strategy second_level 1024))
unfolding select_compaction select_level target_size
select_compaction_within_example =
    select_compaction_within strategy small_levels 1024 second_level (table 1 4 ∷ []) refl refl
      (omega arith)
