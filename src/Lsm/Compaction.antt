-- ===== src/Lsm/Compaction.antt =====
-- `CompactionStrategy`, and the merge of `CompactionExecutor`, of nanograph-lsm/src/compaction.rs.
-- The entries of a table are a list here: the files they are read from and written to are left out.
-- The `BinaryHeap` of the merge is a list of cursors, each an entry with those that follow it in its
-- table; a table has one entry at most in the heap. The loop of the merge runs on fuel; every round
-- takes one entry, so that their number is enough.
pub mod Merged
pub mod Order
pub mod Filtered
pub mod Oldest
pub mod Batched
pub mod Chosen
pub mod Due
mod Tests
use mathlib.Core.Option
use Prim.Native.Nat.Ordering.{lt, eq, gt}
use nanograph.Prelude.{
  ℕ, zero, suc, ◌+◌, ◌*◌, ◌-◌, ◌%◌, ◌^◌, Option, none, some, Bool, true, false, not, ◌&&◌, ◌||◌,
  List, [], ◌∷◌, ◌++◌, length, compare, Ordering, ltb, leb, ◌==◌, if◌then◌else◌,
}
use nanograph.Bytes.{Bytes, cmp, before, same}
use nanograph.Lsm.MemTable.{Entry, entry_size, is_deletion}

-- `SSTableMetadata` of nanograph-lsm/src/sstable.rs.
pub record SsTableMetadata : Type 0 where
  pub file_number : ℕ
  pub level : ℕ
  pub min_key : Bytes
  pub max_key : Bytes
  pub min_sequence : ℕ
  pub max_sequence : ℕ
  pub entry_count : ℕ
  pub file_size : ℕ
  pub created_at : ℕ

pub record CompactionTask : Type 0 where
  pub source_level : ℕ
  pub target_level : ℕ
  pub source_sstables : List SsTableMetadata
  pub target_sstables : List SsTableMetadata

pub record CompactionStrategy : Type 0 where
  pub level_size_multiplier : ℕ
  pub max_level : ℕ
  pub level0_file_num_compaction_trigger : ℕ

unfoldable pub target_size : CompactionStrategy → ℕ → ℕ → ℕ
target_size c zero base_size = 0
target_size c (suc level) base_size = (base_size * c.level_size_multiplier ^ suc level) % 2 ^ 64

-- `iter().min()` and `iter().max()` of the bounds of tables, from those of the first.
unfoldable pub lowest_key : Bytes → List SsTableMetadata → Bytes
lowest_key k [] = k
lowest_key k (s ∷ ss) = lowest_key (if before s.min_key k then s.min_key else k) ss

unfoldable pub highest_key : Bytes → List SsTableMetadata → Bytes
highest_key k [] = k
highest_key k (s ∷ ss) = highest_key (if before s.max_key k then k else s.max_key) ss

-- The tables that do not end before `min_key` or start after `max_key`.
unfoldable pub overlapping : Bytes → Bytes → List SsTableMetadata → List SsTableMetadata
overlapping min_key max_key [] = []
overlapping min_key max_key (t ∷ ts) =
    let rest = overlapping min_key max_key ts in
    if before t.max_key min_key || before max_key t.min_key then rest else t ∷ rest

unfoldable pub find_overlapping_sstables :
    List SsTableMetadata → List SsTableMetadata → List SsTableMetadata
find_overlapping_sstables [] target = []
find_overlapping_sstables (s ∷ ss) target =
    overlapping (lowest_key s.min_key ss) (highest_key s.max_key ss) target

abbrev pub level_size : List SsTableMetadata → ℕ
level_size [] = 0
level_size (s ∷ ss) = (s.file_size + level_size ss) % 2 ^ 64

-- The loop over the levels from 1 on: `count` levels are left to look at, from `level` on.
unfoldable pub select_level :
    CompactionStrategy → ℕ → ℕ → ℕ → List (List SsTableMetadata) → Option CompactionTask
select_level c base_size zero level levels = none
select_level c base_size (suc count) level [] = none
select_level c base_size (suc count) level ([] ∷ ls) = select_level c base_size count (suc level) ls
select_level c base_size (suc count) level ((s ∷ ss) ∷ ls) =
    let rest = select_level c base_size count (suc level) ls in
    if ltb (target_size c level base_size) (level_size (s ∷ ss))
    then some (record {
      source_level = level;
      target_level = suc level;
      source_sstables = s ∷ [];
      target_sstables = elim ls [ [] ↦ [] | next ∷ _ ↦ find_overlapping_sstables (s ∷ []) next ];
    })
    else rest

-- Outside, `none` is a panic: there is no level 0, or no level 1 to compact it into.
unfoldable pub select_compaction :
    CompactionStrategy → List (List SsTableMetadata) → ℕ → Option (Option CompactionTask)
select_compaction c [] base_size = none
select_compaction c (level0 ∷ ls) base_size =
    if leb c.level0_file_num_compaction_trigger (length level0)
    then elim ls [
      | [] ↦ none
      | level1 ∷ _ ↦ some (
          some (record {
            source_level = 0;
            target_level = 1;
            source_sstables = level0;
            target_sstables = find_overlapping_sstables level0 level1;
          }))
    ]
    else some (select_level c base_size (c.max_level - 1) 1 ls)

-- `MergeEntry` with the index of its iterator, and what that iterator has left.
pub record Cursor : Type 0 where
  pub entry : Entry
  pub index : ℕ
  pub left : List Entry

-- `Ord::cmp` of `MergeEntry`.
unfoldable pub cmp_entries : Entry → Entry → Ordering
cmp_entries a b = elim (cmp b.key a.key) [ lt ↦ lt | eq ↦ compare b.sequence a.sequence | gt ↦ gt ]

-- The order of the pairs in the heap.
unfoldable pub greater : Cursor → Cursor → Bool
greater a b = elim (cmp_entries a.entry b.entry) [
  | lt ↦ false
  | eq ↦ ltb b.index a.index
  | gt ↦ true
]

-- `BinaryHeap::pop`: the greatest, and the rest.
unfoldable pub pop : List Cursor → Option (Cursor × List Cursor)
pop [] = none
pop (c ∷ cs) = elim (pop cs) [
  | none ↦ some (c, [])
  | some (d, rest) ↦ if greater c d then some (c, d ∷ rest) else some (d, c ∷ rest)
]

-- The next entry of an iterator is pushed.
unfoldable pub advance : Cursor → List Cursor → List Cursor
advance c heap = elim c.left [
  | [] ↦ heap
  | e ∷ es ↦ record { entry = e; index = c.index; left = es } ∷ heap
]

-- The loop of `merge_sstables`; `none` is no fuel.
unfoldable pub merge_loop : ℕ → List Cursor → Option (List Entry)
merge_loop zero heap = elim (pop heap) [ none ↦ some [] | some p ↦ none ]
merge_loop (suc fuel) heap = elim (pop heap) [
  | none ↦ some []
  | some (c, rest) ↦ Option.map (λ es. c.entry ∷ es) (merge_loop fuel (advance c rest))
]

-- The heap at the start, from the entries of the tables; a table without entries has no iterator.
unfoldable pub cursors : ℕ → List (List Entry) → List Cursor
cursors i [] = []
cursors i ([] ∷ ts) = cursors i ts
cursors i ((e ∷ es) ∷ ts) = record { entry = e; index = i; left = es } ∷ cursors (suc i) ts

abbrev pub entries_of : List (List Entry) → ℕ
entries_of [] = 0
entries_of (t ∷ ts) = length t + entries_of ts

unfoldable pub merge_sstables : List (List Entry) → List (List Entry) → Option (List Entry)
merge_sstables source target =
    merge_loop (entries_of (source ++ target)) (cursors 0 (source ++ target))

-- Whether a key is that of the entry before.
abbrev pub is_previous : Option Bytes → Bytes → Bool
is_previous none k = false
is_previous (some p) k = same p k

unfoldable pub filter_from : Option Bytes → List Entry → List Entry
filter_from prev_key [] = []
filter_from prev_key (e ∷ es) =
    let later = filter_from (some e.key) es in
    let skipped = filter_from prev_key es in
    if is_previous prev_key e.key then skipped else if is_deletion e then later else e ∷ later

unfoldable pub deduplicate_and_filter : List Entry → List Entry
deduplicate_and_filter es = filter_from none es

-- The loop of `execute`: the batches that are written as tables.
unfoldable pub batches : ℕ → List Entry → ℕ → List Entry → List (List Entry)
batches max_sstable_size batch size [] = elim batch [ [] ↦ [] | e ∷ es ↦ (e ∷ es) ∷ [] ]
batches max_sstable_size [] size (e ∷ es) =
    batches max_sstable_size (e ∷ []) (size + entry_size e) es
batches max_sstable_size (b ∷ bs) size (e ∷ es) =
    let written = (b ∷ bs) ∷ batches max_sstable_size (e ∷ []) (entry_size e) es in
    let grown = batches max_sstable_size ((b ∷ bs) ++ e ∷ []) (size + entry_size e) es in
    if ltb max_sstable_size (size + entry_size e) then written else grown

-- The batches of `execute`, from the entries of the tables.
unfoldable pub execute : ℕ → List (List Entry) → List (List Entry) → Option (List (List Entry))
execute block_size source target =
    Option.map (λ es. batches (block_size * 1024) [] 0 (deduplicate_and_filter es))
      (merge_sstables source target)
