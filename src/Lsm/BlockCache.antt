-- ===== src/Lsm/BlockCache.antt =====
-- `BlockCache` of nanograph-lsm/src/cache.rs. Each method runs under its lock, so that it is one
-- step. The scores of the entries are floating-point numbers, which are a parameter. The loop that
-- evicts runs on fuel; every round takes an entry off the list, so that its length is enough.
pub mod Evict
pub mod Stored
pub mod Bounded
mod Tests
use nanograph.Prelude.{
  ℕ, zero, suc, ◌+◌, ◌-◌, ◌*◌, ◌%◌, ◌^◌, Option, none, some, Bool, true, false, ◌&&◌, List, [], ◌∷◌,
  ◌++◌, length, get_elem?, remove_at, ltb, leb, ◌==◌, if◌then◌else◌,
}
use nanograph.Lsm.MemTable.{Entry, entry_size}

pub record BlockKey : Type 0 where
  pub file_number : ℕ
  pub block_offset : ℕ

pub record LruEntry : Type 0 where
  pub key : BlockKey
  pub size : ℕ
  pub access_count : ℕ
  pub last_access : ℕ

-- `DataBlock` of nanograph-lsm/src/sstable.rs.
pub record DataBlock : Type 0 where
  pub entries : List Entry
  pub restart_points : List ℕ

-- `BlockCacheInner`, with the capacity and the counters of the cache. The map holds a key once.
pub record BlockCache : Type 0 where
  pub blocks : List (BlockKey × DataBlock)
  pub lru_list : List LruEntry
  pub current_size : ℕ
  pub access_counter : ℕ
  pub capacity : ℕ
  pub hits : ℕ
  pub misses : ℕ
  pub evictions : ℕ

-- The arithmetic of f64 that the scores use.
pub record Float64 : Type 1 where
  pub Float : Type 0
  pub of_u64 : ℕ → Float
  pub max_value : Float
  pub add : Float → Float → Float
  pub div : Float → Float → Float
  pub lt : Float → Float → Bool

abbrev pub same_key : BlockKey → BlockKey → Bool
same_key a b = (a.file_number == b.file_number) && (a.block_offset == b.block_offset)

-- `HashMap::get`, `HashMap::remove` and `HashMap::insert`.
unfoldable pub find_block : BlockKey → List (BlockKey × DataBlock) → Option DataBlock
find_block k [] = none
find_block k ((k', b) ∷ m) = if same_key k' k then some b else find_block k m

unfoldable pub erase_block : BlockKey → List (BlockKey × DataBlock) → List (BlockKey × DataBlock)
erase_block k [] = []
erase_block k ((k', b) ∷ m) = if same_key k' k then erase_block k m else (k', b) ∷ erase_block k m

abbrev pub insert_block :
    BlockKey → DataBlock → List (BlockKey × DataBlock) → List (BlockKey × DataBlock)
insert_block k b m = (k, b) ∷ erase_block k m

-- `iter().position(|e| e.key == key)`
unfoldable pub position : BlockKey → List LruEntry → Option ℕ
position k [] = none
position k (e ∷ es) =
    if same_key e.key k
    then some 0
    else elim (position k es) [ none ↦ none | some i ↦ some (suc i) ]

unfoldable pub new : ℕ → BlockCache
new capacity = record {
  blocks = [];
  lru_list = [];
  current_size = 0;
  access_counter = 0;
  capacity = capacity;
  hits = 0;
  misses = 0;
  evictions = 0;
}

-- `find(|e| e.key == key)`, with the entry updated.
unfoldable pub touch : BlockKey → ℕ → List LruEntry → List LruEntry
touch k now [] = []
touch k now (e ∷ es) =
    if same_key e.key k
    then record e { access_count = (e.access_count + 1) % 2 ^ 64; last_access = now } ∷ es
    else e ∷ touch k now es

unfoldable pub get : BlockCache → BlockKey → Option DataBlock × BlockCache
get c k = elim (find_block k c.blocks) [
  | none ↦ (none, record c { misses = (c.misses + 1) % 2 ^ 64 })
  | some b ↦
      let now = (c.access_counter + 1) % 2 ^ 64 in
      (
        some b,
        record c {
          access_counter = now;
          lru_list = touch k now c.lru_list;
          hits = (c.hits + 1) % 2 ^ 64;
        },
      )
]

unfoldable pub remove_internal : BlockCache → BlockKey → BlockCache
remove_internal c k = elim (find_block k c.blocks) [
  | none ↦ c
  | some b ↦
      let rest = record c { blocks = erase_block k c.blocks } in
      elim (position k c.lru_list) [
        | none ↦ rest
        | some i ↦ elim (get_elem? c.lru_list i) [
          | none ↦ rest
          | some e ↦ record rest {
            lru_list = remove_at c.lru_list i;
            current_size = c.current_size - e.size;
          }
        ]
      ]
]

abbrev pub remove : BlockCache → BlockKey → BlockCache
remove = remove_internal

unfoldable pub clear : BlockCache → BlockCache
clear c = record c { blocks = []; lru_list = []; current_size = 0 }

unfoldable pub reset_stats : BlockCache → BlockCache
reset_stats c = record c { hits = 0; misses = 0; evictions = 0 }

abbrev pub entries_size : List Entry → ℕ
entries_size [] = 0
entries_size (e ∷ es) = entry_size e + entries_size es

unfoldable pub estimate_block_size : DataBlock → ℕ
estimate_block_size b = entries_size b.entries + length b.restart_points * 4 + 64

abbrev pub latest : List LruEntry → ℕ
latest [] = 0
latest (e ∷ es) = if leb (latest es) e.last_access then e.last_access else latest es

-- The count of evictions.
abbrev pub evicted : BlockCache → BlockCache
evicted c = record c { evictions = (c.evictions + 1) % 2 ^ 64 }

-- The block and its entry are added.
abbrev pub stored : BlockCache → BlockKey → DataBlock → BlockCache
stored c k b =
    let now = (c.access_counter + 1) % 2 ^ 64 in
    let size = estimate_block_size b in
    record c {
      access_counter = now;
      blocks = insert_block k b c.blocks;
      lru_list =
          c.lru_list ++ record { key = k; size = size; access_count = 1; last_access = now } ∷ [];
      current_size = c.current_size + size;
    }

module _ (F : Float64) where
  open F use {Float, of_u64, max_value, add, div, lt}

  abbrev pub score : ℕ → LruEntry → Float
  score now e = div (of_u64 e.access_count) (add (of_u64 1) (of_u64 (now - e.last_access)))

  -- The entry with the lowest score, from index `i` on.
  unfoldable pub lowest : ℕ → List LruEntry → ℕ → Float → ℕ → ℕ
  lowest now [] i min_score victim = victim
  lowest now (e ∷ es) i min_score victim =
      let lower = lt (score now e) min_score in
      lowest now es (suc i) (if lower then score now e else min_score) (if lower then i else victim)

  unfoldable pub select_eviction_victim : List LruEntry → Option ℕ
  select_eviction_victim [] = none
  select_eviction_victim (e ∷ es) = some (lowest (latest (e ∷ es)) (e ∷ es) 0 max_value 0)

  -- The key of the entry that a round of the loop of `insert` evicts, if there is a round.
  unfoldable pub victim : ℕ → BlockCache → Option BlockKey
  victim size c =
      if leb (c.current_size + size) c.capacity
      then none
      else elim (select_eviction_victim c.lru_list) [
        | none ↦ none
        | some i ↦ elim (get_elem? c.lru_list i) [ none ↦ none | some e ↦ some e.key ]
      ]

  -- The loop of `insert`; `none` is no fuel.
  unfoldable pub evict : ℕ → ℕ → BlockCache → Option BlockCache
  evict zero size c = elim (victim size c) [ none ↦ some c | some k ↦ none ]
  evict (suc fuel) size c = elim (victim size c) [
    | none ↦ some c
    | some k ↦ evict fuel size (evicted (remove_internal c k))
  ]

  unfoldable pub insert : BlockCache → BlockKey → DataBlock → Option BlockCache
  insert c k b =
      let size = estimate_block_size b in
      let fresh : BlockCache = elim (find_block k c.blocks) [
        | none ↦ c
        | some old ↦ remove_internal c k
      ] in
      elim (evict (length fresh.lru_list) size fresh) [
        | none ↦ none
        | some c' ↦ if leb size c'.capacity then some (stored c' k b) else some c'
      ]
