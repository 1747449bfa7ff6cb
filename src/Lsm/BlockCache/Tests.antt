-- ===== src/Lsm/BlockCache/Tests.antt =====
-- Runs of the block cache of nanograph-lsm/src/cache.rs.
use nanograph.Prelude.{
  ℕ, ◌+◌, ◌^◌, ◌≡◌, ◌⊎◌, refl, none, some, [], ◌∷◌, ltb, leb, if◌then◌else◌, arith,
}
use mathlib.Core.Option
use nanograph.Lsm.BlockCache.{
  BlockKey, DataBlock, BlockCache, Float64, same_key, find_block, new, get, remove_internal, clear,
  reset_stats, estimate_block_size, insert, evict, victim, select_eviction_victim, lowest, position,
}
use nanograph.Lsm.BlockCache.Evict.{IsCache, has_entry, has_block}
use nanograph.Lsm.BlockCache.Stored.{steps-IsCache}
use nanograph.Lsm.BlockCache.Bounded.{insert-IsCache}

-- Whole numbers in the place of floating-point numbers; a division keeps the dividend.
abbrev numbers : Float64
numbers = record {
  Float = ℕ;
  of_u64 = λ n. n;
  max_value = 2 ^ 64;
  add = λ a b. a + b;
  div = λ a b. a;
  lt = ltb;
}

abbrev key_of : ℕ → BlockKey
key_of n = record { file_number = 1; block_offset = n }

abbrev block : DataBlock
block = record { entries = []; restart_points = [] }

-- A cache that has room for one block, and has one.
abbrev full : BlockCache
full = record {
  blocks = (key_of 0, block) ∷ [];
  lru_list = record { key = key_of 0; size = 64; access_count = 1; last_access = 1 } ∷ [];
  current_size = 64;
  access_counter = 1;
  capacity = 100;
  hits = 0;
  misses = 0;
  evictions = 0;
}

full-IsCache : IsCache full
unfolding has_entry has_block find_block
full-IsCache = record {
  sized = refl;
  within = omega arith;
  once = (refl, tt);
  together = λ k. ground arith;
}

-- The block of the key 0 is evicted for that of the key 8.
insert_run : Option.map (λ c. c.evictions) (insert numbers full (key_of 8) block) ≡ some 1
unfolding insert evict find_block victim estimate_block_size select_eviction_victim lowest
    remove_internal position
insert_run = refl

insert-IsCache_example :
    (c : BlockCache) × (insert numbers full (key_of 8) block ≡ some c)
    × IsCache c
    × (c.capacity ≡ full.capacity)
    × (find_block (key_of 8) c.blocks
        ≡ (if leb (estimate_block_size block) full.capacity then some block else none))
    × ((q : BlockKey)
        → (find_block q c.blocks ≡ none)
          ⊎ (find_block q c.blocks
              ≡ (if same_key (key_of 8) q then some block else find_block q full.blocks)))
insert-IsCache_example = insert-IsCache numbers full (key_of 8) block full-IsCache

steps-IsCache_example :
    IsCache (new 100)
    × IsCache (get full (key_of 0)).1
    × IsCache (remove_internal full (key_of 0))
    × IsCache (clear full)
    × IsCache (reset_stats full)
steps-IsCache_example = steps-IsCache 100 full (key_of 0) full-IsCache
