-- ===== src/Lsm/BlockCache/Stored.antt =====
-- The block that `insert` of nanograph-lsm/src/cache.rs adds, and the other methods of the cache.
use nanograph.Prelude.{
  ℕ, ◌+◌, ◌%◌, ◌^◌, ◌≤◌, ◌≡◌, ◌⊎◌, inl, inr, refl, sym, ◌∙◌, none, some, Bool, true, false, ◌||◌,
  List, [], ◌∷◌, ◌++◌, if◌then◌else◌, Bool-cases, Option-cases, arith,
}
use nanograph.Lsm.BlockCache.{
  BlockKey, LruEntry, DataBlock, BlockCache, same_key, find_block, new, touch, get, remove_internal,
  clear, reset_stats, estimate_block_size, stored,
}
use nanograph.Lsm.BlockCache.Evict.{
  total, has_entry, has_block, Once, IsCache, has_block_lem, has_block-erase_block,
  remove_internal-Without,
}

pub still_gone :
    (f d : BlockCache) (k : BlockKey)
    → (find_block k d.blocks ≡ none) ⊎ (find_block k d.blocks ≡ find_block k f.blocks)
    → find_block k f.blocks ≡ none
    → find_block k d.blocks ≡ none
still_gone f d k (inl e) g = e
still_gone f d k (inr e) g = e ∙ g

total-append : (xs ys : List LruEntry) → total (xs ++ ys) ≡ total xs + total ys
total-append [] ys = omega arith
total-append (x ∷ xs) ys = omega (arith, total-append xs ys)

has_entry-append :
    (q : BlockKey) (xs : List LruEntry) (e : LruEntry)
    → has_entry q (xs ++ e ∷ []) ≡ (has_entry q xs || same_key e.key q)
unfolding has_entry
has_entry-append q [] e = ground arith
has_entry-append q (x ∷ xs) e = elim (Bool-cases (same_key x.key q)) [
  | inl t ↦ rw t refl
  | inr t ↦ rw t (has_entry-append q xs e)
]

Once-append :
    (xs : List LruEntry) (e : LruEntry) → Once xs → has_entry e.key xs ≡ false → Once (xs ++ e ∷ [])
unfolding has_entry
Once-append [] e o h = (refl, tt)
Once-append (x ∷ xs) e (new_key, o) h =
    let off : same_key x.key e.key ≡ false = ground arith in
    let other : has_entry e.key xs ≡ false = ground arith in
    let off' : same_key e.key x.key ≡ false = ground arith in
    (has_entry-append x.key xs e ∙ rw (new_key, off') refl, Once-append xs e o other)

or_true : (b : Bool) → (b || true) ≡ true
or_true false = refl
or_true true = refl

or_false : (b : Bool) → (b || false) ≡ b
or_false false = refl
or_false true = refl

same_block :
    (q : BlockKey) (m m' : List (BlockKey × DataBlock))
    → find_block q m' ≡ find_block q m
    → has_block q m ≡ has_block q m'
same_block q m m' e = has_block_lem q m _ refl ∙ sym (has_block_lem q m' _ e)

pub find_stored :
    (d : BlockCache) (k q : BlockKey) (b : DataBlock)
    → find_block q (stored d k b).blocks ≡ (if same_key k q then some b else find_block q d.blocks)
unfolding find_block
find_stored d k q b = elim (Bool-cases (same_key k q)) [
  | inl t ↦ rw t refl
  | inr t ↦ rw t (has_block-erase_block k q d.blocks ∙ rw t refl)
]

together_stored :
    (d : BlockCache) (k : BlockKey) (b : DataBlock) (q : BlockKey)
    → IsCache d
    → has_entry q (stored d k b).lru_list ≡ has_block q (stored d k b).blocks
together_stored d k b q v = has_entry-append q d.lru_list _ ∙ elim (Bool-cases (same_key k q)) [
  | inl t ↦
      rw t (or_true (has_entry q d.lru_list))
      ∙ sym (has_block_lem q (stored d k b).blocks (some b) (find_stored d k q b ∙ rw t refl))
  | inr t ↦
      rw t (or_false (has_entry q d.lru_list))
      ∙ (v.together q
          ∙ same_block q d.blocks (stored d k b).blocks (find_stored d k q b ∙ rw t refl))
]

pub stored-IsCache :
    (d : BlockCache) (k : BlockKey) (b : DataBlock)
    → IsCache d
    → find_block k d.blocks ≡ none
    → d.current_size + estimate_block_size b ≤ d.capacity
    → IsCache (stored d k b)
stored-IsCache d k b v gone space =
    let absent : has_entry k d.lru_list ≡ false =
      v.together k ∙ has_block_lem k d.blocks none gone in
    let sized = v.sized in
    record {
      sized = omega (arith, total-append d.lru_list _, sized);
      within = space;
      once = Once-append d.lru_list _ v.once absent;
      together = λ q. together_stored d k b q v;
    }

pub other_stored :
    (c f d : BlockCache) (k : BlockKey) (b : DataBlock) (q : BlockKey)
    → (find_block q d.blocks ≡ none) ⊎ (find_block q d.blocks ≡ find_block q f.blocks)
    → find_block q f.blocks ≡ (if same_key k q then none else find_block q c.blocks)
    → (find_block q (stored d k b).blocks ≡ none)
      ⊎ (find_block q (stored d k b).blocks
          ≡ (if same_key k q then some b else find_block q c.blocks))
other_stored c f d k b q h g = elim (Bool-cases (same_key k q)) [
  | inl t ↦ inr (find_stored d k q b ∙ rw t refl)
  | inr t ↦ rw t (other h (find_stored d k q b ∙ rw t refl) (g ∙ rw t refl))
]
  where
    other :
        (find_block q d.blocks ≡ none) ⊎ (find_block q d.blocks ≡ find_block q f.blocks)
        → find_block q (stored d k b).blocks ≡ find_block q d.blocks
        → find_block q f.blocks ≡ find_block q c.blocks
        → (find_block q (stored d k b).blocks ≡ none)
          ⊎ (find_block q (stored d k b).blocks ≡ find_block q c.blocks)
    other (inl e) s g = inl (s ∙ e)
    other (inr e) s g = inr (s ∙ (e ∙ g))

pub other_kept :
    (c f d : BlockCache) (k : BlockKey) (b : DataBlock) (q : BlockKey)
    → (find_block q d.blocks ≡ none) ⊎ (find_block q d.blocks ≡ find_block q f.blocks)
    → find_block q f.blocks ≡ (if same_key k q then none else find_block q c.blocks)
    → (find_block q d.blocks ≡ none)
      ⊎ (find_block q d.blocks ≡ (if same_key k q then some b else find_block q c.blocks))
other_kept c f d k b q (inl e) g = inl e
other_kept c f d k b q (inr e) g = elim (Bool-cases (same_key k q)) [
  | inl t ↦ inl (e ∙ (g ∙ rw t refl))
  | inr t ↦ rw t (inr (e ∙ (g ∙ rw t refl)))
]

touch_keeps :
    (k : BlockKey) (now : ℕ) (es : List LruEntry)
    → (total (touch k now es) ≡ total es)
      × ((q : BlockKey) → has_entry q (touch k now es) ≡ has_entry q es)
unfolding touch has_entry
touch_keeps k now [] = (refl, λ q. refl)
touch_keeps k now (e ∷ es) =
    let (size, has) = touch_keeps k now es in
    elim (Bool-cases (same_key e.key k)) [
      | inl t ↦ rw t (refl, λ q. refl)
      | inr t ↦ rw t (omega (arith, size), λ q. rw (has q) refl)
    ]

touch-Once : (k : BlockKey) (now : ℕ) (es : List LruEntry) → Once es → Once (touch k now es)
unfolding touch
touch-Once k now [] o = tt
touch-Once k now (e ∷ es) (new_key, o) = elim (Bool-cases (same_key e.key k)) [
  | inl t ↦ rw t (new_key, o)
  | inr t ↦ rw t ((touch_keeps k now es).1 e.key ∙ new_key, touch-Once k now es o)
]

get_absent :
    (c : BlockCache) (k : BlockKey)
    → find_block k c.blocks ≡ none
    → get c k ≡ (none, record c { misses = (c.misses + 1) % 2 ^ 64 })
unfolding get
get_absent c k e = rw (e, get) refl

get_present :
    (c : BlockCache) (k : BlockKey) (b : DataBlock)
    → find_block k c.blocks ≡ some b
    → get c k ≡ (
      some b,
      record c {
        access_counter = (c.access_counter + 1) % 2 ^ 64;
        lru_list = touch k ((c.access_counter + 1) % 2 ^ 64) c.lru_list;
        hits = (c.hits + 1) % 2 ^ 64;
      },
    )
unfolding get
get_present c k b e = rw (e, get) refl

get-IsCache : (c : BlockCache) (k : BlockKey) → IsCache c → IsCache (get c k).1
get-IsCache c k v = elim (Option-cases (find_block k c.blocks)) [
  | inl e ↦
      rw (get_absent c k e)
        (record { sized = v.sized; within = v.within; once = v.once; together = v.together })
  | inr (b, e) ↦
      let now = (c.access_counter + 1) % 2 ^ 64 in
      let (size, has) = touch_keeps k now c.lru_list in
      rw (get_present c k b e) (record {
        sized = v.sized ∙ sym size;
        within = v.within;
        once = touch-Once k now c.lru_list v.once;
        together = λ q. has q ∙ v.together q;
      })
]

clear-IsCache : (c : BlockCache) → IsCache (clear c)
unfolding clear has_entry has_block find_block
clear-IsCache c = record { sized = refl; within = omega arith; once = tt; together = λ q. refl }

new-IsCache : (capacity : ℕ) → IsCache (new capacity)
unfolding new has_entry has_block find_block
new-IsCache capacity = record {
  sized = refl;
  within = omega arith;
  once = tt;
  together = λ q. refl;
}

reset_stats-IsCache : (c : BlockCache) → IsCache c → IsCache (reset_stats c)
unfolding reset_stats
reset_stats-IsCache c v = record {
  sized = v.sized;
  within = v.within;
  once = v.once;
  together = v.together;
}

-- A new cache has the size of the entries it lists, at most its capacity, and one entry for each
-- block. So does a cache that had all that, after a read, the removal of a key, its clearing and the
-- reset of its counters.
pub steps-IsCache :
    (capacity : ℕ) (c : BlockCache) (k : BlockKey)
    → IsCache c
    → IsCache (new capacity)
      × IsCache (get c k).1
      × IsCache (remove_internal c k)
      × IsCache (clear c)
      × IsCache (reset_stats c)
steps-IsCache capacity c k v = (
  new-IsCache capacity,
  get-IsCache c k v,
  (remove_internal-Without c k v).0,
  clear-IsCache c,
  reset_stats-IsCache c v,
)
