-- ===== src/Lsm/BlockCache/Bounded.antt =====
-- `insert`, `get` and `clear` of the cache of nanograph-lsm/src/cache.rs: the loop that evicts ends,
-- and the cache stays within its capacity.
use nanograph.Prelude.{
  ℕ, zero, suc, ◌+◌, ◌≤◌, ◌<◌, ◌≡◌, ◌⊎◌, inl, inr, refl, ap, ◌∙◌, none, some, true, false, List, [],
  ◌∷◌, length, get_elem?, get_elem?-lt, leb, if◌then◌else◌, Bool-cases, Option-cases, arith,
}
use nanograph.Lsm.BlockCache.{
  BlockKey, LruEntry, DataBlock, BlockCache, Float64, same_key, find_block, remove_internal,
  estimate_block_size, lowest, latest, score, select_eviction_victim, victim, evicted, evict,
  stored, insert,
}
use nanograph.Lsm.BlockCache.Evict.{
  total, has_entry, IsCache, Without, same_key_refl, absent-Without, remove_internal-Without,
}
use nanograph.Lsm.BlockCache.Stored.{
  still_gone, stored-IsCache, find_stored, other_stored, other_kept,
}

has_entry_at :
    (es : List LruEntry) (i : ℕ) (e : LruEntry)
    → get_elem? es i ≡ some e
    → has_entry e.key es ≡ true
unfolding has_entry
has_entry_at [] i e h = absurd (cc)
has_entry_at (x ∷ es) zero e h =
    let here : x ≡ e = ground arith in
    let t : same_key x.key e.key ≡ true = rw here (same_key_refl e.key) in rw t refl
has_entry_at (x ∷ es) (suc i) e h = elim (Bool-cases (same_key x.key e.key)) [
  | inl t ↦ rw t refl
  | inr t ↦ rw t (has_entry_at es i e h)
]

no_entry : (es : List LruEntry) (k : BlockKey) → length es ≤ 0 → has_entry k es ≡ true → ⊥
unfolding has_entry
no_entry [] k l h = absurd (cc)
no_entry (e ∷ es) k l h = absurd (omega arith)

kept :
    (c c' : BlockCache) (k q : BlockKey)
    → (find_block q c'.blocks ≡ none)
      ⊎ (find_block q c'.blocks ≡ find_block q (remove_internal c k).blocks)
    → find_block q (remove_internal c k).blocks
      ≡ (if same_key k q then none else find_block q c.blocks)
    → (find_block q c'.blocks ≡ none) ⊎ (find_block q c'.blocks ≡ find_block q c.blocks)
kept c c' k q (inl e) f = inl e
kept c c' k q (inr e) f = elim (Bool-cases (same_key k q)) [
  | inl t ↦ inl (e ∙ (f ∙ rw t refl))
  | inr t ↦ inr (e ∙ (f ∙ rw t refl))
]

module _ (F : Float64) where
  lowest_lt :
      (now : ℕ) (es : List LruEntry) (i : ℕ) (m : F.Float) (v : ℕ)
      → v < i + length es
      → lowest F now es i m v < i + length es
  unfolding lowest
  lowest_lt now [] i m v h = h
  lowest_lt now (e ∷ es) i m v h =
      let lower = F.lt (score F now e) m in
      let inside : (if lower then i else v) < suc i + length es = ground arith in
      omega (
        arith,
        lowest_lt now es (suc i) (if lower then score F now e else m) (if lower then i else v)
            inside,
      )

  -- A victim is chosen from any list that is not empty.
  select_cases :
      (es : List LruEntry)
      → (es ≡ [])
        ⊎ ((i : ℕ) × (e : LruEntry) × (select_eviction_victim F es ≡ some i)
            × (get_elem? es i ≡ some e))
  unfolding select_eviction_victim
  select_cases [] = inl refl
  select_cases (e ∷ es) =
      let i = lowest F (latest (e ∷ es)) (e ∷ es) 0 F.max_value 0 in
      let (x, elem) =
        get_elem?-lt (e ∷ es) i
          (omega (arith, lowest_lt (latest (e ∷ es)) (e ∷ es) 0 F.max_value 0 (omega arith))) in
      inr (i, x, refl, elem)

  victim_of_empty : (size : ℕ) (c : BlockCache) → c.lru_list ≡ [] → victim F size c ≡ none
  unfolding victim select_eviction_victim
  victim_of_empty size c e = elim (Bool-cases (leb (c.current_size + size) c.capacity)) [
    | inl t ↦ rw (t, victim) refl
    | inr t ↦ rw (t, victim, e) refl
  ]

  -- The rounds end where there is room, or nothing is left; a round evicts a key that has an entry.
  victim_cases :
      (size : ℕ) (c : BlockCache)
      → IsCache c
      → ((victim F size c ≡ none) × (size ≤ c.capacity → c.current_size + size ≤ c.capacity))
        ⊎ ((k : BlockKey) × (victim F size c ≡ some k) × (has_entry k c.lru_list ≡ true))
  unfolding victim
  victim_cases size c v = elim (Bool-cases (leb (c.current_size + size) c.capacity)) [
    | inl t ↦ inl (rw (t, victim) refl, λ l. ground arith)
    | inr t ↦ elim (select_cases c.lru_list) [
      | inl e ↦
          let zero_size : c.current_size ≡ 0 = v.sized ∙ ap total e in
          inl (victim_of_empty size c e, λ l. omega (arith, zero_size, l))
      | inr (i, e, chosen, elem) ↦
          inr (e.key, rw (t, victim, chosen, elem) refl, has_entry_at c.lru_list i e elem)
    ]
  ]

  -- No block is there that was not, and a block that stays is the same.
  abbrev pub Keeps : BlockCache → BlockCache → Type 0
  Keeps c c' =
      (q : BlockKey)
      → (find_block q c'.blocks ≡ none) ⊎ (find_block q c'.blocks ≡ find_block q c.blocks)

  abbrev Evicts : ℕ → ℕ → BlockCache → Type 0
  Evicts fuel size c =
      (c' : BlockCache) × (evict F fuel size c ≡ some c')
      × IsCache c'
      × (c'.capacity ≡ c.capacity)
      × (size ≤ c.capacity → c'.current_size + size ≤ c.capacity)
      × Keeps c c'

  evict_done :
      (fuel size : ℕ) (c : BlockCache)
      → IsCache c
      → victim F size c ≡ none
      → (size ≤ c.capacity → c.current_size + size ≤ c.capacity)
      → Evicts fuel size c
  unfolding evict
  evict_done zero size c v e room = (c, rw (e, evict) refl, v, refl, room, λ q. inr refl)
  evict_done (suc fuel) size c v e room = (c, rw (e, evict) refl, v, refl, room, λ q. inr refl)

  evict_round :
      (fuel size : ℕ) (c : BlockCache) (k : BlockKey)
      → victim F size c ≡ some k
      → evict F (suc fuel) size c ≡ evict F fuel size (evicted (remove_internal c k))
  unfolding evict
  evict_round fuel size c k e = rw (e, evict) refl

  evicted-IsCache : (c : BlockCache) → IsCache c → IsCache (evicted c)
  evicted-IsCache c v = record {
    sized = v.sized;
    within = v.within;
    once = v.once;
    together = v.together;
  }

  -- With as much fuel as there are entries, the loop ends.
  pub evict_total :
      (fuel size : ℕ) (c : BlockCache) → IsCache c → length c.lru_list ≤ fuel → Evicts fuel size c
  evict_total zero size c v l = elim (victim_cases size c v) [
    | inl (e, room) ↦ evict_done zero size c v e room
    | inr (k, e, h) ↦ absurd (no_entry c.lru_list k l h)
  ]
  evict_total (suc fuel) size c v l = elim (victim_cases size c v) [
    | inl (e, room) ↦ evict_done (suc fuel) size c v e room
    | inr (k, e, h) ↦
        let (v', cap, len, blocks) = remove_internal-Without c k v in
        let (c', made, w, cap', room, keeps) =
          evict_total fuel size (evicted (remove_internal c k))
            (evicted-IsCache (remove_internal c k) v') (omega (arith, l, len h)) in
        (
          c',
          evict_round fuel size c k e ∙ made,
          w,
          cap' ∙ cap,
          λ s. omega (arith, cap, room (omega (arith, s, cap))),
          λ q. kept c c' k q (keeps q) (blocks q),
        )
  ]

  -- The cache that `insert` evicts from.
  fresh_cases :
      (c : BlockCache) (k : BlockKey)
      → IsCache c
      → (c' : BlockCache) × ((b : DataBlock)
          → insert F c k b ≡ elim (evict F (length c'.lru_list) (estimate_block_size b) c') [
            | none ↦ none
            | some d ↦
                if leb (estimate_block_size b) d.capacity then some (stored d k b) else some d
          ])
        × Without c k c'
  unfolding insert
  fresh_cases c k v = elim (Option-cases (find_block k c.blocks)) [
    | inl e ↦ (c, λ b. rw (e, insert) refl, absent-Without c k v e)
    | inr (old, e) ↦ (remove_internal c k, λ b. rw (e, insert) refl, remove_internal-Without c k v)
  ]

  -- An insertion into a cache ends, and gives a cache of the same capacity: its size is the sum of
  -- the sizes of its entries and at most the capacity, and it has one entry for each block. The key
  -- has the new block if that fits into the capacity, and none otherwise; every other key has the
  -- block it had or was evicted.
  pub insert-IsCache :
      (c : BlockCache) (k : BlockKey) (b : DataBlock)
      → IsCache c
      → (c' : BlockCache) × (insert F c k b ≡ some c')
        × IsCache c'
        × (c'.capacity ≡ c.capacity)
        × (find_block k c'.blocks
            ≡ (if leb (estimate_block_size b) c.capacity then some b else none))
        × ((q : BlockKey)
            → (find_block q c'.blocks ≡ none)
              ⊎ (find_block q c'.blocks ≡ (if same_key k q then some b else find_block q c.blocks)))
  insert-IsCache c k b v =
      let size = estimate_block_size b in
      let (f, made, (vf, cap_f, len, blocks)) = fresh_cases c k v in
      let (d, evicted_to, vd, cap_d, room, keeps) =
        evict_total (length f.lru_list) size f vf (omega arith) in
      let cap : d.capacity ≡ c.capacity = cap_d ∙ cap_f in
      let gone_f : find_block k f.blocks ≡ none = blocks k ∙ rw (same_key_refl k) refl in
      let gone : find_block k d.blocks ≡ none = still_gone f d k (keeps k) gone_f in
      elim (Bool-cases (leb size c.capacity)) [
        | inl t ↦
            let fits : leb size d.capacity ≡ true = rw cap t in
            let space : d.current_size + size ≤ d.capacity =
              omega (arith, cap_d, room (ground (arith, t, cap_f))) in
            (
              stored d k b,
              made b ∙ rw (evicted_to, fits) refl,
              stored-IsCache d k b vd gone space,
              cap,
              rw t (find_stored d k k b ∙ rw (same_key_refl k) refl),
              λ q. other_stored c f d k b q (keeps q) (blocks q),
            )
        | inr t ↦
            let fits : leb size d.capacity ≡ false = rw cap t in
            (
              d,
              made b ∙ rw (evicted_to, fits) refl,
              vd,
              cap,
              rw t gone,
              λ q. other_kept c f d k b q (keeps q) (blocks q),
            )
      ]
