-- ===== src/Lsm/BlockCache/Evict.antt =====
-- The cache of nanograph-lsm/src/cache.rs stays within its capacity, and its list of entries goes
-- with its map.
use nanograph.Prelude.{
  ℕ, suc, ◌+◌, ◌-◌, ◌≤◌, ◌≡◌, inl, inr, refl, sym, ap, subst, ◌∙◌, Option, none, some, Bool, true,
  false, ◌||◌, List, [], ◌∷◌, length, get_elem?, remove_at, if◌then◌else◌, Bool-cases, Option-cases,
  arith,
}
use nanograph.Lsm.BlockCache.{
  BlockKey, LruEntry, DataBlock, BlockCache, same_key, find_block, erase_block, position,
  remove_internal,
}

abbrev pub total : List LruEntry → ℕ
total [] = 0
total (e ∷ es) = e.size + total es

-- Whether a key has an entry, and whether it has a block.
unfoldable pub has_entry : BlockKey → List LruEntry → Bool
has_entry k [] = false
has_entry k (e ∷ es) = same_key e.key k || has_entry k es

unfoldable pub has_block : BlockKey → List (BlockKey × DataBlock) → Bool
has_block k m = elim (find_block k m) [ none ↦ false | some b ↦ true ]

abbrev pub Once : List LruEntry → Type 0
Once [] = Unit {0}
Once (e ∷ es) = (has_entry e.key es ≡ false) × Once es

-- The sizes add up and stay within the capacity; the entries are those of the blocks, each once.
pub record IsCache (c : BlockCache) : Type 0 where
  pub sized : c.current_size ≡ total c.lru_list
  pub within : c.current_size ≤ c.capacity
  pub once : Once c.lru_list
  pub together : (k : BlockKey) → has_entry k c.lru_list ≡ has_block k c.blocks

pub eq_of_same_key : (a b : BlockKey) → same_key a b ≡ true → a ≡ b
eq_of_same_key a b h = ground arith

pub same_key_refl : (a : BlockKey) → same_key a a ≡ true
same_key_refl a = ground arith

-- What the list is without the entry of a key.
removed :
    (k : BlockKey) (es : List LruEntry)
    → Once es
    → has_entry k es ≡ true
    → (i : ℕ) × (e : LruEntry) × (position k es ≡ some i)
      × (get_elem? es i ≡ some e)
      × (total es ≡ e.size + total (remove_at es i))
      × (length es ≡ suc (length (remove_at es i)))
      × Once (remove_at es i)
      × ((q : BlockKey)
          → has_entry q (remove_at es i) ≡ (if same_key k q then false else has_entry q es))
unfolding has_entry position
removed k [] o h = absurd (cc)
removed k (e ∷ es) (new_key, o) h = elim (Bool-cases (same_key e.key k)) [
  | inl t ↦
      let here : e.key ≡ k = eq_of_same_key e.key k t in
      (
        0,
        e,
        rw t refl,
        refl,
        refl,
        refl,
        o,
        λ q. elim (Bool-cases (same_key k q)) [
          | inl u ↦
              let there = eq_of_same_key k q u in
              rw u (ap (λ x. has_entry x es) (sym (here ∙ there)) ∙ new_key)
          | inr u ↦
              let off : same_key e.key q ≡ false = ap (λ x. same_key x q) here ∙ u in
              rw (u, off) refl
        ],
      )
  | inr t ↦
      let (i, x, at, elem, size, len, once, rest) = removed k es o (ground arith) in
      (
        suc i,
        x,
        rw (t, at) refl,
        elem,
        omega (arith, size),
        omega (arith, len),
        (ground (arith, rest e.key), once),
        λ q. elim (Bool-cases (same_key k q)) [
          | inl u ↦
              let off : same_key e.key q ≡ false =
                ap (same_key e.key) (sym (eq_of_same_key k q u)) ∙ t in
              rw (rest q, u, off) refl
          | inr u ↦ rw (rest q, u) refl
        ],
      )
]

pub has_block-erase_block :
    (k q : BlockKey) (m : List (BlockKey × DataBlock))
    → find_block q (erase_block k m) ≡ (if same_key k q then none else find_block q m)
unfolding find_block erase_block
has_block-erase_block k q [] = ground arith
has_block-erase_block k q ((k', b) ∷ m) = elim (Bool-cases (same_key k' k)) [
  | inl t ↦
      let here = eq_of_same_key k' k t in
      rw t (
        has_block-erase_block k q m ∙ elim (Bool-cases (same_key k q)) [
          | inl u ↦ rw u refl
          | inr u ↦
              let off : same_key k' q ≡ false = ap (λ x. same_key x q) here ∙ u in rw (u, off) refl
        ])
  | inr t ↦ rw t (elim (Bool-cases (same_key k q)) [
    | inl u ↦
        let off : same_key k' q ≡ false = ap (same_key k') (sym (eq_of_same_key k q u)) ∙ t in
        rw (off, u) (has_block-erase_block k q m ∙ rw u refl)
    | inr u ↦ rw (u, has_block-erase_block k q m, u) refl
  ])
]

-- The cache `c'` is `c` without the block of a key.
abbrev pub Without : BlockCache → BlockKey → BlockCache → Type 0
Without c k c' =
    IsCache c'
    × (c'.capacity ≡ c.capacity)
    × (has_entry k c.lru_list ≡ true → length c.lru_list ≡ suc (length c'.lru_list))
    × ((q : BlockKey)
        → find_block q c'.blocks ≡ (if same_key k q then none else find_block q c.blocks))

remove_absent :
    (c : BlockCache) (k : BlockKey) → find_block k c.blocks ≡ none → remove_internal c k ≡ c
unfolding remove_internal
remove_absent c k e = rw (e, remove_internal) refl

remove_present :
    (c : BlockCache) (k : BlockKey) (b : DataBlock) (i : ℕ) (e : LruEntry)
    → find_block k c.blocks ≡ some b
    → position k c.lru_list ≡ some i
    → get_elem? c.lru_list i ≡ some e
    → remove_internal c k ≡ record c {
      blocks = erase_block k c.blocks;
      lru_list = remove_at c.lru_list i;
      current_size = c.current_size - e.size;
    }
unfolding remove_internal
remove_present c k b i e f at elem = rw (f, remove_internal, at, elem) refl

pub has_block_lem :
    (k : BlockKey) (m : List (BlockKey × DataBlock)) (o : Option DataBlock)
    → find_block k m ≡ o
    → has_block k m ≡ elim o [ none ↦ false | some b ↦ true ]
unfolding has_block
has_block_lem k m o e = rw (e, has_block) refl

pub absent-Without :
    (c : BlockCache) (k : BlockKey) → IsCache c → find_block k c.blocks ≡ none → Without c k c
absent-Without c k v e =
    let gone : has_entry k c.lru_list ≡ false = v.together k ∙ has_block_lem k c.blocks none e in
    (
      v,
      refl,
      λ h. absurd (cc),
      λ q. elim (Bool-cases (same_key k q)) [
        | inl u ↦ rw u (ap (λ x. find_block x c.blocks) (sym (eq_of_same_key k q u)) ∙ e)
        | inr u ↦ rw u refl
      ],
    )

pub has_block-erase :
    (k q : BlockKey) (m : List (BlockKey × DataBlock))
    → has_block q (erase_block k m) ≡ (if same_key k q then false else has_block q m)
unfolding has_block
has_block-erase k q m =
    has_block_lem q (erase_block k m) _ (has_block-erase_block k q m)
    ∙ elim (Bool-cases (same_key k q)) [ inl u ↦ rw u refl | inr u ↦ rw u refl ]

-- Taking a block out keeps the cache; no other block goes.
pub remove_internal-Without :
    (c : BlockCache) (k : BlockKey) → IsCache c → Without c k (remove_internal c k)
remove_internal-Without c k v = elim (Option-cases (find_block k c.blocks)) [
  | inl e ↦ subst (Without c k) (sym (remove_absent c k e)) (absent-Without c k v e)
  | inr (b, e) ↦
      let there : has_entry k c.lru_list ≡ true =
        v.together k ∙ has_block_lem k c.blocks (some b) e in
      let (i, x, at, elem, size, len, once, rest) = removed k c.lru_list v.once there in
      let within = v.within in
      let sized = v.sized in
      subst (Without c k) (sym (remove_present c k b i x e at elem)) (
        record {
          sized = omega (arith, size, sized);
          within = omega (arith, within);
          once = once;
          together = λ q.
              rest q
              ∙ (ap (λ x. if same_key k q then false else x) (v.together q)
                  ∙ sym (has_block-erase k q c.blocks));
        },
        refl,
        λ h. len,
        λ q. has_block-erase_block k q c.blocks,
      )
]
