-- ===== src/Lsm/Compaction/Chosen.antt =====
-- Which tables of the next level a compaction of nanograph-lsm/src/compaction.rs takes.
use mathlib.Core.Option.{some-injective}
use Prim.Native.Nat.Ordering.{lt}
use nanograph.Prelude.{
  ℕ, zero, suc, ◌≡◌, inl, inr, refl, ap, sym, subst, some, true, false, List, [], ◌∷◌, ◌||◌,
  get_elem?, Ordering, Ordering-cases, if◌then◌else◌, Bool-cases, arith,
}
use nanograph.Bytes.{Bytes, cmp, before, eq_of_cmp, cmp_refl, lt_of_gt, gt_of_lt, lt_trans}
use nanograph.Lsm.Compaction.{
  SsTableMetadata, lowest_key, highest_key, overlapping, find_overlapping_sstables,
}

-- `a <= b`
abbrev pub AtMost : Bytes → Bytes → Type 0
AtMost a b = before b a ≡ false

before_of :
    (a b : Bytes) {o : Ordering} → cmp b a ≡ o → before b a ≡ elim o [ lt ↦ true | _ ↦ false ]
before_of a b e = ap (λ o. elim o [ lt ↦ true | _ ↦ false ]) e

AtMost-refl : (a : Bytes) → AtMost a a
AtMost-refl a = before_of a a (cmp_refl a)

AtMost-trans : (a b c : Bytes) → AtMost a b → AtMost b c → AtMost a c
AtMost-trans a b c h k = elim (Ordering-cases (cmp c a)) [
  | inl l ↦ elim (Ordering-cases (cmp b a)) [
    | inl l' ↦ absurd (ground (arith, h, l'))
    | inr (inl e) ↦ absurd (not_before b c k (subst (λ x. cmp c x ≡ lt) (sym (eq_of_cmp b a e)) l))
    | inr (inr g) ↦ absurd (not_before b c k (lt_trans c a b l (lt_of_gt b a g)))
  ]
  | inr (inl e) ↦ before_of a c e
  | inr (inr g) ↦ before_of a c g
]
  where
    not_before : (b c : Bytes) → AtMost b c → cmp c b ≡ lt → ⊥
    not_before b c k l = ground (arith, k, l)

AtMost-before : (a b : Bytes) → before a b ≡ true → AtMost a b
AtMost-before a b h = elim (Ordering-cases (cmp a b)) [
  | inl l ↦ before_of a b (gt_of_lt a b l)
  | inr (inl e) ↦ absurd (ground (arith, h, e))
  | inr (inr g) ↦ absurd (ground (arith, h, g))
]

lowest_key-AtMost :
    (q : Bytes) (ss : List SsTableMetadata) (k : Bytes) → AtMost q k → AtMost (lowest_key q ss) k
unfolding lowest_key
lowest_key-AtMost q [] k h = h
lowest_key-AtMost q (s ∷ ss) k h = elim (Bool-cases (before s.min_key q)) [
  | inl t ↦ rw t (
      lowest_key-AtMost s.min_key ss k (AtMost-trans s.min_key q k (AtMost-before s.min_key q t) h))
  | inr t ↦ rw t (lowest_key-AtMost q ss k h)
]

highest_key-AtMost :
    (q : Bytes) (ss : List SsTableMetadata) (k : Bytes) → AtMost k q → AtMost k (highest_key q ss)
unfolding highest_key
highest_key-AtMost q [] k h = h
highest_key-AtMost q (s ∷ ss) k h = elim (Bool-cases (before s.max_key q)) [
  | inl t ↦ rw t (highest_key-AtMost q ss k h)
  | inr t ↦ rw t (highest_key-AtMost s.max_key ss k (AtMost-trans k q s.max_key h t))
]

lowest_key_at :
    (q : Bytes) (ss : List SsTableMetadata) (i : ℕ) (s : SsTableMetadata)
    → get_elem? ss i ≡ some s
    → AtMost (lowest_key q ss) s.min_key
unfolding lowest_key
lowest_key_at q [] i s h = absurd (cc)
lowest_key_at q (x ∷ ss) (suc i) s h =
    lowest_key_at (if before x.min_key q then x.min_key else q) ss i s h
lowest_key_at q (x ∷ ss) zero s h =
    let here : x.min_key ≡ s.min_key = ap (λ y. y.min_key) (some-injective x s h) in
    elim (Bool-cases (before x.min_key q)) [
      | inl t ↦ rw t (lowest_key-AtMost x.min_key ss s.min_key (rw here (AtMost-refl s.min_key)))
      | inr t ↦ rw t (lowest_key-AtMost q ss s.min_key (rw (sym here) t))
    ]

highest_key_at :
    (q : Bytes) (ss : List SsTableMetadata) (i : ℕ) (s : SsTableMetadata)
    → get_elem? ss i ≡ some s
    → AtMost s.max_key (highest_key q ss)
unfolding highest_key
highest_key_at q [] i s h = absurd (cc)
highest_key_at q (x ∷ ss) (suc i) s h =
    highest_key_at (if before x.max_key q then q else x.max_key) ss i s h
highest_key_at q (x ∷ ss) zero s h =
    let here : x.max_key ≡ s.max_key = ap (λ y. y.max_key) (some-injective x s h) in
    elim (Bool-cases (before x.max_key q)) [
      | inl t ↦
          rw t (highest_key-AtMost q ss s.max_key (AtMost-before s.max_key q (rw (sym here) t)))
      | inr t ↦ rw t (highest_key-AtMost x.max_key ss s.max_key (rw here (AtMost-refl s.max_key)))
    ]

overlapping_at :
    (low high : Bytes) (ts : List SsTableMetadata) (i : ℕ) (t : SsTableMetadata)
    → get_elem? ts i ≡ some t
    → AtMost low t.max_key
    → AtMost t.min_key high
    → (j : ℕ) × (get_elem? (overlapping low high ts) j ≡ some t)
unfolding overlapping
overlapping_at low high [] i t h a b = absurd (cc)
overlapping_at low high (x ∷ ts) zero t h a b =
    let here = sym (some-injective x t h) in
    let out : (before x.max_key low || before high x.min_key) ≡ false =
      subst (λ y. (before y.max_key low || before high y.min_key) ≡ false) here (rw (a, b) refl) in
    (0, rw out h)
overlapping_at low high (x ∷ ts) (suc i) t h a b =
    let (j, found) = overlapping_at low high ts i t h a b in
    elim (Bool-cases (before x.max_key low || before high x.min_key)) [
      | inl o ↦ (j, rw o found)
      | inr o ↦ (suc j, rw o found)
    ]

-- A table of the next level whose range of keys meets that of a table to be compacted is taken into
-- the compaction: if a key is within the bounds of both.
pub find_overlapping_sstables_meets :
    (source target : List SsTableMetadata) (i j : ℕ) (s t : SsTableMetadata) (k : Bytes)
    → get_elem? source i ≡ some s
    → get_elem? target j ≡ some t
    → AtMost s.min_key k
    → AtMost k s.max_key
    → AtMost t.min_key k
    → AtMost k t.max_key
    → (n : ℕ) × (get_elem? (find_overlapping_sstables source target) n ≡ some t)
unfolding find_overlapping_sstables
find_overlapping_sstables_meets [] target i j s t k hs ht s_min s_max t_min t_max = absurd (cc)
find_overlapping_sstables_meets (x ∷ ss) target i j s t k hs ht s_min s_max t_min t_max =
    let (low, high) = bounds i hs in
    overlapping_at (lowest_key x.min_key ss) (highest_key x.max_key ss) target j t ht
      (AtMost-trans (lowest_key x.min_key ss) k t.max_key low t_max)
      (AtMost-trans t.min_key k (highest_key x.max_key ss) t_min high)
  where
    bounds :
        (i : ℕ)
        → get_elem? (x ∷ ss) i ≡ some s
        → AtMost (lowest_key x.min_key ss) k × AtMost k (highest_key x.max_key ss)
    bounds zero h =
        let here = sym (some-injective x s h) in
        (
          lowest_key-AtMost x.min_key ss k (subst (λ y. AtMost y.min_key k) here s_min),
          highest_key-AtMost x.max_key ss k (subst (λ y. AtMost k y.max_key) here s_max),
        )
    bounds (suc i) h = (
      AtMost-trans (lowest_key x.min_key ss) s.min_key k (lowest_key_at x.min_key ss i s h) s_min,
      AtMost-trans k s.max_key (highest_key x.max_key ss) s_max (highest_key_at x.max_key ss i s h),
    )
