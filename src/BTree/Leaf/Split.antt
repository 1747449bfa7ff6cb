-- ===== src/BTree/Leaf/Split.antt =====
-- Splitting a leaf, and the moves of entries between neighbours.
use nanograph.Prelude.{
  ℕ, ◌-◌, ◌/◌, ◌<◌, ◌≡◌, refl, sym, ap, ◌∙◌, subst, none, some, List, [], ◌∷◌, ◌++◌, arith, inl,
  inr, length, take, drop, if◌then◌else◌, take-append-drop, length-take, length-drop, false,
  Bool-cases,
}
use nanograph.Bytes.{Bytes, ◌≺◌, before, lt_of_gt, lt_trans, eq_of_cmp, gt_of_lt, cmp_refl}
use nanograph.BTree.Entries.{Entry, All, All-imp, All-append, IsSorted, lookup, lookup_below}
use nanograph.BTree.Leaf.{LeafNode, split}

-- Every key of the first list lies below every key of the second.
abbrev pub Below : List Entry → List Entry → Type 0
Below xs ys = All (λ x. All (λ y. x.0 ≺ y.0) ys) xs

pub IsSorted-append :
    (xs ys : List Entry) → IsSorted (xs ++ ys) → IsSorted xs × IsSorted ys × Below xs ys
IsSorted-append [] ys s = (tt, s, tt)
IsSorted-append ((k, v) ∷ xs) ys s =
    let (sx, sy, b) = IsSorted-append xs ys s.1 in
    let (hx, hy) = All-append (λ e. k ≺ e.0) xs ys s.0 in ((hx, sx), sy, (hy, b))

lookup-append_low :
    (q : Bytes) (xs ys : List Entry) → All (λ y. q ≺ y.0) ys → lookup q (xs ++ ys) ≡ lookup q xs
unfolding lookup
lookup-append_low q [] ys h = lookup_below q ys h
lookup-append_low q ((k, v) ∷ xs) ys h = ground (arith, lookup-append_low q xs ys h)

lookup-append_high :
    (q : Bytes) (xs ys : List Entry) → All (λ x. x.0 ≺ q) xs → lookup q (xs ++ ys) ≡ lookup q ys
unfolding lookup
lookup-append_high q [] ys h = refl
lookup-append_high q ((k, v) ∷ xs) ys h = ground (arith, lookup-append_high q xs ys h.1)

-- The keys of `xs` lie below the separator, those of `ys` do not.
pub record IsSeparated (sep : Bytes) (xs ys : List Entry) : Type 0 where
  pub low : All (λ x. x.0 ≺ sep) xs
  pub high : All (λ y. before y.0 sep ≡ false) ys

pub not_before : (q k p : Bytes) → q ≺ k → before p k ≡ false → q ≺ p
not_before q k p h n = ground (arith, eq_of_cmp p k, lt_of_gt p k, lt_trans q k p)

below_of_le : (x k q : Bytes) → x ≺ k → before q k ≡ false → x ≺ q
below_of_le x k q = not_before x k q

-- A separator tells on which side of it a key is to be looked up.
pub lookup-append :
    (sep q : Bytes) (xs ys : List Entry)
    → IsSeparated sep xs ys
    → lookup q (xs ++ ys) ≡ (if before q sep then lookup q xs else lookup q ys)
lookup-append sep q xs ys h = elim (Bool-cases (before q sep)) [
  | inl is_low ↦
      rw is_low
        (lookup-append_low q xs ys (All-imp (λ y. not_before q sep y.0 (ground arith)) ys h.high))
  | inr is_high ↦
      rw is_high
        (lookup-append_high q xs ys (All-imp (λ x p. below_of_le x.0 sep q p is_high) xs h.low))
]

-- What `split` makes of a leaf: its halves in order, their sizes, the separator that tells them
-- apart, and the fields that the right half takes over.
pub record IsLeafSplit (leaf : LeafNode) (sep : Bytes) (right left : LeafNode) : Type 0 where
  pub whole : left.entries ++ right.entries ≡ leaf.entries
  pub left_size : length left.entries ≡ length leaf.entries / 2
  pub right_size : length right.entries ≡ length leaf.entries - length leaf.entries / 2
  pub left_sorted : IsSorted left.entries
  pub right_sorted : IsSorted right.entries
  pub separated : IsSeparated sep left.entries right.entries
  pub reads :
      (q : Bytes)
      → lookup q leaf.entries
        ≡ (if before q sep then lookup q left.entries else lookup q right.entries)
  pub links :
      (right.next ≡ leaf.next)
      × (right.parent ≡ leaf.parent)
      × (left.next ≡ leaf.next)
      × (left.prev ≡ leaf.prev)
      × (left.parent ≡ leaf.parent)
      × (left.id ≡ leaf.id)

not_before_of_lt : (k p : Bytes) → k ≺ p → before p k ≡ false
not_before_of_lt k p h = ground (arith, gt_of_lt k p)

pub first_separates :
    (xs ys : List Entry) (k v : Bytes)
    → IsSorted (xs ++ (k, v) ∷ ys)
    → IsSeparated k xs ((k, v) ∷ ys)
first_separates xs ys k v s =
    let (sx, sy, b) = IsSorted-append xs ((k, v) ∷ ys) s in
    record {
      low = All-imp (λ x h. h.0) xs b;
      high = (ground (arith, cmp_refl k), All-imp (λ y. not_before_of_lt k y.0) ys sy.0);
    }

-- What is left to drop.
pub nonempty : (es : List Entry) → 0 < length es → (e : Entry) × (r : List Entry) × (es ≡ e ∷ r)
nonempty [] h = absurd (omega arith)
nonempty (e ∷ r) h = (e, r, refl)

separates-at :
    (xs ys : List Entry) (e : Entry) (r : List Entry)
    → ys ≡ e ∷ r
    → IsSorted (xs ++ ys)
    → IsSeparated e.0 xs ys
separates-at xs ys e r h s =
    rw h (first_separates xs r e.0 e.1 (subst (λ t. IsSorted (xs ++ t)) h s))

halves-IsLeafSplit :
    (leaf : LeafNode) (e : Entry) (r : List Entry)
    → drop (length leaf.entries / 2) leaf.entries ≡ e ∷ r
    → IsSorted leaf.entries
    → IsLeafSplit leaf e.0
        (record leaf { entries = drop (length leaf.entries / 2) leaf.entries; prev = none })
        (record leaf { entries = take (length leaf.entries / 2) leaf.entries })
halves-IsLeafSplit leaf e r h s =
    let es = leaf.entries in
    let n : ℕ = length es / 2 in
    let whole : take n es ++ drop n es ≡ es = take-append-drop n es in
    let sorted : IsSorted (take n es ++ drop n es) = rw whole s in
    let parts = IsSorted-append (take n es) (drop n es) sorted in
    let separated = separates-at (take n es) (drop n es) e r h sorted in
    record {
      whole = whole;
      left_size = omega (arith, length-take n es);
      right_size = length-drop n es;
      left_sorted = parts.0;
      right_sorted = parts.1;
      separated = separated;
      reads =
          λ q. ap (lookup q) (sym whole) ∙ lookup-append e.0 q (take n es) (drop n es) separated;
      links = (refl, refl, refl, refl, refl, refl);
    }

split-halves :
    (leaf : LeafNode) (e : Entry) (r : List Entry)
    → drop (length leaf.entries / 2) leaf.entries ≡ e ∷ r
    → split leaf
      ≡ some (
        e.0,
        record leaf { entries = drop (length leaf.entries / 2) leaf.entries; prev = none },
        record leaf { entries = take (length leaf.entries / 2) leaf.entries },
      )
unfolding split
split-halves leaf e r q = ground arith

-- The halves of a sorted leaf that is not empty, as lists of entries.
pub split-parts :
    (leaf : LeafNode)
    → IsSorted leaf.entries
    → 0 < length leaf.entries
    → (sep : Bytes) × (R : List Entry) × (L : List Entry) × (split leaf
        ≡ some (sep, record leaf { entries = R; prev = none }, record leaf { entries = L }))
      × IsLeafSplit leaf sep
          (record leaf { entries = R; prev = none })
          (record leaf { entries = L })
split-parts leaf s h =
    let n : ℕ = length leaf.entries / 2 in
    let (e, r, q) = nonempty (drop n leaf.entries) (omega (arith, length-drop n leaf.entries)) in
    (
      e.0,
      drop n leaf.entries,
      take n leaf.entries,
      split-halves leaf e r q,
      halves-IsLeafSplit leaf e r q s,
    )

-- A sorted leaf that is not empty splits without a panic: the halves are in order and make up the
-- leaf, the left half has half of the entries rounded down, every key lies on the side of the
-- returned key that its half stands on, so that it is found there with its value, and the links,
-- the parent and the identifier are taken over.
pub split-IsLeafSplit :
    (leaf : LeafNode)
    → IsSorted leaf.entries
    → 0 < length leaf.entries
    → (sep : Bytes) × (right : LeafNode) × (left : LeafNode) × (split leaf
        ≡ some (sep, right, left))
      × IsLeafSplit leaf sep right left
split-IsLeafSplit leaf s h =
    let (sep, R, L, e, is) = split-parts leaf s h in
    (sep, record leaf { entries = R; prev = none }, record leaf { entries = L }, e, is)
