-- ===== src/BTree/Internal/Split.antt =====
-- Splitting an internal node: its sizes, and that every key is still sent to the same child.
use nanograph.Prelude.{
  ℕ, suc, ◌+◌, ◌/◌, ◌<◌, ◌≡◌, refl, sym, subst, ap, some, List, [], ◌∷◌, ◌++◌, arith, length,
  get_elem?, take, drop, if◌then◌else◌, true, false, get_elem?-take, get_elem?-drop, take-cons-drop,
  get_elem?-lt, pop_back-take, length-take, length-drop, take-append-drop,
}
use native.Mathlib.Numerals.{add-one}
use nanograph.Bytes.{Bytes, ◌≺◌, before, lt_trans}
use nanograph.BTree.Entries.{All-append}
use nanograph.BTree.Internal.{InternalNode, split}
use nanograph.BTree.Internal.Routing.{IsAscending, rank, rank_below, rank-le-length, above}

rank-append_low :
    (q m : Bytes) (xs ys : List Bytes)
    → IsAscending (xs ++ m ∷ ys)
    → before q m ≡ true
    → rank q (xs ++ m ∷ ys) ≡ rank q xs
unfolding rank
rank-append_low q m [] ys s h = ground (arith, rank_below q ys, above q m ys)
rank-append_low q m (x ∷ xs) ys s h = ground (arith, rank-append_low q m xs ys s.1 h)

rank-append_high :
    (q m : Bytes) (xs ys : List Bytes)
    → IsAscending (xs ++ m ∷ ys)
    → before q m ≡ false
    → rank q (xs ++ m ∷ ys) ≡ suc (length xs) + rank q ys
unfolding rank
rank-append_high q m [] ys s h = ground arith
rank-append_high q m (x ∷ xs) ys s h = ground (
  arith,
  rank-append_high q m xs ys s.1 h,
  (All-append (λ k. x ≺ k) xs (m ∷ ys) s.0).1.0,
  lt_trans q x m,
)

IsAscending-append : (xs ys : List Bytes) → IsAscending (xs ++ ys) → IsAscending xs × IsAscending ys
IsAscending-append [] ys s = (tt, s)
IsAscending-append (k ∷ xs) ys s =
    let (sx, sy) = IsAscending-append xs ys s.1 in (((All-append (λ j. k ≺ j) xs ys s.0).0, sx), sy)

-- What `split` makes of a node: the keys without the middle key, which moves up, and the children,
-- each in order; one child more than keys on both sides; and the side on which the child of a key
-- is found.
pub record IsInternalSplit (node : InternalNode) (middle : Bytes) (right left : InternalNode)
    : Type 0 where
  pub keys : left.keys ++ middle ∷ right.keys ≡ node.keys
  pub children : left.children ++ right.children ≡ node.children
  pub left_keys : length left.keys ≡ length node.keys / 2
  pub left_size : length left.children ≡ suc (length left.keys)
  pub right_size : length right.children ≡ suc (length right.keys)
  pub left_ascending : IsAscending left.keys
  pub right_ascending : IsAscending right.keys
  pub routes :
      (q : Bytes)
      → get_elem? node.children (rank q node.keys) ≡ (
          if before q middle
          then get_elem? left.children (rank q left.keys)
          else get_elem? right.children (rank q right.keys))

module _ (node : InternalNode) (ascending : IsAscending node.keys)
    (sized : length node.children ≡ suc (length node.keys)) (has_key : 0 < length node.keys) where
  split-eq :
      (m : ℕ) (middle : Bytes)
      → m ≡ length node.keys / 2
      → get_elem? node.keys m ≡ some middle
      → split node
        ≡ some (
          middle,
          record node { keys = drop (suc m) node.keys; children = drop (suc m) node.children },
          record node { keys = take m node.keys; children = take (suc m) node.children },
        )
  unfolding split
  split-eq m middle e at =
      rw (← e, add-one, at) (ground (arith, pop_back-take m node.keys middle at))

  routes :
      (m : ℕ) (middle : Bytes)
      → m < length node.keys
      → get_elem? node.keys m ≡ some middle
      → (q : Bytes)
      → get_elem? node.children (rank q node.keys) ≡ (
          if before q middle
          then get_elem? (take (suc m) node.children) (rank q (take m node.keys))
          else get_elem? (drop (suc m) node.children) (rank q (drop (suc m) node.keys)))
  routes m middle h at q =
      let ks = node.keys in
      let whole : take m ks ++ middle ∷ drop (suc m) ks ≡ ks = take-cons-drop m ks middle at in
      let sorted : IsAscending (take m ks ++ middle ∷ drop (suc m) ks) =
        subst IsAscending (sym whole) ascending in
      ground (
        arith,
        ap (rank q) whole,
        rank-append_low q middle (take m ks) (drop (suc m) ks) sorted,
        rank-append_high q middle (take m ks) (drop (suc m) ks) sorted,
        rank-le-length q (take m ks),
        length-take m ks,
        get_elem?-take (suc m) node.children (rank q (take m ks)),
        get_elem?-drop (suc m) node.children (rank q (drop (suc m) ks)),
      )

  -- For a node whose keys ascend, with a key and with one child more than keys, the split does not
  -- panic: the keys are those of the halves and the middle key, which moves up; the children are those
  -- of the halves; each half has one child more than keys, and keys that ascend; and the child for a
  -- key is found in the half that the middle key sends it to.
  pub split-IsInternalSplit :
      (middle : Bytes) × (right : InternalNode) × (left : InternalNode) × (split node
        ≡ some (middle, right, left))
      × IsInternalSplit node middle right left
  split-IsInternalSplit =
      let m : ℕ = length node.keys / 2 in
      let (middle, at) = get_elem?-lt node.keys m (omega arith) in
      let whole : take m node.keys ++ middle ∷ drop (suc m) node.keys ≡ node.keys =
        take-cons-drop m node.keys middle at in
      let sorted : IsAscending (take m node.keys ++ middle ∷ drop (suc m) node.keys) =
        subst IsAscending (sym whole) ascending in
      let parts = IsAscending-append (take m node.keys) (middle ∷ drop (suc m) node.keys) sorted in
      (
        middle,
        record node { keys = drop (suc m) node.keys; children = drop (suc m) node.children },
        record node { keys = take m node.keys; children = take (suc m) node.children },
        split-eq m middle refl at,
        record {
          keys = whole;
          children = take-append-drop (suc m) node.children;
          left_keys = omega (arith, length-take m node.keys);
          left_size = omega (arith, length-take m node.keys, length-take (suc m) node.children);
          right_size =
              omega (arith, length-drop (suc m) node.keys, length-drop (suc m) node.children);
          left_ascending = parts.0;
          right_ascending = parts.1.1;
          routes = routes m middle (omega arith) at;
        },
      )
