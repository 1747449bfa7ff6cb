-- ===== src/Art/Remove/Freed.antt =====
-- Children that `add_child` of nanograph-art/src/tree.rs loses: of a `Node48` after a removal, and of
-- a full `Node4` whose keys are not sorted.
use nanograph.Prelude.{
  ℕ, ◌-◌, ◌≤◌, ◌<◌, ◌≡◌, ◌≢◌, refl, Option, none, some, ok, true, false, leb, ltb, ◌==◌, arith,
}
use nanograph.Bytes.{Bytes}
use nanograph.Art.Node.{Node, node4, node48, NodeHeader, Slot, vacant, update, find_child, bisect}
use nanograph.Art.Children.{
  add_child, add_child_to_node16, add_child_to_node48, grow_node4_keys, grow_children, copy_indices,
  insert_position, shift_right,
}
use nanograph.Art.Remove.{remove_child, remove_child_from_node48}

-- A `Node48` of 18 to 48 children loses its last child when another is removed and a third is added:
-- the new child is written to the place of the last one, and the byte of the last one finds it.
pub add_child-remove_child_last :
    {V : Type 0} (h : NodeHeader V) (is : ℕ → ℕ) (cs : ℕ → Slot V) (b q b' : ℕ) (c : Node V)
    → 17 < h.num_children
    → h.num_children ≤ 48
    → is b ≢ 255
    → q ≢ b
    → b' ≢ q
    → is q ≡ h.num_children - 1
    → (n m : Node V) × (remove_child (node48 h is cs) b ≡ ok (some n))
      × (add_child n b' c ≡ ok m)
      × (find_child m q ≡ some c)
unfolding remove_child remove_child_from_node48 add_child add_child_to_node48 find_child
add_child-remove_child_last h is cs b q b' c many few has other other' last =
    let used : (is b == 255) ≡ false = ground arith in
    let wide : leb (h.num_children - 1) 16 ≡ false = ground arith in
    let room : ltb (h.num_children - 1) 48 ≡ true = ground arith in
    let left = record h { num_children = h.num_children - 1 } in
    let is' = update is b 255 in
    let cs' = update cs (is b) vacant in
    (
      node48 left is' cs',
      add_child_to_node48 left is' cs' b' c,
      rw (used, wide) refl,
      rw room refl,
      ground arith,
    )

unsorted :
    {V : Type 0} (p : Bytes) (v : Option V) (ks : ℕ → ℕ) (cs : ℕ → Slot V) (b : ℕ) (c : Node V)
    → ks 1 < ks 0
    → ks 0 < ks 2
    → ks 2 < b
    → ks 3 < b
    → find_child
        (add_child_to_node16
          (record { num_children = 4; partial = p; value = v })
          (grow_node4_keys 4 ks)
          (grow_children 4 cs)
          b
          c)
        (ks 0)
      ≡ none
unfolding find_child bisect add_child_to_node16 grow_node4_keys grow_children copy_indices
    insert_position shift_right
unsorted p v ks cs b c l01 l02 l2 l3 = ground arith

-- A full `Node4` whose first key is above the second and below the third loses the child of its
-- first key when a child with a key above all four is added: the `Node16` that it grows to has its
-- keys in the same order, and the binary search does not find it.
pub find_child-add_child_unsorted :
    {V : Type 0} (p : Bytes) (v : Option V) (ks : ℕ → ℕ) (cs : ℕ → Slot V) (b : ℕ) (c : Node V)
    → ks 1 < ks 0
    → ks 0 < ks 2
    → ks 2 < b
    → ks 3 < b
    → (m : Node V) × (add_child
          (node4 (record { num_children = 4; partial = p; value = v }) ks cs)
          b
          c
        ≡ ok m)
      × (find_child m (ks 0) ≡ none)
unfolding add_child find_child
find_child-add_child_unsorted p v ks cs b c l01 l02 l2 l3 =
    (_, refl, unsorted p v ks cs b c l01 l02 l2 l3)
