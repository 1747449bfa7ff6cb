-- ===== src/Art/Tests.antt =====
-- Runs of the radix tree of nanograph-art.
use nanograph.Prelude.{
  ℕ, ◌+◌, ◌≡◌, refl, sym, ap, ◌∙◌, Option, none, some, ok, [], ◌∷◌, ◌++◌, length, ltb, ◌⊎◌, subst,
  ◌==◌, if◌then◌else◌, inl, inr, arith,
}
use nanograph.Bytes.{Bytes, same, cmp}
use nanograph.Art.Node.{
  Node, leaf, node4, node48, NodeHeader, Slot, vacant, occupied, find_child, find_byte, bisect,
  is_leaf, partial_of,
}
use nanograph.Art.Node
use nanograph.Art.Children
use nanograph.Art.Insert
use nanograph.Art.Children.{add_child}
use nanograph.Art.Children.Found.{IsIndexed}
use nanograph.Art.Insert.{AdaptiveRadixTree, Outcome, done, panicked, ◌>>=◌, insert, get}
use nanograph.Art.Insert.Seek.{strip}
use nanograph.Art.Insert.Trees.{IsTree, leaf_tree, inner_tree, EndsInside, ends_here, ends_below}
use nanograph.Art.Insert.Get.{RootIsTree, size_after, get-insert, insert-KeyEndsInside}
use nanograph.Art.Remove.{remove_child}
use nanograph.Art.Remove.Freed.{add_child-remove_child_last, find_child-add_child_unsorted}

-- A node with two leaves behind the bytes 5 and 6.
abbrev two_leaves : Node ℕ
two_leaves =
    node4 (record { num_children = 2; partial = 5 ∷ 6 ∷ []; value = none })
      (λ i. if i == 0 then 1 else 2)
      (λ i. occupied (if i == 0 then leaf (5 ∷ 6 ∷ 1 ∷ []) 10 else leaf (5 ∷ 6 ∷ 2 ∷ 7 ∷ []) 20))

abbrev tree : AdaptiveRadixTree ℕ
tree = record { root = some two_leaves; size = 2 }

two_leaves-IsIndexed : IsIndexed two_leaves
two_leaves-IsIndexed =
    (omega arith, λ i l. (_, refl), λ i j l m e. ground arith, λ e. absurd (omega (arith, e)))

two_leaves_children :
    (b : ℕ) (c : Node ℕ) → find_child two_leaves b ≡ some c → IsTree ℕ (5 ∷ 6 ∷ b ∷ []) c
unfolding find_child find_byte
two_leaves_children b c e = elim (cases b c e) [
  | inl (at_one, c_one) ↦
      subst (λ n. IsTree ℕ (5 ∷ 6 ∷ b ∷ []) n) (sym c_one)
        (leaf_tree (5 ∷ 6 ∷ b ∷ []) (5 ∷ 6 ∷ 1 ∷ []) [] 10 (rw at_one refl))
  | inr (at_two, c_two) ↦
      subst (λ n. IsTree ℕ (5 ∷ 6 ∷ b ∷ []) n) (sym c_two)
        (leaf_tree (5 ∷ 6 ∷ b ∷ []) (5 ∷ 6 ∷ 2 ∷ 7 ∷ []) (7 ∷ []) 20 (rw at_two refl))
]
  where
    cases :
        (b : ℕ) (c : Node ℕ)
        → find_child two_leaves b ≡ some c
        → ((b ≡ 1) × (c ≡ leaf (5 ∷ 6 ∷ 1 ∷ []) 10))
          ⊎ ((b ≡ 2) × (c ≡ leaf (5 ∷ 6 ∷ 2 ∷ 7 ∷ []) 20))
    cases b c e = ground arith

tree-RootIsTree : RootIsTree tree
tree-RootIsTree =
    inner_tree [] two_leaves refl two_leaves-IsIndexed (λ b c l e. two_leaves_children b c e)

not_inside : {r : Bytes} {n : Node ℕ} → EndsInside ℕ r n → r ≡ 5 ∷ 6 ∷ 3 ∷ [] → n ≡ two_leaves → ⊥
unfolding strip find_child find_byte
not_inside (ends_here r n a s e) er en =
    let f : 5 ∷ 6 ∷ [] ≡ (5 ∷ 6 ∷ 3 ∷ []) ++ a ∷ s =
      sym (ap partial_of en) ∙ (e ∙ ap (λ z. z ++ a ∷ s) er) in
    absurd (omega (arith, ap length f))
not_inside (ends_below r r' n c b i s e inside) er en =
    let f : some (3 ∷ []) ≡ some (b ∷ r') =
      sym (ap (strip (5 ∷ 6 ∷ [])) er) ∙ (ap (λ z. strip z r) (sym (ap partial_of en)) ∙ s) in
    let g : find_child two_leaves b ≡ some c = ap (λ z. find_child z b) (sym en) ∙ e in
    absurd (ground arith)

get-insert_example :
    (t' : AdaptiveRadixTree ℕ) × (insert tree (5 ∷ 6 ∷ 3 ∷ []) 30
      ≡ done (get tree (5 ∷ 6 ∷ 3 ∷ []), t'))
    × (t'.size ≡ size_after (get tree (5 ∷ 6 ∷ 3 ∷ [])) tree.size)
    × ((q : Bytes) → get t' q ≡ (if same (5 ∷ 6 ∷ 3 ∷ []) q then some 30 else get tree q))
get-insert_example =
    get-insert tree 5 (6 ∷ 3 ∷ []) 30 tree-RootIsTree (omega arith)
      (λ inside. not_inside inside refl refl)

insert-KeyEndsInside_example : insert tree (5 ∷ []) 30 ≡ panicked
insert-KeyEndsInside_example =
    insert-KeyEndsInside two_leaves 2 5 [] 30 (ends_here (5 ∷ []) two_leaves 6 [] refl)

-- A node of 20 children, each at the place of its byte.
abbrev twenty : Node ℕ
twenty =
    node48 (record { num_children = 20; partial = []; value = none })
      (λ b. if ltb b 20 then b else 255)
      (λ i. if ltb i 20 then occupied (leaf (i ∷ []) i) else vacant)

add_child-remove_child_last_example :
    (n m : Node ℕ) × (remove_child twenty 3 ≡ ok (some n))
    × (add_child n 40 (leaf (40 ∷ []) 40) ≡ ok m)
    × (find_child m 19 ≡ some (leaf (40 ∷ []) 40))
add_child-remove_child_last_example =
    add_child-remove_child_last _ (λ b. if ltb b 20 then b else 255)
      (λ i. if ltb i 20 then occupied (leaf (i ∷ []) i) else vacant) 3 19 40 (leaf (40 ∷ []) 40)
      (omega arith) (omega arith) (omega arith) (omega arith) (omega arith) refl

-- Five keys inserted in turn, of which the first is not found afterwards.
abbrev empty : AdaptiveRadixTree ℕ
empty = record { root = none; size = 0 }

abbrev inserted : Outcome (AdaptiveRadixTree ℕ)
inserted = insert empty (0 ∷ 2 ∷ []) 2 >>= λ a. insert a.1 (0 ∷ 1 ∷ []) 1 >>= λ b.
    insert b.1 (0 ∷ 3 ∷ []) 3 >>= λ c.
    insert c.1 (0 ∷ 4 ∷ []) 4 >>= λ d. insert d.1 (0 ∷ 5 ∷ []) 5 >>= λ e. done e.1

finds : Outcome (AdaptiveRadixTree ℕ) → Option ℕ × Option ℕ
finds (done t) = (get t (0 ∷ 2 ∷ []), get t (0 ∷ 3 ∷ []))
finds o = (none, none)

lost_key : finds inserted ≡ (none, some 3)
unfolding finds insert get Insert.insert_recursive Insert.common_length Insert.get_loop
    Insert.create_inner_node_from_leaves Node.new_leaf Node.matches Node.new_node4 find_child
    find_byte bisect cmp add_child Children.add_child_unchecked Children.add_child_to_node4
    Children.add_child_to_node16 Children.insert_position Children.shift_right Children.copy_indices
    Children.grow_children Children.grow_node4_keys Children.replace_child
lost_key = refl

find_child-add_child_unsorted_example :
    (m : Node ℕ) × (add_child
        (node4
          (record { num_children = 4; partial = []; value = none })
          (λ i. if i == 0 then 2 else if i == 1 then 1 else i + 1)
          (λ i. occupied (leaf (i ∷ []) i)))
        5
        (leaf (5 ∷ []) 50)
      ≡ ok m)
    × (find_child m 2 ≡ none)
find_child-add_child_unsorted_example =
    find_child-add_child_unsorted [] none (λ i. if i == 0 then 2 else if i == 1 then 1 else i + 1)
      (λ i. occupied (leaf (i ∷ []) i)) 5 (leaf (5 ∷ []) 50) (omega arith) (omega arith)
      (omega arith) (omega arith)
