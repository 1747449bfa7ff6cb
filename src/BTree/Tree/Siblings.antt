-- ===== src/BTree/Tree/Siblings.antt =====
-- A node and its siblings under one parent (nanograph-btree/src/tree.rs): which they are, and moving
-- entries and children between them.
use nanograph.Prelude.{
  ℕ, suc, ◌+◌, ◌-◌, Option, none, some, List, [], ◌∷◌, ◌++◌, Bool, true, false, ltb, leb, ◌==◌,
  ◌&&◌, length, get_elem?, set, pop_back, if◌then◌else◌,
}
use nanograph.Bytes.{Bytes}
use nanograph.BTree.Leaf.{LeafNode, NodeId}
use nanograph.BTree.Internal.{InternalNode}
use nanograph.BTree.Node
use nanograph.BTree.Node.{BPlusTreeNode, internal, leaf}
use nanograph.BTree.Tree.{
  M, ◌>>=◌, ◌>>◌, pure, fail, or_fail, internal_error, panicked, get_node, update_node, remove_node,
}
use nanograph.BTree.Tree.Insert.{reparent, reparent_all}

-- `children.iter().position(|&id| id == node_id)`
unfoldable pub position : NodeId → List NodeId → Option ℕ
position id [] = none
position id (c ∷ cs) = elim (c == id) [
  | true ↦ some 0
  | false ↦ elim (position id cs) [ none ↦ none | some i ↦ some (suc i) ]
]

unfoldable pub get_left_sibling : BPlusTreeNode → BPlusTreeNode → Option NodeId
unfolding position Node.node_id
get_left_sibling node (leaf p) = none
get_left_sibling node (internal p) = elim (position (Node.node_id node) p.children) [
  | none ↦ none
  | some pos ↦ if ltb 0 pos then get_elem? p.children (pos - 1) else none
]

unfoldable pub get_right_sibling : BPlusTreeNode → BPlusTreeNode → Option NodeId
unfolding position Node.node_id
get_right_sibling node (leaf p) = none
get_right_sibling node (internal p) = elim (position (Node.node_id node) p.children) [
  | none ↦ none
  | some pos ↦ if ltb (pos + 1) (length p.children) then get_elem? p.children (pos + 1) else none
]

-- The first key of a child, which separates it from what stands before it.
unfoldable pub first_key : BPlusTreeNode → Option Bytes
first_key (leaf n) = elim n.entries [ [] ↦ none | e ∷ es ↦ some e.0 ]
first_key (internal n) = elim n.keys [ [] ↦ none | k ∷ ks ↦ some k ]

-- The place of a child among the children of a node; `none` also where the node is a leaf.
abbrev pub place_in : BPlusTreeNode → NodeId → Option (InternalNode × ℕ)
place_in (leaf p) id = none
place_in (internal p) id = elim (position id p.children) [ none ↦ none | some pos ↦ some (p, pos) ]

-- `pos > 0 && pos <= keys.len()`
abbrev pub has_key_before : InternalNode → ℕ → Bool
has_key_before p pos = ltb 0 pos && leb pos (length p.keys)

unfoldable pub update_separator_key : NodeId → NodeId → M Unit
unfolding get_node update_node first_key position
update_separator_key parent_id child_id = do
  parent ← get_node parent_id
  child ← get_node child_id
  elim (place_in parent child_id) [
    | none ↦ pure tt
    | some (p, pos) ↦ elim (has_key_before p pos) [
      | false ↦ pure tt
      | true ↦ elim (first_key child) [
        | none ↦ pure tt
        | some key ↦ update_node (internal (record p { keys = set p.keys (pos - 1) key }))
      ]
    ]
  ]

unfoldable pub parent_or_fail : BPlusTreeNode → M NodeId
unfolding Node.parent_of
parent_or_fail node = or_fail internal_error (Node.parent_of node)

-- A child that has moved is given its new parent.
abbrev adopt : NodeId → Option NodeId → M Unit
adopt id none = pure tt
adopt id (some child) = reparent id child

abbrev last_of {ℓ} : {A : Type ℓ} → List A → Option A
last_of xs = elim (pop_back xs) [ none ↦ none | some (x, ys) ↦ some x ]

abbrev init_of {ℓ} : {A : Type ℓ} → List A → List A
init_of xs = elim (pop_back xs) [ none ↦ xs | some (x, ys) ↦ ys ]

abbrev first_of_list {ℓ} : {A : Type ℓ} → List A → Option A
first_of_list [] = none
first_of_list (x ∷ xs) = some x

abbrev rest_of {ℓ} : {A : Type ℓ} → List A → List A
rest_of [] = []
rest_of (x ∷ xs) = xs

abbrev to_front {ℓ} : {A : Type ℓ} → Option A → List A → List A
to_front none xs = xs
to_front (some x) xs = x ∷ xs

abbrev to_back {ℓ} : {A : Type ℓ} → Option A → List A → List A
to_back none xs = xs
to_back (some x) xs = xs ++ x ∷ []

abbrev set_some {ℓ} : {A : Type ℓ} → List A → ℕ → Option A → List A
set_some xs i none = xs
set_some xs i (some x) = set xs i x

-- The two nodes after the last entry of the left sibling has moved, or, between internal nodes, its
-- last child, through the separator of the parent.
abbrev rotate_right :
    InternalNode → InternalNode → Option (InternalNode × ℕ) → M (BPlusTreeNode × BPlusTreeNode)
rotate_right n l none = pure (internal n, internal l)
rotate_right n l (some (p, pos)) = elim (has_key_before p pos) [
  | false ↦ pure (internal n, internal l)
  | true ↦ do
    separator ← or_fail panicked (get_elem? p.keys (pos - 1))
    adopt n.id (last_of l.children)
    update_node (internal (record p { keys = set_some p.keys (pos - 1) (last_of l.keys) }))
    pure (
      internal (record n {
        keys = separator ∷ n.keys;
        children = to_front (last_of l.children) n.children;
      }),
      internal (record l { keys = init_of l.keys; children = init_of l.children }),
    )
]

abbrev move_from_left : NodeId → BPlusTreeNode → BPlusTreeNode → M (BPlusTreeNode × BPlusTreeNode)
move_from_left parent_id (leaf n) (leaf l) = pure (
  leaf (record n { entries = to_front (last_of l.entries) n.entries }),
  leaf (record l { entries = init_of l.entries }),
)
move_from_left parent_id (internal n) (internal l) = do
  parent ← get_node parent_id
  rotate_right n l (place_in parent n.id)
move_from_left parent_id _ _ = fail internal_error

unfoldable pub borrow_from_left : BPlusTreeNode → NodeId → M Unit
unfolding get_node Node.node_id parent_or_fail update_node Node.is_leaf update_separator_key
    reparent position
borrow_from_left node left_id = do
  left ← get_node left_id
  parent_id ← parent_or_fail node
  (node', left') ← move_from_left parent_id node left
  update_node left'
  update_node node'
  elim (Node.is_leaf node') [
    | true ↦ update_separator_key parent_id (Node.node_id node)
    | false ↦ pure tt
  ]

abbrev rotate_left :
    InternalNode → InternalNode → Option (InternalNode × ℕ) → M (BPlusTreeNode × BPlusTreeNode)
rotate_left n r none = pure (internal n, internal r)
rotate_left n r (some (p, pos)) = elim (ltb pos (length p.keys)) [
  | false ↦ pure (internal n, internal r)
  | true ↦ do
    separator ← or_fail panicked (get_elem? p.keys pos)
    adopt n.id (first_of_list r.children)
    update_node (internal (record p { keys = set_some p.keys pos (first_of_list r.keys) }))
    pure (
      internal (record n {
        keys = n.keys ++ separator ∷ [];
        children = to_back (first_of_list r.children) n.children;
      }),
      internal (record r { keys = rest_of r.keys; children = rest_of r.children }),
    )
]

abbrev move_from_right : NodeId → BPlusTreeNode → BPlusTreeNode → M (BPlusTreeNode × BPlusTreeNode)
move_from_right parent_id (leaf n) (leaf r) = pure (
  leaf (record n { entries = to_back (first_of_list r.entries) n.entries }),
  leaf (record r { entries = rest_of r.entries }),
)
move_from_right parent_id (internal n) (internal r) = do
  parent ← get_node parent_id
  rotate_left n r (place_in parent n.id)
move_from_right parent_id _ _ = fail internal_error

unfoldable pub borrow_from_right : BPlusTreeNode → NodeId → M Unit
unfolding get_node Node.node_id parent_or_fail update_node Node.is_leaf update_separator_key
    reparent position
borrow_from_right node right_id = do
  right ← get_node right_id
  parent_id ← parent_or_fail node
  (node', right') ← move_from_right parent_id node right
  update_node right'
  update_node node'
  elim (Node.is_leaf right') [ true ↦ update_separator_key parent_id right_id | false ↦ pure tt ]

-- The leaf after a merged pair is linked back to what is left of the pair.
abbrev link_back : Option NodeId → NodeId → M Unit
link_back none id = pure tt
link_back (some next_id) id = do
  next ← get_node next_id
  elim next [
    | BPlusTreeNode.leaf n ↦ update_node (leaf (record n { prev = some id }))
    | BPlusTreeNode.internal n ↦ update_node (internal n)
  ]

-- The separator of the parent that a merge of internal nodes pulls down, as a list of at most one.
abbrev pulled_down : Bool → List Bytes → ℕ → M (List Bytes)
pulled_down false keys i = pure []
pulled_down true keys i = do key ← or_fail panicked (get_elem? keys i); pure (key ∷ [])

abbrev separator_before : Option (InternalNode × ℕ) → M (List Bytes)
separator_before none = pure []
separator_before (some (p, pos)) = pulled_down (has_key_before p pos) p.keys (pos - 1)

abbrev separator_after : Option (InternalNode × ℕ) → M (List Bytes)
separator_after none = pure []
separator_after (some (p, pos)) = pulled_down (ltb pos (length p.keys)) p.keys pos

-- The left node of a pair after it has taken over what the right one holds.
abbrev join_internal : NodeId → InternalNode → List Bytes → InternalNode → M BPlusTreeNode
join_internal id l pulled r = do
  let children = l.children ++ r.children
  reparent_all id children
  pure (internal (record l { keys = (l.keys ++ pulled) ++ r.keys; children = children }))

abbrev join_leaves : NodeId → LeafNode → LeafNode → M BPlusTreeNode
join_leaves id l r = do
  link_back r.next id
  pure (leaf (record l { entries = l.entries ++ r.entries; next = r.next }))

abbrev join_left : NodeId → NodeId → BPlusTreeNode → BPlusTreeNode → M BPlusTreeNode
join_left parent_id left_id (leaf n) (leaf l) = join_leaves left_id l n
join_left parent_id left_id (internal n) (internal l) = do
  parent ← get_node parent_id
  pulled ← separator_before (place_in parent n.id)
  join_internal left_id l pulled n
join_left parent_id left_id _ _ = fail internal_error

abbrev join_right : NodeId → BPlusTreeNode → BPlusTreeNode → M BPlusTreeNode
join_right parent_id (leaf n) (leaf r) = join_leaves n.id n r
join_right parent_id (internal n) (internal r) = do
  parent ← get_node parent_id
  pulled ← separator_after (place_in parent n.id)
  join_internal n.id n pulled r
join_right parent_id _ _ = fail internal_error

-- `up` is `remove_from_parent`.
unfoldable pub merge_with_left : (NodeId → NodeId → M Unit) → BPlusTreeNode → NodeId → M Unit
unfolding get_node Node.node_id parent_or_fail update_node remove_node reparent_all position
merge_with_left up node left_id = do
  left ← get_node left_id
  parent_id ← parent_or_fail node
  left' ← join_left parent_id left_id node left
  update_node left'
  remove_node (Node.node_id node)
  up parent_id (Node.node_id node)

unfoldable pub merge_with_right : (NodeId → NodeId → M Unit) → BPlusTreeNode → NodeId → M Unit
unfolding get_node Node.node_id parent_or_fail update_node remove_node reparent_all position
merge_with_right up node right_id = do
  right ← get_node right_id
  parent_id ← parent_or_fail node
  node' ← join_right parent_id node right
  update_node node'
  remove_node right_id
  up parent_id right_id
