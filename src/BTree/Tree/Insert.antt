-- ===== src/BTree/Tree/Insert.antt =====
-- Insertion into the tree (`BPlusTree::insert` and what it calls, nanograph-btree/src/tree.rs). The
-- splits climb from a node to its parent at most as often as the fuel says.
use nanograph.Prelude.{ℕ, zero, suc, none, some, List, [], ◌∷◌, ◌++◌, true, false}
use nanograph.Bytes.{Bytes}
use nanograph.BTree.Leaf.{NodeId}
use nanograph.BTree.Node
use nanograph.BTree.Node.{BPlusTreeNode, Halves, internal, leaf, halves, wrong_kind}
use nanograph.BTree.Tree.{
  M, ◌>>=◌, ◌>>◌, pure, fail, or_fail, internal_error, panicked, out_of_fuel, allocate_node_id,
  get_node, update_node, get_root_id, set_root_id, find_leaf,
}

-- `new_root.children.push(left_child)` on a new internal node.
abbrev push_child : BPlusTreeNode → NodeId → BPlusTreeNode
push_child (internal n) child = internal (record n { children = n.children ++ child ∷ [] })
push_child (leaf n) child = leaf n

-- A node's parent pointer is written.
unfoldable pub reparent : NodeId → NodeId → M Unit
unfolding get_node update_node Node.set_parent
reparent parent child_id = do
  child ← get_node child_id
  update_node (Node.set_parent child (some parent))

-- The loop over the children of a new node.
unfoldable pub reparent_all : NodeId → List NodeId → M Unit
unfolding reparent
reparent_all parent [] = pure tt
reparent_all parent (child_id ∷ rest) = do reparent parent child_id; reparent_all parent rest

unfoldable pub create_new_root : NodeId → Bytes → NodeId → M Unit
unfolding allocate_node_id Node.insert_internal_entry update_node set_root_id reparent
create_new_root left_child key right_child = do
  new_root_id ← allocate_node_id
  let new_root = push_child (Node.new_internal new_root_id) left_child
  new_root' ← or_fail panicked (Node.insert_internal_entry new_root key right_child)
  reparent new_root_id left_child
  reparent new_root_id right_child
  update_node new_root'
  set_root_id new_root_id

-- The separator goes to the parent, or to a new root where there is none. `up` is the insertion into
-- a parent.
unfoldable pub insert_separator :
    (NodeId → Bytes → NodeId → M Unit) → BPlusTreeNode → Bytes → BPlusTreeNode → M Unit
unfolding create_new_root Node.node_id Node.parent_of
insert_separator up node key new_node = elim (Node.parent_of node) [
  | some parent_id ↦ up parent_id key (Node.node_id new_node)
  | none ↦ create_new_root (Node.node_id node) key (Node.node_id new_node)
]

-- The rest of `split_leaf` and `split_internal`, after the node has been split in memory.
abbrev finish_leaf : (NodeId → Bytes → NodeId → M Unit) → Halves → M Unit
finish_leaf up wrong_kind = fail internal_error
finish_leaf up (halves key new_node node) = do
  update_node node
  update_node new_node
  insert_separator up node key new_node

abbrev finish_internal : (NodeId → Bytes → NodeId → M Unit) → Halves → M Unit
finish_internal up wrong_kind = fail internal_error
finish_internal up (halves key new_node node) = do
  reparent_all (Node.node_id new_node) (Node.get_all_children new_node)
  update_node node
  update_node new_node
  insert_separator up node key new_node

unfoldable pub split_internal : (NodeId → Bytes → NodeId → M Unit) → BPlusTreeNode → M Unit
unfolding allocate_node_id Node.split_internal reparent_all Node.get_all_children update_node
    insert_separator
split_internal up node = do
  new_node_id ← allocate_node_id
  split ← or_fail panicked (Node.split_internal node new_node_id)
  finish_internal up split

unfoldable pub insert_into_parent : ℕ → NodeId → Bytes → NodeId → M Unit
unfolding get_node Node.insert_internal_entry Node.is_full split_internal update_node
insert_into_parent zero parent_id key right_child = fail out_of_fuel
insert_into_parent (suc fuel) parent_id key right_child = do
  parent ← get_node parent_id
  parent' ← or_fail panicked (Node.insert_internal_entry parent key right_child)
  λ t. elim (Node.is_full parent' t.config.max_keys) [
    | true ↦ split_internal (insert_into_parent fuel) parent' t
    | false ↦ update_node parent' t
  ]

unfoldable pub split_leaf : ℕ → BPlusTreeNode → M Unit
unfolding allocate_node_id Node.split_leaf update_node insert_separator insert_into_parent
split_leaf fuel node = do
  new_node_id ← allocate_node_id
  split ← or_fail panicked (Node.split_leaf node new_node_id)
  finish_leaf (insert_into_parent fuel) split

unfoldable pub insert : ℕ → Bytes → Bytes → M Unit
unfolding get_root_id find_leaf get_node Node.insert_entry Node.is_full split_leaf update_node
insert fuel key value = do
  root_id ← get_root_id
  leaf_id ← find_leaf fuel root_id key
  node ← get_node leaf_id
  (old, node') ← or_fail panicked (Node.insert_entry node key value)
  λ t. elim (Node.is_full node' t.config.max_keys) [
    | true ↦ split_leaf fuel node' t
    | false ↦ update_node node' t
  ]
