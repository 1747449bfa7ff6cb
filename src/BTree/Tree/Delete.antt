-- ===== src/BTree/Tree/Delete.antt =====
-- Deletion from the tree (`BPlusTree::delete` and what it calls, nanograph-btree/src/tree.rs). The
-- rebalancing climbs from a node to its parent at most as often as the fuel says.
use nanograph.Prelude.{
  ℕ, zero, suc, ◌-◌, Option, none, some, Bool, true, false, ltb, ◌==◌, ◌&&◌, length, get_elem?,
  remove_at, if◌then◌else◌,
}
use nanograph.Bytes.{Bytes}
use nanograph.BTree.Leaf.{NodeId}
use nanograph.BTree.Node
use nanograph.BTree.Node.{BPlusTreeNode, internal, leaf}
use nanograph.BTree.Tree.{
  BPlusTree, M, ◌>>=◌, ◌>>◌, pure, fail, or_fail, panicked, out_of_fuel, get_node, update_node,
  remove_node, get_root_id, set_root_id, find_leaf,
}
use nanograph.BTree.Tree.Siblings.{
  get_left_sibling, get_right_sibling, borrow_from_left, borrow_from_right, merge_with_left,
  merge_with_right, has_key_before, parent_or_fail, position,
}

-- The left sibling if `large` holds of it, looked up in the tree.
abbrev lends : Option NodeId → M (Option NodeId)
lends none = pure none
lends (some id) = do
  sibling ← get_node id
  λ t. pure (if ltb t.config.min_keys (Node.key_count sibling) then some id else none) t

-- What is left to try where the left sibling lends nothing: borrow from the right, else merge with
-- the left, else with the right.
abbrev rebalance :
    (NodeId → NodeId → M Unit)
    → BPlusTreeNode
    → Option NodeId
    → Option NodeId
    → Option NodeId
    → M Unit
rebalance up node left right (some lender) = borrow_from_right node lender
rebalance up node (some l) right none = merge_with_left up node l
rebalance up node none (some r) none = merge_with_right up node r
rebalance up node none none none = update_node node

unfoldable pub handle_underflow : (NodeId → NodeId → M Unit) → BPlusTreeNode → M Unit
unfolding parent_or_fail get_node get_left_sibling get_right_sibling borrow_from_left
    borrow_from_right merge_with_left merge_with_right update_node Node.key_count
handle_underflow up node = do
  parent_id ← parent_or_fail node
  parent ← get_node parent_id
  let left = get_left_sibling node parent
  let right = get_right_sibling node parent
  rich_left ← lends left
  elim rich_left [
    | some lender ↦ borrow_from_left node lender
    | none ↦ lends right >>= λ rich_right. rebalance up node left right rich_right
  ]

-- A child and the separator that goes with it leave a node.
abbrev without_child : BPlusTreeNode → NodeId → BPlusTreeNode
without_child (leaf p) id = leaf p
without_child (internal p) id = elim (position id p.children) [
  | none ↦ internal p
  | some pos ↦
      let children = remove_at p.children pos in
      if has_key_before p pos
      then internal (record p { children = children; keys = remove_at p.keys (pos - 1) })
      else if (pos == 0) && ltb 0 (length p.keys)
      then internal (record p { children = children; keys = remove_at p.keys 0 })
      else internal (record p { children = children })
]

-- The only child of a root.
abbrev only_child : BPlusTreeNode → Option NodeId
only_child (leaf p) = none
only_child (internal p) = elim p.parent [
  | some g ↦ none
  | none ↦ if length p.children == 1 then get_elem? p.children 0 else none
]

abbrev has_parent : Option NodeId → Bool
has_parent none = false
has_parent (some p) = true

-- Whether a node has too few keys and a parent.
abbrev underflows : BPlusTree → BPlusTreeNode → Bool
underflows t node = ltb (Node.key_count node) t.config.min_keys && has_parent (Node.parent_of node)

unfoldable pub remove_from_parent : ℕ → NodeId → NodeId → M Unit
unfolding get_node position handle_underflow update_node set_root_id remove_node Node.key_count
    Node.parent_of Node.set_parent
remove_from_parent zero parent_id child_id = fail out_of_fuel
remove_from_parent (suc fuel) parent_id child_id = do
  stored ← get_node parent_id
  let parent = without_child stored child_id
  elim (only_child parent) [
    | some new_root_id ↦ do
      new_root ← get_node new_root_id
      update_node (Node.set_parent new_root none)
      set_root_id new_root_id
      remove_node parent_id
    | none ↦ λ t. elim (underflows t parent) [
      | true ↦ handle_underflow (remove_from_parent fuel) parent t
      | false ↦ update_node parent t
    ]
  ]

-- Whether the key was there.
unfoldable pub delete : ℕ → Bytes → M Bool
unfolding get_root_id find_leaf get_node Node.delete_entry handle_underflow update_node
    Node.key_count Node.parent_of remove_from_parent
delete fuel key = do
  root_id ← get_root_id
  leaf_id ← find_leaf fuel root_id key
  node ← get_node leaf_id
  (deleted, node') ← or_fail panicked (Node.delete_entry node key)
  elim deleted [
    | none ↦ pure false
    | some value ↦ do
      λ t. elim (underflows t node') [
        | true ↦ handle_underflow (remove_from_parent fuel) node' t
        | false ↦ update_node node' t
      ]
      pure true
  ]
