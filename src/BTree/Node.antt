-- ===== src/BTree/Node.antt =====
-- `BPlusTreeNode` of nanograph-btree/src/node.rs. A method that can panic returns an `Option`,
-- where `none` is the panic; what it returns comes with the node after the call.
use nanograph.Prelude.{
  ℕ, Option, none, some, List, [], Bool, true, false, length, leb, get_elem?, ◌==◌,
}
use nanograph.Prelude.Options.{◌>>=◌}
use nanograph.Bytes.{Bytes}
use nanograph.BTree.Leaf
use nanograph.BTree.Leaf.{LeafNode, NodeId}
use nanograph.BTree.Internal
use nanograph.BTree.Internal.{InternalNode}

pub data BPlusTreeNode : Type 0 where
  internal : InternalNode → BPlusTreeNode
  leaf : LeafNode → BPlusTreeNode

abbrev pub new_leaf : NodeId → BPlusTreeNode
unfolding Leaf.new
new_leaf id = leaf (Leaf.new id)

abbrev pub new_internal : NodeId → BPlusTreeNode
unfolding Internal.new
new_internal id = internal (Internal.new id)

unfoldable pub node_id : BPlusTreeNode → NodeId
node_id (internal n) = n.id
node_id (leaf n) = n.id

unfoldable pub parent_of : BPlusTreeNode → Option NodeId
parent_of (internal n) = n.parent
parent_of (leaf n) = n.parent

unfoldable pub set_parent : BPlusTreeNode → Option NodeId → BPlusTreeNode
set_parent (internal n) p = internal (record n { parent = p })
set_parent (leaf n) p = leaf (record n { parent = p })

unfoldable pub is_leaf : BPlusTreeNode → Bool
is_leaf (internal n) = false
is_leaf (leaf n) = true

unfoldable pub is_internal : BPlusTreeNode → Bool
is_internal (internal n) = true
is_internal (leaf n) = false

unfoldable pub key_count : BPlusTreeNode → ℕ
key_count (internal n) = length n.keys
key_count (leaf n) = length n.entries

unfoldable pub is_empty : BPlusTreeNode → Bool
unfolding key_count
is_empty n = key_count n == 0

unfoldable pub is_full : BPlusTreeNode → ℕ → Bool
unfolding key_count
is_full n order = leb order (key_count n)

unfoldable pub get : BPlusTreeNode → Bytes → Option (Option Bytes)
get (internal n) key = some none
get (leaf n) key = Leaf.get n key

unfoldable pub insert_entry : BPlusTreeNode → Bytes → Bytes → Option (Option Bytes × BPlusTreeNode)
insert_entry (internal n) key value = some (none, internal n)
insert_entry (leaf n) key value = do (old, n') ← Leaf.insert n key value; some (old, leaf n')

unfoldable pub delete_entry : BPlusTreeNode → Bytes → Option (Option Bytes × BPlusTreeNode)
delete_entry (internal n) key = some (none, internal n)
delete_entry (leaf n) key = do (old, n') ← Leaf.remove n key; some (old, leaf n')

unfoldable pub get_child_for_key : BPlusTreeNode → Bytes → Option NodeId
get_child_for_key (internal n) key = get_elem? n.children (Internal.find_child_index n key)
get_child_for_key (leaf n) key = none

unfoldable pub insert_internal_entry : BPlusTreeNode → Bytes → NodeId → Option BPlusTreeNode
insert_internal_entry (internal n) key child = do
  n' ← Internal.insert_key_child n key child
  some (internal n')
insert_internal_entry (leaf n) key child = some (leaf n)

unfoldable pub get_all_children : BPlusTreeNode → List NodeId
get_all_children (internal n) = n.children
get_all_children (leaf n) = []

-- What a split returns: the separator, the new node, and the node that was split; or that the node
-- is not of the kind.
pub data Halves : Type 0 where
  halves : Bytes → BPlusTreeNode → BPlusTreeNode → Halves
  wrong_kind : Halves

unfoldable pub split_leaf : BPlusTreeNode → NodeId → Option Halves
split_leaf (internal n) new_id = some wrong_kind
split_leaf (leaf n) new_id = do
  (separator, right, left) ← Leaf.split n
  some (
      halves separator
        (leaf (record {
          id = new_id;
          entries = right.entries;
          next = right.next;
          prev = some n.id;
          parent = n.parent;
        }))
        (leaf (record left { next = some new_id })))

unfoldable pub split_internal : BPlusTreeNode → NodeId → Option Halves
split_internal (leaf n) new_id = some wrong_kind
split_internal (internal n) new_id = do
  (separator, right, left) ← Internal.split n
  some (
      halves separator
        (internal
          (record { id = new_id; keys = right.keys; children = right.children; parent = n.parent }))
        (internal left))
