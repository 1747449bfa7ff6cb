-- ===== src/BTree/Samples.antt =====
-- Two leaves and an internal node above them, for the tests.
use nanograph.Prelude.{ℕ, refl, Option, none, some, [], ◌∷◌, ◌==◌, if◌then◌else◌}
use nanograph.Bytes.{cmp}
use nanograph.BTree.Entries.{IsSorted}
use nanograph.BTree.Leaf.{LeafNode}
use nanograph.BTree.Internal.{InternalNode}
use nanograph.BTree.Internal.Routing.{IsAscending}
use nanograph.BTree.Node.{BPlusTreeNode, internal, leaf}
use nanograph.BTree.Tree.{BPlusTree}

abbrev pub low : LeafNode
low = record {
  id = 0;
  entries = ((1 ∷ []), (10 ∷ [])) ∷ ((2 ∷ []), (20 ∷ [])) ∷ [];
  next = some 1;
  prev = none;
  parent = some 2;
}

abbrev pub high : LeafNode
high = record {
  id = 1;
  entries = ((5 ∷ []), (50 ∷ [])) ∷ ((7 ∷ []), (70 ∷ [])) ∷ [];
  next = none;
  prev = some 0;
  parent = some 2;
}

abbrev pub top : InternalNode
top = record { id = 2; keys = (5 ∷ []) ∷ []; children = 0 ∷ 1 ∷ []; parent = none }

abbrev pub nodes : ℕ → Option BPlusTreeNode
nodes id =
    if id == 0
    then some (leaf low)
    else if id == 1
    then some (leaf high)
    else if id == 2
    then some (internal top)
    else none

abbrev pub two_leaves : BPlusTree
two_leaves = record {
  config = record { max_keys = 4; min_keys = 1 };
  root_id = 2;
  nodes = nodes;
  next_node_id = 3;
  leftmost_leaf = some 0;
}

pub low-IsSorted : IsSorted low.entries
unfolding cmp
low-IsSorted = ((refl, tt), (tt, tt))

pub top-IsAscending : IsAscending top.keys
top-IsAscending = (tt, tt)
