-- ===== src/BTree/Tree.antt =====
-- `BPlusTree` of nanograph-btree/src/tree.rs, without a persistence layer: the state, the errors and
-- the access to the nodes. Each lock is taken and released within one access, and the methods run
-- one at a time.
pub mod Insert
pub mod Siblings
pub mod Delete
pub mod Lookup
pub mod Write
pub mod Grow
pub mod Widen
pub mod Halves
pub mod Absorb
mod Tests
use nanograph.Prelude.{
  ℕ, zero, suc, ◌+◌, Option, none, some, Bool, true, false, Result, ok, err, List, ◌==◌,
  if◌then◌else◌,
}
use nanograph.Bytes.{Bytes}
use nanograph.BTree.Entries.{Entry}
use nanograph.BTree.Leaf.{NodeId}
use nanograph.BTree.Node
use nanograph.BTree.Node.{BPlusTreeNode, new_leaf}

pub record BPlusTreeConfig : Type 0 where
  pub max_keys : ℕ
  pub min_keys : ℕ

-- `nodes` is the hash map.
pub record BPlusTree : Type 0 where
  pub config : BPlusTreeConfig
  pub root_id : NodeId
  pub nodes : NodeId → Option BPlusTreeNode
  pub next_node_id : ℕ
  pub leftmost_leaf : Option NodeId

-- How a method fails: an error of `BTreeError`, whose message is left out; a panic; or a loop that
-- ran out of the rounds that the model gives it.
pub data Fault : Type 0 where
  node_not_found internal_error panicked out_of_fuel : Fault

-- A method returns a value or fails, and leaves a tree either way.
abbrev pub M : Type 0 → Type 0
M A = BPlusTree → Result A Fault × BPlusTree

abbrev pub continue : {A B : Type 0} → Result A Fault → (A → M B) → M B
continue (ok a) f t = f a t
continue (err e) f t = (err e, t)

infixl 5 ◌>>=◌ ◌>>◌
abbrev pub ◌>>=◌ : {A B : Type 0} → M A → (A → M B) → M B
◌>>=◌ m f t = let (r, t') = m t in continue r f t'

abbrev pub ◌>>◌ : {B : Type 0} → M (Unit {0}) → M B → M B
m >> k = m >>= λ _. k

abbrev pub pure : {A : Type 0} → A → M A
pure a t = (ok a, t)

abbrev pub fail : {A : Type 0} → Fault → M A
fail e t = (err e, t)

-- `ok_or`, and the panics of the nodes.
abbrev pub or_fail : {A : Type 0} → Fault → Option A → M A
or_fail e none = fail e
or_fail e (some a) = pure a

abbrev pub update {ℓ} : {A : Type ℓ} → (NodeId → A) → NodeId → A → NodeId → A
update f i a j = if i == j then a else f j

unfoldable pub new : BPlusTreeConfig → BPlusTree
new config = record {
  config = config;
  root_id = 0;
  nodes = update (λ _. none) 0 (some (new_leaf 0));
  next_node_id = 1;
  leftmost_leaf = some 0;
}

unfoldable pub clear : BPlusTree → BPlusTree
clear t = record t {
  nodes = update (λ _. none) 0 (some (new_leaf 0));
  root_id = 0;
  next_node_id = 1;
  leftmost_leaf = some 0;
}

unfoldable pub allocate_node_id : M NodeId
allocate_node_id t = (ok t.next_node_id, record t { next_node_id = t.next_node_id + 1 })

unfoldable pub get_node : NodeId → M BPlusTreeNode
get_node id t = or_fail internal_error (t.nodes id) t

unfoldable pub update_node : BPlusTreeNode → M Unit
update_node node t = (ok tt, record t { nodes = update t.nodes (Node.node_id node) (some node) })

unfoldable pub remove_node : NodeId → M Unit
remove_node id t = (ok tt, record t { nodes = update t.nodes id none })

unfoldable pub get_root_id : M NodeId
get_root_id t = (ok t.root_id, t)

unfoldable pub set_root_id : NodeId → M Unit
set_root_id id t = (ok tt, record t { root_id = id })

-- The loop runs at most as often as the fuel says.
unfoldable pub find_leaf : ℕ → NodeId → Bytes → M NodeId
unfolding get_node Node.is_leaf
find_leaf zero id key = fail out_of_fuel
find_leaf (suc fuel) id key = do
  node ← get_node id
  elim (Node.is_leaf node) [
    | true ↦ pure id
    | false ↦ or_fail node_not_found (Node.get_child_for_key node key) >>= λ child.
        find_leaf fuel child key
  ]

unfoldable pub get : ℕ → Bytes → M (Option Bytes)
unfolding find_leaf get_root_id get_node
get fuel key = do
  root_id ← get_root_id
  leaf_id ← find_leaf fuel root_id key
  leaf ← get_node leaf_id
  or_fail panicked (Node.get leaf key)

unfoldable pub get_leftmost_leaf : M NodeId
get_leftmost_leaf t = or_fail internal_error t.leftmost_leaf t

unfoldable pub get_leaf_entries : NodeId → M (List Entry)
unfolding get_node
get_leaf_entries leaf_id = do
  node ← get_node leaf_id
  elim node [
    | BPlusTreeNode.leaf n ↦ pure n.entries
    | BPlusTreeNode.internal n ↦ fail internal_error
  ]

unfoldable pub get_next_leaf : NodeId → M (Option NodeId)
unfolding get_node
get_next_leaf leaf_id = do
  node ← get_node leaf_id
  elim node [ BPlusTreeNode.leaf n ↦ pure n.next | BPlusTreeNode.internal n ↦ fail internal_error ]

unfoldable pub get_prev_leaf : NodeId → M (Option NodeId)
unfolding get_node
get_prev_leaf leaf_id = do
  node ← get_node leaf_id
  elim node [ BPlusTreeNode.leaf n ↦ pure n.prev | BPlusTreeNode.internal n ↦ fail internal_error ]
