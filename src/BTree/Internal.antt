-- ===== src/BTree/Internal.antt =====
-- `InternalNode` of nanograph-btree/src/node.rs.
pub mod Routing
pub mod Split
use nanograph.Prelude.Options.{◌>>=◌}
use nanograph.Prelude.{
  ℕ, suc, ◌+◌, ◌/◌, Option, none, some, List, [], Result, ok, err, Ordering, length, get_elem?,
  take, drop, insert_at, remove_at, set, ltb, if◌then◌else◌, pop_back,
}
use nanograph.Bytes.{Bytes, cmp}
use nanograph.BTree.Search.{binary_search_by}
use nanograph.BTree.Leaf.{NodeId}

pub record InternalNode : Type 0 where
  pub id : NodeId
  pub keys : List Bytes
  pub children : List NodeId
  pub parent : Option NodeId

unfoldable pub new : NodeId → InternalNode
new id = record { id = id; keys = []; children = []; parent = none }

abbrev pub to_key : Bytes → Bytes → Ordering
to_key key k = cmp k key

unfoldable pub find_child_index : InternalNode → Bytes → ℕ
find_child_index node key = elim (binary_search_by (to_key key) node.keys) [
  | ok idx ↦ suc idx
  | err idx ↦ idx
]

abbrev pub position : Result ℕ ℕ → ℕ
position (ok idx) = idx
position (err idx) = idx

-- `none` is the panic of an insertion beyond the end.
unfoldable pub insert_key_child : InternalNode → Bytes → NodeId → Option InternalNode
insert_key_child node key child = do
  let idx = position (binary_search_by (to_key key) node.keys)
  keys ← insert_at node.keys idx key
  children ← insert_at node.children (suc idx) child
  some (record node { keys = keys; children = children })

-- `Vec::split_off`: an index beyond the end is a panic.
abbrev pub split_off {ℓ} : {A : Type ℓ} → List A → ℕ → Option (List A × List A)
split_off xs at = if ltb (length xs) at then none else some (take at xs, drop at xs)

-- `Vec::pop`, its result dropped.
abbrev pub popped {ℓ} : {A : Type ℓ} → List A → List A
popped xs = elim (pop_back xs) [ none ↦ xs | some (x, ys) ↦ ys ]

-- The middle key, the right node and the left node, which is the node itself after the call;
-- `none` is a panic.
unfoldable pub split : InternalNode → Option (Bytes × InternalNode × InternalNode)
split node = do
  let mid = length node.keys / 2
  middle_key ← get_elem? node.keys mid
  (left_keys, right_keys) ← split_off node.keys (mid + 1)
  (left_children, right_children) ← split_off node.children (mid + 1)
  some (
    middle_key,
    record node { keys = right_keys; children = right_children },
    record node { keys = popped left_keys; children = left_children },
  )

unfoldable pub remove_key : InternalNode → ℕ → InternalNode
remove_key node idx =
    if ltb idx (length node.keys) then record node { keys = remove_at node.keys idx } else node

unfoldable pub remove_child : InternalNode → ℕ → InternalNode
remove_child node idx =
    if ltb idx (length node.children)
    then record node { children = remove_at node.children idx }
    else node

unfoldable pub replace_key : InternalNode → ℕ → Bytes → InternalNode
replace_key node idx key =
    if ltb idx (length node.keys) then record node { keys = set node.keys idx key } else node
