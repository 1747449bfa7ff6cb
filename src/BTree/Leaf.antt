-- ===== src/BTree/Leaf.antt =====
-- `LeafNode` of nanograph-btree/src/node.rs.
pub mod Refine
pub mod Split
pub mod Moves
use mathlib.Core.Option
use nanograph.Prelude.{
  ℕ, zero, suc, ◌/◌, Option, none, some, List, [], ◌∷◌, ◌++◌, Result, ok, err, Bool, Ordering,
  length, get_elem?, take, drop, insert_at, remove_at, pop_back, ltb,
}
use nanograph.Bytes.{Bytes, cmp}
use nanograph.BTree.Search.{binary_search_by}
use nanograph.BTree.Entries.{Entry}

-- A node's identifier, `BTreeNodeId`.
abbrev pub NodeId : Type 0
NodeId = ℕ

pub record LeafNode : Type 0 where
  pub id : NodeId
  pub entries : List Entry
  pub next : Option NodeId
  pub prev : Option NodeId
  pub parent : Option NodeId

unfoldable pub new : NodeId → LeafNode
new id = record { id = id; entries = []; next = none; prev = none; parent = none }

abbrev pub by_key : Bytes → Entry → Ordering
by_key key e = cmp e.0 key

unfoldable pub find_key_index : LeafNode → Bytes → Result ℕ ℕ
find_key_index leaf key = binary_search_by (by_key key) leaf.entries

-- `self.entries[idx].1 = value`
abbrev pub set_value : List Entry → ℕ → Bytes → List Entry
set_value [] i w = []
set_value ((k, v) ∷ es) zero w = (k, w) ∷ es
set_value ((k, v) ∷ es) (suc i) w = (k, v) ∷ set_value es i w

-- The operations return what the method returns and the node after it; `none` is a panic, which an
-- index out of range raises.
unfoldable pub insert : LeafNode → Bytes → Bytes → Option (Option Bytes × LeafNode)
unfolding find_key_index
insert leaf key value = elim (find_key_index leaf key) [
  | ok idx ↦
      Option.map (λ e. (some e.1, record leaf { entries = set_value leaf.entries idx value }))
        (get_elem? leaf.entries idx)
  | err idx ↦
      Option.map (λ es. (none, record leaf { entries = es }))
        (insert_at leaf.entries idx (key, value))
]

unfoldable pub remove : LeafNode → Bytes → Option (Option Bytes × LeafNode)
unfolding find_key_index
remove leaf key = elim (find_key_index leaf key) [
  | ok idx ↦
      Option.map (λ e. (some e.1, record leaf { entries = remove_at leaf.entries idx }))
        (get_elem? leaf.entries idx)
  | err idx ↦ some (none, leaf)
]

unfoldable pub get : LeafNode → Bytes → Option (Option Bytes)
unfolding find_key_index
get leaf key = elim (find_key_index leaf key) [
  | ok idx ↦ Option.map (λ e. some e.1) (get_elem? leaf.entries idx)
  | err idx ↦ some none
]

-- The middle key, the right node and the left node, which is the node itself after the call.
unfoldable pub split : LeafNode → Option (Bytes × LeafNode × LeafNode)
split leaf =
    let mid = length leaf.entries / 2 in
    let right_entries = drop mid leaf.entries in
    Option.map
      (λ first. (
        first.0,
        record leaf { entries = right_entries; prev = none },
        record leaf { entries = take mid leaf.entries },
      ))
      (get_elem? right_entries 0)

unfoldable pub is_underfull : LeafNode → ℕ → Bool
is_underfull leaf min_entries = ltb (length leaf.entries) min_entries

-- The node and the other node, which is left without entries.
unfoldable pub merge : LeafNode → LeafNode → LeafNode × LeafNode
merge leaf other = (
  record leaf { entries = leaf.entries ++ other.entries; next = other.next },
  record other { entries = [] },
)

-- The new separator, the node and its sibling.
unfoldable pub borrow_from_right : LeafNode → LeafNode → Bytes × LeafNode × LeafNode
borrow_from_right leaf right = elim right.entries [
  | [] ↦ ([], leaf, right)
  | e ∷ es ↦ (e.0, record leaf { entries = leaf.entries ++ e ∷ [] }, record right { entries = es })
]

unfoldable pub borrow_from_left : LeafNode → LeafNode → Bytes × LeafNode × LeafNode
borrow_from_left leaf left = elim (pop_back left.entries) [
  | none ↦ ([], leaf, left)
  | some (e, es) ↦ (e.0, record leaf { entries = e ∷ leaf.entries }, record left { entries = es })
]
