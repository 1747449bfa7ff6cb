-- ===== src/BTree/Tree/Tests.antt =====
-- Small trees, on which the theorems about insertion and deletion are applied.
use nanograph.Prelude.{
  ℕ, suc, ◌≡◌, refl, none, some, [], ◌∷◌, ok, ◌==◌, arith, get_elem?, if◌then◌else◌, ◌+◌, zero,
  subst, ==_iff, ◌<◌,
}
use nanograph.Bytes.{Bytes, cmp, same}
use nanograph.BTree.Search.{binary_search_by}
use nanograph.BTree.Entries.{lookup, upsert, erase}
use nanograph.BTree.Leaf.{LeafNode}
use nanograph.BTree.Internal.{InternalNode, find_child_index}
use nanograph.BTree.Internal.Routing.{rank}
use nanograph.BTree.Node
use nanograph.BTree.Node.{BPlusTreeNode, internal, leaf}
use nanograph.BTree.Tree.{BPlusTree, find_leaf, get, get_node}
use nanograph.BTree.Tree.Insert
use nanograph.BTree.Tree.Grow.{insert_grows}
use nanograph.BTree.Tree.Widen.{IsUnder}
use nanograph.BTree.Tree.Absorb.{IsChild, insert_absorbed}
use nanograph.BTree.Tree.Delete
use nanograph.BTree.Tree.Write.{
  IsAt, KeepsEnough, was_there, result_of, insert_refines_map, delete_refines_map,
}
use nanograph.BTree.Samples.{low, low-IsSorted, nodes, top, top-IsAscending, two_leaves}

low-IsAt : IsAt 2 (2 ∷ []) two_leaves low
unfolding find_leaf get_node Node.is_leaf Node.get_child_for_key find_child_index binary_search_by
    cmp
low-IsAt = record { found = refl; stored = refl; sorted = low-IsSorted }

insert_refines_map_example :
    (t' : BPlusTree) × (Insert.insert 2 (2 ∷ []) (30 ∷ []) two_leaves ≡ (ok tt, t'))
    × (t'.root_id ≡ 2)
    × (t'.next_node_id ≡ 3)
    × ((q : Bytes)
        → result_of (get 2 q t')
          ≡ (if same (2 ∷ []) q then ok (some (30 ∷ [])) else result_of (get 2 q two_leaves)))
unfolding upsert cmp
insert_refines_map_example =
    insert_refines_map 2 (2 ∷ []) (30 ∷ []) two_leaves low low-IsAt (omega arith)

low-KeepsEnough : KeepsEnough (2 ∷ []) two_leaves low
unfolding erase cmp
low-KeepsEnough = refl

delete_refines_map_example :
    (t' : BPlusTree) × (Delete.delete 2 (2 ∷ []) two_leaves
      ≡ (ok (was_there (lookup (2 ∷ []) low.entries)), t'))
    × (result_of (get 2 (2 ∷ []) two_leaves) ≡ ok (lookup (2 ∷ []) low.entries))
    × ((q : Bytes)
        → result_of (get 2 q t')
          ≡ (if same (2 ∷ []) q then ok none else result_of (get 2 q two_leaves)))
delete_refines_map_example = delete_refines_map 2 (2 ∷ []) two_leaves low low-IsAt low-KeepsEnough

-- A tree of one leaf, which a third entry fills.
abbrev only : LeafNode
only = record low { next = none; parent = none }

abbrev one_leaf : BPlusTree
one_leaf = record {
  config = record { max_keys = 3; min_keys = 1 };
  root_id = 0;
  nodes = λ id. if id == 0 then some (leaf only) else none;
  next_node_id = 1;
  leftmost_leaf = some 0;
}

insert_grows_example :
    (t' : BPlusTree) × (Insert.insert 1 (3 ∷ []) (30 ∷ []) one_leaf ≡ (ok tt, t'))
    × (t'.next_node_id ≡ 1 + 2)
    × ((q : Bytes)
        → (get 2 q t').0 ≡ ok (if same (3 ∷ []) q then some (30 ∷ []) else lookup q only.entries))
unfolding upsert cmp
insert_grows_example =
    insert_grows 0 (3 ∷ []) (30 ∷ []) one_leaf only refl refl refl (omega arith) low-IsSorted
      (omega arith)

-- The tree of two leaves, where three entries fill a node.
abbrev tight : BPlusTree
tight = record two_leaves { config = record { max_keys = 3; min_keys = 1 } }

only_top : (c : ℕ) (m : InternalNode) → nodes c ≡ some (internal m) → (c ≡ 2) × (m ≡ top)
only_top c m h = ground (arith, ==_iff c 0, ==_iff c 1, ==_iff c 2)

children_of_top : (q : Bytes) (d : ℕ) → Node.get_child_for_key (internal top) q ≡ some d → d < 2
unfolding Node.get_child_for_key find_child_index binary_search_by
children_of_top q d h = ground arith

low-IsUnder : IsUnder nodes 2 0 3
low-IsUnder = record {
  elsewhere = λ c m q d h n k. absurd (n (only_top c m h).0);
  nowhere = λ c m q d h k e.
      let small =
        children_of_top q d
          (subst (λ x. Node.get_child_for_key (internal x) q ≡ some d) (only_top c m h).1 k) in
      absurd (omega arith);
}

low-spot : (i : ℕ) → get_elem? top.children i ≡ some 0 → i ≡ rank (3 ∷ []) top.keys
unfolding rank cmp
low-spot zero h = refl
low-spot (suc zero) h = ground arith
low-spot (suc (suc i)) h = cc

tight-IsAt : IsAt 2 (3 ∷ []) tight low
unfolding find_leaf get_node Node.is_leaf Node.get_child_for_key find_child_index binary_search_by
    cmp
tight-IsAt = record { found = refl; stored = refl; sorted = low-IsSorted }

low-IsChild : IsChild (3 ∷ []) tight low top
unfolding rank cmp
low-IsChild = record {
  parent = refl;
  stored = refl;
  ascending = top-IsAscending;
  sized = refl;
  under = low-IsUnder;
  unused = refl;
  not_root = omega arith;
  root_given = omega arith;
  here = refl;
  spot = low-spot;
  range = (refl, (refl, tt));
}

insert_absorbed_example :
    (t' : BPlusTree) × (Insert.insert 2 (3 ∷ []) (30 ∷ []) tight ≡ (ok tt, t'))
    × (t'.root_id ≡ 2)
    × ((q : Bytes)
        → result_of (get 2 q t')
          ≡ (if same (3 ∷ []) q then ok (some (30 ∷ [])) else result_of (get 2 q tight)))
unfolding upsert cmp
insert_absorbed_example =
    insert_absorbed 1 (3 ∷ []) (30 ∷ []) tight low top tight-IsAt low-IsChild (omega arith)
      (omega arith) (omega arith)
