-- ===== src/BTree/Tests.antt =====
-- Small nodes, on which the theorems about leaves and internal nodes are applied.
use nanograph.Prelude.{
  suc, ◌≡◌, refl, some, [], ◌∷◌, not, ◌&&◌, ◌==◌, arith, length, get_elem?, if◌then◌else◌, ◌++◌,
}
use nanograph.Bytes.{Bytes, cmp, before}
use nanograph.BTree.Entries.{IsSorted}
use nanograph.BTree.Leaf.Split.{IsSeparated}
use nanograph.BTree.Internal
use nanograph.BTree.Internal.{InternalNode, find_child_index, insert_key_child}
use nanograph.BTree.Internal.Routing.{IsAscending, IsFresh, route-insert_key_child}
use nanograph.BTree.Internal.Split.{IsInternalSplit, split-IsInternalSplit}
use nanograph.BTree.Samples.{high, low, top, top-IsAscending}

nine-IsFresh : IsFresh (9 ∷ []) top.keys
unfolding cmp
nine-IsFresh = (ground arith, tt)

route-insert_key_child_example :
    (after : InternalNode) × (insert_key_child top (9 ∷ []) 3 ≡ some after)
    × (after.id ≡ 2)
    × (length after.keys ≡ 2)
    × IsAscending after.keys
    × (length after.children ≡ suc (length after.keys))
    × ((q : Bytes)
        → get_elem? after.children (find_child_index after q) ≡ (
            if not (before q (9 ∷ [])) && (find_child_index top q == find_child_index top (9 ∷ []))
            then some 3
            else get_elem? top.children (find_child_index top q)))
route-insert_key_child_example =
    route-insert_key_child top (9 ∷ []) 3 top-IsAscending nine-IsFresh refl

split-IsInternalSplit_example :
    (middle : Bytes) × (right : InternalNode) × (left : InternalNode) × (Internal.split top
      ≡ some (middle, right, left))
    × IsInternalSplit top middle right left
split-IsInternalSplit_example = split-IsInternalSplit top top-IsAscending refl (omega arith)

low-high-IsSeparated : IsSeparated (5 ∷ []) low.entries high.entries
unfolding cmp
low-high-IsSeparated = record { low = (refl, (refl, tt)); high = (refl, (refl, tt)) }

high-IsSorted : IsSorted high.entries
unfolding cmp
high-IsSorted = ((refl, tt), (tt, tt))

both-IsSorted : IsSorted (low.entries ++ high.entries)
unfolding cmp
both-IsSorted = ((refl, (refl, (refl, tt))), ((refl, (refl, tt)), ((refl, tt), (tt, tt))))
