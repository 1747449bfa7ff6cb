-- ===== src/BTree/Tree/Grow.antt =====
-- The insertion that fills a root which is a leaf: the leaf is split, and the tree grows by a level.
use nanograph.Prelude.{
  ℕ, suc, ◌+◌, ◌<◌, ◌≤◌, ◌≡◌, refl, sym, ap, ◌∙◌, Option, none, some, List, [], ◌∷◌, Result, ok,
  true, false, arith, length, leb, ◌==◌, ==_iff, inl, inr, Bool-cases, if◌then◌else◌,
}
use nanograph.Bytes.{Bytes, same, before, cmp_refl, eq_of_cmp, lt_of_gt, gt_of_lt}
use nanograph.BTree.Entries.{Entry, IsSorted, lookup, upsert, upsert-IsSorted, lookup-upsert}
use nanograph.BTree.Search.{binary_search_by}
use nanograph.BTree.Leaf
use nanograph.BTree.Leaf.{LeafNode, NodeId}
use nanograph.BTree.Leaf.Refine.{insert-upsert, get-lookup}
use nanograph.BTree.Leaf.Split.{split-parts}
use nanograph.BTree.Internal
use nanograph.BTree.Internal.{InternalNode}
use nanograph.BTree.Node
use nanograph.BTree.Node.{BPlusTreeNode, Halves, internal, leaf}
use nanograph.BTree.Tree.{
  BPlusTree, M, ◌>>=◌, ◌>>◌, continue, Fault, update, get, get_node, update_node, or_fail, pure,
  allocate_node_id, set_root_id,
}
use nanograph.BTree.Tree.Lookup.{
  descend, visit, follow, find_leaf-descend, get-descend, read_leaf, read_at,
}
use nanograph.BTree.Tree.Insert.{insert, split_leaf, create_new_root, insert_separator, reparent}

-- The nodes after two leaves have been put under a new root.
abbrev under_root :
    (NodeId → Option BPlusTreeNode)
    → NodeId
    → Bytes
    → LeafNode
    → LeafNode
    → NodeId
    → Option BPlusTreeNode
under_root ns id sep l r =
    let top : InternalNode = record {
      id = id;
      keys = sep ∷ [];
      children = l.id ∷ r.id ∷ [];
      parent = none;
    } in
    update
      (update (update ns l.id (some (leaf (record l { parent = some id })))) r.id
        (some (leaf (record r { parent = some id }))))
      id (some (internal top))

-- The halves of the root `n`, and the nodes with them.
abbrev low_half : BPlusTree → LeafNode → List Entry → LeafNode
low_half t n L = record n { entries = L; next = some t.next_node_id }

abbrev high_half : BPlusTree → LeafNode → List Entry → LeafNode
high_half t n R = record {
  id = t.next_node_id;
  entries = R;
  next = n.next;
  prev = some n.id;
  parent = none;
}

abbrev halved : BPlusTree → LeafNode → List Entry → List Entry → NodeId → Option BPlusTreeNode
halved t n R L =
    update (update t.nodes n.id (some (leaf (low_half t n L)))) t.next_node_id
      (some (leaf (high_half t n R)))

-- The tree after the split of the root, given the separator and the entries of the halves.
abbrev grown : BPlusTree → LeafNode → Bytes → List Entry → List Entry → BPlusTree
grown t n sep R L = record t {
  root_id = t.next_node_id + 1;
  next_node_id = t.next_node_id + 1 + 1;
  nodes = under_root (halved t n R L) (t.next_node_id + 1) sep (low_half t n L) (high_half t n R);
}

then_eq :
    {B : Type 0} (m : M Unit) (k : M B) (t t' : BPlusTree) → m t ≡ (ok tt, t') → (m >> k) t ≡ k t'
then_eq m k t t' h = rw h refl

-- Giving a leaf that is stored under its identifier a new parent.
reparent_leaf :
    (p id : NodeId) (t : BPlusTree) (n : LeafNode)
    → t.nodes id ≡ some (leaf n)
    → n.id ≡ id
    → reparent p id t
      ≡ (ok tt, record t { nodes = update t.nodes id (some (leaf (record n { parent = some p }))) })
unfolding reparent get_node update_node Node.set_parent Node.node_id
reparent_leaf p id t n h e = rw (h, ◌>>=◌) (rw e refl)

new_root-eq :
    (t : BPlusTree) (l r : LeafNode) (sep : Bytes)
    → t.nodes l.id ≡ some (leaf l)
    → t.nodes r.id ≡ some (leaf r)
    → l.id < r.id
    → create_new_root l.id sep r.id t ≡ (
      ok tt,
      record t {
        next_node_id = t.next_node_id + 1;
        root_id = t.next_node_id;
        nodes = under_root t.nodes t.next_node_id sep l r;
      },
    )
unfolding create_new_root allocate_node_id update_node set_root_id Node.node_id
    Node.insert_internal_entry Internal.insert_key_child Internal.new binary_search_by
new_root-eq t l r sep at_l at_r lt =
    let id : NodeId = t.next_node_id in
    let t₁ : BPlusTree = record t { next_node_id = id + 1 } in
    let t₂ : BPlusTree = record t₁ {
      nodes = update t.nodes l.id (some (leaf (record l { parent = some id })));
    } in
    let other : (l.id == r.id) ≡ false = ground arith in
    let still : t₂.nodes r.id ≡ some (leaf r) = rw other at_r in
    then_eq (reparent id l.id)
      (λ t.
        (reparent id r.id
            >> (update_node (
                  internal (record {
                    id = id;
                    keys = sep ∷ [];
                    children = l.id ∷ r.id ∷ [];
                    parent = none;
                  }))
                >> set_root_id id))
          t)
      t₁ t₂ (reparent_leaf id l.id t₁ l at_l refl)
    ∙ rw (reparent_leaf id r.id t₂ r still refl) refl

split_root :
    (fuel : ℕ) (t : BPlusTree) (n : LeafNode) (sep : Bytes) (R L : List Entry)
    → n.parent ≡ none
    → n.id < t.next_node_id
    → Leaf.split n ≡ some (sep, record n { entries = R; prev = none }, record n { entries = L })
    → split_leaf fuel (leaf n) t ≡ (ok tt, grown t n sep R L)
unfolding split_leaf allocate_node_id Node.split_leaf update_node insert_separator Node.node_id
    Node.parent_of
split_root fuel t n sep R L h l e =
    let id : NodeId = t.next_node_id in
    let low : LeafNode = record n { entries = L; next = some id; parent = none } in
    let high : LeafNode = record {
      id = id;
      entries = R;
      next = n.next;
      prev = some n.id;
      parent = none;
    } in
    let ns = update (update t.nodes n.id (some (leaf low))) id (some (leaf high)) in
    let other : (id == n.id) ≡ false = ground arith in
    let here : (n.id == n.id) ≡ true = (==_iff n.id n.id).1 refl in
    let there : (id == id) ≡ true = (==_iff id id).1 refl in
    rw (e, h)
      (new_root-eq (record t { next_node_id = id + 1; nodes = ns }) low high sep
        (rw (other, here) refl) (rw there refl) l)

child_of :
    (top : InternalNode) (q sep : Bytes) (l r : NodeId)
    → top.keys ≡ sep ∷ []
    → top.children ≡ l ∷ r ∷ []
    → Node.get_child_for_key (internal top) q ≡ some (if before q sep then l else r)
unfolding Node.get_child_for_key Internal.find_child_index binary_search_by
child_of top q sep l r h k =
    rw (h, k) (ground (arith, gt_of_lt sep q, lt_of_gt sep q, eq_of_cmp sep q, cmp_refl q))

-- What is read through a child that is a sorted leaf.
read_child :
    (ns : NodeId → Option BPlusTreeNode) (c : NodeId) (q : Bytes) (n : LeafNode)
    (k : NodeId → Result NodeId Fault)
    → ns c ≡ some (leaf n)
    → IsSorted n.entries
    → read_leaf ns q (visit (ns c) c q k) ≡ ok (lookup q n.entries)
unfolding Node.get
read_child ns c q n k h s = rw (h, visit, read_leaf, read_at) (rw (h, get-lookup n q s) refl)

-- What is read in a tree whose root has two leaves for children.
get-under_root :
    (t : BPlusTree) (q sep : Bytes) (ns : NodeId → Option BPlusTreeNode) (l r : LeafNode)
    → t.nodes ≡ under_root ns t.root_id sep l r
    → l.id < r.id
    → r.id < t.root_id
    → IsSorted l.entries
    → IsSorted r.entries
    → (get 2 q t).0 ≡ ok (if before q sep then lookup q l.entries else lookup q r.entries)
unfolding descend Node.get
get-under_root t q sep ns l r e a b sl sr =
    let id : NodeId = t.root_id in
    let top : InternalNode = record {
      id = id;
      keys = sep ∷ [];
      children = l.id ∷ r.id ∷ [];
      parent = none;
    } in
    let low : LeafNode = record l { parent = some id } in
    let high : LeafNode = record r { parent = some id } in
    let nodes = under_root ns id sep l r in
    let at_top : under_root ns id sep l r id ≡ some (internal top) = ground (arith, ==_iff id id) in
    let at_low : under_root ns id sep l r l.id ≡ some (leaf low) =
      ground (arith, ==_iff l.id l.id) in
    let at_high : under_root ns id sep l r r.id ≡ some (leaf high) =
      ground (arith, ==_iff r.id r.id) in
    rw (get-descend 2 q t, e, at_top, visit, child_of top q sep l.id r.id refl refl, follow)
      (elim (Bool-cases (before q sep)) [
        | inl is_low ↦ rw is_low (read_child nodes l.id q low _ at_low sl)
        | inr is_high ↦ rw is_high (read_child nodes r.id q high _ at_high sr)
      ])

upsert_nonempty : (key value : Bytes) (es : List Entry) → 0 < length (upsert key value es)
unfolding upsert
upsert_nonempty key value [] = omega arith
upsert_nonempty key value ((k, v) ∷ es) = ground arith

-- Where the root is a sorted leaf without a parent, stored under an identifier that has been given
-- out, and the new entry fills it: `insert` succeeds, gives out two identifiers, and every read of a
-- tree of two levels gives afterwards the value written under the key, and what the root held under
-- any other key.
pub insert_grows :
    (fuel : ℕ) (key value : Bytes) (t : BPlusTree) (n : LeafNode)
    → t.nodes t.root_id ≡ some (leaf n)
    → n.id ≡ t.root_id
    → n.parent ≡ none
    → n.id < t.next_node_id
    → IsSorted n.entries
    → t.config.max_keys ≤ length (upsert key value n.entries)
    → (t' : BPlusTree) × (insert (suc fuel) key value t ≡ (ok tt, t'))
      × (t'.next_node_id ≡ t.next_node_id + 2)
      × ((q : Bytes) → (get 2 q t').0 ≡ ok (if same key q then some value else lookup q n.entries))
unfolding insert descend get_node Node.insert_entry Node.is_full
insert_grows fuel key value t n stored root orphan fresh sorted full =
    let es = upsert key value n.entries in
    let es-IsSorted : IsSorted es = upsert-IsSorted key value n.entries sorted in
    let n' : LeafNode = record n { entries = es } in
    let (sep, R, L, e, is) = split-parts n' es-IsSorted (upsert_nonempty key value n.entries) in
    let is_full : leb t.config.max_keys (length es) ≡ true = ground arith in
    (
      grown t n' sep R L,
      rw (find_leaf-descend (suc fuel) t.root_id key t, stored, ◌>>=◌)
          (rw (stored, ◌>>=◌)
            (rw (insert-upsert n key sorted value, continue, or_fail, pure, Node.is_full, is_full)
              (split_root (suc fuel) t n' sep R L orphan fresh e))),
      ground arith,
      λ q.
          get-under_root (grown t n' sep R L) q sep (halved t n' R L) (low_half t n' L)
            (high_half t n' R) refl fresh (omega arith) is.left_sorted is.right_sorted
          ∙ ap ok (sym (is.reads q) ∙ lookup-upsert key value q n.entries),
    )
