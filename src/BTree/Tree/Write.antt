-- ===== src/BTree/Tree/Write.antt =====
-- What a reader of the tree sees after an insertion or a deletion that leaves the shape of the tree
-- as it is: no leaf is split, and none is rebalanced.
use nanograph.Prelude.{
  ℕ, ◌<◌, ◌≡◌, refl, sym, ap, subst, ◌∙◌, Option, none, some, List, Result, ok, err, Bool, true,
  false, arith, length, leb, ltb, ◌==◌, ◌&&◌, if◌then◌else◌, inl, inr, Bool-cases, ==_iff,
}
use nanograph.Bytes.{Bytes, same, cmp_refl, eq_of_cmp}
use nanograph.BTree.Entries.{
  Entry, IsSorted, lookup, upsert, erase, upsert-IsSorted, erase-IsSorted, lookup-upsert,
  lookup-erase,
}
use nanograph.BTree.Leaf.{LeafNode, NodeId}
use nanograph.BTree.Leaf.Refine.{insert-upsert, remove-erase, get-lookup}
use nanograph.BTree.Node
use nanograph.BTree.Node.{BPlusTreeNode, internal, leaf}
use nanograph.BTree.Tree.{
  BPlusTree, ◌>>=◌, continue, Fault, update, find_leaf, get, update_node, or_fail, pure,
}
use nanograph.BTree.Tree.Lookup.{
  descend, find_leaf-descend, get-descend, descend-with_leaf, read_leaf, read_at,
}
use nanograph.BTree.Tree.Insert.{insert}
use nanograph.BTree.Tree.Delete.{delete}

-- The tree with a leaf in place of what stands at its identifier.
abbrev with_leaf : BPlusTree → LeafNode → BPlusTree
with_leaf t n = record t { nodes = update t.nodes n.id (some (leaf n)) }

abbrev pub result_of {ℓ κ} : {A : Type ℓ} {B : Type κ} → A × B → A
result_of p = p.0

-- The search for `key` ends at the leaf `n`, which is stored under its identifier and sorted.
pub record IsAt (fuel : ℕ) (key : Bytes) (t : BPlusTree) (n : LeafNode) : Type 0 where
  pub found : result_of (find_leaf fuel t.root_id key t) ≡ ok n.id
  pub stored : t.nodes n.id ≡ some (leaf n)
  pub sorted : IsSorted n.entries

eq_of_same : (a b : Bytes) → same a b ≡ true → a ≡ b
eq_of_same a b h = ground (arith, eq_of_cmp a b)

module _ (fuel : ℕ) (key : Bytes) (t : BPlusTree) (n : LeafNode) (es : List Entry)
    (at : IsAt fuel key t n) where
  abbrev n' : LeafNode
  n' = record n { entries = es }

  pub descends : (q : Bytes) → same key q ≡ true → descend fuel t.nodes t.root_id q ≡ ok n.id
  descends q h =
      subst (λ k. descend fuel t.nodes t.root_id k ≡ ok n.id) (eq_of_same key q h)
        (ap result_of (sym (find_leaf-descend fuel t.root_id key t)) ∙ at.found)

  -- What is read at the place where a search ends.
  read_there :
      (q : Bytes) (v : Result (Option Bytes) Fault) (r : Result NodeId Fault)
      → (same key q ≡ true → r ≡ ok n.id)
      → read_at (some (leaf n')) q ≡ (if same key q then v else read_at (some (leaf n)) q)
      → read_leaf (with_leaf t n').nodes q r ≡ (if same key q then v else read_leaf t.nodes q r)
  read_there q v (err e) d h = ground (arith, d)
  read_there q v (ok l) d h = elim (Bool-cases (n.id == l)) [
    | inl here ↦
        let e : t.nodes l ≡ some (leaf n) =
          subst (λ x. t.nodes x ≡ some (leaf n)) ((==_iff n.id l).0 here) at.stored in
        rw (here, e) h
    | inr elsewhere ↦ rw elsewhere (ground (arith, d))
  ]

  -- Replacing the leaf's entries changes what is read through it, and nothing else.
  read-with_leaf :
      (q : Bytes) (v : Result (Option Bytes) Fault)
      → read_at (some (leaf n')) q ≡ (if same key q then v else read_at (some (leaf n)) q)
      → result_of (get fuel q (with_leaf t n'))
        ≡ (if same key q then v else result_of (get fuel q t))
  read-with_leaf q v h =
      rw (get-descend, get-descend, descend-with_leaf fuel t.root_id q t.nodes n n' n.id at.stored)
        (read_there q v (descend fuel t.nodes t.root_id q) (descends q) h)

pub searched :
    (fuel : ℕ) (key : Bytes) (t : BPlusTree) (n : LeafNode)
    → IsAt fuel key t n
    → find_leaf fuel t.root_id key t ≡ (ok n.id, t)
searched fuel key t n at =
    find_leaf-descend fuel t.root_id key t
    ∙ ap (λ r. (r, t)) (ap result_of (sym (find_leaf-descend fuel t.root_id key t)) ∙ at.found)

read_at-lookup :
    (n : LeafNode) (q : Bytes)
    → IsSorted n.entries
    → read_at (some (leaf n)) q ≡ ok (lookup q n.entries)
unfolding Node.get
read_at-lookup n q s = rw (get-lookup n q s)

insert-eq :
    (fuel : ℕ) (key value : Bytes) (t : BPlusTree) (n : LeafNode)
    → IsAt fuel key t n
    → length (upsert key value n.entries) < t.config.max_keys
    → insert fuel key value t
      ≡ (ok tt, with_leaf t (record n { entries = upsert key value n.entries }))
unfolding insert update_node Node.node_id
insert-eq fuel key value t n at room =
    rw (searched fuel key t n at, ◌>>=◌)
      (rw (at.stored, ◌>>=◌)
        (rw (insert-upsert n key at.sorted value, continue, or_fail, pure, Node.is_full, not_full)
          refl))
  where
    not_full : leb t.config.max_keys (length (upsert key value n.entries)) ≡ false
    not_full = ground arith

-- Where the search for a key ends at a sorted leaf that the new entry does not fill, `insert` succeeds and
-- keeps the root and the identifiers given out; every read gives afterwards what it gave before, but
-- for the key, which reads as the new value.
pub insert_refines_map :
    (fuel : ℕ) (key value : Bytes) (t : BPlusTree) (n : LeafNode)
    → IsAt fuel key t n
    → length (upsert key value n.entries) < t.config.max_keys
    → (t' : BPlusTree) × (insert fuel key value t ≡ (ok tt, t'))
      × (t'.root_id ≡ t.root_id)
      × (t'.next_node_id ≡ t.next_node_id)
      × ((q : Bytes)
          → result_of (get fuel q t')
            ≡ (if same key q then ok (some value) else result_of (get fuel q t)))
insert_refines_map fuel key value t n at room =
    let es = upsert key value n.entries in
    (
      with_leaf t (record n { entries = es }),
      insert-eq fuel key value t n at room,
      refl,
      refl,
      λ q. read-with_leaf fuel key t n es at q (ok (some value)) (written q),
    )
  where
    written :
        (q : Bytes)
        → read_at (some (leaf (record n { entries = upsert key value n.entries }))) q
          ≡ (if same key q then ok (some value) else read_at (some (leaf n)) q)
    written q =
        rw
          (
            read_at-lookup (record n { entries = upsert key value n.entries }) q
                (upsert-IsSorted key value n.entries at.sorted),
            read_at-lookup n q at.sorted,
          )
          (ground (arith, lookup-upsert key value q n.entries))

abbrev has_parent : Option NodeId → Bool
has_parent none = false
has_parent (some p) = true

-- What `delete` answers when the key read as `old`.
abbrev pub was_there : Option Bytes → Bool
was_there none = false
was_there (some v) = true

-- The leaf keeps enough entries without the key, or is the root.
abbrev pub KeepsEnough : Bytes → BPlusTree → LeafNode → Type 0
KeepsEnough key t n =
    (ltb (length (erase key n.entries)) t.config.min_keys && has_parent n.parent) ≡ false

-- The tree after the deletion of a key that read as `old`.
abbrev without : Bytes → BPlusTree → LeafNode → Option Bytes → BPlusTree
without key t n none = t
without key t n (some v) = with_leaf t (record n { entries = erase key n.entries })

delete-eq :
    (fuel : ℕ) (key : Bytes) (t : BPlusTree) (n : LeafNode) (old : Option Bytes)
    → IsAt fuel key t n
    → KeepsEnough key t n
    → lookup key n.entries ≡ old
    → delete fuel key t ≡ (ok (was_there old), without key t n old)
unfolding delete update_node Node.node_id
delete-eq fuel key t n none at enough h =
    rw (searched fuel key t n at, ◌>>=◌)
      (rw (at.stored, ◌>>=◌) (rw (remove-erase n key at.sorted, h, continue, or_fail, pure) refl))
delete-eq fuel key t n (some v) at enough h =
    rw (searched fuel key t n at, ◌>>=◌)
      (rw (at.stored, ◌>>=◌)
        (rw
          (
            remove-erase n key at.sorted,
            h,
            continue,
            or_fail,
            pure,
            Node.key_count,
            Node.parent_of,
            enough,
          )
          refl))

-- What is read under the key itself.
read_here :
    (fuel : ℕ) (key q : Bytes) (t : BPlusTree) (n : LeafNode)
    → IsAt fuel key t n
    → same key q ≡ true
    → result_of (get fuel q t) ≡ ok (lookup key n.entries)
read_here fuel key q t n at h =
    rw
      (
        get-descend,
        descends fuel key t n n.entries at q h,
        at.stored,
        read_at-lookup n q at.sorted,
        eq_of_same key q h,
      )
      refl

reads_without :
    (fuel : ℕ) (key : Bytes) (t : BPlusTree) (n : LeafNode) (old : Option Bytes)
    → IsAt fuel key t n
    → lookup key n.entries ≡ old
    → (q : Bytes)
    → result_of (get fuel q (without key t n old))
      ≡ (if same key q then ok none else result_of (get fuel q t))
reads_without fuel key t n none at h q = elim (Bool-cases (same key q)) [
  | inl equal ↦ rw equal (read_here fuel key q t n at equal ∙ ap ok h)
  | inr other ↦ rw other refl
]
reads_without fuel key t n (some v) at h q =
    read-with_leaf fuel key t n (erase key n.entries) at q (ok none) (
      rw
        (
          read_at-lookup (record n { entries = erase key n.entries }) q
              (erase-IsSorted key n.entries at.sorted),
          read_at-lookup n q at.sorted,
        )
        (ground (arith, lookup-erase key q n.entries at.sorted)))

-- Where the search for a key ends at a sorted leaf that need not be rebalanced without the key, `delete`
-- succeeds and answers whether the key was there; every read gives afterwards what it gave before,
-- but for the key, which is gone.
pub delete_refines_map :
    (fuel : ℕ) (key : Bytes) (t : BPlusTree) (n : LeafNode)
    → IsAt fuel key t n
    → KeepsEnough key t n
    → (t' : BPlusTree) × (delete fuel key t ≡ (ok (was_there (lookup key n.entries)), t'))
      × (result_of (get fuel key t) ≡ ok (lookup key n.entries))
      × ((q : Bytes)
          → result_of (get fuel q t') ≡ (if same key q then ok none else result_of (get fuel q t)))
delete_refines_map fuel key t n at enough =
    let old = lookup key n.entries in
    (
      without key t n old,
      delete-eq fuel key t n old at enough refl,
      read_here fuel key key t n at (ground (arith, cmp_refl key)),
      reads_without fuel key t n old at refl,
    )
