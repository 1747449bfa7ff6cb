-- ===== src/BTree/Tree/Halves.antt =====
-- The halves of a leaf that has been split, and what is read through them.
use nanograph.Prelude.{
  ℕ, zero, suc, ◌≡◌, ◌≢◌, refl, sym, ap, subst, ◌∙◌, Option, none, some, List, [], ◌∷◌, Result, ok,
  err, true, arith, ◌==◌, ==_iff, if◌then◌else◌, inl, inr, Bool-cases,
}
use nanograph.Bytes.{Bytes, same, before, cmp, ◌≺◌, cmp_refl, eq_of_cmp, lt_trans}
use Prim.Native.Nat.Ordering.{eq}
use nanograph.BTree.Entries.{Entry, IsSorted, lookup, upsert, lookup-upsert}
use nanograph.BTree.Leaf.{LeafNode, NodeId}
use nanograph.BTree.Leaf.Refine.{get-lookup}
use nanograph.BTree.Leaf.Split.{IsLeafSplit}
use nanograph.BTree.Internal.{InternalNode}
use nanograph.BTree.Internal.Routing.{IsFresh, rank, rank_mono_lt}
use nanograph.BTree.Node
use nanograph.BTree.Node.{BPlusTreeNode, internal, leaf}
use nanograph.BTree.Tree.{Fault}
use nanograph.BTree.Tree.Lookup.{descend, visit, follow, read_leaf, read_at}
use nanograph.BTree.Tree.Widen.{redirect, widened}

-- The halves of a leaf that has been split.
abbrev pub low_half : NodeId → LeafNode → List Entry → LeafNode
low_half id n L = record n { entries = L; next = some id }

abbrev pub high_half : NodeId → LeafNode → List Entry → LeafNode
high_half id n R = record {
  id = id;
  entries = R;
  next = n.next;
  prev = some n.id;
  parent = n.parent;
}

-- A key between whose rank and that of a smaller key there is none is new.
pub IsFresh-between :
    (x sep : Bytes) (ks : List Bytes) → x ≺ sep → rank x ks ≡ rank sep ks → IsFresh sep ks
unfolding rank
IsFresh-between x sep [] l h = tt
IsFresh-between x sep (k ∷ ks) l h = (
  λ e.
      let p : sep ≡ k = sym (eq_of_cmp k sep e) in
      let x-k : x ≺ k = subst (λ y. x ≺ y) p l in
      let sep-k : cmp sep k ≡ eq = subst (λ y. cmp sep y ≡ eq) p (cmp_refl sep) in
      ground (arith, rank_mono_lt x sep ks),
  IsFresh-between x sep ks l (ground (arith, rank_mono_lt x sep ks, lt_trans x sep k)),
)

abbrev IsLeafAt : (NodeId → Option BPlusTreeNode) → NodeId → Type 0
IsLeafAt ns d = (k : LeafNode) × (ns d ≡ some (leaf k))

at_child :
    (f : ℕ) (ns : NodeId → Option BPlusTreeNode) (q : Bytes) (d : NodeId) (o : Option NodeId)
    → follow o (λ e. descend f ns e q) ≡ ok d
    → ((e : NodeId) → descend f ns e q ≡ ok d → IsLeafAt ns d)
    → IsLeafAt ns d
at_child f ns q d none h ih = cc
at_child f ns q d (some e) h ih = ih e h

at_node :
    (f : ℕ) (ns : NodeId → Option BPlusTreeNode) (c : NodeId) (q : Bytes) (d : NodeId)
    (o : Option BPlusTreeNode)
    → ns c ≡ o
    → visit o c q (λ e. descend f ns e q) ≡ ok d
    → ((e : NodeId) → descend f ns e q ≡ ok d → IsLeafAt ns d)
    → IsLeafAt ns d
at_node f ns c q d none p h ih = cc
at_node f ns c q d (some (leaf k)) p h ih = (k, cc)
at_node f ns c q d (some (internal m)) p h ih =
    at_child f ns q d (Node.get_child_for_key (internal m) q) h ih

-- A search ends at a leaf.
pub descend-leaf :
    (f : ℕ) (ns : NodeId → Option BPlusTreeNode) (c : NodeId) (q : Bytes) (d : NodeId)
    → descend f ns c q ≡ ok d
    → IsLeafAt ns d
unfolding descend
descend-leaf zero ns c q d h = cc
descend-leaf (suc f) ns c q d h = at_node f ns c q d (ns c) refl h (λ e. descend-leaf f ns e q d)

module _ (ns : NodeId → Option BPlusTreeNode) (n : LeafNode) (id : NodeId) (sep key value q : Bytes)
    (R L : List Entry) (P' : InternalNode) (stored : ns n.id ≡ some (leaf n))
    (sorted : IsSorted n.entries)
    (is : IsLeafSplit
      (record n { entries = upsert key value n.entries })
      sep
      (record n { entries = R; prev = none })
      (record n { entries = L }))
    (n-id : n.id ≢ id) (n-P : n.id ≢ P'.id) (id-P : id ≢ P'.id) where
  abbrev pair : NodeId → Option BPlusTreeNode
  pair = widened ns (low_half id n L) (high_half id n R) P'

  at_low : pair n.id ≡ some (leaf (low_half id n L))
  at_low = ground (arith, ==_iff P'.id n.id, ==_iff id n.id, ==_iff n.id n.id)

  at_high : pair id ≡ some (leaf (high_half id n R))
  at_high = ground (arith, ==_iff P'.id id, ==_iff id id)

  read_pair :
      read_leaf pair q (if before q sep then ok n.id else ok id)
      ≡ ok (if before q sep then lookup q L else lookup q R)
  unfolding Node.get
  read_pair = elim (Bool-cases (before q sep)) [
    | inl is_low ↦ rw is_low (rw (at_low, get-lookup (low_half id n L) q is.left_sorted) refl)
    | inr is_high ↦ rw is_high (rw (at_high, get-lookup (high_half id n R) q is.right_sorted) refl)
  ]

  read_before : read_leaf ns q (ok n.id) ≡ ok (lookup q n.entries)
  unfolding Node.get
  read_before = rw (read_leaf, read_at, stored) (rw (get-lookup n q sorted) refl)

  -- What a key reads after the split, from where its search ended before.
  pub reads_absorbed :
      (r : Result NodeId Fault)
      → ((d : NodeId) → r ≡ ok d → (d ≢ id) × (d ≢ P'.id))
      → (same key q ≡ true → r ≡ ok n.id)
      → read_leaf pair q (redirect n.id id sep q r)
        ≡ (if same key q then ok (some value) else read_leaf ns q r)
  reads_absorbed (err e) w h = ground (arith, h)
  reads_absorbed (ok d) w h = elim (Bool-cases (d == n.id)) [
    | inl equal ↦
        let e : d ≡ n.id = (==_iff d n.id).0 equal in
        let value_eq = sym (is.reads q) ∙ lookup-upsert key value q n.entries in
        rw (equal, e, read_before) (read_pair ∙ ap ok value_eq ∙ ground arith)
    | inr other ↦
        let kept : pair d ≡ ns d =
          ground (arith, w d refl, ==_iff P'.id d, ==_iff id d, ==_iff n.id d, ==_iff d n.id) in
        rw (other, kept) (ground (arith, h, ==_iff d n.id))
  ]
