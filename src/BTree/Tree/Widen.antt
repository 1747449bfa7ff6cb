-- ===== src/BTree/Tree/Widen.antt =====
-- Searches after a leaf has been split in two under a parent that has room for one child more.
use nanograph.Prelude.{
  ℕ, zero, suc, ◌≡◌, ◌≢◌, refl, ap, ◌∙◌, Option, none, some, Result, ok, err, not, ◌&&◌, arith,
  ◌==◌, ==_iff, if◌then◌else◌, inl, inr, Bool-cases,
}
use mathlib.Core.Option.{some-injective}
use nanograph.Bytes.{Bytes, before}
use nanograph.BTree.Leaf.{LeafNode, NodeId}
use nanograph.BTree.Internal.{InternalNode, find_child_index}
use nanograph.BTree.Node
use nanograph.BTree.Node.{BPlusTreeNode, internal, leaf}
use nanograph.BTree.Tree.{Fault, update}
use nanograph.BTree.Tree.Lookup.{descend, visit, follow}

-- Where a search that ended at the leaf `l` ends after its keys from `sep` on have moved to `new`.
abbrev pub redirect : NodeId → NodeId → Bytes → Bytes → Result NodeId Fault → Result NodeId Fault
redirect l new sep q (err e) = err e
redirect l new sep q (ok d) = if d == l then (if before q sep then ok l else ok new) else ok d

-- Among the nodes, the parent alone leads to the leaf `l`, and none leads to `new`.
pub record IsUnder (ns : NodeId → Option BPlusTreeNode) (p l new : NodeId) : Type 0 where
  pub elsewhere :
      (c : NodeId) (m : InternalNode) (q : Bytes) (d : NodeId)
      → ns c ≡ some (internal m)
      → c ≢ p
      → Node.get_child_for_key (internal m) q ≡ some d
      → d ≢ l
  pub nowhere :
      (c : NodeId) (m : InternalNode) (q : Bytes) (d : NodeId)
      → ns c ≡ some (internal m)
      → Node.get_child_for_key (internal m) q ≡ some d
      → d ≢ new

-- The nodes after the split.
abbrev pub widened :
    (NodeId → Option BPlusTreeNode)
    → LeafNode
    → LeafNode
    → InternalNode
    → NodeId
    → Option BPlusTreeNode
widened ns low high P' =
    update (update (update ns low.id (some (leaf low))) high.id (some (leaf high))) P'.id
      (some (internal P'))

module _ (ns : NodeId → Option BPlusTreeNode) (n low high : LeafNode) (P P' : InternalNode)
    (sep : Bytes) (under : IsUnder ns P.id low.id high.id) (at_l : ns low.id ≡ some (leaf n))
    (at_p : ns P.id ≡ some (internal P)) (same_id : P'.id ≡ P.id) (l-new : low.id ≢ high.id)
    (new-p : high.id ≢ P.id)
    (routes : (q : Bytes)
      → Node.get_child_for_key (internal P') q ≡ (
          if not (before q sep) && (find_child_index P q == find_child_index P sep)
          then some high.id
          else Node.get_child_for_key (internal P) q))
    (spot : (q : Bytes)
      → (Node.get_child_for_key (internal P) q ≡ some low.id)
      → (find_child_index P q ≡ find_child_index P sep))
    (here : (q : Bytes)
      → find_child_index P q ≡ find_child_index P sep
      → Node.get_child_for_key (internal P) q ≡ some low.id) where
  abbrev after : NodeId → Option BPlusTreeNode
  after = widened ns low high P'

  low-p : low.id ≢ P.id
  low-p e = cc

  after-p : after P.id ≡ some (internal P')
  after-p = ground (arith, ==_iff P'.id P.id)

  after-high : after high.id ≡ some (leaf high)
  after-high = ground (arith, ==_iff P'.id high.id, ==_iff high.id high.id)

  after-low : after low.id ≡ some (leaf low)
  after-low =
      ground (arith, ==_iff P'.id low.id, ==_iff high.id low.id, ==_iff low.id low.id, low-p)

  after-other : (c : NodeId) → c ≢ P.id → c ≢ low.id → c ≢ high.id → after c ≡ ns c
  after-other c x y z = ground (arith, ==_iff P'.id c, ==_iff high.id c, ==_iff low.id c)

  -- One leaf further on.
  end_at :
      (f : ℕ) (c : NodeId) (q : Bytes) (m : NodeId → Option BPlusTreeNode) (k : LeafNode)
      → m c ≡ some (leaf k)
      → descend (suc f) m c q ≡ ok c
  unfolding descend
  end_at f c q m k h = rw h refl

  to_leaf :
      (f : ℕ) (q : Bytes)
      → descend f after (if before q sep then low.id else high.id) q
        ≡ redirect low.id high.id sep q (descend f ns low.id q)
  unfolding descend
  to_leaf zero q = refl
  to_leaf (suc f) q = rw at_l (elim (Bool-cases (before q sep)) [
    | inl is_low ↦ rw is_low (rw after-low (ground (arith, ==_iff low.id low.id)))
    | inr is_high ↦ rw is_high (rw after-high (ground (arith, ==_iff low.id low.id)))
  ])

  child_moved :
      (q : Bytes)
      → Node.get_child_for_key (internal P) q ≡ some low.id
      → Node.get_child_for_key (internal P') q ≡ some (if before q sep then low.id else high.id)
  child_moved q h =
      ground (arith, routes q, spot q h, ==_iff (find_child_index P q) (find_child_index P sep))

  child_kept :
      (q : Bytes) (d : Option NodeId)
      → Node.get_child_for_key (internal P) q ≡ d
      → d ≢ some low.id
      → Node.get_child_for_key (internal P') q ≡ d
  child_kept q d h n =
      ground (arith, routes q, here q, ==_iff (find_child_index P q) (find_child_index P sep))

  through :
      (f : ℕ) (q : Bytes) (d : Option NodeId)
      → ((c : NodeId) → d ≡ some c → c ≢ low.id)
      → ((c : NodeId) → d ≡ some c → c ≢ high.id)
      → ((c : NodeId)
          → c ≢ low.id
          → c ≢ high.id
          → descend f after c q ≡ redirect low.id high.id sep q (descend f ns c q))
      → follow d (λ c. descend f after c q)
        ≡ redirect low.id high.id sep q (follow d (λ c. descend f ns c q))
  through f q none x y ih = refl
  through f q (some c) x y ih = ih c (x c refl) (y c refl)

  at_parent :
      (f : ℕ) (q : Bytes) (d : Option NodeId)
      → Node.get_child_for_key (internal P) q ≡ d
      → ((c : NodeId)
          → c ≢ low.id
          → c ≢ high.id
          → descend f after c q ≡ redirect low.id high.id sep q (descend f ns c q))
      → follow (Node.get_child_for_key (internal P') q) (λ c. descend f after c q)
        ≡ redirect low.id high.id sep q (follow d (λ c. descend f ns c q))
  at_parent f q none h ih = rw (child_kept q none h (λ e. cc)) refl
  at_parent f q (some d) h ih = elim (Bool-cases (d == low.id)) [
    | inl equal ↦
        let e : d ≡ low.id = (==_iff d low.id).0 equal in
        rw (child_moved q (h ∙ ap some e), e) (to_leaf f q)
    | inr other ↦
        let n : d ≢ low.id = λ e. ground (arith, ==_iff d low.id) in
        rw (child_kept q (some d) h (λ e. n (some-injective d low.id e)))
          (ih d n (under.nowhere P.id P q d at_p h))
  ]

  elsewhere_kept :
      (f : ℕ) (c : NodeId) (q : Bytes) (o : Option BPlusTreeNode)
      → ns c ≡ o
      → c ≢ P.id
      → c ≢ low.id
      → ((d : NodeId)
          → d ≢ low.id
          → d ≢ high.id
          → descend f after d q ≡ redirect low.id high.id sep q (descend f ns d q))
      → visit o c q (λ d. descend f after d q)
        ≡ redirect low.id high.id sep q (visit o c q (λ d. descend f ns d q))
  elsewhere_kept f c q none h n x ih = refl
  elsewhere_kept f c q (some (leaf k)) h n x ih = ground (arith, ==_iff c low.id)
  elsewhere_kept f c q (some (internal m)) h n x ih =
      through f q (Node.get_child_for_key (internal m) q) (λ d. under.elsewhere c m q d h n)
        (λ d. under.nowhere c m q d h) ih

  -- Every search that did not start at a leaf of the pair ends where it did, but for the keys that
  -- have moved.
  pub descend-widened :
      (f : ℕ) (c : NodeId) (q : Bytes)
      → c ≢ low.id
      → c ≢ high.id
      → descend f after c q ≡ redirect low.id high.id sep q (descend f ns c q)
  unfolding descend
  descend-widened zero c q x y = refl
  descend-widened (suc f) c q x y = elim (Bool-cases (c == P.id)) [
    | inl equal ↦
        let e : c ≡ P.id = (==_iff c P.id).0 equal in
        rw (e, after-p, at_p)
          (at_parent f q (Node.get_child_for_key (internal P) q) refl (λ d. descend-widened f d q))
    | inr other ↦
        let n : c ≢ P.id = λ e. ground (arith, ==_iff c P.id) in
        rw (after-other c n x y) (elsewhere_kept f c q (ns c) refl n x (λ d. descend-widened f d q))
  ]
