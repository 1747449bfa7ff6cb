-- ===== src/BTree/Tree/Lookup.antt =====
-- Reading after a write that leaves the shape of the tree as it is.
use nanograph.Prelude.{
  ℕ, zero, suc, ◌≡◌, refl, ap, subst, fun_ext, Option, none, some, Result, ok, err, ◌==◌, inl, inr,
  Bool-cases, ==_iff,
}
use nanograph.Bytes.{Bytes}
use nanograph.BTree.Leaf.{LeafNode, NodeId}
use nanograph.BTree.Node
use nanograph.BTree.Node.{BPlusTreeNode, internal, leaf}
use nanograph.BTree.Tree.{
  BPlusTree, node_not_found, internal_error, out_of_fuel, panicked, ◌>>=◌, continue, Fault, update,
  find_leaf, get, get_node, or_fail,
}

-- The search of a leaf as a function of the nodes alone.
abbrev pub follow {ℓ} : {A : Type ℓ} → Option NodeId → (NodeId → Result A Fault) → Result A Fault
follow none k = err node_not_found
follow (some c) k = k c

abbrev pub visit :
    Option BPlusTreeNode → NodeId → Bytes → (NodeId → Result NodeId Fault) → Result NodeId Fault
visit none id q k = err internal_error
visit (some (leaf n)) id q k = ok id
visit (some (internal n)) id q k = follow (Node.get_child_for_key (internal n) q) k

unfoldable pub descend : ℕ → (NodeId → Option BPlusTreeNode) → NodeId → Bytes → Result NodeId Fault
descend zero ns id q = err out_of_fuel
descend (suc fuel) ns id q = visit (ns id) id q (λ c. descend fuel ns c q)

find_leaf-visit :
    (fuel : ℕ) (id : NodeId) (q : Bytes) (t : BPlusTree) (o : Option BPlusTreeNode)
    → t.nodes id ≡ o
    → ((c : NodeId) → find_leaf fuel c q t ≡ (descend fuel t.nodes c q, t))
    → find_leaf (suc fuel) id q t ≡ (visit o id q (λ c. descend fuel t.nodes c q), t)
unfolding find_leaf
find_leaf-visit fuel id q t none h ih = rw (h, ◌>>=◌)
find_leaf-visit fuel id q t (some (leaf n)) h ih = rw (h, ◌>>=◌)
find_leaf-visit fuel id q t (some (internal n)) h ih =
    rw (h, ◌>>=◌) (go (Node.get_child_for_key (internal n) q))
  where
    go :
        (o : Option NodeId)
        → (or_fail node_not_found o >>= λ child. find_leaf fuel child q) t
          ≡ (follow o (λ c. descend fuel t.nodes c q), t)
    go none = refl
    go (some c) = ih c

-- A search changes nothing, and finds what `descend` says.
pub find_leaf-descend :
    (fuel : ℕ) (id : NodeId) (q : Bytes) (t : BPlusTree)
    → find_leaf fuel id q t ≡ (descend fuel t.nodes id q, t)
unfolding find_leaf descend
find_leaf-descend zero id q t = refl
find_leaf-descend (suc fuel) id q t =
    find_leaf-visit fuel id q t (t.nodes id) refl (λ c. find_leaf-descend fuel c q t)

abbrev pub read_value : Option (Option Bytes) → Result (Option Bytes) Fault
read_value none = err panicked
read_value (some v) = ok v

abbrev pub read_at : Option BPlusTreeNode → Bytes → Result (Option Bytes) Fault
read_at none q = err internal_error
read_at (some node) q = read_value (Node.get node q)

abbrev pub read_leaf :
    (NodeId → Option BPlusTreeNode) → Bytes → Result NodeId Fault → Result (Option Bytes) Fault
read_leaf ns q (err e) = err e
read_leaf ns q (ok l) = read_at (ns l) q

-- `get` as a function of the nodes.
pub get-descend :
    (fuel : ℕ) (q : Bytes) (t : BPlusTree)
    → get fuel q t ≡ (read_leaf t.nodes q (descend fuel t.nodes t.root_id q), t)
unfolding get
get-descend fuel q t =
    rw (find_leaf-descend fuel t.root_id q t, ◌>>=◌) (found (descend fuel t.nodes t.root_id q))
  where
    found_at :
        (o : Option BPlusTreeNode)
        → (or_fail internal_error o >>= λ node. or_fail panicked (Node.get node q)) t
          ≡ (read_at o q, t)
    found_at none = refl
    found_at (some node) = value (Node.get node q)
      where
        value : (v : Option (Option Bytes)) → or_fail panicked v t ≡ (read_value v, t)
        value none = refl
        value (some v) = refl

    found :
        (r : Result NodeId Fault)
        → continue r (λ leaf_id. get_node leaf_id >>= λ node. or_fail panicked (Node.get node q)) t
          ≡ (read_leaf t.nodes q r, t)
    found (err e) = refl
    found (ok l) = found_at (t.nodes l)

-- A search does not see what a leaf holds.
pub descend-with_leaf :
    (fuel : ℕ) (id : NodeId) (q : Bytes) (ns : NodeId → Option BPlusTreeNode) (n n' : LeafNode)
    (l : NodeId)
    → ns l ≡ some (leaf n)
    → descend fuel (update ns l (some (leaf n'))) id q ≡ descend fuel ns id q
unfolding descend
descend-with_leaf zero id q ns n n' l h = refl
descend-with_leaf (suc fuel) id q ns n n' l h = elim (Bool-cases (l == id)) [
  | inl here ↦
      let e : ns id ≡ some (leaf n) = subst (λ x. ns x ≡ some (leaf n)) ((==_iff l id).0 here) h in
      rw (here, e)
  | inr elsewhere ↦
      rw elsewhere
        (ap (λ k. visit (ns id) id q k) (fun_ext (λ c. descend-with_leaf fuel c q ns n n' l h)))
]
