-- ===== src/Art/Insert/Made.antt =====
-- The calls of `split_node` and `create_inner_node_from_leaves` of nanograph-art/src/tree.rs: the node
-- that is made, or the panic.
use nanograph.Prelude.{
  ℕ, suc, ◌+◌, ◌≡◌, refl, sym, ap, ◌∙◌, none, some, true, false, [], ◌∷◌, ◌++◌, length, get_elem?,
  take, drop, length-append, length-drop, get_elem?-drop, ltb, leb, arith,
}
use nanograph.Prelude.Slices.{take-append}
use mathlib.Core.List.{append-nil}
use nanograph.Bytes.{Bytes}
use nanograph.Art.Node.{Node, leaf, new_leaf, partial_of}
use nanograph.Art.Children.{update_partial}
use nanograph.Art.Insert.{
  done, panicked, at, common_length, split_node, create_inner_node_from_leaves,
}
use nanograph.Art.Insert.Split.{parted, stemmed}

get_elem?-middle : (x : Bytes) (a : ℕ) (y : Bytes) → get_elem? (x ++ a ∷ y) (length x) ≡ some a
get_elem?-middle [] a y = refl
get_elem?-middle (b ∷ x) a y = get_elem?-middle x a y

get_elem?-end : (x : Bytes) → get_elem? x (length x) ≡ none
get_elem?-end [] = refl
get_elem?-end (b ∷ x) = get_elem?-end x

drop_middle : (x : Bytes) (a : ℕ) (y : Bytes) → drop (suc (length x)) (x ++ a ∷ y) ≡ y
drop_middle [] a y = refl
drop_middle (b ∷ x) a y = drop_middle x a y

at-some : (v : Bytes) (i b : ℕ) → get_elem? v i ≡ some b → at v i ≡ done b
at-some v i b e = rw (e, at) refl

at-none : (v : Bytes) (i : ℕ) → get_elem? v i ≡ none → at v i ≡ panicked
at-none v i e = rw (e, at) refl

-- The byte of a key at an index behind what is dropped.
byte_at : (key x y : Bytes) (d a : ℕ) → drop d key ≡ x ++ a ∷ y → at key (d + length x) ≡ done a
byte_at key x y d a e = at-some key (d + length x) a (
    sym (get_elem?-drop d key (length x))
    ∙ (ap (λ z. get_elem? z (length x)) e ∙ get_elem?-middle x a y))

module _ {V : Type 0} where
  pub split_parts :
      (n : Node V) (key x p' r' : Bytes) (d a b : ℕ) (v : V)
      → partial_of n ≡ x ++ a ∷ p'
      → drop d key ≡ x ++ b ∷ r'
      → split_node n key d (length x) v
        ≡ done (parted x a (update_partial n p') b (leaf key v), none)
  unfolding split_node new_leaf
  split_parts n key x p' r' d a b v e f =
      rw
        (
          e,
          at-some _ _ a (get_elem?-middle x a p'),
          byte_at key x r' d b f,
          drop_middle x a p',
          take-append x (a ∷ p'),
        )
        refl

  -- A key that ends within the partial key of a node makes the split panic.
  pub split_ends :
      (n : Node V) (key r s : Bytes) (d a : ℕ) (v : V)
      → partial_of n ≡ r ++ a ∷ s
      → drop d key ≡ r
      → split_node n key d (length r) v ≡ panicked
  unfolding split_node
  split_ends n key r s d a v e f =
      let past : at key (d + length r) ≡ panicked = at-none key (d + length r) (
        sym (get_elem?-drop d key (length r))
        ∙ (ap (λ z. get_elem? z (length r)) f ∙ get_elem?-end r)) in
      rw (e, at-some _ _ a (get_elem?-middle r a s), past) refl

  -- The keys of two leaves, behind the depth, part at a byte, or one goes on behind the other.
  pub create_parts :
      (k key x k' r' : Bytes) (d a b : ℕ) (w v : V)
      → drop d k ≡ x ++ a ∷ k'
      → drop d key ≡ x ++ b ∷ r'
      → common_length (x ++ a ∷ k') (x ++ b ∷ r') ≡ length x
      → create_inner_node_from_leaves k w key d v
        ≡ done (parted x a (leaf k w) b (leaf key v), none)
  unfolding create_inner_node_from_leaves new_leaf
  create_parts k key x k' r' d a b w v e f c =
      let n = ap length e in
      let m = ap length f in
      let inside : ltb (length k) d ≡ false =
        ground (arith, n, length-drop d k, length-append x (a ∷ k')) in
      let longer : leb (length k) (d + length x) ≡ false =
        ground (arith, n, length-drop d k, length-append x (a ∷ k')) in
      let longer' : leb (length key) (d + length x) ≡ false =
        ground (arith, m, length-drop d key, length-append x (b ∷ r')) in
      rw
        (
          inside,
          e,
          f,
          c,
          longer,
          longer',
          byte_at k x k' d a e,
          byte_at key x r' d b f,
          take-append x (a ∷ k'),
        )
        refl

  pub create_before :
      (k key x r' : Bytes) (d b : ℕ) (w v : V)
      → drop d k ≡ x
      → d + length x ≡ length k
      → drop d key ≡ x ++ b ∷ r'
      → common_length x (x ++ b ∷ r') ≡ length x
      → create_inner_node_from_leaves k w key d v ≡ done (stemmed x w b (leaf key v), none)
  unfolding create_inner_node_from_leaves new_leaf
  create_before k key x r' d b w v e l f c =
      let inside : ltb (length k) d ≡ false = ground (arith, l) in
      let ends_here : leb (length k) (d + length x) ≡ true = ground (arith, l) in
      let whole : take (length x) x ≡ x =
        ap (take (length x)) (sym (append-nil x)) ∙ take-append x [] in
      rw (inside, e, f, c, ends_here, byte_at key x r' d b f, whole) refl

  pub create_behind :
      (k key x k' : Bytes) (d a : ℕ) (w v : V)
      → drop d k ≡ x ++ a ∷ k'
      → drop d key ≡ x
      → d + length x ≡ length key
      → common_length (x ++ a ∷ k') x ≡ length x
      → create_inner_node_from_leaves k w key d v ≡ done (stemmed x v a (leaf k w), none)
  unfolding create_inner_node_from_leaves
  create_behind k key x k' d a w v e f l c =
      let n = ap length e in
      let inside : ltb (length k) d ≡ false =
        ground (arith, n, length-drop d k, length-append x (a ∷ k')) in
      let longer : leb (length k) (d + length x) ≡ false =
        ground (arith, n, length-drop d k, length-append x (a ∷ k')) in
      let ends_here : leb (length key) (d + length x) ≡ true = ground (arith, l) in
      rw (inside, e, f, c, longer, ends_here, byte_at k x k' d a e, take-append x (a ∷ k')) refl
