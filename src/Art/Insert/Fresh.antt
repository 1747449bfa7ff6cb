-- ===== src/Art/Insert/Fresh.antt =====
-- The nodes that `split_node` and `create_inner_node_from_leaves` of nanograph-art/src/tree.rs make,
-- and what is found below them.
use nanograph.Prelude.{
  ℕ, suc, ◌≡◌, inl, inr, refl, sym, ◌∙◌, Option, none, some, false, [], ◌∷◌, ◌++◌, ◌==◌,
  if◌then◌else◌, Option-cases, arith,
}
use nanograph.Bytes.{Bytes, same, cmp}
use nanograph.Art.Node.{Node, new_node4, is_leaf, partial_of, find_child, find_byte}
use nanograph.Art.Children.{add_child_unchecked, set_node_value}
use nanograph.Art.Insert.Seek.{strip, append_of_strip, below, seek, seek_inner, seek_stray}

pub same_append : (x a b : Bytes) → same (x ++ a) (x ++ b) ≡ same a b
unfolding cmp
same_append [] a b = refl
same_append (c ∷ x) a b = ground (arith, same_append x a b)

pub same_shared :
    (pre r rq key qk : Bytes) → key ≡ pre ++ r → qk ≡ pre ++ rq → same key qk ≡ same r rq
same_shared pre r rq key qk e f = rw (e, f) (same_append pre r rq)

-- A key that begins with `x`, and one that does not.
pub same_strip-none : (x a rq : Bytes) → strip x rq ≡ none → same (x ++ a) rq ≡ false
unfolding strip cmp
same_strip-none [] a rq e = absurd (cc)
same_strip-none (c ∷ x) a [] e = refl
same_strip-none (c ∷ x) a (b ∷ rq) e = ground (arith, same_strip-none x a rq)

pub same_strip-some :
    (x a rq rest : Bytes) → strip x rq ≡ some rest → same (x ++ a) rq ≡ same a rest
same_strip-some x a rq rest e = rw (append_of_strip x rq rest e) (same_append x a rest)

module _ {V : Type 0} where
  pub two_children :
      (x : Bytes) (a b : ℕ) (ca cb : Node V) (q : ℕ)
      → find_child (add_child_unchecked (add_child_unchecked (new_node4 x) a ca) b cb) q
        ≡ (if a == q then some ca else if b == q then some cb else none)
  unfolding find_child add_child_unchecked new_node4 find_byte
  two_children x a b ca cb q = ground arith

  pub one_child :
      (x : Bytes) (w : V) (a : ℕ) (ca : Node V) (q : ℕ)
      → find_child (add_child_unchecked (set_node_value (new_node4 x) w) a ca) q
        ≡ (if a == q then some ca else none)
  unfolding find_child add_child_unchecked new_node4 find_byte set_node_value
  one_child x w a ca q = ground arith

  pub seek_fresh :
      (g : ℕ) (qk : Bytes) (m : Node V) (rq : Bytes) (t : Bytes → Option V)
      → is_leaf m ≡ false
      → ((rest : Bytes) → strip (partial_of m) rq ≡ some rest → below m rest (seek g qk) ≡ t rest)
      → seek (suc g) qk m rq ≡ elim (strip (partial_of m) rq) [ none ↦ none | some rest ↦ t rest ]
  seek_fresh g qk m rq t i h = elim (Option-cases (strip (partial_of m) rq)) [
    | inl e ↦ seek_stray (suc g) qk m rq e ∙ sym (rw e refl)
    | inr (rest, e) ↦ seek_inner g qk m rq rest i e ∙ (h rest e ∙ sym (rw e refl))
  ]

  -- What a key finds among two leaves whose keys begin with `x`.
  pub leaves_strip :
      (x r0 k0 rq : Bytes) (v w : V)
      → elim (strip x rq) [
        | none ↦ none
        | some rest ↦ if same r0 rest then some v else if same k0 rest then some w else none
      ]
        ≡ (if same (x ++ r0) rq then some v else if same (x ++ k0) rq then some w else none)
  leaves_strip x r0 k0 rq v w = elim (Option-cases (strip x rq)) [
    | inl e ↦ rw (e, same_strip-none x r0 rq e, same_strip-none x k0 rq e) refl
    | inr (rest, e) ↦ rw (e, same_strip-some x r0 rq rest e, same_strip-some x k0 rq rest e) refl
  ]
