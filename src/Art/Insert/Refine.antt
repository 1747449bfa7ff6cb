-- ===== src/Art/Insert/Refine.antt =====
-- What `insert` of nanograph-art/src/tree.rs does to what `get` finds, and when it panics.
use nanograph.Prelude.{
  ℕ, zero, suc, ◌≤◌, ◌<◌, ◌≡◌, inl, inr, refl, sym, ap, ◌∙◌, some, false, [], ◌∷◌, ◌++◌, length,
  ◌==◌, if◌then◌else◌, Bool-cases, Option-cases, arith,
}
use nanograph.Bytes.{Bytes, same, cmp}
use nanograph.Art.Node.{
  Node, leaf, node4, node16, node48, node256, is_leaf, partial_of, value_of, find_child,
}
use nanograph.Art.Children.{set_node_value}
use nanograph.Art.Children.Found.{Has}
use nanograph.Art.Insert.Seek.{
  strip, append_of_strip, length_of_strip, below, below_child, below_same, seek, seek_inner,
  seek_stray,
}
use nanograph.Art.Insert.Fresh.{same_strip-none, same_strip-some}
use nanograph.Art.Insert.Trees.{Reads}

module _ {V : Type 0} where
  set_node_value_facts :
      (n : Node V) (v : V) (b : ℕ)
      → is_leaf n ≡ false
      → (partial_of (set_node_value n v) ≡ partial_of n)
        × (is_leaf (set_node_value n v) ≡ false)
        × (value_of (set_node_value n v) ≡ some v)
        × (find_child (set_node_value n v) b ≡ find_child n b)
  unfolding set_node_value find_child
  set_node_value_facts (leaf k w) v b i = absurd (cc)
  set_node_value_facts (node4 h ks cs) v b i = (refl, refl, refl, refl)
  set_node_value_facts (node16 h ks cs) v b i = (refl, refl, refl, refl)
  set_node_value_facts (node48 h is cs) v b i = (refl, refl, refl, refl)
  set_node_value_facts (node256 h cs) v b i = (refl, refl, refl, refl)

  -- Two inner nodes with one partial key, whose walks differ only below it.
  Reads-inner :
      (path r x r0 : Bytes) (v : V) (n m : Node V)
      → is_leaf n ≡ false
      → is_leaf m ≡ false
      → partial_of n ≡ x
      → partial_of m ≡ x
      → r ≡ x ++ r0
      → ((g : ℕ) (qk rest : Bytes)
          → length rest ≤ g
          → qk ≡ path ++ (x ++ rest)
          → below m rest (seek g qk) ≡ (if same r0 rest then some v else below n rest (seek g qk)))
      → Reads path r v n m
  Reads-inner path r x r0 v n m i j p p' e h zero qk rq l eq = elim l [ ]
  Reads-inner path r x r0 v n m i j p p' e h (suc g) qk rq l eq = elim (Option-cases (strip x rq)) [
    | inl s ↦
        let other : same r rq ≡ false = ap (λ z. same z rq) e ∙ same_strip-none x r0 rq s in
        seek_stray (suc g) qk m rq (ap (λ z. strip z rq) p' ∙ s)
        ∙ sym (rw other (seek_stray (suc g) qk n rq (ap (λ z. strip z rq) p ∙ s)))
    | inr (rest, s) ↦
        let f = append_of_strip x rq rest s in
        let shared : same r rq ≡ same r0 rest =
          ap (λ z. same z rq) e ∙ same_strip-some x r0 rq rest s in
        seek_inner g qk m rq rest j (ap (λ z. strip z rq) p' ∙ s)
        ∙ (h g qk rest (omega (arith, length_of_strip x rq rest s)) (eq ∙ ap (λ z. path ++ z) f)
            ∙ rw (shared, seek_inner g qk n rq rest i (ap (λ z. strip z rq) p ∙ s)) refl)
  ]

  -- The key ends at the node: its value is set.
  pub Reads-set :
      (path r : Bytes) (v : V) (n : Node V)
      → is_leaf n ≡ false
      → strip (partial_of n) r ≡ some []
      → Reads path r v n (set_node_value n v)
  unfolding below cmp
  Reads-set path r v n i s =
      let facts = λ (b : ℕ). set_node_value_facts n v b i in
      Reads-inner path r (partial_of n) [] v n (set_node_value n v) i (facts 0).1 refl (facts 0).0
        (append_of_strip (partial_of n) r [] s) (λ g qk rest l eq. at_end g qk rest)
    where
      at_end :
          (g : ℕ) (qk rest : Bytes)
          → below (set_node_value n v) rest (seek g qk)
            ≡ (if same [] rest then some v else below n rest (seek g qk))
      at_end g qk [] = (set_node_value_facts n v 0 i).2
      at_end g qk (b ∷ rest) =
          below_same n (set_node_value n v) b rest (seek g qk) (set_node_value_facts n v b i).3

  -- The key goes on below a child that is new or takes the place of another.
  pub Reads-below :
      (path r r' : Bytes) (v : V) (n c m : Node V) (b : ℕ)
      → is_leaf n ≡ false
      → Has n b c m
      → r ≡ partial_of n ++ b ∷ r'
      → ((g : ℕ) (qk rest : Bytes)
          → length rest < g
          → qk ≡ path ++ (partial_of n ++ b ∷ rest)
          → seek g qk c rest ≡ (if same r' rest then some v else below n (b ∷ rest) (seek g qk)))
      → Reads path r v n m
  unfolding below cmp
  Reads-below path r r' v n c m b i has e h =
      Reads-inner path r (partial_of n) (b ∷ r') v n m i has.inner refl has.same_partial e at_child
    where
      at_child :
          (g : ℕ) (qk rest : Bytes)
          → length rest ≤ g
          → qk ≡ path ++ (partial_of n ++ rest)
          → below m rest (seek g qk)
            ≡ (if same (b ∷ r') rest then some v else below n rest (seek g qk))
      at_child g qk [] l eq = has.same_value
      at_child g qk (z ∷ rest) l eq = elim (Bool-cases (b == z)) [
        | inl t ↦
            let here : b ≡ z = ground arith in
            let shared : same (b ∷ r') (z ∷ rest) ≡ same r' rest = ground arith in
            below_child m c z rest (seek g qk) (has.children z ∙ rw t refl)
            ∙ (h g qk rest (omega arith)
                  (eq ∙ ap (λ y. path ++ (partial_of n ++ y ∷ rest)) (sym here))
                ∙ rw (shared, here) refl)
        | inr t ↦
            let other : same (b ∷ r') (z ∷ rest) ≡ false = ground arith in
            below_same n m z rest (seek g qk) (has.children z ∙ rw t refl) ∙ sym (rw other refl)
      ]
