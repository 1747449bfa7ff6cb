-- ===== src/Art/Insert/Split.antt =====
-- What `split_node` and `create_inner_node_from_leaves` of nanograph-art/src/tree.rs return, and what
-- every key finds in it.
use nanograph.Prelude.{
  ℕ, zero, suc, ◌≤◌, ◌<◌, ◌≡◌, ◌≢◌, inl, inr, refl, sym, ◌∙◌, Option, none, some, false, [], ◌∷◌,
  ◌++◌, length, ◌==◌, if◌then◌else◌, Bool-cases, Option-cases, arith,
}
use nanograph.Bytes.{Bytes, same, cmp}
use nanograph.Art.Node.{
  Node, leaf, node4, node16, node48, node256, new_node4, is_leaf, partial_of, value_of, find_child,
}
use nanograph.Art.Children.{add_child_unchecked, set_node_value, update_partial}
use nanograph.Art.Insert.Seek.{
  strip, strip-append, length_of_strip, below, below_child, below_no_child, seek, seek_inner,
  seek_stray, seek_leaf, seek_fuel, below_agree,
}
use nanograph.Art.Insert.Fresh.{
  same_strip-none, same_strip-some, two_children, one_child, seek_fresh, leaves_strip,
}

module _ {V : Type 0} where
  -- What the two-leaf and the one-leaf nodes hold.
  abbrev pub parted : Bytes → ℕ → Node V → ℕ → Node V → Node V
  parted x a ca b cb = add_child_unchecked (add_child_unchecked (new_node4 x) a ca) b cb

  abbrev pub stemmed : Bytes → V → ℕ → Node V → Node V
  stemmed x w a ca = add_child_unchecked (set_node_value (new_node4 x) w) a ca

  parted_partial :
      (x : Bytes) (a b : ℕ) (ca cb : Node V)
      → (partial_of (parted x a ca b cb) ≡ x)
        × (is_leaf (parted x a ca b cb) ≡ false)
        × (value_of (parted x a ca b cb) ≡ none)
  unfolding add_child_unchecked new_node4
  parted_partial x a b ca cb = (refl, refl, refl)

  stemmed_partial :
      (x : Bytes) (w : V) (a : ℕ) (ca : Node V)
      → (partial_of (stemmed x w a ca) ≡ x)
        × (is_leaf (stemmed x w a ca) ≡ false)
        × (value_of (stemmed x w a ca) ≡ some w)
  unfolding add_child_unchecked new_node4 set_node_value
  stemmed_partial x w a ca = (refl, refl, refl)

  below-parted :
      (g : ℕ) (qk key k : Bytes) (v w : V) (x : Bytes) (a b : ℕ) (k' r' rest : Bytes)
      → a ≢ b
      → length rest ≤ g
      → same key qk ≡ same (b ∷ r') rest
      → same k qk ≡ same (a ∷ k') rest
      → below (parted x a (leaf k w) b (leaf key v)) rest (seek g qk)
        ≡ (if same (b ∷ r') rest then some v else if same (a ∷ k') rest then some w else none)
  unfolding cmp below
  below-parted g qk key k v w x a b k' r' [] ne l sr sk =
      (parted_partial x a b (leaf k w) (leaf key v)).2
  below-parted zero qk key k v w x a b k' r' (z ∷ rest) ne l sr sk = absurd (omega arith)
  below-parted (suc g) qk key k v w x a b k' r' (z ∷ rest) ne l sr sk =
      let found = two_children x a b (leaf k w) (leaf key v) z in
      let at_key = seek_leaf g qk key v rest in
      let at_k = seek_leaf g qk k w rest in
      elim (Bool-cases (a == z)) [
        | inl t ↦
            below_child _ (leaf k w) z rest (seek (suc g) qk) (found ∙ rw t refl)
            ∙ (at_k ∙ rw sk (ground arith))
        | inr t ↦ elim (Bool-cases (b == z)) [
          | inl u ↦
              below_child _ (leaf key v) z rest (seek (suc g) qk) (found ∙ rw (t, u) refl)
              ∙ (at_key ∙ rw sr (ground arith))
          | inr u ↦
              below_no_child _ z rest (seek (suc g) qk) (found ∙ rw (t, u) refl) ∙ ground arith
        ]
      ]

  below-stemmed :
      (g : ℕ) (qk k : Bytes) (w v : V) (x : Bytes) (a : ℕ) (k' rest : Bytes)
      → length rest ≤ g
      → same k qk ≡ same (a ∷ k') rest
      → below (stemmed x v a (leaf k w)) rest (seek g qk)
        ≡ (if same [] rest then some v else if same (a ∷ k') rest then some w else none)
  unfolding cmp below
  below-stemmed g qk k w v x a k' [] l sk = (stemmed_partial x v a (leaf k w)).2
  below-stemmed zero qk k w v x a k' (z ∷ rest) l sk = absurd (omega arith)
  below-stemmed (suc g) qk k w v x a k' (z ∷ rest) l sk =
      let found = one_child x v a (leaf k w) z in
      let at_k = seek_leaf g qk k w rest in
      elim (Bool-cases (a == z)) [
        | inl t ↦
            below_child _ (leaf k w) z rest (seek (suc g) qk) (found ∙ rw t refl)
            ∙ (at_k ∙ rw sk (ground arith))
        | inr t ↦ below_no_child _ z rest (seek (suc g) qk) (found ∙ rw t refl) ∙ ground arith
      ]

  -- Two leaves whose keys part at a byte.
  pub seek-parted :
      (g : ℕ) (qk key k : Bytes) (v w : V) (x : Bytes) (a b : ℕ) (k' r' rq : Bytes)
      → a ≢ b
      → length rq ≤ g
      → same key qk ≡ same (x ++ b ∷ r') rq
      → same k qk ≡ same (x ++ a ∷ k') rq
      → seek (suc g) qk (parted x a (leaf k w) b (leaf key v)) rq
        ≡ (if same (x ++ b ∷ r') rq then some v else if same (x ++ a ∷ k') rq then some w else none)
  seek-parted g qk key k v w x a b k' r' rq ne l sr sk =
      let (mp, mi, mv) = parted_partial x a b (leaf k w) (leaf key v) in
      seek_fresh g qk (parted x a (leaf k w) b (leaf key v)) rq
        (λ rest. if same (b ∷ r') rest then some v else if same (a ∷ k') rest then some w else none)
        mi
        (λ rest e.
          below-parted g qk key k v w x a b k' r' rest ne
            (omega (arith, length_of_strip x rq rest (rw (← mp) e)))
            (sr ∙ same_strip-some x (b ∷ r') rq rest (rw (← mp) e))
            (sk ∙ same_strip-some x (a ∷ k') rq rest (rw (← mp) e)))
      ∙ rw mp (leaves_strip x (b ∷ r') (a ∷ k') rq v w)

  -- A key and a leaf whose key goes on behind it.
  pub seek-stemmed :
      (g : ℕ) (qk k : Bytes) (w v : V) (x : Bytes) (a : ℕ) (k' rq : Bytes)
      → length rq ≤ g
      → same k qk ≡ same (x ++ a ∷ k') rq
      → seek (suc g) qk (stemmed x v a (leaf k w)) rq
        ≡ (if same (x ++ []) rq then some v else if same (x ++ a ∷ k') rq then some w else none)
  seek-stemmed g qk k w v x a k' rq l sk =
      let (mp, mi, mv) = stemmed_partial x v a (leaf k w) in
      seek_fresh g qk (stemmed x v a (leaf k w)) rq
        (λ rest. if same [] rest then some v else if same (a ∷ k') rest then some w else none) mi
        (λ rest e.
          below-stemmed g qk k w v x a k' rest
            (omega (arith, length_of_strip x rq rest (rw (← mp) e)))
            (sk ∙ same_strip-some x (a ∷ k') rq rest (rw (← mp) e)))
      ∙ rw mp (leaves_strip x [] (a ∷ k') rq v w)

  seek_update_below :
      (n : Node V) (p rest : Bytes) (next : Node V → Bytes → Option V)
      → is_leaf n ≡ false
      → (partial_of (update_partial n p) ≡ p)
        × (is_leaf (update_partial n p) ≡ false)
        × (below (update_partial n p) rest next ≡ below n rest next)
  unfolding update_partial below find_child
  seek_update_below (leaf k v) p rest next i = absurd (cc)
  seek_update_below (node4 h ks cs) p [] next i = (refl, refl, refl)
  seek_update_below (node4 h ks cs) p (b ∷ rest) next i = (refl, refl, refl)
  seek_update_below (node16 h ks cs) p [] next i = (refl, refl, refl)
  seek_update_below (node16 h ks cs) p (b ∷ rest) next i = (refl, refl, refl)
  seek_update_below (node48 h is cs) p [] next i = (refl, refl, refl)
  seek_update_below (node48 h is cs) p (b ∷ rest) next i = (refl, refl, refl)
  seek_update_below (node256 h cs) p [] next i = (refl, refl, refl)
  seek_update_below (node256 h cs) p (b ∷ rest) next i = (refl, refl, refl)

  -- A node with a shorter partial key is walked as before behind what was cut off.
  seek_update :
      (g : ℕ) (qk : Bytes) (n : Node V) (p rest rq : Bytes)
      → is_leaf n ≡ false
      → strip (partial_of n) rq ≡ strip p rest
      → length rest < g
      → seek g qk (update_partial n p) rest ≡ seek (suc g) qk n rq
  seek_update zero qk n p rest rq i e l = elim l [ ]
  seek_update (suc g) qk n p rest rq i e l =
      let (up, ui, u) = seek_update_below n p [] (seek g qk) i in
      elim (Option-cases (strip p rest)) [
        | inl x ↦
            seek_stray (suc g) qk (update_partial n p) rest (rw up x)
            ∙ sym (seek_stray (suc (suc g)) qk n rq (e ∙ x))
        | inr (left, x) ↦
            seek_inner g qk (update_partial n p) rest left ui (rw up x)
            ∙ ((seek_update_below n p left (seek g qk) i).2
                ∙ (below_agree n left _ _ (λ c r k.
                      sym (seek_fuel g qk c r (omega (arith, length_of_strip p rest left x))))
                    ∙ sym (seek_inner (suc g) qk n rq left i (e ∙ x))))
      ]

  split_below :
      (g : ℕ) (qk key : Bytes) (v : V) (n : Node V) (x : Bytes) (a b : ℕ) (p' r' rest rq : Bytes)
      → is_leaf n ≡ false
      → a ≢ b
      → length rest ≤ g
      → strip (partial_of n) rq ≡ strip (a ∷ p') rest
      → same key qk ≡ same (b ∷ r') rest
      → below (parted x a (update_partial n p') b (leaf key v)) rest (seek g qk)
        ≡ (if same (b ∷ r') rest then some v else seek (suc g) qk n rq)
  unfolding strip cmp below
  split_below g qk key v n x a b p' r' [] rq i ne l e sr =
      (parted_partial x a b (update_partial n p') (leaf key v)).2
      ∙ sym (seek_stray (suc g) qk n rq e)
  split_below zero qk key v n x a b p' r' (z ∷ rest) rq i ne l e sr = absurd (omega arith)
  split_below (suc g) qk key v n x a b p' r' (z ∷ rest) rq i ne l e sr =
      let found = two_children x a b (update_partial n p') (leaf key v) z in
      elim (Bool-cases (a == z)) [
        | inl t ↦
            let other : same (b ∷ r') (z ∷ rest) ≡ false = ground arith in
            below_child _ (update_partial n p') z rest (seek (suc g) qk) (found ∙ rw t refl)
            ∙ (seek_update (suc g) qk n p' rest rq i (e ∙ rw t refl) (omega arith)
                ∙ sym (rw other refl))
        | inr t ↦
            let stray = seek_stray (suc (suc g)) qk n rq (e ∙ rw t refl) in
            elim (Bool-cases (b == z)) [
              | inl u ↦
                  below_child _ (leaf key v) z rest (seek (suc g) qk) (found ∙ rw (t, u) refl)
                  ∙ (seek_leaf g qk key v rest ∙ rw (sr, stray) refl)
              | inr u ↦
                  let other : same (b ∷ r') (z ∷ rest) ≡ false = ground arith in
                  below_no_child _ z rest (seek (suc g) qk) (found ∙ rw (t, u) refl)
                  ∙ sym (rw other stray)
            ]
      ]

  -- The node that is split, and the new leaf.
  pub seek_split :
      (g : ℕ) (qk key : Bytes) (v : V) (n : Node V) (x : Bytes) (a b : ℕ) (p' r' rq : Bytes)
      → is_leaf n ≡ false
      → a ≢ b
      → partial_of n ≡ x ++ a ∷ p'
      → length rq ≤ g
      → same key qk ≡ same (x ++ b ∷ r') rq
      → seek (suc g) qk (parted x a (update_partial n p') b (leaf key v)) rq
        ≡ (if same (x ++ b ∷ r') rq then some v else seek (suc g) qk n rq)
  unfolding strip
  seek_split g qk key v n x a b p' r' rq i ne e l sr =
      let m = parted x a (update_partial n p') b (leaf key v) in
      let (mp, mi, mv) = parted_partial x a b (update_partial n p') (leaf key v) in
      let whole : strip (partial_of n) rq
          ≡ elim (strip x rq) [ none ↦ none | some rest ↦ strip (a ∷ p') rest ] =
        rw e (strip-append x (a ∷ p') rq) in
      elim (Option-cases (strip x rq)) [
        | inl s ↦
            seek_stray (suc g) qk m rq (rw mp s)
            ∙ sym (
                rw (same_strip-none x (b ∷ r') rq s)
                  (seek_stray (suc g) qk n rq (whole ∙ rw s refl)))
        | inr (rest, s) ↦
            seek_inner g qk m rq rest mi (rw mp s)
            ∙ (split_below g qk key v n x a b p' r' rest rq i ne
                  (omega (arith, length_of_strip x rq rest s)) (whole ∙ rw s refl)
                  (sr ∙ same_strip-some x (b ∷ r') rq rest s)
                ∙ rw (same_strip-some x (b ∷ r') rq rest s) refl)
      ]
