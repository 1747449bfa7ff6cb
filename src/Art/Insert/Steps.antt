-- ===== src/Art/Insert/Steps.antt =====
-- One call of `insert_recursive` of nanograph-art/src/tree.rs, by what is left of the key.
use nanograph.Prelude.{
  ℕ, suc, ◌+◌, ◌<◌, ◌≡◌, ◌≢◌, inl, inr, refl, ap, subst, Option, none, some, true, false, [], ◌∷◌,
  ◌++◌, length, get_elem?, drop, ltb, ◌==◌, Bool-cases, arith,
}
use nanograph.Bytes.{Bytes}
use nanograph.Art.Node.{
  Node, leaf, node4, node16, node48, node256, is_leaf, partial_of, value_of, find_child, new_leaf,
}
use nanograph.Art.Children.{add_child, replace_child, set_node_value}
use nanograph.Art.Insert.{
  Outcome, done, ◌>>=◌, of_result, common_length, insert_recursive, split_node,
}
use nanograph.Art.Insert.Seek.{strip, common_length_all, byte_below}

-- How a key stands to a partial key that it does not begin with: it ends within it, or has another
-- byte somewhere.
pub data Apart : Bytes → Bytes → Type 0 where
  ends :
      (r : Bytes) (a : ℕ) (s p : Bytes) → p ≡ r ++ a ∷ s → common_length p r ≡ length r → Apart p r
  parts :
      (pre : Bytes) (a b : ℕ) (p' r' p r : Bytes)
      → p ≡ pre ++ a ∷ p'
      → r ≡ pre ++ b ∷ r'
      → a ≢ b
      → common_length p r ≡ length pre
      → Apart p r

Apart-cons : (a : ℕ) (p r : Bytes) → Apart p r → Apart (a ∷ p) (a ∷ r)
unfolding common_length
Apart-cons a p r (ends _ x s _ e c) =
    ends (a ∷ r) x s (a ∷ p) (ap (λ y. a ∷ y) e) (ground (arith, c))
Apart-cons a p r (parts pre x y p' r' _ _ e f ne c) =
    parts (a ∷ pre) x y p' r' (a ∷ p) (a ∷ r) (ap (λ z. a ∷ z) e) (ap (λ z. a ∷ z) f) ne
      (ground (arith, c))

pub apart : (p r : Bytes) → strip p r ≡ none → Apart p r
unfolding strip common_length
apart [] r e = absurd (cc)
apart (a ∷ p) [] e = ends [] a p (a ∷ p) refl refl
apart (a ∷ p) (b ∷ r) e = elim (Bool-cases (a == b)) [
  | inl t ↦
      let same_byte : a ≡ b = ground arith in
      subst (λ x. Apart (a ∷ p) (x ∷ r)) same_byte (Apart-cons a p r (apart p r (ground arith)))
  | inr t ↦ parts [] a b p r (a ∷ p) (b ∷ r) refl refl (ground arith) (rw t refl)
]

common_length_lt : (p r : Bytes) → strip p r ≡ none → common_length p r < length p
unfolding strip common_length
common_length_lt [] r e = absurd (cc)
common_length_lt (a ∷ p) [] e = omega arith
common_length_lt (a ∷ p) (b ∷ r) e = ground (arith, common_length_lt p r)

-- A partial key that goes on behind the key.
pub strip_longer : (r : Bytes) (a : ℕ) (s : Bytes) → strip (r ++ a ∷ s) r ≡ none
unfolding strip
strip_longer [] a s = refl
strip_longer (b ∷ r) a s = ground (arith, strip_longer r a s)

pub common_length_longer : (r : Bytes) (a : ℕ) (s : Bytes) → common_length (r ++ a ∷ s) r ≡ length r
unfolding common_length
common_length_longer [] a s = refl
common_length_longer (b ∷ r) a s = ground (arith, common_length_longer r a s)

module _ {V : Type 0} where
  unfoldable pub insert_below :
      Node V
      → Bytes
      → Bytes
      → V
      → (Node V → Outcome (Node V × Option V))
      → Outcome (Node V × Option V)
  insert_below n key [] v next = done (set_node_value n v, value_of n)
  insert_below n key (b ∷ rest) v next = elim (find_child n b) [
    | none ↦ of_result (add_child n b (new_leaf key v)) >>= λ m. done (m, none)
    | some c ↦ next c >>= λ r. done (replace_child n b r.0, r.1)
  ]

  insert_round :
      (fuel : ℕ) (n : Node V) (key rest : Bytes) (d : ℕ) (v : V)
      → is_leaf n ≡ false
      → ltb (common_length (partial_of n) (drop d key)) (length (partial_of n)) ≡ false
      → get_elem? key (d + length (partial_of n)) ≡ get_elem? rest 0
      → insert_recursive (suc fuel) n key d v
        ≡ insert_below n key rest v
            (λ c. insert_recursive fuel c key (suc (d + length (partial_of n))) v)
  unfolding insert_recursive insert_below
  insert_round fuel (leaf k w) key rest d v i t e = absurd (cc)
  insert_round fuel (node4 h ks cs) key [] d v i t e = rw (t, e) refl
  insert_round fuel (node4 h ks cs) key (b ∷ rest) d v i t e = rw (t, e) refl
  insert_round fuel (node16 h ks cs) key [] d v i t e = rw (t, e) refl
  insert_round fuel (node16 h ks cs) key (b ∷ rest) d v i t e = rw (t, e) refl
  insert_round fuel (node48 h is cs) key [] d v i t e = rw (t, e) refl
  insert_round fuel (node48 h is cs) key (b ∷ rest) d v i t e = rw (t, e) refl
  insert_round fuel (node256 h cs) key [] d v i t e = rw (t, e) refl
  insert_round fuel (node256 h cs) key (b ∷ rest) d v i t e = rw (t, e) refl

  -- At an inner node whose partial key the rest of the key begins with.
  pub insert_inner :
      (fuel : ℕ) (n : Node V) (key r rest : Bytes) (d : ℕ) (v : V)
      → is_leaf n ≡ false
      → drop d key ≡ r
      → strip (partial_of n) r ≡ some rest
      → insert_recursive (suc fuel) n key d v
        ≡ insert_below n key rest v
            (λ c. insert_recursive fuel c key (suc (d + length (partial_of n))) v)
  insert_inner fuel n key r rest d v i e x =
      let p = partial_of n in
      let test : ltb (common_length p (drop d key)) (length p) ≡ false =
        rw (e, common_length_all p r rest x) (ground arith) in
      insert_round fuel n key rest d v i test (byte_below p r rest key d e x)

  -- At a node whose partial key it does not begin with.
  pub insert_stray :
      (fuel : ℕ) (n : Node V) (key r : Bytes) (d : ℕ) (v : V)
      → drop d key ≡ r
      → strip (partial_of n) r ≡ none
      → insert_recursive (suc fuel) n key d v
        ≡ split_node n key d (common_length (partial_of n) r) v
  unfolding insert_recursive
  insert_stray fuel n key r d v e x =
      let p = partial_of n in
      let test : ltb (common_length p r) (length p) ≡ true =
        ground (arith, common_length_lt p r x) in
      rw (e, test) refl
