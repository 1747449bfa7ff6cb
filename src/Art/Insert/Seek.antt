-- ===== src/Art/Insert/Seek.antt =====
-- Searches of nanograph-art/src/tree.rs as a walk over the rest of the key.
use nanograph.Prelude.{
  ℕ, zero, suc, ◌+◌, ◌<◌, ◌≡◌, inl, inr, refl, sym, ap, ◌∙◌, Option, none, some, true, false, ◌&&◌,
  [], ◌∷◌, ◌++◌, length, get_elem?, take, drop, get_elem?-drop, leb, ◌==◌, if◌then◌else◌,
  Bool-cases, Option-cases, arith,
}
use nanograph.Prelude.Slices.{drop-drop}
use nanograph.Bytes.{Bytes, same, cmp}
use nanograph.Art.Node.{
  Node, leaf, node4, node16, node48, node256, is_leaf, partial_of, value_of, find_child, matches,
}
use nanograph.Art.Insert.{common_length, get_loop}

-- What is left of a key behind a partial key.
unfoldable pub strip : Bytes → Bytes → Option Bytes
strip [] r = some r
strip (a ∷ p) [] = none
strip (a ∷ p) (b ∷ r) = if a == b then strip p r else none

pub strip_self : (p r : Bytes) → strip p (p ++ r) ≡ some r
unfolding strip
strip_self [] r = refl
strip_self (a ∷ p) r = ground (arith, strip_self p r)

pub append_of_strip : (p r r' : Bytes) → strip p r ≡ some r' → r ≡ p ++ r'
unfolding strip
append_of_strip [] r r' e = ground arith
append_of_strip (a ∷ p) [] r' e = absurd (cc)
append_of_strip (a ∷ p) (b ∷ r) r' e = ground (arith, append_of_strip p r r')

pub strip-append :
    (p p' r : Bytes) → strip (p ++ p') r ≡ elim (strip p r) [ none ↦ none | some r' ↦ strip p' r' ]
unfolding strip
strip-append [] p' r = refl
strip-append (a ∷ p) p' [] = refl
strip-append (a ∷ p) p' (b ∷ r) = ground (arith, strip-append p p' r)

pub common_length_all : (p r r' : Bytes) → strip p r ≡ some r' → common_length p r ≡ length p
unfolding strip common_length
common_length_all [] r r' e = refl
common_length_all (a ∷ p) [] r' e = absurd (cc)
common_length_all (a ∷ p) (b ∷ r) r' e = ground (arith, common_length_all p r r')

pub length_of_strip : (p r r' : Bytes) → strip p r ≡ some r' → length r ≡ length p + length r'
unfolding strip
length_of_strip [] r r' e = ground arith
length_of_strip (a ∷ p) [] r' e = absurd (cc)
length_of_strip (a ∷ p) (b ∷ r) r' e = ground (arith, length_of_strip p r r')

pub drop_of_strip : (p r r' : Bytes) → strip p r ≡ some r' → drop (length p) r ≡ r'
unfolding strip
drop_of_strip [] r r' e = ground arith
drop_of_strip (a ∷ p) [] r' e = absurd (cc)
drop_of_strip (a ∷ p) (b ∷ r) r' e = ground (arith, drop_of_strip p r r')

-- What is left of a key, and its next byte, by the index.
pub drop_below :
    (p r rest key : Bytes) (d : ℕ)
    → drop d key ≡ r
    → strip p r ≡ some rest
    → drop (d + length p) key ≡ rest
drop_below p r rest key d e x =
    sym (drop-drop (length p) d key) ∙ (ap (drop (length p)) e ∙ drop_of_strip p r rest x)

pub byte_below :
    (p r rest key : Bytes) (d : ℕ)
    → drop d key ≡ r
    → strip p r ≡ some rest
    → get_elem? key (d + length p) ≡ get_elem? rest 0
byte_below p r rest key d e x =
    let here : d + length p ≡ d + length p + 0 = omega arith in
    ap (get_elem? key) here
    ∙ (sym (get_elem?-drop (d + length p) key 0)
        ∙ ap (λ y. get_elem? y 0) (drop_below p r rest key d e x))

pub drop_byte : (key rest : Bytes) (n b : ℕ) → drop n key ≡ b ∷ rest → drop (suc n) key ≡ rest
drop_byte key rest n b e =
    let next : suc n ≡ n + 1 = omega arith in
    ap (λ i. drop i key) next ∙ (sym (drop-drop 1 n key) ∙ ap (drop 1) e)

-- The comparison that `get` makes with a partial key.
strip_test :
    (p r : Bytes)
    → (leb (length p) (length r) && same (take (length p) r) p)
      ≡ elim (strip p r) [ none ↦ false | some r' ↦ true ]
unfolding strip cmp
strip_test [] r = ground arith
strip_test (a ∷ p) [] = ground arith
strip_test (a ∷ p) (b ∷ r) = elim (Bool-cases (a == b)) [
  | inl e ↦ rw e (ground (arith, strip_test p r))
  | inr e ↦ rw e (ground arith)
]

module _ {V : Type 0} where
  -- Below an inner node, by what is left of the key.
  unfoldable pub below : Node V → Bytes → (Node V → Bytes → Option V) → Option V
  below n [] next = value_of n
  below n (b ∷ rest) next = elim (find_child n b) [ none ↦ none | some c ↦ next c rest ]

  pub below_child :
      (n c : Node V) (b : ℕ) (rest : Bytes) (next : Node V → Bytes → Option V)
      → find_child n b ≡ some c
      → below n (b ∷ rest) next ≡ next c rest
  unfolding below
  below_child n c b rest next e = rw (e, below) refl

  pub below_no_child :
      (n : Node V) (b : ℕ) (rest : Bytes) (next : Node V → Bytes → Option V)
      → find_child n b ≡ none
      → below n (b ∷ rest) next ≡ none
  unfolding below
  below_no_child n b rest next e = rw (e, below) refl

  pub below_same :
      (n m : Node V) (b : ℕ) (rest : Bytes) (next : Node V → Bytes → Option V)
      → find_child m b ≡ find_child n b
      → below m (b ∷ rest) next ≡ below n (b ∷ rest) next
  unfolding below
  below_same n m b rest next e = rw (e, below) refl

  unfoldable pub at_node : Node V → Bytes → Bytes → (Node V → Bytes → Option V) → Option V
  at_node (leaf k v) key rest next = if matches k key then some v else none
  at_node n key rest next = below n rest next

  unfoldable pub seek : ℕ → Bytes → Node V → Bytes → Option V
  seek zero key n r = none
  seek (suc fuel) key n r = elim (strip (partial_of n) r) [
    | none ↦ none
    | some rest ↦ at_node n key rest (seek fuel key)
  ]

  at_inner :
      (n : Node V) (key rest : Bytes) (next : Node V → Bytes → Option V)
      → is_leaf n ≡ false
      → at_node n key rest next ≡ below n rest next
  unfolding at_node
  at_inner (leaf k v) key rest next i = absurd (cc)
  at_inner (node4 h ks cs) key rest next i = refl
  at_inner (node16 h ks cs) key rest next i = refl
  at_inner (node48 h is cs) key rest next i = refl
  at_inner (node256 h cs) key rest next i = refl

  pub seek_inner :
      (fuel : ℕ) (key : Bytes) (n : Node V) (r rest : Bytes)
      → is_leaf n ≡ false
      → strip (partial_of n) r ≡ some rest
      → seek (suc fuel) key n r ≡ below n rest (seek fuel key)
  unfolding seek
  seek_inner fuel key n r rest i e = rw (e, seek) (at_inner n key rest _ i)

  pub seek_stray :
      (fuel : ℕ) (key : Bytes) (n : Node V) (r : Bytes)
      → strip (partial_of n) r ≡ none
      → seek fuel key n r ≡ none
  unfolding seek
  seek_stray zero key n r e = refl
  seek_stray (suc fuel) key n r e = rw (e, seek) refl

  pub seek_leaf :
      (fuel : ℕ) (key k : Bytes) (v : V) (r : Bytes)
      → seek (suc fuel) key (leaf k v) r ≡ (if same k key then some v else none)
  unfolding seek strip at_node matches
  seek_leaf fuel key k v r = refl

  -- Two walks that agree on what is shorter.
  pub below_agree :
      (n : Node V) (rest : Bytes) (next next' : Node V → Bytes → Option V)
      → ((c : Node V) (r : Bytes) → length r < length rest → next c r ≡ next' c r)
      → below n rest next ≡ below n rest next'
  unfolding below
  below_agree n [] next next' h = refl
  below_agree n (b ∷ rest) next next' h = elim (Option-cases (find_child n b)) [
    | inl e ↦ below_no_child n b rest next e ∙ sym (below_no_child n b rest next' e)
    | inr (c, e) ↦
        below_child n c b rest next e
        ∙ (h c rest (omega arith) ∙ sym (below_child n c b rest next' e))
  ]

  -- More fuel than what is left of the key changes nothing.
  pub seek_fuel :
      (fuel : ℕ) (key : Bytes) (n : Node V) (r : Bytes)
      → length r < fuel
      → seek (suc fuel) key n r ≡ seek fuel key n r
  seek_fuel zero key n r l = elim l [ ]
  seek_fuel (suc fuel) key (leaf k v) r l =
      seek_leaf (suc fuel) key k v r ∙ sym (seek_leaf fuel key k v r)
  seek_fuel (suc fuel) key n r l = elim (Bool-cases (is_leaf n)) [
    | inl i ↦ absurd (cc)
    | inr i ↦ elim (Option-cases (strip (partial_of n) r)) [
      | inl e ↦ seek_stray (suc (suc fuel)) key n r e ∙ sym (seek_stray (suc fuel) key n r e)
      | inr (rest, e) ↦
          seek_inner (suc fuel) key n r rest i e
          ∙ (below_agree n rest _ _ (λ c r' l'.
                seek_fuel fuel key c r' (omega (arith, length_of_strip (partial_of n) r rest e)))
              ∙ sym (seek_inner fuel key n r rest i e))
    ]
  ]

  -- One round of `get`, where the partial key is that of the rest of the key.
  get_round :
      (fuel : ℕ) (n : Node V) (key rest : Bytes) (d : ℕ)
      → (leb (d + length (partial_of n)) (length key)
          && same (take (length (partial_of n)) (drop d key)) (partial_of n))
        ≡ true
      → get_elem? key (d + length (partial_of n)) ≡ get_elem? rest 0
      → get_loop (suc fuel) n key d
        ≡ at_node n key rest (λ c r. get_loop fuel c key (suc (d + length (partial_of n))))
  unfolding get_loop at_node below
  get_round fuel (leaf k v) key rest d t e = rw t refl
  get_round fuel (node4 h ks cs) key [] d t e = rw (t, e) refl
  get_round fuel (node4 h ks cs) key (b ∷ rest) d t e = rw (t, e) refl
  get_round fuel (node16 h ks cs) key [] d t e = rw (t, e) refl
  get_round fuel (node16 h ks cs) key (b ∷ rest) d t e = rw (t, e) refl
  get_round fuel (node48 h is cs) key [] d t e = rw (t, e) refl
  get_round fuel (node48 h is cs) key (b ∷ rest) d t e = rw (t, e) refl
  get_round fuel (node256 h cs) key [] d t e = rw (t, e) refl
  get_round fuel (node256 h cs) key (b ∷ rest) d t e = rw (t, e) refl

  below_next :
      (n : Node V) (rest : Bytes) (next next' : Node V → Bytes → Option V)
      → ((c : Node V) (b : ℕ) (r : Bytes) → rest ≡ b ∷ r → next c r ≡ next' c r)
      → below n rest next ≡ below n rest next'
  unfolding below
  below_next n [] next next' h = refl
  below_next n (b ∷ rest) next next' h = elim (Option-cases (find_child n b)) [
    | inl e ↦ rw (e, below) refl
    | inr (c, e) ↦ rw (e, below) (h c b rest refl)
  ]

  at_node_agree :
      (n : Node V) (key rest : Bytes) (next next' : Node V → Bytes → Option V)
      → ((c : Node V) (b : ℕ) (r : Bytes) → rest ≡ b ∷ r → next c r ≡ next' c r)
      → at_node n key rest next ≡ at_node n key rest next'
  unfolding at_node below
  at_node_agree (leaf k v) key rest next next' h = refl
  at_node_agree (node4 hd ks cs) key rest next next' h =
      below_next (node4 hd ks cs) rest next next' h
  at_node_agree (node16 hd ks cs) key rest next next' h =
      below_next (node16 hd ks cs) rest next next' h
  at_node_agree (node48 hd ks cs) key rest next next' h =
      below_next (node48 hd ks cs) rest next next' h
  at_node_agree (node256 hd cs) key rest next next' h = below_next (node256 hd cs) rest next next' h

  -- The loop of `get` is the walk over what is left of the key.
  pub get_loop-seek :
      (fuel : ℕ) (n : Node V) (key r : Bytes) (d : ℕ)
      → drop d key ≡ r
      → length key ≡ d + length r
      → get_loop fuel n key d ≡ seek fuel key n r
  unfolding get_loop seek
  get_loop-seek zero n key r d e l = refl
  get_loop-seek (suc fuel) n key r d e l =
      let p = partial_of n in
      let shifted : leb (d + length p) (length key) ≡ leb (length p) (length r) = ground arith in
      elim (Option-cases (strip p r)) [
        | inl x ↦
            let test : (leb (d + length p) (length key) && same (take (length p) (drop d key)) p)
                ≡ false =
              rw (shifted, e) (strip_test p r ∙ rw x refl) in
            rw test (sym (seek_stray (suc fuel) key n r x))
        | inr (rest, x) ↦
            let test : (leb (d + length p) (length key) && same (take (length p) (drop d key)) p)
                ≡ true =
              rw (shifted, e) (strip_test p r ∙ rw x refl) in
            get_round fuel n key rest d test (byte_below p r rest key d e x)
            ∙ (at_node_agree n key rest _ (seek fuel key) (λ c b r' same_rest.
                  get_loop-seek fuel c key r' (suc (d + length p))
                    (drop_byte key r' (d + length p) b (drop_below p r rest key d e x ∙ same_rest))
                    (omega (arith, length_of_strip p r rest x, ap length same_rest)))
                ∙ sym (rw (x, seek) refl))
      ]
