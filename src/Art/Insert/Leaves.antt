-- ===== src/Art/Insert/Leaves.antt =====
-- An insertion at a leaf, in nanograph-art/src/tree.rs.
use nanograph.Prelude.{
  ℕ, zero, suc, ◌+◌, ◌≡◌, ◌≢◌, inl, inr, refl, sym, ap, ◌∙◌, none, some, true, false, [], ◌∷◌, ◌++◌,
  length, drop, length-append, if◌then◌else◌, Bool-cases, Option-cases, arith,
}
use nanograph.Prelude.Slices.{drop-append_at}
use mathlib.Core.List.{append-nil}
use nanograph.Bytes.{Bytes, same, cmp_refl, eq_of_cmp}
use nanograph.Art.Node.{Node, leaf, new_leaf, matches}
use nanograph.Art.Insert.{done, common_length, insert_recursive, create_inner_node_from_leaves}
use nanograph.Art.Insert.Seek.{
  strip, strip_self, append_of_strip, seek, seek_leaf, common_length_all,
}
use nanograph.Art.Insert.Steps.{ends, parts, apart}
use nanograph.Art.Insert.Fresh.{same_shared}
use nanograph.Art.Insert.Split.{parted, stemmed, seek-parted, seek-stemmed}
use nanograph.Art.Insert.Made.{create_parts, create_before, create_behind}
use nanograph.Art.Insert.Trees.{Reads}

pub eq_of_same : (a b : Bytes) → same a b ≡ true → a ≡ b
eq_of_same a b h = ground (arith, eq_of_cmp a b)

pub same_refl : (a : Bytes) → same a a ≡ true
same_refl a = ground (arith, cmp_refl a)

longer_not_same :
    (x y : Bytes) (b : ℕ) (rq : Bytes) → same x rq ≡ true → same (x ++ b ∷ y) rq ≡ false
longer_not_same x y b rq h = elim (Bool-cases (same (x ++ b ∷ y) rq)) [
  | inr f ↦ f
  | inl t ↦
      let e : x ++ b ∷ y ≡ x = eq_of_same (x ++ b ∷ y) rq t ∙ sym (eq_of_same x rq h) in
      absurd (omega (arith, ap length e, length-append x (b ∷ y)))
]

common_length_longer : (x y : Bytes) → common_length x (x ++ y) ≡ length x
common_length_longer x y = common_length_all x (x ++ y) y (strip_self x y)

module _ {V : Type 0} where
  insert_leaf :
      (fuel : ℕ) (k key : Bytes) (w v : V) (d : ℕ)
      → insert_recursive (suc fuel) (leaf k w) key d v ≡ (
          if same k key
          then done (leaf key v, some w)
          else create_inner_node_from_leaves k w key d v)
  unfolding insert_recursive matches new_leaf common_length
  insert_leaf fuel k key w v d =
      let here : d + 0 ≡ d = omega arith in
      ap
        (λ i.
          if same k key
          then done (leaf key v, some w)
          else create_inner_node_from_leaves k w key i v)
        here

  -- What a key finds in a leaf, by what is left of it behind the path.
  leaf_below :
      (path kr rq k qk : Bytes) (w : V) (g : ℕ)
      → k ≡ path ++ kr
      → qk ≡ path ++ rq
      → seek (suc g) qk (leaf k w) rq ≡ (if same kr rq then some w else none)
  leaf_below path kr rq k qk w g ek eq =
      seek_leaf g qk k w rq
      ∙ ap (λ t. if t then some w else none) (same_shared path kr rq k qk ek eq)

  Reads-parts :
      (path k key kr r : Bytes) (w v : V) (x : Bytes) (a b : ℕ) (k' r' : Bytes)
      → k ≡ path ++ kr
      → key ≡ path ++ r
      → kr ≡ x ++ a ∷ k'
      → r ≡ x ++ b ∷ r'
      → a ≢ b
      → Reads path r v (leaf k w) (parted x a (leaf k w) b (leaf key v))
  Reads-parts path k key kr r w v x a b k' r' ek er e f ne zero qk rq l eq = elim l [ ]
  Reads-parts path k key kr r w v x a b k' r' ek er e f ne (suc g) qk rq l eq =
      seek-parted g qk key k v w x a b k' r' rq ne (omega arith)
        (same_shared path r rq key qk er eq ∙ ap (λ z. same z rq) f)
        (same_shared path kr rq k qk ek eq ∙ ap (λ z. same z rq) e)
      ∙ rw (leaf_below path kr rq k qk w g ek eq, e, f) refl

  Reads-behind :
      (path k key kr r : Bytes) (w v : V) (a : ℕ) (k' : Bytes)
      → k ≡ path ++ kr
      → kr ≡ r ++ a ∷ k'
      → Reads path r v (leaf k w) (stemmed r v a (leaf k w))
  Reads-behind path k key kr r w v a k' ek e zero qk rq l eq = elim l [ ]
  Reads-behind path k key kr r w v a k' ek e (suc g) qk rq l eq =
      seek-stemmed g qk k w v r a k' rq (omega arith)
        (same_shared path kr rq k qk ek eq ∙ ap (λ z. same z rq) e)
      ∙ rw (leaf_below path kr rq k qk w g ek eq, e, append-nil r) refl

  Reads-before :
      (path k key kr r : Bytes) (w v : V) (b : ℕ) (r' : Bytes)
      → k ≡ path ++ kr
      → key ≡ path ++ r
      → r ≡ kr ++ b ∷ r'
      → Reads path r v (leaf k w) (stemmed kr w b (leaf key v))
  Reads-before path k key kr r w v b r' ek er f zero qk rq l eq = elim l [ ]
  Reads-before path k key kr r w v b r' ek er f (suc g) qk rq l eq =
      seek-stemmed g qk key v w kr b r' rq (omega arith)
        (same_shared path r rq key qk er eq ∙ ap (λ z. same z rq) f)
      ∙ rw (leaf_below path kr rq k qk w g ek eq, f, append-nil kr)
          (elim (Bool-cases (same kr rq)) [
            | inl t ↦ rw (t, longer_not_same kr r' b rq t) refl
            | inr t ↦ rw t refl
          ])

  -- What the two keys below the path become.
  create-Reads :
      (path k key kr r : Bytes) (w v : V) (d : ℕ)
      → k ≡ path ++ kr
      → key ≡ path ++ r
      → d ≡ length path
      → same kr r ≡ false
      → (m : Node V) × (create_inner_node_from_leaves k w key d v ≡ done (m, none))
        × Reads path r v (leaf k w) m
  create-Reads path k key kr r w v d ek er ed ne =
      let dk : drop d k ≡ kr = rw ek (drop-append_at d path kr ed) in
      let dr : drop d key ≡ r = rw er (drop-append_at d path r ed) in
      elim (Option-cases (strip kr r)) [
        | inr ([], s) ↦
            let e : r ≡ kr = append_of_strip kr r [] s ∙ append-nil kr in
            let t : same kr r ≡ true = rw e (same_refl kr) in absurd (cc)
        | inr (b ∷ r', s) ↦
            let f = append_of_strip kr r (b ∷ r') s in
            (
              stemmed kr w b (leaf key v),
              create_before k key kr r' d b w v dk
                  (omega (arith, ap length ek, length-append path kr)) (dr ∙ f)
                  (common_length_longer kr (b ∷ r')),
              Reads-before path k key kr r w v b r' ek er f,
            )
        | inl s ↦ elim (apart kr r s) [
          | ends _ a k' _ e c ↦ (
            stemmed r v a (leaf k w),
            create_behind k key r k' d a w v (dk ∙ e) dr
                (omega (arith, ap length er, length-append path r))
                (ap (λ z. common_length z r) (sym e) ∙ c),
            Reads-behind path k key kr r w v a k' ek e,
          )
          | parts x a b k' r' _ _ e f parted_at c ↦ (
            parted x a (leaf k w) b (leaf key v),
            create_parts k key x k' r' d a b w v (dk ∙ e) (dr ∙ f) (
                ap (λ z. common_length z (x ++ b ∷ r')) (sym e)
                ∙ (ap (common_length kr) (sym f) ∙ c)),
            Reads-parts path k key kr r w v x a b k' r' ek er e f parted_at,
          )
        ]
      ]

  Reads-same :
      (path k key kr r : Bytes) (w v : V)
      → k ≡ path ++ kr
      → key ≡ path ++ r
      → kr ≡ r
      → Reads path r v (leaf k w) (leaf key v)
  Reads-same path k key kr r w v ek er e zero qk rq l eq = elim l [ ]
  Reads-same path k key kr r w v ek er e (suc g) qk rq l eq =
      leaf_below path r rq key qk v g er eq
      ∙ rw (leaf_below path kr rq k qk w g ek eq, e)
          (elim (Bool-cases (same r rq)) [ inl t ↦ rw t refl | inr t ↦ rw t refl ])

  -- The insertion at a leaf ends; it returns what the key found there, and every key finds what it
  -- should in the node that stands there afterwards.
  pub insert_leaf-Reads :
      (fuel : ℕ) (path k key kr r : Bytes) (w v : V) (d : ℕ)
      → k ≡ path ++ kr
      → key ≡ path ++ r
      → d ≡ length path
      → (m : Node V) × (insert_recursive (suc fuel) (leaf k w) key d v
          ≡ done (m, seek (suc fuel) key (leaf k w) r))
        × Reads path r v (leaf k w) m
  insert_leaf-Reads fuel path k key kr r w v d ek er ed =
      let shared = same_shared path kr r k key ek er in
      let old = leaf_below path kr r k key w fuel ek er in
      elim (Bool-cases (same kr r)) [
        | inl t ↦ (
          leaf key v,
          insert_leaf fuel k key w v d ∙ rw (shared, old, t) refl,
          Reads-same path k key kr r w v ek er (eq_of_same kr r t),
        )
        | inr t ↦
            let (m, made, reads) = create-Reads path k key kr r w v d ek er ed t in
            (m, insert_leaf fuel k key w v d ∙ rw (shared, old, t, made) refl, reads)
      ]
