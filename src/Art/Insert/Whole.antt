-- ===== src/Art/Insert/Whole.antt =====
-- What `insert` of nanograph-art/src/tree.rs does to what `get` finds, and when it panics.
use nanograph.Prelude.{
  ℕ, zero, suc, ◌+◌, ◌<◌, ◌≡◌, ◌≢◌, inl, inr, refl, sym, ap, subst, ◌∙◌, none, some, false, [], ◌∷◌,
  ◌++◌, length, drop, length-append, if◌then◌else◌, Option-cases, arith,
}
use nanograph.Prelude.Slices.{drop-append_at}
use mathlib.Core.List.{append_assoc}
use nanograph.Bytes.{Bytes, same, cmp}
use nanograph.BTree.Entries.{All-append}
use nanograph.Art.Node.{Node, leaf, new_leaf, is_leaf, partial_of, find_child}
use nanograph.Art.Children.{replace_child, set_node_value, update_partial}
use nanograph.Art.Children.Found.{IsIndexed}
use nanograph.Art.Children.Grown.{add_child-Has, replace_child-Has}
use nanograph.Art.Insert.{done, insert_recursive, split_node}
use nanograph.Art.Insert.Seek.{
  strip, append_of_strip, length_of_strip, below, below_child, below_no_child, seek, seek_inner,
  seek_stray, seek_leaf,
}
use nanograph.Art.Insert.Steps.{ends, parts, apart, insert_below, insert_inner, insert_stray}
use nanograph.Art.Insert.Fresh.{same_shared, same_append}
use nanograph.Art.Insert.Split.{parted, seek_split}
use nanograph.Art.Insert.Made.{split_parts}
use nanograph.Art.Insert.Trees.{
  IsBytes, IsTree, leaf_tree, inner_tree, EndsInside, ends_here, ends_below, Reads,
}
use nanograph.Art.Insert.Leaves.{insert_leaf-Reads}
use nanograph.Art.Insert.Refine.{Reads-set, Reads-below}

same_cons : (b : ℕ) (x y : Bytes) → same (b ∷ x) (b ∷ y) ≡ same x y
unfolding cmp
same_cons b x y = ground arith

regroup : (path p : Bytes) (b : ℕ) (r : Bytes) → path ++ (p ++ b ∷ r) ≡ (path ++ (p ++ b ∷ [])) ++ r
regroup path p b r = simp append_assoc

module _ {V : Type 0} where
  -- An insertion below a path that ends, with what the key found there.
  abbrev pub Inserts : Bytes → ℕ → Node V → Bytes → Bytes → ℕ → V → Type 0
  Inserts path fuel n key r d v =
      (m : Node V) × (insert_recursive fuel n key d v ≡ done (m, seek fuel key n r))
      × Reads path r v n m

  Inserts-split :
      (path key r x : Bytes) (fuel : ℕ) (n : Node V) (a b : ℕ) (p' r' : Bytes) (d : ℕ) (v : V)
      → is_leaf n ≡ false
      → key ≡ path ++ r
      → drop d key ≡ r
      → strip (partial_of n) r ≡ none
      → partial_of n ≡ x ++ a ∷ p'
      → r ≡ x ++ b ∷ r'
      → a ≢ b
      → insert_recursive (suc fuel) n key d v
        ≡ done (parted x a (update_partial n p') b (leaf key v), none)
      → Inserts path (suc fuel) n key r d v
  Inserts-split path key r x fuel n a b p' r' d v i er dr s e f ne made = (
    parted x a (update_partial n p') b (leaf key v),
    made
        ∙ ap (λ o. done (parted x a (update_partial n p') b (leaf key v), o))
            (sym (seek_stray (suc fuel) key n r s)),
    reads,
  )
    where
      reads : Reads path r v n (parted x a (update_partial n p') b (leaf key v))
      reads zero qk rq l eq = elim l [ ]
      reads (suc g) qk rq l eq =
          seek_split g qk key v n x a b p' r' rq i ne e (omega arith)
            (same_shared path r rq key qk er eq ∙ ap (λ z. same z rq) f)
          ∙ rw f refl

  Inserts-set :
      (path key r : Bytes) (fuel : ℕ) (n : Node V) (d : ℕ) (v : V)
      → is_leaf n ≡ false
      → drop d key ≡ r
      → strip (partial_of n) r ≡ some []
      → Inserts path (suc fuel) n key r d v
  unfolding insert_below below
  Inserts-set path key r fuel n d v i dr s = (
    set_node_value n v,
    insert_inner fuel n key r [] d v i dr s
        ∙ ap (λ o. done (set_node_value n v, o)) (sym (seek_inner fuel key n r [] i s)),
    Reads-set path r v n i s,
  )

  Inserts-new :
      (path key r r' : Bytes) (fuel : ℕ) (n : Node V) (b d : ℕ) (v : V)
      → is_leaf n ≡ false
      → IsIndexed n
      → b < 256
      → key ≡ path ++ r
      → drop d key ≡ r
      → strip (partial_of n) r ≡ some (b ∷ r')
      → find_child n b ≡ none
      → Inserts path (suc fuel) n key r d v
  unfolding insert_below new_leaf
  Inserts-new path key r r' fuel n b d v i x l er dr s e =
      let f = append_of_strip (partial_of n) r (b ∷ r') s in
      let (m, added, has) = add_child-Has n b (leaf key v) i x l e in
      let old : seek (suc fuel) key n r ≡ none =
        seek_inner fuel key n r (b ∷ r') i s ∙ below_no_child n b r' (seek fuel key) e in
      (
        m,
        insert_inner fuel n key r (b ∷ r') d v i dr s ∙ rw (e, insert_below, added, old) refl,
        Reads-below path r r' v n (leaf key v) m b i has f found,
      )
    where
      found :
          (g : ℕ) (qk rest : Bytes)
          → length rest < g
          → qk ≡ path ++ (partial_of n ++ b ∷ rest)
          → seek g qk (leaf key v) rest
            ≡ (if same r' rest then some v else below n (b ∷ rest) (seek g qk))
      found zero qk rest k eq = elim k [ ]
      found (suc g) qk rest k eq =
          let f = append_of_strip (partial_of n) r (b ∷ r') s in
          let shared : same key qk ≡ same r' rest =
            same_shared path r (partial_of n ++ b ∷ rest) key qk er eq
            ∙ (ap (λ z. same z (partial_of n ++ b ∷ rest)) f
                ∙ (same_append (partial_of n) (b ∷ r') (b ∷ rest) ∙ same_cons b r' rest)) in
          seek_leaf g qk key v rest ∙ rw (shared, below_no_child n b rest (seek (suc g) qk) e) refl

  Inserts-child :
      (path key r r' : Bytes) (fuel : ℕ) (n c : Node V) (b d : ℕ) (v : V)
      → is_leaf n ≡ false
      → IsIndexed n
      → drop d key ≡ r
      → strip (partial_of n) r ≡ some (b ∷ r')
      → find_child n b ≡ some c
      → Inserts (path ++ (partial_of n ++ b ∷ [])) fuel c key r' (suc (d + length (partial_of n))) v
      → Inserts path (suc fuel) n key r d v
  unfolding insert_below
  Inserts-child path key r r' fuel n c b d v i x dr s e (c', made, reads) =
      let p = partial_of n in
      let f = append_of_strip p r (b ∷ r') s in
      let has = replace_child-Has n b c c' i x e in
      let old : seek (suc fuel) key n r ≡ seek fuel key c r' =
        seek_inner fuel key n r (b ∷ r') i s ∙ below_child n c b r' (seek fuel key) e in
      (
        replace_child n b c',
        insert_inner fuel n key r (b ∷ r') d v i dr s ∙ rw (e, insert_below, made, old) refl,
        Reads-below path r r' v n c' (replace_child n b c') b i has f (λ g qk rest k eq.
            reads g qk rest k (eq ∙ regroup path p b rest)
            ∙ rw (below_child n c b rest (seek g qk) e) refl),
      )

  -- Where the key does not end within a partial key.
  pub inserts :
      (fuel : ℕ) (path key r : Bytes) (n : Node V) (d : ℕ) (v : V)
      → IsTree V path n
      → key ≡ path ++ r
      → d ≡ length path
      → IsBytes r
      → ¬ EndsInside V r n
      → length r < fuel
      → Inserts path fuel n key r d v
  inserts zero path key r n d v t er ed bs ne l = elim l [ ]
  inserts (suc fuel) path key r _ d v (leaf_tree _ k kr w ek) er ed bs ne l =
      insert_leaf-Reads fuel path k key kr r w v d ek er ed
  inserts (suc fuel) path key r _ d v (inner_tree _ n i x sub) er ed bs ne l =
      let p = partial_of n in
      let dr : drop d key ≡ r = ap (drop d) er ∙ drop-append_at d path r ed in
      elim (Option-cases (strip p r)) [
        | inl s ↦ elim (apart p r s) [
          | ends _ a s' _ e c ↦ absurd (ne (ends_here r n a s' e))
          | parts y a b p' r' _ _ e f other c ↦
              Inserts-split path key r y fuel n a b p' r' d v i er dr s e f other (
                insert_stray fuel n key r d v dr s
                ∙ (ap (λ z. split_node n key d z v) c
                    ∙ split_parts n key y p' r' d a b v e (dr ∙ f)))
        ]
        | inr ([], s) ↦ Inserts-set path key r fuel n d v i dr s
        | inr (b ∷ r', s) ↦
            let f = append_of_strip p r (b ∷ r') s in
            let bytes = (All-append (λ b. b < 256) p (b ∷ r') (subst IsBytes f bs)).1 in
            elim (Option-cases (find_child n b)) [
              | inl e ↦ Inserts-new path key r r' fuel n b d v i x bytes.0 er dr s e
              | inr (c, e) ↦ Inserts-child path key r r' fuel n c b d v i x dr s e (
                  inserts fuel (path ++ (p ++ b ∷ [])) key r' c (suc (d + length p)) v
                    (sub b c bytes.0 e) (er ∙ (ap (λ z. path ++ z) f ∙ regroup path p b r'))
                    (omega (arith, length-append path (p ++ b ∷ []), length-append p (b ∷ [])))
                    bytes.1 (λ inside. ne (ends_below r r' n c b i s e inside))
                    (omega (arith, length_of_strip p r (b ∷ r') s)))
            ]
      ]
