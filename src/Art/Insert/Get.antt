-- ===== src/Art/Insert/Get.antt =====
-- `insert` and `get` of a whole tree, in nanograph-art/src/tree.rs.
use nanograph.Prelude.{
  ℕ, zero, suc, ◌+◌, ◌<◌, ◌≡◌, refl, sym, ap, ◌∙◌, Option, none, some, [], ◌∷◌, length, drop,
  if◌then◌else◌, arith,
}
use nanograph.Bytes.{Bytes, same, cmp}
use nanograph.Art.Node.{Node, leaf, new_leaf, partial_of}
use nanograph.Art.Insert.{
  AdaptiveRadixTree, done, panicked, insert_recursive, split_node, common_length, insert, get,
}
use nanograph.Art.Insert.Seek.{
  strip, length_of_strip, seek, seek_leaf, get_loop-seek, drop_below, drop_byte,
}
use nanograph.Art.Insert.Steps.{
  insert_below, insert_inner, insert_stray, strip_longer, common_length_longer,
}
use nanograph.Art.Insert.Made.{split_ends}
use nanograph.Art.Insert.Trees.{IsBytes, IsTree, EndsInside, ends_here, ends_below, Reads}
use nanograph.Art.Insert.Whole.{inserts}

module _ {V : Type 0} where
  abbrev pub RootIsTree : AdaptiveRadixTree V → Type 0
  RootIsTree t = elim t.root [ none ↦ Unit {0} | some n ↦ IsTree V [] n ]

  abbrev pub KeyEndsInside : Bytes → AdaptiveRadixTree V → Type 0
  KeyEndsInside key t = elim t.root [ none ↦ ⊥ | some n ↦ EndsInside V key n ]

  -- `get` of a tree with a root, on the walk over the key.
  get_root :
      (n : Node V) (size b : ℕ) (key : Bytes)
      → get (record { root = some n; size = size }) (b ∷ key)
        ≡ seek (suc (length (b ∷ key))) (b ∷ key) n (b ∷ key)
  unfolding get
  get_root n size b key =
      get_loop-seek (suc (length (b ∷ key))) n (b ∷ key) (b ∷ key) 0 refl (omega arith)

  get_of_Reads :
      (n m : Node V) (size size' b : ℕ) (key : Bytes) (v : V) (q : Bytes)
      → Reads [] (b ∷ key) v n m
      → get (record { root = some m; size = size' }) q
        ≡ (if same (b ∷ key) q then some v else get (record { root = some n; size = size }) q)
  unfolding get cmp
  get_of_Reads n m size size' b key v [] reads = refl
  get_of_Reads n m size size' b key v (z ∷ q) reads =
      get_root m size' z q
      ∙ (reads (suc (length (z ∷ q))) (z ∷ q) (z ∷ q) (omega arith) refl
          ∙ ap (λ o. if same (b ∷ key) (z ∷ q) then some v else o) (sym (get_root n size z q)))

  -- The size after an insertion that found `old`.
  abbrev pub size_after : Option V → ℕ → ℕ
  size_after none size = size + 1
  size_after (some v) size = size

  at_empty :
      (size b : ℕ) (key : Bytes) (v : V)
      → (t' : AdaptiveRadixTree V) × (insert (record { root = none; size = size }) (b ∷ key) v
          ≡ done (get (record { root = none; size = size }) (b ∷ key), t'))
        × (t'.size ≡ size_after (get (record { root = none; size = size }) (b ∷ key)) size)
        × ((q : Bytes)
            → get t' q
              ≡ (if same (b ∷ key) q then some v else get (record { root = none; size = size }) q))
  unfolding insert get new_leaf cmp
  at_empty size b key v =
      (record { root = some (leaf (b ∷ key) v); size = size + 1 }, refl, refl, reads)
    where
      reads :
          (q : Bytes)
          → get (record { root = some (leaf (b ∷ key) v); size = size + 1 }) q
            ≡ (if same (b ∷ key) q then some v else get (record { root = none; size = size }) q)
      reads [] = refl
      reads (z ∷ q) =
          get_root (leaf (b ∷ key) v) (size + 1) z q ∙ seek_leaf _ (z ∷ q) (b ∷ key) v (z ∷ q)

  insert_root :
      (n m : Node V) (size b : ℕ) (key : Bytes) (v : V) (o : Option V)
      → insert_recursive (suc (length (b ∷ key))) n (b ∷ key) 0 v ≡ done (m, o)
      → insert (record { root = some n; size = size }) (b ∷ key) v
        ≡ done (o, record { root = some m; size = size_after o size })
  unfolding insert
  insert_root n m size b key v none e = rw e refl
  insert_root n m size b key v (some w) e = rw e refl

  at_root :
      (root : Option (Node V)) (size b : ℕ) (key : Bytes) (v : V)
      → RootIsTree (record { root = root; size = size })
      → IsBytes (b ∷ key)
      → ¬ KeyEndsInside (b ∷ key) (record { root = root; size = size })
      → (t' : AdaptiveRadixTree V) × (insert (record { root = root; size = size }) (b ∷ key) v
          ≡ done (get (record { root = root; size = size }) (b ∷ key), t'))
        × (t'.size ≡ size_after (get (record { root = root; size = size }) (b ∷ key)) size)
        × ((q : Bytes)
            → get t' q
              ≡ (if same (b ∷ key) q then some v else get (record { root = root; size = size }) q))
  at_root none size b key v h bs ne = at_empty size b key v
  at_root (some n) size b key v h bs ne =
      let (m, made, reads) =
        inserts (suc (length (b ∷ key))) [] (b ∷ key) (b ∷ key) n 0 v h refl refl bs ne
          (omega arith) in
      let found = get_root n size b key in
      (
        record {
          root = some m;
          size = size_after (get (record { root = some n; size = size }) (b ∷ key)) size;
        },
        insert_root n m size b key v _ made ∙ rw found refl,
        refl,
        λ q. get_of_Reads n m size _ b key v q reads,
      )

  -- In a tree whose nodes are indexed and whose leaves stand on the paths of their keys, the
  -- insertion of a key of bytes that is not empty, and does not end within the partial key of a
  -- node, ends without an error or a panic. It returns what was found under the key; the size grows
  -- by one if that is nothing; and afterwards every key finds what it found before, but the
  -- new key, which finds the new value.
  pub get-insert :
      (t : AdaptiveRadixTree V) (b : ℕ) (key : Bytes) (v : V)
      → RootIsTree t
      → IsBytes (b ∷ key)
      → ¬ KeyEndsInside (b ∷ key) t
      → (t' : AdaptiveRadixTree V) × (insert t (b ∷ key) v ≡ done (get t (b ∷ key), t'))
        × (t'.size ≡ size_after (get t (b ∷ key)) t.size)
        × ((q : Bytes) → get t' q ≡ (if same (b ∷ key) q then some v else get t q))
  get-insert t b key v h bs ne = at_root t.root t.size b key v h bs ne

  panics_inside :
      (fuel : ℕ) (n : Node V) (key r : Bytes) (d : ℕ) (v : V)
      → EndsInside V r n
      → drop d key ≡ r
      → length r < fuel
      → insert_recursive fuel n key d v ≡ panicked
  unfolding insert_below
  panics_inside zero n key r d v e dr l = elim l [ ]
  panics_inside (suc fuel) _ key _ d v (ends_here r n a s e) dr l =
      insert_stray fuel n key r d v dr (ap (λ p. strip p r) e ∙ strip_longer r a s)
      ∙ (ap (λ i. split_node n key d i v)
            (ap (λ p. common_length p r) e ∙ common_length_longer r a s)
          ∙ split_ends n key r s d a v e dr)
  panics_inside (suc fuel) _ key _ d v (ends_below r r' n c b i s e inside) dr l =
      let below_c =
        panics_inside fuel c key r' (suc (d + length (partial_of n))) v inside
          (drop_byte key r' (d + length (partial_of n)) b
            (drop_below (partial_of n) r (b ∷ r') key d dr s))
          (omega (arith, length_of_strip (partial_of n) r (b ∷ r') s)) in
      insert_inner fuel n key r (b ∷ r') d v i dr s ∙ rw (e, insert_below, below_c) refl

  -- The insertion of a key, not empty, that ends within the partial key of a node on its way panics:
  -- the split reads the byte of the key behind its end.
  pub insert-KeyEndsInside :
      (n : Node V) (size b : ℕ) (key : Bytes) (v : V)
      → EndsInside V (b ∷ key) n
      → insert (record { root = some n; size = size }) (b ∷ key) v ≡ panicked
  unfolding insert
  insert-KeyEndsInside n size b key v inside =
      rw
        (panics_inside (suc (length (b ∷ key))) n (b ∷ key) (b ∷ key) 0 v inside refl (omega arith))
        refl
