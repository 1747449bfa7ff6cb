-- ===== src/Art/Children/Grown.antt =====
-- `add_child` and `replace_child` of nanograph-art/src/tree.rs on a node of any kind, with growth.
use nanograph.Prelude.{
  ℕ, suc, ◌≤◌, ◌<◌, ◌≡◌, ◌≢◌, inl, inr, refl, sym, ap, ◌∙◌, Option, none, some, ok, false, ltb,
  ◌==◌, if◌then◌else◌, Bool-cases, arith,
}
use nanograph.Art.Node.{
  Node, leaf, node4, node16, node48, node256, NodeHeader, Slot, vacant, occupied, bisect, slot_at,
  as_ref, find_child, partial_of, value_of, is_leaf,
}
use nanograph.Art.Children.{
  add_child, add_child_to_node16, add_child_to_node48, add_child_to_node256, replace_child,
  grow_node4_keys, grow_children, grow_node16_index, grow_node48_loop,
}
use nanograph.Art.Children.Arrays.{
  Ascending, Finds, Ascending-Distinct, Finds-agree, Finds-unique, find_byte-Finds, bisect-Finds,
}
use nanograph.Art.Children.Laws.{Filled, slot_at-replace_at, grow_node4_keys_lem, grow_children_lem}
use nanograph.Art.Children.Wide.{grow_node16_index_lem, grow_node48_loop_lem}
use nanograph.Art.Children.Found.{
  IsIndexed, Has, add_to_node4, add_to_node16, add_to_node48, add_to_node256,
}

module _ {V : Type 0} where
  Has-grown :
      (n g : Node V) (b : ℕ) (c m : Node V)
      → partial_of g ≡ partial_of n
      → value_of g ≡ value_of n
      → ((q : ℕ) → find_child g q ≡ find_child n q)
      → Has g b c m
      → Has n b c m
  Has-grown n g b c m p v f has = record {
    inner = has.inner;
    same_partial = has.same_partial ∙ p;
    same_value = has.same_value ∙ v;
    children = λ q. has.children q ∙ rw (f q);
  }

  slot_at_grown :
      (n : ℕ) (cs : ℕ → Slot V) (ks : ℕ → ℕ) (q : ℕ) (o : Option ℕ)
      → Finds ks n q o
      → slot_at (grow_children n cs) o ≡ slot_at cs o
  slot_at_grown n cs ks q none f = refl
  slot_at_grown n cs ks q (some j) f = rw (grow_children_lem n cs j f.0)

  Filled-grown : (n : ℕ) (cs : ℕ → Slot V) → Filled n cs → Filled n (grow_children n cs)
  Filled-grown n cs f i l = let (c, e) = f i l in (c, grow_children_lem n cs i l ∙ e)

  -- A `Node4` with ascending keys is read the same after it has grown.
  pub grown_node4 :
      (h : NodeHeader V) (ks : ℕ → ℕ) (cs : ℕ → Slot V)
      → Ascending h.num_children ks
      → (q : ℕ)
      → find_child
          (node16 h (grow_node4_keys h.num_children ks) (grow_children h.num_children cs))
          q
        ≡ find_child (node4 h ks cs) q
  unfolding find_child
  grown_node4 h ks cs s q =
      let n = h.num_children in
      let gks = grow_node4_keys n ks in
      let agree : (j : ℕ) → j < n → ks j ≡ gks j = λ j l. sym (grow_node4_keys_lem n ks j l) in
      let gs : Ascending n gks = λ i j x y.
        rw (grow_node4_keys_lem n ks i (omega arith), grow_node4_keys_lem n ks j y) (s i j x y) in
      let found = bisect-Finds gks n q gs in
      let found_before = Finds-agree gks ks n q _ agree found in
      slot_at_grown n cs ks q _ found_before
      ∙ ap (slot_at cs) (
          Finds-unique ks n q _ _ (Ascending-Distinct n ks s) found_before (find_byte-Finds ks n q))

  add_to_full_node4 :
      (h : NodeHeader V) (ks : ℕ → ℕ) (cs : ℕ → Slot V) (b : ℕ) (c : Node V)
      → Filled h.num_children cs
      → Ascending h.num_children ks
      → find_child (node4 h ks cs) b ≡ none
      → Has (node4 h ks cs) b c (
          add_child_to_node16 h
            (grow_node4_keys h.num_children ks)
            (grow_children h.num_children cs)
            b
            c)
  add_to_full_node4 h ks cs b c f s e =
      let n = h.num_children in
      let gks = grow_node4_keys n ks in
      let gcs = grow_children n cs in
      let gs : Ascending n gks = λ i j x y.
        rw (grow_node4_keys_lem n ks i (omega arith), grow_node4_keys_lem n ks j y) (s i j x y) in
      let same = grown_node4 h ks cs s in
      Has-grown (node4 h ks cs) (node16 h gks gcs) b c _ refl refl (λ q. same q)
        (add_to_node16 h gks gcs b c (Filled-grown n cs f) gs (same b ∙ e))

  grown_node16 :
      (h : NodeHeader V) (ks : ℕ → ℕ) (cs : ℕ → Slot V)
      → h.num_children ≤ 16
      → Ascending h.num_children ks
      → (q : ℕ)
      → find_child
          (node48 h (grow_node16_index h.num_children ks) (grow_children h.num_children cs))
          q
        ≡ find_child (node16 h ks cs) q
  unfolding find_child
  grown_node16 h ks cs l s q =
      let n = h.num_children in
      go (bisect (suc n) ks q 0 n) (bisect-Finds ks n q s) (
        grow_node16_index_lem ks n q _ (Ascending-Distinct n ks s) (omega arith)
          (bisect-Finds ks n q s))
    where
      go :
          (o : Option ℕ)
          → Finds ks h.num_children q o
          → grow_node16_index h.num_children ks q ≡ elim o [ none ↦ 255 | some j ↦ j ]
          → (if grow_node16_index h.num_children ks q == 255
              then none
              else as_ref (grow_children h.num_children cs (grow_node16_index h.num_children ks q)))
            ≡ slot_at cs o
      go none f e = rw e refl
      go (some j) f e =
          rw (e, grow_children_lem h.num_children cs j f.0)
            (let other : (j == 255) ≡ false = ground (arith, f.0, l) in rw other refl)

  grown_node48 :
      (h : NodeHeader V) (is : ℕ → ℕ) (cs : ℕ → Slot V) (q : ℕ)
      → ((b : ℕ) → 256 ≤ b → is b ≡ 255)
      → find_child (node256 h (grow_node48_loop is cs 0 256 (λ i. vacant))) q
        ≡ find_child (node48 h is cs) q
  unfolding find_child
  grown_node48 h is cs q far =
      ap as_ref (grow_node48_loop_lem is cs 0 256 (λ i. vacant) q) ∙ ground (arith, far q)

  add_to_full_node16 :
      (h : NodeHeader V) (ks : ℕ → ℕ) (cs : ℕ → Slot V) (b : ℕ) (c : Node V)
      → h.num_children ≤ 16
      → Ascending h.num_children ks
      → Has (node16 h ks cs) b c (
          add_child_to_node48 h
            (grow_node16_index h.num_children ks)
            (grow_children h.num_children cs)
            b
            c)
  add_to_full_node16 h ks cs b c l s =
      let n = h.num_children in
      let is = grow_node16_index n ks in
      Has-grown (node16 h ks cs) (node48 h is (grow_children n cs)) b c _ refl refl
        (λ q. grown_node16 h ks cs l s q)
        (add_to_node48 h is (grow_children n cs) b c (omega arith) (λ q x.
          in_range q (bisect (suc n) ks q 0 n) (bisect-Finds ks n q s)
            (grow_node16_index_lem ks n q _ (Ascending-Distinct n ks s) (omega arith)
              (bisect-Finds ks n q s))
            x))
    where
      in_range :
          (q : ℕ) (o : Option ℕ)
          → Finds ks h.num_children q o
          → grow_node16_index h.num_children ks q ≡ elim o [ none ↦ 255 | some j ↦ j ]
          → grow_node16_index h.num_children ks q ≢ 255
          → grow_node16_index h.num_children ks q < h.num_children
      in_range q none f e x = absurd (x e)
      in_range q (some j) f e x = rw e (f.0)

  add_to_full_node48 :
      (h : NodeHeader V) (is : ℕ → ℕ) (cs : ℕ → Slot V) (b : ℕ) (c : Node V)
      → ((b : ℕ) → 256 ≤ b → is b ≡ 255)
      → Has
          (node48 h is cs)
          b
          c
          (add_child_to_node256 h (grow_node48_loop is cs 0 256 (λ i. vacant)) b c)
  add_to_full_node48 h is cs b c far =
      Has-grown (node48 h is cs) (node256 h (grow_node48_loop is cs 0 256 (λ i. vacant))) b c _ refl
        refl (λ q. grown_node48 h is cs q far) (add_to_node256 h _ b c)

  occupied_child :
      (h : NodeHeader V) (cs : ℕ → Slot V) (b : ℕ) (c : Node V)
      → (c : Node V) × (cs b ≡ occupied c)
      → find_child (node256 h cs) b ≡ none
      → ⊥
  unfolding find_child
  occupied_child h cs b c (d, full) e = cc

  -- Where a byte has no child, `add_child` ends without an error, and gives it one.
  pub add_child-Has :
      (n : Node V) (b : ℕ) (c : Node V)
      → is_leaf n ≡ false
      → IsIndexed n
      → b < 256
      → find_child n b ≡ none
      → (m : Node V) × (add_child n b c ≡ ok m) × Has n b c m
  unfolding add_child
  add_child-Has (leaf k v) b c i x l e = absurd (cc)
  add_child-Has (node4 h ks cs) b c i (x, f, d, full) l e =
      elim (Bool-cases (ltb h.num_children 4)) [
        | inl t ↦ (_, rw t refl, add_to_node4 h ks cs b c f d e)
        | inr t ↦
            let four : h.num_children ≡ 4 = ground arith in
            (
              _,
              rw t refl,
              add_to_full_node4 h ks cs b c f (λ i j y z. full four i j y (omega arith)) e,
            )
      ]
  add_child-Has (node16 h ks cs) b c i (x, f, s) l e = elim (Bool-cases (ltb h.num_children 16)) [
    | inl t ↦ (_, rw t refl, add_to_node16 h ks cs b c f s e)
    | inr t ↦ (_, rw t refl, add_to_full_node16 h ks cs b c x s)
  ]
  add_child-Has (node48 h is cs) b c i (x, f, r, far, u) l e =
      elim (Bool-cases (ltb h.num_children 48)) [
        | inl t ↦ (_, rw t refl, add_to_node48 h is cs b c (ground arith) r)
        | inr t ↦ (_, rw t refl, add_to_full_node48 h is cs b c far)
      ]
  add_child-Has (node256 h cs) b c i (inl x) l e = (_, ground arith, add_to_node256 h cs b c)
  add_child-Has (node256 h cs) b c i (inr x) l e = absurd (occupied_child h cs b c (x b l) e)

  -- Where a byte has a child, `replace_child` puts the other in its place.
  pub replace_child-Has :
      (n : Node V) (b : ℕ) (c c' : Node V)
      → is_leaf n ≡ false
      → IsIndexed n
      → find_child n b ≡ some c
      → Has n b c' (replace_child n b c')
  unfolding replace_child find_child
  replace_child-Has (leaf k v) b c c' i x e = absurd (cc)
  replace_child-Has (node4 h ks cs) b c c' i (x, f, d, full) e =
      let n = h.num_children in
      record {
        inner = refl;
        same_partial = refl;
        same_value = refl;
        children = λ q.
            slot_at-replace_at ks cs n b q c c' _ _ _ d (find_byte-Finds ks n b)
              (find_byte-Finds ks n b) (find_byte-Finds ks n q) e;
      }
  replace_child-Has (node16 h ks cs) b c c' i (x, f, s) e =
      let n = h.num_children in
      record {
        inner = refl;
        same_partial = refl;
        same_value = refl;
        children = λ q.
            slot_at-replace_at ks cs n b q c c' _ _ _ (Ascending-Distinct n ks s)
              (find_byte-Finds ks n b) (bisect-Finds ks n b s) (bisect-Finds ks n q s) e;
      }
  replace_child-Has (node48 h is cs) b c c' i (x, f, r, far, u) e = record {
    inner = refl;
    same_partial = refl;
    same_value = refl;
    children = λ q. ground (arith, u b q);
  }
  replace_child-Has (node256 h cs) b c c' i x e = record {
    inner = refl;
    same_partial = refl;
    same_value = refl;
    children = λ q. ground arith;
  }
