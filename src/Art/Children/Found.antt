-- ===== src/Art/Children/Found.antt =====
-- `find_child` after `add_child` and `replace_child`, of nanograph-art/src/tree.rs and node.rs, on
-- every kind of node.
use nanograph.Prelude.{
  ℕ, ◌+◌, ◌≤◌, ◌<◌, ◌≡◌, ◌≢◌, ◌⊎◌, inl, inr, refl, sym, ◌∙◌, none, some, false, ◌==◌, if◌then◌else◌,
  Bool-cases, arith,
}
use nanograph.Art.Node.{
  Node, leaf, node4, node16, node48, node256, NodeHeader, Slot, occupied, find_child, partial_of,
  value_of, is_leaf,
}
use nanograph.Art.Children.{
  add_child_to_node4, add_child_to_node16, add_child_to_node48, add_child_to_node256,
}
use nanograph.Art.Children.Arrays.{
  Distinct, Ascending, Ascending-Distinct, find_byte-Finds, bisect-Finds,
}
use nanograph.Art.Children.Laws.{Filled, Filled-absent, slot_at-put_in, shift_right-Ascending}

module _ {V : Type 0} where
  -- A node in whose arrays the lookups work: the places up to the number of children are filled, no
  -- key byte stands twice, the keys of a `Node16`, and of a `Node4` that is full, ascend, and the
  -- index of a `Node48` leads to its places, each from one byte.
  abbrev pub IsIndexed : Node V → Type 0
  IsIndexed (leaf k v) = Unit {0}
  IsIndexed (node4 h ks cs) =
      (h.num_children ≤ 4)
      × Filled h.num_children cs
      × Distinct h.num_children ks
      × (h.num_children ≡ 4 → Ascending 4 ks)
  IsIndexed (node16 h ks cs) =
      (h.num_children ≤ 16) × Filled h.num_children cs × Ascending h.num_children ks
  IsIndexed (node48 h is cs) =
      (h.num_children ≤ 48)
      × Filled h.num_children cs
      × ((b : ℕ) → is b ≢ 255 → is b < h.num_children)
      × ((b : ℕ) → 256 ≤ b → is b ≡ 255)
      × ((b b' : ℕ) → is b ≢ 255 → is b ≡ is b' → b ≡ b')
  IsIndexed (node256 h cs) =
      (h.num_children < 256) ⊎ ((b : ℕ) → b < 256 → (c : Node V) × (cs b ≡ occupied c))

  -- The node `m` is `n` with the child `c` at the byte `b`, for every byte.
  pub record Has (n : Node V) (b : ℕ) (c : Node V) (m : Node V) : Type 0 where
    pub inner : is_leaf m ≡ false
    pub same_partial : partial_of m ≡ partial_of n
    pub same_value : value_of m ≡ value_of n
    pub children : (q : ℕ) → find_child m q ≡ (if b == q then some c else find_child n q)

  pub add_to_node4 :
      (h : NodeHeader V) (ks : ℕ → ℕ) (cs : ℕ → Slot V) (b : ℕ) (c : Node V)
      → Filled h.num_children cs
      → Distinct h.num_children ks
      → find_child (node4 h ks cs) b ≡ none
      → Has (node4 h ks cs) b c (add_child_to_node4 h ks cs b c)
  unfolding add_child_to_node4 find_child
  add_to_node4 h ks cs b c f d e =
      let n = h.num_children in
      let new = Filled-absent ks cs n b _ f (find_byte-Finds ks n b) e in
      record {
        inner = refl;
        same_partial = refl;
        same_value = refl;
        children = λ q.
            slot_at-put_in ks cs n b q c _ _ d new (find_byte-Finds ks n q)
              (find_byte-Finds _ (n + 1) q);
      }

  pub add_to_node16 :
      (h : NodeHeader V) (ks : ℕ → ℕ) (cs : ℕ → Slot V) (b : ℕ) (c : Node V)
      → Filled h.num_children cs
      → Ascending h.num_children ks
      → find_child (node16 h ks cs) b ≡ none
      → Has (node16 h ks cs) b c (add_child_to_node16 h ks cs b c)
  unfolding add_child_to_node16 find_child
  add_to_node16 h ks cs b c f s e =
      let n = h.num_children in
      let new = Filled-absent ks cs n b _ f (bisect-Finds ks n b s) e in
      record {
        inner = refl;
        same_partial = refl;
        same_value = refl;
        children = λ q.
            slot_at-put_in ks cs n b q c _ _ (Ascending-Distinct n ks s) new (bisect-Finds ks n q s)
              (bisect-Finds _ (n + 1) q (shift_right-Ascending ks n b s new));
      }

  -- A byte without a child has no index.
  pub absent_index :
      (h : NodeHeader V) (is : ℕ → ℕ) (cs : ℕ → Slot V) (b : ℕ)
      → Filled h.num_children cs
      → ((b : ℕ) → is b ≢ 255 → is b < h.num_children)
      → find_child (node48 h is cs) b ≡ none
      → is b ≡ 255
  unfolding find_child
  absent_index h is cs b f r e = elim (Bool-cases (is b == 255)) [
    | inl t ↦ ground arith
    | inr t ↦
        let (c, full) = f (is b) (r b (ground arith)) in
        let found : some c ≡ none = sym (rw (t, full) refl) ∙ e in absurd (cc)
  ]

  pub add_to_node48 :
      (h : NodeHeader V) (is : ℕ → ℕ) (cs : ℕ → Slot V) (b : ℕ) (c : Node V)
      → h.num_children < 48
      → ((b : ℕ) → is b ≢ 255 → is b < h.num_children)
      → Has (node48 h is cs) b c (add_child_to_node48 h is cs b c)
  unfolding add_child_to_node48 find_child
  add_to_node48 h is cs b c l r = record {
    inner = refl;
    same_partial = refl;
    same_value = refl;
    children = λ q. ground (arith, r q);
  }

  pub add_to_node256 :
      (h : NodeHeader V) (cs : ℕ → Slot V) (b : ℕ) (c : Node V)
      → Has (node256 h cs) b c (add_child_to_node256 h cs b c)
  unfolding add_child_to_node256 find_child
  add_to_node256 h cs b c = record {
    inner = refl;
    same_partial = refl;
    same_value = refl;
    children = λ q. ground arith;
  }
