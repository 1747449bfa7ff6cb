-- ===== src/Art/Children/Laws.antt =====
-- Looking up a child after one is added or replaced, in nanograph-art/src/tree.rs: nodes with sorted
-- arrays of keys.
use nanograph.Prelude.{
  ℕ, zero, suc, ◌+◌, ◌-◌, ◌≤◌, ◌<◌, ◌≡◌, ◌≢◌, inl, inr, refl, sym, ◌∙◌, Option, none, some, ltb,
  leb, ◌==◌, if◌then◌else◌, Bool-cases, arith,
}
use nanograph.Art.Node.{Node, Slot, occupied, update, slot_at}
use nanograph.Art.Children.{
  insert_position, shift_right, replace_at, copy_indices, grow_children, grow_node4_keys,
}
use nanograph.Art.Children.Arrays.{
  Distinct, Ascending, Finds, put_in, moved, Finds-unique, Finds-agree, update-shift_right,
  insert_position-le, put_in-Ascending, put_in-Distinct, put_in-Finds,
}

pub shift_right-Ascending :
    (ks : ℕ → ℕ) (n b : ℕ)
    → Ascending n ks
    → ((j : ℕ) → j < n → ks j ≢ b)
    → Ascending (n + 1) (
        update
          (shift_right (insert_position ks b 0 n) (n - insert_position ks b 0 n) ks)
          (insert_position ks b 0 n)
          b)
shift_right-Ascending ks n b s new i j h l =
    let p = insert_position ks b 0 n in
    let p_le = insert_position-le ks b n in
    rw
      (
        update-shift_right p n ks b i p_le (omega arith),
        update-shift_right p n ks b j p_le (omega arith),
      )
      (put_in-Ascending ks b n s new i j h l)

module _ {V : Type 0} where
  -- The first `n` places hold a child.
  abbrev pub Filled : ℕ → (ℕ → Slot V) → Type 0
  Filled n cs = (i : ℕ) → i < n → (c : Node V) × (cs i ≡ occupied c)

  -- A search that gives no child found no key.
  pub Filled-absent :
      (ks : ℕ → ℕ) (cs : ℕ → Slot V) (n b : ℕ) (o : Option ℕ)
      → Filled n cs
      → Finds ks n b o
      → slot_at cs o ≡ none
      → (j : ℕ) → j < n
      → ks j ≢ b
  Filled-absent ks cs n b none f g e = g
  Filled-absent ks cs n b (some i) f g e = let (c, full) = f i g.0 in absurd (cc)

  slot_at-moved :
      (cs cs' : ℕ → Slot V) (p b q n : ℕ) (c : Node V) (ks : ℕ → ℕ) (o : Option ℕ)
      → p ≤ n
      → Finds ks n q o
      → ((j : ℕ) → j ≤ n → cs' j ≡ put_in p (occupied c) cs j)
      → slot_at cs' (moved p b q o) ≡ (if b == q then some c else slot_at cs o)
  slot_at-moved cs cs' p b q n c ks o h f e = elim (Bool-cases (b == q)) [
    | inl t ↦ rw (t, e p h) (ground arith)
    | inr t ↦ rw t (other o f)
  ]
    where
      other :
          (o : Option ℕ)
          → Finds ks n q o
          → slot_at cs' (elim o [ none ↦ none | some j ↦ some (if ltb j p then j else suc j) ])
            ≡ slot_at cs o
      other none f = refl
      other (some j) (l, k) = elim (Bool-cases (ltb j p)) [
        | inl t ↦ rw (t, e j (omega arith), t) refl
        | inr t ↦ rw (t, e (suc j) (omega arith)) (ground arith)
      ]

  -- Two arrays into which a key and its child were put, whatever finds a key in them.
  pub slot_at-put_in :
      (ks : ℕ → ℕ) (cs : ℕ → Slot V) (n b q : ℕ) (c : Node V) (o o' : Option ℕ)
      → Distinct n ks
      → ((j : ℕ) → j < n → ks j ≢ b)
      → Finds ks n q o
      → Finds
          (update
            (shift_right (insert_position ks b 0 n) (n - insert_position ks b 0 n) ks)
            (insert_position ks b 0 n)
            b)
          (n + 1)
          q
          o'
      → slot_at
          (update
            (shift_right (insert_position ks b 0 n) (n - insert_position ks b 0 n) cs)
            (insert_position ks b 0 n)
            (occupied c))
          o'
        ≡ (if b == q then some c else slot_at cs o)
  slot_at-put_in ks cs n b q c o o' d new f f' =
      let p = insert_position ks b 0 n in
      let p_le = insert_position-le ks b n in
      let same_keys : (j : ℕ)
          → j < n + 1
          → put_in p b ks j ≡ update (shift_right p (n - p) ks) p b j =
        λ j l. sym (update-shift_right p n ks b j p_le (omega arith)) in
      let e : o' ≡ moved p b q o =
        Finds-unique (put_in p b ks) (n + 1) q o' (moved p b q o)
          (put_in-Distinct ks p b n d new p_le)
          (Finds-agree _ (put_in p b ks) (n + 1) q o' same_keys f')
          (put_in-Finds ks p b n q o p_le f) in
      rw e (
        slot_at-moved cs _ p b q n c ks o p_le f
          (λ j l. update-shift_right p n cs (occupied c) j p_le l))

  -- The child at a key is replaced, and no other.
  pub slot_at-replace_at :
      (ks : ℕ → ℕ) (cs : ℕ → Slot V) (n b q : ℕ) (c c' : Node V) (ob o oq : Option ℕ)
      → Distinct n ks
      → Finds ks n b ob
      → Finds ks n b o
      → Finds ks n q oq
      → slot_at cs o ≡ some c
      → slot_at (replace_at cs ob c') oq ≡ (if b == q then some c' else slot_at cs oq)
  slot_at-replace_at ks cs n b q c c' ob none oq d f g h e = cc
  slot_at-replace_at ks cs n b q c c' none (some i) oq d f g h e = absurd (f i g.0 g.1)
  slot_at-replace_at ks cs n b q c c' (some j) (some i) none d f g h e =
      let differs : b ≢ q = λ x. h j f.0 (f.1 ∙ x) in ground arith
  slot_at-replace_at ks cs n b q c c' (some j) (some i) (some k) d f g h e =
      ground (arith, d j k f.0 h.0)

copy_indices_lem :
    {A : Type 0} (from : ℕ → A) (i n : ℕ) (to : ℕ → A) (j : ℕ)
    → copy_indices from i n to j
      ≡ (if leb i j then (if ltb j (i + n) then from j else to j) else to j)
unfolding copy_indices
copy_indices_lem from i zero to j = ground arith
copy_indices_lem from i (suc n) to j =
    copy_indices_lem from (suc i) n (update to i (from i)) j ∙ ground arith

pub grow_node4_keys_lem : (n : ℕ) (ks : ℕ → ℕ) (j : ℕ) → j < n → grow_node4_keys n ks j ≡ ks j
unfolding grow_node4_keys
grow_node4_keys_lem n ks j l = copy_indices_lem ks 0 n _ j ∙ ground arith

pub grow_children_lem :
    {V : Type 0} (n : ℕ) (cs : ℕ → Slot V) (j : ℕ) → j < n → grow_children n cs j ≡ cs j
unfolding grow_children
grow_children_lem n cs j l = copy_indices_lem cs 0 n _ j ∙ ground arith
