-- ===== src/Art/Children/Wide.antt =====
-- The arrays of the two wide nodes of nanograph-art/src/tree.rs, indexed by the key byte, when a
-- smaller node grows to them.
use nanograph.Prelude.{
  ℕ, zero, suc, ◌+◌, ◌%◌, ◌≤◌, ◌<◌, ◌≡◌, ◌≢◌, inl, inr, refl, ◌∙◌, Option, none, some, ltb, leb,
  ◌==◌, if◌then◌else◌, Bool-cases, arith,
}
use nanograph.Art.Node.{Slot}
use nanograph.Art.Children.{index_keys, grow_node16_index, grow_node48_loop}
use nanograph.Art.Children.Arrays.{Distinct, Finds}

index_keys_other :
    (ks : ℕ → ℕ) (i n : ℕ) (is : ℕ → ℕ) (b : ℕ)
    → ((j : ℕ) → i ≤ j → j < i + n → ks j ≢ b)
    → index_keys ks i n is b ≡ is b
unfolding index_keys
index_keys_other ks i zero is b h = refl
index_keys_other ks i (suc n) is b h =
    index_keys_other ks (suc i) n _ b (λ j l m. h j (omega arith) (omega arith))
    ∙ ground (arith, h i)

index_keys_at :
    (ks : ℕ → ℕ) (i n m : ℕ) (is : ℕ → ℕ) (j : ℕ)
    → Distinct m ks
    → m ≡ i + n
    → i ≤ j
    → j < m
    → index_keys ks i n is (ks j) ≡ j % 256
unfolding index_keys
index_keys_at ks i zero m is j d e h l = absurd (omega arith)
index_keys_at ks i (suc n) m is j d e h l = elim (Bool-cases (i == j)) [
  | inr other ↦ index_keys_at ks (suc i) n m _ j d (omega arith) (ground arith) l
  | inl here ↦
      index_keys_other ks (suc i) n _ (ks j)
        (λ k x y same. absurd (ground (arith, d k j (omega arith) l same)))
      ∙ ground arith
]

-- The index array made of distinct keys, fewer than 256: the place of each key, and 255 elsewhere.
pub grow_node16_index_lem :
    (ks : ℕ → ℕ) (n b : ℕ) (o : Option ℕ)
    → Distinct n ks
    → n ≤ 48
    → Finds ks n b o
    → grow_node16_index n ks b ≡ elim o [ none ↦ 255 | some j ↦ j ]
unfolding grow_node16_index
grow_node16_index_lem ks n b none d l f = index_keys_other ks 0 n _ b (λ j x y. f j (omega arith))
grow_node16_index_lem ks n b (some j) d l (m, e) =
    let at_key : index_keys ks 0 n (λ b. 255) (ks j) ≡ j % 256 =
      index_keys_at ks 0 n n _ j d (omega arith) (omega arith) m in
    rw (← e) (at_key ∙ omega arith)

pub grow_node48_loop_lem :
    {V : Type 0} (is : ℕ → ℕ) (cs : ℕ → Slot V) (b n : ℕ) (to : ℕ → Slot V) (q : ℕ)
    → grow_node48_loop is cs b n to q ≡ (
        if leb b q
        then (if ltb q (b + n) then (if is q == 255 then to q else cs (is q)) else to q)
        else to q)
unfolding grow_node48_loop
grow_node48_loop_lem is cs b zero to q = ground arith
grow_node48_loop_lem is cs b (suc n) to q =
    grow_node48_loop_lem is cs (suc b) n _ q
    ∙ elim (Bool-cases (is b == 255)) [ inl e ↦ rw e (ground arith) | inr e ↦ rw e (ground arith) ]
