-- ===== src/Lsm/Compaction/Due.antt =====
-- When `select_compaction` of nanograph-lsm/src/compaction.rs chooses nothing.
use mathlib.Core.Option.{some-injective}
use nanograph.Prelude.{
  ℕ, zero, suc, ◌+◌, ◌-◌, ◌≤◌, ◌<◌, ◌≡◌, ◌⊎◌, inl, inr, refl, subst, none, some, List, [], ◌∷◌,
  get_elem?, length, ltb, leb, Bool-cases, arith,
}
use nanograph.Lsm.Compaction.{
  SsTableMetadata, CompactionStrategy, target_size, level_size, select_level, select_compaction,
}

select_level_round :
    (c : CompactionStrategy) (base_size count level : ℕ) (l : List SsTableMetadata)
    (ls : List (List SsTableMetadata))
    → select_level c base_size (suc count) level (l ∷ ls) ≡ none
    → (level_size l ≤ target_size c level base_size)
      × (select_level c base_size count (suc level) ls ≡ none)
unfolding select_level
select_level_round c base_size count level [] ls h = (omega arith, h)
select_level_round c base_size count level (s ∷ ss) ls h =
    elim (Bool-cases (ltb (target_size c level base_size) (level_size (s ∷ ss)))) [
      | inl t ↦ absurd (cc (t, h))
      | inr t ↦ (ground (arith, t), rw t at h)
    ]

select_level_within :
    (c : CompactionStrategy) (base_size count level : ℕ) (ls : List (List SsTableMetadata))
    → select_level c base_size count level ls ≡ none
    → (i : ℕ) (l : List SsTableMetadata) → get_elem? ls i ≡ some l
    → i < count
    → level_size l ≤ target_size c (level + i) base_size
select_level_within c base_size zero level ls h i l e b = absurd (omega (arith, b))
select_level_within c base_size (suc count) level [] h i l e b = absurd (cc)
select_level_within c base_size (suc count) level (x ∷ ls) h zero l e b =
    let here : x ≡ l = some-injective x l e in
    let at : level ≡ level + 0 = omega arith in
    let (size, rest) = select_level_round c base_size count level x ls h in
    subst (λ n. level_size l ≤ target_size c n base_size) at
      (subst (λ y. level_size y ≤ target_size c level base_size) here size)
select_level_within c base_size (suc count) level (x ∷ ls) h (suc i) l e b =
    let at : suc level + i ≡ level + suc i = omega arith in
    let (size, rest) = select_level_round c base_size count level x ls h in
    subst (λ n. level_size l ≤ target_size c n base_size) at
      (select_level_within c base_size count (suc level) ls rest i l e (omega (arith, b)))

-- What the answer `some none` says of level 0 and of the levels after it.
select_compaction_parts :
    (c : CompactionStrategy) (level0 : List SsTableMetadata) (ls : List (List SsTableMetadata))
    (base_size : ℕ)
    → select_compaction c (level0 ∷ ls) base_size ≡ some none
    → (length level0 < c.level0_file_num_compaction_trigger)
      × (select_level c base_size (c.max_level - 1) 1 ls ≡ none)
unfolding select_compaction
select_compaction_parts c level0 [] base_size h =
    elim (Bool-cases (leb c.level0_file_num_compaction_trigger (length level0))) [
      | inl t ↦ absurd (cc (t, h))
      | inr t ↦ (ground (arith, t), some-injective _ _ (rw t at h))
    ]
select_compaction_parts c level0 (level1 ∷ ls) base_size h =
    elim (Bool-cases (leb c.level0_file_num_compaction_trigger (length level0))) [
      | inl t ↦ absurd (cc (t, h))
      | inr t ↦ (ground (arith, t), some-injective _ _ (rw t at h))
    ]

-- Where no compaction is chosen, none is due: level 0 has fewer tables than the trigger, and each
-- later level below the maximum has at most its target size.
pub select_compaction_within :
    (c : CompactionStrategy) (levels : List (List SsTableMetadata)) (base_size i : ℕ)
    (l : List SsTableMetadata)
    → select_compaction c levels base_size ≡ some none
    → get_elem? levels i ≡ some l
    → i < c.max_level
    → ((i ≡ 0) × (length l < c.level0_file_num_compaction_trigger))
      ⊎ ((1 ≤ i) × (level_size l ≤ target_size c i base_size))
select_compaction_within c [] base_size i l h e b = absurd (cc)
select_compaction_within c (level0 ∷ ls) base_size zero l h e b =
    let here : level0 ≡ l = some-injective level0 l e in
    let (few, rest) = select_compaction_parts c level0 ls base_size h in
    inl (refl, subst (λ y. length y < c.level0_file_num_compaction_trigger) here few)
select_compaction_within c (level0 ∷ ls) base_size (suc i) l h e b =
    let at : 1 + i ≡ suc i = omega arith in
    let (few, rest) = select_compaction_parts c level0 ls base_size h in
    inr (
      omega arith,
      subst (λ n. level_size l ≤ target_size c n base_size) at
          (select_level_within c base_size (c.max_level - 1) 1 ls rest i l e (omega (arith, b))),
    )
