-- ===== src/Lsm/Compaction/Batched.antt =====
-- The batches of nanograph-lsm/src/compaction.rs.
use nanograph.Prelude.{
  ℕ, ◌+◌, ◌≤◌, ◌≡◌, ◌⊎◌, inl, inr, refl, ap, ◌∙◌, List, [], ◌∷◌, ◌++◌, length, ltb, Bool-cases,
  arith,
}
use nanograph.Lsm.MemTable.{Entry, entry_size}
use nanograph.Lsm.Compaction.{batches}

abbrev pub size_of : List Entry → ℕ
size_of [] = 0
size_of (e ∷ es) = entry_size e + size_of es

abbrev pub joined : List (List Entry) → List Entry
joined [] = []
joined (b ∷ bs) = b ++ joined bs

-- A batch is not empty, and within the limit unless it is one entry.
abbrev pub Fits : ℕ → List Entry → Type 0
Fits limit b = (1 ≤ length b) × ((size_of b ≤ limit) ⊎ (length b ≡ 1))

abbrev pub AllFit : ℕ → List (List Entry) → Type 0
AllFit limit [] = Unit {0}
AllFit limit (b ∷ bs) = Fits limit b × AllFit limit bs

append_assoc : (xs : List Entry) (e : Entry) (ys : List Entry) → (xs ++ e ∷ []) ++ ys ≡ xs ++ e ∷ ys
append_assoc [] e ys = refl
append_assoc (x ∷ xs) e ys = ap (λ zs. x ∷ zs) (append_assoc xs e ys)

append_nil : (xs : List Entry) → xs ++ [] ≡ xs
append_nil [] = refl
append_nil (x ∷ xs) = ap (λ zs. x ∷ zs) (append_nil xs)

size_of-append : (xs : List Entry) (e : Entry) → size_of (xs ++ e ∷ []) ≡ size_of xs + entry_size e
size_of-append [] e = omega arith
size_of-append (x ∷ xs) e = omega (arith, size_of-append xs e)

batches_parts :
    (limit : ℕ) (b : Entry) (bs : List Entry) (size : ℕ) (es : List Entry)
    → size ≡ size_of (b ∷ bs)
    → Fits limit (b ∷ bs)
    → (joined (batches limit (b ∷ bs) size es) ≡ (b ∷ bs) ++ es)
      × AllFit limit (batches limit (b ∷ bs) size es)
unfolding batches
batches_parts limit b bs size [] h f = (refl, (f, tt))
batches_parts limit b bs size (e ∷ es) h f = elim (Bool-cases (ltb limit (size + entry_size e))) [
  | inl t ↦
      let (j, a) =
        batches_parts limit e [] (entry_size e) es (omega arith) (omega arith, inr refl) in
      rw t (ap (λ zs. (b ∷ bs) ++ zs) j, (f, a))
  | inr t ↦
      let sum : size + entry_size e ≡ size_of (b ∷ (bs ++ e ∷ [])) =
        omega (arith, h, size_of-append (b ∷ bs) e) in
      let (j, a) =
        batches_parts limit b (bs ++ e ∷ []) (size + entry_size e) es sum
          (omega arith, inl (ground (arith, sum, t))) in
      rw t (j ∙ append_assoc (b ∷ bs) e es, a)
]

-- The batches put together are the entries, in their order; no batch is empty, and a batch is larger
-- than the limit only if it is a single entry.
pub batches-AllFit :
    (limit : ℕ) (es : List Entry)
    → (joined (batches limit [] 0 es) ≡ es) × AllFit limit (batches limit [] 0 es)
unfolding batches
batches-AllFit limit [] = (refl, tt)
batches-AllFit limit (e ∷ es) =
    batches_parts limit e [] (0 + entry_size e) es (omega arith) (omega arith, inr refl)
