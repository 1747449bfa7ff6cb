-- ===== src/Prelude/Slices.antt =====
-- Slices of a `Vec`: `&v[a..b]`, `Vec::resize` and `copy_from_slice`.
use Prim.Native.Nat.{ℕ, zero, suc, ◌+◌, ◌-◌, ◌≤◌, ◌<◌, min}
use mathlib.Core.Path.{◌≡◌, refl, sym, ap}
use mathlib.Core.Option.{some}
use mathlib.Core.List.{List, [], ◌∷◌, ◌++◌, append-nil, append_assoc}
use native.Mathlib.Omega.{arith}
use native.Mathlib.Numerals.{unary_clauses}
use native.Mathlib.Nat.{suc-add}
use nanograph.Prelude.Lists.{length, get_elem?, take, drop, length-append, length-take, length-drop}

module _ {ℓ} {A : Type ℓ} where
  abbrev pub replicate : ℕ → A → List A
  replicate zero v = []
  replicate (suc n) v = v ∷ replicate n v

  abbrev pub resize : List A → ℕ → A → List A
  resize xs n v = take n xs ++ replicate (n - length xs) v

  -- `&xs[off..end]` for `off ≤ end ≤ xs.len()`.
  abbrev pub slice : ℕ → ℕ → List A → List A
  slice off end xs = take (end - off) (drop off xs)

  -- `xs[off..off + ys.len()].copy_from_slice(ys)` within the length.
  abbrev pub copy_at : ℕ → List A → List A → List A
  copy_at off ys xs = take off xs ++ (ys ++ drop (off + length ys) xs)

module _ {ℓ} {A : Type ℓ} where
  pub length-replicate : (n : ℕ) (v : A) → length (replicate n v) ≡ n
  length-replicate zero v = refl
  length-replicate (suc n) v = omega (arith, length-replicate n v)

  pub take_all : (n : ℕ) (xs : List A) → length xs ≤ n → take n xs ≡ xs
  take_all zero [] h = refl
  take_all zero (x ∷ xs) h = absurd (omega arith)
  take_all (suc n) [] h = refl
  take_all (suc n) (x ∷ xs) h = rw (take_all n xs (omega arith))

  pub drop_all : (n : ℕ) (xs : List A) → length xs ≤ n → drop n xs ≡ []
  drop_all zero [] h = refl
  drop_all zero (x ∷ xs) h = absurd (omega arith)
  drop_all (suc n) [] h = refl
  drop_all (suc n) (x ∷ xs) h = drop_all n xs (omega arith)

  pub take-append : (xs ys : List A) → take (length xs) (xs ++ ys) ≡ xs
  take-append [] ys = refl
  take-append (x ∷ xs) ys = rw (take-append xs ys)

  pub drop-append : (xs ys : List A) → drop (length xs) (xs ++ ys) ≡ ys
  drop-append [] ys = refl
  drop-append (x ∷ xs) ys = drop-append xs ys

  -- The same at an index that equals the length.
  pub take-append_short : (n : ℕ) (xs ys : List A) → n ≤ length xs → take n (xs ++ ys) ≡ take n xs
  take-append_short zero xs ys h = refl
  take-append_short (suc n) [] ys h = absurd (omega (arith, h))
  take-append_short (suc n) (x ∷ xs) ys h =
      ap (λ zs. x ∷ zs) (take-append_short n xs ys (omega (arith, h)))

  pub take-append_at : (n : ℕ) (xs ys : List A) → n ≡ length xs → take n (xs ++ ys) ≡ xs
  take-append_at n xs ys h = rw h (take-append xs ys)

  pub drop-append_at : (n : ℕ) (xs ys : List A) → n ≡ length xs → drop n (xs ++ ys) ≡ ys
  drop-append_at n xs ys h = rw h (drop-append xs ys)

  pub get_elem?-append_lt :
      (xs ys : List A) (i : ℕ) → i < length xs → get_elem? (xs ++ ys) i ≡ get_elem? xs i
  get_elem?-append_lt [] ys i h = elim h [ ]
  get_elem?-append_lt (x ∷ xs) ys zero h = refl
  get_elem?-append_lt (x ∷ xs) ys (suc i) h = get_elem?-append_lt xs ys i (omega arith)

  pub get_elem?-append_ge :
      (xs ys : List A) (i : ℕ)
      → length xs ≤ i
      → get_elem? (xs ++ ys) i ≡ get_elem? ys (i - length xs)
  get_elem?-append_ge [] ys i h = ground arith
  get_elem?-append_ge (x ∷ xs) ys zero h = absurd (omega arith)
  get_elem?-append_ge (x ∷ xs) ys (suc i) h =
      simp unary_clauses (get_elem?-append_ge xs ys i (omega arith))

  pub length-resize : (xs : List A) (n : ℕ) (v : A) → length (resize xs n v) ≡ n
  length-resize xs n v = omega (
    arith,
    length-append (take n xs) (replicate (n - length xs) v),
    length-take n xs,
    length-replicate (n - length xs) v,
  )

  pub length-slice :
      (off end : ℕ) (xs : List A)
      → off ≤ end
      → end ≤ length xs
      → length (slice off end xs) ≡ end - off
  length-slice off end xs h k =
      omega (arith, length-take (end - off) (drop off xs), length-drop off xs)

  pub length-copy_at :
      (off : ℕ) (ys xs : List A)
      → off + length ys ≤ length xs
      → length (copy_at off ys xs) ≡ length xs
  length-copy_at off ys xs h =
      let tail = drop (off + length ys) xs in
      let e : length (copy_at off ys xs) ≡ length (take off xs) + length (ys ++ tail) =
        length-append (take off xs) (ys ++ tail) in
      omega (arith, e, length-append ys tail, length-take off xs, length-drop (off + length ys) xs)

  -- A slice that lies between two others.
  pub slice-middle :
      (off end : ℕ) (xs ys zs : List A)
      → off ≡ length xs
      → end ≡ off + length ys
      → slice off end (xs ++ (ys ++ zs)) ≡ ys
  slice-middle off end xs ys zs h k =
      rw (drop-append_at off xs (ys ++ zs) h) (take-append_at (end - off) ys zs (omega arith))

  -- What was copied is read back.
  pub slice-copy_at :
      (off : ℕ) (ys xs : List A)
      → off ≤ length xs
      → slice off (off + length ys) (copy_at off ys xs) ≡ ys
  slice-copy_at off ys xs h =
      slice-middle off (off + length ys) (take off xs) ys (drop (off + length ys) xs)
        (omega (arith, length-take off xs)) refl

  -- Copying to the end of the list, after room was made there, appends.
  pub copy_at-resize :
      (ys xs : List A) (v : A)
      → copy_at (length xs) ys (resize xs (length xs + length ys) v) ≡ xs ++ ys
  copy_at-resize ys xs v =
      let n = length xs + length ys in
      let pad = replicate (n - length xs) v in
      let long : length (xs ++ pad) ≤ n =
        omega (arith, length-append xs pad, length-replicate (n - length xs) v) in
      rw (
        take_all n xs (omega arith),
        take-append xs pad,
        drop_all n (xs ++ pad) long,
        append-nil ys,
      )

  pub copy_at_end : (ys xs : List A) → copy_at (length xs) ys xs ≡ xs ++ ys
  copy_at_end ys xs = rw (
    take_all (length xs) xs (omega arith),
    drop_all (length xs + length ys) xs (omega arith),
    append-nil ys,
  )

module _ {ℓ} {A : Type ℓ} where
  drop_nil : (n : ℕ) → drop {A = A} n [] ≡ []
  drop_nil zero = refl
  drop_nil (suc n) = refl

  pub drop-drop : (m n : ℕ) (xs : List A) → drop m (drop n xs) ≡ drop (n + m) xs
  drop-drop m zero xs = ground arith
  drop-drop m (suc n) [] = rw (drop_nil m, drop_nil (suc n + m))
  drop-drop m (suc n) (x ∷ xs) = rw suc-add (drop-drop m n xs)

  pub drop_past : (w m : ℕ) (xs ys : List A) → length xs ≡ w → drop (w + m) (xs ++ ys) ≡ drop m ys
  drop_past w m xs ys h = rw (← drop-drop m w (xs ++ ys), drop-append_at w xs ys (sym h))

  -- A slice behind a prefix.
  pub slice_past :
      (w off end : ℕ) (xs ys : List A)
      → length xs ≡ w
      → slice (w + off) (w + end) (xs ++ ys) ≡ slice off end ys
  slice_past w off end xs ys h =
      let e : w + end - (w + off) ≡ end - off = omega arith in rw (e, drop_past w off xs ys h)

  pub take-copy_at :
      (off w : ℕ) (ys xs : List A)
      → length ys ≡ w
      → off + w ≤ length xs
      → take (off + w) (copy_at off ys xs) ≡ take off xs ++ ys
  take-copy_at off w ys xs h l =
      let tail = drop (off + length ys) xs in
      rw (← append_assoc (take off xs) ys tail) (
        take-append_at (off + w) (take off xs ++ ys) tail
          (omega (arith, length-append (take off xs) ys, length-take off xs)))

  pub drop-copy_at :
      (off w m : ℕ) (ys xs : List A)
      → length ys ≡ w
      → off + w ≤ length xs
      → drop (off + w + m) (copy_at off ys xs) ≡ drop (off + w + m) xs
  drop-copy_at off w m ys xs h l =
      let tail = drop (off + length ys) xs in
      let e : length (take off xs ++ ys) ≡ off + w =
        omega (arith, length-append (take off xs) ys, length-take off xs) in
      rw (
        ← append_assoc (take off xs) ys tail,
        drop_past (off + w) m (take off xs ++ ys) tail e,
        h,
        drop-drop m (off + w) xs,
      )

module _ {ℓ} {A : Type ℓ} where
  pub take-take : (n m : ℕ) (xs : List A) → n ≤ m → take n (take m xs) ≡ take n xs
  take-take zero m xs h = refl
  take-take (suc n) zero xs h = absurd (omega arith)
  take-take (suc n) (suc m) [] h = refl
  take-take (suc n) (suc m) (x ∷ xs) h = rw (take-take n m xs (omega arith))

  pub take-append_le : (n : ℕ) (xs ys : List A) → n ≤ length xs → take n (xs ++ ys) ≡ take n xs
  take-append_le zero xs ys h = refl
  take-append_le (suc n) [] ys h = absurd (omega arith)
  take-append_le (suc n) (x ∷ xs) ys h = rw (take-append_le n xs ys (omega arith))

  -- What stands before the place that is copied to stays.
  pub take-copy_at_before :
      (n off : ℕ) (ys xs : List A)
      → n ≤ off
      → off ≤ length xs
      → take n (copy_at off ys xs) ≡ take n xs
  take-copy_at_before n off ys xs h l =
      rw
        (take-append_le n (take off xs) (ys ++ drop (off + length ys) xs)
          (omega (arith, length-take off xs)))
        (take-take n off xs h)

  pub get_elem?-slice :
      (i : ℕ) (xs : List A) (x : A) → take 1 (drop i xs) ≡ x ∷ [] → get_elem? xs i ≡ some x
  get_elem?-slice zero [] x h = cc
  get_elem?-slice zero (y ∷ xs) x h = ground arith
  get_elem?-slice (suc i) [] x h = cc
  get_elem?-slice (suc i) (y ∷ xs) x h = get_elem?-slice i xs x h

  take_nil : (n : ℕ) → take {A = A} n [] ≡ []
  take_nil zero = refl
  take_nil (suc n) = refl

  -- Both counts reach the end, or are equal.
  pub take_same :
      (n m : ℕ) (xs : List A) → min n (length xs) ≡ min m (length xs) → take n xs ≡ take m xs
  take_same n m [] h = rw (take_nil n, take_nil m)
  take_same zero zero (x ∷ xs) h = refl
  take_same zero (suc m) (x ∷ xs) h = absurd (omega arith)
  take_same (suc n) zero (x ∷ xs) h = absurd (omega arith)
  take_same (suc n) (suc m) (x ∷ xs) h = rw (take_same n m xs (omega arith))
