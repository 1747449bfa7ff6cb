-- ===== src/Prelude/Lists.antt =====
-- `Vec` of the source: lists measured and indexed by native numbers.
use Prim.Native.Nat.{ℕ, zero, suc, ◌+◌, ◌-◌, ◌≤◌, ◌<◌, min}
use mathlib.Core.Path.{◌≡◌, refl}
use mathlib.Core.List.{List, [], ◌∷◌, ◌++◌}
use mathlib.Core.Option.{Option, none, some}
use native.Mathlib.Omega.{arith}
use native.Mathlib.Nat.{suc-add}

module _ {ℓ} {A : Type ℓ} where
  abbrev pub length : List A → ℕ
  length [] = 0
  length (x ∷ xs) = suc (length xs)

  abbrev pub get_elem? : List A → ℕ → Option A
  get_elem? [] i = none
  get_elem? (x ∷ xs) zero = some x
  get_elem? (x ∷ xs) (suc i) = get_elem? xs i

  abbrev pub set : List A → ℕ → A → List A
  set [] i v = []
  set (x ∷ xs) zero v = v ∷ xs
  set (x ∷ xs) (suc i) v = x ∷ set xs i v

  abbrev pub take : ℕ → List A → List A
  take zero xs = []
  take (suc n) [] = []
  take (suc n) (x ∷ xs) = x ∷ take n xs

  abbrev pub drop : ℕ → List A → List A
  drop zero xs = xs
  drop (suc n) [] = []
  drop (suc n) (x ∷ xs) = drop n xs

  -- `Vec::insert`: an index beyond the end is a panic, which is `none`.
  abbrev pub insert_at : List A → ℕ → A → Option (List A)
  insert_at xs zero v = some (v ∷ xs)
  insert_at [] (suc i) v = none
  insert_at (x ∷ xs) (suc i) v = elim (insert_at xs i v) [ none ↦ none | some ys ↦ some (x ∷ ys) ]

  -- `Vec::remove` below the length.
  abbrev pub remove_at : List A → ℕ → List A
  remove_at [] i = []
  remove_at (x ∷ xs) zero = xs
  remove_at (x ∷ xs) (suc i) = x ∷ remove_at xs i

  -- `Vec::pop`: the last element, and the vector without it.
  abbrev pub pop_back : List A → Option (A × List A)
  pop_back [] = none
  pop_back (x ∷ []) = some (x, [])
  pop_back (x ∷ y ∷ ys) = elim (pop_back (y ∷ ys)) [ none ↦ none | some (z, zs) ↦ some (z, x ∷ zs) ]

module _ {ℓ} {A : Type ℓ} where
  pub length-append : (xs ys : List A) → length (xs ++ ys) ≡ length xs + length ys
  length-append [] ys = omega arith
  length-append (x ∷ xs) ys = omega (arith, length-append xs ys)

  pub take-append-drop : (n : ℕ) (xs : List A) → take n xs ++ drop n xs ≡ xs
  take-append-drop zero xs = refl
  take-append-drop (suc n) [] = refl
  take-append-drop (suc n) (x ∷ xs) = rw (take-append-drop n xs)

  pub length-take : (n : ℕ) (xs : List A) → length (take n xs) ≡ min n (length xs)
  length-take zero xs = omega arith
  length-take (suc n) [] = omega arith
  length-take (suc n) (x ∷ xs) = omega (arith, length-take n xs)

  pub length-drop : (n : ℕ) (xs : List A) → length (drop n xs) ≡ length xs - n
  length-drop zero xs = omega arith
  length-drop (suc n) [] = omega arith
  length-drop (suc n) (x ∷ xs) = omega (arith, length-drop n xs)

module _ {ℓ} {A : Type ℓ} where
  -- An index up to the length is no panic.
  pub insert_at-total :
      (xs : List A) (i : ℕ) (v : A)
      → i ≤ length xs
      → (ys : List A) × (insert_at xs i v ≡ some ys) × (length ys ≡ suc (length xs))
  insert_at-total xs zero v h = (v ∷ xs, refl, refl)
  insert_at-total [] (suc i) v h = absurd (omega arith)
  insert_at-total (x ∷ xs) (suc i) v h =
      let (ys, e, l) = insert_at-total xs i v (omega arith) in (x ∷ ys, rw e, omega (arith, l))

  pub insert_at_inv :
      (x : A) (xs : List A) (i : ℕ) (v : A) (ys : List A)
      → insert_at (x ∷ xs) (suc i) v ≡ some ys
      → (zs : List A) × (insert_at xs i v ≡ some zs) × (ys ≡ x ∷ zs)
  insert_at_inv x xs i v ys h = ground arith

  pub get_elem?-insert_at_lt :
      (xs : List A) (i : ℕ) (v : A) (ys : List A) (j : ℕ)
      → insert_at xs i v ≡ some ys
      → j < i
      → get_elem? ys j ≡ get_elem? xs j
  get_elem?-insert_at_lt xs zero v ys j h l = elim l [ ]
  get_elem?-insert_at_lt [] (suc i) v ys j h l = cc
  get_elem?-insert_at_lt (x ∷ xs) (suc i) v ys zero h l =
      let (zs, h', e) = insert_at_inv x xs i v ys h in rw e
  get_elem?-insert_at_lt (x ∷ xs) (suc i) v ys (suc j) h l =
      let (zs, h', e) = insert_at_inv x xs i v ys h in
      rw e (get_elem?-insert_at_lt xs i v zs j h' (omega arith))

  pub get_elem?-insert_at_self :
      (xs : List A) (i : ℕ) (v : A) (ys : List A)
      → insert_at xs i v ≡ some ys
      → get_elem? ys i ≡ some v
  get_elem?-insert_at_self xs zero v ys h = ground arith
  get_elem?-insert_at_self [] (suc i) v ys h = cc
  get_elem?-insert_at_self (x ∷ xs) (suc i) v ys h =
      let (zs, h', e) = insert_at_inv x xs i v ys h in rw e (get_elem?-insert_at_self xs i v zs h')

  pub get_elem?-insert_at_gt :
      (xs : List A) (i : ℕ) (v : A) (ys : List A) (j : ℕ)
      → insert_at xs i v ≡ some ys
      → i ≤ j
      → get_elem? ys (suc j) ≡ get_elem? xs j
  get_elem?-insert_at_gt xs zero v ys j h l = ground arith
  get_elem?-insert_at_gt [] (suc i) v ys j h l = cc
  get_elem?-insert_at_gt (x ∷ xs) (suc i) v ys zero h l = absurd (omega arith)
  get_elem?-insert_at_gt (x ∷ xs) (suc i) v ys (suc j) h l =
      let (zs, h', e) = insert_at_inv x xs i v ys h in
      rw e (get_elem?-insert_at_gt xs i v zs j h' (omega arith))

  pub get_elem?-take :
      (n : ℕ) (xs : List A) (j : ℕ) → j < n → get_elem? (take n xs) j ≡ get_elem? xs j
  get_elem?-take zero xs j h = elim h [ ]
  get_elem?-take (suc n) [] j h = refl
  get_elem?-take (suc n) (x ∷ xs) zero h = refl
  get_elem?-take (suc n) (x ∷ xs) (suc j) h = get_elem?-take n xs j (omega arith)

  pub get_elem?-drop :
      (n : ℕ) (xs : List A) (j : ℕ) → get_elem? (drop n xs) j ≡ get_elem? xs (n + j)
  get_elem?-drop zero xs j = ground arith
  get_elem?-drop (suc n) [] j = refl
  get_elem?-drop (suc n) (x ∷ xs) j = rw suc-add (get_elem?-drop n xs j)

  -- The element at an index stands between what is before and what is after it.
  pub take-cons-drop :
      (n : ℕ) (xs : List A) (x : A)
      → get_elem? xs n ≡ some x
      → take n xs ++ x ∷ drop (suc n) xs ≡ xs
  take-cons-drop n [] x h = cc
  take-cons-drop zero (y ∷ xs) x h = cc
  take-cons-drop (suc n) (y ∷ xs) x h = rw (take-cons-drop n xs x h)

  pub get_elem?-lt : (xs : List A) (n : ℕ) → n < length xs → (x : A) × (get_elem? xs n ≡ some x)
  get_elem?-lt [] n h = absurd (omega arith)
  get_elem?-lt (x ∷ xs) zero h = (x, refl)
  get_elem?-lt (x ∷ xs) (suc n) h = get_elem?-lt xs n (omega arith)

  pub pop_back-take :
      (n : ℕ) (xs : List A) (x : A)
      → get_elem? xs n ≡ some x
      → pop_back (take (suc n) xs) ≡ some (x, take n xs)
  pop_back-take n [] x h = cc
  pop_back-take zero (y ∷ xs) x h = ground arith
  pop_back-take (suc n) (y ∷ []) x h = cc
  pop_back-take (suc n) (y ∷ z ∷ xs) x h = ground (arith, pop_back-take n (z ∷ xs) x h)

  pub lt_of_get_elem? : (xs : List A) (n : ℕ) (x : A) → get_elem? xs n ≡ some x → n < length xs
  lt_of_get_elem? [] n x h = cc
  lt_of_get_elem? (y ∷ xs) zero x h = omega arith
  lt_of_get_elem? (y ∷ xs) (suc n) x h = omega (arith, lt_of_get_elem? xs n x h)
