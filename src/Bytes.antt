-- ===== src/Bytes.antt =====
-- Byte strings, `Vec<u8>` and `&[u8]`, under the order of `Ord for [u8]`, which the trees use to
-- compare keys: lexicographic, a proper prefix first.
pub mod Endian
pub mod Chunks
use Prim.Native.Nat.Ordering.{lt, eq, gt}
use nanograph.Prelude.{ℕ, ◌≡◌, refl, List, [], ◌∷◌, compare, Ordering, arith, Bool, true, false}

abbrev pub Bytes : Type 0
Bytes = List ℕ

unfoldable pub cmp : Bytes → Bytes → Ordering
cmp [] [] = eq
cmp [] (b ∷ y) = lt
cmp (a ∷ x) [] = gt
cmp (a ∷ x) (b ∷ y) = elim (compare a b) [ lt ↦ lt | eq ↦ cmp x y | gt ↦ gt ]

-- `a < b`, as a statement.
infix 50 ◌≺◌
abbrev pub ◌≺◌ : Bytes → Bytes → Type 0
a ≺ b = cmp a b ≡ lt

-- `a == b`, through the order.
abbrev pub same : Bytes → Bytes → Bool
same a b = elim (cmp a b) [ eq ↦ true | _ ↦ false ]

pub cmp_refl : (a : Bytes) → cmp a a ≡ eq
unfolding cmp
cmp_refl [] = refl
cmp_refl (a ∷ x) = ground (arith, cmp_refl x)

pub eq_of_cmp : (a b : Bytes) → cmp a b ≡ eq → a ≡ b
unfolding cmp
eq_of_cmp [] [] h = refl
eq_of_cmp [] (b ∷ y) h = ground arith
eq_of_cmp (a ∷ x) [] h = ground arith
eq_of_cmp (a ∷ x) (b ∷ y) h = ground (arith, eq_of_cmp x y)

pub lt_of_gt : (a b : Bytes) → cmp a b ≡ gt → cmp b a ≡ lt
unfolding cmp
lt_of_gt [] [] h = ground arith
lt_of_gt [] (b ∷ y) h = ground arith
lt_of_gt (a ∷ x) [] h = refl
lt_of_gt (a ∷ x) (b ∷ y) h = ground (arith, lt_of_gt x y)

pub gt_of_lt : (a b : Bytes) → cmp a b ≡ lt → cmp b a ≡ gt
unfolding cmp
gt_of_lt [] [] h = ground arith
gt_of_lt [] (b ∷ y) h = refl
gt_of_lt (a ∷ x) [] h = ground arith
gt_of_lt (a ∷ x) (b ∷ y) h = ground (arith, gt_of_lt x y)

pub lt_trans : (a b c : Bytes) → a ≺ b → b ≺ c → a ≺ c
unfolding cmp
lt_trans [] [] c h k = k
lt_trans [] (b ∷ y) [] h k = ground arith
lt_trans [] (b ∷ y) (c ∷ z) h k = refl
lt_trans (a ∷ x) [] c h k = ground arith
lt_trans (a ∷ x) (b ∷ y) [] h k = ground arith
lt_trans (a ∷ x) (b ∷ y) (c ∷ z) h k = ground (arith, lt_trans x y z)

-- `a < b`, as a test.
abbrev pub before : Bytes → Bytes → Bool
before a b = elim (cmp a b) [ lt ↦ true | _ ↦ false ]
