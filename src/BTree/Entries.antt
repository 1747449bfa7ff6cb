-- ===== src/BTree/Entries.antt =====
-- What a list of entries means: a finite map from keys to values, and the order of its keys. The
-- functions here are the description that the operations of the nodes are compared with.
use Prim.Native.Nat.Ordering.{lt, eq, gt}
use nanograph.Prelude.{◌≡◌, refl, Option, none, some, List, [], ◌∷◌, ◌++◌, arith, if◌then◌else◌}
use nanograph.Bytes.{Bytes, cmp, ◌≺◌, same, cmp_refl, eq_of_cmp, lt_of_gt, gt_of_lt, lt_trans}

-- A key and its value.
abbrev pub Entry : Type 0
Entry = Bytes × Bytes

abbrev pub All {ℓ κ} : {A : Type ℓ} → (A → Type κ) → List A → Type κ
All P [] = Unit
All P (x ∷ xs) = P x × All P xs

-- The keys ascend, without repetition.
abbrev pub IsSorted : List Entry → Type 0
IsSorted [] = Unit
IsSorted ((k, v) ∷ es) = All (λ e. k ≺ e.0) es × IsSorted es

unfoldable pub lookup : Bytes → List Entry → Option Bytes
lookup q [] = none
lookup q ((k, v) ∷ es) = elim (cmp k q) [ eq ↦ some v | _ ↦ lookup q es ]

unfoldable pub upsert : Bytes → Bytes → List Entry → List Entry
upsert q w [] = (q, w) ∷ []
upsert q w ((k, v) ∷ es) = elim (cmp k q) [
  | lt ↦ (k, v) ∷ upsert q w es
  | eq ↦ (k, w) ∷ es
  | gt ↦ (q, w) ∷ (k, v) ∷ es
]

unfoldable pub erase : Bytes → List Entry → List Entry
erase q [] = []
erase q ((k, v) ∷ es) = elim (cmp k q) [ lt ↦ (k, v) ∷ erase q es | eq ↦ es | gt ↦ (k, v) ∷ es ]

pub All-imp {ℓ κ μ} :
    {A : Type ℓ} {P : A → Type κ} {Q : A → Type μ}
    → ((a : A) → P a → Q a)
    → (xs : List A) → All P xs
    → All Q xs
All-imp f [] h = tt
All-imp f (x ∷ xs) h = (f x h.0, All-imp f xs h.1)

pub All-append {ℓ κ} :
    {A : Type ℓ} (P : A → Type κ) (xs ys : List A) → All P (xs ++ ys) → All P xs × All P ys
All-append P [] ys h = (tt, h)
All-append P (x ∷ xs) ys h = let r = All-append P xs ys h.1 in ((h.0, r.0), r.1)

pub All-join {ℓ κ} :
    {A : Type ℓ} (P : A → Type κ) (xs ys : List A) → All P xs → All P ys → All P (xs ++ ys)
All-join P [] ys h k = k
All-join P (x ∷ xs) ys h k = (h.0, All-join P xs ys h.1 k)

pub All-upsert {κ} :
    (P : Bytes → Type κ) (q w : Bytes) (es : List Entry)
    → P q
    → All (λ e. P e.0) es
    → All (λ e. P e.0) (upsert q w es)
unfolding upsert
All-upsert P q w [] p h = (p, tt)
All-upsert P q w ((k, v) ∷ es) p h = ground (arith, All-upsert P q w es p)

pub All-erase {κ} :
    (P : Entry → Type κ) (q : Bytes) (es : List Entry) → All P es → All P (erase q es)
unfolding erase
All-erase P q [] h = tt
All-erase P q ((k, v) ∷ es) h = ground (arith, All-erase P q es)

pub above : (q k : Bytes) (es : List Entry) → q ≺ k → All (λ e. k ≺ e.0) es → All (λ e. q ≺ e.0) es
above q k es h = All-imp (λ e. lt_trans q k e.0 h) es

pub upsert-IsSorted : (q w : Bytes) (es : List Entry) → IsSorted es → IsSorted (upsert q w es)
unfolding upsert
upsert-IsSorted q w [] s = (tt, tt)
upsert-IsSorted q w ((k, v) ∷ es) s =
    ground
      (arith, upsert-IsSorted q w es, All-upsert (λ x. k ≺ x) q w es, above q k es, lt_of_gt k q)

pub erase-IsSorted : (q : Bytes) (es : List Entry) → IsSorted es → IsSorted (erase q es)
unfolding erase
erase-IsSorted q [] s = tt
erase-IsSorted q ((k, v) ∷ es) s =
    ground (arith, erase-IsSorted q es, All-erase (λ e. k ≺ e.0) q es)

-- Writing one key of the map.
pub lookup-upsert :
    (q w p : Bytes) (es : List Entry)
    → lookup p (upsert q w es) ≡ (if same q p then some w else lookup p es)
unfolding lookup upsert
lookup-upsert q w p [] = ground arith
lookup-upsert q w p ((k, v) ∷ es) = ground (
  arith,
  lookup-upsert q w p es,
  eq_of_cmp k q,
  eq_of_cmp k p,
  eq_of_cmp q p,
  cmp_refl q,
  cmp_refl p,
)

-- A key below all keys is not there.
pub lookup_below : (q : Bytes) (es : List Entry) → All (λ e. q ≺ e.0) es → lookup q es ≡ none
unfolding lookup
lookup_below q [] h = refl
lookup_below q ((k, v) ∷ es) h = ground (arith, gt_of_lt q k, lookup_below q es)

pub lookup_above : (q : Bytes) (es : List Entry) → All (λ e. e.0 ≺ q) es → lookup q es ≡ none
unfolding lookup
lookup_above q [] h = refl
lookup_above q ((k, v) ∷ es) h = ground (arith, lookup_above q es)

-- Removing one key of the map.
pub lookup-erase :
    (q p : Bytes) (es : List Entry)
    → IsSorted es
    → lookup p (erase q es) ≡ (if same q p then none else lookup p es)
unfolding lookup erase
lookup-erase q p [] s = ground arith
lookup-erase q p ((k, v) ∷ es) s = ground (
  arith,
  lookup-erase q p es,
  eq_of_cmp k q,
  eq_of_cmp k p,
  eq_of_cmp q p,
  cmp_refl q,
  lookup_below p es,
  lt_of_gt k q,
  above q k es,
)
