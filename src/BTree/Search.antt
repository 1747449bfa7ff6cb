-- ===== src/BTree/Search.antt =====
-- `slice::binary_search_by` of the Rust standard library, on a slice that is sorted for the
-- comparison, as the keys of a node are: the index of the element that compares equal, or else the
-- index at which one could be inserted.
use Prim.Native.Nat.Ordering.{lt, eq, gt}
use nanograph.Prelude.{ℕ, suc, Result, ok, err, List, [], ◌∷◌, Ordering}

abbrev pub step_right : Result ℕ ℕ → Result ℕ ℕ
step_right (ok i) = ok (suc i)
step_right (err i) = err (suc i)

unfoldable pub binary_search_by {ℓ} : {A : Type ℓ} → (A → Ordering) → List A → Result ℕ ℕ
binary_search_by f [] = err 0
binary_search_by f (x ∷ xs) = elim (f x) [
  | lt ↦ step_right (binary_search_by f xs)
  | eq ↦ ok 0
  | gt ↦ err 0
]
