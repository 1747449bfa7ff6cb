-- ===== src/Mvcc/Collect.antt =====
-- Garbage collection of a version chain: what it keeps, and which readers lose their value.
use nanograph.Prelude.{
  ℕ, zero, suc, ◌+◌, ◌-◌, ◌≤◌, ◌<◌, ◌≡◌, refl, none, some, [], ◌∷◌, true, false, arith, get_elem?,
  length,
}
use nanograph.Mvcc.Chain.{VersionedValue, VersionChain, is_visible, get, gc_versions, retain}
use nanograph.Mvcc.Snapshot.{IsNewestFirst, at_index}

-- After the first version is kept, only versions committed after the bound are.
get-retain_old :
    (m max k s : ℕ) (vs : VersionChain) → s ≤ m → get (retain m max (suc k) vs) s ≡ none
unfolding get retain
get-retain_old m max k s [] h = refl
get-retain_old m max k s (v ∷ vs) h =
    ground (arith, get-retain_old m max k s vs, get-retain_old m max (suc k) s vs)

-- A reader whose snapshot is not after the bound of the collection, and who does not see the first
-- version of the chain, gets nothing after it, whatever older version it saw before.
pub gc-loses :
    (v : VersionedValue) (vs : VersionChain) (m max s : ℕ)
    → is_visible v s ≡ false
    → s ≤ m
    → get (gc_versions (v ∷ vs) m max) s ≡ none
unfolding get gc_versions
gc-loses v vs m max s h l = ground (arith, get-retain_old m max 0 s vs l)

-- The versions that were committed after the bound are kept, while the cap leaves room.
get-retain :
    (m max k s : ℕ) (vs : VersionChain) (w : VersionedValue) (i : ℕ)
    → IsNewestFirst vs
    → k + length vs ≤ max
    → get_elem? vs i ≡ some w
    → is_visible w s ≡ true
    → m < w.commit_ts
    → get (retain m max k vs) s ≡ get vs s
unfolding get retain
get-retain m max k s [] w i n h e a b = cc
get-retain m max k s (v ∷ vs) w zero n h e a b = ground arith
get-retain m max k s (v ∷ vs) w (suc i) n h e a b = ground (
  arith,
  at_index (λ u. 0 < v.commit_ts → u.commit_ts < v.commit_ts) vs i w n.0 e,
  get-retain m max k s vs w i n.1 (omega arith) e a b,
  get-retain m max (suc k) s vs w i n.1 (omega arith) e a b,
)

-- In a chain that is newest first, a reader who sees a version that was committed after the bound of
-- the collection gets the same value after it, if the cap leaves room for the whole chain.
pub get-gc :
    (vs : VersionChain) (m max s i : ℕ) (w : VersionedValue)
    → IsNewestFirst vs
    → length vs ≤ max
    → get_elem? vs i ≡ some w
    → is_visible w s ≡ true
    → m < w.commit_ts
    → get (gc_versions vs m max) s ≡ get vs s
unfolding gc_versions
get-gc vs m max s i w n h e a b = get-retain m max 0 s vs w i n (omega arith) e a b

length-retain : (m max k : ℕ) (vs : VersionChain) → length (retain m max (suc k) vs) ≤ max - suc k
unfolding retain
length-retain m max k [] = omega arith
length-retain m max k (v ∷ vs) =
    ground (arith, length-retain m max k vs, length-retain m max (suc k) vs)

-- What is left of a chain that is not empty has at least one version, and at most the cap, or one
-- where the cap is 0.
pub length-gc :
    (v : VersionedValue) (vs : VersionChain) (m max : ℕ)
    → (0 < length (gc_versions (v ∷ vs) m max))
      × (length (gc_versions (v ∷ vs) m max) ≤ suc (max - 1))
unfolding gc_versions
length-gc v vs m max = ground (arith, length-retain m max 0 vs)
