-- ===== src/Mvcc/Clock.antt =====
-- `TimestampManager` of nanograph-btree/src/mvcc.rs: the timestamp counter, and the active
-- snapshots, which the garbage collection asks for the oldest. The counter is an atomic `u64`, and
-- the snapshots are a `BTreeMap` from a timestamp to a count, here a list in ascending order.
use nanograph.Prelude.{
  ℕ, ◌+◌, ◌-◌, ◌%◌, ◌^◌, ◌≤◌, ◌<◌, ◌≡◌, refl, Option, none, some, List, [], ◌∷◌, arith, compare,
  Ordering, ◌==◌, if◌then◌else◌, length,
}
use mathlib.Core.Option.{some-injective}
use nanograph.BTree.Entries.{All, All-imp}

pub record TimestampManager : Type 0 where
  pub current : ℕ
  pub active_snapshots : List (ℕ × ℕ)

abbrev pub new : TimestampManager
new = record { current = 1; active_snapshots = [] }

-- The timestamp, and the manager with the counter one further on; `fetch_add` wraps round.
unfoldable pub next : TimestampManager → ℕ × TimestampManager
next m = (m.current, record m { current = (m.current + 1) % 2 ^ 64 })

-- `*snapshots.entry(timestamp).or_insert(0) += 1`
unfoldable pub add_count : ℕ → List (ℕ × ℕ) → List (ℕ × ℕ)
add_count t [] = (t, 1) ∷ []
add_count t ((u, n) ∷ r) = elim (compare u t) [
  | Ordering.lt ↦ (u, n) ∷ add_count t r
  | Ordering.eq ↦ (u, n + 1) ∷ r
  | Ordering.gt ↦ (t, 1) ∷ (u, n) ∷ r
]

-- A count of one more than 0 goes down; the entry is removed at 0.
unfoldable pub drop_count : ℕ → List (ℕ × ℕ) → List (ℕ × ℕ)
drop_count t [] = []
drop_count t ((u, n) ∷ r) = elim (compare u t) [
  | Ordering.lt ↦ (u, n) ∷ drop_count t r
  | Ordering.eq ↦ if n - 1 == 0 then r else (u, n - 1) ∷ r
  | Ordering.gt ↦ (u, n) ∷ r
]

unfoldable pub register_snapshot : TimestampManager → ℕ → TimestampManager
unfolding add_count
register_snapshot m t = record m { active_snapshots = add_count t m.active_snapshots }

unfoldable pub unregister_snapshot : TimestampManager → ℕ → TimestampManager
unfolding drop_count
unregister_snapshot m t = record m { active_snapshots = drop_count t m.active_snapshots }

abbrev first_key : List (ℕ × ℕ) → Option ℕ
first_key [] = none
first_key ((t, n) ∷ r) = some t

unfoldable pub min_active_snapshot : TimestampManager → Option ℕ
min_active_snapshot m = first_key m.active_snapshots

unfoldable pub active_snapshot_count : TimestampManager → ℕ
active_snapshot_count m = length m.active_snapshots

-- The timestamps ascend, and no count is 0.
abbrev IsCounts : List (ℕ × ℕ) → Type 0
IsCounts [] = Unit
IsCounts ((t, n) ∷ r) = (0 < n) × All (λ e. t < e.0) r × IsCounts r

abbrev pub IsValid : TimestampManager → Type 0
IsValid m = IsCounts m.active_snapshots

-- How often a timestamp is registered.
unfoldable pub count : ℕ → List (ℕ × ℕ) → ℕ
count t [] = 0
count t ((u, n) ∷ r) = if u == t then n else count t r

All-add_count :
    (k t : ℕ) (r : List (ℕ × ℕ)) → k < t → All (λ e. k < e.0) r → All (λ e. k < e.0) (add_count t r)
unfolding add_count
All-add_count k t [] l h = (l, tt)
All-add_count k t ((u, n) ∷ r) l h = ground (arith, All-add_count k t r)

above : (k t : ℕ) (r : List (ℕ × ℕ)) → k < t → All (λ e. t < e.0) r → All (λ e. k < e.0) r
above k t r l h = All-imp (λ e p. omega arith) r h

add_count-IsCounts : (t : ℕ) (r : List (ℕ × ℕ)) → IsCounts r → IsCounts (add_count t r)
unfolding add_count
add_count-IsCounts t [] h = (omega arith, tt, tt)
add_count-IsCounts t ((u, n) ∷ r) h =
    ground (arith, add_count-IsCounts t r, All-add_count u t r, above t u r)

count_above : (q : ℕ) (r : List (ℕ × ℕ)) → All (λ e. q < e.0) r → count q r ≡ 0
unfolding count
count_above q [] h = refl
count_above q ((u, n) ∷ r) h = ground (arith, count_above q r)

count-add_count :
    (t q : ℕ) (r : List (ℕ × ℕ))
    → IsCounts r
    → count q (add_count t r) ≡ (if t == q then count q r + 1 else count q r)
unfolding count add_count
count-add_count t q [] h = ground arith
count-add_count t q ((u, n) ∷ r) h =
    ground (arith, count-add_count t q r, count_above q r, above t u r, above q u r)

All-drop_count :
    (k t : ℕ) (r : List (ℕ × ℕ)) → All (λ e. k < e.0) r → All (λ e. k < e.0) (drop_count t r)
unfolding drop_count
All-drop_count k t [] h = tt
All-drop_count k t ((u, n) ∷ r) h = ground (arith, All-drop_count k t r)

drop_count-IsCounts : (t : ℕ) (r : List (ℕ × ℕ)) → IsCounts r → IsCounts (drop_count t r)
unfolding drop_count
drop_count-IsCounts t [] h = tt
drop_count-IsCounts t ((u, n) ∷ r) h = ground (arith, drop_count-IsCounts t r, All-drop_count u t r)

count-drop_count :
    (t q : ℕ) (r : List (ℕ × ℕ))
    → IsCounts r
    → count q (drop_count t r) ≡ (if t == q then count q r - 1 else count q r)
unfolding count drop_count
count-drop_count t q [] h = ground arith
count-drop_count t q ((u, n) ∷ r) h =
    ground (arith, count-drop_count t q r, count_above q r, above t u r, above q u r)

-- Registering a snapshot in a valid manager leaves it valid, and counts its timestamp once more, and
-- no other.
pub register-count :
    (m : TimestampManager) (t : ℕ)
    → IsValid m
    → IsValid (register_snapshot m t)
      × ((q : ℕ)
          → count q (register_snapshot m t).active_snapshots
            ≡ (if t == q then count q m.active_snapshots + 1 else count q m.active_snapshots))
unfolding register_snapshot
register-count m t h =
    (add_count-IsCounts t m.active_snapshots h, λ q. count-add_count t q m.active_snapshots h)

-- Unregistering a snapshot of a valid manager leaves it valid, and counts its timestamp once less,
-- if it was counted at all, and no other.
pub unregister-count :
    (m : TimestampManager) (t : ℕ)
    → IsValid m
    → IsValid (unregister_snapshot m t)
      × ((q : ℕ)
          → count q (unregister_snapshot m t).active_snapshots
            ≡ (if t == q then count q m.active_snapshots - 1 else count q m.active_snapshots))
unfolding unregister_snapshot
unregister-count m t h =
    (drop_count-IsCounts t m.active_snapshots h, λ q. count-drop_count t q m.active_snapshots h)

first_is_least :
    (t n q : ℕ) (r : List (ℕ × ℕ)) → All (λ e. t < e.0) r → 0 < count q ((t, n) ∷ r) → t ≤ q
unfolding count
first_is_least t n q [] a h = ground arith
first_is_least t n q ((u, k) ∷ r) a h = ground (arith, first_is_least t n q r)

first_key-least :
    (r : List (ℕ × ℕ))
    → IsCounts r
    → ((t : ℕ) → first_key r ≡ some t → (0 < count t r) × ((q : ℕ) → 0 < count q r → t ≤ q))
      × (first_key r ≡ none → (q : ℕ) → count q r ≡ 0)
first_key-least [] h = (λ t e. cc, λ e q. unfold count in refl)
first_key-least ((u, n) ∷ r) h = (
  λ t e.
      let same : u ≡ t = some-injective u t e in
      (
        rw (← same) (unfold count in ground arith),
        λ q c. rw (← same) (first_is_least u n q r h.1 c),
      ),
  λ e. cc,
)

-- In a valid manager the oldest active snapshot is registered, and no registered one is older; where
-- there is none, no timestamp is registered.
pub min_active_snapshot-least :
    (m : TimestampManager)
    → IsValid m
    → ((t : ℕ)
        → min_active_snapshot m ≡ some t
        → (0 < count t m.active_snapshots) × ((q : ℕ) → 0 < count q m.active_snapshots → t ≤ q))
      × (min_active_snapshot m ≡ none → (q : ℕ) → count q m.active_snapshots ≡ 0)
unfolding min_active_snapshot
min_active_snapshot-least m h = first_key-least m.active_snapshots h
