-- ===== src/Mvcc/Snapshot.antt =====
-- What a reader with a snapshot sees, and that writers do not disturb it.
use nanograph.Prelude.{
  ℕ, zero, suc, ◌≤◌, ◌<◌, ◌≡◌, ◌≢◌, ◌↔◌, refl, subst, Option, none, some, List, [], ◌∷◌, true,
  false, arith, leb, if◌then◌else◌, get_elem?,
}
use mathlib.Core.Option.{some-injective}
use nanograph.Bytes.{Bytes}
use nanograph.BTree.Entries.{All}
use nanograph.Mvcc.Chain.{
  VersionedValue, VersionChain, is_visible, new_version, add_version, get, exists_at, get_latest,
  commit_versions, rollback_versions, has_conflict, commit,
}

-- Later in the chain is committed no later.
abbrev pub IsNewestFirst : VersionChain → Type 0
IsNewestFirst [] = Unit
IsNewestFirst (v ∷ vs) =
    All (λ u. 0 < v.commit_ts → u.commit_ts < v.commit_ts) vs × IsNewestFirst vs

pub at_index {ℓ κ} :
    {A : Type ℓ} (P : A → Type κ) (xs : List A) (i : ℕ) (x : A)
    → All P xs
    → get_elem? xs i ≡ some x
    → P x
at_index P [] i x h e = cc
at_index P (y ∷ ys) zero x h e = subst P (some-injective y x e) h.0
at_index P (y ∷ ys) (suc i) x h e = at_index P ys i x h.1 e

-- In a chain that is newest first, a reader gets the value of the visible version that was committed
-- last.
pub get-newest :
    (vs : VersionChain) (snapshot_ts i : ℕ) (v : VersionedValue)
    → IsNewestFirst vs
    → get_elem? vs i ≡ some v
    → is_visible v snapshot_ts ≡ true
    → All (λ u. is_visible u snapshot_ts ≡ true → u.commit_ts ≤ v.commit_ts) vs
    → get vs snapshot_ts ≡ v.value
unfolding get
get-newest [] s i v n e h m = cc
get-newest (u ∷ us) s zero v n e h m = ground arith
get-newest (u ∷ us) s (suc i) v n e h m = ground (
  arith,
  get-newest us s i v n.1 e h m.1,
  at_index (λ w. 0 < u.commit_ts → w.commit_ts < u.commit_ts) us i v n.0 e,
)

get-commit_old :
    (vs : VersionChain) (ts c s : ℕ) → s < c → get (commit_versions vs ts c) s ≡ get vs s
unfolding get commit_versions
get-commit_old [] ts c s h = refl
get-commit_old (v ∷ vs) ts c s h = ground (arith, get-commit_old vs ts c s h)

-- A transaction writes a value and commits: readers from its commit on get the value, and readers of
-- older snapshots get what they got before.
pub get-write_commit :
    (vs : VersionChain) (value : Option Bytes) (ts c s : ℕ)
    → 0 < c
    → get (commit_versions (add_version vs value ts) ts c) s ≡ (if leb c s then value else get vs s)
unfolding get add_version commit_versions
get-write_commit vs value ts c s h = ground (arith, get-commit_old vs ts c s)

commit_versions-committed :
    (vs : VersionChain) (ts c s : ℕ) → has_conflict vs s ≡ false → commit_versions vs ts c ≡ vs
unfolding commit_versions has_conflict
commit_versions-committed [] ts c s h = refl
commit_versions-committed (v ∷ vs) ts c s h = ground (arith, commit_versions-committed vs ts c s)

older_than :
    (vs : VersionChain) (s c : ℕ)
    → has_conflict vs s ≡ false
    → s < c
    → All (λ u. 0 < c → u.commit_ts < c) vs
unfolding has_conflict
older_than [] s c h l = tt
older_than (v ∷ vs) s c h l = ground (arith, older_than vs s c)

has_conflict_later :
    (vs : VersionChain) (s c : ℕ) → has_conflict vs s ≡ false → s < c → has_conflict vs c ≡ false
unfolding has_conflict
has_conflict_later [] s c h l = refl
has_conflict_later (v ∷ vs) s c h l = ground (arith, has_conflict_later vs s c)

write_commit-eq :
    (vs : VersionChain) (value : Option Bytes) (ts s c : ℕ)
    → has_conflict vs s ≡ false
    → commit_versions (add_version vs value ts) ts c ≡ commit (new_version value ts) c ∷ vs
unfolding commit_versions add_version
write_commit-eq vs value ts s c h = ground (arith, commit_versions-committed vs ts c s h)

-- A transaction that finds no conflict for its snapshot, writes, and commits after the snapshot,
-- keeps the order of the chain, and leaves no conflict for any snapshot from its commit on.
pub write_commit-IsNewestFirst :
    (vs : VersionChain) (value : Option Bytes) (ts s c later : ℕ)
    → IsNewestFirst vs
    → has_conflict vs s ≡ false
    → s < c
    → c ≤ later
    → IsNewestFirst (commit_versions (add_version vs value ts) ts c)
      × (has_conflict (commit_versions (add_version vs value ts) ts c) later ≡ false)
write_commit-IsNewestFirst vs value ts s c later n h l m = rw (write_commit-eq vs value ts s c h) (
  (older_than vs s c h l, n),
  unfold has_conflict in ground (arith, has_conflict_later vs s later h (omega (arith, l, m))),
)

-- Rolling a transaction back that has committed no version in the chain changes no read.
pub get-rollback :
    (vs : VersionChain) (ts s : ℕ)
    → All (λ v. v.created_ts ≡ ts → v.commit_ts ≡ 0) vs
    → get (rollback_versions vs ts) s ≡ get vs s
unfolding get rollback_versions
get-rollback [] ts s h = refl
get-rollback (v ∷ vs) ts s h = ground (arith, get-rollback vs ts s h.1, h.0)

-- Where a snapshot finds no conflict, every reader from the snapshot on gets the latest committed
-- value.
pub get-no_conflict :
    (vs : VersionChain) (s t : ℕ)
    → has_conflict vs s ≡ false
    → s ≤ t
    → (get vs t ≡ get_latest vs) × (get vs s ≡ get_latest vs)
unfolding get has_conflict get_latest
get-no_conflict [] s t h l = (refl, refl)
get-no_conflict (v ∷ vs) s t h l = ground (arith, get-no_conflict vs s t)

no_conflict_sees :
    (vs : VersionChain) (s : ℕ) → has_conflict vs s ≡ false → All (λ v. is_visible v s ≡ true) vs
unfolding has_conflict
no_conflict_sees [] s h = tt
no_conflict_sees (v ∷ vs) s h = ground (arith, no_conflict_sees vs s)

no_conflict_of_visible :
    (vs : VersionChain) (s : ℕ) → All (λ v. is_visible v s ≡ true) vs → has_conflict vs s ≡ false
unfolding has_conflict
no_conflict_of_visible [] s h = refl
no_conflict_of_visible (v ∷ vs) s h = ground (arith, no_conflict_of_visible vs s)

-- A snapshot finds no conflict exactly where every version of the chain is visible to it.
pub has_conflict_iff :
    (vs : VersionChain) (s : ℕ) → (has_conflict vs s ≡ false) ↔ All (λ v. is_visible v s ≡ true) vs
has_conflict_iff vs s = (no_conflict_sees vs s, no_conflict_of_visible vs s)

-- `exists_at` and `get` agree: no value is read where the key does not exist, and a value is read
-- where it does.
pub exists_at-get :
    (vs : VersionChain) (s : ℕ)
    → (exists_at vs s ≡ false → get vs s ≡ none) × (exists_at vs s ≡ true → get vs s ≢ none)
unfolding exists_at get
exists_at-get [] s = ground arith
exists_at-get (v ∷ vs) s = ground (arith, exists_at-get vs s)
