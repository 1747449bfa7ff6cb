-- ===== src/Mvcc/Chain.antt =====
-- `VersionedValue` and `VersionChain` of nanograph-btree/src/mvcc.rs. A method that changes the
-- chain returns the chain after the call.
use nanograph.Prelude.{
  ℕ, suc, Option, none, some, List, [], ◌∷◌, Bool, true, false, not, ◌&&◌, ltb, leb, ◌==◌,
  if◌then◌else◌,
}
use nanograph.Bytes.{Bytes}

-- `value` is `none` in a deletion marker; `commit_ts` is 0 in a version that is not committed.
pub record VersionedValue : Type 0 where
  pub value : Option Bytes
  pub created_ts : ℕ
  pub commit_ts : ℕ

abbrev pub new_version : Option Bytes → ℕ → VersionedValue
new_version value created_ts = record { value = value; created_ts = created_ts; commit_ts = 0 }

abbrev pub commit : VersionedValue → ℕ → VersionedValue
commit v ts = record v { commit_ts = ts }

abbrev pub is_visible : VersionedValue → ℕ → Bool
is_visible v snapshot_ts = ltb 0 v.commit_ts && leb v.commit_ts snapshot_ts

abbrev pub is_uncommitted : VersionedValue → Bool
is_uncommitted v = v.commit_ts == 0

abbrev pub is_deletion : VersionedValue → Bool
is_deletion v = elim v.value [ none ↦ true | some b ↦ false ]

-- The chain is its list of versions, newest first.
abbrev pub VersionChain : Type 0
VersionChain = List VersionedValue

abbrev pub with_version : Bytes → ℕ → VersionChain
with_version value created_ts = new_version (some value) created_ts ∷ []

unfoldable pub add_version : VersionChain → Option Bytes → ℕ → VersionChain
add_version vs value created_ts = new_version value created_ts ∷ vs

unfoldable pub get : VersionChain → ℕ → Option Bytes
get [] snapshot_ts = none
get (v ∷ vs) snapshot_ts = if is_visible v snapshot_ts then v.value else get vs snapshot_ts

unfoldable pub exists_at : VersionChain → ℕ → Bool
exists_at [] timestamp = false
exists_at (v ∷ vs) timestamp =
    if is_visible v timestamp then not (is_deletion v) else exists_at vs timestamp

unfoldable pub get_latest : VersionChain → Option Bytes
get_latest [] = none
get_latest (v ∷ vs) = if ltb 0 v.commit_ts then v.value else get_latest vs

unfoldable pub commit_versions : VersionChain → ℕ → ℕ → VersionChain
commit_versions [] created_ts commit_ts = []
commit_versions (v ∷ vs) created_ts commit_ts =
    (if (v.created_ts == created_ts) && is_uncommitted v then commit v commit_ts else v)
    ∷ commit_versions vs created_ts commit_ts

unfoldable pub rollback_versions : VersionChain → ℕ → VersionChain
rollback_versions [] created_ts = []
rollback_versions (v ∷ vs) created_ts =
    let rest = rollback_versions vs created_ts in
    if v.created_ts == created_ts then rest else v ∷ rest

-- The closure of `retain`, with the number of versions kept so far.
unfoldable pub retain : ℕ → ℕ → ℕ → VersionChain → VersionChain
retain min_snapshot_ts max_versions keep_count [] = []
retain min_snapshot_ts max_versions keep_count (v ∷ vs) =
    let kept = v ∷ retain min_snapshot_ts max_versions (suc keep_count) vs in
    let dropped = retain min_snapshot_ts max_versions keep_count vs in
    if keep_count == 0
    then kept
    else if ltb min_snapshot_ts v.commit_ts && ltb keep_count max_versions
    then kept
    else dropped

unfoldable pub gc_versions : VersionChain → ℕ → ℕ → VersionChain
unfolding retain
gc_versions vs min_snapshot_ts max_versions = retain min_snapshot_ts max_versions 0 vs

unfoldable pub latest_commit_ts : VersionChain → Option ℕ
latest_commit_ts [] = none
latest_commit_ts (v ∷ vs) = if ltb 0 v.commit_ts then some v.commit_ts else latest_commit_ts vs

unfoldable pub has_conflict : VersionChain → ℕ → Bool
has_conflict [] snapshot_ts = false
has_conflict (v ∷ vs) snapshot_ts =
    if is_uncommitted v
    then true
    else if ltb snapshot_ts v.commit_ts
    then true
    else has_conflict vs snapshot_ts
