-- ===== src/Mvcc/Tests.antt =====
-- A chain of versions and a manager, on which the theorems about them are applied.
use nanograph.Prelude.{◌≡◌, refl, none, some, [], ◌∷◌, false, arith, leb, if◌then◌else◌}
use nanograph.Mvcc.Chain
use nanograph.Mvcc.Chain.{
  VersionedValue, VersionChain, is_visible, add_version, get_latest, commit_versions,
  rollback_versions, gc_versions, has_conflict, exists_at,
}
use nanograph.Mvcc.Snapshot.{IsNewestFirst, get-write_commit, write_commit-IsNewestFirst}
use nanograph.Mvcc.Collect.{gc-loses}
use nanograph.Mvcc.Clock.{TimestampManager, IsValid}

abbrev first_version : VersionedValue
first_version = record { value = some (1 ∷ []); created_ts = 1; commit_ts = 2 }

abbrev second_version : VersionedValue
second_version = record { value = some (2 ∷ []); created_ts = 5; commit_ts = 6 }

abbrev two_versions : VersionChain
two_versions = second_version ∷ first_version ∷ []

-- A third transaction has written, and has not committed.
abbrev open_version : VersionedValue
open_version = record { value = some (3 ∷ []); created_ts = 8; commit_ts = 0 }

two_versions-IsNewestFirst : IsNewestFirst two_versions
two_versions-IsNewestFirst = ((λ h. omega arith, tt), (tt, tt))

two_versions-no_conflict : has_conflict two_versions 7 ≡ false
unfolding has_conflict
two_versions-no_conflict = refl

get-write_commit_example :
    Chain.get (commit_versions (add_version two_versions none 8) 8 9) 7
    ≡ (if leb 9 7 then none else Chain.get two_versions 7)
get-write_commit_example = get-write_commit two_versions none 8 9 7 (omega arith)

write_commit-IsNewestFirst_example :
    IsNewestFirst (commit_versions (add_version two_versions none 8) 8 9)
    × (has_conflict (commit_versions (add_version two_versions none 8) 8 9) 12 ≡ false)
write_commit-IsNewestFirst_example =
    write_commit-IsNewestFirst two_versions none 8 7 9 12 two_versions-IsNewestFirst
      two_versions-no_conflict (omega arith) (omega arith)

gc-loses_example : Chain.get (gc_versions two_versions 3 100) 3 ≡ none
gc-loses_example = gc-loses second_version (first_version ∷ []) 3 100 3 refl (omega arith)

abbrev busy : TimestampManager
busy = record { current = 9; active_snapshots = (3, 2) ∷ (7, 1) ∷ [] }

busy-IsValid : IsValid busy
busy-IsValid = (omega arith, (omega arith, tt), (omega arith, tt, tt))
