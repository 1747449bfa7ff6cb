-- ===== src/Kvm/Tests.antt =====
-- Runs of the allocator of nanograph-kvm.
use nanograph.Prelude.{ℕ, ◌≡◌, refl, ok, err, [], ◌∷◌, false, arith, ◌+◌}
use nanograph.Kvm.Allocator.{
  ObjectAllocator, exhausted, stored, allocate, allocate_range, new_standalone, allocate_local,
  allocate_range_local,
}
use nanograph.Kvm.Allocator.Unique.{
  Run, one, many, nothing, call, IsConsecutive, Run-IsConsecutive, allocate_times, numbers_from,
  allocate_available,
}
use nanograph.Kvm.Allocator.Wrap.{allocate_exhausted}

abbrev from : ℕ → ObjectAllocator
from next_id = record { container_id = 6; next_id = next_id; is_distributed = false }

two_calls : Run (from 1) ((1, 2) ∷ (2, 12) ∷ []) (from 12)
unfolding allocate allocate_range allocate_local allocate_range_local
two_calls = call (one stored refl) (call (many stored 10 (omega arith) refl) nothing)

Run-IsConsecutive_example : IsConsecutive 1 ((1, 2) ∷ (2, 12) ∷ []) 12
Run-IsConsecutive_example =
    Run-IsConsecutive (from 1) (from 12) ((1, 2) ∷ (2, 12) ∷ []) (omega arith) two_calls

allocate_available_example :
    allocate_times 3 (from 1) ≡ (numbers_from 1 3, record (from 1) { next_id = 1 + 3 })
allocate_available_example = allocate_available 3 (from 1) (omega arith)

allocate_exhausted_example :
    (b c d e : ObjectAllocator) × (allocate stored (from 0xFFFFFFFF) ≡ (err exhausted, b))
    × (allocate stored b ≡ (ok 0, c))
    × (allocate stored c ≡ (ok 1, d))
    × (allocate stored (new_standalone 6) ≡ (ok 1, e))
allocate_exhausted_example = allocate_exhausted (from 0xFFFFFFFF) 6 refl
