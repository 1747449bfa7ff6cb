-- ===== src/Kvm/Allocator/Wrap.antt =====
-- What the allocator of nanograph-kvm/src/allocator.rs does behind its last identifier.
use nanograph.Prelude.{ℕ, ◌+◌, ◌%◌, ◌^◌, ◌≤◌, ◌<◌, ◌≡◌, refl, ok, err, false, arith}
use nanograph.Kvm.Allocator.{
  exhausted, Outcome, stored, ObjectAllocator, u32_max, allocate, allocate_range, allocate_local,
  allocate_distributed, allocate_range_local, allocate_range_distributed, new_standalone,
}

-- The call that finds the last u32 reports exhaustion, and moves the counter to 0 all the same: the
-- next call hands out 0, and the one behind it hands out 1, which is what a new allocator hands
-- out first.
pub allocate_exhausted :
    (a : ObjectAllocator) (container : ℕ)
    → a.next_id ≡ u32_max
    → (b c d e : ObjectAllocator) × (allocate stored a ≡ (err exhausted, b))
      × (allocate stored b ≡ (ok 0, c))
      × (allocate stored c ≡ (ok 1, d))
      × (allocate stored (new_standalone container) ≡ (ok 1, e))
unfolding allocate allocate_local allocate_distributed new_standalone
allocate_exhausted a container h = (
  record a { next_id = 0 },
  record a { next_id = 1 },
  record a { next_id = 2 },
  record { container_id = container; next_id = 2; is_distributed = false },
  ground arith,
  ground arith,
  ground arith,
  refl,
)

-- A range that does not fit behind the counter is refused, but the counter moves, back below where
-- it stood: the next single allocation that is stored hands out an identifier from before it.
pub allocate_range_exhausted :
    (a : ObjectAllocator) (o : Outcome) (count : ℕ)
    → a.next_id < 2 ^ 32
    → count < 2 ^ 32
    → 2 ^ 32 ≤ a.next_id + count
    → (b c : ObjectAllocator) × (id : ℕ) × (allocate_range o a count ≡ (err exhausted, b))
      × (allocate stored b ≡ (ok id, c))
      × (id < a.next_id)
unfolding allocate allocate_local allocate_distributed allocate_range allocate_range_local
    allocate_range_distributed
allocate_range_exhausted a o count h k l =
    let id = (a.next_id + count) % 2 ^ 32 in
    (
      record a { next_id = id },
      record a { next_id = (id + 1) % 2 ^ 32 },
      id,
      ground arith,
      ground arith,
      omega arith,
    )
