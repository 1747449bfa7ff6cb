-- ===== src/Kvm/Allocator.antt =====
-- `ObjectAllocator` of nanograph-kvm/src/allocator.rs. A call that changes the counter, an
-- `AtomicU32`, is one atomic step on it and returns the allocator after the call. What becomes of
-- a command that is handed to the consensus manager, a wrapper of a package, is an argument of the
-- call.
pub mod Unique
pub mod Wrap
use nanograph.Prelude.{
  ℕ, zero, suc, ◌+◌, ◌-◌, ◌%◌, ◌^◌, Option, none, some, Result, ok, err, List, [], ◌∷◌, Bool, true,
  false, ◌==◌, ltb, min, if◌then◌else◌,
}

pub data AllocationError : Type 0 where
  not_leader : AllocationError
  consensus_error : AllocationError
  exhausted : AllocationError
  internal : AllocationError

pub data AllocationCommand : Type 0 where
  allocate_object_id : ℕ → ℕ → AllocationCommand
  allocate_object_id_range : ℕ → ℕ → ℕ → AllocationCommand

-- What serializing a command and storing it through consensus come to.
pub data Outcome : Type 0 where
  stored : Outcome
  not_serialized : Outcome
  not_stored : Outcome

pub record ObjectAllocator : Type 0 where
  pub container_id : ℕ
  pub next_id : ℕ
  pub is_distributed : Bool

abbrev pub u32_max : ℕ
u32_max = 0xFFFFFFFF

unfoldable pub new_standalone : ℕ → ObjectAllocator
new_standalone container_id = record {
  container_id = container_id;
  next_id = 1;
  is_distributed = false;
}

unfoldable pub new_distributed : ℕ → ObjectAllocator
new_distributed container_id = record {
  container_id = container_id;
  next_id = 1;
  is_distributed = true;
}

unfoldable pub with_start_id : ℕ → ℕ → Bool → ObjectAllocator
with_start_id container_id start_id raft = record {
  container_id = container_id;
  next_id = start_id;
  is_distributed = raft;
}

-- `fetch_add`, which wraps.
abbrev pub advanced : ObjectAllocator → ℕ → ObjectAllocator
advanced a count = record a { next_id = (a.next_id + count) % 2 ^ 32 }

unfoldable pub allocate_local : ObjectAllocator → Result ℕ AllocationError × ObjectAllocator
allocate_local a =
    let id = a.next_id in ((if id == u32_max then err exhausted else ok id), advanced a 1)

abbrev pub settled : {A : Type 0} → Outcome → A → Result A AllocationError
settled stored v = ok v
settled not_serialized v = err internal
settled not_stored v = err consensus_error

unfoldable pub allocate_distributed :
    Outcome → ObjectAllocator → Result ℕ AllocationError × ObjectAllocator
allocate_distributed o a =
    let id = a.next_id in ((if id == u32_max then err exhausted else settled o id), advanced a 1)

unfoldable pub allocate : Outcome → ObjectAllocator → Result ℕ AllocationError × ObjectAllocator
allocate o a = if a.is_distributed then allocate_distributed o a else allocate_local a

-- `checked_add` on u32.
abbrev pub checked_add : ℕ → ℕ → Option ℕ
checked_add a b = if ltb (a + b) (2 ^ 32) then some (a + b) else none

unfoldable pub allocate_range_local :
    ObjectAllocator → ℕ → Result (ℕ × ℕ) AllocationError × ObjectAllocator
allocate_range_local a count =
    let start = a.next_id in
    (
      (elim (checked_add start count) [ none ↦ err exhausted | some end ↦ ok (start, end) ]),
      advanced a count,
    )

unfoldable pub allocate_range_distributed :
    Outcome → ObjectAllocator → ℕ → Result (ℕ × ℕ) AllocationError × ObjectAllocator
allocate_range_distributed o a count =
    let start = a.next_id in
    (
      (elim (checked_add start count) [ none ↦ err exhausted | some end ↦ settled o (start, end) ]),
      advanced a count,
    )

unfoldable pub allocate_range :
    Outcome → ObjectAllocator → ℕ → Result (ℕ × ℕ) AllocationError × ObjectAllocator
allocate_range o a count =
    if a.is_distributed then allocate_range_distributed o a count else allocate_range_local a count

unfoldable pub apply_allocation : ObjectAllocator → AllocationCommand → ObjectAllocator
apply_allocation a (allocate_object_id container_id object_id) = record a {
  next_id = min (object_id + 1) u32_max;
}
apply_allocation a (allocate_object_id_range container_id start end) = record a { next_id = end }

unfoldable pub current_next_id : ObjectAllocator → ℕ
current_next_id a = a.next_id

unfoldable pub reset_to : ObjectAllocator → ℕ → ObjectAllocator
reset_to a id = record a { next_id = id }
