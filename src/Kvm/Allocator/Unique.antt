-- ===== src/Kvm/Allocator/Unique.antt =====
-- Which identifiers the allocator of nanograph-kvm/src/allocator.rs hands out, over any sequence
-- of calls.
use nanograph.Prelude.{
  ℕ, zero, suc, subst, ap, ◌∙◌, Result, ◌+◌, ◌^◌, ◌≤◌, ◌<◌, ◌≡◌, refl, sym, ok, List, [], ◌∷◌,
  arith,
}
use nanograph.Kvm.Allocator.{
  Outcome, stored, AllocationError, ObjectAllocator, u32_max, allocate, allocate_range,
  allocate_local, allocate_distributed, allocate_range_local, allocate_range_distributed,
}

-- A call of the allocator, with what becomes of its command, and the half-open range of the
-- identifiers that it hands out.
pub data Step (a : ObjectAllocator) : ℕ → ℕ → ObjectAllocator → Type 0 where
  one :
      {a' : ObjectAllocator} {id : ℕ} (o : Outcome)
      → allocate o a ≡ (ok id, a')
      → Step a id (id + 1) a'
  many :
      {a' : ObjectAllocator} {start end : ℕ} (o : Outcome) (count : ℕ)
      → count < 2 ^ 32
      → allocate_range o a count ≡ (ok (start, end), a')
      → Step a start end a'

-- Calls that all succeed, and the ranges that they hand out, first call first.
pub data Run : ObjectAllocator → List (ℕ × ℕ) → ObjectAllocator → Type 0 where
  nothing : {a : ObjectAllocator} → Run a [] a
  call :
      {a b c : ObjectAllocator} {lo hi : ℕ} {rest : List (ℕ × ℕ)}
      → Step a lo hi b
      → Run b rest c
      → Run a ((lo, hi) ∷ rest) c

-- The ranges follow on each other from a first identifier up to a last, without a gap.
unfoldable pub IsConsecutive : ℕ → List (ℕ × ℕ) → ℕ → Type 0
IsConsecutive from [] upto = from ≡ upto
IsConsecutive from ((lo, hi) ∷ rest) upto = (from ≡ lo) × (lo ≤ hi) × IsConsecutive hi rest upto

-- The counter is a u32.
abbrev pub IsU32 : ObjectAllocator → Type 0
IsU32 a = a.next_id < 2 ^ 32

Step-Advances :
    (a a' : ObjectAllocator) (lo hi : ℕ)
    → IsU32 a
    → Step a lo hi a'
    → (lo ≡ a.next_id) × (lo ≤ hi) × (hi ≡ a'.next_id) × IsU32 a'
unfolding allocate allocate_range allocate_local allocate_distributed allocate_range_local
    allocate_range_distributed
Step-Advances a a' lo hi u (one o e) = ground arith
Step-Advances a a' lo hi u (many o count c e) = ground arith

-- Whatever sequence of calls succeeds, of one identifier or of ranges and in either mode, the
-- ranges that it hands out follow on each other from the counter's first value up to its last: no
-- identifier is handed out twice, and none is left out.
pub Run-IsConsecutive :
    (a b : ObjectAllocator) (ranges : List (ℕ × ℕ))
    → IsU32 a
    → Run a ranges b
    → IsConsecutive a.next_id ranges b.next_id
unfolding IsConsecutive
Run-IsConsecutive a b [] u nothing = refl
Run-IsConsecutive a b ((lo, hi) ∷ rest) u (call step run) =
    let (e, l, h, u') = Step-Advances _ _ lo hi u step in
    (
      sym e,
      l,
      subst (λ n. IsConsecutive n rest b.next_id) (sym h) (Run-IsConsecutive _ b rest u' run),
    )

-- The results of single allocations, one after the other, whose commands consensus stores, and the
-- allocator after them.
abbrev pub allocate_times : ℕ → ObjectAllocator → List (Result ℕ AllocationError) × ObjectAllocator
allocate_times zero a = ([], a)
allocate_times (suc n) a =
    let (id, a') = allocate stored a in let (ids, b) = allocate_times n a' in (id ∷ ids, b)

-- As many numbers from a first one on, each as a success.
abbrev pub numbers_from : ℕ → ℕ → List (Result ℕ AllocationError)
numbers_from first zero = []
numbers_from first (suc n) = ok first ∷ numbers_from (first + 1) n

allocate_below_max :
    (a : ObjectAllocator)
    → a.next_id < u32_max
    → allocate stored a ≡ (ok a.next_id, record a { next_id = a.next_id + 1 })
unfolding allocate allocate_local allocate_distributed
allocate_below_max a h = ground arith

-- The allocator does not run dry early, in either mode: where the counter and the number of calls
-- add up to at most the largest u32, that many single allocations, whose commands consensus stores,
-- all succeed. They hand out the numbers from the counter on, one by one, and move the counter by as
-- many.
pub allocate_available :
    (n : ℕ) (a : ObjectAllocator)
    → a.next_id + n ≤ u32_max
    → allocate_times n a ≡ (numbers_from a.next_id n, record a { next_id = a.next_id + n })
allocate_available zero a h =
    let same : a.next_id ≡ a.next_id + 0 = omega arith in
    ap (λ k. ([], record a { next_id = k })) same
allocate_available (suc n) a h =
    let next = record a { next_id = a.next_id + 1 } in
    let sum : a.next_id + 1 + n ≡ a.next_id + suc n = omega arith in
    ap (λ p. let (ids, b) = allocate_times n p.1 in (p.0 ∷ ids, b))
      (allocate_below_max a (omega (arith, h)))
    ∙ ap (λ p. (ok a.next_id ∷ p.0, p.1)) (allocate_available n next (omega (arith, h)))
    ∙ ap (λ k. (numbers_from a.next_id (suc n), record a { next_id = k })) sum
