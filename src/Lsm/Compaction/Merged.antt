-- ===== src/Lsm/Compaction/Merged.antt =====
-- The merge of nanograph-lsm/src/compaction.rs ends, and has the entries of all its tables.
use nanograph.Prelude.{
  ℕ, zero, suc, ◌+◌, ◌≤◌, ◌≡◌, ◌⊎◌, inl, inr, refl, ◌∙◌, none, some, Bool, true, List, [], ◌∷◌,
  ◌++◌, length, if◌then◌else◌, Bool-cases, arith,
}
use nanograph.Lsm.MemTable.{Entry}
use nanograph.Lsm.Compaction.{
  Cursor, greater, pop, advance, merge_loop, cursors, entries_of, merge_sstables,
}

-- How many entries pass a test: in a list, in the tables, in a heap.
abbrev pub count : (Entry → Bool) → List Entry → ℕ
count p [] = 0
count p (e ∷ es) = (if p e then 1 else 0) + count p es

abbrev pub count_all : (Entry → Bool) → List (List Entry) → ℕ
count_all p [] = 0
count_all p (t ∷ ts) = count p t + count_all p ts

abbrev pub count_heap : (Entry → Bool) → List Cursor → ℕ
count_heap p [] = 0
count_heap p (c ∷ cs) = count p (c.entry ∷ c.left) + count_heap p cs

-- A heap is empty, or something is popped from it, and nothing else is lost.
pub pop-count_heap :
    (heap : List Cursor)
    → ((heap ≡ []) × (pop heap ≡ none))
      ⊎ ((c : Cursor) × (rest : List Cursor) × (pop heap ≡ some (c, rest))
          × ((p : Entry → Bool)
              → count_heap p heap ≡ count p (c.entry ∷ c.left) + count_heap p rest))
unfolding pop
pop-count_heap [] = inl (refl, refl)
pop-count_heap (c ∷ cs) = elim (pop-count_heap cs) [
  | inl (e, n) ↦ inr (c, [], rw n refl, λ p. rw e refl)
  | inr (d, rest, popped, same_count) ↦ elim (Bool-cases (greater c d)) [
    | inl t ↦ inr (c, d ∷ rest, rw (popped, t) refl, λ p. omega (arith, same_count p))
    | inr t ↦ inr (d, c ∷ rest, rw (popped, t) refl, λ p. omega (arith, same_count p))
  ]
]

advance-count_heap :
    (c : Cursor) (heap : List Cursor) (p : Entry → Bool)
    → count_heap p (advance c heap) ≡ count p c.left + count_heap p heap
unfolding advance
advance-count_heap c heap p = pushed c.left refl
  where
    pushed :
        (l : List Entry)
        → c.left ≡ l
        → count_heap p (advance c heap) ≡ count p c.left + count_heap p heap
    pushed [] e = rw (e, advance) (omega arith)
    pushed (x ∷ xs) e = rw (e, advance) refl

abbrev every : Entry → Bool
every e = true

merge_loop_ends :
    (fuel : ℕ) (heap : List Cursor)
    → count_heap every heap ≤ fuel
    → (es : List Entry) × (merge_loop fuel heap ≡ some es)
      × ((p : Entry → Bool) → count p es ≡ count_heap p heap)
unfolding merge_loop
merge_loop_ends zero heap l = elim (pop-count_heap heap) [
  | inl (e, n) ↦ ([], rw (n, merge_loop) refl, λ p. rw e refl)
  | inr (c, rest, popped, same_count) ↦ absurd (omega (arith, l, same_count every))
]
merge_loop_ends (suc fuel) heap l = elim (pop-count_heap heap) [
  | inl (e, n) ↦ ([], rw (n, merge_loop) refl, λ p. rw e refl)
  | inr (c, rest, popped, same_count) ↦
      let (es, made, counted) =
        merge_loop_ends fuel (advance c rest)
          (omega (arith, l, same_count every, advance-count_heap c rest every)) in
      (
        c.entry ∷ es,
        rw (popped, merge_loop, made) refl,
        λ p. omega (arith, counted p, same_count p, advance-count_heap c rest p),
      )
]

cursors-count_heap :
    (i : ℕ) (ts : List (List Entry)) (p : Entry → Bool)
    → count_heap p (cursors i ts) ≡ count_all p ts
unfolding cursors
cursors-count_heap i [] p = refl
cursors-count_heap i ([] ∷ ts) p = omega (arith, cursors-count_heap i ts p)
cursors-count_heap i ((e ∷ es) ∷ ts) p = omega (arith, cursors-count_heap (suc i) ts p)

count-every : (es : List Entry) → count every es ≡ length es
count-every [] = refl
count-every (e ∷ es) = omega (arith, count-every es)

count_all-every : (ts : List (List Entry)) → count_all every ts ≡ entries_of ts
count_all-every [] = refl
count_all-every (t ∷ ts) = omega (arith, count-every t, count_all-every ts)

count_all-append :
    (p : Entry → Bool) (xs ys : List (List Entry))
    → count_all p (xs ++ ys) ≡ count_all p xs + count_all p ys
count_all-append p [] ys = omega arith
count_all-append p (x ∷ xs) ys = omega (arith, count_all-append p xs ys)

-- A merge ends, and neither loses nor makes an entry: as many entries of its result pass a test, by
-- whatever test they are told apart, as of all its tables.
pub merge_sstables_total :
    (source target : List (List Entry))
    → (es : List Entry) × (merge_sstables source target ≡ some es)
      × ((p : Entry → Bool) → count p es ≡ count_all p source + count_all p target)
unfolding merge_sstables
merge_sstables_total source target =
    let ts = source ++ target in
    let (es, made, counted) =
      merge_loop_ends (entries_of ts) (cursors 0 ts)
        (omega (arith, cursors-count_heap 0 ts every, count_all-every ts)) in
    (es, made, λ p. counted p ∙ (cursors-count_heap 0 ts p ∙ count_all-append p source target))
