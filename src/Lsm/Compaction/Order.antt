-- ===== src/Lsm/Compaction/Order.antt =====
-- The order in which the merge of nanograph-lsm/src/compaction.rs takes the entries of its tables.
use mathlib.Core.Option
use Prim.Native.Nat.Ordering.{lt, eq}
use nanograph.Prelude.{
  ℕ, zero, suc, ◌≤◌, ◌≡◌, ◌⊎◌, inl, inr, refl, sym, subst, Option, none, some, true, false, List,
  [], ◌∷◌, ◌++◌, compare, Ordering-cases, Bool-cases, arith,
}
use nanograph.BTree.Entries.{All}
use nanograph.Bytes.{Bytes, ◌≺◌, cmp, cmp_refl, eq_of_cmp, lt_of_gt, lt_trans}
use nanograph.Lsm.MemTable.{Entry}
use nanograph.Lsm.Compaction.{
  Cursor, cmp_entries, greater, pop, advance, merge_loop, cursors, entries_of, merge_sstables,
}

-- The key is less, or the same with a sequence number that is at most as large.
abbrev pub ComesFirst : Entry → Entry → Type 0
ComesFirst a b = (a.key ≺ b.key) ⊎ ((cmp a.key b.key ≡ eq) × (a.sequence ≤ b.sequence))

-- The entries come in order, behind one that comes before them all.
abbrev pub IsOrderedFrom : Entry → List Entry → Type 0
IsOrderedFrom x [] = Unit {0}
IsOrderedFrom x (y ∷ ys) = ComesFirst x y × IsOrderedFrom y ys

abbrev pub IsOrdered : List Entry → Type 0
IsOrdered [] = Unit {0}
IsOrdered (x ∷ xs) = IsOrderedFrom x xs

pub ComesFirst-trans : (a b c : Entry) → ComesFirst a b → ComesFirst b c → ComesFirst a c
ComesFirst-trans a b c (inl x) (inl y) = inl (lt_trans a.key b.key c.key x y)
ComesFirst-trans a b c (inl x) (inr (y, _)) =
    inl (subst (λ k. cmp a.key k ≡ lt) (eq_of_cmp b.key c.key y) x)
ComesFirst-trans a b c (inr (x, _)) (inl y) =
    inl (subst (λ k. cmp k c.key ≡ lt) (sym (eq_of_cmp a.key b.key x)) y)
ComesFirst-trans a b c (inr (x, m)) (inr (y, n)) =
    inr (subst (λ k. cmp a.key k ≡ eq) (eq_of_cmp b.key c.key y) x, omega (arith, m, n))

same_back : (a b : Bytes) → cmp a b ≡ eq → cmp b a ≡ eq
same_back a b h = subst (λ k. cmp k a ≡ eq) (eq_of_cmp a b h) (cmp_refl a)

-- The entry that is popped first comes first.
greater-ComesFirst :
    (c d : Cursor)
    → ((greater c d ≡ true) × ComesFirst c.entry d.entry)
      ⊎ ((greater c d ≡ false) × ComesFirst d.entry c.entry)
unfolding greater cmp_entries
greater-ComesFirst c d = elim (Ordering-cases (cmp d.entry.key c.entry.key)) [
  | inl l ↦ inr (rw (l, greater, cmp_entries) refl, inl l)
  | inr (inr g) ↦ inl (rw (g, greater, cmp_entries) refl, inl (lt_of_gt _ _ g))
  | inr (inl e) ↦
      let back = same_back d.entry.key c.entry.key e in
      elim (Ordering-cases (compare d.entry.sequence c.entry.sequence)) [
        | inl l ↦ inr (rw (e, greater, cmp_entries, l) refl, inr (e, ground (arith, l)))
        | inr (inr g) ↦ inl (rw (e, greater, cmp_entries, g) refl, inr (back, ground (arith, g)))
        | inr (inl s) ↦ elim (Bool-cases (greater c d)) [
          | inl t ↦ inl (t, inr (back, ground (arith, s)))
          | inr t ↦ inr (t, inr (e, ground (arith, s)))
        ]
      ]
]

abbrev Heads : Entry → List Cursor → Type 0
Heads x heap = All (λ c. ComesFirst x c.entry) heap

Heads-trans : (x y : Entry) (heap : List Cursor) → ComesFirst x y → Heads y heap → Heads x heap
Heads-trans x y [] h a = tt
Heads-trans x y (c ∷ cs) h (a, more) = (ComesFirst-trans x y c.entry h a, Heads-trans x y cs h more)

-- What is popped comes before the rest, and has what all of the heap has.
pop-Heads :
    (heap : List Cursor)
    → (pop heap ≡ none)
      ⊎ ((c : Cursor) × (rest : List Cursor) × (pop heap ≡ some (c, rest))
          × Heads c.entry rest
          × ((P : Cursor → Type 0) → All P heap → P c × All P rest))
unfolding pop
pop-Heads [] = inl refl
pop-Heads (c ∷ cs) = elim (pop-Heads cs) [
  | inl n ↦ inr (c, [], rw n refl, tt, λ P a. (a.0, tt))
  | inr (d, rest, popped, heads, split) ↦ elim (greater-ComesFirst c d) [
    | inl (t, first) ↦ inr (
      c,
      d ∷ rest,
      rw (popped, t) refl,
      (first, Heads-trans c.entry d.entry rest first heads),
      λ P a. (a.0, split P a.1),
    )
    | inr (t, first) ↦ inr (
      d,
      c ∷ rest,
      rw (popped, t) refl,
      (first, heads),
      λ P a. ((split P a.1).0, (a.0, (split P a.1).1)),
    )
  ]
]

abbrev CursorIsOrdered : Cursor → Type 0
CursorIsOrdered c = IsOrderedFrom c.entry c.left

advance-Heads :
    (c : Cursor) (rest : List Cursor)
    → CursorIsOrdered c
    → All CursorIsOrdered rest
    → Heads c.entry rest
    → All CursorIsOrdered (advance c rest) × Heads c.entry (advance c rest)
unfolding advance
advance-Heads c rest o os h = pushed c.left refl
  where
    pushed :
        (l : List Entry)
        → c.left ≡ l
        → All CursorIsOrdered (advance c rest) × Heads c.entry (advance c rest)
    pushed [] e = rw (e, advance) (os, h)
    pushed (x ∷ xs) e =
        let (first, behind) = subst (λ l. IsOrderedFrom c.entry l) e o in
        rw (e, advance) ((behind, os), (first, h))

abbrev OutcomeIsOrdered : Entry → Option (List Entry) → Type 0
OutcomeIsOrdered x none = Unit {0}
OutcomeIsOrdered x (some es) = IsOrderedFrom x es

outcome_cons :
    (x e : Entry) (o : Option (List Entry))
    → ComesFirst x e
    → OutcomeIsOrdered e o
    → OutcomeIsOrdered x (Option.map (λ es. e ∷ es) o)
outcome_cons x e none h k = tt
outcome_cons x e (some es) h k = (h, k)

merge_loop-OutcomeIsOrdered :
    (fuel : ℕ) (x : Entry) (heap : List Cursor)
    → All CursorIsOrdered heap
    → Heads x heap
    → OutcomeIsOrdered x (merge_loop fuel heap)
unfolding merge_loop
merge_loop-OutcomeIsOrdered zero x heap o h = elim (pop-Heads heap) [
  | inl n ↦ rw (n, merge_loop) tt
  | inr (c, rest, popped, _, _) ↦ rw (popped, merge_loop) tt
]
merge_loop-OutcomeIsOrdered (suc fuel) x heap o h = elim (pop-Heads heap) [
  | inl n ↦ rw (n, merge_loop) tt
  | inr (c, rest, popped, heads, split) ↦
      let (oc, os) = split CursorIsOrdered o in
      let (first, _) = split (λ d. ComesFirst x d.entry) h in
      let (o', h') = advance-Heads c rest oc os heads in
      rw (popped, merge_loop)
        (outcome_cons x c.entry (merge_loop fuel (advance c rest)) first
          (merge_loop-OutcomeIsOrdered fuel c.entry (advance c rest) o' h'))
]

-- An entry that comes before all others.
abbrev least : Entry
least = record { key = []; value = none; sequence = 0; commit_ts = none }

least-ComesFirst : (k : Bytes) (e : Entry) → e.key ≡ k → ComesFirst least e
unfolding cmp
least-ComesFirst [] e h = inr (rw h refl, omega arith)
least-ComesFirst (b ∷ k) e h = inl (rw h refl)

cursors-Heads :
    (i : ℕ) (ts : List (List Entry))
    → All IsOrdered ts
    → All CursorIsOrdered (cursors i ts) × Heads least (cursors i ts)
unfolding cursors
cursors-Heads i [] o = (tt, tt)
cursors-Heads i ([] ∷ ts) (o, os) = cursors-Heads i ts os
cursors-Heads i ((e ∷ es) ∷ ts) (o, os) =
    let (a, b) = cursors-Heads (suc i) ts os in ((o, a), (least-ComesFirst e.key e refl, b))

IsOrderedFrom-IsOrdered : (x : Entry) (es : List Entry) → IsOrderedFrom x es → IsOrdered es
IsOrderedFrom-IsOrdered x [] h = tt
IsOrderedFrom-IsOrdered x (e ∷ es) (h, hs) = hs

-- Where every table has its entries in order, so has the result of the merge.
pub merge_sstables-IsOrdered :
    (source target : List (List Entry)) (es : List Entry)
    → All IsOrdered (source ++ target)
    → merge_sstables source target ≡ some es
    → IsOrdered es
unfolding merge_sstables
merge_sstables-IsOrdered source target es o made =
    let ts = source ++ target in
    let (a, b) = cursors-Heads 0 ts o in
    IsOrderedFrom-IsOrdered least es (
      subst (OutcomeIsOrdered least) made
        (merge_loop-OutcomeIsOrdered (entries_of ts) least (cursors 0 ts) a b))
