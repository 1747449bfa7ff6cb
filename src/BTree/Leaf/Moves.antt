-- ===== src/BTree/Leaf/Moves.antt =====
-- The moves of entries between a leaf and its neighbour: `merge`, `borrow_from_left` and
-- `borrow_from_right`.
use nanograph.Prelude.{
  suc, ◌<◌, ◌≡◌, ◌≢◌, refl, sym, ap, ◌∙◌, subst, none, some, List, [], ◌∷◌, ◌++◌, arith, length,
  pop_back, if◌then◌else◌,
}
use nanograph.Bytes.{Bytes, ◌≺◌, before, cmp_refl}
use nanograph.BTree.Entries.{Entry, All, All-imp, All-join, All-append, IsSorted, lookup}
use nanograph.BTree.Leaf.{LeafNode, get, merge, borrow_from_left, borrow_from_right}
use nanograph.BTree.Leaf.Refine.{get-lookup}
use nanograph.BTree.Leaf.Split.{
  IsSeparated, lookup-append, IsSorted-append, first_separates, not_before, nonempty,
}

append-IsSorted :
    (sep : Bytes) (xs ys : List Entry)
    → IsSorted xs
    → IsSorted ys
    → IsSeparated sep xs ys
    → IsSorted (xs ++ ys)
append-IsSorted sep [] ys sx sy h = sy
append-IsSorted sep ((k, v) ∷ xs) ys sx sy h = (
  All-join (λ e. k ≺ e.0) xs ys sx.0 (All-imp (λ y. not_before k sep y.0 h.low.0) ys h.high),
  append-IsSorted sep xs ys sx.1 sy (record { low = h.low.1; high = h.high }),
)

-- The last entry of a list that is not empty.
pop_back-split :
    (xs : List Entry)
    → 0 < length xs
    → (e : Entry) × (r : List Entry) × (pop_back xs ≡ some (e, r))
      × (r ++ e ∷ [] ≡ xs)
      × (suc (length r) ≡ length xs)
pop_back-split [] h = absurd (omega arith)
pop_back-split (x ∷ []) h = (x, [], refl, refl, refl)
pop_back-split (x ∷ y ∷ ys) h =
    let (e, r, p, q, l) = pop_back-split (y ∷ ys) (omega arith) in
    (e, x ∷ r, rw (p, pop_back) refl, ap (λ t. x ∷ t) q, omega arith)

append_assoc : (r : List Entry) (e : Entry) (ys : List Entry) → (r ++ e ∷ []) ++ ys ≡ r ++ e ∷ ys
append_assoc [] e ys = refl
append_assoc (x ∷ r) e ys = ap (λ t. x ∷ t) (append_assoc r e ys)

-- Merging a sorted leaf with the sorted leaf after it, told apart by a separator: the leaf is sorted,
-- takes over the link to the next leaf, and reads on each side of the separator as the leaf of that
-- side did; the other leaf is left empty.
pub merge_refines :
    (leaf other : LeafNode) (sep : Bytes)
    → IsSorted leaf.entries
    → IsSorted other.entries
    → IsSeparated sep leaf.entries other.entries
    → (after : LeafNode) × (emptied : LeafNode) × (merge leaf other ≡ (after, emptied))
      × (emptied.entries ≡ [])
      × (after.next ≡ other.next)
      × IsSorted after.entries
      × ((q : Bytes)
          → get after q
            ≡ some (if before q sep then lookup q leaf.entries else lookup q other.entries))
unfolding merge
merge_refines leaf other sep s t h =
    let es = leaf.entries ++ other.entries in
    let after : LeafNode = record leaf { entries = es; next = other.next } in
    let sorted : IsSorted es = append-IsSorted sep leaf.entries other.entries s t h in
    (
      after,
      record other { entries = [] },
      refl,
      refl,
      refl,
      sorted,
      λ q. get-lookup after q sorted ∙ ap some (lookup-append sep q leaf.entries other.entries h),
    )

borrowed_left :
    (leaf left : LeafNode) (e : Entry) (r : List Entry)
    → pop_back left.entries ≡ some (e, r)
    → borrow_from_left leaf left
      ≡ (e.0, record leaf { entries = e ∷ leaf.entries }, record left { entries = r })
unfolding borrow_from_left
borrowed_left leaf left e r p = ground arith

-- Borrowing from the left neighbour, where the entries of the two are in order and the neighbour has
-- one: the two keep their entries in order, one entry moves, and the returned key separates them.
pub borrow_from_left-IsSeparated :
    (leaf left : LeafNode)
    → IsSorted (left.entries ++ leaf.entries)
    → 0 < length left.entries
    → (sep : Bytes) × (after : LeafNode) × (left' : LeafNode) × (borrow_from_left leaf left
        ≡ (sep, after, left'))
      × (left'.entries ++ after.entries ≡ left.entries ++ leaf.entries)
      × (suc (length left'.entries) ≡ length left.entries)
      × IsSeparated sep left'.entries after.entries
borrow_from_left-IsSeparated leaf left s h =
    let (e, r, p, q, l) = pop_back-split left.entries h in
    let whole : r ++ e ∷ leaf.entries ≡ left.entries ++ leaf.entries =
      sym (append_assoc r e leaf.entries) ∙ ap (λ t. t ++ leaf.entries) q in
    (
      e.0,
      record leaf { entries = e ∷ leaf.entries },
      record left { entries = r },
      borrowed_left leaf left e r p,
      whole,
      l,
      first_separates r leaf.entries e.0 e.1 (subst IsSorted (sym whole) s),
    )

last_is_there :
    (es : List Entry) (e : Entry) → All (λ x. x.0 ≺ e.0) es → lookup e.0 (es ++ e ∷ []) ≡ some e.1
unfolding lookup
last_is_there [] e h = ground (arith, cmp_refl e.0)
last_is_there ((k, v) ∷ es) e h = ground (arith, last_is_there es e h.1)

borrowed_right :
    (leaf right : LeafNode) (e : Entry) (r : List Entry)
    → right.entries ≡ e ∷ r
    → borrow_from_right leaf right
      ≡ (e.0, record leaf { entries = leaf.entries ++ e ∷ [] }, record right { entries = r })
unfolding borrow_from_right
borrowed_right leaf right e r p = rw p refl

above_none : (es : List Entry) (e : Entry) → ¬ All (λ x. x.0 ≺ e.0) (es ++ e ∷ [])
above_none es e h =
    let itself : e.0 ≺ e.0 = (All-append (λ x. x.0 ≺ e.0) es (e ∷ []) h).1.0 in
    ground (arith, cmp_refl e.0)

-- Borrowing from the right neighbour, where the entries of the two are in order and the neighbour has
-- one: the two keep their entries in order, one entry moves, and the returned key is the one that has
-- moved, which is in the leaf, and so does not lie above all its keys as a separator does.
pub borrow_from_right-moves :
    (leaf right : LeafNode)
    → IsSorted (leaf.entries ++ right.entries)
    → 0 < length right.entries
    → (key : Bytes) × (after : LeafNode) × (right' : LeafNode) × (borrow_from_right leaf right
        ≡ (key, after, right'))
      × (after.entries ++ right'.entries ≡ leaf.entries ++ right.entries)
      × (suc (length right'.entries) ≡ length right.entries)
      × (lookup key after.entries ≢ none)
      × ¬ IsSeparated key after.entries right'.entries
borrow_from_right-moves leaf right s h =
    let (e, r, p) = nonempty right.entries h in
    let below =
      (IsSorted-append leaf.entries (e ∷ r) (subst (λ t. IsSorted (leaf.entries ++ t)) p s)).2 in
    let there = last_is_there leaf.entries e (All-imp (λ x b. b.0) leaf.entries below) in
    (
      e.0,
      record leaf { entries = leaf.entries ++ e ∷ [] },
      record right { entries = r },
      borrowed_right leaf right e r p,
      append_assoc leaf.entries e r ∙ ap (λ t. leaf.entries ++ t) (sym p),
      ap length (sym p),
      λ missing. cc,
      λ separated. above_none leaf.entries e separated.low,
    )
