-- ===== src/BTree/Leaf/Refine.antt =====
-- The operations of a leaf on one key, compared with the finite map that its entries stand for.
use Prim.Native.Nat.Ordering.{lt, eq, gt}
use nanograph.Prelude.{
  ℕ, ◌≡◌, refl, none, some, List, [], ◌∷◌, Result, ok, err, arith, inl, inr, ◌∙◌, ap, get_elem?,
  insert_at, remove_at, Ordering-cases, if◌then◌else◌,
}
use nanograph.Bytes.{Bytes, cmp, same, lt_of_gt}
use nanograph.BTree.Search.{binary_search_by, step_right}
use nanograph.BTree.Entries.{
  Entry, IsSorted, lookup, upsert, erase, lookup_below, lookup-upsert, lookup-erase,
  upsert-IsSorted, erase-IsSorted, above,
}
use nanograph.BTree.Leaf.{LeafNode, by_key, set_value, insert, remove, get}

-- What the index that a search returns is good for.
abbrev Agrees : Bytes → Bytes → List Entry → Result ℕ ℕ → Type 0
Agrees q w es (ok i) =
    (e : Entry) × (get_elem? es i ≡ some e)
    × (lookup q es ≡ some e.1)
    × (set_value es i w ≡ upsert q w es)
    × (remove_at es i ≡ erase q es)
Agrees q w es (err i) =
    (insert_at es i (q, w) ≡ some (upsert q w es)) × (lookup q es ≡ none) × (erase q es ≡ es)

Agrees-step_right :
    (q w k v : Bytes) (es : List Entry) (r : Result ℕ ℕ)
    → cmp k q ≡ lt
    → Agrees q w es r
    → Agrees q w ((k, v) ∷ es) (step_right r)
unfolding lookup upsert erase
Agrees-step_right q w k v es (ok i) h a =
    (a.0, ground arith, ground arith, ground arith, ground arith)
Agrees-step_right q w k v es (err i) h a = ground arith

Agrees-found : (q w k v : Bytes) (es : List Entry) → cmp k q ≡ eq → Agrees q w ((k, v) ∷ es) (ok 0)
unfolding lookup upsert erase
Agrees-found q w k v es h = ((k, v), refl, ground arith, ground arith, ground arith)

Agrees-missing :
    (q w k v : Bytes) (es : List Entry)
    → cmp k q ≡ gt
    → IsSorted ((k, v) ∷ es)
    → Agrees q w ((k, v) ∷ es) (err 0)
unfolding lookup upsert erase
Agrees-missing q w k v es h s =
    ground (arith, lookup_below q es (above q k es (lt_of_gt k q h) s.0))

Agrees-search :
    (q w : Bytes) (es : List Entry) → IsSorted es → Agrees q w es (binary_search_by (by_key q) es)
unfolding binary_search_by
Agrees-search q w [] s = unfold lookup upsert erase in (refl, refl, refl)
Agrees-search q w ((k, v) ∷ es) s = elim (Ordering-cases (cmp k q)) [
  | inl below ↦
      rw (below, binary_search_by)
        (Agrees-step_right q w k v es (binary_search_by (by_key q) es) below
          (Agrees-search q w es s.1))
  | inr (inl equal) ↦ rw (equal, binary_search_by) (Agrees-found q w k v es equal)
  | inr (inr over) ↦ rw (over, binary_search_by) (Agrees-missing q w k v es over s)
]

module _ (leaf : LeafNode) (key : Bytes) (sorted : IsSorted leaf.entries) where
  -- `insert` never panics; it returns the value that the key had, and the entries after it are
  -- those of the map with the key written.
  pub insert-upsert :
      (value : Bytes)
      → insert leaf key value
        ≡ some (lookup key leaf.entries, record leaf { entries = upsert key value leaf.entries })
  unfolding insert
  insert-upsert value = ground (arith, Agrees-search key value leaf.entries sorted)

  pub remove-erase :
      remove leaf key
      ≡ some (lookup key leaf.entries, record leaf { entries = erase key leaf.entries })
  unfolding remove
  remove-erase = ground (arith, Agrees-search key [] leaf.entries sorted)

  pub get-lookup : get leaf key ≡ some (lookup key leaf.entries)
  unfolding get
  get-lookup = ground (arith, Agrees-search key [] leaf.entries sorted)

-- What a reader of a sorted leaf sees after `insert`: the written key, and nothing else, has changed.
-- The call does not panic, returns the value that the key had, and keeps the keys in order.
pub insert_refines :
    (leaf : LeafNode) (key value : Bytes)
    → IsSorted leaf.entries
    → (after : LeafNode) × (insert leaf key value ≡ some (lookup key leaf.entries, after))
      × IsSorted after.entries
      × ((q : Bytes)
          → get after q ≡ some (if same key q then some value else lookup q leaf.entries))
insert_refines leaf key value s =
    let after = record leaf { entries = upsert key value leaf.entries } in
    let sorted : IsSorted (upsert key value leaf.entries) =
      upsert-IsSorted key value leaf.entries s in
    (
      after,
      insert-upsert leaf key s value,
      sorted,
      λ q. get-lookup after q sorted ∙ ap some (lookup-upsert key value q leaf.entries),
    )

-- What a reader of a sorted leaf sees after `remove`: the key is gone, and nothing else has changed. The
-- call does not panic, returns the value that the key had, and keeps the keys in order.
pub remove_refines :
    (leaf : LeafNode) (key : Bytes)
    → IsSorted leaf.entries
    → (after : LeafNode) × (remove leaf key ≡ some (lookup key leaf.entries, after))
      × IsSorted after.entries
      × ((q : Bytes) → get after q ≡ some (if same key q then none else lookup q leaf.entries))
remove_refines leaf key s =
    let after = record leaf { entries = erase key leaf.entries } in
    let sorted : IsSorted (erase key leaf.entries) = erase-IsSorted key leaf.entries s in
    (
      after,
      remove-erase leaf key s,
      sorted,
      λ q. get-lookup after q sorted ∙ ap some (lookup-erase key q leaf.entries s),
    )
