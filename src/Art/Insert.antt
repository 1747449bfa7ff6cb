-- ===== src/Art/Insert.antt =====
-- `get` and `insert` of nanograph-art/src/tree.rs. A call that goes down a level takes one byte more
-- of the key, so that one round more than the length of the key is enough fuel.
pub mod Seek
pub mod Steps
pub mod Fresh
pub mod Split
pub mod Made
pub mod Trees
pub mod Leaves
pub mod Refine
pub mod Whole
pub mod Get
use nanograph.Prelude.{
  ℕ, zero, suc, ◌+◌, ◌-◌, Option, none, some, Result, ok, err, Bool, true, false, List, [], ◌∷◌,
  length, get_elem?, take, drop, ltb, leb, ◌==◌, ◌&&◌, if◌then◌else◌,
}
use nanograph.Bytes.{Bytes, same}
use nanograph.Art.Node.{
  Node, leaf, node4, node16, node48, node256, NodeHeader, new_leaf, new_node4, is_leaf, partial_of,
  value_of, find_child, matches,
}
use nanograph.Art.Children.{
  ArtError, invalid_key, add_child, add_child_unchecked, replace_child, set_node_value,
  update_partial,
}

pub record AdaptiveRadixTree (V : Type 0) : Type 0 where
  pub root : Option (Node V)
  pub size : ℕ

-- What a call ends with: a value, an error, a panic, or no fuel.
pub data Outcome (A : Type 0) : Type 0 where
  done : A → Outcome A
  failed : ArtError → Outcome A
  panicked : Outcome A
  out_of_fuel : Outcome A

infixl 5 ◌>>=◌
abbrev pub ◌>>=◌ : {A B : Type 0} → Outcome A → (A → Outcome B) → Outcome B
done a >>= f = f a
failed e >>= f = failed e
panicked >>= f = panicked
out_of_fuel >>= f = out_of_fuel

abbrev pub of_result : {A : Type 0} → Result A ArtError → Outcome A
of_result (ok a) = done a
of_result (err e) = failed e

-- `v[i]`, which panics out of range.
abbrev pub at : Bytes → ℕ → Outcome ℕ
at v i = elim (get_elem? v i) [ none ↦ panicked | some b ↦ done b ]

-- How many bytes two slices have in common at their start.
unfoldable pub common_length : Bytes → Bytes → ℕ
common_length [] y = 0
common_length (a ∷ x) [] = 0
common_length (a ∷ x) (b ∷ y) = if a == b then suc (common_length x y) else 0

abbrev pub check_prefix : Bytes → Bytes → ℕ → ℕ
check_prefix partial key depth = common_length partial (drop depth key)

module _ {V : Type 0} where
  -- The loop of `get`.
  unfoldable pub get_loop : ℕ → Node V → Bytes → ℕ → Option V
  get_loop zero node key depth = none
  get_loop (suc fuel) node key depth =
      let partial = partial_of node in
      let below = depth + length partial in
      if leb below (length key) && same (take (length partial) (drop depth key)) partial
      then elim node [
        | leaf k v ↦ if matches k key then some v else none
        | inner ↦ elim (get_elem? key below) [
          | none ↦ value_of inner
          | some b ↦ elim (find_child inner b) [
            | none ↦ none
            | some child ↦ get_loop fuel child key (suc below)
          ]
        ]
      ]
      else none

  unfoldable pub get : AdaptiveRadixTree V → Bytes → Option V
  get t [] = none
  get t (b ∷ key) = elim t.root [
    | none ↦ none
    | some node ↦ get_loop (suc (length (b ∷ key))) node (b ∷ key) 0
  ]

  unfoldable pub contains_key : AdaptiveRadixTree V → Bytes → Bool
  contains_key t key = elim (get t key) [ none ↦ false | some v ↦ true ]

  unfoldable pub split_node : Node V → Bytes → ℕ → ℕ → V → Outcome (Node V × Option V)
  split_node node key depth mismatch_idx value =
      at (partial_of node) mismatch_idx >>= λ old_key_byte.
      at key (depth + mismatch_idx) >>= λ new_key_byte.
      let partial = partial_of node in
      let new_parent = new_node4 (take mismatch_idx partial) in
      let updated_old = update_partial node (drop (suc mismatch_idx) partial) in
      done (
        add_child_unchecked (add_child_unchecked new_parent old_key_byte updated_old) new_key_byte
            (new_leaf key value),
        none,
      )

  -- Of an existing leaf with its key and value, and a new key. A slice that begins beyond the end
  -- of the key panics.
  unfoldable pub create_inner_node_from_leaves :
      Bytes → V → Bytes → ℕ → V → Outcome (Node V × Option V)
  create_inner_node_from_leaves existing_key existing_value new_key depth new_value =
      let common = common_length (drop depth existing_key) (drop depth new_key) in
      let common_prefix = take common (drop depth existing_key) in
      let existing = leaf existing_key existing_value in
      let new = new_leaf new_key new_value in
      if ltb (length existing_key) depth
      then panicked
      else if leb (length existing_key) (depth + common)
      then (at new_key (depth + common) >>= λ new_byte. done (
        add_child_unchecked (set_node_value (new_node4 common_prefix) existing_value) new_byte new,
        none,
      ))
      else if leb (length new_key) (depth + common)
      then (at existing_key (depth + common) >>= λ existing_byte. done (
        add_child_unchecked (set_node_value (new_node4 common_prefix) new_value) existing_byte
            existing,
        none,
      ))
      else (at existing_key (depth + common) >>= λ existing_byte.
          at new_key (depth + common) >>= λ new_byte. done (
            add_child_unchecked
                (add_child_unchecked (new_node4 common_prefix) existing_byte existing) new_byte new,
            none,
          ))

  unfoldable pub insert_recursive : ℕ → Node V → Bytes → ℕ → V → Outcome (Node V × Option V)
  insert_recursive zero node key depth value = out_of_fuel
  insert_recursive (suc fuel) node key depth value =
      let partial = partial_of node in
      let mismatch_idx = check_prefix partial key depth in
      let below = depth + length partial in
      if ltb mismatch_idx (length partial)
      then split_node node key depth mismatch_idx value
      else elim node [
        | leaf k v ↦
            if matches k key
            then done (new_leaf key value, some v)
            else create_inner_node_from_leaves k v key below value
        | inner ↦ elim (get_elem? key below) [
          | none ↦ done (set_node_value inner value, value_of inner)
          | some b ↦ elim (find_child inner b) [
            | none ↦ of_result (add_child inner b (new_leaf key value)) >>= λ n. done (n, none)
            | some child ↦ insert_recursive fuel child key (suc below) value >>= λ r.
                done (replace_child inner b r.0, r.1)
          ]
        ]
      ]

  unfoldable pub insert : AdaptiveRadixTree V → Bytes → V → Outcome (Option V × AdaptiveRadixTree V)
  insert t [] value = failed invalid_key
  insert t (b ∷ key) value = elim t.root [
    | none ↦ done (none, record { root = some (new_leaf (b ∷ key) value); size = t.size + 1 })
    | some node ↦ insert_recursive (suc (length (b ∷ key))) node (b ∷ key) 0 value >>= λ r.
        done (
          r.1,
          record { root = some r.0; size = elim r.1 [ none ↦ t.size + 1 | some old ↦ t.size ] },
        )
  ]
