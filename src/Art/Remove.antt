-- ===== src/Art/Remove.antt =====
-- `remove` of nanograph-art/src/tree.rs: the children that are taken out of a node, the nodes that
-- shrink, and the paths that are compressed.
pub mod Freed
use nanograph.Prelude.{
  ℕ, zero, suc, ◌+◌, ◌-◌, ◌%◌, Option, none, some, Result, ok, err, Bool, true, false, List, [],
  ◌∷◌, ◌++◌, length, get_elem?, ltb, leb, ◌==◌, if◌then◌else◌,
}
use nanograph.Bytes.{Bytes}
use nanograph.Art.Node.{
  Node, leaf, node4, node16, node48, node256, NodeHeader, Slot, vacant, occupied, update, find_byte,
  partial_of, find_child, matches, value_of,
}
use nanograph.Art.Children.{ArtError, invalid_key, internal, replace_child, update_partial}
use nanograph.Art.Insert.{
  AdaptiveRadixTree, Outcome, done, failed, panicked, out_of_fuel, ◌>>=◌, of_result, check_prefix,
}

-- `for j in i..i + n { a[j] = a[j + 1] }`
unfoldable pub shift_left : {A : Type 0} → ℕ → ℕ → (ℕ → A) → ℕ → A
shift_left i zero a = a
shift_left i (suc n) a = shift_left (suc i) n (update a i (a (suc i)))

module _ {V : Type 0} where
  abbrev pub one_less : NodeHeader V → NodeHeader V
  one_less h = record h { num_children = h.num_children - 1 }

  -- `children[i].is_some()`
  abbrev pub is_occupied : Slot V → Bool
  is_occupied vacant = false
  is_occupied (occupied c) = true

  -- The header, the keys and the children of a `Node4` or a `Node16` without the child of a byte.
  unfoldable pub remove_sorted :
      NodeHeader V → (ℕ → ℕ) → (ℕ → Slot V) → ℕ → NodeHeader V × (ℕ → ℕ) × (ℕ → Slot V)
  remove_sorted h ks cs b = elim (find_byte ks b 0 h.num_children) [
    | none ↦ (h, ks, cs)
    | some i ↦ (
      one_less h,
      shift_left i (h.num_children - 1 - i) ks,
      update (shift_left i (h.num_children - 1 - i) cs) (h.num_children - 1) vacant,
    )
  ]

  unfoldable pub remove_child_from_node48 :
      NodeHeader V → (ℕ → ℕ) → (ℕ → Slot V) → ℕ → NodeHeader V × (ℕ → ℕ) × (ℕ → Slot V)
  remove_child_from_node48 h is cs b =
      if is b == 255 then (h, is, cs) else (one_less h, update is b 255, update cs (is b) vacant)

  unfoldable pub remove_child_from_node256 :
      NodeHeader V → (ℕ → Slot V) → ℕ → NodeHeader V × (ℕ → Slot V)
  remove_child_from_node256 h cs b =
      if is_occupied (cs b) then (one_less h, update cs b vacant) else (h, cs)

  -- The loops of the nodes that shrink, over `n` places from `i` on, with `j` places filled.
  unfoldable pub shrink_node16_loop :
      (ℕ → ℕ) → (ℕ → Slot V) → ℕ → ℕ → ℕ → (ℕ → ℕ) → (ℕ → Slot V) → (ℕ → ℕ) × (ℕ → Slot V)
  shrink_node16_loop ks cs i zero j keys children = (keys, children)
  shrink_node16_loop ks cs i (suc n) j keys children =
      let kept = is_occupied (cs i) in
      shrink_node16_loop ks cs (suc i) n (if kept then suc j else j)
        (if kept then update keys j (ks i) else keys)
        (if kept then update children j (cs i) else children)

  unfoldable pub shrink_node48_loop :
      (ℕ → ℕ) → (ℕ → Slot V) → ℕ → ℕ → ℕ → (ℕ → ℕ) → (ℕ → Slot V) → (ℕ → ℕ) × (ℕ → Slot V)
  shrink_node48_loop is cs b zero j keys children = (keys, children)
  shrink_node48_loop is cs b (suc n) j keys children =
      let free = is b == 255 in
      shrink_node48_loop is cs (suc b) n (if free then j else suc j)
        (if free then keys else update keys j (b % 256))
        (if free then children else update children j (cs (is b)))

  unfoldable pub shrink_node256_loop :
      (ℕ → Slot V) → ℕ → ℕ → ℕ → (ℕ → ℕ) → (ℕ → Slot V) → (ℕ → ℕ) × (ℕ → Slot V)
  shrink_node256_loop cs b zero j index children = (index, children)
  shrink_node256_loop cs b (suc n) j index children =
      let kept = is_occupied (cs b) in
      shrink_node256_loop cs (suc b) n (if kept then suc j else j)
        (if kept then update index b j else index)
        (if kept then update children j (cs b) else children)

  unfoldable pub shrink_node16_to_node4 : NodeHeader V → (ℕ → ℕ) → (ℕ → Slot V) → Node V
  shrink_node16_to_node4 h ks cs =
      let r = shrink_node16_loop ks cs 0 h.num_children 0 (λ i. 0) (λ i. vacant) in node4 h r.0 r.1

  unfoldable pub shrink_node48_to_node16 : NodeHeader V → (ℕ → ℕ) → (ℕ → Slot V) → Node V
  shrink_node48_to_node16 h is cs =
      let r = shrink_node48_loop is cs 0 256 0 (λ i. 0) (λ i. vacant) in node16 h r.0 r.1

  unfoldable pub shrink_node256_to_node48 : NodeHeader V → (ℕ → Slot V) → Node V
  shrink_node256_to_node48 h cs =
      let r = shrink_node256_loop cs 0 256 0 (λ b. 255) (λ i. vacant) in node48 h r.0 r.1

  -- Of a `Node4`; the other nodes stay as they are.
  unfoldable pub compress_node : Node V → Node V
  compress_node (node4 h ks cs) = elim h.value [
    | some v ↦ node4 h ks cs
    | none ↦
        if h.num_children == 1
        then elim (cs 0) [
          | vacant ↦ node4 h ks cs
          | occupied child ↦ update_partial child ((h.partial ++ ks 0 ∷ []) ++ partial_of child)
        ]
        else node4 h ks cs
  ]
  compress_node n = n

  -- The node without the child, or none where nothing is left of it.
  unfoldable pub remove_child : Node V → ℕ → Result (Option (Node V)) ArtError
  remove_child (leaf k v) b = err internal
  remove_child (node4 h ks cs) b =
      let (h', ks', cs') = remove_sorted h ks cs b in
      let n = node4 h' ks' cs' in
      if h'.num_children == 1
      then ok (some (compress_node n))
      else if h'.num_children == 0
      then (elim h'.value [ some v ↦ ok (some n) | none ↦ ok none ])
      else ok (some n)
  remove_child (node16 h ks cs) b =
      let (h', ks', cs') = remove_sorted h ks cs b in
      if leb h'.num_children 4
      then ok (some (shrink_node16_to_node4 h' ks' cs'))
      else ok (some (node16 h' ks' cs'))
  remove_child (node48 h is cs) b =
      let (h', is', cs') = remove_child_from_node48 h is cs b in
      if leb h'.num_children 16
      then ok (some (shrink_node48_to_node16 h' is' cs'))
      else ok (some (node48 h' is' cs'))
  remove_child (node256 h cs) b =
      let (h', cs') = remove_child_from_node256 h cs b in
      if leb h'.num_children 48
      then ok (some (shrink_node256_to_node48 h' cs'))
      else ok (some (node256 h' cs'))

  -- `header.value = None`
  unfoldable pub clear_value : Node V → Node V
  clear_value (leaf k v) = leaf k v
  clear_value (node4 h ks cs) = node4 (record h { value = none }) ks cs
  clear_value (node16 h ks cs) = node16 (record h { value = none }) ks cs
  clear_value (node48 h is cs) = node48 (record h { value = none }) is cs
  clear_value (node256 h cs) = node256 (record h { value = none }) cs

  unfoldable pub remove_recursive : ℕ → Node V → Bytes → ℕ → Outcome (Option (Node V) × Option V)
  remove_recursive zero node key depth = out_of_fuel
  remove_recursive (suc fuel) node key depth =
      let partial = partial_of node in
      let below = depth + length partial in
      if ltb (check_prefix partial key depth) (length partial)
      then done (some node, none)
      else elim node [
        | leaf k v ↦ if matches k key then done (none, some v) else done (some (leaf k v), none)
        | inner ↦ elim (get_elem? key below) [
          | none ↦ elim (value_of inner) [
            | none ↦ done (some inner, none)
            | some v ↦ done (some (clear_value inner), some v)
          ]
          | some b ↦ elim (find_child inner b) [
            | none ↦ done (some inner, none)
            | some child ↦ remove_recursive fuel child key (suc below) >>= λ r. elim r.0 [
              | some new_child ↦ done (some (replace_child inner b new_child), r.1)
              | none ↦ of_result (remove_child inner b) >>= λ n. done (n, r.1)
            ]
          ]
        ]
      ]

  unfoldable pub remove : AdaptiveRadixTree V → Bytes → Outcome (Option V × AdaptiveRadixTree V)
  remove t [] = failed invalid_key
  remove t (b ∷ key) = elim t.root [
    | none ↦ done (none, t)
    | some node ↦ remove_recursive (suc (length (b ∷ key))) node (b ∷ key) 0 >>= λ r.
        done (r.1, record { root = r.0; size = elim r.1 [ none ↦ t.size | some old ↦ t.size - 1 ] })
  ]
