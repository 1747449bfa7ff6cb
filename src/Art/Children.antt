-- ===== src/Art/Children.antt =====
-- The children of a node of nanograph-art/src/tree.rs: adding one, with growth to the next kind of
-- node, and putting one in the place of another.
pub mod Arrays
pub mod Laws
pub mod Wide
pub mod Found
pub mod Grown
use nanograph.Prelude.{
  ℕ, zero, suc, ◌+◌, ◌-◌, ◌%◌, Option, none, some, Result, ok, err, Bool, true, false, ltb, ◌==◌,
  if◌then◌else◌,
}
use nanograph.Bytes.{Bytes}
use nanograph.Art.Node.{
  Node, leaf, node4, node16, node48, node256, NodeHeader, Slot, vacant, occupied, update, find_byte,
}

-- `ArtError` of nanograph-art/src/error.rs, the errors of the tree.
pub data ArtError : Type 0 where
  invalid_key : ArtError
  node_capacity_exceeded : ArtError
  internal : ArtError

-- The first index from `i`, of `n` indices, whose key byte is larger.
unfoldable pub insert_position : (ℕ → ℕ) → ℕ → ℕ → ℕ → ℕ
insert_position ks b i zero = i
insert_position ks b i (suc n) =
    let rest = insert_position ks b (suc i) n in if ltb b (ks i) then i else rest

-- `for i in (p..p + n).rev() { a[i + 1] = a[i] }`
unfoldable pub shift_right : {A : Type 0} → ℕ → ℕ → (ℕ → A) → ℕ → A
shift_right p zero a = a
shift_right p (suc n) a = shift_right p n (update a (suc (p + n)) (a (p + n)))

-- `for i in i..i + n { to[i] = from[i] }`
unfoldable pub copy_indices : {A : Type 0} → (ℕ → A) → ℕ → ℕ → (ℕ → A) → ℕ → A
copy_indices from i zero to = to
copy_indices from i (suc n) to = copy_indices from (suc i) n (update to i (from i))

-- The index array of a `Node48` that is made of `n` keys from index `i`.
unfoldable pub index_keys : (ℕ → ℕ) → ℕ → ℕ → (ℕ → ℕ) → ℕ → ℕ
index_keys ks i zero is = is
index_keys ks i (suc n) is = index_keys ks (suc i) n (update is (ks i) (i % 256))

-- The keys of the `Node16` that a `Node4` of `n` children grows to.
unfoldable pub grow_node4_keys : ℕ → (ℕ → ℕ) → ℕ → ℕ
grow_node4_keys n ks = copy_indices ks 0 n (λ i. 0)

-- The index array of the `Node48` that a `Node16` of `n` children grows to.
unfoldable pub grow_node16_index : ℕ → (ℕ → ℕ) → ℕ → ℕ
grow_node16_index n ks = index_keys ks 0 n (λ b. 255)

module _ {V : Type 0} where
  abbrev pub one_more : NodeHeader V → NodeHeader V
  one_more h = record h { num_children = h.num_children + 1 }

  unfoldable pub add_child_unchecked : Node V → ℕ → Node V → Node V
  add_child_unchecked (node4 h ks cs) b child =
      node4 (one_more h) (update ks h.num_children b) (update cs h.num_children (occupied child))
  add_child_unchecked node b child = node

  unfoldable pub add_child_to_node4 : NodeHeader V → (ℕ → ℕ) → (ℕ → Slot V) → ℕ → Node V → Node V
  add_child_to_node4 h ks cs b child =
      let idx = h.num_children in
      let p = insert_position ks b 0 idx in
      node4 (one_more h) (update (shift_right p (idx - p) ks) p b)
        (update (shift_right p (idx - p) cs) p (occupied child))

  unfoldable pub add_child_to_node16 : NodeHeader V → (ℕ → ℕ) → (ℕ → Slot V) → ℕ → Node V → Node V
  add_child_to_node16 h ks cs b child =
      let idx = h.num_children in
      let p = insert_position ks b 0 idx in
      node16 (one_more h) (update (shift_right p (idx - p) ks) p b)
        (update (shift_right p (idx - p) cs) p (occupied child))

  unfoldable pub add_child_to_node48 : NodeHeader V → (ℕ → ℕ) → (ℕ → Slot V) → ℕ → Node V → Node V
  add_child_to_node48 h is cs b child =
      let idx = h.num_children in
      node48 (one_more h) (update is b (idx % 256)) (update cs idx (occupied child))

  unfoldable pub add_child_to_node256 : NodeHeader V → (ℕ → Slot V) → ℕ → Node V → Node V
  add_child_to_node256 h cs b child = node256 (one_more h) (update cs b (occupied child))

  -- The children of the node that is grown; its header stays.
  unfoldable pub grow_children : ℕ → (ℕ → Slot V) → ℕ → Slot V
  grow_children n cs = copy_indices cs 0 n (λ i. vacant)

  -- `for b in b..b + n { if is[b] != 255 { to[b] = cs[is[b]] } }`
  unfoldable pub grow_node48_loop : (ℕ → ℕ) → (ℕ → Slot V) → ℕ → ℕ → (ℕ → Slot V) → ℕ → Slot V
  grow_node48_loop is cs b zero to = to
  grow_node48_loop is cs b (suc n) to =
      grow_node48_loop is cs (suc b) n (if is b == 255 then to else update to b (cs (is b)))

  unfoldable pub add_child : Node V → ℕ → Node V → Result (Node V) ArtError
  add_child (leaf k v) b child = err internal
  add_child (node4 h ks cs) b child =
      let n = h.num_children in
      if ltb n 4
      then ok (add_child_to_node4 h ks cs b child)
      else ok (add_child_to_node16 h (grow_node4_keys n ks) (grow_children n cs) b child)
  add_child (node16 h ks cs) b child =
      let n = h.num_children in
      if ltb n 16
      then ok (add_child_to_node16 h ks cs b child)
      else ok (add_child_to_node48 h (grow_node16_index n ks) (grow_children n cs) b child)
  add_child (node48 h is cs) b child =
      if ltb h.num_children 48
      then ok (add_child_to_node48 h is cs b child)
      else ok (add_child_to_node256 h (grow_node48_loop is cs 0 256 (λ i. vacant)) b child)
  add_child (node256 h cs) b child =
      if ltb h.num_children 256
      then ok (add_child_to_node256 h cs b child)
      else err node_capacity_exceeded

  abbrev pub replace_at : (ℕ → Slot V) → Option ℕ → Node V → ℕ → Slot V
  replace_at cs none child = cs
  replace_at cs (some i) child = update cs i (occupied child)

  unfoldable pub replace_child : Node V → ℕ → Node V → Node V
  replace_child (leaf k v) b child = leaf k v
  replace_child (node4 h ks cs) b child =
      node4 h ks (replace_at cs (find_byte ks b 0 h.num_children) child)
  replace_child (node16 h ks cs) b child =
      node16 h ks (replace_at cs (find_byte ks b 0 h.num_children) child)
  replace_child (node48 h is cs) b child =
      node48 h is (if is b == 255 then cs else update cs (is b) (occupied child))
  replace_child (node256 h cs) b child = node256 h (update cs b (occupied child))

  unfoldable pub set_node_value : Node V → V → Node V
  set_node_value (leaf k v) value = leaf k v
  set_node_value (node4 h ks cs) value = node4 (record h { value = some value }) ks cs
  set_node_value (node16 h ks cs) value = node16 (record h { value = some value }) ks cs
  set_node_value (node48 h is cs) value = node48 (record h { value = some value }) is cs
  set_node_value (node256 h cs) value = node256 (record h { value = some value }) cs

  unfoldable pub update_partial : Node V → Bytes → Node V
  update_partial (leaf k v) p = leaf k v
  update_partial (node4 h ks cs) p = node4 (record h { partial = p }) ks cs
  update_partial (node16 h ks cs) p = node16 (record h { partial = p }) ks cs
  update_partial (node48 h is cs) p = node48 (record h { partial = p }) is cs
  update_partial (node256 h cs) p = node256 (record h { partial = p }) cs
