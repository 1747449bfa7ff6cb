-- ===== src/Art/Node.antt =====
-- `Node` of nanograph-art/src/node.rs: leaves and the four kinds of inner nodes. An array of fixed
-- size is a function of the index. Every index of the code is below the size: the loops run below
-- `num_children`, which is at most the number of places, and a byte is below 256.
use nanograph.Prelude.{
  ℕ, zero, suc, ◌+◌, ◌/◌, Option, none, some, Bool, true, false, [], ltb, ◌==◌, if◌then◌else◌,
}
use nanograph.Bytes.{Bytes, same}

pub record NodeHeader (V : Type 0) : Type 0 where
  pub num_children : ℕ
  pub partial : Bytes
  pub value : Option V

-- `Option<Arc<Node<V>>>` in an array is a `Slot`.
mutual
  pub data Node (V : Type 0) : Type 0 where
    leaf : Bytes → V → Node V
    node4 : NodeHeader V → (ℕ → ℕ) → (ℕ → Slot V) → Node V
    node16 : NodeHeader V → (ℕ → ℕ) → (ℕ → Slot V) → Node V
    node48 : NodeHeader V → (ℕ → ℕ) → (ℕ → Slot V) → Node V
    node256 : NodeHeader V → (ℕ → Slot V) → Node V

  pub data Slot (V : Type 0) : Type 0 where
    vacant : Slot V
    occupied : Node V → Slot V

-- `a[i] = x`.
abbrev pub update : {A : Type 0} → (ℕ → A) → ℕ → A → ℕ → A
update a i x j = if j == i then x else a j

-- `header.clone()`, if the node is no leaf.
abbrev pub header : {V : Type 0} → Node V → Option (NodeHeader V)
header (leaf k v) = none
header (node4 h ks cs) = some h
header (node16 h ks cs) = some h
header (node48 h is cs) = some h
header (node256 h cs) = some h

module _ {V : Type 0} where
  abbrev pub new_header : Bytes → NodeHeader V
  new_header p = record { num_children = 0; partial = p; value = none }

  unfoldable pub new_leaf : Bytes → V → Node V
  new_leaf key value = leaf key value

  unfoldable pub new_node4 : Bytes → Node V
  new_node4 p = node4 (new_header p) (λ i. 0) (λ i. vacant)

  unfoldable pub new_node16 : Bytes → Node V
  new_node16 p = node16 (new_header p) (λ i. 0) (λ i. vacant)

  unfoldable pub new_node48 : Bytes → Node V
  new_node48 p = node48 (new_header p) (λ i. 255) (λ i. vacant)

  unfoldable pub new_node256 : Bytes → Node V
  new_node256 p = node256 (new_header p) (λ i. vacant)

  abbrev pub is_leaf : Node V → Bool
  is_leaf (leaf k v) = true
  is_leaf _ = false

  abbrev pub partial_of : Node V → Bytes
  partial_of n = elim (header n) [ none ↦ [] | some h ↦ h.partial ]

  abbrev pub num_children_of : Node V → ℕ
  num_children_of n = elim (header n) [ none ↦ 0 | some h ↦ h.num_children ]

  -- `children[i].as_ref()`
  abbrev pub as_ref : Slot V → Option (Node V)
  as_ref vacant = none
  as_ref (occupied c) = some c

-- The first index from `i`, of `n` indices, at which the key byte stands.
unfoldable pub find_byte : (ℕ → ℕ) → ℕ → ℕ → ℕ → Option ℕ
find_byte ks b i zero = none
find_byte ks b i (suc n) = let rest = find_byte ks b (suc i) n in if ks i == b then some i else rest

-- The binary search of `Node16`, on fuel for the rounds that are left.
unfoldable pub bisect : ℕ → (ℕ → ℕ) → ℕ → ℕ → ℕ → Option ℕ
bisect zero ks b left right = none
bisect (suc fuel) ks b left right =
    let mid = (left + right) / 2 in
    let above = bisect fuel ks b (suc mid) right in
    let below = bisect fuel ks b left mid in
    if ltb left right
    then (if ltb (ks mid) b then above else if ltb b (ks mid) then below else some mid)
    else none

module _ {V : Type 0} where
  abbrev pub slot_at : (ℕ → Slot V) → Option ℕ → Option (Node V)
  slot_at cs none = none
  slot_at cs (some i) = as_ref (cs i)

  unfoldable pub find_child : Node V → ℕ → Option (Node V)
  find_child (leaf k v) b = none
  find_child (node4 h ks cs) b = slot_at cs (find_byte ks b 0 h.num_children)
  find_child (node16 h ks cs) b = slot_at cs (bisect (suc h.num_children) ks b 0 h.num_children)
  find_child (node48 h is cs) b = if is b == 255 then none else as_ref (cs (is b))
  find_child (node256 h cs) b = as_ref (cs b)

  abbrev pub value_of : Node V → Option V
  value_of n = elim (header n) [ none ↦ none | some h ↦ h.value ]

-- `LeafNode::matches`
unfoldable pub matches : Bytes → Bytes → Bool
matches leaf_key key = same leaf_key key
