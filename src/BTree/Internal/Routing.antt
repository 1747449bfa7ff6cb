-- ===== src/BTree/Internal/Routing.antt =====
-- Which child a key is sent to, and how that changes when a child is split in two.
use mathlib.Core.Option.{some-injective}
use Prim.Native.Nat.Ordering.{eq}
use nanograph.Prelude.{
  ℕ, zero, suc, ◌≤◌, ◌≡◌, ◌≢◌, refl, subst, some, List, [], ◌∷◌, Result, ok, err, arith, inl, inr,
  length, get_elem?, insert_at, insert_at_inv, insert_at-total, get_elem?-insert_at_lt,
  get_elem?-insert_at_self, get_elem?-insert_at_gt, if◌then◌else◌, true, false, Bool-cases, ◌==◌,
  ◌&&◌, not,
}
use nanograph.Bytes.{Bytes, cmp, ◌≺◌, before, lt_of_gt, lt_trans, eq_of_cmp, gt_of_lt, cmp_refl}
use nanograph.BTree.Search.{binary_search_by, step_right}
use nanograph.BTree.Entries.{All, All-imp}
use nanograph.BTree.Leaf.{NodeId}
use nanograph.BTree.Internal.{InternalNode, to_key, find_child_index, insert_key_child, position}

abbrev pub IsAscending : List Bytes → Type 0
IsAscending [] = Unit
IsAscending (k ∷ ks) = All (λ j. k ≺ j) ks × IsAscending ks

-- The number of keys that are not above `q`, which is the index of the child for `q`.
unfoldable pub rank : Bytes → List Bytes → ℕ
rank q [] = 0
rank q (k ∷ ks) = if before q k then rank q ks else suc (rank q ks)

pub rank_below : (q : Bytes) (ks : List Bytes) → All (λ k. q ≺ k) ks → rank q ks ≡ 0
unfolding rank
rank_below q [] h = refl
rank_below q (k ∷ ks) h = ground (arith, rank_below q ks)

pub above : (q k : Bytes) (ks : List Bytes) → q ≺ k → All (λ j. k ≺ j) ks → All (λ j. q ≺ j) ks
above q k ks h = All-imp (λ j. lt_trans q k j h) ks

abbrev child_index : Result ℕ ℕ → ℕ
child_index (ok idx) = suc idx
child_index (err idx) = idx

child_index-step_right : (r : Result ℕ ℕ) → child_index (step_right r) ≡ suc (child_index r)
child_index-step_right (ok i) = refl
child_index-step_right (err i) = refl

search-rank :
    (q : Bytes) (ks : List Bytes)
    → IsAscending ks
    → child_index (binary_search_by (to_key q) ks) ≡ rank q ks
unfolding binary_search_by rank
search-rank q [] s = refl
search-rank q (k ∷ ks) s = ground (
  arith,
  search-rank q ks s.1,
  child_index-step_right (binary_search_by (to_key q) ks),
  gt_of_lt k q,
  lt_of_gt k q,
  eq_of_cmp k q,
  rank_below q ks,
  above q k ks,
  cmp_refl q,
)

-- Where the keys of a node ascend, the child that a key is sent to stands at the number of keys that
-- are not above it.
pub find_child_index-rank :
    (node : InternalNode) (q : Bytes)
    → IsAscending node.keys
    → find_child_index node q ≡ rank q node.keys
unfolding find_child_index
find_child_index-rank node q s = ground (arith, search-rank q node.keys s)

-- The key is none of the keys.
abbrev pub IsFresh : Bytes → List Bytes → Type 0
IsFresh sep ks = All (λ k. cmp k sep ≢ eq) ks

position-step_right : (r : Result ℕ ℕ) → position (step_right r) ≡ suc (position r)
position-step_right (ok i) = refl
position-step_right (err i) = refl

position-rank :
    (sep : Bytes) (ks : List Bytes)
    → IsAscending ks
    → IsFresh sep ks
    → position (binary_search_by (to_key sep) ks) ≡ rank sep ks
unfolding binary_search_by rank
position-rank sep [] s f = refl
position-rank sep (k ∷ ks) s f = ground (
  arith,
  position-rank sep ks s.1 f.1,
  position-step_right (binary_search_by (to_key sep) ks),
  gt_of_lt k sep,
  lt_of_gt k sep,
  rank_below sep ks,
  above sep k ks,
  f.0,
)

pub rank-le-length : (q : Bytes) (ks : List Bytes) → rank q ks ≤ length ks
unfolding rank
rank-le-length q [] = omega arith
rank-le-length q (k ∷ ks) = ground (arith, rank-le-length q ks)

before_trans : (p q k : Bytes) → before p q ≡ true → before q k ≡ true → before p k ≡ true
before_trans p q k h l = ground (arith, lt_trans p q k)

pub rank_mono_lt : (q sep : Bytes) (ks : List Bytes) → before q sep ≡ true → rank q ks ≤ rank sep ks
unfolding rank
rank_mono_lt q sep [] h = omega arith
rank_mono_lt q sep (k ∷ ks) h = ground (arith, rank_mono_lt q sep ks h, before_trans q sep k)

not_before_trans :
    (q sep k : Bytes) → before q sep ≡ false → before q k ≡ true → before sep k ≡ true
not_before_trans q sep k h l = ground (arith, eq_of_cmp q sep, lt_of_gt q sep, lt_trans sep q k)

pub rank_mono_ge :
    (q sep : Bytes) (ks : List Bytes) → before q sep ≡ false → rank sep ks ≤ rank q ks
unfolding rank
rank_mono_ge q sep [] h = omega arith
rank_mono_ge q sep (k ∷ ks) h = ground (arith, rank_mono_ge q sep ks h, not_before_trans q sep k)

-- Inserting a key adds one to the rank of the keys that are not below it.
rank-insert_at :
    (ks : List Bytes) (i : ℕ) (sep : Bytes) (js : List Bytes) (q : Bytes)
    → insert_at ks i sep ≡ some js
    → rank q js ≡ (if before q sep then rank q ks else suc (rank q ks))
unfolding rank
rank-insert_at ks zero sep js q h = ground arith
rank-insert_at [] (suc i) sep js q h = cc
rank-insert_at (k ∷ ks) (suc i) sep js q h =
    let (zs, h', e) = insert_at_inv k ks i sep js h in
    rw e (ground (arith, rank-insert_at ks i sep zs q h'))

All-insert_at :
    (P : Bytes → Type 0) (ks : List Bytes) (i : ℕ) (sep : Bytes) (js : List Bytes)
    → insert_at ks i sep ≡ some js
    → P sep
    → All P ks
    → All P js
All-insert_at P ks zero sep js h p a = ground arith
All-insert_at P [] (suc i) sep js h p a = cc
All-insert_at P (k ∷ ks) (suc i) sep js h p a =
    let (zs, h', e) = insert_at_inv k ks i sep js h in
    rw e (a.0, All-insert_at P ks i sep zs h' p a.1)

insert_first :
    (sep k : Bytes) (ks js : List Bytes)
    → IsAscending (k ∷ ks)
    → sep ≺ k
    → insert_at (k ∷ ks) 0 sep ≡ some js
    → IsAscending js
insert_first sep k ks js s l h =
    let e : sep ∷ k ∷ ks ≡ js = some-injective (sep ∷ k ∷ ks) js h in
    subst IsAscending e ((l, above sep k ks l s.0), s)

rank-cons_lt :
    (sep k : Bytes) (ks : List Bytes) → IsAscending (k ∷ ks) → sep ≺ k → rank sep (k ∷ ks) ≡ 0
unfolding rank
rank-cons_lt sep k ks s l = ground (arith, rank_below sep ks, above sep k ks)

rank-cons_ge :
    (sep k : Bytes) (ks : List Bytes) → before sep k ≡ false → rank sep (k ∷ ks) ≡ suc (rank sep ks)
unfolding rank
rank-cons_ge sep k ks l = ground arith

lt_of_fresh : (k sep : Bytes) → cmp k sep ≢ eq → before sep k ≡ false → k ≺ sep
lt_of_fresh k sep n b = ground (arith, gt_of_lt sep k, lt_of_gt k sep, eq_of_cmp sep k, cmp_refl k)

insert_later :
    (sep k : Bytes) (ks js zs : List Bytes)
    → insert_at ks (rank sep ks) sep ≡ some zs
    → js ≡ k ∷ zs
    → k ≺ sep
    → All (λ j. k ≺ j) ks
    → IsAscending zs
    → IsAscending js
insert_later sep k ks js zs h e l a s =
    rw e (All-insert_at (λ j. k ≺ j) ks (rank sep ks) sep zs h l a, s)

IsAscending-insert_at :
    (ks : List Bytes) (sep : Bytes) (js : List Bytes)
    → IsAscending ks
    → IsFresh sep ks
    → insert_at ks (rank sep ks) sep ≡ some js
    → IsAscending js
IsAscending-insert_at [] sep js s f h =
    subst IsAscending (some-injective (sep ∷ []) js (unfold rank in h)) (tt, tt)
IsAscending-insert_at (k ∷ ks) sep js s f h = elim (Bool-cases (before sep k)) [
  | inl low ↦
      let l : sep ≺ k = ground arith in
      insert_first sep k ks js s l
        (subst (λ i. insert_at (k ∷ ks) i sep ≡ some js) (rank-cons_lt sep k ks s l) h)
  | inr high ↦
      let (zs, h', e) =
        insert_at_inv k ks (rank sep ks) sep js
          (subst (λ i. insert_at (k ∷ ks) i sep ≡ some js) (rank-cons_ge sep k ks high) h) in
      insert_later sep k ks js zs h' e (lt_of_fresh k sep f.0 high) s.0
        (IsAscending-insert_at ks sep zs s.1 f.1 h')
]

-- `insert_key_child` on a node whose keys ascend, with one child more than keys, and for a key that
-- is new.
module _ (node : InternalNode) (sep : Bytes) (child : NodeId) (ascending : IsAscending node.keys)
    (fresh : IsFresh sep node.keys) (sized : length node.children ≡ suc (length node.keys)) where
  insert_key_child-eq :
      (js : List Bytes) (cs : List NodeId)
      → insert_at node.keys (rank sep node.keys) sep ≡ some js
      → insert_at node.children (suc (rank sep node.keys)) child ≡ some cs
      → insert_key_child node sep child ≡ some (record node { keys = js; children = cs })
  unfolding insert_key_child
  insert_key_child-eq js cs hk hc = ground (arith, position-rank sep node.keys ascending fresh)

  routes :
      (js : List Bytes) (cs : List NodeId)
      → insert_at node.keys (rank sep node.keys) sep ≡ some js
      → insert_at node.children (suc (rank sep node.keys)) child ≡ some cs
      → (q : Bytes)
      → get_elem? cs (rank q js) ≡ (
          if not (before q sep) && (rank q node.keys == rank sep node.keys)
          then some child
          else get_elem? node.children (rank q node.keys))
  routes js cs hk hc q =
      let i : ℕ = rank sep node.keys in
      let r : ℕ = rank q node.keys in
      ground (
        arith,
        rank-insert_at node.keys i sep js q hk,
        rank_mono_lt q sep node.keys,
        rank_mono_ge q sep node.keys,
        get_elem?-insert_at_lt node.children (suc i) child cs r hc,
        get_elem?-insert_at_self node.children (suc i) child cs hc,
        get_elem?-insert_at_gt node.children (suc i) child cs r hc,
      )

  -- For a node whose keys ascend, with one child more than keys, and a separator that is none of the
  -- keys, the insertion does not panic, adds one key, and keeps the order and one child more than keys. A key whose child was the one
  -- for the separator, and which is not below it, is sent to the new child; every other key is sent
  -- to the child that it was sent to before.
  pub route-insert_key_child :
      (after : InternalNode) × (insert_key_child node sep child ≡ some after)
      × (after.id ≡ node.id)
      × (length after.keys ≡ suc (length node.keys))
      × IsAscending after.keys
      × (length after.children ≡ suc (length after.keys))
      × ((q : Bytes)
          → get_elem? after.children (find_child_index after q) ≡ (
              if not (before q sep) && (find_child_index node q == find_child_index node sep)
              then some child
              else get_elem? node.children (find_child_index node q)))
  route-insert_key_child =
      let i : ℕ = rank sep node.keys in
      let bound : i ≤ length node.keys = rank-le-length sep node.keys in
      let (js, keys_at, keys_size) = insert_at-total node.keys i sep bound in
      let (cs, children_at, cs_size) = insert_at-total node.children (suc i) child (omega arith) in
      let sorted = IsAscending-insert_at node.keys sep js ascending fresh keys_at in
      (
        record node { keys = js; children = cs },
        insert_key_child-eq js cs keys_at children_at,
        refl,
        keys_size,
        sorted,
        omega arith,
        λ q.
            rw
              (
                find_child_index-rank (record node { keys = js; children = cs }) q sorted,
                find_child_index-rank node q ascending,
                find_child_index-rank node sep ascending,
              )
              (routes js cs keys_at children_at q),
      )
