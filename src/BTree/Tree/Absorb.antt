-- ===== src/BTree/Tree/Absorb.antt =====
-- The insertion that fills a leaf below a parent with room: the leaf is split in two, and the parent
-- takes the new leaf over.
use nanograph.Prelude.{
  ℕ, suc, ◌+◌, ◌-◌, ◌/◌, ◌++◌, ◌<◌, ◌≤◌, ◌≡◌, ◌≢◌, refl, sym, ap, subst, ◌∙◌, none, some, List, [],
  ◌∷◌, ok, true, false, not, ◌&&◌, arith, length, get_elem?, leb, ◌==◌, ==_iff, if◌then◌else◌,
}
use nanograph.Bytes.{Bytes, same, before, ◌≺◌}
use nanograph.BTree.Entries.{Entry, All, All-append, All-upsert, IsSorted, upsert, upsert-IsSorted}
use nanograph.BTree.Leaf
use nanograph.BTree.Leaf.{LeafNode, NodeId}
use nanograph.BTree.Leaf.Refine.{insert-upsert}
use nanograph.BTree.Leaf.Split.{split-parts}
use nanograph.BTree.Internal.{InternalNode, find_child_index, insert_key_child}
use nanograph.BTree.Internal.Routing.{
  IsAscending, IsFresh, rank, rank_mono_lt, rank_mono_ge, find_child_index-rank,
  route-insert_key_child,
}
use nanograph.BTree.Node
use nanograph.BTree.Node.{BPlusTreeNode, internal, leaf}
use nanograph.BTree.Tree.{
  BPlusTree, ◌>>=◌, continue, get, get_node, update_node, or_fail, pure, allocate_node_id,
}
use nanograph.BTree.Tree.Lookup.{descend, get-descend}
use nanograph.BTree.Tree.Insert.{insert, split_leaf, insert_into_parent, insert_separator}
use nanograph.BTree.Tree.Write.{IsAt, result_of, searched, descends}
use nanograph.BTree.Tree.Widen.{redirect, IsUnder, widened, descend-widened}
use nanograph.BTree.Tree.Halves.{low_half, high_half, IsFresh-between, descend-leaf, reads_absorbed}

-- The tree after the split, with the parent that has taken the new leaf over.
abbrev absorbed : BPlusTree → LeafNode → InternalNode → List Entry → List Entry → BPlusTree
absorbed t n P' R L = record t {
  next_node_id = t.next_node_id + 1;
  nodes = widened t.nodes (low_half t.next_node_id n L) (high_half t.next_node_id n R) P';
}

split_under :
    (fuel : ℕ) (t : BPlusTree) (n : LeafNode) (sep : Bytes) (R L : List Entry) (P P' : InternalNode)
    → n.parent ≡ some P.id
    → t.nodes P.id ≡ some (internal P)
    → n.id ≢ P.id
    → t.next_node_id ≢ P.id
    → Leaf.split n ≡ some (sep, record n { entries = R; prev = none }, record n { entries = L })
    → insert_key_child P sep t.next_node_id ≡ some P'
    → length P'.keys < t.config.max_keys
    → split_leaf (suc fuel) (leaf n) t ≡ (ok tt, absorbed t n P' R L)
unfolding split_leaf allocate_node_id Node.split_leaf update_node insert_separator
    insert_into_parent get_node Node.insert_internal_entry Node.is_full Node.key_count Node.node_id
    Node.parent_of
split_under fuel t n sep R L P P' h at_p n-p id-p e k room =
    let id : NodeId = t.next_node_id in
    let other : (id == P.id) ≡ false = ground (arith, ==_iff id P.id) in
    let other' : (n.id == P.id) ≡ false = ground (arith, ==_iff n.id P.id) in
    let not_full : leb t.config.max_keys (length P'.keys) ≡ false = ground arith in
    rw (e, h)
      (rw (other, other', at_p, ◌>>=◌)
        (rw (k, continue, or_fail, pure, Node.is_full, not_full) refl))

-- The leaf `n` is the child for `key` of the node `P`, at one place of it and of no other node; the
-- keys of the leaf are those that `P` sends there; and the next identifier is not in use.
pub record IsChild (key : Bytes) (t : BPlusTree) (n : LeafNode) (P : InternalNode) : Type 0 where
  pub parent : n.parent ≡ some P.id
  pub stored : t.nodes P.id ≡ some (internal P)
  pub ascending : IsAscending P.keys
  pub sized : length P.children ≡ suc (length P.keys)
  pub under : IsUnder t.nodes P.id n.id t.next_node_id
  pub unused : t.nodes t.next_node_id ≡ none
  pub not_root : t.root_id ≢ n.id
  pub root_given : t.root_id ≢ t.next_node_id
  pub here : get_elem? P.children (rank key P.keys) ≡ some n.id
  pub spot : (i : ℕ) → get_elem? P.children i ≡ some n.id → i ≡ rank key P.keys
  pub range : All (λ e. rank e.0 P.keys ≡ rank key P.keys) n.entries

-- The separator of a leaf that is split stands between two keys of the leaf.
between :
    (sep : Bytes) (ks : List Bytes) (i : ℕ) (R L : List Entry)
    → 0 < length L
    → 0 < length R
    → All (λ x. x.0 ≺ sep) L
    → All (λ y. before y.0 sep ≡ false) R
    → All (λ e. rank e.0 ks ≡ i) L
    → All (λ e. rank e.0 ks ≡ i) R
    → (rank sep ks ≡ i) × IsFresh sep ks
between sep ks i R [] l r a b c d = absurd (omega arith)
between sep ks i [] (x ∷ L) l r a b c d = absurd (omega arith)
between sep ks i (y ∷ R) (x ∷ L) l r a b c d =
    let mid : rank sep ks ≡ i = ground (arith, rank_mono_lt x.0 sep ks, rank_mono_ge y.0 sep ks) in
    (mid, IsFresh-between x.0 sep ks a.0 (c.0 ∙ sym mid))

insert-full :
    (fuel : ℕ) (key value : Bytes) (t : BPlusTree) (n : LeafNode)
    → IsAt fuel key t n
    → t.config.max_keys ≤ length (upsert key value n.entries)
    → insert fuel key value t
      ≡ split_leaf fuel (leaf (record n { entries = upsert key value n.entries })) t
unfolding insert get_node Node.insert_entry Node.is_full
insert-full fuel key value t n at full =
    let is_full : leb t.config.max_keys (length (upsert key value n.entries)) ≡ true =
      ground arith in
    rw (searched fuel key t n at, ◌>>=◌)
      (rw (at.stored, ◌>>=◌)
        (rw (insert-upsert n key at.sorted value, continue, or_fail, pure, Node.is_full, is_full)
          refl))

module _ (key : Bytes) (t : BPlusTree) (n : LeafNode) (P : InternalNode) (child : IsChild key t n P)
    (stored : t.nodes n.id ≡ some (leaf n)) where
  n-id : n.id ≢ t.next_node_id
  n-id e = let used : t.nodes n.id ≡ none = ap t.nodes e ∙ child.unused in cc

  id-P : t.next_node_id ≢ P.id
  id-P e =
      let used : t.nodes t.next_node_id ≡ some (internal P) = ap t.nodes e ∙ child.stored in
      let unused = child.unused in cc

  leaf_elsewhere :
      (k : LeafNode) (d : NodeId) → t.nodes d ≡ some (leaf k) → (d ≢ t.next_node_id) × (d ≢ P.id)
  leaf_elsewhere k d h = (
    λ e. let used : t.nodes d ≡ none = ap t.nodes e ∙ child.unused in cc,
    λ e. let used : t.nodes d ≡ some (internal P) = ap t.nodes e ∙ child.stored in cc,
  )

  n-P : n.id ≢ P.id
  n-P = (leaf_elsewhere n n.id stored).1

  -- What a search of the split tree finds, for a separator that is sent where the key is.
  descend-absorbed :
      (f : ℕ) (q sep : Bytes) (R L : List Entry) (es : List Entry) (P' : InternalNode)
      → rank sep P.keys ≡ rank key P.keys
      → P'.id ≡ P.id
      → ((p : Bytes)
          → get_elem? P'.children (find_child_index P' p) ≡ (
              if not (before p sep) && (find_child_index P p == find_child_index P sep)
              then some t.next_node_id
              else get_elem? P.children (find_child_index P p)))
      → descend f (absorbed t (record n { entries = es }) P' R L).nodes t.root_id q
        ≡ redirect n.id t.next_node_id sep q (descend f t.nodes t.root_id q)
  unfolding Node.get_child_for_key
  descend-absorbed f q sep R L es P' mid same_id routed =
      let n' : LeafNode = record n { entries = es } in
      let at_sep : find_child_index P sep ≡ rank key P.keys =
        find_child_index-rank P sep child.ascending ∙ mid in
      descend-widened t.nodes n (low_half t.next_node_id n' L) (high_half t.next_node_id n' R) P P'
        sep child.under stored child.stored same_id n-id id-P routed
        (λ p h. child.spot (find_child_index P p) h ∙ sym at_sep) (λ p h. rw (h, at_sep) child.here)
        f t.root_id q child.not_root child.root_given

-- Where the search for a key ends at a sorted leaf that the new entry fills, with a limit of at least
-- two keys, and the leaf is a child at one place of one node, which has room for one key more, as
-- `IsChild` has it: `insert` succeeds, keeps the root, and every read gives afterwards what it gave
-- before, but for the key, which reads as the new value.
pub insert_absorbed :
    (fuel : ℕ) (key value : Bytes) (t : BPlusTree) (n : LeafNode) (P : InternalNode)
    → IsAt (suc fuel) key t n
    → IsChild key t n P
    → 2 ≤ t.config.max_keys
    → t.config.max_keys ≤ length (upsert key value n.entries)
    → suc (length P.keys) < t.config.max_keys
    → (t' : BPlusTree) × (insert (suc fuel) key value t ≡ (ok tt, t'))
      × (t'.root_id ≡ t.root_id)
      × ((q : Bytes)
          → result_of (get (suc fuel) q t')
            ≡ (if same key q then ok (some value) else result_of (get (suc fuel) q t)))
unfolding insert get_node Node.insert_entry Node.is_full
insert_absorbed fuel key value t n P at child two full room =
    let es = upsert key value n.entries in
    let es-IsSorted : IsSorted es = upsert-IsSorted key value n.entries at.sorted in
    let n' : LeafNode = record n { entries = es } in
    let id : NodeId = t.next_node_id in
    let (sep, R, L, e, is) = split-parts n' es-IsSorted (omega arith) in
    let ranks : All (λ x. rank x.0 P.keys ≡ rank key P.keys) (L ++ R) =
      subst (λ l. All (λ x. rank x.0 P.keys ≡ rank key P.keys) l) (sym is.whole)
        (All-upsert (λ k. rank k P.keys ≡ rank key P.keys) key value n.entries refl child.range) in
    let (ranks_low, ranks_high) = All-append (λ x. rank x.0 P.keys ≡ rank key P.keys) L R ranks in
    let low_size : length L ≡ length es / 2 = is.left_size in
    let high_size : length R ≡ length es - length es / 2 = is.right_size in
    let (mid, fresh) =
      between sep P.keys (rank key P.keys) R L (omega arith) (omega arith) is.separated.low
        is.separated.high ranks_low ranks_high in
    let (P', taken, same_id, size, ascending', sized', routed) =
      route-insert_key_child P sep id child.ascending fresh child.sized in
    (
      absorbed t n' P' R L,
      insert-full (suc fuel) key value t n at full
          ∙ split_under fuel t n' sep R L P P' child.parent child.stored
              (n-P key t n P child at.stored) (id-P key t n P child at.stored) e taken
              (omega arith),
      refl,
      λ q.
          rw (get-descend (suc fuel) q t, get-descend (suc fuel) q (absorbed t n' P' R L))
            (rw
              (descend-absorbed key t n P child at.stored (suc fuel) q sep R L es P' mid same_id
                routed)
              (reads_absorbed t.nodes n id sep key value q R L P' at.stored at.sorted is
                (n-id key t n P child at.stored) (λ e. n-P key t n P child at.stored (e ∙ same_id))
                (λ e. id-P key t n P child at.stored (e ∙ same_id))
                (descend (suc fuel) t.nodes t.root_id q)
                (λ d h.
                  let (k, at_d) = descend-leaf (suc fuel) t.nodes t.root_id q d h in
                  let (x, y) = leaf_elsewhere key t n P child at.stored k d at_d in
                  (x, λ e. y (e ∙ same_id)))
                (descends (suc fuel) key t n es at q))),
    )
