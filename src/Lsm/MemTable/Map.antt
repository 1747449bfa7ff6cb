-- ===== src/Lsm/MemTable/Map.antt =====
-- The map of nanograph-lsm/src/memtable.rs: what a write leaves to be found.
use Prim.Native.Nat.Ordering.{eq}
use nanograph.Prelude.{◌≡◌, ap, some, [], ◌∷◌, arith, inl, inr, Ordering-cases, if◌then◌else◌}
use nanograph.Bytes.{Bytes, cmp, same, ◌≺◌, eq_of_cmp, lt_of_gt, lt_trans}
use nanograph.Lsm.MemTable.{Entry, Data, map_insert, map_get}

pub map_get-map_insert :
    (k k' : Bytes) (e : Entry) (m : Data)
    → map_get k' (map_insert k e m).1 ≡ (if same k' k then some e else map_get k' m)
unfolding map_get map_insert
map_get-map_insert k k' e [] = ground arith
map_get-map_insert k k' e ((h, x) ∷ rest) = elim (Ordering-cases (cmp k h)) [
  | inl l ↦ ground (arith, l, lt_trans k' k h)
  | inr (inl s) ↦
      let k_is_h : k ≡ h = eq_of_cmp k h s in
      let same_order : cmp k' k ≡ cmp k' h = ap (cmp k') k_is_h in ground (arith, s, same_order)
  | inr (inr g) ↦
      let below : h ≺ k = lt_of_gt k h g in
      let at_h : cmp k' h ≡ eq → k' ≺ k = λ t. rw (eq_of_cmp k' h t) below in
      ground (arith, g, lt_trans k' h k, map_get-map_insert k k' e rest)
]
