-- ===== src/Lsm/MemTable/Reads.antt =====
-- What is read from the table of nanograph-lsm/src/memtable.rs after a write.
use nanograph.Prelude.{
  ℕ, ◌<◌, ◌≡◌, refl, ap, ◌∙◌, Option, none, some, true, false, leb, arith, if◌then◌else◌,
}
use nanograph.Bytes.{Bytes, same, cmp_refl}
use nanograph.Lsm.MemTable.{
  Entry, MemTable, ValueLocation, inline, store, put, put_committed, delete, delete_committed, get,
  get_at_snapshot, is_visible, map_get,
}
use nanograph.Lsm.MemTable.Map.{map_get-map_insert}

-- The entry of a write.
abbrev pub written : MemTable → Bytes → Option ValueLocation → Option ℕ → Entry
written m k v ts = record { key = k; value = v; sequence = m.sequence; commit_ts = ts }

get-store :
    (m : MemTable) (k k' : Bytes) (v : Option ValueLocation) (ts : Option ℕ)
    → get (store m k v ts).1 k' ≡ (if same k' k then some (written m k v ts) else get m k')
unfolding get store
get-store m k k' v ts = map_get-map_insert k k' (written m k v ts) m.data_

-- After a put or a deletion, committed or not, the key gives the entry of this write, with the
-- table's sequence number, and every other key gives what it gave before.
pub get_after_write :
    (m : MemTable) (k k' v : Bytes) (ts : ℕ)
    → (get (put m k v).1 k'
        ≡ (if same k' k then some (written m k (some (inline v)) none) else get m k'))
      × (get (put_committed m k v ts).1 k'
          ≡ (if same k' k then some (written m k (some (inline v)) (some ts)) else get m k'))
      × (get (delete m k).1 k' ≡ (if same k' k then some (written m k none none) else get m k'))
      × (get (delete_committed m k ts).1 k'
          ≡ (if same k' k then some (written m k none (some ts)) else get m k'))
unfolding put put_committed delete delete_committed
get_after_write m k k' v ts =
    (get-store m k k' _ _, get-store m k k' _ _, get-store m k k' _ _, get-store m k k' _ _)

snapshot_misses :
    (m : MemTable) (k : Bytes) (v : Option ValueLocation) (ts : Option ℕ) (snapshot : ℕ)
    → is_visible (written m k v ts) snapshot ≡ false
    → get_at_snapshot (store m k v ts).1 k snapshot ≡ none
unfolding get_at_snapshot get
snapshot_misses m k v ts snapshot h =
    let here : same k k ≡ true = rw (same, cmp_refl k) in
    let found : map_get k (store m k v ts).1.data_ ≡ some (written m k v ts) =
      get-store m k k v ts ∙ ap (λ t. if t then some (written m k v ts) else get m k) here in
    rw (get_at_snapshot, found, h)

-- A write takes the version that a snapshot reads from it: after a put that is not committed, a
-- put committed behind the snapshot or a deletion committed behind it, the snapshot finds nothing
-- under the key, whatever it found before.
pub get_at_snapshot-overwritten :
    (m : MemTable) (k v : Bytes) (ts snapshot : ℕ)
    → snapshot < ts
    → (get_at_snapshot (put m k v).1 k snapshot ≡ none)
      × (get_at_snapshot (put_committed m k v ts).1 k snapshot ≡ none)
      × (get_at_snapshot (delete_committed m k ts).1 k snapshot ≡ none)
unfolding put put_committed delete_committed is_visible
get_at_snapshot-overwritten m k v ts snapshot h =
    let later : leb ts snapshot ≡ false = ground arith in
    (
      snapshot_misses m k _ _ snapshot refl,
      snapshot_misses m k _ _ snapshot later,
      snapshot_misses m k _ _ snapshot later,
    )
