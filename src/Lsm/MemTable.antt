-- ===== src/Lsm/MemTable.antt =====
-- `MemTable` of nanograph-lsm/src/memtable.rs. Its `BTreeMap` is the list of its keys and entries
-- in ascending order. A method returns the table after the call. Timestamps, i64 in the source,
-- are counted from the least i64, which keeps their order; the sizes of a table in memory stay
-- below the range of usize.
pub mod Map
pub mod Size
pub mod Reads
mod Tests
use Prim.Native.Nat.Ordering.{lt, eq, gt}
use nanograph.Prelude.{
  ℕ, ◌+◌, ◌-◌, ◌%◌, ◌^◌, Option, none, some, List, [], ◌∷◌, Bool, true, false, ltb, leb, length,
  map, if◌then◌else◌,
}
use nanograph.Bytes.{Bytes, cmp, before}

pub record BlobRef : Type 0 where
  pub file_id : ℕ
  pub offset : ℕ
  pub length : ℕ

pub data ValueLocation : Type 0 where
  inline : Bytes → ValueLocation
  blob : BlobRef → ValueLocation

-- `BlobRef::serialized_size` is 8 + 8 + 4.
unfoldable pub location_size : ValueLocation → ℕ
location_size (inline data_) = length data_
location_size (blob r) = 20

pub record Entry : Type 0 where
  pub key : Bytes
  pub value : Option ValueLocation
  pub sequence : ℕ
  pub commit_ts : Option ℕ

unfoldable pub is_visible : Entry → ℕ → Bool
is_visible e snapshot_ts = elim e.commit_ts [ none ↦ false | some ts ↦ leb ts snapshot_ts ]

unfoldable pub entry_size : Entry → ℕ
unfolding location_size
entry_size e = length e.key + (elim e.value [ none ↦ 0 | some v ↦ location_size v ]) + 16

unfoldable pub is_deletion : Entry → Bool
is_deletion e = elim e.value [ none ↦ true | some v ↦ false ]

abbrev pub Data : Type 0
Data = List (Bytes × Entry)

pub record MemTable : Type 0 where
  pub data_ : Data
  pub size : ℕ
  pub sequence : ℕ

unfoldable pub new : MemTable
new = record { data_ = []; size = 0; sequence = 0 }

-- `BTreeMap::insert`, with the entry that was there before.
unfoldable pub map_insert : Bytes → Entry → Data → Option Entry × Data
map_insert k e [] = (none, (k, e) ∷ [])
map_insert k e ((k', e') ∷ rest) =
    let (old, rest') = map_insert k e rest in
    elim (cmp k k') [
      | lt ↦ (none, (k, e) ∷ (k', e') ∷ rest)
      | eq ↦ (some e', (k', e) ∷ rest)
      | gt ↦ (old, (k', e') ∷ rest')
    ]

-- `BTreeMap::get`
unfoldable pub map_get : Bytes → Data → Option Entry
map_get k [] = none
map_get k ((k', e') ∷ rest) = elim (cmp k k') [ lt ↦ none | eq ↦ some e' | gt ↦ map_get k rest ]

-- The size after an entry of size `n` took the place of an older one, or of none.
unfoldable pub adjusted : ℕ → ℕ → Option Entry → ℕ
unfolding entry_size
adjusted size n none = size + n
adjusted size n (some old_entry) =
    let old_size = entry_size old_entry in
    if ltb old_size n then size + (n - old_size) else size - (old_size - n)

-- What the four writes do with an entry: its sequence number is the counter's.
unfoldable pub store : MemTable → Bytes → Option ValueLocation → Option ℕ → ℕ × MemTable
unfolding map_insert adjusted
store m key value commit_ts =
    let entry : Entry = record {
      key = key;
      value = value;
      sequence = m.sequence;
      commit_ts = commit_ts;
    } in
    let (old, data_) = map_insert key entry m.data_ in
    (
      m.sequence,
      record {
        data_ = data_;
        size = adjusted m.size (entry_size entry) old;
        sequence = (m.sequence + 1) % 2 ^ 64;
      },
    )

unfoldable pub put : MemTable → Bytes → Bytes → ℕ × MemTable
put m key value = store m key (some (inline value)) none

unfoldable pub put_committed : MemTable → Bytes → Bytes → ℕ → ℕ × MemTable
put_committed m key value commit_ts = store m key (some (inline value)) (some commit_ts)

unfoldable pub delete : MemTable → Bytes → ℕ × MemTable
delete m key = store m key none none

unfoldable pub delete_committed : MemTable → Bytes → ℕ → ℕ × MemTable
delete_committed m key commit_ts = store m key none (some commit_ts)

unfoldable pub get : MemTable → Bytes → Option Entry
get m key = map_get key m.data_

unfoldable pub get_at_snapshot : MemTable → Bytes → ℕ → Option Entry
get_at_snapshot m key snapshot_ts = elim (map_get key m.data_) [
  | none ↦ none
  | some e ↦ if is_visible e snapshot_ts then some e else none
]

-- `get_mut` of the key, with the timestamp put into an entry that has none.
unfoldable pub commit_data : Bytes → ℕ → Data → Bool × Data
commit_data key ts [] = (false, [])
commit_data key ts ((k', e') ∷ rest) =
    let (done, rest') = commit_data key ts rest in
    elim (cmp key k') [
      | lt ↦ (false, (k', e') ∷ rest)
      | eq ↦ elim e'.commit_ts [
        | none ↦ (true, (k', record e' { commit_ts = some ts }) ∷ rest)
        | some t ↦ (false, (k', e') ∷ rest)
      ]
      | gt ↦ (done, (k', e') ∷ rest')
    ]

unfoldable pub commit_entry : MemTable → Bytes → ℕ → Bool × MemTable
commit_entry m key ts =
    let (done, data_) = commit_data key ts m.data_ in (done, record m { data_ = data_ })

unfoldable pub entry_count : MemTable → ℕ
entry_count m = length m.data_

unfoldable pub entries : MemTable → List Entry
entries m = map (λ p. p.1) m.data_

unfoldable pub clear : MemTable → MemTable
clear m = record { data_ = []; size = 0; sequence = 0 }
