-- ===== src/Lsm/Records/Total.antt =====
-- No payload makes a decoder of nanograph-lsm/src/wal_record.rs panic.
use nanograph.Prelude.{
  ℕ, ◌+◌, ◌≤◌, ◌≡◌, Option, some, Result, ok, err, ltb, length, slice, arith, Bool-cases, inl, inr,
}
use nanograph.Bytes.{Bytes}
use nanograph.Bytes.Endian.{from_le_bytes}
use nanograph.Lsm.Records.{
  KeyValueError, storage_corruption, get_slice, get_le, decode_put, decode_delete,
  decode_put_committed, decode_delete_committed,
}

get_slice_within :
    (b : Bytes) (off n : ℕ) → off + n ≤ length b → get_slice b off n ≡ some (slice off (off + n) b)
unfolding get_slice
get_slice_within b off n h = ground arith

get_le_within :
    (b : Bytes) (off w : ℕ)
    → off + w ≤ length b
    → get_le b off w ≡ some (from_le_bytes (slice off (off + w) b))
unfolding get_le
get_le_within b off w h = let e = get_slice_within b off w h in rw e

-- A result of some kind is returned, whatever the payload is.
abbrev pub Returns : {A : Type 0} → Option (Result A KeyValueError) → Type 0
Returns {A} r = (v : Result A KeyValueError) × (r ≡ some v)

put-Returns : (b : Bytes) → Returns (decode_put b)
unfolding decode_put
put-Returns b = elim (Bool-cases (ltb (length b) (8))) [
  | inl short ↦ (err storage_corruption, rw short)
  | inr t1 ↦
      let key_len = from_le_bytes (slice (0) (0 + 4) b) in
      elim (Bool-cases (ltb (length b) (4 + key_len))) [
        | inl short ↦ (err storage_corruption, rw (t1, get_le_within b (0) 4 (ground arith), short))
        | inr t2 ↦
            let key = slice (4) (4 + key_len) b in
            elim (Bool-cases (ltb (length b) (4 + key_len + 4))) [
              | inl short ↦ (
                err storage_corruption,
                rw (
                  t1,
                  get_le_within b (0) 4 (ground arith),
                  t2,
                  get_slice_within b (4) key_len (ground arith),
                  short,
                ),
              )
              | inr t3 ↦
                  let value_len = from_le_bytes (slice (4 + key_len) (4 + key_len + 4) b) in
                  elim (Bool-cases (ltb (length b) (4 + key_len + 4 + value_len))) [
                    | inl short ↦ (
                      err storage_corruption,
                      rw (
                        t1,
                        get_le_within b (0) 4 (ground arith),
                        t2,
                        get_slice_within b (4) key_len (ground arith),
                        t3,
                        get_le_within b (4 + key_len) 4 (ground arith),
                        short,
                      ),
                    )
                    | inr t4 ↦
                        let value = slice (4 + key_len + 4) (4 + key_len + 4 + value_len) b in
                        (
                          ok (key, value),
                          rw (
                            t1,
                            get_le_within b (0) 4 (ground arith),
                            t2,
                            get_slice_within b (4) key_len (ground arith),
                            t3,
                            get_le_within b (4 + key_len) 4 (ground arith),
                            t4,
                            get_slice_within b (4 + key_len + 4) value_len (ground arith),
                          ),
                        )
                  ]
            ]
      ]
]

put_committed-Returns : (b : Bytes) → Returns (decode_put_committed b)
unfolding decode_put_committed
put_committed-Returns b = elim (Bool-cases (ltb (length b) (16))) [
  | inl short ↦ (err storage_corruption, rw short)
  | inr t1 ↦
      let key_len = from_le_bytes (slice (0) (0 + 4) b) in
      elim (Bool-cases (ltb (length b) (4 + key_len))) [
        | inl short ↦ (err storage_corruption, rw (t1, get_le_within b (0) 4 (ground arith), short))
        | inr t2 ↦
            let key = slice (4) (4 + key_len) b in
            elim (Bool-cases (ltb (length b) (4 + key_len + 4))) [
              | inl short ↦ (
                err storage_corruption,
                rw (
                  t1,
                  get_le_within b (0) 4 (ground arith),
                  t2,
                  get_slice_within b (4) key_len (ground arith),
                  short,
                ),
              )
              | inr t3 ↦
                  let value_len = from_le_bytes (slice (4 + key_len) (4 + key_len + 4) b) in
                  elim (Bool-cases (ltb (length b) (4 + key_len + 4 + value_len + 8))) [
                    | inl short ↦ (
                      err storage_corruption,
                      rw (
                        t1,
                        get_le_within b (0) 4 (ground arith),
                        t2,
                        get_slice_within b (4) key_len (ground arith),
                        t3,
                        get_le_within b (4 + key_len) 4 (ground arith),
                        short,
                      ),
                    )
                    | inr t4 ↦
                        let value = slice (4 + key_len + 4) (4 + key_len + 4 + value_len) b in
                        let ts = from_le_bytes (
                          slice (4 + key_len + 4 + value_len) (4 + key_len + 4 + value_len + 8)
                            b) in
                        (
                          ok (key, value, ts),
                          rw (
                            t1,
                            get_le_within b (0) 4 (ground arith),
                            t2,
                            get_slice_within b (4) key_len (ground arith),
                            t3,
                            get_le_within b (4 + key_len) 4 (ground arith),
                            t4,
                            get_slice_within b (4 + key_len + 4) value_len (ground arith),
                            get_le_within b (4 + key_len + 4 + value_len) 8 (ground arith),
                          ),
                        )
                  ]
            ]
      ]
]

delete-Returns : (b : Bytes) → Returns (decode_delete b)
unfolding decode_delete
delete-Returns b = elim (Bool-cases (ltb (length b) (4))) [
  | inl short ↦ (err storage_corruption, rw short)
  | inr t1 ↦
      let key_len = from_le_bytes (slice (0) (0 + 4) b) in
      elim (Bool-cases (ltb (length b) (4 + key_len))) [
        | inl short ↦ (err storage_corruption, rw (t1, get_le_within b (0) 4 (ground arith), short))
        | inr t2 ↦
            let key = slice (4) (4 + key_len) b in
            (
              ok key,
              rw (
                t1,
                get_le_within b (0) 4 (ground arith),
                t2,
                get_slice_within b (4) key_len (ground arith),
              ),
            )
      ]
]

delete_committed-Returns : (b : Bytes) → Returns (decode_delete_committed b)
unfolding decode_delete_committed
delete_committed-Returns b = elim (Bool-cases (ltb (length b) (12))) [
  | inl short ↦ (err storage_corruption, rw short)
  | inr t1 ↦
      let key_len = from_le_bytes (slice (0) (0 + 4) b) in
      elim (Bool-cases (ltb (length b) (4 + key_len + 8))) [
        | inl short ↦ (err storage_corruption, rw (t1, get_le_within b (0) 4 (ground arith), short))
        | inr t2 ↦
            let key = slice (4) (4 + key_len) b in
            let ts = from_le_bytes (slice (4 + key_len) (4 + key_len + 8) b) in
            (
              ok (key, ts),
              rw (
                t1,
                get_le_within b (0) 4 (ground arith),
                t2,
                get_slice_within b (4) key_len (ground arith),
                get_le_within b (4 + key_len) 8 (ground arith),
              ),
            )
      ]
]

-- Every payload is decoded to a value or refused as corrupt by the decoders of puts, committed
-- puts, deletions and committed deletions: no slice or index leaves the payload, whatever lengths
-- the payload claims.
pub decoders_return :
    (b : Bytes)
    → Returns (decode_put b)
      × Returns (decode_put_committed b)
      × Returns (decode_delete b)
      × Returns (decode_delete_committed b)
decoders_return b =
    (put-Returns b, put_committed-Returns b, delete-Returns b, delete_committed-Returns b)
