-- ===== src/Lsm/Records/RoundTrip.antt =====
-- The payloads of nanograph-lsm/src/wal_record.rs, encoded and decoded.
use nanograph.Prelude.{
  ℕ, ◌+◌, ◌^◌, ◌≤◌, ◌<◌, ◌≡◌, refl, some, ok, List, [], ◌∷◌, false, ltb, length, arith,
}
use nanograph.Bytes.{Bytes}
use nanograph.Bytes.Endian.{to_le_bytes, length-to_le_bytes}
use nanograph.Bytes.Chunks.{concat, HasWidths, length-concat}
use nanograph.Lsm.Records.{
  WalRecordKind, put, delete, put_committed, delete_committed, commit, checkpoint, flush_complete,
  to_u16, from_u16, get_slice, get_le, length_bytes, encode_put, decode_put, encode_put_committed,
  decode_put_committed,
}
use nanograph.Lsm.Records.Fields.{get_slice_chunk, get_le_chunk, length_chunk, length-length_bytes}

-- The kind of a record survives being stored as a number.
pub from_u16-to_u16 : (k : WalRecordKind) → from_u16 (to_u16 k) ≡ some k
unfolding from_u16 to_u16
from_u16-to_u16 put = refl
from_u16-to_u16 delete = refl
from_u16-to_u16 put_committed = refl
from_u16-to_u16 delete_committed = refl
from_u16-to_u16 commit = refl
from_u16-to_u16 checkpoint = refl
from_u16-to_u16 flush_complete = refl

decode_put_lem :
    (b key value : Bytes)
    → 4 + length key + 4 + length value ≤ length b
    → get_le b 0 4 ≡ some (length key)
    → get_slice b 4 (length key) ≡ some key
    → get_le b (4 + length key) 4 ≡ some (length value)
    → get_slice b (4 + length key + 4) (length value) ≡ some value
    → decode_put b ≡ some (ok (key, value))
unfolding decode_put
decode_put_lem b key value l e1 e2 e3 e4 =
    let t0 : ltb (length b) 8 ≡ false = ground arith in
    let t1 : ltb (length b) (4 + length key) ≡ false = ground arith in
    let t2 : ltb (length b) (4 + length key + 4) ≡ false = ground arith in
    let t3 : ltb (length b) (4 + length key + 4 + length value) ≡ false = ground arith in
    rw (t0, e1, t1, e2, t2, e3, t3, e4)

-- A put whose key and value are shorter than 2^32 bytes is decoded as it was.
pub decode_put-encode_put :
    (key value : Bytes)
    → length key < 2 ^ 32
    → length value < 2 ^ 32
    → decode_put (encode_put key value) ≡ some (ok (key, value))
unfolding encode_put HasWidths
decode_put-encode_put key value k v =
    let cs : List Bytes = length_bytes key ∷ key ∷ length_bytes value ∷ value ∷ [] in
    let ws : List ℕ = 4 ∷ length key ∷ 4 ∷ length value ∷ [] in
    let h : HasWidths cs ws =
      (length-length_bytes key, (refl, (length-length_bytes value, (refl, _)))) in
    decode_put_lem (concat cs) key value (omega (arith, length-concat cs ws h))
      (length_chunk 0 cs ws key 0 h refl refl k)
      (get_slice_chunk 1 cs ws key 4 (length key) h refl refl refl)
      (length_chunk 2 cs ws value (4 + length key) h refl (omega arith) v)
      (get_slice_chunk 3 cs ws value (4 + length key + 4) (length value) h refl (omega arith) refl)

decode_put_committed_lem :
    (b key value : Bytes) (ts : ℕ)
    → 4 + length key + 4 + length value + 8 ≤ length b
    → get_le b 0 4 ≡ some (length key)
    → get_slice b 4 (length key) ≡ some key
    → get_le b (4 + length key) 4 ≡ some (length value)
    → get_slice b (4 + length key + 4) (length value) ≡ some value
    → get_le b (4 + length key + 4 + length value) 8 ≡ some ts
    → decode_put_committed b ≡ some (ok (key, value, ts))
unfolding decode_put_committed
decode_put_committed_lem b key value ts l e1 e2 e3 e4 e5 =
    let t0 : ltb (length b) 16 ≡ false = ground arith in
    let t1 : ltb (length b) (4 + length key) ≡ false = ground arith in
    let t2 : ltb (length b) (4 + length key + 4) ≡ false = ground arith in
    let t3 : ltb (length b) (4 + length key + 4 + length value + 8) ≡ false = ground arith in
    rw (t0, e1, t1, e2, t2, e3, t3, e4, e5)

-- A committed put is decoded as it was, its timestamp included.
pub decode_put_committed-encode_put_committed :
    (key value : Bytes) (ts : ℕ)
    → length key < 2 ^ 32
    → length value < 2 ^ 32
    → ts < 2 ^ 64
    → decode_put_committed (encode_put_committed key value ts) ≡ some (ok (key, value, ts))
unfolding encode_put_committed HasWidths
decode_put_committed-encode_put_committed key value ts k v t =
    let cs : List Bytes =
      length_bytes key ∷ key ∷ length_bytes value ∷ value ∷ to_le_bytes 8 ts ∷ [] in
    let ws : List ℕ = 4 ∷ length key ∷ 4 ∷ length value ∷ 8 ∷ [] in
    let h : HasWidths cs ws = (
      length-length_bytes key,
      (refl, (length-length_bytes value, (refl, (length-to_le_bytes 8 ts, _)))),
    ) in
    decode_put_committed_lem (concat cs) key value ts (omega (arith, length-concat cs ws h))
      (length_chunk 0 cs ws key 0 h refl refl k)
      (get_slice_chunk 1 cs ws key 4 (length key) h refl refl refl)
      (length_chunk 2 cs ws value (4 + length key) h refl (omega arith) v)
      (get_slice_chunk 3 cs ws value (4 + length key + 4) (length value) h refl (omega arith) refl)
      (get_le_chunk 4 8 cs ws ts (4 + length key + 4 + length value) h refl (omega arith)
        (omega arith))
