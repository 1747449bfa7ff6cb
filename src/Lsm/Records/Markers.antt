-- ===== src/Lsm/Records/Markers.antt =====
-- The payloads of nanograph-lsm/src/wal_record.rs, of deletions and markers, encoded and decoded.
use nanograph.Prelude.{
  ℕ, ◌+◌, ◌^◌, ◌<◌, ◌≡◌, refl, some, ok, List, [], ◌∷◌, false, ltb, length, arith,
}
use nanograph.Bytes.{Bytes}
use nanograph.Bytes.Endian.{to_le_bytes, length-to_le_bytes}
use nanograph.Bytes.Chunks.{concat, HasWidths, length-concat}
use nanograph.Lsm.Records.{
  length_bytes, encode_delete, decode_delete, encode_delete_committed, decode_delete_committed,
  encode_commit, decode_commit, encode_checkpoint, decode_checkpoint, encode_flush_complete,
  decode_flush_complete,
}
use nanograph.Lsm.Records.Fields.{get_slice_chunk, get_le_chunk, length_chunk, length-length_bytes}

deleted : (key : Bytes) → length key < 2 ^ 32 → decode_delete (encode_delete key) ≡ some (ok key)
unfolding decode_delete encode_delete HasWidths
deleted key k =
    let cs : List Bytes = length_bytes key ∷ key ∷ [] in
    let ws : List ℕ = 4 ∷ length key ∷ [] in
    let h : HasWidths cs ws = (length-length_bytes key, (refl, _)) in
    let size = length-concat cs ws h in
    let t0 : ltb (length (concat cs)) 4 ≡ false = ground (arith, size) in
    let t1 : ltb (length (concat cs)) (4 + length key) ≡ false = ground (arith, size) in
    rw (
      t0,
      length_chunk 0 cs ws key 0 h refl refl k,
      t1,
      get_slice_chunk 1 cs ws key 4 (length key) h refl refl refl,
    )

deleted_committed :
    (key : Bytes) (ts : ℕ)
    → length key < 2 ^ 32
    → ts < 2 ^ 64
    → decode_delete_committed (encode_delete_committed key ts) ≡ some (ok (key, ts))
unfolding decode_delete_committed encode_delete_committed HasWidths
deleted_committed key ts k t =
    let cs : List Bytes = length_bytes key ∷ key ∷ to_le_bytes 8 ts ∷ [] in
    let ws : List ℕ = 4 ∷ length key ∷ 8 ∷ [] in
    let h : HasWidths cs ws = (length-length_bytes key, (refl, (length-to_le_bytes 8 ts, _))) in
    let size = length-concat cs ws h in
    let t0 : ltb (length (concat cs)) 12 ≡ false = ground (arith, size) in
    let t1 : ltb (length (concat cs)) (4 + length key + 8) ≡ false = ground (arith, size) in
    rw (
      t0,
      length_chunk 0 cs ws key 0 h refl refl k,
      t1,
      get_slice_chunk 1 cs ws key 4 (length key) h refl refl refl,
      get_le_chunk 2 8 cs ws ts (4 + length key) h refl (omega arith) (omega arith),
    )

committed : (ts : ℕ) → ts < 2 ^ 64 → decode_commit (encode_commit ts) ≡ some (ok ts)
unfolding decode_commit encode_commit HasWidths
committed ts t =
    let cs : List Bytes = to_le_bytes 8 ts ∷ [] in
    let ws : List ℕ = 8 ∷ [] in
    let h : HasWidths cs ws = (length-to_le_bytes 8 ts, _) in
    let t0 : ltb (length (concat cs)) 8 ≡ false = ground (arith, length-concat cs ws h) in
    rw (t0, get_le_chunk 0 8 cs ws ts 0 h refl refl (omega arith))

checkpointed :
    (sequence file : ℕ)
    → sequence < 2 ^ 64
    → file < 2 ^ 64
    → decode_checkpoint (encode_checkpoint sequence file) ≡ some (ok (sequence, file))
unfolding decode_checkpoint encode_checkpoint HasWidths
checkpointed sequence file s f =
    let cs : List Bytes = to_le_bytes 8 sequence ∷ to_le_bytes 8 file ∷ [] in
    let ws : List ℕ = 8 ∷ 8 ∷ [] in
    let h : HasWidths cs ws = (length-to_le_bytes 8 sequence, (length-to_le_bytes 8 file, _)) in
    let t0 : ltb (length (concat cs)) 16 ≡ false = ground (arith, length-concat cs ws h) in
    rw (
      t0,
      get_le_chunk 0 8 cs ws sequence 0 h refl refl (omega arith),
      get_le_chunk 1 8 cs ws file 8 h refl refl (omega arith),
    )

flushed :
    (file level : ℕ)
    → file < 2 ^ 64
    → level < 2 ^ 32
    → decode_flush_complete (encode_flush_complete file level) ≡ some (ok (file, level))
unfolding decode_flush_complete encode_flush_complete HasWidths
flushed file level f l =
    let cs : List Bytes = to_le_bytes 8 file ∷ to_le_bytes 4 level ∷ [] in
    let ws : List ℕ = 8 ∷ 4 ∷ [] in
    let h : HasWidths cs ws = (length-to_le_bytes 8 file, (length-to_le_bytes 4 level, _)) in
    let t0 : ltb (length (concat cs)) 12 ≡ false = ground (arith, length-concat cs ws h) in
    rw (
      t0,
      get_le_chunk 0 8 cs ws file 0 h refl refl (omega arith),
      get_le_chunk 1 4 cs ws level 8 h refl refl (omega arith),
    )

-- Deletions, committed or not, and the markers of commits, checkpoints and flushes are decoded as
-- they were: keys shorter than 2^32 bytes, and numbers in the ranges of their machine integers.
pub decode-encode_markers :
    (key : Bytes) (ts sequence file level : ℕ)
    → length key < 2 ^ 32
    → ts < 2 ^ 64
    → sequence < 2 ^ 64
    → file < 2 ^ 64
    → level < 2 ^ 32
    → (decode_delete (encode_delete key) ≡ some (ok key))
      × (decode_delete_committed (encode_delete_committed key ts) ≡ some (ok (key, ts)))
      × (decode_commit (encode_commit ts) ≡ some (ok ts))
      × (decode_checkpoint (encode_checkpoint sequence file) ≡ some (ok (sequence, file)))
      × (decode_flush_complete (encode_flush_complete file level) ≡ some (ok (file, level)))
decode-encode_markers key ts sequence file level k t s f l = (
  deleted key k,
  deleted_committed key ts k t,
  committed ts t,
  checkpointed sequence file s f,
  flushed file level f l,
)
