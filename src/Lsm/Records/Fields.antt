-- ===== src/Lsm/Records/Fields.antt =====
-- The payloads of nanograph-lsm/src/wal_record.rs, by their fields.
use nanograph.Prelude.{
  ℕ, zero, suc, ◌+◌, ◌-◌, ◌%◌, ◌^◌, ◌<◌, ◌≡◌, refl, sym, ap, ◌∙◌, some, List, [], ◌∷◌, ◌++◌, false,
  ltb, length, get_elem?, take, arith, length-append,
}
use nanograph.Prelude.Slices.{slice_past, take-append_at}
use nanograph.Bytes.{Bytes}
use nanograph.Bytes.Endian.{to_le_bytes, from_le-to_le, length-to_le_bytes}
use nanograph.Bytes.Chunks.{concat, sum, HasWidths}
use nanograph.Lsm.Records.{get_slice, get_le, length_bytes}

get_slice_past :
    (w off n : ℕ) (xs ys : Bytes)
    → length xs ≡ w
    → get_slice (xs ++ ys) (w + off) n ≡ get_slice ys off n
unfolding get_slice
get_slice_past w off n xs ys h =
    let e : w + off + n ≡ w + (off + n) = omega arith in
    let t : ltb (length (xs ++ ys)) (w + (off + n)) ≡ ltb (length ys) (off + n) =
      ground (arith, length-append xs ys) in
    rw (e, t, slice_past w off (off + n) xs ys h)

-- Chunk `i` is what is sliced at its offset.
pub get_slice_chunk :
    (i : ℕ) (cs : List Bytes) (ws : List ℕ) (c : Bytes) (off n : ℕ)
    → HasWidths cs ws
    → get_elem? cs i ≡ some c
    → off ≡ sum (take i ws)
    → n ≡ length c
    → get_slice (concat cs) off n ≡ some c
unfolding HasWidths get_slice
get_slice_chunk i [] ws c off n h e o l = cc
get_slice_chunk i (d ∷ cs) [] c off n h e o l = absurd h
get_slice_chunk zero (d ∷ cs) (w ∷ ws) c off n (k, h) e o l =
    let d_is_c : d ≡ c = cc in
    let t : ltb (length (c ++ concat cs)) (0 + n) ≡ false =
      ground (arith, length-append c (concat cs)) in
    rw (d_is_c, o, t, take-append_at (0 + n - 0) c (concat cs) (omega arith))
get_slice_chunk (suc i) (d ∷ cs) (w ∷ ws) c off n (k, h) e o l =
    rw (o, get_slice_past w (sum (take i ws)) n d (concat cs) k)
      (get_slice_chunk i cs ws c (sum (take i ws)) n h e refl l)

pub get_le_chunk :
    (i w : ℕ) (cs : List Bytes) (ws : List ℕ) (v off : ℕ)
    → HasWidths cs ws
    → get_elem? cs i ≡ some (to_le_bytes w v)
    → off ≡ sum (take i ws)
    → v < 256 ^ w
    → get_le (concat cs) off w ≡ some v
unfolding get_le
get_le_chunk i w cs ws v off h e o l =
    let found =
      get_slice_chunk i cs ws (to_le_bytes w v) off w h e o (sym (length-to_le_bytes w v)) in
    rw (found, from_le-to_le w v l)

-- The length of a slice that is shorter than 2^32 is read back.
pub length_chunk :
    (i : ℕ) (cs : List Bytes) (ws : List ℕ) (c : Bytes) (off : ℕ)
    → HasWidths cs ws
    → get_elem? cs i ≡ some (length_bytes c)
    → off ≡ sum (take i ws)
    → length c < 2 ^ 32
    → get_le (concat cs) off 4 ≡ some (length c)
unfolding length_bytes
length_chunk i cs ws c off h e o l =
    let short : length c % 2 ^ 32 ≡ length c = omega arith in
    get_le_chunk i 4 cs ws (length c % 2 ^ 32) off h e o (omega arith) ∙ ap some short

pub length-length_bytes : (c : Bytes) → length (length_bytes c) ≡ 4
unfolding length_bytes
length-length_bytes c = length-to_le_bytes 4 (length c % 2 ^ 32)
