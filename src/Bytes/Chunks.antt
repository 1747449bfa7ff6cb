-- ===== src/Bytes/Chunks.antt =====
-- Fields of fixed widths, one behind the other in a buffer.
use nanograph.Prelude.{
  ℕ, zero, suc, ◌+◌, ◌-◌, ◌≤◌, ◌≡◌, refl, ◌∙◌, some, List, [], ◌∷◌, ◌++◌, length, take, drop, slice,
  copy_at, get_elem?, arith, length-append, take-append-drop,
}
use nanograph.Prelude.Slices.{
  length-copy_at, take-append_at, drop_all, slice_past, take-copy_at, drop-copy_at,
}
use mathlib.Core.List.{append_assoc, append-nil}
use nanograph.Bytes.{Bytes}

abbrev pub concat : List Bytes → Bytes
concat [] = []
concat (c ∷ cs) = c ++ concat cs

abbrev pub sum : List ℕ → ℕ
sum [] = 0
sum (w ∷ ws) = w + sum ws

-- Every chunk has its width.
unfoldable pub HasWidths : List Bytes → List ℕ → Type 0
HasWidths [] [] = Unit
HasWidths [] (w ∷ ws) = ⊥
HasWidths (c ∷ cs) [] = ⊥
HasWidths (c ∷ cs) (w ∷ ws) = (length c ≡ w) × HasWidths cs ws

-- The chunks copied into a buffer from an offset on.
abbrev pub copy_all : ℕ → List ℕ → List Bytes → Bytes → Bytes
copy_all off ws [] b = b
copy_all off [] (c ∷ cs) b = b
copy_all off (w ∷ ws) (c ∷ cs) b = copy_all (off + w) ws cs (copy_at off c b)

pub length-concat : (cs : List Bytes) (ws : List ℕ) → HasWidths cs ws → length (concat cs) ≡ sum ws
unfolding HasWidths
length-concat [] [] h = refl
length-concat [] (w ∷ ws) h = absurd h
length-concat (c ∷ cs) [] h = absurd h
length-concat (c ∷ cs) (w ∷ ws) (e, h) =
    omega (arith, e, length-append c (concat cs), length-concat cs ws h)

-- Chunk `i` is what stands between the widths before it and the next.
pub slice-chunk :
    (i : ℕ) (cs : List Bytes) (ws : List ℕ)
    → HasWidths cs ws
    → (c : Bytes) → get_elem? cs i ≡ some c
    → slice (sum (take i ws)) (sum (take (suc i) ws)) (concat cs) ≡ c
unfolding HasWidths
slice-chunk i [] ws h c e = cc
slice-chunk i (d ∷ cs) [] h c e = absurd h
slice-chunk zero (d ∷ cs) (w ∷ ws) (l, h) c e =
    let d_is_c : d ≡ c = cc in
    rw (← d_is_c) (take-append_at (w + 0 - 0) d (concat cs) (omega arith))
slice-chunk (suc i) (d ∷ cs) (w ∷ ws) (l, h) c e =
    rw (slice_past w (sum (take i ws)) (sum (take (suc i) ws)) d (concat cs) l)
      (slice-chunk i cs ws h c e)

-- A buffer that the chunks are copied into.
pub copy_all-concat :
    (off : ℕ) (ws : List ℕ) (cs : List Bytes) (b : Bytes)
    → HasWidths cs ws
    → off + sum ws ≤ length b
    → copy_all off ws cs b ≡ take off b ++ (concat cs ++ drop (off + sum ws) b)
unfolding HasWidths
copy_all-concat off [] [] b h l =
    let e : off + 0 ≡ off = omega arith in rw (e, take-append-drop off b)
copy_all-concat off (w ∷ ws) [] b h l = absurd h
copy_all-concat off [] (c ∷ cs) b h l = absurd h
copy_all-concat off (w ∷ ws) (c ∷ cs) b (e, h) l =
    let d = copy_at off c b in
    let same_length : length d ≡ length b = length-copy_at off c b (omega (arith, e)) in
    let sum_assoc : off + (w + sum ws) ≡ off + w + sum ws = omega arith in
    rw
      (
        copy_all-concat (off + w) ws cs d h (omega arith),
        take-copy_at off w c b e (omega arith),
        drop-copy_at off w (sum ws) c b e (omega arith),
      )
      (rw (
        sum_assoc,
        append_assoc (take off b) c (concat cs ++ drop (off + w + sum ws) b),
        append_assoc c (concat cs) (drop (off + w + sum ws) b),
      ))

-- A buffer that the chunks fill.
pub copy_all_filled :
    (ws : List ℕ) (cs : List Bytes) (b : Bytes)
    → HasWidths cs ws
    → sum ws ≡ length b
    → copy_all 0 ws cs b ≡ concat cs
copy_all_filled ws cs b h l = rw (
  copy_all-concat 0 ws cs b h (omega arith),
  drop_all (0 + sum ws) b (omega arith),
  append-nil (concat cs),
)

-- Copying chunks into a buffer that has room for them keeps its length.
pub length-copy_all :
    (off : ℕ) (ws : List ℕ) (cs : List Bytes) (b : Bytes)
    → HasWidths cs ws
    → off + sum ws ≤ length b
    → length (copy_all off ws cs b) ≡ length b
unfolding HasWidths
length-copy_all off [] [] b h l = refl
length-copy_all off (w ∷ ws) [] b h l = absurd h
length-copy_all off [] (c ∷ cs) b h l = absurd h
length-copy_all off (w ∷ ws) (c ∷ cs) b (e, h) l =
    let same_length : length (copy_at off c b) ≡ length b =
      length-copy_at off c b (omega (arith, e)) in
    length-copy_all (off + w) ws cs (copy_at off c b) h (omega arith) ∙ same_length

pub take-HasWidths :
    (n : ℕ) (cs : List Bytes) (ws : List ℕ) → HasWidths cs ws → HasWidths (take n cs) (take n ws)
unfolding HasWidths
take-HasWidths zero cs ws h = _
take-HasWidths (suc n) [] [] h = _
take-HasWidths (suc n) [] (w ∷ ws) h = absurd h
take-HasWidths (suc n) (c ∷ cs) [] h = absurd h
take-HasWidths (suc n) (c ∷ cs) (w ∷ ws) (e, h) = (e, take-HasWidths n cs ws h)
