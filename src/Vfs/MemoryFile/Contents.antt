-- ===== src/Vfs/MemoryFile/Contents.antt =====
-- What `MemoryFile` of nanograph-vfs/src/memoryfs.rs keeps of what is written to it.
use nanograph.Prelude.{
  ℕ, ◌+◌, ◌-◌, ◌≤◌, ◌<◌, ◌≡◌, none, some, ◌⊎◌, inl, inr, ◌↔◌, ◌++◌, false, ltb, length, take, drop,
  replicate, slice, get_elem?, min, arith, Bool-cases, ltb→lt, length-take, length-drop,
  get_elem?-take, get_elem?-drop, length-append,
}
use nanograph.Prelude.Slices.{
  length-resize, length-copy_at, slice-copy_at, copy_at-resize, copy_at_end, get_elem?-append_lt,
  get_elem?-append_ge, take_same, take-append_at, drop-append_at,
}
use nanograph.Bytes.{Bytes}
use nanograph.Vfs.MemoryFile.{
  MemoryFile, bytes, put_bytes, with_room, read_at_offset, write_to_offset, get_size,
}

length-with_room :
    (b : Bytes) (end : ℕ) → (length b ≤ length (with_room b end)) × (end ≤ length (with_room b end))
unfolding with_room
length-with_room b end = ground (arith, length-resize b end 0)

get_elem?-with_room :
    (b : Bytes) (end i : ℕ) → i < length b → get_elem? (with_room b end) i ≡ get_elem? b i
unfolding with_room
get_elem?-with_room b end i h = elim (Bool-cases (ltb (length b) end)) [
  | inl t ↦
      let l : i < length (take end b) = omega (arith, length-take end b, ltb→lt _ _ t) in
      let e = get_elem?-append_lt (take end b) (replicate (end - length b) 0) i l in
      rw (t, e) (get_elem?-take end b i (omega (arith, ltb→lt _ _ t)))
  | inr t ↦ rw t
]

pub length-put_bytes :
    (b : Bytes) (off : ℕ) (buf : Bytes)
    → (length b ≤ length (put_bytes b off buf)) × (off + length buf ≤ length (put_bytes b off buf))
unfolding put_bytes
length-put_bytes b off buf =
    let (l, r) = length-with_room b (off + length buf) in
    let e = length-copy_at off buf (with_room b (off + length buf)) r in omega (arith, e)

-- Writing at the end appends.
pub put_bytes_end : (b buf : Bytes) → put_bytes b (length b) buf ≡ b ++ buf
unfolding put_bytes with_room
put_bytes_end b buf = elim (Bool-cases (ltb (length b) (length b + length buf))) [
  | inl t ↦ rw t (copy_at-resize buf b 0)
  | inr t ↦ rw t (copy_at_end buf b)
]

-- Bytes written at an offset, the end of the file or beyond it included, are what is read there.
pub read_at_offset-write_to_offset :
    (f : MemoryFile) (pos : ℕ) (buf : Bytes)
    → read_at_offset (write_to_offset f pos buf).1 pos (length buf) ≡ some buf
unfolding read_at_offset write_to_offset put_bytes
read_at_offset-write_to_offset f pos buf =
    let b = put_bytes (bytes f) pos buf in
    let (l, r) = length-put_bytes (bytes f) pos buf in
    let room = with_room (bytes f) (pos + length buf) in
    let (_, w) = length-with_room (bytes f) (pos + length buf) in
    let e : min (pos + length buf) (length b) ≡ pos + length buf = omega (arith, r) in
    let t : ltb (pos + length buf) pos ≡ false = ground arith in
    rw (e, t, slice-copy_at pos buf room (omega (arith, w)))

-- A write changes no byte of the file that lies outside what it writes.
pub get_elem?-write_to_offset :
    (f : MemoryFile) (pos : ℕ) (buf : Bytes) (i : ℕ)
    → i < get_size f
    → (i < pos) ⊎ (pos + length buf ≤ i)
    → get_elem? (bytes (write_to_offset f pos buf).1) i ≡ get_elem? (bytes f) i
unfolding write_to_offset put_bytes get_size
get_elem?-write_to_offset f pos buf i h k =
    let b = bytes f in
    let end = pos + length buf in
    let room = with_room b end in
    let (l, w) = length-with_room b end in
    let before : length (take pos room) ≡ pos = omega (arith, length-take pos room, w) in
    let tail = buf ++ drop end room in
    elim k [
      | inl lo ↦
          rw
            (
              get_elem?-append_lt (take pos room) tail i (omega (arith, before)),
              get_elem?-take pos room i lo,
            )
            (get_elem?-with_room b end i h)
      | inr hi ↦
          let at_i : end + (i - pos - length buf) ≡ i = omega arith in
          rw
            (
              get_elem?-append_ge (take pos room) tail i (omega (arith, before)),
              before,
              get_elem?-append_ge buf (drop end room) (i - pos) (omega arith),
              get_elem?-drop end room (i - pos - length buf),
              at_i,
            )
            (get_elem?-with_room b end i h)
    ]

-- A read panics exactly when its offset is beyond the end of the file; at the end it returns no
-- byte.
pub read_at_offset-Panics :
    (f : MemoryFile) (pos n : ℕ) → (read_at_offset f pos n ≡ none) ↔ (get_size f < pos)
unfolding read_at_offset get_size
read_at_offset-Panics f pos n = ground arith

-- What is read at an offset that is not beyond the end.
pub read_at_offset_within :
    (f : MemoryFile) (pos n : ℕ)
    → pos ≤ get_size f
    → (b : Bytes) × (read_at_offset f pos n ≡ some b)
      × (length b ≡ min n (get_size f - pos))
      × (b ≡ take n (drop pos (bytes f)))
unfolding read_at_offset get_size
read_at_offset_within f pos n h =
    let size = length (bytes f) in
    let end = min (pos + n) size in
    let t : ltb end pos ≡ false = ground arith in
    let same : take (end - pos) (drop pos (bytes f)) ≡ take n (drop pos (bytes f)) =
      take_same (end - pos) n (drop pos (bytes f)) (omega (arith, length-drop pos (bytes f))) in
    (
      slice pos end (bytes f),
      rw t,
      omega (arith, length-take (end - pos) (drop pos (bytes f)), length-drop pos (bytes f)),
      same,
    )

-- What is read where the file holds known bytes.
pub read_at_offset_chunk :
    (f : MemoryFile) (pos n : ℕ) (before found after : Bytes)
    → bytes f ≡ before ++ (found ++ after)
    → pos ≡ length before
    → n ≡ length found
    → read_at_offset f pos n ≡ some found
unfolding get_size
read_at_offset_chunk f pos n before found after e l m =
    let long : length (bytes f) ≡ length before + length (found ++ after) =
      rw e (length-append before (found ++ after)) in
    let (b, read, _, is_b) = read_at_offset_within f pos n (omega (arith, long)) in
    let here : take n (drop pos (bytes f)) ≡ found =
      rw (e, drop-append_at pos before (found ++ after) l) (take-append_at n found after m) in
    rw (read, is_b, here)
