-- ===== src/Vfs/MemoryFile.antt =====
-- `MemoryFile` of nanograph-vfs/src/memoryfs.rs: a cursor and the data that all handles of the
-- file share. A method returns the handle after the call; `none` is a panic. A buffer never has
-- 2^63 bytes or more, so the sums of an offset and a length are those of the natural numbers
-- wherever the source does not panic; `offset` of `seek` is an i64 in two's complement.
pub mod Contents
use nanograph.Prelude.{
  ℕ, ◌+◌, ◌-◌, ◌%◌, ◌^◌, Option, none, some, Bool, true, false, ltb, length, resize, slice, copy_at,
  min, if◌then◌else◌,
}
use nanograph.Bytes.{Bytes}

pub data FileLockMode : Type 0 where
  unlocked : FileLockMode
  shared : FileLockMode
  exclusive : FileLockMode

pub record MemoryFileData : Type 0 where
  pub buffer : Bytes
  pub lock : FileLockMode

pub record MemoryFile : Type 0 where
  pub cursor : ℕ
  pub data_ : MemoryFileData

pub data SeekFrom : Type 0 where
  start : ℕ → SeekFrom
  end_ : ℕ → SeekFrom
  current : ℕ → SeekFrom

abbrev pub bytes : MemoryFile → Bytes
bytes f = f.data_.buffer

abbrev pub with_bytes : MemoryFile → Bytes → MemoryFile
with_bytes f b = record f { data_ = record (f.data_) { buffer = b } }

-- The bytes put into `buf`, whose length is `n`; their number is the count returned.
unfoldable pub read : MemoryFile → ℕ → Option (Bytes × MemoryFile)
read f n =
    if ltb (length (bytes f)) f.cursor
    then none
    else let len = min n (length (bytes f) - f.cursor) in
      some (slice f.cursor (f.cursor + len) (bytes f), record f { cursor = f.cursor + len })

-- The buffer, filled up with zeros when it is shorter than `end`.
unfoldable pub with_room : Bytes → ℕ → Bytes
with_room b end = if ltb (length b) end then resize b end 0 else b

-- The buffer after `buf` was written at `off`.
unfoldable pub put_bytes : Bytes → ℕ → Bytes → Bytes
put_bytes b off buf = copy_at off buf (with_room b (off + length buf))

unfoldable pub write : MemoryFile → Bytes → ℕ × MemoryFile
write f buf = (
  length buf,
  record (with_bytes f (put_bytes (bytes f) f.cursor buf)) { cursor = f.cursor + length buf },
)

unfoldable pub seek : MemoryFile → SeekFrom → ℕ × MemoryFile
seek f (start offset) = (offset, record f { cursor = offset })
seek f (end_ offset) = let c = (length (bytes f) + offset) % 2 ^ 64 in (c, record f { cursor = c })
seek f (current offset) = let c = (f.cursor + offset) % 2 ^ 64 in (c, record f { cursor = c })

unfoldable pub get_size : MemoryFile → ℕ
get_size f = length (bytes f)

unfoldable pub set_size : MemoryFile → ℕ → MemoryFile
set_size f new_length = with_bytes f (resize (bytes f) new_length 0)

unfoldable pub truncate : MemoryFile → MemoryFile
truncate f = set_size f 0

-- The file is in memory: there is nothing to write through.
unfoldable pub sync_all : MemoryFile → MemoryFile
sync_all f = f

unfoldable pub sync_data : MemoryFile → MemoryFile
sync_data f = f

unfoldable pub get_lock_status : MemoryFile → FileLockMode
get_lock_status f = f.data_.lock

unfoldable pub set_lock_status : MemoryFile → FileLockMode → MemoryFile
set_lock_status f mode = record f { data_ = record (f.data_) { lock = mode } }

unfoldable pub read_at_offset : MemoryFile → ℕ → ℕ → Option Bytes
read_at_offset f pos n =
    let end = min (pos + n) (length (bytes f)) in
    if ltb end pos then none else some (slice pos end (bytes f))

unfoldable pub write_to_offset : MemoryFile → ℕ → Bytes → ℕ × MemoryFile
write_to_offset f pos buf = (length buf, with_bytes f (put_bytes (bytes f) pos buf))
