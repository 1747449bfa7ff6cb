-- ===== src/Wal/Platform.antt =====
-- A `ByteOrder` and `Hashes` to run the log of nanograph-wal with: big-endian numbers, and sums of
-- the bytes in place of the hash functions.
use nanograph.Prelude.{
  ℕ, zero, suc, ◌+◌, ◌*◌, ◌/◌, ◌%◌, ◌^◌, ◌<◌, ◌≡◌, refl, [], ◌∷◌, ◌++◌, length, length-append,
  arith,
}
use nanograph.Bytes.{Bytes}
use nanograph.Util.Integrity.{Hashes}
use nanograph.Wal.Header.{ByteOrder}

abbrev to_be_bytes : ℕ → ℕ → Bytes
to_be_bytes zero v = []
to_be_bytes (suc w) v = to_be_bytes w (v / 256) ++ (v % 256 ∷ [])

abbrev from_be_bytes : ℕ → Bytes → ℕ
from_be_bytes high [] = high
from_be_bytes high (b ∷ bs) = from_be_bytes (256 * high + b) bs

pub length-to_be_bytes : (w v : ℕ) → length (to_be_bytes w v) ≡ w
length-to_be_bytes zero v = refl
length-to_be_bytes (suc w) v =
    omega (
      arith,
      length-append (to_be_bytes w (v / 256)) (v % 256 ∷ []),
      length-to_be_bytes w (v / 256),
    )

from_be_last :
    (high : ℕ) (bs : Bytes) (b : ℕ)
    → from_be_bytes high (bs ++ (b ∷ [])) ≡ 256 * from_be_bytes high bs + b
from_be_last high [] b = refl
from_be_last high (c ∷ bs) b = from_be_last (256 * high + c) bs b

pub from_be-to_be : (w v : ℕ) → v < 256 ^ w → from_be_bytes 0 (to_be_bytes w v) ≡ v
from_be-to_be zero v h = omega arith
from_be-to_be (suc w) v h = omega (
  arith,
  from_be_last 0 (to_be_bytes w (v / 256)) (v % 256),
  from_be-to_be w (v / 256) (omega arith),
)

abbrev pub big_endian : ByteOrder
big_endian = record {
  write = to_be_bytes;
  read = from_be_bytes 0;
  length-write = length-to_be_bytes;
  read-write = from_be-to_be;
}

abbrev total : Bytes → ℕ
total [] = 0
total (b ∷ bs) = b + total bs

abbrev pub sums : Hashes
sums = record {
  crc32 = λ b. total b % 2 ^ 32;
  xxh32 = λ b. (1 + total b) % 2 ^ 32;
  crc32_bound = λ b. omega arith;
  xxh32_bound = λ b. omega arith;
}
