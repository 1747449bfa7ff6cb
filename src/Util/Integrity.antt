-- ===== src/Util/Integrity.antt =====
-- `IntegrityAlgorithm` and `IntegrityHash` of nanograph-util/src/integrity.rs, but for the
-- incremental hasher. The hash functions are packages and so a parameter.
use nanograph.Prelude.{
  ℕ, ◌<◌, ◌^◌, ◌≡◌, refl, Option, none, some, Result, ok, err, [], ==_iff, Bool, true, false, ◌==◌,
  length, if◌then◌else◌,
}
use nanograph.Bytes.{Bytes}
use nanograph.Bytes.Endian.{to_le_bytes, from_le_bytes, from_le-to_le, length-to_le_bytes}

-- The packages `crc` and `xxhash-rust`: two functions into u32.
pub record Hashes : Type 0 where
  pub crc32 : Bytes → ℕ
  pub xxh32 : Bytes → ℕ
  pub crc32_bound : (b : Bytes) → crc32 b < 2 ^ 32
  pub xxh32_bound : (b : Bytes) → xxh32 b < 2 ^ 32

pub data IntegrityAlgorithm : Type 0 where
  no_integrity : IntegrityAlgorithm
  crc32c : IntegrityAlgorithm
  xx_hash32 : IntegrityAlgorithm

pub data IntegrityHash : Type 0 where
  no_hash : IntegrityHash
  hash32 : ℕ → IntegrityHash

pub data Error : Type 0 where
  integrity_check_failed : ℕ → ℕ → Error
  invalid_algorithm : ℕ → Error

unfoldable pub as_u8 : IntegrityAlgorithm → ℕ
as_u8 no_integrity = 0
as_u8 crc32c = 1
as_u8 xx_hash32 = 2

unfoldable pub from_u8 : ℕ → Option IntegrityAlgorithm
from_u8 v =
    if v == 0
    then some no_integrity
    else if v == 1
    then some crc32c
    else if v == 2
    then some xx_hash32
    else none

unfoldable pub hash_size : IntegrityAlgorithm → ℕ
hash_size no_integrity = 0
hash_size crc32c = 4
hash_size xx_hash32 = 4

unfoldable pub hash : Hashes → IntegrityAlgorithm → Bytes → IntegrityHash
hash H no_integrity d = no_hash
hash H crc32c d = hash32 (H.crc32 d)
hash H xx_hash32 d = hash32 (H.xxh32 d)

unfoldable pub as_u32 : IntegrityHash → Option ℕ
as_u32 no_hash = none
as_u32 (hash32 v) = some v

-- `actual == *expected`, of the derived `PartialEq`.
unfoldable pub same_hash : IntegrityHash → IntegrityHash → Bool
same_hash no_hash no_hash = true
same_hash (hash32 v) (hash32 w) = v == w
same_hash _ _ = false

unfoldable pub verify : Hashes → IntegrityAlgorithm → Bytes → IntegrityHash → Option Error
unfolding hash same_hash
verify H a d expected =
    let actual = hash H a d in
    if same_hash actual expected then none else elim expected [
      | no_hash ↦ some (integrity_check_failed 0 0)
      | hash32 e ↦ elim actual [
        | no_hash ↦ some (integrity_check_failed 0 0)
        | hash32 c ↦ some (integrity_check_failed e c)
      ]
    ]

unfoldable pub to_bytes : IntegrityHash → Bytes
to_bytes no_hash = []
to_bytes (hash32 v) = to_le_bytes 4 v

unfoldable pub from_bytes : IntegrityAlgorithm → Bytes → Result IntegrityHash Error
unfolding as_u8
from_bytes no_integrity b =
    if length b == 0 then ok no_hash else err (invalid_algorithm (as_u8 no_integrity))
from_bytes crc32c b =
    if length b == 4 then ok (hash32 (from_le_bytes b)) else err (invalid_algorithm (as_u8 crc32c))
from_bytes xx_hash32 b =
    if length b == 4
    then ok (hash32 (from_le_bytes b))
    else err (invalid_algorithm (as_u8 xx_hash32))

-- A byte that stands for an algorithm is read back as the algorithm.
pub from_u8-as_u8 : (a : IntegrityAlgorithm) → from_u8 (as_u8 a) ≡ some a
unfolding from_u8 as_u8
from_u8-as_u8 no_integrity = refl
from_u8-as_u8 crc32c = refl
from_u8-as_u8 xx_hash32 = refl

stored_hash32 :
    (n v : ℕ)
    → v < 2 ^ 32
    → ((if length (to_le_bytes 4 v) == 4
          then ok (hash32 (from_le_bytes (to_le_bytes 4 v)))
          else err (invalid_algorithm n))
        ≡ ok (hash32 v))
      × (length (to_le_bytes 4 v) ≡ 4)
      × ((if v == v then none else some (integrity_check_failed v v)) ≡ none)
stored_hash32 n v h =
    rw (from_le-to_le 4 v h, length-to_le_bytes 4 v, (==_iff v v).1 refl) (refl, refl, refl)

-- The hash of any data survives being stored: its bytes are read back as the hash, under the same
-- algorithm, there are `hash_size` of them, and the data passes `verify` against what is read.
pub verify-from_bytes :
    (H : Hashes) (a : IntegrityAlgorithm) (d : Bytes)
    → (from_bytes a (to_bytes (hash H a d)) ≡ ok (hash H a d))
      × (length (to_bytes (hash H a d)) ≡ hash_size a)
      × (verify H a d (hash H a d) ≡ none)
unfolding from_bytes to_bytes hash hash_size verify same_hash to_le_bytes
verify-from_bytes H no_integrity d = (refl, refl, refl)
verify-from_bytes H crc32c d = stored_hash32 1 (H.crc32 d) (H.crc32_bound d)
verify-from_bytes H xx_hash32 d = stored_hash32 2 (H.xxh32 d) (H.xxh32_bound d)
