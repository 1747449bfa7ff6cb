-- ===== src/Util/Compression.antt =====
-- `CompressionAlgorithm` of nanograph-util/src/compression.rs: the byte that names it.
use nanograph.Prelude.{ℕ, ◌≡◌, refl, Option, none, some, ◌==◌, if◌then◌else◌}

pub data CompressionAlgorithm : Type 0 where
  no_compression : CompressionAlgorithm
  lz4 : CompressionAlgorithm
  zstd : CompressionAlgorithm
  snappy : CompressionAlgorithm

unfoldable pub as_u8 : CompressionAlgorithm → ℕ
as_u8 no_compression = 0
as_u8 lz4 = 1
as_u8 zstd = 2
as_u8 snappy = 3

unfoldable pub from_u8 : ℕ → Option CompressionAlgorithm
from_u8 v =
    if v == 0
    then some no_compression
    else if v == 1
    then some lz4
    else if v == 2
    then some zstd
    else if v == 3
    then some snappy
    else none

pub from_u8-as_u8 : (a : CompressionAlgorithm) → from_u8 (as_u8 a) ≡ some a
unfolding from_u8 as_u8
from_u8-as_u8 no_compression = refl
from_u8-as_u8 lz4 = refl
from_u8-as_u8 zstd = refl
from_u8-as_u8 snappy = refl
