-- ===== src/Shard/Id.antt =====
-- The packed identifiers: `ShardId` (nanograph-core/src/object/shard.rs), `TableShardId` (table.rs)
-- and `IndexShardId` (index.rs), which pack the same four fields, and `ContainerId` (container.rs).
use Prim.Native.Nat.{bit_or}
use nanograph.Prelude.{ℕ, ◌+◌, ◌*◌, ◌/◌, ◌%◌, ◌^◌, ◌<◌, ◌≡◌, ◌↔◌, ◌⊎◌, arith}
use nanograph.Prelude.Bits.{bit_or-shifted}

-- `x << k` where no bit is lost, `x >> k`, and `x as u32`.
abbrev pub shl : ℕ → ℕ → ℕ
shl x k = x * 2 ^ k

abbrev pub shr : ℕ → ℕ → ℕ
shr x k = x / 2 ^ k

abbrev pub as_u32 : ℕ → ℕ
as_u32 x = x % 2 ^ 32

unfoldable pub from_parts : ℕ → ℕ → ℕ → ℕ → ℕ
from_parts tenant database object shard_number =
    bit_or (bit_or (bit_or (shl tenant 96) (shl database 64)) (shl object 32)) (shl shard_number 0)

unfoldable pub tenant : ℕ → ℕ
tenant id = as_u32 (shr id 96)

unfoldable pub database : ℕ → ℕ
database id = as_u32 (shr id 64)

unfoldable pub object : ℕ → ℕ
object id = as_u32 (shr id 32)

unfoldable pub shard_number : ℕ → ℕ
shard_number id = as_u32 id

-- The four fields are numbers of 32 bits.
abbrev pub AreU32 : ℕ → ℕ → ℕ → ℕ → Type 0
AreU32 t d o s = (t < 2 ^ 32) × (d < 2 ^ 32) × (o < 2 ^ 32) × (s < 2 ^ 32)

sum_of_parts :
    (t d o s : ℕ) → AreU32 t d o s → from_parts t d o s ≡ t * 2 ^ 96 + d * 2 ^ 64 + o * 2 ^ 32 + s
unfolding from_parts
sum_of_parts t d o s h =
    let tail : s * 2 ^ 0 ≡ s = omega arith in
    let join₁ : bit_or (t * 2 ^ 96) (d * 2 ^ 64) ≡ (t * 2 ^ 32 + d) * 2 ^ 64 =
      omega (arith, bit_or-shifted 96 t (d * 2 ^ 64) (omega arith)) in
    let join₂ : bit_or ((t * 2 ^ 32 + d) * 2 ^ 64) (o * 2 ^ 32)
        ≡ ((t * 2 ^ 32 + d) * 2 ^ 32 + o) * 2 ^ 32 =
      omega (arith, bit_or-shifted 64 (t * 2 ^ 32 + d) (o * 2 ^ 32) (omega arith)) in
    rw (join₁, join₂, tail) (omega (arith, bit_or-shifted 32 ((t * 2 ^ 32 + d) * 2 ^ 32 + o) s h.3))

-- Packing four fields of 32 bits and reading them back gives them, and the identifier has 128 bits.
pub fields-from_parts :
    (t d o s : ℕ)
    → AreU32 t d o s
    → (tenant (from_parts t d o s) ≡ t)
      × (database (from_parts t d o s) ≡ d)
      × (object (from_parts t d o s) ≡ o)
      × (shard_number (from_parts t d o s) ≡ s)
      × (from_parts t d o s < 2 ^ 128)
unfolding tenant database object shard_number
fields-from_parts t d o s h = rw (sum_of_parts t d o s h) (omega arith)

-- An identifier of 128 bits is packed from its own fields.
pub from_parts-fields :
    (id : ℕ)
    → id < 2 ^ 128
    → from_parts (tenant id) (database id) (object id) (shard_number id) ≡ id
unfolding tenant database object shard_number
from_parts-fields id h =
    omega
      (arith, sum_of_parts (tenant id) (database id) (object id) (shard_number id) (omega arith))

-- Identifiers of fields of 32 bits are ordered by tenant, then database, then object, then shard.
pub from_parts-lt :
    (t d o s t' d' o' s' : ℕ)
    → AreU32 t d o s
    → AreU32 t' d' o' s'
    → (from_parts t d o s < from_parts t' d' o' s')
      ↔ ((t < t') ⊎ ((t ≡ t') × ((d < d') ⊎ ((d ≡ d') × ((o < o') ⊎ ((o ≡ o') × (s < s')))))))
from_parts-lt t d o s t' d' o' s' h h' =
    rw (sum_of_parts t d o s h, sum_of_parts t' d' o' s' h') (λ l. ground arith, λ l. ground arith)
