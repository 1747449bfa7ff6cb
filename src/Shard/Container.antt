-- ===== src/Shard/Container.antt =====
-- `ContainerId` (nanograph-core/src/object/container.rs).
use Prim.Native.Nat.{bit_or}
use nanograph.Prelude.{ℕ, ◌<◌, ◌^◌, ◌≡◌, arith}
use nanograph.Prelude.Bits.{bit_or-shifted}
use nanograph.Shard.Id
use nanograph.Shard.Id.{shl, shr, as_u32}

unfoldable pub from_parts : ℕ → ℕ → ℕ
from_parts tenant database = bit_or (shl tenant 32) database

unfoldable pub tenant : ℕ → ℕ
tenant id = as_u32 (shr id 32)

unfoldable pub database : ℕ → ℕ
database id = as_u32 id

-- For fields of 32 bits, a container's identifier has 64 bits, and its two fields are those of the
-- identifier of every shard in the container.
pub container_fields-from_parts :
    (t d o s : ℕ)
    → Id.AreU32 t d o s
    → (tenant (from_parts t d) ≡ Id.tenant (Id.from_parts t d o s))
      × (database (from_parts t d) ≡ Id.database (Id.from_parts t d o s))
      × (from_parts t d < 2 ^ 64)
unfolding from_parts tenant database
container_fields-from_parts t d o s h =
    omega (arith, bit_or-shifted 32 t d h.1, Id.fields-from_parts t d o s h)
