-- ===== src/Shard.antt =====
-- Shards (nanograph-core/src/object/shard.rs): their identifiers, the choice of a shard for a key,
-- and ranges of keys.
pub mod Id
pub mod Container
pub mod Partition
pub mod Range
mod Tests
