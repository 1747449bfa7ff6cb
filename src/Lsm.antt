-- ===== src/Lsm.antt =====
-- nanograph-lsm: the records that the engine writes to its log, the table in memory, the recovery, the
-- cache of blocks and the compaction.
pub mod Records
pub mod BlockCache
pub mod Compaction
pub mod MemTable
pub mod Recovery
mod Tests
