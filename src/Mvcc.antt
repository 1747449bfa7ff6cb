-- ===== src/Mvcc.antt =====
-- Multi-version concurrency control (nanograph-btree/src/mvcc.rs).
pub mod Chain
pub mod Snapshot
pub mod Collect
pub mod Clock
mod Tests
