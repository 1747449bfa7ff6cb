-- ===== src/BTree.antt =====
-- nanograph-btree: the B+tree storage engine.
pub mod Search
pub mod Entries
pub mod Leaf
pub mod Internal
pub mod Node
pub mod Tree
pub mod Samples
mod Tests
