-- ===== src/Art.antt =====
-- nanograph-art/src: the adaptive radix tree.
pub mod Node
pub mod Children
pub mod Insert
pub mod Remove
mod Tests
