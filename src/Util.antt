-- ===== src/Util.antt =====
-- nanograph-util: the algorithms that a stored segment names by a byte.
pub mod Integrity
pub mod Compression
pub mod Encryption
