-- ===== src/Vfs.antt =====
-- nanograph-vfs: the file in memory on which the write-ahead log is tested and can run.
pub mod MemoryFile
