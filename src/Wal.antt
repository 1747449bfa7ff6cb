-- ===== src/Wal.antt =====
-- nanograph-wal: the segment file with its header, the appended records, the reader, the writer
-- and the manager. The package `byteorder` is the parameter `ByteOrder`.
pub mod Lsn
pub mod Header
pub mod Segment
pub mod Reader
pub mod Writer
pub mod Manager
pub mod Log
pub mod Platform
mod Tests
