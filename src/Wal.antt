-- ===== src/Wal.antt =====
-- src/store/wal.c and include/store/wal.h: the write-ahead log.
pub mod Scan
pub mod Batch
pub mod Commit
pub mod Segments
pub mod Open
mod Tests
