-- ===== src/Files.antt =====
-- src/server/src/files.c: the stored files, their hash table, their locks and the operations on them.
pub mod Entry
pub mod Waiting
pub mod State
pub mod Locks
pub mod Operations
pub mod Asked
pub mod Samples
mod Tests
