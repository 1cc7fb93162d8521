-- ===== src/Caching.antt =====
-- src/server/src/caching.c: the replacement policies, over a ring of pointers to the stored files.
-- A pointer is a number; `len p` is the `length` field of the file that `p` points to.
pub mod Config
pub mod State
pub mod Fifo
pub mod Lru
pub mod Policy
pub mod Valid
pub mod Moves
pub mod Insertion
pub mod Removal
pub mod Usage
pub mod Plan
pub mod Edit
mod Tests
