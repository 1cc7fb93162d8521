-- ===== src/Threads.antt =====
-- src/server/src/main.c and worker.c: the threads of the server, and how they pass on the descriptors
-- of the clients.
pub mod Counts
pub mod State
pub mod Select
pub mod Workers
pub mod Steps
pub mod Owned
pub mod Waiting
pub mod Reachable
mod Tests
mod Notified
