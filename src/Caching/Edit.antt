-- ===== src/Caching/Edit.antt =====
-- The edit handlers of caching.c: which files they expel, in which order, and what they leave.
mod Loops
pub mod Handlers
