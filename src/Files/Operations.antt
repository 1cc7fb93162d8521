-- ===== src/Files/Operations.antt =====
-- src/server/src/files.c: the exposed functions. Each one runs under the table's lock, so that it is
-- one step; `filesystem_get_n_fileEntry` does not take that lock.
pub mod Open
pub mod Content
pub mod Release
pub mod Edits
pub mod Opening
pub mod Sampling
