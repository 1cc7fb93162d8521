-- ===== src/Client.antt =====
-- src/client/src/: the command line client. A vector of requests is a list, to which `append` adds at
-- the end; an element outside of it is null.
pub mod Requests
pub mod Options
pub mod Directories
pub mod Calls
pub mod Sending
pub mod Running
pub mod Main
mod Tests
