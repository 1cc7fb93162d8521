-- ===== src/Wire.antt =====
-- src/common/src/comunication.c and the messages that api.c, request.c and worker.c make and read with it.
pub mod Ints
pub mod Streams
pub mod Sent
pub mod Requests
pub mod Replies
mod Tests
pub mod Arrival
