-- ===== src/Worker.antt =====
-- src/worker.c: the requests of a worker, from the user's thread over the rings to their processing.
pub mod Ring
pub mod State
pub mod Enqueue
pub mod Poll
pub mod Requests
pub mod Batch
pub mod Accept
pub mod Handover
pub mod Events
pub mod Alloc
pub mod Layout
pub mod Start
pub mod Roundtrip
pub mod Example
mod Tests
