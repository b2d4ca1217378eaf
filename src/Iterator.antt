-- ===== src/Iterator.antt =====
-- src/kvs.c: the iterator that merges the items of the workers.
pub mod State
pub mod Reset
pub mod Cursor
pub mod Next
pub mod View
pub mod Loaded
pub mod Step
pub mod Deliver
pub mod Drain
pub mod Sized
pub mod New
pub mod Load
pub mod First
pub mod Wait
mod Example
mod Tests
