-- ===== src/Startup.antt =====
-- src/kvs_startup.c: the start of a store, a chain of SPDK callbacks that checks the super block, opens
-- every slab's blob, and builds the runtime with its workers.
pub mod State
pub mod Runtime
pub mod Create
pub mod Step
pub mod Asked
pub mod Errors
pub mod Open
pub mod Layout
pub mod Chain
pub mod Loop
pub mod Example
mod Tests
