-- ===== src/Format.antt =====
-- src/apps/format/kvs_format.c: the program that formats a device, or dumps its format. It is a chain
-- of SPDK callbacks; a state says which call is waited for, and a step hands its reply to the callback.
pub mod State
pub mod Iter
pub mod Create
pub mod Dump
pub mod Step
pub mod Marks
pub mod Asked
pub mod Slabs
pub mod Errors
pub mod Opening
pub mod Phases
pub mod Chain
pub mod Finish
pub mod Args
mod Tests
