-- ===== src/Cdc.antt =====
-- lib/src/uc2_cdc.c: content-defined chunks. `Chunker` is the state and its operations, `Bounds` and
-- `Shift` are about one chunk.
pub mod GearTable
pub mod Chunker
pub mod Bounds
pub mod Shift
mod Tests
