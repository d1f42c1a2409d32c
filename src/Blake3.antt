-- ===== src/Blake3.antt =====
-- BLAKE3, lib/src/uc2_blake3.c.
pub mod Compress
pub mod Stream
pub mod Push
pub mod Tree
pub mod Stack
pub mod Shape
pub mod Laws
pub mod Digest
pub mod Final
pub mod Equal
mod Tests
