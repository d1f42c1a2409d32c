-- ===== src/Sha256.antt =====
-- SHA-256, lib/src/uc2_sha256.c.
pub mod Compress
pub mod Stream
pub mod Padded
pub mod Laws
pub mod Digest
pub mod Last
pub mod Final
mod Tests
