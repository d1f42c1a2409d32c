-- ===== src/Lz4.antt =====
-- The fast codec, lib/src/uc2_lz4.c.
pub mod Decode
pub mod Encode
pub mod Lengths
pub mod Matches
pub mod Steps
pub mod RoundTrip
pub mod Bounds
pub mod Total
mod Tests
