-- ===== src/Simhash.antt =====
-- Fingerprints of similar inputs, lib/src/uc2_simhash.c.
pub mod Hash
pub mod Majority
pub mod Hamming
mod Tests
