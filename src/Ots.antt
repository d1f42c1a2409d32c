-- ===== src/Ots.antt =====
-- lib/src/uc2_ots.c: OpenTimestamps proofs. `Varint` is the number format, `File` the detached proof
-- file, `Trailer` the block behind an archive that holds a proof, `Walk` the walk over a timestamp,
-- `Stamp` an account of serialized timestamps that the walk is compared with.
pub mod Codes
pub mod Varint
pub mod VarintLaws
pub mod VarintCanonical
pub mod File
pub mod Trailer
pub mod Walk
pub mod WalkLaws
pub mod Stamp
pub mod StampStep
pub mod StampWalk
mod Tests
