-- ===== src/Blockstore.antt =====
-- The store of blocks by their hash, lib/src/uc2_blockstore.c.
pub mod Store
pub mod Paths
pub mod Laws
pub mod Restore
mod Tests
