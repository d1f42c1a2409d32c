-- ===== src/Merkle.antt =====
-- lib/src/uc2_merkle.c: the tree of a file's chunks. `Tree` is the structure and its operations,
-- `Cover` what a tree says of the file, `Shared` the comparison of two trees.
pub mod Tree
pub mod Cover
pub mod Shared
mod Tests
