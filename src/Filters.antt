-- ===== src/Filters.antt =====
-- lib/src/uc2_preprocess.c: the filters before compression. `Bcj` rewrites x86 calls, `Stride`
-- replaces bytes by differences, `Carried` (lib/src/decompress.c) does so block by block.
pub mod Bcj
pub mod BcjLaws
pub mod Stride
pub mod StrideLaws
pub mod Carried
pub mod Content
pub mod Kinds
mod Tests
