-- ===== src/Csum.antt =====
-- `struct csum`, lib/src/decompress.c: the checksum of the files of an archive, which the
-- compressor keeps as well. `Update` is the code, `Split` what it means for data that comes in pieces.
pub mod Update
pub mod Split
mod Tests
