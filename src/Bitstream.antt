-- ===== src/Bitstream.antt =====
-- The streams of bits of an archive: `struct bits_out`, lib/src/compress.c, and `struct bits`,
-- lib/src/decompress.c.
pub mod Out
pub mod In
pub mod Digits
pub mod Write
pub mod Field
pub mod Put
pub mod Finish
pub mod Read
pub mod Get
pub mod RoundTrip
mod Tests
