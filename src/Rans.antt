-- ===== src/Rans.antt =====
-- lib/src/uc2_rans.c: the entropy coder. `Coder` is the encoder and the decoder, `Step` is about one
-- symbol, `RoundTrip` about a sequence of them.
pub mod Coder
pub mod Step
pub mod RoundTrip
pub mod Build
pub mod Sums
pub mod Scale
mod Tests
