-- ===== src/Delta.antt =====
-- lib/src/uc2_delta.c: the binary delta between two versions of a file. `Obuf` is the growable
-- output, `Encode` and `Apply` the two functions of the interface, `Instr` the format they share.
pub mod Obuf
pub mod Encode
pub mod Apply
pub mod Decode
pub mod Instr
pub mod Emit
pub mod Match
pub mod Scan
pub mod Total
pub mod RoundTrip
mod Tests
