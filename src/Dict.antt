-- ===== src/Dict.antt =====
-- lib/src/uc2_dict.c: dictionaries, and their serialized form.
pub mod Store
pub mod RoundTrip
pub mod Bounds
mod Tests
