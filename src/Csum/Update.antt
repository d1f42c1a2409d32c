-- ===== src/Csum/Update.antt =====
-- `csum_init`, `csum_update` and `csum_get`, lib/src/decompress.c. The state is `cs->value`: a word of
-- 16 bits, and bit 16 while a byte waits for its partner.
use uc.Common.{ℕ, List, [], ◌∷◌, ltb, if◌then◌else◌, bit_and, bit_or, bit_xor}
use uc.Common.Words.{u16, le16, ◌<<<◌}

abbrev pub csum_init : ℕ
csum_init = 0xa55a

-- The loop over pairs of bytes, and what follows it.
unfoldable pub fold16 : ℕ → List ℕ → ℕ
fold16 v (a ∷ b ∷ rest) = fold16 (bit_xor v (le16 a b)) rest
fold16 v (a ∷ []) = bit_xor (bit_and v 0xffff) (bit_or a 0x10000)
fold16 v [] = bit_and v 0xffff

unfoldable pub csum_update : ℕ → List ℕ → ℕ
csum_update v [] = v
csum_update v (b ∷ rest) =
    let pair = fold16 (bit_xor v (b <<< 8)) rest in
    let pairs = fold16 v (b ∷ rest) in if ltb 0xffff v then pair else pairs

abbrev pub csum_get : ℕ → ℕ
csum_get v = u16 v
