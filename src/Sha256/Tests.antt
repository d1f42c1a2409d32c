-- ===== src/Sha256/Tests.antt =====
-- Runs of SHA-256 and instances of its theorems.
use uc.Common.{ℕ, List, [], ◌∷◌, ◌≡◌, refl, replicate}
use uc.Sha256.Compress.{compress}
use uc.Sha256.Stream.{
  sha256_init, fill, whole_blocks, keep_rest, absorb, sha256_update, last_block, sha256_final,
  sha256_hash,
}
use uc.Sha256.Padded.{standard_hash}
use uc.Sha256.Final.{updates, sha256_final-updates}
use uc.Common.{joined}

abbrev abc : List ℕ
abc = 0x61 ∷ 0x62 ∷ 0x63 ∷ []

abbrev dirty : List ℕ
dirty = replicate 64 7

hash_of_abc :
    sha256_hash dirty abc
    ≡ 0xba ∷ 0x78 ∷ 0x16 ∷ 0xbf ∷ 0x8f ∷ 0x01 ∷ 0xcf ∷ 0xea ∷ 0x41 ∷ 0x41 ∷ 0x40 ∷ 0xde ∷ 0x5d
      ∷ 0xae ∷ 0x22 ∷ 0x23 ∷ 0xb0 ∷ 0x03 ∷ 0x61 ∷ 0xa3 ∷ 0x96 ∷ 0x17 ∷ 0x7a ∷ 0x9c ∷ 0xb4 ∷ 0x10
      ∷ 0xff ∷ 0x61 ∷ 0xf2 ∷ 0x00 ∷ 0x15 ∷ 0xad ∷ []
unfolding compress sha256_init fill whole_blocks keep_rest absorb sha256_update last_block
    sha256_final sha256_hash
hash_of_abc = refl

sha256_final-updates_example :
    sha256_final (updates (sha256_init dirty) (abc ∷ replicate 70 5 ∷ [] ∷ abc ∷ []))
    ≡ standard_hash (joined (abc ∷ replicate 70 5 ∷ [] ∷ abc ∷ []))
sha256_final-updates_example =
    sha256_final-updates dirty (abc ∷ replicate 70 5 ∷ [] ∷ abc ∷ []) refl
