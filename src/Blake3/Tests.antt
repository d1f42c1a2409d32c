-- ===== src/Blake3/Tests.antt =====
-- Runs of BLAKE3 and instances of its theorems.
use uc.Common.{ℕ, List, [], ◌∷◌, ◌≡◌, refl, some, replicate, arith, true, ◌↔◌}
use uc.Common.Words.{word32, le32, bytes32}
use uc.Blake3.Compress.{compress_cv, parent_cv}
use uc.Blake3.Stream.{
  Context, blake3_equal, chunk_block, chunk_finalize, merge_full, push_cv, blake3_init, flush,
  update_loop, blake3_update, merge_up, blake3_final, blake3_hash,
}
use uc.Blake3.Equal.{blake3_equal_iff}
use uc.Blake3.Final.{IsDigest, blake3_updates, all_bytes, blake3_final-blake3_updates}
use mathlib.Core.Option

empty_hash :
    blake3_hash []
    ≡ some (
        0xaf ∷ 0x13 ∷ 0x49 ∷ 0xb9 ∷ 0xf5 ∷ 0xf9 ∷ 0xa1 ∷ 0xa6 ∷ 0xa0 ∷ 0x40 ∷ 0x4d ∷ 0xea ∷ 0x36
        ∷ 0xdc ∷ 0xc9 ∷ 0x49 ∷ 0x9b ∷ 0xcb ∷ 0x25 ∷ 0xc9 ∷ 0xad ∷ 0xc1 ∷ 0x12 ∷ 0xb7 ∷ 0xcc ∷ 0x9a
        ∷ 0x93 ∷ 0xca ∷ 0xe4 ∷ 0x1f ∷ 0x32 ∷ 0x62 ∷ [])
unfolding compress_cv parent_cv chunk_block chunk_finalize merge_full push_cv blake3_init flush
    update_loop blake3_update merge_up blake3_final blake3_hash word32 le32 bytes32 Option.bind
empty_hash = refl

abbrev two_pieces : List (List ℕ)
two_pieces = replicate 700 3 ∷ replicate 500 4 ∷ []

blake3_final-blake3_updates_example :
    (ctx : Context) × (blake3_updates blake3_init two_pieces ≡ some ctx)
    × IsDigest (all_bytes two_pieces) (blake3_final ctx)
blake3_final-blake3_updates_example = blake3_final-blake3_updates two_pieces (omega arith)

blake3_equal_iff_example :
    (blake3_equal (replicate 32 7) (replicate 32 9) ≡ true)
    ↔ (replicate {A = ℕ} 32 7 ≡ replicate 32 9)
blake3_equal_iff_example =
    blake3_equal_iff (replicate 32 7) (replicate 32 9) refl refl (omega arith) (omega arith)
