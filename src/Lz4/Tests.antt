-- ===== src/Lz4/Tests.antt =====
-- Runs of the fast codec and instances of its theorems.
use uc.Common.{ℕ, ◌≤◌, ◌≢◌, arith, List, [], ◌∷◌, ◌++◌, ◌≡◌, refl, replicate, length}
use uc.Common.Words.{word32, le32, word16, le16, same_bytes}
use uc.Common.Result.{ok, stuck}
use uc.Lz4.Decode.{
  read_more, literal_length, match_length, copy_literals, copy_back, copy_match, sequences,
  lz4_decompress,
}
use uc.Lz4.Encode.{
  lz4_hash, put, write_len, find_match, extend_match, sequence_bytes, emit_sequence, emit_last,
  compress_from, lz4_compress, lz4_bound,
}
use uc.Lz4.RoundTrip.{lz4_decompress-lz4_compress}
use uc.Lz4.Bounds.{lz4_decompress_bounds}
use uc.Lz4.Total.{lz4_compress-ok}

abbrev run : List ℕ
run = 1 ∷ 2 ∷ 3 ∷ (replicate 30 9 ++ (1 ∷ 2 ∷ 3 ∷ 9 ∷ 9 ∷ 9 ∷ 7 ∷ 5 ∷ 6 ∷ 7 ∷ 8 ∷ 9 ∷ 10 ∷ []))

small_compressed : length run ≡ 46
small_compressed = refl

abbrev coded : List ℕ
coded = 79 ∷ 1 ∷ 2 ∷ 3 ∷ 9 ∷ 1 ∷ 0 ∷ 10 ∷ 2 ∷ 33 ∷ 0 ∷ 112 ∷ 7 ∷ 5 ∷ 6 ∷ 7 ∷ 8 ∷ 9 ∷ 10 ∷ []

runs : lz4_compress run 100 ≡ ok coded
unfolding word32 le32 same_bytes lz4_hash put write_len find_match extend_match sequence_bytes
    emit_sequence emit_last compress_from lz4_compress
runs = refl

back : lz4_decompress coded 46 ≡ ok run
unfolding word16 le16 read_more literal_length match_length copy_literals copy_back copy_match
    sequences lz4_decompress
back = refl

lz4_decompress-lz4_compress_example : lz4_decompress coded 46 ≡ ok run
lz4_decompress-lz4_compress_example =
    lz4_decompress-lz4_compress run coded 100 46 runs (omega arith)

lz4_decompress_bounds_example :
    (lz4_decompress coded 46 ≢ stuck)
    × ((out : List ℕ) → lz4_decompress coded 46 ≡ ok out → length out ≤ 46)
lz4_decompress_bounds_example = lz4_decompress_bounds coded 46

bound_of_run : lz4_bound (length run) ≤ 100
unfolding lz4_bound
bound_of_run = omega arith

lz4_compress-ok_example : (out : List ℕ) × (lz4_compress run 100 ≡ ok out)
lz4_compress-ok_example = lz4_compress-ok run 100 (omega arith) bound_of_run
