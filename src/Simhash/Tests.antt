-- ===== src/Simhash/Tests.antt =====
-- Runs of the fingerprints and instances of their theorems.
use uc.Common.{ℕ, ◌-◌, List, [], ◌∷◌, ◌≡◌, refl, some, length, arith}
use uc.Simhash.Hash.{fnv1a_from, simhash, clear_bits, hamming}
use uc.Simhash.Majority.{majorities, shingle_hashes, simhash-majorities}
use uc.Simhash.Hamming.{differences, hamming-differences}

abbrev words : List ℕ
words = 97 ∷ 98 ∷ 99 ∷ 100 ∷ 101 ∷ 102 ∷ []

short : simhash [] ≡ some 14695981039346656037
unfolding simhash fnv1a_from
short = refl

four_bits : hamming 0xf0 0x0f ≡ some 8
unfolding hamming clear_bits
four_bits = refl

simhash-majorities_example :
    simhash words ≡ some (majorities 64 0 (shingle_hashes (length words - 3) words))
simhash-majorities_example = simhash-majorities words (omega arith) (omega arith)

hamming-differences_example : hamming 0xf0 0x0f ≡ some (differences 64 0xf0 0x0f)
hamming-differences_example = hamming-differences 0xf0 0x0f (omega arith) (omega arith)
