-- ===== src/Bitstream/Tests.antt =====
-- Tests of the streams of bits: lib/src/compress.c and lib/src/decompress.c.
use uc.Common.{ℕ, ◌≡◌, refl, ap, List, [], ◌∷◌, ◌++◌, Bool, true, All, arith, joined}
use uc.Common.Result.{ok, err}
use uc.Bitstream.Out.{
  bitsout_init, bitsout_flush_buf, store_word, bitsout_emit_word, bitsout_put, bitsout_finish,
  put_all,
}
use uc.Bitstream.In.{
  truncated, bits_init, read_piece, fill_window, bits_feed, bits_peek, bits_get, get_all,
}
use uc.Bitstream.Read.{IsPiece}
use uc.Bitstream.RoundTrip.{written, get_all-written}

abbrev takes_all : List ℕ → Bool
takes_all p = true

-- One byte for each call of the reader.
abbrev singles : List ℕ → List (List ℕ)
singles [] = []
singles (b ∷ bs) = (b ∷ []) ∷ singles bs

abbrev four_values : List (ℕ × ℕ)
four_values = (5, 3) ∷ (0x1234, 16) ∷ (1, 1) ∷ (0xFFF, 12) ∷ []

written_test : written takes_all 2 four_values ≡ ok (0x46 ∷ 0xA2 ∷ 0xFF ∷ 0x9F ∷ [])
unfolding written put_all bitsout_put bitsout_emit_word bitsout_flush_buf store_word bitsout_finish
    bitsout_init
written_test = refl

truncated_test : get_all (bits_init ((0x46 ∷ []) ∷ [])) (3 ∷ []) ≡ err truncated
unfolding get_all bits_init bits_get bits_peek bits_feed fill_window read_piece
truncated_test = refl

joined-singles : (out : List ℕ) → joined (singles out) ≡ out ++ []
joined-singles [] = refl
joined-singles (b ∷ bs) = ap (λ t. b ∷ t) (joined-singles bs)

singles-IsPiece : (out : List ℕ) → All IsPiece (singles out)
singles-IsPiece [] = tt
singles-IsPiece (b ∷ bs) = (omega arith, singles-IsPiece bs)

get_all-written_example :
    (out : List ℕ) × (written takes_all 2 four_values ≡ ok out)
    × (get_all (bits_init (singles out)) (3 ∷ 16 ∷ 1 ∷ 12 ∷ []) ≡ ok (5 ∷ 0x1234 ∷ 1 ∷ 0xFFF ∷ []))
get_all-written_example =
    get_all-written takes_all 2 four_values singles [] (λ p. refl) (omega arith)
      (
        (omega arith, omega arith),
        (
          (omega arith, omega arith),
          ((omega arith, omega arith), ((omega arith, omega arith), tt)),
        ),
      )
      joined-singles singles-IsPiece
