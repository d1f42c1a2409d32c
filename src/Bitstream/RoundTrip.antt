-- ===== src/Bitstream/RoundTrip.antt =====
-- What `bits_get` of lib/src/decompress.c reads is what `bitsout_put` of lib/src/compress.c wrote.
use uc.Common.{
  ℕ, ◌^◌, ◌≤◌, ◌<◌, ◌≡◌, refl, ap, ◌∙◌, List, [], ◌∷◌, ◌++◌, Bool, true, All, append_assoc, joined,
}
use mathlib.Core.Path.{subst}
use uc.Common.Result.{Result, ok, ◌>>=◌}
use uc.Bitstream.Out.{WriteError, bitsout_init, bitsout_finish, put_all}
use uc.Bitstream.In.{BitsIn, bits_init, get_all}
use uc.Bitstream.Digits.{bits_of, word_bits, word_bytes}
use uc.Bitstream.Read.{IsPiece}
use uc.Bitstream.Finish.{IsField, fields_text, written-Finished}
use uc.Bitstream.Get.{Reading, get-Got}

abbrev pub values : List (ℕ × ℕ) → List ℕ
values [] = []
values ((val, nbits) ∷ more) = val ∷ values more

abbrev pub widths : List (ℕ × ℕ) → List ℕ
widths [] = []
widths ((val, nbits) ∷ more) = nbits ∷ widths more

-- The bytes that a stream of values gives to the callback.
unfoldable pub written : (List ℕ → Bool) → ℕ → List (ℕ × ℕ) → Result WriteError (List ℕ)
written takes capacity vals =
    put_all takes (bitsout_init capacity) vals >>= bitsout_finish takes >>= λ bo. ok bo.out

get_all-fields :
    (vals : List (ℕ × ℕ)) (bi : BitsIn) (rest : List ℕ)
    → Reading bi (fields_text vals ++ rest)
    → All IsField vals
    → get_all bi (widths vals) ≡ ok (values vals)
unfolding get_all fields_text
get_all-fields [] bi rest held fit = refl
get_all-fields ((val, nbits) ∷ more) bi rest held fit =
    let got =
      get-Got bi val nbits (fields_text more ++ rest)
        (subst (Reading bi) (append_assoc (bits_of nbits val) (fields_text more) rest) held) fit.0.0
        fit.0.1 in
    rw (got.done, get_all-fields more got.next rest got.reading fit.1) refl

init-Reading :
    (pieces : List (List ℕ)) (words tail : List ℕ)
    → All (λ w. w < 2 ^ 16) words
    → joined pieces ≡ word_bytes words ++ tail
    → All IsPiece pieces
    → Reading (bits_init pieces) (word_bits words)
unfolding bits_init bits_of
init-Reading pieces words tail small same parts = record {
  words = words;
  tail = tail;
  small = small;
  bytes = same;
  parts = parts;
  same = refl;
}

-- A buffer of two bytes or more and a callback that takes all it is given are enough for every
-- list of values of at most 16 bits to be written by bitsout_put and bitsout_finish. A reader that
-- returns these bytes, and any others behind them, in pieces of any sizes but 0 gives the values
-- back to bits_get for their widths.
pub get_all-written :
    (takes : List ℕ → Bool) (capacity : ℕ) (vals : List (ℕ × ℕ)) (cut : List ℕ → List (List ℕ))
    (tail : List ℕ)
    → ((p : List ℕ) → takes p ≡ true)
    → 2 ≤ capacity
    → All IsField vals
    → ((out : List ℕ) → joined (cut out) ≡ out ++ tail)
    → ((out : List ℕ) → All IsPiece (cut out))
    → (out : List ℕ) × (written takes capacity vals ≡ ok out)
      × (get_all (bits_init (cut out)) (widths vals) ≡ ok (values vals))
unfolding written
get_all-written takes capacity vals cut tail fine room fit joins parts =
    let end = written-Finished takes fine capacity vals room fit in
    let out = end.next.out in
    let held =
      init-Reading (cut out) end.words tail end.small (joins out ∙ ap (λ t. t ++ tail) end.bytes)
        (parts out) in
    (
      out,
      rw end.done refl,
      get_all-fields vals (bits_init (cut out)) end.padding (subst (Reading _) end.same held) fit,
    )
