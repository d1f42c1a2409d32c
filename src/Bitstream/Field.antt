-- ===== src/Bitstream/Field.antt =====
-- One value in the accumulator of `struct bits_out` (lib/src/compress.c).
use uc.Common.{
  ℕ, suc, ◌+◌, ◌-◌, ◌*◌, ◌/◌, ◌%◌, ◌^◌, ◌≤◌, ◌<◌, ◌≡◌, sym, ap, ap₂, ◌∙◌, List, [], ◌∷◌, ◌++◌,
  arith, append_assoc, bit_or,
}
use mathlib.Core.Path.{subst}
use uc.Common.Bits.{bit_or_byte}
use uc.Common.Words.{u16, ◌<<<◌, ◌>>>◌}
use native.Mathlib.Nat.{
  div-lt_iff_lt-mul, one-le-pow, mul-add-div_right, div-eq_of_lt, pow-le-pow_right,
  mul-le-mul_right, mod-add-div',
}
use uc.Bitstream.Out.{BitsOut}
use uc.Bitstream.Digits.{
  bits_of, bits_of-add, bits_of_low, word_bits, pow-add, shifted-lt, shift_mod,
}
use uc.Bitstream.Write.{Writing, word_text}

-- A value that the word has room for.
module _ (bo : BitsOut) (text : List ℕ) (held : Writing bo text) (val nbits : ℕ)
    (small : val < 2 ^ nbits) (short : nbits ≤ bo.bits_left) where
  abbrev pub left_over : ℕ
  left_over = bo.bits_left - nbits

  abbrev pub new_top : ℕ
  new_top = held.top * 2 ^ nbits + val

  pub joined_word : bit_or bo.word (u16 (val <<< left_over)) ≡ new_top * 2 ^ left_over
  joined_word =
      let fits : val * 2 ^ left_over < 2 ^ bo.bits_left =
        subst (λ (k : ℕ). val * 2 ^ left_over < 2 ^ k) (omega arith)
          (shifted-lt val nbits left_over small) in
      let word16 : 2 ^ bo.bits_left ≤ 2 ^ 16 =
        pow-le-pow_right {n = 2} (omega arith) {i = bo.bits_left} {j = 16} held.at_most in
      let cut : u16 (val <<< left_over) ≡ val * 2 ^ left_over = omega (arith, fits, word16) in
      let split : 2 ^ bo.bits_left ≡ 2 ^ nbits * 2 ^ left_over =
        ap (λ (k : ℕ). 2 ^ k) {x = bo.bits_left} {y = nbits + left_over} (omega arith)
        ∙ sym (pow-add nbits left_over) in
      ap₂ bit_or held.high cut
      ∙ bit_or_byte bo.bits_left held.top (val * 2 ^ left_over) fits
      ∙ ap (λ (t : ℕ). held.top * t + val * 2 ^ left_over) split
      ∙ spread held.top (2 ^ nbits) val (2 ^ left_over)
    where
      spread : (t n v d : ℕ) → t * (n * d) + v * d ≡ (t * n + v) * d
      spread t n v d = omega arith

  pub top_fits : new_top < 2 ^ (16 - left_over)
  top_fits =
      let whole : 2 ^ (16 - bo.bits_left) * 2 ^ nbits ≡ 2 ^ (16 - left_over) =
        pow-add (16 - bo.bits_left) nbits ∙ ap (λ (k : ℕ). 2 ^ k) (omega (arith, held.at_most)) in
      let step : suc held.top * 2 ^ nbits ≤ 2 ^ (16 - bo.bits_left) * 2 ^ nbits =
        mul-le-mul_right {m = suc held.top} (2 ^ nbits) held.fits in
      omega (arith, step, whole)

  pub joined_text :
      word_bits held.words ++ bits_of (16 - left_over) new_top ≡ text ++ bits_of nbits val
  joined_text =
      let count : 16 - left_over ≡ 16 - bo.bits_left + nbits = omega (arith, held.at_most) in
      let front : new_top / 2 ^ nbits ≡ held.top =
        mul-add-div_right {m = 2 ^ nbits} (one-le-pow nbits 2 (omega arith)) held.top val
        ∙ omega (arith, div-eq_of_lt {n = val} {m = 2 ^ nbits} small) in
      ap (λ (k : ℕ). word_bits held.words ++ bits_of k new_top) count
      ∙ ap (λ t. word_bits held.words ++ t)
          (bits_of-add (16 - bo.bits_left) nbits new_top
            ∙ ap₂ (λ (a : ℕ) (b : List ℕ). bits_of (16 - bo.bits_left) a ++ b) front
                (bits_of_low nbits held.top val))
      ∙ sym (
          append_assoc (word_bits held.words) (bits_of (16 - bo.bits_left) held.top)
            (bits_of nbits val))
      ∙ ap (λ t. t ++ bits_of nbits val) held.same

-- A value that goes on in the next word.
module _ (bo : BitsOut) (text : List ℕ) (held : Writing bo text) (val nbits : ℕ)
    (small : val < 2 ^ nbits) (long : bo.bits_left < nbits) (width : nbits ≤ 16) where
  abbrev pub second : ℕ
  second = nbits - bo.bits_left

  abbrev pub full_word : ℕ
  full_word = held.top * 2 ^ bo.bits_left + val / 2 ^ second

  head_small : val / 2 ^ second < 2 ^ bo.bits_left
  head_small =
      (div-lt_iff_lt-mul {k = 2 ^ second} {x = val} {y = 2 ^ bo.bits_left}
          (one-le-pow second 2 (omega arith))).1
        (subst (λ (k : ℕ). val < k)
          (ap (λ (k : ℕ). 2 ^ k) {x = nbits} {y = bo.bits_left + second} (omega arith)
            ∙ sym (pow-add bo.bits_left second))
          small)

  pub full_small : full_word < 2 ^ 16
  full_small =
      let whole : 2 ^ (16 - bo.bits_left) * 2 ^ bo.bits_left ≡ 2 ^ 16 =
        pow-add (16 - bo.bits_left) bo.bits_left
        ∙ ap (λ (k : ℕ). 2 ^ k) {x = 16 - bo.bits_left + bo.bits_left} {y = 16}
            (omega (arith, held.at_most)) in
      let step : suc held.top * 2 ^ bo.bits_left ≤ 2 ^ (16 - bo.bits_left) * 2 ^ bo.bits_left =
        mul-le-mul_right {m = suc held.top} (2 ^ bo.bits_left) held.fits in
      omega (arith, step, whole, head_small)

  pub first_word : bit_or bo.word (u16 (val >>> second)) ≡ full_word
  first_word =
      let cut : u16 (val >>> second) ≡ val / 2 ^ second = omega (arith, head_small, full_small) in
      ap₂ bit_or held.high cut ∙ bit_or_byte bo.bits_left held.top (val / 2 ^ second) head_small

  pub next_word : u16 (val <<< (16 - second)) ≡ val % 2 ^ second * 2 ^ (16 - second)
  next_word = shift_mod val second (16 - second) (omega arith)

  -- The new state holds the value, once the full word is out.
  pub split_text :
      word_bits (held.words ++ (full_word ∷ [])) ++ bits_of (16 - (16 - second)) (val % 2 ^ second)
      ≡ text ++ bits_of nbits val
  split_text =
      let d = bo.bits_left in
      let count : 16 - (16 - second) ≡ second = omega (arith, held.at_most) in
      let whole : 16 ≡ 16 - d + d = omega (arith, held.at_most) in
      let front : full_word / 2 ^ d ≡ held.top =
        mul-add-div_right {m = 2 ^ d} (one-le-pow d 2 (omega arith)) held.top (val / 2 ^ second)
        ∙ omega (arith, div-eq_of_lt {n = val / 2 ^ second} {m = 2 ^ d} head_small) in
      let word : bits_of 16 full_word ≡ bits_of (16 - d) held.top ++ bits_of d (val / 2 ^ second) =
        ap (λ (k : ℕ). bits_of k full_word) whole
        ∙ bits_of-add (16 - d) d full_word
        ∙ ap₂ (λ (a : ℕ) (b : List ℕ). bits_of (16 - d) a ++ b) front
            (bits_of_low d held.top (val / 2 ^ second)) in
      let parts : val / 2 ^ second * 2 ^ second + val % 2 ^ second ≡ val =
        omega (arith, mod-add-div' val (2 ^ second)) in
      let rest : bits_of second (val % 2 ^ second) ≡ bits_of second val =
        sym (bits_of_low second (val / 2 ^ second) (val % 2 ^ second))
        ∙ ap (λ (k : ℕ). bits_of second k) parts in
      let sum : nbits ≡ d + second = omega arith in
      let field : bits_of nbits val ≡ bits_of d (val / 2 ^ second) ++ bits_of second val =
        ap (λ (k : ℕ). bits_of k val) sum ∙ bits_of-add d second val in
      ap₂ (λ (a : List ℕ) (k : ℕ). a ++ bits_of k (val % 2 ^ second))
        (word_text held.words full_word) count
      ∙ ap₂ (λ (a : List ℕ) (b : List ℕ). (word_bits held.words ++ a) ++ b) word rest
      ∙ ap (λ t. t ++ bits_of second val)
          (sym (
            append_assoc (word_bits held.words) (bits_of (16 - d) held.top)
              (bits_of d (val / 2 ^ second))))
      ∙ ap (λ t. (t ++ bits_of d (val / 2 ^ second)) ++ bits_of second val) held.same
      ∙ append_assoc text (bits_of d (val / 2 ^ second)) (bits_of second val)
      ∙ ap (λ t. text ++ t) (sym field)
