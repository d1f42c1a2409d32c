-- ===== src/Bitstream/Finish.antt =====
-- A list of values through `struct bits_out` of lib/src/compress.c, to the last word.
use uc.Common.{
  ℕ, ◌+◌, ◌-◌, ◌*◌, ◌/◌, ◌^◌, ◌≤◌, ◌<◌, ◌≡◌, refl, sym, ap, ◌∙◌, List, [], ◌∷◌, ◌++◌, Bool, true,
  ltb, All, All-append, arith, append_assoc, append-nil, Bool-cases, inl, inr, ltb_false→le,
}
use mathlib.Core.Path.{subst}
use uc.Common.Result.{Result, ok, ◌>>=◌}
use uc.Common.Words.{u8, ◌>>>◌}
use native.Mathlib.Nat.{one-le-pow, mul-div_cancel, mul-lt-mul_of_pos_right}
use uc.Bitstream.Out.{WriteError, BitsOut, bitsout_init, bitsout_finish, put_all}
use uc.Bitstream.Digits.{bits_of, bits_of-add, word_bits, word_bytes, pow-add}
use uc.Bitstream.Write.{Writing, emit_word-Emitted, flushed, word_out, word_text}
use uc.Bitstream.Put.{Placed, bitsout_put-Placed}

abbrev pub IsField : ℕ × ℕ → Type 0
IsField field = (field.0 < 2 ^ field.1) × (field.1 ≤ 16)

unfoldable pub fields_text : List (ℕ × ℕ) → List ℕ
fields_text [] = []
fields_text ((val, nbits) ∷ more) = bits_of nbits val ++ fields_text more

pub init-Writing : (capacity : ℕ) → 2 ≤ capacity → Writing (bitsout_init capacity) []
unfolding bitsout_init bits_of word_bits word_bytes
init-Writing capacity h = record {
  words = [];
  top = 0;
  bytes = refl;
  small = tt;
  same = refl;
  some_left = omega arith;
  at_most = omega arith;
  high = refl;
  fits = omega arith;
  room = h;
}

-- All that was put stands in whole words, with some bits of padding.
pub record Finished (text : List ℕ) (result : Result WriteError BitsOut) : Type 0 where
  pub next : BitsOut
  pub done : result ≡ ok next
  pub words : List ℕ
  pub padding : List ℕ
  pub bytes : next.out ≡ word_bytes words
  pub emptied : next.buf ≡ []
  pub small : All (λ w. w < 2 ^ 16) words
  pub same : word_bits words ≡ text ++ padding

-- The accumulator as a whole word.
module _ (bo : BitsOut) (text : List ℕ) (held : Writing bo text) where
  last_small : bo.word < 2 ^ 16
  last_small =
      let whole : 2 ^ (16 - bo.bits_left) * 2 ^ bo.bits_left ≡ 2 ^ 16 =
        pow-add (16 - bo.bits_left) bo.bits_left
        ∙ ap (λ (k : ℕ). 2 ^ k) {x = 16 - bo.bits_left + bo.bits_left} {y = 16}
            (omega (arith, held.at_most)) in
      let step =
        mul-lt-mul_of_pos_right {m = held.top} {n = 2 ^ (16 - bo.bits_left)} {k = 2 ^ bo.bits_left}
          held.fits (one-le-pow bo.bits_left 2 (omega arith)) in
      omega (arith, step, whole, held.high)

  last_text : word_bits (held.words ++ (bo.word ∷ [])) ≡ text ++ bits_of bo.bits_left bo.word
  last_text =
      let whole : 16 ≡ 16 - bo.bits_left + bo.bits_left = omega (arith, held.at_most) in
      let front : bo.word / 2 ^ bo.bits_left ≡ held.top =
        ap (λ (t : ℕ). t / 2 ^ bo.bits_left) held.high
        ∙ mul-div_cancel held.top (one-le-pow bo.bits_left 2 (omega arith)) in
      word_text held.words bo.word
      ∙ ap (λ t. word_bits held.words ++ t)
          (ap (λ (k : ℕ). bits_of k bo.word) whole
            ∙ bits_of-add (16 - bo.bits_left) bo.bits_left bo.word
            ∙ ap (λ (k : ℕ). bits_of (16 - bo.bits_left) k ++ bits_of bo.bits_left bo.word) front)
      ∙ sym (
          append_assoc (word_bits held.words) (bits_of (16 - bo.bits_left) held.top)
            (bits_of bo.bits_left bo.word))
      ∙ ap (λ t. t ++ bits_of bo.bits_left bo.word) held.same

  no_text : bo.bits_left ≡ 16 → word_bits held.words ≡ text ++ []
  unfolding bits_of
  no_text e =
      sym (append-nil (word_bits held.words))
      ∙ ap (λ (k : ℕ). word_bits held.words ++ bits_of (16 - k) held.top) (sym e)
      ∙ held.same
      ∙ sym (append-nil text)

module _ (takes : List ℕ → Bool) (fine : (p : List ℕ) → takes p ≡ true) where
  pub put_all-Placed :
      (vals : List (ℕ × ℕ)) (bo : BitsOut) (text : List ℕ)
      → Writing bo text
      → All IsField vals
      → Placed (text ++ fields_text vals) (put_all takes bo vals)
  unfolding put_all fields_text
  put_all-Placed [] bo text held fit = record {
    next = bo;
    done = refl;
    writing = subst (Writing bo) (sym (append-nil text)) held;
  }
  put_all-Placed ((val, nbits) ∷ more) bo text held fit =
      let first = bitsout_put-Placed takes fine bo text val nbits held fit.0.0 fit.0.1 in
      let rest = put_all-Placed more first.next (text ++ bits_of nbits val) first.writing fit.1 in
      rw first.done (
        subst (λ t. Placed t (put_all takes first.next more))
          (append_assoc text (bits_of nbits val) (fields_text more)) rest)

  pub finish-Finished :
      (bo : BitsOut) (text : List ℕ) → Writing bo text → Finished text (bitsout_finish takes bo)
  unfolding bitsout_finish
  finish-Finished bo text held = elim (Bool-cases (ltb bo.bits_left 16)) [
    | inr none ↦
        rw (none, flushed takes fine bo)
          (record {
            next = record bo { out = bo.out ++ bo.buf; buf = [] };
            done = refl;
            words = held.words;
            padding = [];
            bytes = held.bytes;
            emptied = refl;
            small = held.small;
            same =
                no_text bo text held
                  (omega (arith, ltb_false→le bo.bits_left 16 none, held.at_most));
          })
    | inl some ↦
        let emitted = emit_word-Emitted takes fine bo bo.word held.room in
        rw (some, emitted.done, flushed takes fine emitted.next)
          (record {
            next = record emitted.next { out = emitted.next.out ++ emitted.next.buf; buf = [] };
            done = refl;
            words = held.words ++ (bo.word ∷ []);
            padding = bits_of bo.bits_left bo.word;
            bytes =
                emitted.bytes
                ∙ ap (λ t. t ++ (u8 bo.word ∷ u8 (bo.word >>> 8) ∷ [])) held.bytes
                ∙ word_out held.words bo.word;
            emptied = refl;
            small =
                All-append (λ t. t < 2 ^ 16) held.words (bo.word ∷ []) held.small
                  (last_small bo text held, tt);
            same = last_text bo text held;
          })
  ]

  -- All the calls of a stream.
  pub written-Finished :
      (capacity : ℕ) (vals : List (ℕ × ℕ))
      → 2 ≤ capacity
      → All IsField vals
      → Finished
          (fields_text vals)
          (put_all takes (bitsout_init capacity) vals >>= bitsout_finish takes)
  written-Finished capacity vals room fit =
      let put = put_all-Placed vals (bitsout_init capacity) [] (init-Writing capacity room) fit in
      rw put.done (finish-Finished put.next (fields_text vals) put.writing)
