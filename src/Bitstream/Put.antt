-- ===== src/Bitstream/Put.antt =====
-- `bitsout_put` and `bitsout_finish` of lib/src/compress.c append.
use uc.Common.{
  ℕ, ◌-◌, ◌*◌, ◌%◌, ◌^◌, ◌≤◌, ◌<◌, ◌≡◌, refl, sym, ap, ◌∙◌, List, [], ◌∷◌, ◌++◌, Bool, true, false,
  leb, ◌==◌, All-append, arith, append-nil, Bool-cases, inl, inr, bit_or, leb→le, ==_iff, ==_ne,
}
use mathlib.Core.Path.{subst}
use uc.Common.Result.{Result, ok}
use uc.Common.Words.{u8, u16, ◌<<<◌, ◌>>>◌}
use native.Mathlib.Nat.{one-le-pow, mod-lt}
use uc.Bitstream.Out.{WriteError, BitsOut, bitsout_put}
use uc.Bitstream.Digits.{bits_of, word_bits}
use uc.Bitstream.Write.{Writing, Emitted, emit_word-Emitted, word_out, word_text}
use uc.Bitstream.Field.{
  new_top, joined_word, top_fits, joined_text, full_word, full_small, first_word, next_word,
  split_text,
}

pub record Placed (text : List ℕ) (result : Result WriteError BitsOut) : Type 0 where
  pub next : BitsOut
  pub done : result ≡ ok next
  pub writing : Writing next text

leb_false→gt : (m n : ℕ) → leb m n ≡ false → n < m
leb_false→gt m n h = ground (arith, leb→le m n)

-- A word has gone out, and the accumulator is new.
next-Writing :
    (bo : BitsOut) (text : List ℕ) (held : Writing bo text) (w : ℕ) {r : Result WriteError BitsOut}
    (emitted : Emitted bo w r) (later : List ℕ) (word left top : ℕ)
    → w < 2 ^ 16
    → word_bits (held.words ++ (w ∷ [])) ++ bits_of (16 - left) top ≡ later
    → 1 ≤ left
    → left ≤ 16
    → word ≡ top * 2 ^ left
    → top < 2 ^ (16 - left)
    → Writing (record emitted.next { word = word; bits_left = left }) later
next-Writing bo text held w emitted later word left top narrow same some at_most high fits =
    record {
      words = held.words ++ (w ∷ []);
      top = top;
      bytes =
          emitted.bytes
          ∙ ap (λ t. t ++ (u8 w ∷ u8 (w >>> 8) ∷ [])) held.bytes
          ∙ word_out held.words w;
      small = All-append (λ t. t < 2 ^ 16) held.words (w ∷ []) held.small (narrow, tt);
      same = same;
      some_left = some;
      at_most = at_most;
      high = high;
      fits = fits;
      room = subst (λ (t : ℕ). 2 ≤ t) (sym emitted.kept) held.room;
    }

-- The value fills the word.
module _ (bo : BitsOut) (text : List ℕ) (held : Writing bo text) (val nbits : ℕ)
    (small : val < 2 ^ nbits) (short : nbits ≤ bo.bits_left) (none : bo.bits_left - nbits ≡ 0) where
  whole_word :
      bit_or bo.word (u16 (val <<< (bo.bits_left - nbits)))
      ≡ new_top bo text held val nbits small short
  whole_word =
      joined_word bo text held val nbits small short
      ∙ ap (λ (k : ℕ). new_top bo text held val nbits small short * 2 ^ k) none
      ∙ omega arith

  whole_small : new_top bo text held val nbits small short < 2 ^ 16
  whole_small =
      subst (λ (k : ℕ). new_top bo text held val nbits small short < 2 ^ (16 - k)) none
        (top_fits bo text held val nbits small short)

  whole_text :
      word_bits (held.words ++ (new_top bo text held val nbits small short ∷ [])) ++ bits_of 0 0
      ≡ text ++ bits_of nbits val
  unfolding bits_of
  whole_text =
      append-nil _
      ∙ word_text held.words (new_top bo text held val nbits small short)
      ∙ ap
          (λ (k : ℕ).
            word_bits held.words ++ bits_of (16 - k) (new_top bo text held val nbits small short))
          (sym none)
      ∙ joined_text bo text held val nbits small short

module _ (takes : List ℕ → Bool) (fine : (p : List ℕ) → takes p ≡ true) where
  pub bitsout_put-Placed :
      (bo : BitsOut) (text : List ℕ) (val nbits : ℕ)
      → Writing bo text
      → val < 2 ^ nbits
      → nbits ≤ 16
      → Placed (text ++ bits_of nbits val) (bitsout_put takes bo val nbits)
  unfolding bitsout_put
  bitsout_put-Placed bo text val nbits held small width =
      elim (Bool-cases (leb nbits bo.bits_left)) [
        | inr split ↦
            let long = leb_false→gt nbits bo.bits_left split in
            let emitted =
              emit_word-Emitted takes fine bo (full_word bo text held val nbits small long width)
                held.room in
            rw (split, first_word bo text held val nbits small long width, emitted.done)
              (record {
                next = record emitted.next {
                  word = u16 (val <<< (16 - (nbits - bo.bits_left)));
                  bits_left = 16 - (nbits - bo.bits_left);
                };
                done = refl;
                writing =
                    next-Writing bo text held (full_word bo text held val nbits small long width)
                      emitted (text ++ bits_of nbits val)
                      (u16 (val <<< (16 - (nbits - bo.bits_left)))) (16 - (nbits - bo.bits_left))
                      (val % 2 ^ (nbits - bo.bits_left))
                      (full_small bo text held val nbits small long width)
                      (split_text bo text held val nbits small long width)
                      (omega (arith, held.some_left)) (omega arith)
                      (next_word bo text held val nbits small long width)
                      (subst (λ (k : ℕ). val % 2 ^ (nbits - bo.bits_left) < 2 ^ k)
                        {x = nbits - bo.bits_left} {y = 16 - (16 - (nbits - bo.bits_left))}
                        (omega arith)
                        (mod-lt val {m = 2 ^ (nbits - bo.bits_left)}
                          (one-le-pow (nbits - bo.bits_left) 2 (omega arith))));
              })
        | inl joined ↦
            let short = leb→le nbits bo.bits_left joined in
            elim (Bool-cases (bo.bits_left - nbits == 0)) [
              | inr some ↦
                  rw (joined, some)
                    (record {
                      next = record bo {
                        word = bit_or bo.word (u16 (val <<< (bo.bits_left - nbits)));
                        bits_left = bo.bits_left - nbits;
                      };
                      done = refl;
                      writing = record {
                        words = held.words;
                        top = new_top bo text held val nbits small short;
                        bytes = held.bytes;
                        small = held.small;
                        same = joined_text bo text held val nbits small short;
                        some_left = omega (arith, ==_ne (bo.bits_left - nbits) 0 some);
                        at_most = omega (arith, held.at_most);
                        high = joined_word bo text held val nbits small short;
                        fits = top_fits bo text held val nbits small short;
                        room = held.room;
                      };
                    })
              | inl none ↦
                  let nothing = (==_iff (bo.bits_left - nbits) 0).0 none in
                  let top = new_top bo text held val nbits small short in
                  let emitted = emit_word-Emitted takes fine bo top held.room in
                  rw
                    (
                      joined,
                      none,
                      whole_word bo text held val nbits small short nothing,
                      emitted.done,
                    )
                    (record {
                      next = record emitted.next { word = 0; bits_left = 16 };
                      done = refl;
                      writing =
                          next-Writing bo text held top emitted (text ++ bits_of nbits val) 0 16 0
                            (whole_small bo text held val nbits small short nothing)
                            (whole_text bo text held val nbits small short nothing) (omega arith)
                            (omega arith) (omega arith) (omega arith);
                    })
            ]
      ]
