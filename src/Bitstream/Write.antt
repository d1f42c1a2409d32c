-- ===== src/Bitstream/Write.antt =====
-- The bits that `struct bits_out` (lib/src/compress.c) has taken.
use uc.Common.{
  ℕ, ◌+◌, ◌-◌, ◌*◌, ◌^◌, ◌≤◌, ◌<◌, ◌≡◌, refl, sym, ap, ap₂, ◌∙◌, List, [], ◌∷◌, ◌++◌, Bool, true,
  false, ltb, length, All, arith, append_assoc, append-nil, Bool-cases, inl, inr, ltb_false→le,
  le→ltb_false,
}
use uc.Common.Result.{Result, ok}
use uc.Common.Words.{u8, ◌>>>◌}
use uc.Bitstream.Out.{WriteError, BitsOut, bitsout_flush_buf, store_word, bitsout_emit_word}
use uc.Bitstream.Digits.{bits_of, word_bits, word_bytes, word_bits-append, word_bytes-append}

-- Whole words have gone to the buffer; the other bits are at the high end of the accumulator.
pub record Writing (bo : BitsOut) (text : List ℕ) : Type 0 where
  pub words : List ℕ
  pub top : ℕ
  pub bytes : bo.out ++ bo.buf ≡ word_bytes words
  pub small : All (λ w. w < 2 ^ 16) words
  pub same : word_bits words ++ bits_of (16 - bo.bits_left) top ≡ text
  pub some_left : 1 ≤ bo.bits_left
  pub at_most : bo.bits_left ≤ 16
  pub high : bo.word ≡ top * 2 ^ bo.bits_left
  pub fits : top < 2 ^ (16 - bo.bits_left)
  pub room : 2 ≤ bo.capacity

-- The word goes behind what was written.
pub record Emitted (bo : BitsOut) (w : ℕ) (result : Result WriteError BitsOut) : Type 0 where
  pub next : BitsOut
  pub done : result ≡ ok next
  pub bytes : next.out ++ next.buf ≡ (bo.out ++ bo.buf) ++ (u8 w ∷ u8 (w >>> 8) ∷ [])
  pub kept : next.capacity ≡ bo.capacity

pub word_out :
    (words : List ℕ) (w : ℕ)
    → word_bytes words ++ (u8 w ∷ u8 (w >>> 8) ∷ []) ≡ word_bytes (words ++ (w ∷ []))
word_out words w = (ap (λ t. word_bytes words ++ t) last) ∙ sym (word_bytes-append words (w ∷ []))
  where
    last : ◌≡◌ {A = List ℕ} (u8 w ∷ u8 (w >>> 8) ∷ []) (word_bytes (w ∷ []))
    last = unfold word_bytes in refl

pub word_text :
    (words : List ℕ) (w : ℕ) → word_bits (words ++ (w ∷ [])) ≡ word_bits words ++ bits_of 16 w
word_text words w = word_bits-append words (w ∷ []) ∙ ap (λ t. word_bits words ++ t) last
  where
    last : word_bits (w ∷ []) ≡ bits_of 16 w
    last = unfold word_bits in append-nil (bits_of 16 w)

module _ (takes : List ℕ → Bool) (fine : (p : List ℕ) → takes p ≡ true) where
  store_word-Emitted :
      (bo : BitsOut) (w : ℕ)
      → length bo.buf + 2 ≤ bo.capacity
      → Emitted bo w (store_word takes w bo)
  unfolding store_word
  store_word-Emitted bo w h =
      let test : ltb bo.capacity (length bo.buf + 2) ≡ false = le→ltb_false _ _ h in
      rw test (record {
        next = record bo { buf = bo.buf ++ (u8 w ∷ u8 (w >>> 8) ∷ []) };
        done = refl;
        bytes = sym (append_assoc bo.out bo.buf (u8 w ∷ u8 (w >>> 8) ∷ []));
        kept = refl;
      })

  pub flushed :
      (bo : BitsOut)
      → bitsout_flush_buf takes bo ≡ ok (record bo { out = bo.out ++ bo.buf; buf = [] })
  unfolding bitsout_flush_buf
  flushed bo = elim (Bool-cases (ltb 0 (length bo.buf))) [
    | inl more ↦ rw (more, fine bo.buf) refl
    | inr less ↦
        let none_yet = empty_of bo.buf (ltb_false→le 0 (length bo.buf) less) in
        rw less (
          ap₂ (λ (o : List ℕ) (b : List ℕ). ok (record bo { out = o; buf = b }))
            (sym (append-nil bo.out) ∙ ap (λ t. bo.out ++ t) (sym none_yet)) none_yet)
  ]
    where
      empty_of : (xs : List ℕ) → length xs ≤ 0 → xs ≡ []
      empty_of [] h = refl
      empty_of (x ∷ xs) h = absurd (omega arith)

  pub emit_word-Emitted :
      (bo : BitsOut) (w : ℕ) → 2 ≤ bo.capacity → Emitted bo w (bitsout_emit_word takes bo w)
  unfolding bitsout_emit_word
  emit_word-Emitted bo w h = elim (Bool-cases (ltb bo.capacity (length bo.buf + 2))) [
    | inr fits ↦ rw fits (store_word-Emitted bo w (ltb_false→le _ _ fits))
    | inl full ↦
        let next = record bo { out = bo.out ++ bo.buf; buf = [] } in
        let stored = store_word-Emitted next w h in
        rw (full, flushed bo)
          (record {
            next = stored.next;
            done = stored.done;
            bytes =
                stored.bytes
                ∙ ap (λ t. t ++ (u8 w ∷ u8 (w >>> 8) ∷ [])) (append-nil (bo.out ++ bo.buf));
            kept = stored.kept;
          })
  ]
