-- ===== src/Bitstream/Get.antt =====
-- `bits_feed` and `bits_get` of lib/src/decompress.c take the front of a text of bits.
use uc.Common.{
  ℕ, ◌+◌, ◌-◌, ◌*◌, ◌/◌, ◌%◌, ◌^◌, ◌≤◌, ◌<◌, ◌≡◌, refl, sym, ap, ap₂, ◌∙◌, List, [], ◌∷◌, ◌++◌, ltb,
  length, drop, All, arith, append_assoc, length-append, Bool-cases, inl, inr, ltb→lt, ltb_false→le,
  bit_or, bit_and, joined,
}
use mathlib.Core.Path.{subst}
use uc.Common.Bits.{bit_or_fields, bit_or-zero, bit_or_byte, bit_and_mask}
use uc.Common.Result.{Result, ok}
use uc.Common.Words.{u8, u32, byte_at, ◌<<<◌, ◌>>>◌}
use native.Mathlib.Nat.{one-le-pow, mod-lt, mod-add-div'}
use uc.Bitstream.In.{
  ReadError, BitsIn, fill_window, take_word, bits_feed, bits_peek, bits_skip, bits_get,
}
use uc.Bitstream.Digits.{
  bits_of, bits_of-add, bits_of_low, bits_of-injective, length-bits_of, word_bits, word_bytes,
  pow-add,
}
use uc.Bitstream.Read.{IsPiece, Filled, fill_window-Filled}

-- The bits that the accumulator and the words to come hold; `tail` is what follows the stream.
pub record Reading (bi : BitsIn) (text : List ℕ) : Type 0 where
  pub words : List ℕ
  pub tail : List ℕ
  pub small : All (λ w. w < 2 ^ 16) words
  pub bytes : bi.window ++ joined bi.pieces ≡ word_bytes words ++ tail
  pub parts : All IsPiece bi.pieces
  pub same : bits_of bi.have_bits bi.bits ++ word_bits words ≡ text

abbrev fed_bits : ℕ → ℕ → ℕ → ℕ
fed_bits bits a b = bit_or (bit_or (u32 (bits <<< 16)) a) (b <<< 8)

fed_value :
    (bits w : ℕ) → w < 2 ^ 16 → fed_bits bits (u8 w) (u8 (w >>> 8)) ≡ bits % 2 ^ 16 * 2 ^ 16 + w
fed_value bits w h =
    let t = bits % 2 ^ 16 in
    let a = w % 2 ^ 8 in
    let b = w / 2 ^ 8 in
    let shifted : u32 (bits <<< 16) ≡ t * 2 ^ 16 = omega arith in
    let high : u8 (w >>> 8) ≡ b = omega arith in
    let spread : t * 2 ^ 16 + a ≡ a + t * 2 ^ 8 * 2 ^ 8 = omega arith in
    ap₂ (λ (x y : ℕ). bit_or (bit_or x a) (y <<< 8)) shifted high
    ∙ ap (λ (x : ℕ). bit_or x (b <<< 8)) (bit_or_byte 16 t a (omega arith) ∙ spread)
    ∙ ap (λ (x : ℕ). bit_or (a + t * 2 ^ 8 * 2 ^ 8) x) {x = b <<< 8} {y = 0 + b * 2 ^ 8}
        (omega arith)
    ∙ bit_or_fields 8 a (t * 2 ^ 8) 0 b (omega arith) (omega arith)
    ∙ omega (arith, bit_or-zero a a (omega arith), bit_or_byte 8 t b (omega arith))

low_half : (have bits : ℕ) → have ≤ 16 → bits_of have (bits % 2 ^ 16) ≡ bits_of have bits
low_half have bits h =
    let q = bits / 2 ^ 16 in
    let whole : 2 ^ 16 ≡ 2 ^ (16 - have) * 2 ^ have = sym (
      pow-add (16 - have) have
      ∙ ap (λ (k : ℕ). 2 ^ k) {x = 16 - have + have} {y = 16} (omega arith)) in
    let parts : bits ≡ q * 2 ^ (16 - have) * 2 ^ have + bits % 2 ^ 16 =
      omega (arith, mod-add-div' bits (2 ^ 16), ap (λ (k : ℕ). q * k) whole) in
    sym (bits_of_low have (q * 2 ^ (16 - have)) (bits % 2 ^ 16))
    ∙ ap (λ (k : ℕ). bits_of have k) (sym parts)

fed_text :
    (have bits w : ℕ)
    → have ≤ 16
    → w < 2 ^ 16
    → bits_of (have + 16) (fed_bits bits (u8 w) (u8 (w >>> 8))) ≡ bits_of have bits ++ bits_of 16 w
fed_text have bits w h narrow =
    let front : (bits % 2 ^ 16 * 2 ^ 16 + w) / 2 ^ 16 ≡ bits % 2 ^ 16 = omega arith in
    ap (λ (k : ℕ). bits_of (have + 16) k) (fed_value bits w narrow)
    ∙ bits_of-add have 16 (bits % 2 ^ 16 * 2 ^ 16 + w)
    ∙ ap₂ (λ (k : ℕ) (t : List ℕ). bits_of have k ++ t) front (bits_of_low 16 (bits % 2 ^ 16) w)
    ∙ ap (λ t. t ++ bits_of 16 w) (low_half have bits h)

cons_of : (ws : List ℕ) → 1 ≤ length ws → (w : ℕ) × (more : List ℕ) × (ws ≡ w ∷ more)
cons_of [] h = absurd (omega arith)
cons_of (w ∷ more) h = (w, more, refl)

-- A front of two bytes at least has the first two.
pair_of :
    (xs ys zs : List ℕ) (a b : ℕ)
    → 2 ≤ length xs
    → xs ++ ys ≡ a ∷ b ∷ zs
    → (byte_at xs 0 ≡ a) × (byte_at xs 1 ≡ b) × (drop 2 xs ++ ys ≡ zs)
pair_of [] ys zs a b h e = absurd (omega arith)
pair_of (x ∷ []) ys zs a b h e = absurd (omega arith)
pair_of (x ∷ y ∷ xs) ys zs a b h e =
    (ap (λ t. byte_at t 0) e, ap (λ t. byte_at t 1) e, ap (drop 2) e)

record Fed (text : List ℕ) (n : ℕ) (result : Result ReadError BitsIn) : Type 0 where
  next : BitsIn
  done : result ≡ ok next
  reading : Reading next text
  enough : n ≤ next.have_bits

-- The next word is at the front of the bytes.
module _ (bi : BitsIn) (text : List ℕ) (held : Reading bi text) (w : ℕ) (more : List ℕ)
    (front : held.words ≡ w ∷ more) (few : bi.have_bits ≤ 16) where
  front_bytes : bi.window ++ joined bi.pieces ≡ u8 w ∷ u8 (w >>> 8) ∷ (word_bytes more ++ held.tail)
  unfolding word_bytes
  front_bytes = held.bytes ∙ ap (λ t. word_bytes t ++ held.tail) front

  front_filled : Filled bi (fill_window 2 bi)
  front_filled =
      fill_window-Filled 2 bi (omega arith)
        (subst (λ t. 2 ≤ length t) (sym front_bytes) (omega arith)) held.parts

  front_small : All (λ t. t < 2 ^ 16) (w ∷ more)
  front_small = subst (All (λ t. t < 2 ^ 16)) front held.small

  taken-Reading : Reading (take_word front_filled.next) text
  unfolding take_word word_bits
  taken-Reading =
      let b = front_filled.next in
      let (first, second, rest) =
        pair_of b.window (joined b.pieces) (word_bytes more ++ held.tail) (u8 w) (u8 (w >>> 8))
          front_filled.pair (front_filled.same ∙ front_bytes) in
      let value : fed_bits b.bits (byte_at b.window 0) (byte_at b.window 1)
          ≡ fed_bits bi.bits (u8 w) (u8 (w >>> 8)) =
        ap (λ (t : ℕ). fed_bits t (byte_at b.window 0) (byte_at b.window 1)) front_filled.same_bits
        ∙ ap₂ (λ (s t : ℕ). fed_bits bi.bits s t) first second in
      record {
        words = more;
        tail = held.tail;
        small = front_small.1;
        bytes = rest;
        parts = front_filled.parts;
        same =
            ap₂ (λ (k t : ℕ). bits_of (k + 16) t ++ word_bits more) front_filled.same_have value
            ∙ ap (λ t. t ++ word_bits more) (fed_text bi.have_bits bi.bits w few front_small.0)
            ∙ append_assoc (bits_of bi.have_bits bi.bits) (bits_of 16 w) (word_bits more)
            ∙ ap (λ t. bits_of bi.have_bits bi.bits ++ word_bits t) (sym front)
            ∙ held.same;
      }

length-word_bits : (ws : List ℕ) → length (word_bits ws) ≡ 16 * length ws
unfolding word_bits
length-word_bits [] = refl
length-word_bits (w ∷ ws) =
    omega
      (arith, length-append (bits_of 16 w) (word_bits ws), length-bits_of 16 w, length-word_bits ws)

feed-Fed :
    (bi : BitsIn) (text : List ℕ) (n : ℕ)
    → Reading bi text
    → n ≤ 16
    → n ≤ length text
    → Fed text n (bits_feed bi n)
unfolding bits_feed take_word
feed-Fed bi text n held width long = elim (Bool-cases (ltb bi.have_bits n)) [
  | inr enough ↦ rw enough (record {
    next = bi;
    done = refl;
    reading = held;
    enough = ltb_false→le bi.have_bits n enough;
  })
  | inl short ↦
      let few = ltb→lt bi.have_bits n short in
      let (w, more, front) = cons_of held.words (
        omega (
          arith,
          ap length held.same,
          length-append (bits_of bi.have_bits bi.bits) (word_bits held.words),
          length-bits_of bi.have_bits bi.bits,
          length-word_bits held.words,
        )) in
      let filled = front_filled bi text held w more front (omega arith) in
      rw (short, filled.done)
        (record {
          next = take_word filled.next;
          done = refl;
          reading = taken-Reading bi text held w more front (omega arith);
          enough = subst (λ (k : ℕ). n ≤ k) (sym (taken_have filled.next)) (omega arith);
        })
]
  where
    taken_have : (b : BitsIn) → (take_word b).have_bits ≡ b.have_bits + 16
    taken_have b = refl

-- Two texts that start with parts of the same length.
fronts :
    (xs ys more rest : List ℕ)
    → length xs ≡ length ys
    → xs ++ more ≡ ys ++ rest
    → (xs ≡ ys) × (more ≡ rest)
fronts [] [] more rest h e = (refl, e)
fronts [] (y ∷ ys) more rest h e = absurd (omega arith)
fronts (x ∷ xs) [] more rest h e = absurd (omega arith)
fronts (x ∷ xs) (y ∷ ys) more rest h e =
    let (same, after) = fronts xs ys more rest (omega arith) (ap (drop 1) e) in
    (ap₂ ◌∷◌ (ap (λ t. byte_at t 0) e) same, after)

pub record Got (v : ℕ) (rest : List ℕ) (result : Result ReadError (ℕ × BitsIn)) : Type 0 where
  pub next : BitsIn
  pub done : result ≡ ok (v, next)
  pub reading : Reading next rest

-- The front field leaves the accumulator.
pub get-Got :
    (bi : BitsIn) (v n : ℕ) (rest : List ℕ)
    → Reading bi (bits_of n v ++ rest)
    → v < 2 ^ n
    → n ≤ 16
    → Got v rest (bits_get bi n)
unfolding bits_get bits_peek bits_skip
get-Got bi v n rest held small width =
    let fed =
      feed-Fed bi (bits_of n v ++ rest) n held width
        (omega (arith, length-append (bits_of n v) rest, length-bits_of n v)) in
    let b = fed.next in
    let d = b.have_bits - n in
    let high = b.bits / 2 ^ d in
    let count : b.have_bits ≡ n + d = omega (arith, fed.enough) in
    let parts : bits_of b.have_bits b.bits ≡ bits_of n high ++ bits_of d b.bits =
      ap (λ (k : ℕ). bits_of k b.bits) count ∙ bits_of-add n d b.bits in
    let (same, after) =
      fronts (bits_of n high) (bits_of n v) (bits_of d b.bits ++ word_bits fed.reading.words) rest
        (length-bits_of n high ∙ sym (length-bits_of n v))
        (sym (append_assoc (bits_of n high) (bits_of d b.bits) (word_bits fed.reading.words))
          ∙ ap (λ t. t ++ word_bits fed.reading.words) (sym parts)
          ∙ fed.reading.same) in
    let low : bits_of n (high % 2 ^ n) ≡ bits_of n high =
      sym (bits_of_low n (high / 2 ^ n) (high % 2 ^ n))
      ∙ ap (λ (k : ℕ). bits_of n k) {x = high / 2 ^ n * 2 ^ n + high % 2 ^ n} {y = high}
          (omega (arith, mod-add-div' high (2 ^ n))) in
    let value : bit_and high (2 ^ n - 1) ≡ v =
      bit_and_mask n high
      ∙ bits_of-injective n (high % 2 ^ n) v
          (mod-lt high {m = 2 ^ n} (one-le-pow n 2 (omega arith))) small (low ∙ same) in
    rw (fed.done, value)
      (record { next = bits_skip b n; done = refl; reading = skipped n b fed.reading after })
  where
    skipped :
        (n : ℕ) (b : BitsIn) {text : List ℕ} {rest : List ℕ} (held : Reading b text)
        → bits_of (b.have_bits - n) b.bits ++ word_bits held.words ≡ rest
        → Reading (bits_skip b n) rest
    skipped n b held e = record {
      words = held.words;
      tail = held.tail;
      small = held.small;
      bytes = held.bytes;
      parts = held.parts;
      same = e;
    }
