-- ===== src/Lz4/Lengths.antt =====
-- The lengths of a token and the bytes behind it, written and read back (lib/src/uc2_lz4.c).
use uc.Common.{
  ℕ, zero, suc, ◌+◌, ◌-◌, ◌/◌, ◌^◌, ◌≤◌, ◌<◌, ◌≡◌, refl, ap, ◌∙◌, List, ◌++◌, length, arith,
  Bool-cases, inl, inr, ltb, leb, ◌==◌, bit_and, bit_or, leb→le, le→ltb_false, le→leb, ltb_false→le,
  true, false, ltb→lt,
}
use uc.Common.Bits.{bit_or_byte, bit_and_mask}
use uc.Common.Words.{u8, ◌<<<◌, ◌>>>◌}
use uc.Common.Result.{ok}
use uc.Lz4.Decode.{read_more, literal_length, match_length}
use uc.Lz4.Encode.{write_len, extra, nibble, cost}

leb-false : (a b : ℕ) → b < a → leb a b ≡ false
leb-false a b h = ground arith

pub read_more-write_len :
    (fuel len acc : ℕ) (rest : List ℕ)
    → len ≤ fuel
    → acc + len < 2 ^ 64
    → read_more (write_len fuel len ++ rest) acc ≡ ok (acc + len, rest)
unfolding read_more write_len
read_more-write_len zero len acc rest h k =
    let none : u8 len ≡ 0 = omega arith in
    let room : ltb (2 ^ 64 - 1 - 0) acc ≡ false = le→ltb_false _ acc (omega arith) in
    let same : acc + 0 ≡ acc + len = omega arith in
    rw (none, room) (ap (λ (n : ℕ). ok (n, rest)) same)
read_more-write_len (suc fuel) len acc rest h k = elim (Bool-cases (leb 255 len)) [
  | inl more ↦
      let big = leb→le 255 len more in
      let room : ltb (2 ^ 64 - 1 - 255) acc ≡ false = le→ltb_false _ acc (omega (arith, big)) in
      let same : acc + 255 + (len - 255) ≡ acc + len = omega (arith, big) in
      rw (more, room)
        (read_more-write_len fuel (len - 255) (acc + 255) rest (omega (arith, big))
            (omega (arith, big))
          ∙ ap (λ (n : ℕ). ok (n, rest)) same)
  | inr less ↦
      let small : len < 255 = ground arith in
      let byte : u8 len ≡ len = omega (arith, small) in
      let room : ltb (2 ^ 64 - 1 - len) acc ≡ false = le→ltb_false _ acc (omega (arith, small)) in
      let last : (len == 255) ≡ false = ground arith in rw (less, byte, room, last) refl
]

pub length-write_len : (fuel len : ℕ) → len ≤ fuel → length (write_len fuel len) ≡ len / 255 + 1
unfolding write_len
length-write_len zero len h = omega arith
length-write_len (suc fuel) len h = elim (Bool-cases (leb 255 len)) [
  | inl more ↦
      rw more (omega (arith, length-write_len fuel (len - 255) (omega arith), leb→le 255 len more))
  | inr less ↦ let small : len < 255 = ground arith in rw less (omega (arith, small))
]

-- The two fields of a token.
pub token_high : (a b : ℕ) → a < 16 → b < 16 → u8 (bit_or (a <<< 4) b) >>> 4 ≡ a
token_high a b h k = omega (arith, bit_or_byte 4 a b k)

pub token_low : (a b : ℕ) → a < 16 → b < 16 → bit_and (u8 (bit_or (a <<< 4) b)) 15 ≡ b
token_low a b h k = omega (arith, bit_or_byte 4 a b k, bit_and_mask 4 (u8 (bit_or (a <<< 4) b)))

pub nibble-lt : (len : ℕ) → nibble len < 16
nibble-lt len = ground arith

pub literal_length-extra :
    (token len : ℕ) (rest : List ℕ)
    → token >>> 4 ≡ nibble len
    → len < 2 ^ 63
    → literal_length token (extra len ++ rest) ≡ ok (len, rest)
unfolding literal_length
literal_length-extra token len rest h k = elim (Bool-cases (ltb len 15)) [
  | inl short ↦
      let small = ltb→lt len 15 short in
      let field : token >>> 4 ≡ len = h ∙ rw short refl in
      let few : leb 15 len ≡ false = leb-false 15 len small in
      let not_full : (len == 15) ≡ false = ground arith in rw (field, few, not_full) refl
  | inr long ↦
      let big = ltb_false→le len 15 long in
      let field : token >>> 4 ≡ 15 = h ∙ rw long refl in
      let many : leb 15 len ≡ true = le→leb 15 len big in
      let same : 15 + (len - 15) ≡ len = omega (arith, big) in
      rw (field, many)
        (read_more-write_len (len - 15) (len - 15) 15 rest (omega arith) (omega arith)
          ∙ ap (λ (n : ℕ). ok (n, rest)) same)
]

pub match_length-extra :
    (token len : ℕ) (rest : List ℕ)
    → bit_and token 15 ≡ nibble len
    → len < 2 ^ 63
    → match_length token (extra len ++ rest) ≡ ok (len + 4, rest)
unfolding match_length
match_length-extra token len rest h k = elim (Bool-cases (ltb len 15)) [
  | inl short ↦
      let small = ltb→lt len 15 short in
      let field : bit_and token 15 ≡ len = h ∙ rw short refl in
      let few : leb 15 len ≡ false = leb-false 15 len small in
      let not_full : (len == 15) ≡ false = ground arith in rw (field, few, not_full) refl
  | inr long ↦
      let big = ltb_false→le len 15 long in
      let field : bit_and token 15 ≡ 15 = h ∙ rw long refl in
      let many : leb 15 len ≡ true = le→leb 15 len big in
      let same : 15 + 4 + (len - 15) ≡ len + 4 = omega (arith, big) in
      rw (field, many)
        (read_more-write_len (len - 15) (len - 15) (15 + 4) rest (omega arith) (omega arith)
          ∙ ap (λ (n : ℕ). ok (n, rest)) same)
]

-- What `cost` reckons is what is written, and possibly a byte more.
pub length-extra : (len : ℕ) → length (extra len) ≤ cost len
length-extra len = elim (Bool-cases (ltb 14 len)) [
  | inl long ↦
      let big = ltb→lt 14 len long in
      let many : leb 15 len ≡ true = le→leb 15 len (omega (arith, big)) in
      rw (long, many) (omega (arith, length-write_len (len - 15) (len - 15) (omega arith)))
  | inr short ↦
      let small = ltb_false→le 14 len short in
      let few : leb 15 len ≡ false = leb-false 15 len (omega (arith, small)) in
      rw (short, few) (omega arith)
]
