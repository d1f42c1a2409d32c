-- ===== src/Ots/VarintLaws.antt =====
-- The varint decoder on what the encoder writes, and the length of that (lib/src/uc2_ots.c).
use uc.Common.{
  ℕ, zero, suc, ◌+◌, ◌*◌, ◌/◌, ◌%◌, ◌^◌, ◌≤◌, ◌<◌, ◌≡◌, refl, ◌∙◌, ap, List, ◌∷◌, ◌++◌, length,
  arith, ◌≢◌,
}
use uc.Common.Bits.{bit_or_disjoint, bit_and_mask, bit_or_top, bit_and_top}
use uc.Common.Order.{lt_wf}
use uc.Common.Result.{ok}
use uc.Ots.Varint.{decode_from, varint_decode, encode_acc, varint_encode, shift_falls}
use mathlib.Core.Logic.{dif_pos, dif_neg}
use mathlib.Core.WellFounded.{Acc}
use native.Mathlib.Decide.{dec_le}
use native.Mathlib.Nat.{div-add-mod, pow-suc}
use native.Mathlib.Bridge.{le_prop}
use native.Mathlib.Numerals.{towards_suc}

-- One round on a last byte, and on a byte with the top bit set over the group `g`.
last_byte :
    (b v shift i : ℕ) (rest : List ℕ)
    → b < 128
    → v < 2 ^ shift
    → shift ≤ 63
    → (shift ≡ 63 → b ≤ 1)
    → (i ≢ 0 → b ≢ 0)
    → v + b * 2 ^ shift < 2 ^ 64
    → decode_from (b ∷ rest) v shift i ≡ ok (v + b * 2 ^ shift, i + 1)
unfolding decode_from
last_byte b v shift i rest small low in_word top canonical fits =
    ground (arith, bit_and_mask 7 b, bit_and_top b, bit_or_disjoint shift v b low)

inner_byte :
    (g v shift i : ℕ) (rest : List ℕ)
    → g < 128
    → v < 2 ^ shift
    → shift < 63
    → v + g * 2 ^ shift < 2 ^ 64
    → decode_from ((g + 128) ∷ rest) v shift i
      ≡ decode_from rest (v + g * 2 ^ shift) (shift + 7) (i + 1)
unfolding decode_from
inner_byte g v shift i rest small low in_word fits =
    ground (arith, bit_and_mask 7 (g + 128), bit_and_top (g + 128), bit_or_disjoint shift v g low)

pub seven_more : (k : ℕ) → 2 ^ (k + 7) ≡ 128 * 2 ^ k
seven_more k = simp towards_suc (omega arith)

-- The lowest group of `w` and the others, from bit `s` on.
split_groups : (w s : ℕ) → w * 2 ^ s ≡ w % 128 * 2 ^ s + w / 128 * 2 ^ (s + 7)
split_groups w s = omega (
  arith,
  ap (λ (t : ℕ). t * 2 ^ s) (div-add-mod w 128),
  ap (λ (t : ℕ). w / 128 * t) (seven_more s),
)

pub next_low : (v s g : ℕ) → v < 2 ^ s → g < 128 → v + g * 2 ^ s < 2 ^ (s + 7)
next_low v s g low small = rw (seven_more s) (grind arith)

below_next : (k w : ℕ) → w < 2 * 128 ^ suc k → w / 128 < 2 * 128 ^ k
below_next k w h = omega (arith, pow-suc 128 k)

-- `k` more groups fit behind this one, `w` is what is still to be read.
decode_from-encode_acc :
    (k w v shift i : ℕ) (p : Acc ◌<◌ w) (rest : List ℕ)
    → shift + 7 * k ≡ 63
    → w < 2 * 128 ^ k
    → v < 2 ^ shift
    → v + w * 2 ^ shift < 2 ^ 64
    → (i ≢ 0 → w ≢ 0)
    → decode_from (encode_acc w p ++ rest) v shift i
      ≡ ok (v + w * 2 ^ shift, i + length (encode_acc w p))
unfolding encode_acc
decode_from-encode_acc zero w v shift i (Acc.intro _ smaller) rest at below low fits canonical =
    ground (arith, last_byte w v shift i rest)
decode_from-encode_acc (suc k) w v shift i (Acc.intro _ smaller) rest at below low fits canonical =
    elim (dec_le 0x80 w) [
      | no h ↦ rw (dif_neg (dec_le 0x80 w) h) (ground (arith, last_byte w v shift i rest))
      | yes h ↦
          let q : Acc ◌<◌ (w / 128) = smaller (w / 128) (shift_falls w h) in
          let groups = split_groups w shift in
          let low' : v + w % 128 * 2 ^ shift < 2 ^ (shift + 7) =
            next_low v shift (w % 128) low (omega arith) in
          let tail =
            decode_from-encode_acc k (w / 128) (v + w % 128 * 2 ^ shift) (shift + 7) (i + 1) q rest
              (omega arith) (below_next k w below) low' (omega (arith, groups))
              (λ _. omega arith) in
          rw (dif_pos (dec_le 0x80 w) le_prop h, bit_or_top w)
            (inner_byte (w % 128) v shift i (encode_acc (w / 128) q ++ rest) (omega arith) low
                (omega arith) (omega (arith, groups))
              ∙ tail
              ∙ ground (arith, groups))
    ]

-- For every number below 2^64, varint_decode on its encoding, followed by any bytes, returns the
-- number and the length of the encoding.
pub varint_decode-varint_encode :
    (v : ℕ) (rest : List ℕ)
    → v < 2 ^ 64
    → varint_decode (varint_encode v ++ rest) ≡ ok (v, length (varint_encode v))
unfolding varint_decode varint_encode
varint_decode-varint_encode v rest h =
    decode_from-encode_acc 9 v 0 0 0 (lt_wf.apply v) rest refl (omega arith) (omega arith)
      (omega arith) (λ p. absurd (p refl))
    ∙ ground arith

-- Ten bytes are room enough for every 64-bit number.
length-encode_acc :
    (k v : ℕ) (p : Acc ◌<◌ v)
    → v < 2 * 128 ^ k
    → (1 ≤ length (encode_acc v p)) × (length (encode_acc v p) ≤ suc k)
unfolding encode_acc
length-encode_acc zero v (Acc.intro _ smaller) h =
    rw (dif_neg (dec_le 0x80 v) (omega arith)) (omega arith)
length-encode_acc (suc k) v (Acc.intro _ smaller) h = elim (dec_le 0x80 v) [
  | no small ↦ rw (dif_neg (dec_le 0x80 v) small) (omega arith)
  | yes big ↦ rw (dif_pos (dec_le 0x80 v) le_prop big) (
      omega (
        arith,
        length-encode_acc k (v / 128) (smaller (v / 128) (shift_falls v big)) (below_next k v h),
      ))
]

-- varint_encode of a number below 2^64 has at least one byte and at most ten.
pub length-varint_encode :
    (v : ℕ) → v < 2 ^ 64 → (1 ≤ length (varint_encode v)) × (length (varint_encode v) ≤ 10)
unfolding varint_encode
length-varint_encode v h = length-encode_acc 9 v (lt_wf.apply v) (omega arith)
