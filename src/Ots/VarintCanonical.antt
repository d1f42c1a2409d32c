-- ===== src/Ots/VarintCanonical.antt =====
-- Which bytes the varint decoder accepts (lib/src/uc2_ots.c).
use uc.Common.{
  ℕ, ◌+◌, ◌*◌, ◌/◌, ◌%◌, ◌^◌, ◌≤◌, ◌<◌, ◌≡◌, refl, ◌∙◌, ap, List, [], ◌∷◌, length, take, arith, ◌≢◌,
  All,
}
use uc.Common.Bits.{bit_or_disjoint, bit_and_mask, bit_or_top, bit_and_top}
use uc.Common.Order.{lt_wf}
use uc.Common.Result.{ok}
use uc.Common.Words.{u8, IsByte}
use uc.Ots.Varint.{decode_from, varint_decode, encode_acc, varint_encode, shift_falls}
use uc.Ots.VarintLaws.{seven_more, next_low}
use mathlib.Core.Path.{subst}
use mathlib.Core.Logic.{dif_pos, dif_neg}
use mathlib.Core.WellFounded.{Acc}
use native.Mathlib.Decide.{dec_le}
use native.Mathlib.Nat.{pow-le-pow_right}
use native.Mathlib.Bridge.{le_prop}

-- No group that the loop accepts is shifted out of the word.
group_fits :
    (v shift i b : ℕ)
    → shift ≡ 7 * i
    → v < 2 ^ shift
    → shift < 64
    → b < 128
    → (shift ≡ 63 → b ≤ 1)
    → v + b * 2 ^ shift < 2 ^ 64
group_fits v shift i b at low in_word small top = elim (dec_le shift 56) [
  | yes below ↦ grind (arith, pow-le-pow_right {n = 2} (omega arith) below)
  | no above ↦
      let e : shift ≡ 63 = omega arith in
      let low' : v < 2 ^ 63 = rw e at low in rw e (omega (arith, low', top e))
]

-- What one round has found out when the loop succeeds.
last_round :
    (b v shift i x n : ℕ) (rest : List ℕ)
    → shift ≡ 7 * i
    → v < 2 ^ shift
    → b < 128
    → decode_from (b ∷ rest) v shift i ≡ ok (x, n)
    → (x ≡ v + b * 2 ^ shift) × (n ≡ i + 1) × (i ≢ 0 → b ≢ 0) × (x < 2 ^ 64)
unfolding decode_from
last_round b v shift i x n rest at low small e = ground (
  arith,
  bit_and_mask 7 b,
  bit_and_top b,
  bit_or_disjoint shift v b low,
  group_fits v shift i b at low,
)

inner_round :
    (b v shift i x n : ℕ) (rest : List ℕ)
    → shift ≡ 7 * i
    → v < 2 ^ shift
    → 128 ≤ b
    → b < 256
    → decode_from (b ∷ rest) v shift i ≡ ok (x, n)
    → decode_from rest (v + b % 128 * 2 ^ shift) (shift + 7) (i + 1) ≡ ok (x, n)
unfolding decode_from
inner_round b v shift i x n rest at low big byte e = ground (
  arith,
  bit_and_mask 7 b,
  bit_and_top b,
  bit_or_disjoint shift v (b % 128) low,
  group_fits v shift i (b % 128) at low,
)

-- `w` is the number that the bytes from here on encode.
pub record Decoded (src : List ℕ) (v shift i x n w : ℕ) : Type 0 where
  pub value : x ≡ v + w * 2 ^ shift
  pub positive : i ≢ 0 → w ≢ 0
  pub bounded : x < 2 ^ 64
  pub bytes : (p : Acc ◌<◌ w) → take (length (encode_acc w p)) src ≡ encode_acc w p
  pub taken : (p : Acc ◌<◌ w) → n ≡ i + length (encode_acc w p)

one_byte :
    (b : ℕ) (rest : List ℕ)
    → b < 128
    → (p : Acc ◌<◌ b)
    → (take (length (encode_acc b p)) (b ∷ rest) ≡ encode_acc b p) × (length (encode_acc b p) ≡ 1)
unfolding encode_acc
one_byte b rest h (Acc.intro _ smaller) =
    let low : u8 b ≡ b = omega arith in rw (dif_neg (dec_le 0x80 b) (omega arith), low) (refl, refl)

more_bytes :
    (b u n i : ℕ) (rest : List ℕ)
    → 128 ≤ u
    → b ≡ u % 128 + 128
    → ((q : Acc ◌<◌ (u / 128))
        → take (length (encode_acc (u / 128) q)) rest ≡ encode_acc (u / 128) q)
    → ((q : Acc ◌<◌ (u / 128)) → n ≡ i + 1 + length (encode_acc (u / 128) q))
    → (p : Acc ◌<◌ u)
    → (take (length (encode_acc u p)) (b ∷ rest) ≡ encode_acc u p)
      × (n ≡ i + length (encode_acc u p))
unfolding encode_acc
more_bytes b u n i rest big head bytes taken (Acc.intro _ smaller) =
    let q : Acc ◌<◌ (u / 128) = smaller (u / 128) (shift_falls u big) in
    rw (dif_pos (dec_le 0x80 u) le_prop big, bit_or_top u, head)
      (ap (λ r. (u % 128 + 128) ∷ r) (bytes q), omega (arith, taken q))

decode_from-Decoded :
    (src : List ℕ) (v shift i x n : ℕ)
    → All IsByte src
    → shift ≡ 7 * i
    → v < 2 ^ shift
    → decode_from src v shift i ≡ ok (x, n)
    → (w : ℕ) × Decoded src v shift i x n w
decode_from-Decoded [] v shift i x n bytes at low e = unfold decode_from in cc
decode_from-Decoded (b ∷ rest) v shift i x n bytes at low e = elim (dec_le 0x80 b) [
  | no h ↦
      let (value, taken, positive, bounded) =
        last_round b v shift i x n rest at low (omega arith) e in
      (
        b,
        record {
          value = value;
          positive = positive;
          bounded = bounded;
          bytes = λ p. (one_byte b rest (omega arith) p).0;
          taken = λ p. omega (arith, taken, (one_byte b rest (omega arith) p).1);
        },
      )
  | yes h ↦
      let (w, d) =
        decode_from-Decoded rest (v + b % 128 * 2 ^ shift) (shift + 7) (i + 1) x n bytes.1
          (omega arith) (next_low v shift (b % 128) low (omega arith))
          (inner_round b v shift i x n rest at low h bytes.0 e) in
      let u : ℕ = b % 128 + 128 * w in
      let rest_of_u : w ≡ u / 128 = omega arith in
      let both =
        more_bytes b u n i rest (omega (arith, d.positive (omega arith))) (omega (arith, h, bytes))
          (subst (λ k. (q : Acc ◌<◌ k) → take (length (encode_acc k q)) rest ≡ encode_acc k q)
            rest_of_u d.bytes)
          (subst (λ k. (q : Acc ◌<◌ k) → n ≡ i + 1 + length (encode_acc k q)) rest_of_u d.taken) in
      (
        b % 128 + 128 * w,
        record {
          value = omega (arith, d.value, ap (λ (t : ℕ). w * t) (seven_more shift));
          positive = λ _. omega (arith, d.positive (omega arith));
          bounded = d.bounded;
          bytes = λ p. (both p).0;
          taken = λ p. (both p).1;
        },
      )
]

-- If varint_decode on a list of bytes returns v and n, then v is below 2^64, n is the length of
-- varint_encode v, and the first n bytes are varint_encode v: nothing else is accepted.
pub varint_decode_canonical :
    (src : List ℕ) (v n : ℕ)
    → All IsByte src
    → varint_decode src ≡ ok (v, n)
    → (v < 2 ^ 64) × (n ≡ length (varint_encode v)) × (take n src ≡ varint_encode v)
unfolding varint_decode varint_encode
varint_decode_canonical src v n bytes e =
    let (w, d) = decode_from-Decoded src 0 0 0 v n bytes refl (omega arith) e in
    let same : w ≡ v = omega (arith, d.value) in
    let taken = subst (λ k. (p : Acc ◌<◌ k) → n ≡ 0 + length (encode_acc k p)) same d.taken in
    let n_eq : n ≡ length (encode_acc v (lt_wf.apply v)) = omega (arith, taken (lt_wf.apply v)) in
    (
      d.bounded,
      n_eq,
      ap (λ k. take k src) n_eq
          ∙ subst (λ k. (p : Acc ◌<◌ k) → take (length (encode_acc k p)) src ≡ encode_acc k p) same
              d.bytes (lt_wf.apply v),
    )
