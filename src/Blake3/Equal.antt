-- ===== src/Blake3/Equal.antt =====
-- The comparison of digests (`uc2_blake3_equal`, lib/src/uc2_blake3.c).
use uc.Common.{
  ℕ, zero, suc, ◌+◌, ◌/◌, ◌%◌, ◌^◌, ◌≤◌, ◌<◌, ◌≡◌, ◌↔◌, refl, sym, ap, ap₂, ◌∙◌, List, [], ◌∷◌,
  true, length, All, arith, bit_or, bit_xor, ==_iff,
}
use uc.Common.Bits.{bit_or_step, bit_xor_step, bit_xor-lt}
use uc.Common.Words.{u8, IsByte}
use native.Mathlib.Nat.{pow-suc}
use Prim.Native.Nat.{differ}
use uc.Blake3.Stream.{differing_bits, blake3_equal}

bit_or-eq-zero : (n a b : ℕ) → a + b ≤ n → bit_or a b ≡ 0 → (a ≡ 0) × (b ≡ 0)
bit_or-eq-zero zero a b h e = omega arith
bit_or-eq-zero (suc n) zero zero h e = (refl, refl)
bit_or-eq-zero (suc n) (suc a) b h e =
    let (low, high) =
      bit_or-eq-zero n (suc a / 2) (b / 2) (omega arith) (omega (arith, bit_or_step (suc a) b)) in
    omega (arith, bit_or_step (suc a) b, low, high)
bit_or-eq-zero (suc n) zero (suc b) h e =
    let (low, high) =
      bit_or-eq-zero n 0 (suc b / 2) (omega arith) (omega (arith, bit_or_step 0 (suc b))) in
    omega (arith, bit_or_step 0 (suc b), low, high)

bit_or-lt : (k a b : ℕ) → a < 2 ^ k → b < 2 ^ k → bit_or a b < 2 ^ k
bit_or-lt zero a b h k =
    let one : a ≡ 0 = omega arith in let two : b ≡ 0 = omega arith in rw (one, two) (omega arith)
bit_or-lt (suc k) a b h l = omega (
  arith,
  bit_or_step a b,
  pow-suc 2 k,
  bit_or-lt k (a / 2) (b / 2) (omega (arith, pow-suc 2 k)) (omega (arith, pow-suc 2 k)),
)

differ-eq-zero : (a b : ℕ) → a < 2 → b < 2 → differ a b ≡ 0 → a ≡ b
differ-eq-zero zero zero h k e = refl
differ-eq-zero zero (suc b) h k e = absurd (omega arith)
differ-eq-zero (suc a) zero h k e = absurd (omega arith)
differ-eq-zero (suc a) (suc b) h k e = omega arith

bit_xor-eq-zero : (n a b : ℕ) → a + b ≤ n → bit_xor a b ≡ 0 → a ≡ b
bit_xor-eq-zero zero a b h e = omega arith
bit_xor-eq-zero (suc n) zero zero h e = refl
bit_xor-eq-zero (suc n) (suc a) b h e =
    let low =
      differ-eq-zero (suc a % 2) (b % 2) (omega arith) (omega arith)
        (omega (arith, bit_xor_step (suc a) b)) in
    let high =
      bit_xor-eq-zero n (suc a / 2) (b / 2) (omega arith) (omega (arith, bit_xor_step (suc a) b)) in
    omega (arith, low, high)
bit_xor-eq-zero (suc n) zero (suc b) h e =
    let low =
      differ-eq-zero 0 (suc b % 2) (omega arith) (omega arith)
        (omega (arith, bit_xor_step 0 (suc b))) in
    let high =
      bit_xor-eq-zero n 0 (suc b / 2) (omega arith) (omega (arith, bit_xor_step 0 (suc b))) in
    omega (arith, low, high)

bit_xor_self : (n a : ℕ) → a ≤ n → bit_xor a a ≡ 0
bit_xor_self zero zero h = refl
bit_xor_self zero (suc a) h = absurd (omega arith)
bit_xor_self (suc n) zero h = refl
bit_xor_self (suc n) (suc a) h = omega (
  arith,
  bit_xor_step (suc a) (suc a),
  same (suc a % 2),
  bit_xor_self n (suc a / 2) (omega arith),
)
  where
    same : (x : ℕ) → differ x x ≡ 0
    same zero = refl
    same (suc x) = same x

-- A difference that has been found stays.
differing_bits-zero :
    (a b : List ℕ) (diff : ℕ)
    → length a ≡ length b
    → All IsByte a
    → All IsByte b
    → diff < 256
    → differing_bits (length a) diff a b ≡ 0
    → (diff ≡ 0) × (a ≡ b)
unfolding differing_bits
differing_bits-zero [] [] diff size p q small e = (e, refl)
differing_bits-zero [] (y ∷ b) diff size p q small e = absurd (omega arith)
differing_bits-zero (x ∷ a) [] diff size p q small e = absurd (omega arith)
differing_bits-zero (x ∷ a) (y ∷ b) diff size p q small e =
    let xor_small = bit_xor-lt 8 x y p.0 q.0 in
    let both = bit_or diff (bit_xor x y) in
    let or_small : both < 256 = bit_or-lt 8 diff (bit_xor x y) small xor_small in
    let (none_here, rest) =
      differing_bits-zero a b (u8 both) (omega arith) p.1 q.1 (omega arith) e in
    let (before, here) =
      bit_or-eq-zero (diff + bit_xor x y) diff (bit_xor x y) (omega arith)
        (omega (arith, none_here, or_small)) in
    (before, ap₂ ◌∷◌ (bit_xor-eq-zero (x + y) x y (omega arith) here) rest)

differing_bits-same : (a : List ℕ) → differing_bits (length a) 0 a a ≡ 0
unfolding differing_bits
differing_bits-same [] = refl
differing_bits-same (x ∷ a) =
    ap (λ (n : ℕ). differing_bits (length a) (u8 (bit_or 0 n)) a a) (bit_xor_self x x (omega arith))
    ∙ differing_bits-same a

-- On two digests of 32 bytes blake3_equal is true exactly if they are equal: a difference in one
-- byte is never lost.
pub blake3_equal_iff :
    (a b : List ℕ)
    → length a ≡ 32
    → length b ≡ 32
    → All IsByte a
    → All IsByte b
    → (blake3_equal a b ≡ true) ↔ (a ≡ b)
unfolding blake3_equal
blake3_equal_iff a b h k p q = (
  λ e.
      (differing_bits-zero a b 0 (h ∙ sym k) p q (omega arith)
        (ap (λ (n : ℕ). differing_bits n 0 a b) h ∙ (==_iff (differing_bits 32 0 a b) 0).0 e)).1,
  λ same. (==_iff (differing_bits 32 0 a b) 0).1 (
      ap (λ t. differing_bits 32 0 a t) (sym same)
      ∙ ap (λ (n : ℕ). differing_bits n 0 a a) (sym h)
      ∙ differing_bits-same a),
)
