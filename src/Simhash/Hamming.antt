-- ===== src/Simhash/Hamming.antt =====
-- The distance of two fingerprints (`uc2_hamming`, lib/src/uc2_simhash.c).
use uc.Common.{
  ℕ, zero, suc, ◌+◌, ◌-◌, ◌*◌, ◌/◌, ◌%◌, ◌^◌, ◌≤◌, ◌<◌, ◌≡◌, refl, ap, ◌∙◌, some, ◌==◌,
  if◌then◌else◌, arith, bit_and, bit_xor, Bool-cases, inl, inr, ==_iff, ==_ne, false,
}
use uc.Common.Bits.{bit_and_step, bit_xor_step, bit_xor-lt}
use native.Mathlib.Nat.{pow-suc, le_refl}
use Prim.Native.Nat.{differ}
use uc.Simhash.Hash.{clear_bits, hamming}

-- At how many of the lowest `n` digits two numbers differ.
unfoldable pub differences : ℕ → ℕ → ℕ → ℕ
differences zero a b = 0
differences (suc n) a b = (if a % 2 == b % 2 then 0 else 1) + differences n (a / 2) (b / 2)

unfoldable bit_count : ℕ → ℕ → ℕ
bit_count zero x = 0
bit_count (suc n) x = x % 2 + bit_count n (x / 2)

bit_count-suc : (n x : ℕ) → bit_count (suc n) x ≡ x % 2 + bit_count n (x / 2)
unfolding bit_count
bit_count-suc n x = refl

bit_and_self : (n x : ℕ) → x ≤ n → bit_and x x ≡ x
bit_and_self zero zero h = refl
bit_and_self zero (suc x) h = absurd (omega arith)
bit_and_self (suc n) zero h = refl
bit_and_self (suc n) (suc x) h =
    omega (arith, bit_and_step (suc x) (suc x), bit_and_self n (suc x / 2) (omega arith))

-- `x & (x - 1)` for an odd and for an even number.
lowest_odd : (x : ℕ) → x % 2 ≡ 1 → bit_and x (x - 1) ≡ 2 * (x / 2)
lowest_odd x h =
    let half : (x - 1) / 2 ≡ x / 2 = omega arith in
    let low : (x - 1) % 2 ≡ 0 = omega arith in
    bit_and_step x (x - 1)
    ∙ rw (half, low, h, bit_and_self (x / 2) (x / 2) (le_refl (x / 2))) (omega arith)

lowest_even : (x : ℕ) → x % 2 ≡ 0 → 0 < x → bit_and x (x - 1) ≡ 2 * bit_and (x / 2) (x / 2 - 1)
lowest_even x h k =
    let half : (x - 1) / 2 ≡ x / 2 - 1 = omega arith in
    let low : (x - 1) % 2 ≡ 1 = omega arith in
    bit_and_step x (x - 1) ∙ rw (half, low, h) (omega arith)

bit_count_double : (n x : ℕ) → bit_count (suc n) (2 * x) ≡ bit_count n x
unfolding bit_count
bit_count_double n x =
    let half : 2 * x / 2 ≡ x = omega arith in
    let low : 2 * x % 2 ≡ 0 = omega arith in rw (half, low) (omega arith)

-- The step of the loop clears one digit.
clear_one :
    (n x : ℕ)
    → 0 < x
    → x < 2 ^ n
    → (bit_count n (bit_and x (x - 1)) + 1 ≡ bit_count n x) × (bit_and x (x - 1) < x)
clear_one zero x h k = absurd (omega arith)
clear_one (suc n) x h k = elim (Bool-cases (x % 2 == 1)) [
  | inl odd ↦
      let digit = (==_iff (x % 2) 1).0 odd in
      rw (lowest_odd x digit, bit_count_double n (x / 2)) (omega (arith, digit, bit_count-suc n x))
  | inr even ↦
      let digit : x % 2 ≡ 0 = omega (arith, ==_ne (x % 2) 1 even) in
      let (fewer, smaller) =
        clear_one n (x / 2) (omega (arith, digit)) (omega (arith, pow-suc 2 n)) in
      rw (lowest_even x digit h, bit_count_double n (bit_and (x / 2) (x / 2 - 1)))
        (omega (arith, digit, fewer, smaller, bit_count-suc n x))
]

bit_count-zero : (n : ℕ) → bit_count n 0 ≡ 0
unfolding bit_count
bit_count-zero zero = refl
bit_count-zero (suc n) = omega (arith, bit_count-zero n)

bit_count-le : (n x : ℕ) → bit_count n x ≤ n
unfolding bit_count
bit_count-le zero x = omega arith
bit_count-le (suc n) x = omega (arith, bit_count-le n (x / 2))

clear_bits-bit_count :
    (w fuel x count : ℕ)
    → x < 2 ^ w
    → bit_count w x ≤ fuel
    → clear_bits fuel x count ≡ some (count + bit_count w x)
unfolding clear_bits
clear_bits-bit_count w fuel zero count h enough = at_end fuel
  where
    at_end : (n : ℕ) → clear_bits n 0 count ≡ some (count + bit_count w 0)
    at_end zero = ap some (omega (arith, bit_count-zero w))
    at_end (suc n) = ap some (omega (arith, bit_count-zero w))
clear_bits-bit_count w zero (suc x) count h enough =
    absurd (omega (arith, clear_one w (suc x) (omega arith) h))
clear_bits-bit_count w (suc fuel) (suc x) count h enough =
    let (fewer, smaller) = clear_one w (suc x) (omega arith) h in
    let more : (suc x == 0) ≡ false = ground arith in
    rw more (
      clear_bits-bit_count w fuel (bit_and (suc x) (suc x - 1)) (count + 1) (omega (arith, smaller))
        (omega (arith, fewer))
      ∙ ap some (omega (arith, fewer)))

differ_test : (a b : ℕ) → a < 2 → b < 2 → differ a b ≡ (if a == b then 0 else 1)
differ_test zero zero h k = refl
differ_test zero (suc zero) h k = refl
differ_test (suc zero) zero h k = refl
differ_test (suc zero) (suc zero) h k = refl
differ_test a (suc (suc b)) h k = absurd (omega arith)
differ_test (suc (suc a)) b h k = absurd (omega arith)

bit_count-differences : (n a b : ℕ) → bit_count n (bit_xor a b) ≡ differences n a b
unfolding bit_count differences
bit_count-differences zero a b = refl
bit_count-differences (suc n) a b =
    let d = differ (a % 2) (b % 2) in
    let small : d < 2 = bit_xor_low in
    let low : bit_xor a b % 2 ≡ d = omega (arith, bit_xor_step a b, small) in
    let half : bit_xor a b / 2 ≡ bit_xor (a / 2) (b / 2) = omega (arith, bit_xor_step a b, small) in
    rw (low, half, differ_test (a % 2) (b % 2) (omega arith) (omega arith))
      (ap (λ (t : ℕ). (if a % 2 == b % 2 then 0 else 1) + t)
        (bit_count-differences n (a / 2) (b / 2)))
  where
    bit_xor_low : differ (a % 2) (b % 2) < 2
    bit_xor_low = rw (differ_test (a % 2) (b % 2) (omega arith) (omega arith)) (ground arith)

-- For two numbers below 2^64, the loop of hamming ends and counts the binary digits at which they
-- differ.
pub hamming-differences :
    (a b : ℕ) → a < 2 ^ 64 → b < 2 ^ 64 → hamming a b ≡ some (differences 64 a b)
unfolding hamming
hamming-differences a b h k =
    clear_bits-bit_count 64 64 (bit_xor a b) 0 (bit_xor-lt 64 a b h k)
      (bit_count-le 64 (bit_xor a b))
    ∙ ap some (omega (arith, bit_count-differences 64 a b))
