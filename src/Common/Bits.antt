-- ===== src/Common/Bits.antt =====
-- The bit operations of C at variables. The native ones mean a recursion on binary digits with
-- fuel; here are the equation for the lowest digit and the laws that follow from it.
use Prim.Native.Nat.{
  ℕ, zero, suc, ◌+◌, ◌-◌, ◌*◌, ◌/◌, ◌%◌, ◌^◌, ◌≤◌, ◌<◌, min, max, bit_and, bit_or, bit_xor, digits,
  differ, bitwise, bit_and-bitwise, bit_or-bitwise, bit_xor-bitwise,
}
use mathlib.Core.Path.{◌≡◌, refl, sym, ap, ◌∙◌}
use native.Mathlib.Nat.{pow-suc, one-le-pow, le_refl}
use native.Mathlib.Omega.{arith}

module _ (side : ℕ → ℕ) (digit : ℕ → ℕ → ℕ) where
  enough_digits :
      (fuel more x y : ℕ)
      → x ≤ fuel
      → fuel ≤ more
      → digits side digit more x y ≡ digits side digit fuel x y
  enough_digits zero zero x y enough order = refl
  enough_digits zero (suc more) zero y enough order = refl
  enough_digits zero (suc more) (suc x) y enough order = absurd (omega arith)
  enough_digits (suc fuel) zero x y enough order = absurd (omega arith)
  enough_digits (suc fuel) (suc more) zero y enough order = refl
  enough_digits (suc fuel) (suc more) (suc x) y enough order =
      rw (enough_digits fuel more (suc x / 2) (y / 2) (omega arith) (omega arith))

  lowest_digit :
      (x y : ℕ)
      → bitwise side digit (suc x) y
        ≡ bitwise side digit (suc x / 2) (y / 2) * 2 + digit (suc x % 2) (y % 2)
  lowest_digit x y =
      omega (arith, enough_digits (suc x / 2) x (suc x / 2) (y / 2) (le_refl _) (omega arith))

pub zero-bit_or : (b : ℕ) → bit_or 0 b ≡ b
zero-bit_or b = bit_or-bitwise 0 b

pub bit_or_step : (x y : ℕ) → bit_or x y ≡ max (x % 2) (y % 2) + 2 * bit_or (x / 2) (y / 2)
bit_or_step (suc x) y = omega (
  arith,
  bit_or-bitwise (suc x) y,
  bit_or-bitwise (suc x / 2) (y / 2),
  lowest_digit (λ d. d) max x y,
)
bit_or_step zero y = omega (arith, zero-bit_or y, zero-bit_or (y / 2))

pub zero-bit_xor : (b : ℕ) → bit_xor 0 b ≡ b
zero-bit_xor b = bit_xor-bitwise 0 b

pub bit_xor_step : (x y : ℕ) → bit_xor x y ≡ differ (x % 2) (y % 2) + 2 * bit_xor (x / 2) (y / 2)
bit_xor_step (suc x) y = omega (
  arith,
  bit_xor-bitwise (suc x) y,
  bit_xor-bitwise (suc x / 2) (y / 2),
  lowest_digit (λ d. d) differ x y,
)
bit_xor_step zero y = omega (arith, zero-bit_xor y, zero-bit_xor (y / 2))

pub zero-bit_and : (b : ℕ) → bit_and 0 b ≡ 0
zero-bit_and b = bit_and-bitwise 0 b

pub bit_and_step : (x y : ℕ) → bit_and x y ≡ min (x % 2) (y % 2) + 2 * bit_and (x / 2) (y / 2)
bit_and_step (suc x) y = omega (
  arith,
  bit_and-bitwise (suc x) y,
  bit_and-bitwise (suc x / 2) (y / 2),
  lowest_digit (λ d. 0) min x y,
)
bit_and_step zero y = omega (arith, zero-bit_and y, zero-bit_and (y / 2))

two-mul-pow : (q k : ℕ) → q * 2 ^ suc k ≡ 2 * (q * 2 ^ k)
two-mul-pow q k = omega (arith, ap (λ (t : ℕ). q * t) (pow-suc 2 k))

zero_of-lt-one : (x : ℕ) → x < 1 → x ≡ 0
zero_of-lt-one x p = omega arith

-- `r | q << k` is a sum where `r` fits `k` bits.
pub bit_or_disjoint : (k r q : ℕ) → r < 2 ^ k → bit_or r (q * 2 ^ k) ≡ r + q * 2 ^ k
bit_or_disjoint zero r q h = rw (zero_of-lt-one r h, zero-bit_or) (omega arith)
bit_or_disjoint (suc k) r q h = ground (
  arith,
  bit_or_step r (q * 2 ^ suc k),
  two-mul-pow q k,
  pow-suc 2 k,
  bit_or_disjoint k (r / 2) q,
)

bit_and-zero : (n a : ℕ) → a ≤ n → bit_and a 0 ≡ 0
bit_and-zero n zero h = refl
bit_and-zero zero (suc a) h = absurd (omega arith)
bit_and-zero (suc n) (suc a) h =
    omega (arith, bit_and_step (suc a) 0, bit_and-zero n (suc a / 2) (omega arith))

mask_fields : (k q r : ℕ) → r < 2 ^ k → bit_and (r + q * 2 ^ k) (2 ^ k - 1) ≡ r
mask_fields zero q r h = bit_and-zero (r + q * 1) (r + q * 1) (le_refl _) ∙ sym (zero_of-lt-one r h)
mask_fields (suc k) q r h = ground (
  arith,
  bit_and_step (r + q * 2 ^ suc k) (2 ^ suc k - 1),
  two-mul-pow q k,
  pow-suc 2 k,
  one-le-pow k 2,
  mask_fields k q (r / 2),
)

-- A mask of `k` low bits is the remainder by `2 ^ k`.
pub bit_and_mask : (k a : ℕ) → bit_and a (2 ^ k - 1) ≡ a % 2 ^ k
bit_and_mask k a = ground (arith, one-le-pow k 2, mask_fields k (a / 2 ^ k) (a % 2 ^ k))

-- `^` acts on the fields of a word one by one.
pub bit_xor_fields :
    (k a b c d : ℕ)
    → a < 2 ^ k
    → c < 2 ^ k
    → bit_xor (a + b * 2 ^ k) (c + d * 2 ^ k) ≡ bit_xor a c + bit_xor b d * 2 ^ k
bit_xor_fields zero a b c d p q =
    rw (zero_of-lt-one a p, zero_of-lt-one c q, zero-bit_xor) (unit b d)
  where
    unit : (x y : ℕ) → bit_xor (0 + x * 1) (0 + y * 1) ≡ 0 + bit_xor x y * 1
    unit x y =
        let e : 0 + x * 1 ≡ x = omega arith in
        let f : 0 + y * 1 ≡ y = omega arith in rw (e, f) (omega arith)
bit_xor_fields (suc k) a b c d p q = ground (
  arith,
  bit_xor_step (a + b * 2 ^ suc k) (c + d * 2 ^ suc k),
  bit_xor_step a c,
  two-mul-pow b k,
  two-mul-pow d k,
  two-mul-pow (bit_xor b d) k,
  pow-suc 2 k,
  bit_xor_fields k (a / 2) b (c / 2) d,
)

differ-lt-two : (a b : ℕ) → a < 2 → b < 2 → differ a b < 2
differ-lt-two zero b p q = q
differ-lt-two (suc a) zero p q = p
differ-lt-two (suc a) (suc b) p q = differ-lt-two a b (omega arith) (omega arith)

pub bit_xor-lt : (k a b : ℕ) → a < 2 ^ k → b < 2 ^ k → bit_xor a b < 2 ^ k
bit_xor-lt zero a b p q = rw (zero_of-lt-one a p) (omega (arith, zero-bit_xor b))
bit_xor-lt (suc k) a b p q = ground (
  arith,
  bit_xor_step a b,
  pow-suc 2 k,
  differ-lt-two (a % 2) (b % 2),
  bit_xor-lt k (a / 2) (b / 2),
)

-- A single bit in a byte.
bit_or_even : (a c : ℕ) → bit_or a (c * 2) ≡ bit_or (a / 2) c * 2 + a % 2
bit_or_even a c =
    let half : c * 2 / 2 ≡ c = omega arith in
    let even : c * 2 % 2 ≡ 0 = omega arith in rw (bit_or_step a (c * 2), half, even) (omega arith)

pub bit_or-zero : (n a : ℕ) → a ≤ n → bit_or a 0 ≡ a
bit_or-zero n zero h = refl
bit_or-zero zero (suc a) h = absurd (omega arith)
bit_or-zero (suc n) (suc a) h =
    omega (arith, bit_or_even (suc a) 0, bit_or-zero n (suc a / 2) (omega arith))

bit_or-one : (a : ℕ) → bit_or a 1 ≡ a / 2 * 2 + 1
bit_or-one a = omega (arith, bit_or_step a 1, bit_or-zero (a / 2) (a / 2) (le_refl _))

pub bit_or_top : (a : ℕ) → bit_or a 0x80 % 256 ≡ a % 128 + 128
bit_or_top a = omega (
  arith,
  bit_or_even a 64,
  bit_or_even (a / 2) 32,
  bit_or_even (a / 2 / 2) 16,
  bit_or_even (a / 2 / 2 / 2) 8,
  bit_or_even (a / 2 / 2 / 2 / 2) 4,
  bit_or_even (a / 2 / 2 / 2 / 2 / 2) 2,
  bit_or_even (a / 2 / 2 / 2 / 2 / 2 / 2) 1,
  bit_or-one (a / 2 / 2 / 2 / 2 / 2 / 2 / 2),
)

bit_and-one : (a : ℕ) → bit_and a 1 ≡ a % 2
bit_and-one a = bit_and_mask 1 a

bit_and_even : (a c : ℕ) → bit_and a (c * 2) ≡ bit_and (a / 2) c * 2
bit_and_even a c =
    let half : c * 2 / 2 ≡ c = omega arith in
    let even : c * 2 % 2 ≡ 0 = omega arith in rw (bit_and_step a (c * 2), half, even) (omega arith)

pub bit_and_top : (a : ℕ) → a < 256 → bit_and a 0x80 ≡ a / 128 * 128
bit_and_top a h = omega (
  arith,
  bit_and_even a 64,
  bit_and_even (a / 2) 32,
  bit_and_even (a / 2 / 2) 16,
  bit_and_even (a / 2 / 2 / 2) 8,
  bit_and_even (a / 2 / 2 / 2 / 2) 4,
  bit_and_even (a / 2 / 2 / 2 / 2 / 2) 2,
  bit_and_even (a / 2 / 2 / 2 / 2 / 2 / 2) 1,
  bit_and-one (a / 2 / 2 / 2 / 2 / 2 / 2 / 2),
)

-- `|` acts on the fields of a word one by one.
pub bit_or_fields :
    (k a b c d : ℕ)
    → a < 2 ^ k
    → c < 2 ^ k
    → bit_or (a + b * 2 ^ k) (c + d * 2 ^ k) ≡ bit_or a c + bit_or b d * 2 ^ k
bit_or_fields zero a b c d p q = rw (zero_of-lt-one a p, zero_of-lt-one c q, zero-bit_or) (unit b d)
  where
    unit : (x y : ℕ) → bit_or (0 + x * 1) (0 + y * 1) ≡ 0 + bit_or x y * 1
    unit x y =
        let e : 0 + x * 1 ≡ x = omega arith in
        let f : 0 + y * 1 ≡ y = omega arith in rw (e, f) (omega arith)
bit_or_fields (suc k) a b c d p q = ground (
  arith,
  bit_or_step (a + b * 2 ^ suc k) (c + d * 2 ^ suc k),
  bit_or_step a c,
  two-mul-pow b k,
  two-mul-pow d k,
  two-mul-pow (bit_or b d) k,
  pow-suc 2 k,
  bit_or_fields k (a / 2) b (c / 2) d,
)

-- The lower field of a word can stand on the right.
pub bit_or_byte : (k q r : ℕ) → r < 2 ^ k → bit_or (q * 2 ^ k) r ≡ q * 2 ^ k + r
bit_or_byte zero q r h =
    let nothing : r ≡ 0 = omega arith in
    rw nothing (bit_or-zero (q * 1) (q * 1) (omega arith) ∙ omega arith)
bit_or_byte (suc k) q r h = ground (
  arith,
  bit_or_step (q * 2 ^ suc k) r,
  ap (λ (t : ℕ). q * t) (pow-suc 2 k),
  pow-suc 2 k,
  bit_or_byte k q (r / 2),
)
