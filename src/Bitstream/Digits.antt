-- ===== src/Bitstream/Digits.antt =====
-- A stream of bits as a list, highest bit first, and the words that hold it.
use uc.Common.{
  ℕ, zero, suc, ◌+◌, ◌*◌, ◌/◌, ◌%◌, ◌^◌, ◌<◌, ◌≡◌, refl, sym, ap, ◌∙◌, List, [], ◌∷◌, ◌++◌, length,
  arith, append_assoc, append-nil, length-append,
}
use uc.Common.Words.{u8, ◌>>>◌, snoc_parts}
use mathlib.Core.Path.{subst}
use native.Mathlib.Nat.{
  pow-suc, div-div-eq-div-mul, mul-lt-mul_of_pos_right, one-le-pow, mod-add-div',
  add-mul-mod_self_right, mod-lt,
}

unfoldable pub bits_of : ℕ → ℕ → List ℕ
bits_of zero v = []
bits_of (suc n) v = bits_of n (v / 2) ++ (v % 2 ∷ [])

pub length-bits_of : (n v : ℕ) → length (bits_of n v) ≡ n
unfolding bits_of
length-bits_of zero v = refl
length-bits_of (suc n) v =
    omega (arith, length-append (bits_of n (v / 2)) (v % 2 ∷ []), length-bits_of n (v / 2))

pub bits_of-add : (m n v : ℕ) → bits_of (m + n) v ≡ bits_of m (v / 2 ^ n) ++ bits_of n v
unfolding bits_of
bits_of-add m zero v =
    let same : v / 1 ≡ v = omega arith in
    let count : m + 0 ≡ m = omega arith in rw (count, same) (sym (append-nil (bits_of m v)))
bits_of-add m (suc n) v =
    let count : m + suc n ≡ suc (m + n) = omega arith in
    let power : 2 * 2 ^ n ≡ 2 ^ suc n = omega (arith, pow-suc 2 n) in
    ap (λ (k : ℕ). bits_of k v) count
    ∙ ap (λ t. t ++ (v % 2 ∷ [])) (bits_of-add m n (v / 2))
    ∙ append_assoc (bits_of m (v / 2 / 2 ^ n)) (bits_of n (v / 2)) (v % 2 ∷ [])
    ∙ ap (λ (k : ℕ). bits_of m k ++ (bits_of n (v / 2) ++ (v % 2 ∷ [])))
        (div-div-eq-div-mul v 2 (2 ^ n) ∙ ap (λ (k : ℕ). v / k) power)

-- Only the low bits count.
pub bits_of_low : (n a b : ℕ) → bits_of n (a * 2 ^ n + b) ≡ bits_of n b
unfolding bits_of
bits_of_low zero a b = refl
bits_of_low (suc n) a b =
    let twice : a * 2 ^ suc n ≡ 2 * (a * 2 ^ n) =
      omega (arith, ap (λ (t : ℕ). a * t) (pow-suc 2 n)) in
    let half : (2 * (a * 2 ^ n) + b) / 2 ≡ a * 2 ^ n + b / 2 = omega arith in
    let low : (2 * (a * 2 ^ n) + b) % 2 ≡ b % 2 = omega arith in
    rw (twice, half, low) (ap (λ t. t ++ (b % 2 ∷ [])) (bits_of_low n a (b / 2)))

pub bits_of-injective : (n v w : ℕ) → v < 2 ^ n → w < 2 ^ n → bits_of n v ≡ bits_of n w → v ≡ w
unfolding bits_of
bits_of-injective zero v w h k e = omega arith
bits_of-injective (suc n) v w h k e =
    let (high, low) =
      snoc_parts (bits_of n (v / 2)) (bits_of n (w / 2)) (v % 2) (w % 2)
        (length-bits_of n (v / 2) ∙ sym (length-bits_of n (w / 2))) e in
    let upper =
      bits_of-injective n (v / 2) (w / 2) (omega (arith, pow-suc 2 n)) (omega (arith, pow-suc 2 n))
        high in
    omega (arith, upper, low)

-- The bits of whole words, and their bytes.
unfoldable pub word_bits : List ℕ → List ℕ
word_bits [] = []
word_bits (w ∷ ws) = bits_of 16 w ++ word_bits ws

unfoldable pub word_bytes : List ℕ → List ℕ
word_bytes [] = []
word_bytes (w ∷ ws) = u8 w ∷ u8 (w >>> 8) ∷ word_bytes ws

pub word_bits-append : (xs ys : List ℕ) → word_bits (xs ++ ys) ≡ word_bits xs ++ word_bits ys
unfolding word_bits
word_bits-append [] ys = refl
word_bits-append (w ∷ xs) ys =
    ap (λ t. bits_of 16 w ++ t) (word_bits-append xs ys)
    ∙ sym (append_assoc (bits_of 16 w) (word_bits xs) (word_bits ys))

pub word_bytes-append : (xs ys : List ℕ) → word_bytes (xs ++ ys) ≡ word_bytes xs ++ word_bytes ys
unfolding word_bytes
word_bytes-append [] ys = refl
word_bytes-append (w ∷ xs) ys = ap (λ t. u8 w ∷ u8 (w >>> 8) ∷ t) (word_bytes-append xs ys)

pub pow-add : (m n : ℕ) → 2 ^ m * 2 ^ n ≡ 2 ^ (m + n)
pow-add zero n =
    let same : 1 * 2 ^ n ≡ 2 ^ n = omega arith in
    same ∙ ap (λ (k : ℕ). 2 ^ k) {x = n} {y = 0 + n} (omega arith)
pow-add (suc m) n =
    let step : 2 ^ suc m * 2 ^ n ≡ 2 * (2 ^ m * 2 ^ n) =
      ap (λ (t : ℕ). t * 2 ^ n) (pow-suc 2 m) ∙ omega arith in
    step
    ∙ ap (λ (t : ℕ). 2 * t) (pow-add m n)
    ∙ sym (
        ap (λ (k : ℕ). 2 ^ k) {x = suc m + n} {y = suc (m + n)} (omega arith)
        ∙ pow-suc 2 (m + n)
        ∙ omega arith)

-- A value that fits its field fits the word once it is shifted there.
pub shifted-lt : (v n d : ℕ) → v < 2 ^ n → v * 2 ^ d < 2 ^ (n + d)
shifted-lt v n d h =
    subst (λ (t : ℕ). v * 2 ^ d < t) (pow-add n d)
      (mul-lt-mul_of_pos_right {m = v} {n = 2 ^ n} {k = 2 ^ d} h (one-le-pow d 2 (omega arith)))

-- The bits that a shift leaves in a word of 16.
pub shift_mod : (v s d : ℕ) → s + d ≡ 16 → v * 2 ^ d % 2 ^ 16 ≡ v % 2 ^ s * 2 ^ d
shift_mod v s d e =
    let m = 2 ^ s in
    let k = 2 ^ d in
    let r = v % m in
    let whole : m * k ≡ 2 ^ 16 = pow-add s d ∙ ap (λ (t : ℕ). 2 ^ t) e in
    let parts : v ≡ r + v / m * m = sym (mod-add-div' v m) in
    let spread : v * k ≡ r * k + v / m * (m * k) =
      ap (λ (t : ℕ). t * k) parts ∙ spread_of r (v / m) m k in
    let small : r * k < 2 ^ 16 =
      subst (λ (t : ℕ). r * k < t) (ap (λ (t : ℕ). 2 ^ t) e)
        (shifted-lt r s d (mod-lt v {m = m} (one-le-pow s 2 (omega arith)))) in
    ap (λ (t : ℕ). t % 2 ^ 16) (spread ∙ ap (λ (t : ℕ). r * k + v / m * t) whole)
    ∙ add-mul-mod_self_right (r * k) (v / m) (2 ^ 16)
    ∙ omega (arith, small)
  where
    spread_of : (r q m k : ℕ) → (r + q * m) * k ≡ r * k + q * (m * k)
    spread_of r q m k = omega arith
