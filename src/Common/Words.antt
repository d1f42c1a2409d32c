-- ===== src/Common/Words.antt =====
-- Machine words as native numbers: casts wrap by `%`, and the little-endian fields of the formats.
use uc.Common.Lists.{length, take, drop, All, length-drop}
use uc.Common.Bits.{bit_or_disjoint}
use Prim.Native.Nat.{ℕ, zero, suc, ◌+◌, ◌*◌, ◌/◌, ◌%◌, ◌^◌, ◌≤◌, ◌<◌, bit_or}
use uc.Common.Slices.{slice, take-add}
use native.Mathlib.Nat.{zero-add, suc-add}
use mathlib.Core.Path.{◌≡◌, refl, sym, ap, ap₂, ◌∙◌}
use mathlib.Core.Bool.{Bool, true, ◌&&◌}
use uc.Common.Tests.{◌==◌}
use mathlib.Core.List.{List, [], ◌∷◌, ◌++◌}
use native.Mathlib.Omega.{arith}

abbrev pub u8 : ℕ → ℕ
u8 n = n % 2 ^ 8

abbrev pub u16 : ℕ → ℕ
u16 n = n % 2 ^ 16

abbrev pub u32 : ℕ → ℕ
u32 n = n % 2 ^ 32

abbrev pub u64 : ℕ → ℕ
u64 n = n % 2 ^ 64

abbrev pub IsByte : ℕ → Type 0
IsByte b = b < 256

infixl 75 ◌<<<◌ ◌>>>◌
abbrev pub ◌<<<◌ : ℕ → ℕ → ℕ
x <<< k = x * 2 ^ k

abbrev pub ◌>>>◌ : ℕ → ℕ → ℕ
x >>> k = x / 2 ^ k

-- The byte at `p[i]`, for a read that the code has checked to be in range.
abbrev pub byte_at : List ℕ → ℕ → ℕ
byte_at [] i = 0
byte_at (x ∷ xs) zero = x
byte_at (x ∷ xs) (suc i) = byte_at xs i

-- `p[0] | p[1] << 8`
unfoldable pub le16 : ℕ → ℕ → ℕ
le16 a b = bit_or a (b <<< 8)

-- `p[0] | p[1] << 8 | p[2] << 16 | p[3] << 24`
unfoldable pub le32 : ℕ → ℕ → ℕ → ℕ → ℕ
le32 a b c d = bit_or (bit_or (bit_or a (b <<< 8)) (c <<< 16)) (d <<< 24)

pub le16-eq : (a b : ℕ) → a < 256 → le16 a b ≡ a + 256 * b
unfolding le16
le16-eq a b p = bit_or_disjoint 8 a b p ∙ omega arith

pub le32-eq :
    (a b c d : ℕ)
    → a < 256
    → b < 256
    → c < 256
    → le32 a b c d ≡ a + 256 * b + 65536 * c + 16777216 * d
unfolding le32
le32-eq a b c d p q r =
    rw
      (
        bit_or_disjoint 8 a b p,
        bit_or_disjoint 16 (a + b * 2 ^ 8) c (omega arith),
        bit_or_disjoint 24 (a + b * 2 ^ 8 + c * 2 ^ 16) d (omega arith),
      )
      (omega arith)

pub le32-lt : (a b c d : ℕ) → a < 256 → b < 256 → c < 256 → d < 256 → le32 a b c d < 2 ^ 32
le32-lt a b c d p q r s = omega (arith, le32-eq a b c d p q r)

-- The four bytes of a `uint32_t`, lowest first.
unfoldable pub bytes32 : ℕ → List ℕ
bytes32 v = u8 v ∷ u8 (v >>> 8) ∷ u8 (v >>> 16) ∷ u8 (v >>> 24) ∷ []

-- The word at the front of the bytes; 0 stands for the bytes that are not there.
unfoldable pub word32 : List ℕ → ℕ
word32 p = le32 (byte_at p 0) (byte_at p 1) (byte_at p 2) (byte_at p 3)

unfoldable pub word16 : List ℕ → ℕ
word16 p = le16 (byte_at p 0) (byte_at p 1)

pub bytes32-IsByte : (v : ℕ) → All IsByte (bytes32 v)
unfolding bytes32
bytes32-IsByte v = omega arith

pub bytes32-le32 :
    (a b c d : ℕ)
    → a < 256
    → b < 256
    → c < 256
    → d < 256
    → bytes32 (le32 a b c d) ≡ a ∷ b ∷ c ∷ d ∷ []
unfolding bytes32
bytes32-le32 a b c d p q r s = rw (le32-eq a b c d p q r) (
    ap₂ ◌∷◌ (omega arith)
      (ap₂ ◌∷◌ (omega arith) (ap₂ ◌∷◌ (omega arith) (ap₂ ◌∷◌ (omega arith) refl))))

pub length-bytes32 : (v : ℕ) → length (bytes32 v) ≡ 4
unfolding bytes32
length-bytes32 v = refl

-- Reading back the word that was written, whatever follows it.
pub word32-bytes32 : (v : ℕ) (rest : List ℕ) → v < 2 ^ 32 → word32 (bytes32 v ++ rest) ≡ v
unfolding word32 bytes32
word32-bytes32 v rest h =
    omega (arith, le32-eq (u8 v) (u8 (v >>> 8)) (u8 (v >>> 16)) (u8 (v >>> 24)))

pub drop-bytes32 : (v : ℕ) (rest : List ℕ) → drop 4 (bytes32 v ++ rest) ≡ rest
unfolding bytes32
drop-bytes32 v rest = refl

-- Two words in a row.
pub drop-bytes32_twice :
    (v w : ℕ) (rest : List ℕ) → drop 8 (bytes32 v ++ (bytes32 w ++ rest)) ≡ rest
unfolding bytes32
drop-bytes32_twice v w rest = refl

pub length-bytes32_append : (v : ℕ) (rest : List ℕ) → length (bytes32 v ++ rest) ≡ 4 + length rest
unfolding bytes32
length-bytes32_append v rest = omega arith

pub byte_at-drop : (xs : List ℕ) (i n : ℕ) → byte_at (drop i xs) n ≡ byte_at xs (i + n)
byte_at-drop xs zero n = ap (byte_at xs) (sym (zero-add n))
byte_at-drop [] (suc i) n = refl
byte_at-drop (x ∷ xs) (suc i) n = byte_at-drop xs i n ∙ ap (byte_at (x ∷ xs)) (sym (suc-add i n))

pub take-byte_at : (xs : List ℕ) (n : ℕ) → n < length xs → take 1 (drop n xs) ≡ byte_at xs n ∷ []
take-byte_at [] n h = absurd (omega arith)
take-byte_at (x ∷ xs) zero h = refl
take-byte_at (x ∷ xs) (suc n) h = take-byte_at xs n (omega arith)

-- A piece of an array and the byte behind it.
pub slice-byte_at :
    (xs : List ℕ) (i n : ℕ)
    → i + n < length xs
    → slice xs i (n + 1) ≡ slice xs i n ++ (byte_at xs (i + n) ∷ [])
slice-byte_at xs i n h =
    take-add n 1 (drop i xs)
    ∙ ap (λ r. slice xs i n ++ r)
        (take-byte_at (drop i xs) n (omega (arith, length-drop i xs))
          ∙ ap (λ b. b ∷ []) (byte_at-drop xs i n))

-- `memcmp(a, b, n) == 0`
unfoldable pub same_bytes : ℕ → List ℕ → List ℕ → Bool
same_bytes zero xs ys = true
same_bytes (suc n) xs ys = byte_at xs 0 == byte_at ys 0 && same_bytes n (drop 1 xs) (drop 1 ys)

pub same_bytes-take :
    (n : ℕ) (xs ys : List ℕ)
    → n ≤ length xs
    → n ≤ length ys
    → same_bytes n xs ys ≡ true
    → take n xs ≡ take n ys
unfolding same_bytes
same_bytes-take zero xs ys p q h = refl
same_bytes-take (suc n) [] ys p q h = absurd (omega arith)
same_bytes-take (suc n) (x ∷ xs) [] p q h = absurd (omega arith)
same_bytes-take (suc n) (x ∷ xs) (y ∷ ys) p q h =
    ground (arith, same_bytes-take n xs ys (omega arith) (omega arith))

pub same_bytes-append : (xs ys : List ℕ) → same_bytes (length xs) (xs ++ ys) xs ≡ true
unfolding same_bytes
same_bytes-append [] ys = refl
same_bytes-append (x ∷ xs) ys = ground (arith, same_bytes-append xs ys)

pub drop-eq-cons :
    (xs : List ℕ) (n : ℕ) → n < length xs → drop n xs ≡ byte_at xs n ∷ drop (suc n) xs
drop-eq-cons [] n h = absurd (omega arith)
drop-eq-cons (x ∷ xs) zero h = refl
drop-eq-cons (x ∷ xs) (suc n) h = drop-eq-cons xs n (omega arith)

-- Two lists of one length with one more element each.
pub snoc_parts :
    (xs ys : List ℕ) (x y : ℕ)
    → length xs ≡ length ys
    → xs ++ (x ∷ []) ≡ ys ++ (y ∷ [])
    → (xs ≡ ys) × (x ≡ y)
snoc_parts [] [] x y h e = (refl, ap (λ t. byte_at t 0) e)
snoc_parts [] (w ∷ ys) x y h e = absurd (omega arith)
snoc_parts (v ∷ xs) [] x y h e = absurd (omega arith)
snoc_parts (v ∷ xs) (w ∷ ys) x y h e =
    let (rest, last) = snoc_parts xs ys x y (omega arith) (ap (drop 1) e) in
    (ap₂ ◌∷◌ (ap (λ t. byte_at t 0) e) rest, last)
