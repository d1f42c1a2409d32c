-- ===== src/Filters/Content.antt =====
-- `uc2_detect_content`, lib/src/uc2_preprocess.c.
use uc.Common.{
  ℕ, zero, suc, ◌+◌, ◌*◌, ◌/◌, ◌≤◌, ◌≡◌, refl, ap, Bool, ◌&&◌, ◌||◌, List, [], ◌∷◌, ltb, leb, ◌==◌,
  if◌then◌else◌, length, take, length-take, arith, Bool-cases, inl, inr, ltb→lt, le→leb, take_all,
  le→ltb_false,
}
use uc.Common.Words.{byte_at}

-- The `UC2_CONTENT_*` codes that the function returns.
pub data Content : Type 0 where
  binary text x86 structured : Content

abbrev pub is_printable : ℕ → Bool
is_printable b = (leb 32 b && leb b 126) || (b == 10 || (b == 13 || b == 9))

abbrev pub is_zero : ℕ → Bool
is_zero b = b == 0

-- How many of the first `n` bytes pass the test.
unfoldable pub count_bytes : (ℕ → Bool) → ℕ → List ℕ → ℕ
count_bytes test zero bytes = 0
count_bytes test (suc n) [] = 0
count_bytes test (suc n) (b ∷ rest) = (if test b then 1 else 0) + count_bytes test n rest

-- The signatures of DOS and ELF programs.
abbrev pub is_program : List ℕ → Bool
is_program bytes =
    (byte_at bytes 0 == b'M' && byte_at bytes 1 == b'Z')
    || (byte_at bytes 0 == 0x7f
        && (byte_at bytes 1 == b'E' && (byte_at bytes 2 == b'L' && byte_at bytes 3 == b'F')))

-- The decision for an input of `len` bytes of which `check` are looked at.
unfoldable pub classify : ℕ → ℕ → List ℕ → Content
classify len check bytes =
    if ltb len 4
    then binary
    else if is_program bytes
    then x86
    else if ltb 85 (count_bytes is_printable check bytes * 100 / check)
    then text
    else if leb 64 len && ltb 20 (count_bytes is_zero check bytes * 100 / check)
    then structured
    else binary

-- `len > 4096 ? 4096 : len`
unfoldable pub check_len : ℕ → ℕ
check_len len = if ltb 4096 len then 4096 else len

unfoldable pub detect_content : List ℕ → Content
detect_content bytes = classify (length bytes) (check_len (length bytes)) bytes

byte_at-take : (n i : ℕ) (xs : List ℕ) → suc i ≤ n → byte_at (take n xs) i ≡ byte_at xs i
byte_at-take zero i xs h = absurd (omega arith)
byte_at-take (suc n) i [] h = refl
byte_at-take (suc n) zero (x ∷ xs) h = refl
byte_at-take (suc n) (suc i) (x ∷ xs) h = byte_at-take n i xs (omega arith)

count_bytes-take :
    (test : ℕ → Bool) (n m : ℕ) (xs : List ℕ)
    → n ≤ m
    → count_bytes test n (take m xs) ≡ count_bytes test n xs
unfolding count_bytes
count_bytes-take test zero m xs h = refl
count_bytes-take test (suc n) zero xs h = absurd (omega arith)
count_bytes-take test (suc n) (suc m) [] h = refl
count_bytes-take test (suc n) (suc m) (x ∷ xs) h =
    ap (λ k. (if test x then 1 else 0) + k) (count_bytes-take test n m xs (omega arith))

classify-take :
    (limit len check : ℕ) (bytes : List ℕ)
    → 64 ≤ limit
    → 64 ≤ len
    → check ≤ limit
    → classify limit check (take limit bytes) ≡ classify len check bytes
unfolding classify
classify-take limit len check bytes p q r =
    rw
      (
        byte_at-take limit 0 bytes (omega arith),
        byte_at-take limit 1 bytes (omega arith),
        byte_at-take limit 2 bytes (omega arith),
        byte_at-take limit 3 bytes (omega arith),
        count_bytes-take is_printable check limit bytes r,
        count_bytes-take is_zero check limit bytes r,
        le→ltb_false limit 4 (omega arith),
        le→ltb_false len 4 (omega arith),
        le→leb 64 limit p,
        le→leb 64 len q,
      )
      refl

-- The first 4096 bytes alone have the same kind of content as the whole input.
pub detect_content-take : (bytes : List ℕ) → detect_content (take 4096 bytes) ≡ detect_content bytes
unfolding detect_content check_len
detect_content-take bytes = elim (Bool-cases (ltb 4096 (length bytes))) [
  | inl long ↦
      let big : 4096 ≤ length bytes = omega (arith, ltb→lt 4096 (length bytes) long) in
      let size : length (take 4096 bytes) ≡ 4096 = omega (arith, length-take 4096 bytes) in
      rw (size, long)
        (classify-take 4096 (length bytes) 4096 bytes (omega arith) (omega arith) (omega arith))
  | inr short ↦ ap detect_content (take_all 4096 bytes (ground arith))
]
