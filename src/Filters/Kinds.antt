-- ===== src/Filters/Kinds.antt =====
-- What `uc2_detect_content` of lib/src/uc2_preprocess.c decides, said by prefixes, sets of bytes and
-- shares of the bytes that are looked at.
use uc.Common.{
  ℕ, zero, suc, ◌+◌, ◌*◌, ◌/◌, ◌≤◌, ◌≡◌, refl, sym, ap, ◌∙◌, Bool, true, false, ◌&&◌, ◌||◌, List,
  [], ◌∷◌, ltb, leb, ◌==◌, if◌then◌else◌, length, take, length-take, arith, Bool-cases, inl, inr,
  ltb→lt, ltb_false→le, take_all,
}
use native.Mathlib.Nat.{div-lt_iff_lt-mul}
use uc.Filters.Content.{
  Content, binary, text, x86, structured, is_printable, is_zero, count_bytes, is_program, classify,
  check_len, detect_content,
}

unfoldable pub starts_with : List ℕ → List ℕ → Bool
starts_with [] bytes = true
starts_with (p ∷ ps) [] = false
starts_with (p ∷ ps) (b ∷ bytes) = b == p && starts_with ps bytes

unfoldable pub is_in : List ℕ → ℕ → Bool
is_in [] b = false
is_in (c ∷ codes) b = b == c || is_in codes b

-- How many of the bytes are in the set.
unfoldable pub count_in : List ℕ → List ℕ → ℕ
count_in codes [] = 0
count_in codes (b ∷ bytes) = (if is_in codes b then 1 else 0) + count_in codes bytes

-- `n` codes from `start` on.
unfoldable pub codes_from : ℕ → ℕ → List ℕ
codes_from start zero = []
codes_from start (suc n) = start ∷ codes_from (start + 1) n

-- Tab, line feed, carriage return, and the 95 characters of ASCII from the space on.
unfoldable pub text_codes : List ℕ
text_codes = 9 ∷ 10 ∷ 13 ∷ codes_from 32 95

abbrev pub dos_program : List ℕ
dos_program = b'M' ∷ b'Z' ∷ []

abbrev pub elf_program : List ℕ
elf_program = 0x7f ∷ b'E' ∷ b'L' ∷ b'F' ∷ []

-- At least `percent` of a hundred.
abbrev pub has_share : ℕ → ℕ → ℕ → Bool
has_share percent part whole = leb (percent * whole) (100 * part)

-- The kind of an input, of which 4096 bytes are seen.
unfoldable pub content_kind : List ℕ → Content
content_kind bytes =
    let seen = take 4096 bytes in
    if ltb (length bytes) 4
    then binary
    else if starts_with dos_program bytes || starts_with elf_program bytes
    then x86
    else if has_share 86 (count_in text_codes seen) (length seen)
    then text
    else if leb 64 (length bytes) && has_share 21 (count_in (0 ∷ []) seen) (length seen)
    then structured
    else binary

is_in-codes_from :
    (start n b : ℕ) → is_in (codes_from start n) b ≡ (leb start b && ltb b (start + n))
unfolding is_in codes_from
is_in-codes_from start zero b = ground arith
is_in-codes_from start (suc n) b = ground (arith, is_in-codes_from (start + 1) n b)

is_in-text_codes : (b : ℕ) → is_in text_codes b ≡ is_printable b
unfolding is_in text_codes
is_in-text_codes b = ground (arith, is_in-codes_from 32 95 b)

is_in-zero : (b : ℕ) → is_in (0 ∷ []) b ≡ is_zero b
unfolding is_in
is_in-zero b = ground arith

count_in-count_bytes :
    (codes : List ℕ) (test : ℕ → Bool) (same : (b : ℕ) → is_in codes b ≡ test b) (n : ℕ)
    (bytes : List ℕ)
    → count_bytes test n bytes ≡ count_in codes (take n bytes)
unfolding count_in count_bytes
count_in-count_bytes codes test same zero bytes = refl
count_in-count_bytes codes test same (suc n) [] = refl
count_in-count_bytes codes test same (suc n) (b ∷ bytes) =
    rw (same b, count_in-count_bytes codes test same n bytes) refl

-- The quotient that is rounded down is above a bound exactly if the share is.
share_above :
    (bound part whole : ℕ)
    → 1 ≤ whole
    → ltb bound (part * 100 / whole) ≡ has_share (bound + 1) part whole
share_above bound part whole h =
    ground (arith, div-lt_iff_lt-mul {k = whole} {x = part * 100} {y = bound + 1} h)

start_of-program :
    (bytes : List ℕ)
    → 4 ≤ length bytes
    → is_program bytes ≡ (starts_with dos_program bytes || starts_with elf_program bytes)
unfolding starts_with
start_of-program [] h = absurd (omega arith)
start_of-program (a ∷ []) h = absurd (omega arith)
start_of-program (a ∷ b ∷ []) h = absurd (omega arith)
start_of-program (a ∷ b ∷ c ∷ []) h = absurd (omega arith)
start_of-program (a ∷ b ∷ c ∷ d ∷ rest) h = ground arith

-- The bytes that are looked at.
seen_first : (bytes : List ℕ) → take (check_len (length bytes)) bytes ≡ take 4096 bytes
unfolding check_len
seen_first bytes = elim (Bool-cases (ltb 4096 (length bytes))) [
  | inl long ↦ rw long refl
  | inr short ↦
      let few = ltb_false→le 4096 (length bytes) short in
      rw short (take_all (length bytes) bytes (omega arith) ∙ sym (take_all 4096 bytes few))
]

seen_length : (bytes : List ℕ) → check_len (length bytes) ≡ length (take 4096 bytes)
unfolding check_len
seen_length bytes = elim (Bool-cases (ltb 4096 (length bytes))) [
  | inl long ↦ rw long (omega (arith, length-take 4096 bytes, ltb→lt 4096 (length bytes) long))
  | inr short ↦
      rw short (omega (arith, length-take 4096 bytes, ltb_false→le 4096 (length bytes) short))
]

seen_count :
    (codes : List ℕ) (test : ℕ → Bool) (same : (b : ℕ) → is_in codes b ≡ test b) (bytes : List ℕ)
    → count_bytes test (check_len (length bytes)) bytes ≡ count_in codes (take 4096 bytes)
seen_count codes test same bytes =
    count_in-count_bytes codes test same (check_len (length bytes)) bytes
    ∙ ap (count_in codes) (seen_first bytes)

-- detect_content of any input is binary for fewer than four bytes; else x86 if it starts with MZ
-- or with the four bytes of an ELF file; else text if at least 86 percent of its first 4096 bytes
-- are tabs, line feeds, carriage returns or one of the 95 characters of ASCII from the space on;
-- else structured if it has 64 bytes or more and at least 21 percent of its first 4096 bytes are
-- zero; else binary.
pub detect_content-kinds : (bytes : List ℕ) → detect_content bytes ≡ content_kind bytes
unfolding detect_content classify content_kind
detect_content-kinds bytes = elim (Bool-cases (ltb (length bytes) 4)) [
  | inl few ↦ rw few refl
  | inr enough ↦
      let long = ltb_false→le (length bytes) 4 enough in
      let check = check_len (length bytes) in
      let some_bytes : 1 ≤ length (take 4096 bytes) = omega (arith, length-take 4096 bytes) in
      rw
        (
          enough,
          start_of-program bytes long,
          seen_count text_codes is_printable is_in-text_codes bytes,
          seen_count (0 ∷ []) is_zero is_in-zero bytes,
          seen_length bytes,
          share_above 85 (count_in text_codes (take 4096 bytes)) (length (take 4096 bytes))
              some_bytes,
          share_above 20 (count_in (0 ∷ []) (take 4096 bytes)) (length (take 4096 bytes))
              some_bytes,
        )
        refl
]
