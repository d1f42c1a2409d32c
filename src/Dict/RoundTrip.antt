-- ===== src/Dict/RoundTrip.antt =====
-- A dictionary that is created, checked, written and read again (lib/src/uc2_dict.c).
use uc.Common.{
  ℕ, ◌+◌, ◌*◌, ◌/◌, ◌^◌, ◌<◌, ◌≡◌, refl, ap, ◌∙◌, sym, Bool, true, not, List, [], ◌∷◌, ◌++◌, leb,
  ◌==◌, length, take, drop, arith, bit_or, bit_xor, take_all, take-append, append_assoc,
  length-append,
}
use uc.Common.Bits.{bit_or_byte, zero-bit_or}
use uc.Common.Words.{u8, u32, u64, bytes32, word32, word32-bytes32, ◌<<<◌, ◌>>>◌}
use uc.Common.Result.{ok, require_then-eq-ok}
use uc.Cdc.Chunker.{fnv1a, fnv1a_from}
use uc.Merkle.Tree.{hash64, hash64_from, bytes64}
use uc.Dict.Store.{
  dict_magic, minus_one, Dict, word64_from, word64, dict_create, dict_verify, dict_header,
  dict_serialize, dict_deserialize,
}
use mathlib.Core.Path.{subst}

hash64_from-lt : (h : ℕ) (xs : List ℕ) → h < 2 ^ 64 → hash64_from h xs < 2 ^ 64
unfolding hash64_from
hash64_from-lt h [] p = p
hash64_from-lt h (x ∷ xs) p = hash64_from-lt (u64 (bit_xor h x * 1099511628211)) xs (omega arith)

fnv1a_from-lt : (h : ℕ) (xs : List ℕ) → h < 2 ^ 32 → fnv1a_from h xs < 2 ^ 32
unfolding fnv1a_from
fnv1a_from-lt h [] p = p
fnv1a_from-lt h (x ∷ xs) p = fnv1a_from-lt (u32 (bit_xor h x * 16777619)) xs (omega arith)

shift_in : (x y : ℕ) → y ≡ x / 256 → x < 2 ^ 64 → bit_or (u64 (y <<< 8)) (u8 x) ≡ x
shift_in x y e h =
    let kept : u64 (y <<< 8) ≡ y * 2 ^ 8 = omega arith in
    rw kept (bit_or_byte 8 y (u8 x) (omega arith) ∙ omega arith)

word64-bytes64 : (v : ℕ) (rest : List ℕ) → v < 2 ^ 64 → word64 (bytes64 v ++ rest) ≡ v
unfolding word64 word64_from bytes64
word64-bytes64 v rest h =
    let top : bit_or 0 (u8 (v >>> 56)) ≡ v >>> 56 = zero-bit_or (u8 (v >>> 56)) ∙ omega arith in
    rw
      (
        top,
        shift_in (v >>> 48) (v >>> 56) (omega arith) (omega arith),
        shift_in (v >>> 40) (v >>> 48) (omega arith) (omega arith),
        shift_in (v >>> 32) (v >>> 40) (omega arith) (omega arith),
        shift_in (v >>> 24) (v >>> 32) (omega arith) (omega arith),
        shift_in (v >>> 16) (v >>> 24) (omega arith) (omega arith),
        shift_in (v >>> 8) (v >>> 16) (omega arith) (omega arith),
        shift_in v (v >>> 8) (omega arith) h,
      )
      refl

-- A dictionary whose fields fit their types.
pub record IsDict (d : Dict) : Type 0 where
  pub id_fits : d.id < 2 ^ 64
  pub checksum_fits : d.checksum < 2 ^ 32
  pub size_is : d.size ≡ length d.content

-- The fields, where the reader looks for them.
header_fields :
    (d : Dict) (rest : List ℕ)
    → d.id < 2 ^ 64
    → d.checksum < 2 ^ 32
    → d.size < 2 ^ 32
    → (word32 (dict_header d ++ rest) ≡ dict_magic)
      × (word64 (drop 4 (dict_header d ++ rest)) ≡ d.id)
      × (word32 (drop 12 (dict_header d ++ rest)) ≡ d.checksum)
      × (word32 (drop 16 (dict_header d ++ rest)) ≡ d.size)
      × (drop 24 (dict_header d ++ rest) ≡ rest)
      × (length (dict_header d ++ rest) ≡ 24 + length rest)
unfolding dict_header bytes32 bytes64
header_fields d rest p q r = (
  word32-bytes32 dict_magic _ (omega arith),
  word64-bytes64 d.id _ p,
  word32-bytes32 d.checksum _ q,
  word32-bytes32 d.size _ r,
  refl,
  omega arith,
)

-- If dict_serialize succeeds on a dictionary whose fields fit their types and whose size is the
-- length of its content, dict_deserialize on the bytes, followed by any others, returns the
-- dictionary, provided that its memory is granted.
pub dict_deserialize-dict_serialize :
    (alloc alloc' : ℕ → Bool) (d : Dict) (bytes more : List ℕ)
    → IsDict d
    → dict_serialize alloc d ≡ ok bytes
    → alloc' d.size ≡ true
    → dict_deserialize alloc' (bytes ++ more) ≡ ok d
unfolding dict_serialize dict_deserialize
dict_deserialize-dict_serialize alloc alloc' d bytes more fit e given =
    let (small, e₁) = require_then-eq-ok (leb d.size (2 ^ 30)) minus_one _ e in
    let (had, e₂) = require_then-eq-ok (alloc (24 + d.size)) minus_one _ e₁ in
    let size_is = fit.size_is in
    let whole : take d.size d.content ≡ d.content = take_all d.size d.content (omega arith) in
    let shape : dict_header d ++ (d.content ++ more) ≡ bytes ++ more =
      sym (append_assoc (dict_header d) d.content more)
      ∙ ap (λ c. (dict_header d ++ c) ++ more) (sym whole)
      ∙ ap (λ b. b ++ more) (cc e₂) in
    let (magic, id, checksum, size, rest, len) =
      header_fields d (d.content ++ more) fit.id_fits fit.checksum_fits (ground arith) in
    let front : take d.size (d.content ++ more) ≡ d.content =
      ap (λ n. take n (d.content ++ more)) size_is ∙ take-append d.content more in
    rw (← shape, magic, id, checksum, size, rest, len, front, given)
      (ground (arith, length-append d.content more))

-- A dictionary that dict_create makes of fewer than 2^32 bytes has fields that fit their types and
-- a size that is the length of its content, passes dict_verify, and holds the bytes.
pub dict_verify-dict_create :
    (alloc : ℕ → Bool) (bytes : List ℕ) (d : Dict)
    → length bytes < 2 ^ 32
    → dict_create alloc bytes ≡ ok d
    → IsDict d × (dict_verify d ≡ true) × (d.content ≡ bytes)
unfolding dict_create dict_verify hash64 fnv1a
dict_verify-dict_create alloc bytes d small e =
    let (some_bytes, e₁) = require_then-eq-ok (not (length bytes == 0)) minus_one _ e in
    let (had, e₂) = require_then-eq-ok (alloc (length bytes)) minus_one _ e₁ in
    let made : Dict = record {
      id = hash64 bytes;
      checksum = fnv1a bytes;
      size = u32 (length bytes);
      content = bytes;
    } in
    let same : made ≡ d = cc e₂ in
    let size : u32 (length bytes) ≡ length bytes = omega arith in
    let whole : take (u32 (length bytes)) bytes ≡ bytes =
      take_all (u32 (length bytes)) bytes (omega arith) in
    subst (λ x. IsDict x × (dict_verify x ≡ true) × (x.content ≡ bytes)) same
      (
        record {
          id_fits = hash64_from-lt 14695981039346656037 bytes (omega arith);
          checksum_fits = fnv1a_from-lt 2166136261 bytes (omega arith);
          size_is = size;
        },
        rw whole (ground arith),
        refl,
      )
