-- ===== src/Delta/Instr.antt =====
-- The delta format of lib/include/uc2/uc2_delta.h as a language: instructions, their bytes, the text
-- that each stands for, and `apply` as their interpreter.
use uc.Common.{
  ℕ, zero, suc, ◌+◌, ◌*◌, ◌^◌, ◌≤◌, ◌<◌, ◌≡◌, refl, List, [], ◌∷◌, ◌++◌, length, slice, arith, ◌∙◌,
  ap, append_assoc, append-nil, length-append, take-append, drop-append, All, length-slice,
}
use uc.Common.Result.{ok}
use uc.Common.Words.{
  bytes32, word32-bytes32, drop-bytes32, drop-bytes32_twice, length-bytes32_append, length-bytes32,
}
use uc.Delta.Apply.{apply_copy, apply_insert, apply_op, apply_ops}

pub data Instr : Type 0 where
  copy : ℕ → ℕ → Instr
  insert : List ℕ → Instr

unfoldable pub code : Instr → List ℕ
code (copy offset len) = 0x01 ∷ (bytes32 offset ++ bytes32 len)
code (insert xs) = 0x02 ∷ (bytes32 (length xs) ++ xs)

-- What an instruction writes.
unfoldable pub text : List ℕ → Instr → List ℕ
text src (copy offset len) = slice src offset len
text src (insert xs) = xs

-- The operands fit their fields, and a copy stays in the source.
abbrev pub IsEncodable : List ℕ → Instr → Type 0
IsEncodable src (copy offset len) = (offset < 2 ^ 32) × (len < 2 ^ 32) × (offset + len ≤ length src)
IsEncodable src (insert xs) = length xs < 2 ^ 32

unfoldable pub codes : List Instr → List ℕ
codes [] = []
codes (i ∷ is) = code i ++ codes is

unfoldable pub texts : List ℕ → List Instr → List ℕ
texts src [] = []
texts src (i ∷ is) = text src i ++ texts src is

pub codes-append : (is js : List Instr) → codes (is ++ js) ≡ codes is ++ codes js
unfolding codes
codes-append [] js = refl
codes-append (i ∷ is) js = simp (codes-append is js, append_assoc)

pub texts-append :
    (src : List ℕ) (is js : List Instr) → texts src (is ++ js) ≡ texts src is ++ texts src js
unfolding texts
texts-append src [] js = refl
texts-append src (i ∷ is) js = simp (texts-append src is js, append_assoc)

module _ (src : List ℕ) (tgt_len : ℕ) where
  apply_copy-code :
      (offset len : ℕ) (rest out : List ℕ)
      → IsEncodable src (copy offset len)
      → length out + len ≤ tgt_len
      → apply_copy src tgt_len (bytes32 offset ++ (bytes32 len ++ rest)) out
        ≡ ok (rest, out ++ slice src offset len)
  unfolding apply_copy
  apply_copy-code offset len rest out h room =
      rw
        (
          word32-bytes32 offset (bytes32 len ++ rest) h.0,
          drop-bytes32 offset (bytes32 len ++ rest),
          word32-bytes32 len rest h.1,
          drop-bytes32_twice offset len rest,
        )
        (ground (
          arith,
          length-bytes32_append offset (bytes32 len ++ rest),
          length-bytes32_append len rest,
        ))

  apply_insert-code :
      (xs rest out : List ℕ)
      → length xs < 2 ^ 32
      → length out + length xs ≤ tgt_len
      → apply_insert tgt_len (bytes32 (length xs) ++ (xs ++ rest)) out ≡ ok (rest, out ++ xs)
  unfolding apply_insert
  apply_insert-code xs rest out h room =
      rw
        (
          word32-bytes32 (length xs) (xs ++ rest) h,
          drop-bytes32 (length xs) (xs ++ rest),
          drop-append xs rest,
          take-append xs rest,
        )
        (ground (arith, length-bytes32_append (length xs) (xs ++ rest), length-append xs rest))

  -- One round of the interpreter on an instruction that fits.
  apply_ops-code :
      (fuel : ℕ) (i : Instr) (rest out : List ℕ)
      → IsEncodable src i
      → length out + length (text src i) ≤ tgt_len
      → apply_ops (suc fuel) src tgt_len (code i ++ rest) out
        ≡ apply_ops fuel src tgt_len rest (out ++ text src i)
  unfolding apply_ops apply_op code text
  apply_ops-code fuel (copy offset len) rest out h room = rw (
    append_assoc (bytes32 offset) (bytes32 len) rest,
    apply_copy-code offset len rest out h (omega (arith, length-slice src offset len h.2)),
  )
  apply_ops-code fuel (insert xs) rest out h room =
      rw (append_assoc (bytes32 (length xs)) xs rest, apply_insert-code xs rest out h room)

  -- A program that fits writes the text of its instructions.
  pub apply_ops-codes :
      (is : List Instr) (fuel : ℕ) (out : List ℕ)
      → All (IsEncodable src) is
      → length is < fuel
      → length out + length (texts src is) ≡ tgt_len
      → apply_ops fuel src tgt_len (codes is ++ (0x00 ∷ [])) out ≡ ok (out ++ texts src is)
  unfolding codes texts
  apply_ops-codes is zero out h enough total = absurd (omega arith)
  apply_ops-codes [] (suc fuel) out h enough total =
      unfold apply_ops apply_op in rw append-nil (ground arith)
  apply_ops-codes (i ∷ is) (suc fuel) out h enough total =
      rw (append_assoc (code i) (codes is) (0x00 ∷ [])) (
        apply_ops-code fuel i (codes is ++ (0x00 ∷ [])) out h.0 (omega (arith, here))
        ∙ apply_ops-codes is fuel (out ++ text src i) h.1 (omega arith)
            (omega (arith, here, length-append out (text src i)))
        ∙ ap ok (append_assoc out (text src i) (texts src is)))
    where
      here : length out + length (text src i) + length (texts src is) ≡ tgt_len
      here = omega (arith, total, length-append (text src i) (texts src is))

-- Each instruction takes at least five bytes.
pub length-codes : (is : List Instr) → 5 * length is ≤ length (codes is)
unfolding codes code
length-codes [] = omega arith
length-codes (copy offset len ∷ is) = omega (
  arith,
  length-append (bytes32 offset ++ bytes32 len) (codes is),
  length-bytes32_append offset (bytes32 len),
  length-bytes32 len,
  length-codes is,
)
length-codes (insert xs ∷ is) = omega (
  arith,
  length-append (bytes32 (length xs) ++ xs) (codes is),
  length-bytes32_append (length xs) xs,
  length-codes is,
)
