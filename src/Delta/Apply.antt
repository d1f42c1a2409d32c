-- ===== src/Delta/Apply.antt =====
-- `uc2_delta_apply`, lib/src/uc2_delta.c. `rest` is what lies at `delta + dpos`, `out` the first
-- `tpos` bytes of the target. Null pointers are not modelled.
use uc.Common.{
  ℕ, zero, suc, ◌-◌, Bool, ◌&&◌, List, [], ◌∷◌, ◌++◌, leb, ◌==◌, if◌then◌else◌, length, take, drop,
  slice,
}
use uc.Common.Result.{Result, ok, err, stuck, ◌>>=◌, ◌>>◌, require}
use uc.Common.Words.{same_bytes, word32}
use uc.Delta.Obuf.{Failure, minus_one}

-- The unread instructions and the bytes written.
abbrev pub Progress : Type 0
Progress = List ℕ × List ℕ

unfoldable pub apply_copy : List ℕ → ℕ → List ℕ → List ℕ → Result Failure Progress
apply_copy src tgt_len rest out =
    let offset = word32 rest in
    let len = word32 (drop 4 rest) in
    do
      require (leb 8 (length rest)) minus_one
      require (leb offset (length src) && leb len (length src - offset)) minus_one
      require (leb len (tgt_len - length out)) minus_one
      ok (drop 8 rest, out ++ slice src offset len)

unfoldable pub apply_insert : ℕ → List ℕ → List ℕ → Result Failure Progress
apply_insert tgt_len rest out =
    let len = word32 rest in
    do
      require (leb 4 (length rest)) minus_one
      require (leb len (length rest - 4)) minus_one
      require (leb len (tgt_len - length out)) minus_one
      ok (drop len (drop 4 rest), out ++ take len (drop 4 rest))

unfoldable pub apply_op : List ℕ → ℕ → ℕ → List ℕ → List ℕ → Result Failure Progress
apply_op src tgt_len op rest out =
    if op == 0x01
    then apply_copy src tgt_len rest out
    else if op == 0x02
    then apply_insert tgt_len rest out
    else err minus_one

-- Every instruction takes a byte at least, so the length of the delta is fuel enough.
unfoldable pub apply_ops : ℕ → List ℕ → ℕ → List ℕ → List ℕ → Result Failure (List ℕ)
apply_ops fuel src tgt_len [] out = err minus_one
apply_ops zero src tgt_len (op ∷ rest) out = stuck
apply_ops (suc fuel) src tgt_len (op ∷ rest) out =
    let more =
      apply_op src tgt_len op rest out >>= λ (rest', out'). apply_ops fuel src tgt_len rest' out' in
    if op == 0x00
    then (if length out == tgt_len && length rest == 0 then ok out else err minus_one)
    else more

unfoldable pub apply : (ℕ → Bool) → List ℕ → List ℕ → Result Failure (List ℕ)
apply alloc src delta =
    let tgt_len = word32 (drop 4 delta) in
    do
      require (leb 9 (length delta)) minus_one
      require (same_bytes 4 delta (b'U' ∷ b'C' ∷ b'2' ∷ b'D' ∷ [])) minus_one
      require (alloc (if tgt_len == 0 then 1 else tgt_len)) minus_one
      apply_ops (length delta) src tgt_len (drop 8 delta) []
