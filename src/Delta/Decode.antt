-- ===== src/Delta/Decode.antt =====
-- `uc2_delta_apply` on any input, well formed or not.
use uc.Common.{
  ℕ, zero, suc, ◌≤◌, ◌≡◌, List, [], ◌∷◌, Bool, ◌==◌, length, take, drop, slice, arith,
  length-append, length-drop, length-take, ◌≢◌, Bool-cases, inl, inr,
}
use uc.Common.Result.{ok, stuck, >>=-eq-ok, >>=-ne-stuck}
use uc.Common.Words.{word32}
use uc.Delta.Apply.{apply_copy, apply_insert, apply_op, apply_ops, apply, Progress}

module _ (src : List ℕ) (tgt_len : ℕ) where
  apply_copy_moves :
      (rest out rest' out' : List ℕ)
      → length out ≤ tgt_len
      → apply_copy src tgt_len rest out ≡ ok (rest', out')
      → (length rest' ≤ length rest) × (length out' ≤ tgt_len)
  unfolding apply_copy
  apply_copy_moves rest out rest' out' room e = ground (
    arith,
    length-drop 8 rest,
    length-append out (slice src (word32 rest) (word32 (drop 4 rest))),
    length-take (word32 (drop 4 rest)) (drop (word32 rest) src),
  )

  apply_insert_moves :
      (rest out rest' out' : List ℕ)
      → length out ≤ tgt_len
      → apply_insert tgt_len rest out ≡ ok (rest', out')
      → (length rest' ≤ length rest) × (length out' ≤ tgt_len)
  unfolding apply_insert
  apply_insert_moves rest out rest' out' room e = ground (
    arith,
    length-drop (word32 rest) (drop 4 rest),
    length-drop 4 rest,
    length-append out (take (word32 rest) (drop 4 rest)),
    length-take (word32 rest) (drop 4 rest),
  )

  -- A copy or an insert moves on in the delta, and writes inside the target that was allocated.
  apply_op_moves :
      (op : ℕ) (rest out rest' out' : List ℕ)
      → length out ≤ tgt_len
      → apply_op src tgt_len op rest out ≡ ok (rest', out')
      → (length rest' ≤ length rest) × (length out' ≤ tgt_len)
  unfolding apply_op
  apply_op_moves op rest out rest' out' room e = ground (
    arith,
    apply_copy_moves rest out rest' out' room,
    apply_insert_moves rest out rest' out' room,
  )

  apply_op-ne-stuck : (op : ℕ) (rest out : List ℕ) → apply_op src tgt_len op rest out ≢ stuck
  unfolding apply_op apply_copy apply_insert
  apply_op-ne-stuck op rest out e = ground arith

  apply_ops-ne-stuck :
      (fuel : ℕ) (rest out : List ℕ)
      → length out ≤ tgt_len
      → length rest ≤ fuel
      → apply_ops fuel src tgt_len rest out ≢ stuck
  unfolding apply_ops
  apply_ops-ne-stuck zero [] out room enough e = cc
  apply_ops-ne-stuck (suc fuel) [] out room enough e = cc
  apply_ops-ne-stuck zero (op ∷ rest) out room enough e = absurd (omega arith)
  apply_ops-ne-stuck (suc fuel) (op ∷ rest) out room enough e = ground (
    arith,
    >>=-ne-stuck (apply_op src tgt_len op rest out)
        (λ (p : Progress). apply_ops fuel src tgt_len p.0 p.1) (apply_op-ne-stuck op rest out)
        (λ p step.
          let (shorter, inside) = apply_op_moves op rest out p.0 p.1 room step in
          apply_ops-ne-stuck fuel p.0 p.1 inside (omega arith)),
  )

  length-apply_ops :
      (fuel : ℕ) (rest out tgt : List ℕ)
      → apply_ops fuel src tgt_len rest out ≡ ok tgt
      → length tgt ≡ tgt_len
  unfolding apply_ops
  length-apply_ops zero [] out tgt e = cc
  length-apply_ops (suc fuel) [] out tgt e = cc
  length-apply_ops zero (op ∷ rest) out tgt e = cc
  length-apply_ops (suc fuel) (op ∷ rest) out tgt e = elim (Bool-cases (op == 0)) [
    | inl stop ↦ ground (arith, rw stop at e)
    | inr more ↦
        let (p, _, rec) =
          >>=-eq-ok (apply_op src tgt_len op rest out)
            (λ (p : Progress). apply_ops fuel src tgt_len p.0 p.1) (rw more at e) in
        length-apply_ops fuel p.0 p.1 tgt rec
  ]

-- On any source and any delta, malformed ones included, apply ends with a result or with -1.
pub apply-ne-stuck : (alloc : ℕ → Bool) (src delta : List ℕ) → apply alloc src delta ≢ stuck
unfolding apply
apply-ne-stuck alloc src delta e = ground (
  arith,
  apply_ops-ne-stuck src (word32 (drop 4 delta)) (length delta) (drop 8 delta) [],
  length-drop 8 delta,
)

-- A target that apply returns is as long as the header of the delta declares.
pub length-apply :
    (alloc : ℕ → Bool) (src delta tgt : List ℕ)
    → apply alloc src delta ≡ ok tgt
    → length tgt ≡ word32 (drop 4 delta)
unfolding apply
length-apply alloc src delta tgt e =
    length-apply_ops src (word32 (drop 4 delta)) (length delta) (drop 8 delta) [] tgt (ground arith)
