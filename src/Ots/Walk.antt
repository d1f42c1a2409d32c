-- ===== src/Ots/Walk.antt =====
-- `uc2_ots_walk` and the functions that it calls, lib/src/uc2_ots.c. `rest` is what lies between
-- `w->p` and `w->end`; the calls of the callback are kept in order. SHA-256 comes by an interface.
use uc.Common.{
  ℕ, zero, suc, ◌+◌, ◌*◌, ◌≡◌, Bool, true, false, List, [], ◌∷◌, ◌++◌, leb, ◌==◌, if◌then◌else◌,
  length, take, drop, not,
}
use uc.Common.Result.{Result, ok, err, stuck, ◌>>=◌, ◌>>◌, require}
use uc.Ots.Codes.{
  OtsError, truncated, overflow, too_deep, too_large, bad_op, op_append, op_prepend, op_reverse,
  op_hexlify, op_sha1, op_ripemd160, op_sha256, op_keccak256, op_branch, op_attestation, tag_len,
  max_digest_len, max_depth,
}
use uc.Ots.Varint.{read_varbytes}

-- `uc2_sha256_hash`.
pub record Sha : Type 0 where
  pub sha256 : List ℕ → List ℕ
  pub length-sha256 : (xs : List ℕ) → length (sha256 xs) ≡ 32

-- One call of the callback: tag, payload and the digest that is attested.
pub record Attestation : Type 0 where
  pub tag : List ℕ
  pub payload : List ℕ
  pub digest : List ℕ

pub record Walker : Type 0 where
  pub rest : List ℕ
  pub seen : List Attestation
  pub has_unsupported_op : Bool

-- `UC2_OTS_RESULT_VERIFIED` and `UC2_OTS_RESULT_STRUCTURAL`.
pub data Verdict : Type 0 where
  verified structural : Verdict

abbrev pub is_unsupported : ℕ → Bool
is_unsupported op =
    if op == op_sha1
    then true
    else if op == op_ripemd160
    then true
    else if op == op_keccak256
    then true
    else if op == op_reverse
    then true
    else op == op_hexlify

-- The case of `UC2_OTS_OP_APPEND` and `UC2_OTS_OP_PREPEND`.
unfoldable pub apply_binary : Walker → ℕ → List ℕ → Result OtsError (List ℕ × Walker)
apply_binary w op digest = do
  (operand, consumed) ← read_varbytes w.rest
  require (leb (length digest + length operand) max_digest_len) too_large
  let w' : Walker = record w { rest = drop consumed w.rest }
  ok (if op == op_append then digest ++ operand else operand ++ digest, w')

module _ (sha : Sha) (cb : Attestation → Bool) where
  open sha use {sha256}

  -- The digest after the operation, and the walker behind its operand.
  unfoldable pub apply_op : Walker → ℕ → List ℕ → Result OtsError (List ℕ × Walker)
  apply_op w op digest =
      if op == op_append
      then apply_binary w op digest
      else if op == op_prepend
      then apply_binary w op digest
      else if op == op_sha256
      then ok (sha256 digest, w)
      else if is_unsupported op
      then ok (digest, record w { has_unsupported_op = true })
      else err bad_op

  unfoldable pub walk_attestation : Walker → List ℕ → Result OtsError Walker
  walk_attestation w digest = do
    require (leb tag_len (length w.rest)) truncated
    let tag = take tag_len w.rest
    let behind = drop tag_len w.rest
    (payload, consumed) ← read_varbytes behind
    let call : Attestation = record { tag = tag; payload = payload; digest = digest }
    require (not (cb call)) overflow
    ok (record w { rest = drop consumed behind; seen = w.seen ++ (call ∷ []) })

  -- The byte that starts an item, whether the item is the last one, and the walker behind it.
  unfoldable pub read_head : Walker → List ℕ → Result OtsError (Bool × ℕ × Walker)
  read_head w [] = err truncated
  read_head w (b ∷ []) =
      if b == op_branch then err truncated else ok (true, b, record w { rest = [] })
  read_head w (b ∷ c ∷ r) =
      if b == op_branch
      then ok (false, c, record w { rest = r })
      else ok (true, b, record w { rest = c ∷ r })

  -- One item of a node; `node` walks the sub-timestamp of an operation.
  unfoldable pub walk_item :
      (Walker → List ℕ → Result OtsError Walker) → Walker → ℕ → List ℕ → Result OtsError Walker
  walk_item node w b digest =
      if b == op_attestation
      then walk_attestation w digest
      else (apply_op w b digest >>= λ (mut, w'). node w' mut)

  -- `walk_node`, and its loop. A call of either costs a unit of fuel.
  unfoldable mutual
    pub walk_node : ℕ → Walker → List ℕ → ℕ → Result OtsError Walker
    walk_node zero w digest depth = stuck
    walk_node (suc fuel) w digest depth =
        let items = walk_items fuel w digest depth in
        if leb max_depth depth then err too_deep else items

    pub walk_items : ℕ → Walker → List ℕ → ℕ → Result OtsError Walker
    walk_items zero w digest depth = stuck
    walk_items (suc fuel) w digest depth = do
      (is_last, b, w₁) ← read_head w w.rest
      w₂ ← walk_item (λ w' mut. walk_node fuel w' mut (depth + 1)) w₁ b digest
      let more = walk_items fuel w₂ digest depth
      if is_last then ok w₂ else more

  -- The last walker holds the calls of the callback.
  unfoldable pub walk : List ℕ → List ℕ → Result OtsError (Verdict × List Attestation)
  walk body leaf_digest =
      let start : Walker = record { rest = body; seen = []; has_unsupported_op = false } in
      do
        require (leb (length leaf_digest) max_digest_len) too_large
        w ← walk_node (2 * length body + 2) start leaf_digest 0
        require (length w.rest == 0) overflow
        ok (if w.has_unsupported_op then structural else verified, w.seen)
