-- ===== src/Ots/StampStep.antt =====
-- The steps of the walk on the bytes of a serialized timestamp.
use uc.Common.{
  ℕ, suc, ◌+◌, ◌≤◌, ◌<◌, ◌≡◌, refl, ◌∙◌, ap, sym, Bool, true, false, ◌||◌, List, [], ◌∷◌, ◌++◌, leb,
  ◌==◌, if◌then◌else◌, length, take, drop, arith, length-append, take-append, drop-append,
  append_assoc, le→leb,
}
use uc.Common.Result.{Result, ok}
use uc.Ots.Codes.{
  OtsError, max_varbytes, max_digest_len, op_append, op_prepend, op_attestation, op_branch,
  max_depth,
}
use uc.Ots.Varint.{varint_encode, read_varbytes}
use uc.Ots.VarintLaws.{varint_decode-varint_encode}
use uc.Ots.Walk.{
  Sha, Attestation, Walker, apply_binary, apply_op, walk_attestation, read_head, walk_item,
  walk_node, walk_items,
}
use uc.Ots.Stamp.{
  Op, append, prepend, sha256, sha1, ripemd160, keccak256, reverse, hexlify, Item, Stamp, attest,
  apply, last, fork, op_code, varbytes, operand, is_skipped, item_bytes, stamp_bytes, step, OpFits,
  StampFits,
}

-- A field of bytes reads back.
read_varbytes-varbytes :
    (xs more : List ℕ)
    → length xs ≤ max_varbytes
    → read_varbytes (varbytes xs ++ more) ≡ ok (xs, length (varbytes xs))
unfolding read_varbytes varbytes
read_varbytes-varbytes xs more h =
    rw
      (
        append_assoc (varint_encode (length xs)) xs more,
        varint_decode-varint_encode (length xs) (xs ++ more) (omega arith),
        drop-append (varint_encode (length xs)) (xs ++ more),
        take-append xs more,
      )
      (ground (
        arith,
        length-append (varint_encode (length xs)) (xs ++ more),
        length-append xs more,
        length-append (varint_encode (length xs)) xs,
      ))

or_false : (b : Bool) → b || false ≡ b
or_false true = refl
or_false false = refl

module _ (sha : Sha) (cb : Attestation → Bool) where
  binary_step :
      (op : ℕ) (xs more digest : List ℕ) (seen : List Attestation) (flag : Bool)
      → length digest + length xs ≤ max_digest_len
      → apply_binary
          (record { rest = varbytes xs ++ more; seen = seen; has_unsupported_op = flag })
          op
          digest
        ≡ ok (
          (if op == op_append then digest ++ xs else xs ++ digest),
          record { rest = more; seen = seen; has_unsupported_op = flag },
        )
  unfolding apply_binary
  binary_step op xs more digest seen flag h =
      let fits : leb (length digest + length xs) max_digest_len ≡ true = le→leb _ _ h in
      rw (read_varbytes-varbytes xs more (omega arith), fits, drop-append (varbytes xs) more) refl

  apply_op-step :
      (op : Op) (more digest : List ℕ) (seen : List Attestation) (flag : Bool)
      → OpFits sha op digest
      → apply_op sha cb
          (record { rest = operand op ++ more; seen = seen; has_unsupported_op = flag })
          (op_code op)
          digest
        ≡ ok (
          step sha op digest,
          record { rest = more; seen = seen; has_unsupported_op = flag || is_skipped op },
        )
  unfolding apply_op
  apply_op-step (append xs) more digest seen flag h =
      rw (or_false flag) (binary_step op_append xs more digest seen flag h)
  apply_op-step (prepend xs) more digest seen flag h =
      rw (or_false flag) (binary_step op_prepend xs more digest seen flag h)
  apply_op-step sha256 more digest seen flag h = ground arith
  apply_op-step op more digest seen flag h = ground arith

  walk_attestation-step :
      (tag payload more digest : List ℕ) (seen : List Attestation) (flag : Bool)
      → length tag ≡ 8
      → length payload ≤ max_varbytes
      → cb (record { tag = tag; payload = payload; digest = digest }) ≡ false
      → walk_attestation sha cb
          (record {
            rest = tag ++ (varbytes payload ++ more);
            seen = seen;
            has_unsupported_op = flag;
          })
          digest
        ≡ ok (record {
          rest = more;
          seen = seen ++ (record { tag = tag; payload = payload; digest = digest } ∷ []);
          has_unsupported_op = flag;
        })
  unfolding walk_attestation
  walk_attestation-step tag payload more digest seen flag size small goes_on =
      let whole = tag ++ (varbytes payload ++ more) in
      let long : leb 8 (length whole) ≡ true =
        le→leb 8 (length whole) (omega (arith, length-append tag (varbytes payload ++ more))) in
      let tag_is : take 8 whole ≡ tag =
        ap (λ n. take n whole) (sym size) ∙ take-append tag (varbytes payload ++ more) in
      let behind : drop 8 whole ≡ varbytes payload ++ more =
        ap (λ n. drop n whole) (sym size) ∙ drop-append tag (varbytes payload ++ more) in
      rw
        (
          long,
          tag_is,
          behind,
          read_varbytes-varbytes payload more small,
          goes_on,
          drop-append (varbytes payload) more,
        )
        refl

-- The byte that starts an item, and what follows it.
abbrev pub item_code : Item → ℕ
item_code (attest tag payload) = op_attestation
item_code (apply op child) = op_code op

unfoldable pub item_body : Item → List ℕ
item_body (attest tag payload) = tag ++ varbytes payload
item_body (apply op child) = operand op ++ stamp_bytes child

pub item_bytes-item_body : (it : Item) → item_bytes it ≡ item_code it ∷ item_body it
unfolding item_bytes item_body
item_bytes-item_body (attest tag payload) = refl
item_bytes-item_body (apply op child) = refl

op_code_apart :
    (op : Op) → ((op_code op == op_attestation) ≡ false) × ((op_code op == op_branch) ≡ false)
op_code_apart (append xs) = (refl, refl)
op_code_apart (prepend xs) = (refl, refl)
op_code_apart sha256 = (refl, refl)
op_code_apart sha1 = (refl, refl)
op_code_apart ripemd160 = (refl, refl)
op_code_apart keccak256 = (refl, refl)
op_code_apart reverse = (refl, refl)
op_code_apart hexlify = (refl, refl)

item_code_plain : (it : Item) → (item_code it == op_branch) ≡ false
item_code_plain (attest tag payload) = refl
item_code_plain (apply op child) = (op_code_apart op).1

pub length-stamp_bytes : (s : Stamp) → 1 ≤ length (stamp_bytes s)
unfolding stamp_bytes
length-stamp_bytes (last it) = rw (item_bytes-item_body it) (omega arith)
length-stamp_bytes (fork it s) = omega arith

pub or_assoc : (a b c : Bool) → (a || b) || c ≡ a || (b || c)
or_assoc true b c = refl
or_assoc false b c = refl

abbrev pub at : List ℕ → List Attestation → Bool → Walker
at rest seen flag = record { rest = rest; seen = seen; has_unsupported_op = flag }

module _ (sha : Sha) (cb : Attestation → Bool)
    (goes_on : (call : Attestation) → cb call ≡ false) where
  read_head_last :
      (w : Walker) (b : ℕ) (r : List ℕ)
      → (b == op_branch) ≡ false
      → read_head sha cb w (b ∷ r) ≡ ok (true, b, record w { rest = r })
  unfolding read_head
  read_head_last w b [] h = rw h refl
  read_head_last w b (c ∷ r) h = rw h refl

  pub node_of_items :
      (fuel : ℕ) (w : Walker) (digest : List ℕ) (depth : ℕ)
      → depth < max_depth
      → walk_node sha cb (suc fuel) w digest depth ≡ walk_items sha cb fuel w digest depth
  unfolding walk_node
  node_of_items fuel w digest depth h = ground arith

  pub StampFits-depth :
      (s : Stamp) (digest : List ℕ) (depth : ℕ) → StampFits sha s digest depth → depth < max_depth
  unfolding StampFits
  StampFits-depth (last it) digest depth h = h.0
  StampFits-depth (fork it s) digest depth h = h.0

  -- One item, when the walk below it does what it should.
  pub attest_step :
      (node : Walker → List ℕ → Result OtsError Walker) (tag payload more digest : List ℕ)
      (seen : List Attestation) (flag : Bool)
      → length tag ≡ 8
      → length payload ≤ max_varbytes
      → walk_item sha cb node
          (at (item_body (attest tag payload) ++ more) seen flag)
          op_attestation
          digest
        ≡ ok (
            at more
              (seen ++ (record { tag = tag; payload = payload; digest = digest } ∷ []))
              (flag || false))
  unfolding walk_item item_body
  attest_step node tag payload more digest seen flag size small =
      rw (or_false flag, append_assoc tag (varbytes payload) more)
        (walk_attestation-step sha cb tag payload more digest seen flag size small (goes_on _))

  pub operation_step :
      (node : Walker → List ℕ → Result OtsError Walker) (op : Op) (child : Stamp)
      (more digest : List ℕ) (seen : List Attestation) (flag : Bool) (r : Result OtsError Walker)
      → OpFits sha op digest
      → node (at (stamp_bytes child ++ more) seen (flag || is_skipped op)) (step sha op digest) ≡ r
      → walk_item sha cb node
          (at (item_body (apply op child) ++ more) seen flag)
          (op_code op)
          digest
        ≡ r
  unfolding walk_item item_body
  operation_step node op child more digest seen flag r fits below =
      rw
        (
          (op_code_apart op).0,
          append_assoc (operand op) (stamp_bytes child) more,
          apply_op-step sha cb op (stamp_bytes child ++ more) digest seen flag fits,
        )
        below

  -- One round of the loop, at a last item and at one behind a branch byte.
  pub last_step :
      (it : Item) (fuel : ℕ) (more digest : List ℕ) (seen : List Attestation) (flag : Bool)
      (depth : ℕ) (w : Walker)
      → walk_item sha cb
          (λ w mut. walk_node sha cb fuel w mut (depth + 1))
          (at (item_body it ++ more) seen flag)
          (item_code it)
          digest
        ≡ ok w
      → walk_items sha cb (suc fuel) (at (item_bytes it ++ more) seen flag) digest depth ≡ ok w
  unfolding walk_items
  last_step it fuel more digest seen flag depth w item =
      rw
        (
          item_bytes-item_body it,
          read_head_last (at (item_code it ∷ (item_body it ++ more)) seen flag) (item_code it)
              (item_body it ++ more) (item_code_plain it),
          item,
        )
        refl

  pub fork_step :
      (it : Item) (fuel : ℕ) (rest digest : List ℕ) (seen : List Attestation) (flag : Bool)
      (depth : ℕ) (w : Walker) (r : Result OtsError Walker)
      → walk_item sha cb
          (λ w mut. walk_node sha cb fuel w mut (depth + 1))
          (at (item_body it ++ rest) seen flag)
          (item_code it)
          digest
        ≡ ok w
      → walk_items sha cb fuel w digest depth ≡ r
      → walk_items sha cb
          (suc fuel)
          (at (op_branch ∷ (item_bytes it ++ rest)) seen flag)
          digest
          depth
        ≡ r
  unfolding walk_items read_head
  fork_step it fuel rest digest seen flag depth w r item more =
      rw (item_bytes-item_body it, item) more
