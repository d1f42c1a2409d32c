-- ===== src/Ots/WalkLaws.antt =====
-- The walk on any input: whether it ends, and the size of its digests (lib/src/uc2_ots.c).
use uc.Common.{
  ℕ, zero, suc, ◌+◌, ◌*◌, ◌≤◌, ◌<◌, ◌≡◌, Bool, false, List, [], ◌∷◌, leb, ◌==◌, if◌then◌else◌,
  length, drop, arith, ◌≢◌, length-append, length-drop, Bool-cases, inl, inr,
}
use uc.Common.Result.{Result, ok, stuck, ◌>>=◌, require_then-eq-ok, >>=-eq-ok, >>=-ne-stuck}
use uc.Common.{bit_and, bit_or}
use uc.Common.Words.{u64, ◌<<<◌}
use uc.Ots.Codes.{OtsError, truncated, op_attestation, max_digest_len}
use uc.Ots.Varint.{decode_from, varint_decode, read_varbytes}
use uc.Ots.Walk.{
  Sha, Attestation, Walker, apply_binary, apply_op, walk_attestation, read_head, walk_item,
  walk_node, walk_items, walk,
}

decode_from-ne-stuck : (src : List ℕ) (v shift i : ℕ) → decode_from src v shift i ≢ stuck
unfolding decode_from
decode_from-ne-stuck [] v shift i e = cc
decode_from-ne-stuck (b ∷ rest) v shift i e = ground (
  arith,
  decode_from-ne-stuck rest (bit_or v (u64 (bit_and b 0x7f <<< shift))) (shift + 7) (i + 1),
)

read_varbytes-ne-stuck : (p : List ℕ) → read_varbytes p ≢ stuck
unfolding read_varbytes varint_decode
read_varbytes-ne-stuck p =
    >>=-ne-stuck (decode_from p 0 0 0) _ (decode_from-ne-stuck p 0 0 0)
      (λ (n, lc) _ e. ground arith)

-- A field of bytes takes at least the byte of its length, and lies in the input.
decode_from_takes :
    (src : List ℕ) (v shift i x n : ℕ)
    → decode_from src v shift i ≡ ok (x, n)
    → (i < n) × (n ≤ i + length src)
unfolding decode_from
decode_from_takes [] v shift i x n e = cc
decode_from_takes (b ∷ rest) v shift i x n e = ground (
  arith,
  decode_from_takes rest (bit_or v (u64 (bit_and b 0x7f <<< shift))) (shift + 7) (i + 1) x n,
)

apply_binary-ne-stuck : (w : Walker) (op : ℕ) (digest : List ℕ) → apply_binary w op digest ≢ stuck
unfolding apply_binary
apply_binary-ne-stuck w op digest e = ground (arith, read_varbytes-ne-stuck w.rest)

apply_binary_bounds :
    (w w' : Walker) (op : ℕ) (digest mut : List ℕ)
    → apply_binary w op digest ≡ ok (mut, w')
    → (length mut ≤ max_digest_len) × (length w'.rest ≤ length w.rest)
unfolding apply_binary
apply_binary_bounds w w' op digest mut e =
    let ((operand, consumed), field, e₁) = >>=-eq-ok (read_varbytes w.rest) _ e in
    ground (
      arith,
      length-append digest operand,
      length-append operand digest,
      length-drop consumed w.rest,
    )

module _ (sha : Sha) (cb : Attestation → Bool) where
  apply_op-ne-stuck : (w : Walker) (op : ℕ) (digest : List ℕ) → apply_op sha cb w op digest ≢ stuck
  unfolding apply_op
  apply_op-ne-stuck w op digest e = ground (arith, apply_binary-ne-stuck w op digest)

  -- If apply_op succeeds on a digest of at most 64 bytes, the digest that it makes has at most 64
  -- bytes and the walker has not moved back.
  pub apply_op_bounds :
      (w w' : Walker) (op : ℕ) (digest mut : List ℕ)
      → length digest ≤ max_digest_len
      → apply_op sha cb w op digest ≡ ok (mut, w')
      → (length mut ≤ max_digest_len) × (length w'.rest ≤ length w.rest)
  unfolding apply_op
  apply_op_bounds w w' op digest mut h e =
      ground (arith, apply_binary_bounds w w' op digest mut, sha.length-sha256 digest)

  walk_attestation-ne-stuck :
      (w : Walker) (digest : List ℕ) → walk_attestation sha cb w digest ≢ stuck
  unfolding walk_attestation
  walk_attestation-ne-stuck w digest e = ground (arith, read_varbytes-ne-stuck (drop 8 w.rest))

  walk_attestation_bounds :
      (w w' : Walker) (digest : List ℕ)
      → walk_attestation sha cb w digest ≡ ok w'
      → length w'.rest ≤ length w.rest
  unfolding walk_attestation
  walk_attestation_bounds w w' digest e =
      let (room, e₁) = require_then-eq-ok (leb 8 (length w.rest)) truncated _ e in
      let ((payload, consumed), field, e₂) = >>=-eq-ok (read_varbytes (drop 8 w.rest)) _ e₁ in
      ground (arith, length-drop consumed (drop 8 w.rest), length-drop 8 w.rest)

  read_head-ne-stuck : (w : Walker) (bs : List ℕ) → read_head sha cb w bs ≢ stuck
  unfolding read_head
  read_head-ne-stuck w [] e = cc
  read_head-ne-stuck w (b ∷ []) e = ground arith
  read_head-ne-stuck w (b ∷ c ∷ r) e = ground arith

  read_head_takes :
      (w w' : Walker) (bs : List ℕ) (is_last : Bool) (b : ℕ)
      → read_head sha cb w bs ≡ ok (is_last, b, w')
      → length w'.rest < length bs
  unfolding read_head
  read_head_takes w w' [] is_last b e = cc
  read_head_takes w w' (c ∷ []) is_last b e = ground arith
  read_head_takes w w' (c ∷ d ∷ r) is_last b e = ground arith

  walk_item_bounds :
      (node : Walker → List ℕ → Result OtsError Walker)
      → ((w w' : Walker) (mut : List ℕ)
          → length mut ≤ max_digest_len
          → node w mut ≡ ok w'
          → length w'.rest ≤ length w.rest)
      → (w w' : Walker) (b : ℕ) (digest : List ℕ) → length digest ≤ max_digest_len
      → walk_item sha cb node w b digest ≡ ok w'
      → length w'.rest ≤ length w.rest
  unfolding walk_item
  walk_item_bounds node rec w w' b digest h e = elim (Bool-cases (b == op_attestation)) [
    | inl attested ↦ walk_attestation_bounds w w' digest (rw attested at e)
    | inr operation ↦
        let ((mut, w₁), applied, rest) =
          >>=-eq-ok (apply_op sha cb w b digest) _ (rw operation at e) in
        let (small, moved) = apply_op_bounds w w₁ b digest mut h applied in
        omega (arith, moved, rec w₁ w' mut small rest)
  ]

  -- A run that succeeds has not moved back.
  mutual
    unfolding walk_node walk_items

    walk_node_bounds :
        (fuel : ℕ) (w w' : Walker) (digest : List ℕ) (depth : ℕ)
        → length digest ≤ max_digest_len
        → walk_node sha cb fuel w digest depth ≡ ok w'
        → length w'.rest ≤ length w.rest
    walk_node_bounds zero w w' digest depth h e = cc
    walk_node_bounds (suc fuel) w w' digest depth h e =
        ground (arith, walk_items_bounds fuel w w' digest depth h)

    walk_items_bounds :
        (fuel : ℕ) (w w' : Walker) (digest : List ℕ) (depth : ℕ)
        → length digest ≤ max_digest_len
        → walk_items sha cb fuel w digest depth ≡ ok w'
        → length w'.rest ≤ length w.rest
    walk_items_bounds zero w w' digest depth h e = cc
    walk_items_bounds (suc fuel) w w' digest depth h e =
        let node = λ (v : Walker) (mut : List ℕ). walk_node sha cb fuel v mut (depth + 1) in
        let ((is_last, b, w₁), head, e₁) = >>=-eq-ok (read_head sha cb w w.rest) _ e in
        let (w₂, item, e₂) = >>=-eq-ok (walk_item sha cb node w₁ b digest) _ e₁ in
        let first = read_head_takes w w₁ w.rest is_last b head in
        let second =
          walk_item_bounds node (λ v v' mut. walk_node_bounds fuel v v' mut (depth + 1)) w₁ w₂ b
            digest h item in
        ground (arith, walk_items_bounds fuel w₂ w' digest depth h)

  walk_item-ne-stuck :
      (node : Walker → List ℕ → Result OtsError Walker) (w : Walker) (b : ℕ) (digest : List ℕ)
      → ((w' : Walker) (mut : List ℕ)
          → length mut ≤ max_digest_len
          → length w'.rest ≤ length w.rest
          → node w' mut ≢ stuck)
      → length digest ≤ max_digest_len
      → walk_item sha cb node w b digest ≢ stuck
  unfolding walk_item
  walk_item-ne-stuck node w b digest rec h = elim (Bool-cases (b == op_attestation)) [
    | inl attested ↦ rw attested (walk_attestation-ne-stuck w digest)
    | inr operation ↦ rw operation (
        >>=-ne-stuck (apply_op sha cb w b digest) (λ (p : List ℕ × Walker). node p.1 p.0)
          (apply_op-ne-stuck w b digest)
          (λ p applied.
            let (small, moved) = apply_op_bounds w p.1 b digest p.0 h applied in
            rec p.1 p.0 small moved))
  ]

  mutual
    unfolding walk_node walk_items

    walk_node-ne-stuck :
        (fuel : ℕ) (w : Walker) (digest : List ℕ) (depth : ℕ)
        → length digest ≤ max_digest_len
        → 2 * length w.rest + 2 ≤ fuel
        → walk_node sha cb fuel w digest depth ≢ stuck
    walk_node-ne-stuck zero w digest depth h enough e = absurd (omega arith)
    walk_node-ne-stuck (suc fuel) w digest depth h enough e =
        ground (arith, walk_items-ne-stuck fuel w digest depth h)

    walk_items-ne-stuck :
        (fuel : ℕ) (w : Walker) (digest : List ℕ) (depth : ℕ)
        → length digest ≤ max_digest_len
        → 2 * length w.rest + 1 ≤ fuel
        → walk_items sha cb fuel w digest depth ≢ stuck
    walk_items-ne-stuck zero w digest depth h enough e = absurd (omega arith)
    walk_items-ne-stuck (suc fuel) w digest depth h enough e =
        let node = λ (v : Walker) (mut : List ℕ). walk_node sha cb fuel v mut (depth + 1) in
        >>=-ne-stuck (read_head sha cb w w.rest)
          (λ (p : Bool × ℕ × Walker). walk_item sha cb node p.2 p.1 digest >>= λ v.
            if p.0 then ok v else walk_items sha cb fuel v digest depth)
          (read_head-ne-stuck w w.rest)
          (λ p head.
            let first = read_head_takes w p.2 w.rest p.0 p.1 head in
            >>=-ne-stuck (walk_item sha cb node p.2 p.1 digest)
              (λ v. if p.0 then ok v else walk_items sha cb fuel v digest depth)
              (walk_item-ne-stuck node p.2 p.1 digest
                (λ v mut small moved.
                  walk_node-ne-stuck fuel v mut (depth + 1) small (omega (arith, first, moved)))
                h)
              (λ v item z.
                let second =
                  walk_item_bounds node (λ a a' mut. walk_node_bounds fuel a a' mut (depth + 1)) p.2
                    v p.1 digest h item in
                ground (arith, first, second, walk_items-ne-stuck fuel v digest depth h)))
          e

  -- On any body, digest, hash and callback, walk ends: the fuel of twice the body's length and two
  -- is enough.
  pub walk-ne-stuck : (body leaf_digest : List ℕ) → walk sha cb body leaf_digest ≢ stuck
  unfolding walk
  walk-ne-stuck body leaf_digest e =
      let start : Walker = record { rest = body; seen = []; has_unsupported_op = false } in
      ground (arith, walk_node-ne-stuck (2 * length body + 2) start leaf_digest 0)
