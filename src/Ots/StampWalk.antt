-- ===== src/Ots/StampWalk.antt =====
-- The walk on the bytes of a serialized timestamp (`uc2_ots_walk`, lib/src/uc2_ots.c).
use uc.Common.{
  ℕ, zero, suc, ◌+◌, ◌*◌, ◌≤◌, ◌≡◌, refl, ◌∙◌, Bool, true, false, ◌||◌, List, [], ◌++◌, leb,
  if◌then◌else◌, length, arith, length-append, append_assoc, append-nil, le→leb,
}
use uc.Common.Result.{ok}
use uc.Ots.Codes.{max_digest_len}
use mathlib.Core.Path.{subst}
use uc.Ots.Walk.{Sha, Attestation, verified, structural, walk_item, walk_node, walk_items, walk}
use uc.Ots.Stamp.{
  Item, Stamp, attest, apply, last, fork, operand, is_skipped, item_bytes, stamp_bytes, item_skips,
  stamp_skips, step, item_log, stamp_log, ItemFits, StampFits,
}
use uc.Ots.StampStep.{
  item_code, item_body, length-stamp_bytes, or_assoc, at, attest_step, operation_step, last_step,
  fork_step, node_of_items, StampFits-depth,
}

module _ (sha : Sha) (cb : Attestation → Bool)
    (goes_on : (call : Attestation) → cb call ≡ false) where
  mutual
    unfolding item_bytes stamp_bytes item_skips stamp_skips item_log stamp_log ItemFits StampFits
        walk_items

    walk_item-item :
        (it : Item) (fuel : ℕ) (more digest : List ℕ) (seen : List Attestation) (flag : Bool)
        (depth : ℕ)
        → ItemFits sha it digest depth
        → 2 * length (item_bytes it) ≤ fuel + 2
        → walk_item sha cb
            (λ w mut. walk_node sha cb fuel w mut (depth + 1))
            (at (item_body it ++ more) seen flag)
            (item_code it)
            digest
          ≡ ok (at more (seen ++ item_log sha it digest) (flag || item_skips it))
    walk_item-item (attest tag payload) fuel more digest seen flag depth fits enough =
        attest_step sha cb goes_on _ tag payload more digest seen flag fits.0 fits.1
    walk_item-item (apply op child) zero more digest seen flag depth fits enough =
        absurd
          (omega (arith, length-append (operand op) (stamp_bytes child), length-stamp_bytes child))
    walk_item-item (apply op child) (suc fuel) more digest seen flag depth fits enough =
        let mut = step sha op digest in
        let len = length-append (operand op) (stamp_bytes child) in
        rw (← or_assoc flag (is_skipped op) (stamp_skips child)) (
          operation_step sha cb goes_on _ op child more digest seen flag _ fits.0 (
            node_of_items sha cb goes_on fuel
              (at (stamp_bytes child ++ more) seen (flag || is_skipped op)) mut (depth + 1)
              (StampFits-depth sha cb goes_on child mut (depth + 1) fits.1)
            ∙ walk_items-stamp child fuel more mut seen (flag || is_skipped op) (depth + 1) fits.1
                (omega (arith, len))))

    walk_items-stamp :
        (s : Stamp) (fuel : ℕ) (more digest : List ℕ) (seen : List Attestation) (flag : Bool)
        (depth : ℕ)
        → StampFits sha s digest depth
        → 2 * length (stamp_bytes s) ≤ fuel + 1
        → walk_items sha cb fuel (at (stamp_bytes s ++ more) seen flag) digest depth
          ≡ ok (at more (seen ++ stamp_log sha s digest) (flag || stamp_skips s))
    walk_items-stamp (last it) zero more digest seen flag depth fits enough =
        absurd (omega (arith, length-stamp_bytes (last it)))
    walk_items-stamp (fork it s) zero more digest seen flag depth fits enough =
        absurd (omega (arith, length-stamp_bytes (fork it s)))
    walk_items-stamp (last it) (suc fuel) more digest seen flag depth fits enough =
        last_step sha cb goes_on it fuel more digest seen flag depth
          (at more (seen ++ item_log sha it digest) (flag || item_skips it))
          (walk_item-item it fuel more digest seen flag depth fits.1 (omega arith))
    walk_items-stamp (fork it s) (suc fuel) more digest seen flag depth fits enough =
        let rest = stamp_bytes s ++ more in
        let w = at rest (seen ++ item_log sha it digest) (flag || item_skips it) in
        let len = length-append (item_bytes it) (stamp_bytes s) in
        rw
          (
            append_assoc (item_bytes it) (stamp_bytes s) more,
            ← append_assoc seen (item_log sha it digest) (stamp_log sha s digest),
            ← or_assoc flag (item_skips it) (stamp_skips s),
          )
          (fork_step sha cb goes_on it fuel rest digest seen flag depth w _
            (walk_item-item it fuel rest digest seen flag depth fits.1 (omega (arith, len)))
            (walk_items-stamp s fuel more digest (seen ++ item_log sha it digest)
              (flag || item_skips it) depth fits.2 (omega (arith, len))))

  -- For a timestamp tree within the limits of the program (depth below 32, digests of at most 64
  -- bytes at each operation, tags of 8 bytes, payloads of at most 8192 bytes), a digest of at most
  -- 64 bytes and a callback that never stops the walk, walk on the bytes of the tree succeeds: it
  -- reports the attestations of the tree in the order of the file, each with the digest that the
  -- operations above it make, and answers structural if an operation was skipped and verified
  -- otherwise.
  pub walk-stamp_bytes :
      (s : Stamp) (leaf_digest : List ℕ)
      → length leaf_digest ≤ max_digest_len
      → StampFits sha s leaf_digest 0
      → walk sha cb (stamp_bytes s) leaf_digest
        ≡ ok (if stamp_skips s then structural else verified, stamp_log sha s leaf_digest)
  unfolding walk
  walk-stamp_bytes s leaf_digest small fits =
      let bytes = stamp_bytes s in
      let room : leb (length leaf_digest) max_digest_len ≡ true = le→leb _ _ small in
      let run =
        node_of_items sha cb goes_on (2 * length bytes + 1) (at (bytes ++ []) [] false) leaf_digest
          0 (StampFits-depth sha cb goes_on s leaf_digest 0 fits)
        ∙ walk_items-stamp s (2 * length bytes + 1) [] leaf_digest [] false 0 fits (omega arith) in
      let fuel : 2 * length bytes + 2 ≡ suc (2 * length bytes + 1) = omega arith in
      let same : bytes ++ [] ≡ bytes = append-nil bytes in
      let done =
        subst
          (λ r.
            walk_node sha cb (suc (2 * length bytes + 1)) (at r [] false) leaf_digest 0
            ≡ ok (at [] (stamp_log sha s leaf_digest) (stamp_skips s)))
          same run in
      rw (room, fuel, done) refl
