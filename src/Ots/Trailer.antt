-- ===== src/Ots/Trailer.antt =====
-- `uc2_ots_trailer_build` and `uc2_ots_trailer_parse`, lib/src/uc2_ots.c: the block behind an archive
-- that holds a proof.
use uc.Common.{
  ℕ, ◌+◌, ◌-◌, ◌^◌, ◌≤◌, ◌<◌, ◌≡◌, refl, ◌∙◌, ap, sym, List, [], ◌++◌, ltb, leb, ◌==◌,
  if◌then◌else◌, length, drop, slice, arith, length-append, leb→le, take-append, drop-append,
  drop-drop, append_assoc,
}
use mathlib.Core.Path.{subst}
use uc.Common.Result.{Result, ok, ◌>>◌, require, require_then-eq-ok}
use uc.Common.Words.{
  same_bytes, same_bytes-append, bytes32, word32, word32-bytes32, drop-bytes32, u32,
}
use uc.Ots.Codes.{
  OtsError, truncated, bad_magic, bad_version, noncanonical, overflow, too_large, trailer_magic,
  trailer_magic_len, trailer_version, trailer_head_len, trailer_tail_len, trailer_overhead,
  trailer_max_proof,
}

-- The layout that the header file documents.
unfoldable pub layout : ℕ → List ℕ → List ℕ
layout archive_len proof =
    trailer_magic
    ++ (bytes32 trailer_version
        ++ (bytes32 archive_len
            ++ (bytes32 (u32 (length proof))
                ++ (proof ++ (bytes32 (u32 (length proof)) ++ trailer_magic)))))

-- The bytes stored in `out`, which holds `out_cap`. Their number, which the function returns, fits an
-- `int` because of the bound on the proof.
unfoldable pub trailer_build : ℕ → List ℕ → ℕ → Result OtsError (List ℕ)
trailer_build archive_len proof out_cap = do
  require (leb (length proof) trailer_max_proof) too_large
  require (leb (trailer_overhead + length proof) out_cap) truncated
  ok (layout archive_len proof)

-- The return value 1 is `absent`; success stores the archive's length and the proof.
pub data Found : Type 0 where
  absent : Found
  found : ℕ → List ℕ → Found

-- The checks that follow once the back magic is there; `start` is `trailer_start - file`.
unfoldable pub parse_at : List ℕ → ℕ → ℕ → Result OtsError Found
parse_at file start back_proof_len =
    let t = drop start file in
    let version = word32 (drop trailer_magic_len t) in
    let archive_ln = word32 (drop (trailer_magic_len + 4) t) in
    let front_pl = word32 (drop (trailer_magic_len + 8) t) in
    do
      require (same_bytes trailer_magic_len t trailer_magic) bad_magic
      require (version == trailer_version) bad_version
      require (front_pl == back_proof_len) noncanonical
      require (archive_ln == start) overflow
      ok (found archive_ln (slice file (start + trailer_head_len) back_proof_len))

unfoldable pub parse_tail : List ℕ → ℕ → Result OtsError Found
parse_tail file back_proof_len =
    let total = trailer_overhead + back_proof_len in
    do
      require (leb back_proof_len trailer_max_proof) too_large
      require (leb total (length file)) truncated
      parse_at file (length file - total) back_proof_len

unfoldable pub trailer_parse : List ℕ → Result OtsError Found
trailer_parse file =
    let back = drop (length file - trailer_magic_len) file in
    let rest = parse_tail file (word32 (drop (length file - trailer_tail_len) file)) in
    if ltb (length file) trailer_tail_len
    then ok absent
    else if same_bytes trailer_magic_len back trailer_magic
    then rest
    else ok absent

-- Reading behind a prefix of known length.
drop-prefix : (xs ys : List ℕ) (n : ℕ) → n ≡ length xs → drop n (xs ++ ys) ≡ ys
drop-prefix xs ys n e = rw e (drop-append xs ys)

module _ (archive proof : List ℕ) (fits : length archive < 2 ^ 32)
    (small : length proof ≤ trailer_max_proof) where
  proof_word : ℕ
  proof_word = u32 (length proof)

  abbrev head : List ℕ
  head =
      trailer_magic ++ (bytes32 trailer_version ++ (bytes32 (length archive) ++ bytes32 proof_word))

  abbrev block : List ℕ
  block = head ++ (proof ++ (bytes32 proof_word ++ trailer_magic))

  length-head : length head ≡ 20
  unfolding bytes32
  length-head = refl

  length-tail : length (bytes32 proof_word ++ trailer_magic) ≡ 12
  unfolding bytes32
  length-tail = refl

  length-file : length (archive ++ block) ≡ length archive + 32 + length proof
  length-file = omega (
    arith,
    length-append archive block,
    length-append head (proof ++ (bytes32 proof_word ++ trailer_magic)),
    length-append proof (bytes32 proof_word ++ trailer_magic),
    length-head,
    length-tail,
  )

  -- What the parser sees at the three places where it looks.
  at_tail :
      drop (length (archive ++ block) - 12) (archive ++ block) ≡ bytes32 proof_word ++ trailer_magic
  at_tail =
      ap (drop _) (
        ap (λ r. archive ++ r) (sym (append_assoc head proof (bytes32 proof_word ++ trailer_magic)))
        ∙ sym (append_assoc archive (head ++ proof) (bytes32 proof_word ++ trailer_magic)))
      ∙ drop-prefix (archive ++ (head ++ proof)) (bytes32 proof_word ++ trailer_magic) _ (
          omega (
            arith,
            length-file,
            length-append archive (head ++ proof),
            length-append head proof,
            length-head,
          ))

  at_magic : drop (length (archive ++ block) - 8) (archive ++ block) ≡ trailer_magic
  at_magic =
      ap (λ k. drop k (archive ++ block)) (omega (arith, length-file))
      ∙ sym (drop-drop 4 (length (archive ++ block) - 12) (archive ++ block))
      ∙ ap (drop 4) at_tail
      ∙ drop-bytes32 proof_word trailer_magic

  word_at :
      (word32 (drop 8 block) ≡ 1)
      × (word32 (drop 12 block) ≡ length archive)
      × (word32 (drop 16 block) ≡ length proof)
      × (drop 20 block ≡ proof ++ (bytes32 proof_word ++ trailer_magic))
  unfolding bytes32 proof_word
  word_at = (
    word32-bytes32 1 _ (omega arith),
    word32-bytes32 (length archive) _ fits,
    word32-bytes32 proof_word _ (omega arith) ∙ omega arith,
    refl,
  )

  at_start :
      parse_at (archive ++ block) (length archive) (length proof)
      ≡ ok (found (length archive) proof)
  unfolding parse_at
  at_start =
      let (version, archive_ln, front, behind) = word_at in
      rw
        (
          ← drop-drop 20 (length archive) (archive ++ block),
          drop-append archive block,
          version,
          archive_ln,
          front,
          behind,
          take-append proof (bytes32 proof_word ++ trailer_magic),
          same_bytes-append trailer_magic _,
        )
        (ground arith)

  layout-block : layout (length archive) proof ≡ block
  unfolding layout bytes32 proof_word
  layout-block = refl

  whole_trailer : trailer_parse (archive ++ block) ≡ ok (found (length archive) proof)
  unfolding trailer_parse parse_tail proof_word
  whole_trailer =
      let p_eq : word32 (bytes32 proof_word ++ trailer_magic) ≡ length proof =
        word32-bytes32 proof_word trailer_magic (omega arith) ∙ omega arith in
      let start : length (archive ++ block) - (32 + length proof) ≡ length archive =
        omega (arith, length-file) in
      rw (at_tail, at_magic, p_eq, start, at_start, same_bytes-append trailer_magic [])
        (ground (arith, length-file))

-- If trailer_build succeeds for an archive shorter than 2^32 bytes, then trailer_parse on the
-- archive followed by the trailer finds the archive's length and the proof.
pub trailer_parse-trailer_build :
    (archive proof : List ℕ) (out_cap : ℕ) (trailer : List ℕ)
    → length archive < 2 ^ 32
    → trailer_build (length archive) proof out_cap ≡ ok trailer
    → trailer_parse (archive ++ trailer) ≡ ok (found (length archive) proof)
unfolding trailer_build
trailer_parse-trailer_build archive proof out_cap trailer fits e =
    let (small, e₁) = require_then-eq-ok (leb (length proof) trailer_max_proof) too_large _ e in
    let (room, e₂) =
      require_then-eq-ok (leb (trailer_overhead + length proof) out_cap) truncated _ e₁ in
    let shape : layout (length archive) proof ≡ trailer = cc e₂ in
    let fine : length proof ≤ trailer_max_proof = leb→le _ _ small in
    subst (λ t. trailer_parse (archive ++ t) ≡ ok (found (length archive) proof))
      (sym (layout-block archive proof fits fine) ∙ shape) (whole_trailer archive proof fits fine)
