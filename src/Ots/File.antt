-- ===== src/Ots/File.antt =====
-- `uc2_ots_parse_file` and `uc2_ots_serialize_file`, lib/src/uc2_ots.c.
use uc.Common.{
  ℕ, ◌+◌, ◌-◌, ◌^◌, ◌<◌, ◌≤◌, ◌≡◌, ◌∙◌, ap₂, sym, length-take, length-drop, take-append-drop,
  leb→le, ==_iff, true, List, ◌∷◌, ◌++◌, leb, ◌==◌, if◌then◌else◌, length, take, drop, arith,
  length-append, take-append, drop-append, ◌⊎◌,
}
use mathlib.Core.Path.{subst}
use uc.Common.Result.{Result, ok, err, ◌>>=◌, ◌>>◌, require, require_then-eq-ok, >>=-eq-ok}
use uc.Common.Ints.{ℤ, pos, to_int, to_int_small}
use uc.Common.Words.{byte_at, same_bytes, same_bytes-take, drop-eq-cons}
use uc.Ots.Codes.{
  OtsError, truncated, bad_magic, bad_version, bad_hash_op, op_sha1, op_ripemd160, op_sha256,
  op_keccak256, header_magic, header_magic_len, ots_version,
}

-- The switch on the hash operation, which both functions make.
unfoldable pub digest_len_of : ℕ → Result OtsError ℕ
digest_len_of op =
    if op == op_sha1
    then ok 20
    else if op == op_ripemd160
    then ok 20
    else if op == op_sha256
    then ok 32
    else if op == op_keccak256
    then ok 32
    else err bad_hash_op

pub record ProofFile : Type 0 where
  pub hash_op : ℕ
  pub leaf_digest : List ℕ
  pub body : List ℕ

unfoldable pub parse_file : List ℕ → Result OtsError ProofFile
parse_file file =
    let off = header_magic_len in
    let hash_op = byte_at file (off + 1) in
    let rest = drop (off + 2) file in
    do
      require (leb (header_magic_len + 1 + 1 + 32) (length file)) truncated
      require (same_bytes header_magic_len file header_magic) bad_magic
      require (byte_at file off == ots_version) bad_version
      digest_len ← digest_len_of hash_op
      require (leb digest_len (length file - (off + 2))) truncated
      ok (record {
        hash_op = hash_op;
        leaf_digest = take digest_len rest;
        body = drop digest_len rest;
      })

-- The result that is not an error code of the source, which is the count of bytes converted to `int`,
-- and the bytes stored in `out`, which holds `out_cap`.
unfoldable pub serialize_file : ProofFile → ℕ → Result OtsError (ℤ × List ℕ)
serialize_file f out_cap = do
  want_len ← digest_len_of f.hash_op
  require (length f.leaf_digest == want_len) bad_hash_op
  require (leb (header_magic_len + 1 + 1 + length f.leaf_digest + length f.body) out_cap) truncated
  let file = header_magic ++ ots_version ∷ f.hash_op ∷ (f.leaf_digest ++ f.body)
  ok (to_int (length file), file)

digest_len_cases : (op n : ℕ) → digest_len_of op ≡ ok n → (n ≡ 20) ⊎ (n ≡ 32)
unfolding digest_len_of
digest_len_cases op n e = ground arith

-- A file that serialize_file writes parses to its parts if digest and body together have 32 bytes
-- or more, and is refused as truncated otherwise.
pub parse_file-serialize_file :
    (f : ProofFile) (out_cap : ℕ) (count : ℤ) (file : List ℕ)
    → serialize_file f out_cap ≡ ok (count, file)
    → parse_file file
      ≡ (if leb 32 (length f.leaf_digest + length f.body) then ok f else err truncated)
unfolding serialize_file parse_file same_bytes
parse_file-serialize_file f out_cap count file e =
    let (n, known, e₁) = >>=-eq-ok (digest_len_of f.hash_op) _ e in
    let whole : header_magic ++ ots_version ∷ f.hash_op ∷ (f.leaf_digest ++ f.body) ≡ file =
      ground arith in
    let size : length f.leaf_digest ≡ n = ground arith in
    rw (← whole, known, ← size, take-append f.leaf_digest f.body, drop-append f.leaf_digest f.body)
      (ground (arith, length-append f.leaf_digest f.body, digest_len_cases f.hash_op n known))

-- The parts of a file that starts as a proof does.
file_parts :
    (file : List ℕ)
    → 65 ≤ length file
    → same_bytes header_magic_len file header_magic ≡ true
    → byte_at file 31 ≡ ots_version
    → file ≡ header_magic ++ ots_version ∷ byte_at file 32 ∷ drop 33 file
file_parts file big magic version =
    sym (take-append-drop 31 file)
    ∙ ap₂ ◌++◌ (same_bytes-take 31 file header_magic (omega arith) (omega arith) magic)
        (drop-eq-cons file 31 (omega arith) ∙ ap₂ ◌∷◌ version (drop-eq-cons file 32 (omega arith)))

abbrev parts_at : List ℕ → ℕ → ProofFile
parts_at file n =
    let rest = drop 33 file in
    record { hash_op = byte_at file 32; leaf_digest = take n rest; body = drop n rest }

serialize_file-parts_at :
    (file : List ℕ) (n : ℕ)
    → 65 ≤ length file
    → digest_len_of (byte_at file 32) ≡ ok n
    → n ≤ length file - 33
    → file ≡ header_magic ++ ots_version ∷ byte_at file 32 ∷ drop 33 file
    → serialize_file (parts_at file n) (length file) ≡ ok (to_int (length file), file)
unfolding serialize_file
serialize_file-parts_at file n big known room whole =
    let rest = drop 33 file in
    let left : length rest ≡ length file - 33 = length-drop 33 file in
    let digest : length (take n rest) ≡ n = omega (arith, length-take n rest) in
    rw (known, digest, take-append-drop n rest) (ground (arith, length-drop n rest))

-- If parse_file accepts a file of fewer than 2^31 bytes, serialize_file writes that file from the
-- parts that parse_file returns, and returns the number of its bytes.
pub serialize_file-parse_file :
    (file : List ℕ) (f : ProofFile)
    → length file < 2 ^ 31
    → parse_file file ≡ ok f
    → serialize_file f (length file) ≡ ok (pos (length file), file)
unfolding parse_file
serialize_file-parse_file file f small e =
    let op = byte_at file 32 in
    let (big, e₁) = require_then-eq-ok (leb 65 (length file)) truncated _ e in
    let (magic, e₂) = require_then-eq-ok (same_bytes 31 file header_magic) bad_magic _ e₁ in
    let (version, e₃) = require_then-eq-ok (byte_at file 31 == ots_version) bad_version _ e₂ in
    let (n, known, e₄) = >>=-eq-ok (digest_len_of op) _ e₃ in
    let (room, e₅) = require_then-eq-ok (leb n (length file - 33)) truncated _ e₄ in
    let same : parts_at file n ≡ f = cc e₅ in
    let enough : 65 ≤ length file = leb→le _ _ big in
    subst (λ g. serialize_file g (length file) ≡ ok (pos (length file), file)) same
      (subst (λ i. serialize_file (parts_at file n) (length file) ≡ ok (i, file))
        (to_int_small (length file) small)
        (serialize_file-parts_at file n enough known (leb→le _ _ room)
          (file_parts file enough magic ((==_iff _ _).0 version))))
