-- ===== src/Ots/Stamp.antt =====
-- Serialized timestamps as trees (the comment above `struct walker`, lib/src/uc2_ots.c): an
-- independent account of the format, of its meaning, and of which trees the walk accepts.
use uc.Common.{ℕ, ◌+◌, ◌≤◌, ◌<◌, ◌≡◌, Bool, true, false, ◌||◌, List, [], ◌∷◌, ◌++◌, length}
use uc.Ots.Codes.{
  op_append, op_prepend, op_reverse, op_hexlify, op_sha1, op_ripemd160, op_sha256, op_keccak256,
  op_branch, op_attestation, max_varbytes, max_digest_len, max_depth,
}
use uc.Ots.Varint.{varint_encode}
use uc.Ots.Walk.{Sha, Attestation}

pub data Op : Type 0 where
  append prepend : List ℕ → Op
  sha256 sha1 ripemd160 keccak256 reverse hexlify : Op

mutual
  pub data Item : Type 0 where
    attest : List ℕ → List ℕ → Item
    apply : Op → Stamp → Item

  pub data Stamp : Type 0 where
    last : Item → Stamp
    fork : Item → Stamp → Stamp

abbrev pub op_code : Op → ℕ
op_code (append xs) = op_append
op_code (prepend xs) = op_prepend
op_code sha256 = op_sha256
op_code sha1 = op_sha1
op_code ripemd160 = op_ripemd160
op_code keccak256 = op_keccak256
op_code reverse = op_reverse
op_code hexlify = op_hexlify

unfoldable pub varbytes : List ℕ → List ℕ
varbytes xs = varint_encode (length xs) ++ xs

abbrev pub operand : Op → List ℕ
operand (append xs) = varbytes xs
operand (prepend xs) = varbytes xs
operand op = []

-- Whether the program computes the operation itself.
abbrev pub is_skipped : Op → Bool
is_skipped (append xs) = false
is_skipped (prepend xs) = false
is_skipped sha256 = false
is_skipped op = true

unfoldable mutual
  pub item_bytes : Item → List ℕ
  item_bytes (attest tag payload) = op_attestation ∷ (tag ++ varbytes payload)
  item_bytes (apply op child) = op_code op ∷ (operand op ++ stamp_bytes child)

  pub stamp_bytes : Stamp → List ℕ
  stamp_bytes (last item) = item_bytes item
  stamp_bytes (fork item more) = op_branch ∷ (item_bytes item ++ stamp_bytes more)

unfoldable mutual
  pub item_skips : Item → Bool
  item_skips (attest tag payload) = false
  item_skips (apply op child) = is_skipped op || stamp_skips child

  pub stamp_skips : Stamp → Bool
  stamp_skips (last item) = item_skips item
  stamp_skips (fork item more) = item_skips item || stamp_skips more

module _ (sha : Sha) where
  -- The digest that an operation makes; one that is not computed leaves it alone.
  abbrev pub step : Op → List ℕ → List ℕ
  step (append xs) digest = digest ++ xs
  step (prepend xs) digest = xs ++ digest
  step sha256 digest = sha.sha256 digest
  step op digest = digest

  -- What is attested, in the order of the file.
  unfoldable mutual
    pub item_log : Item → List ℕ → List Attestation
    item_log (attest tag payload) digest =
        record { tag = tag; payload = payload; digest = digest } ∷ []
    item_log (apply op child) digest = stamp_log child (step op digest)

    pub stamp_log : Stamp → List ℕ → List Attestation
    stamp_log (last item) digest = item_log item digest
    stamp_log (fork item more) digest = item_log item digest ++ stamp_log more digest

  abbrev pub OpFits : Op → List ℕ → Type 0
  OpFits (append xs) digest = length digest + length xs ≤ max_digest_len
  OpFits (prepend xs) digest = length digest + length xs ≤ max_digest_len
  OpFits op digest = Unit {0}

  -- A tree within the limits of the program.
  unfoldable mutual
    pub ItemFits : Item → List ℕ → ℕ → Type 0
    ItemFits (attest tag payload) digest depth = (length tag ≡ 8) × (length payload ≤ max_varbytes)
    ItemFits (apply op child) digest depth =
        OpFits op digest × StampFits child (step op digest) (depth + 1)

    pub StampFits : Stamp → List ℕ → ℕ → Type 0
    StampFits (last item) digest depth = (depth < max_depth) × ItemFits item digest depth
    StampFits (fork item more) digest depth =
        (depth < max_depth) × ItemFits item digest depth × StampFits more digest depth
