-- ===== src/Ots/Codes.antt =====
-- The constants of lib/include/uc2/uc2_ots.h.
use uc.Common.{ℕ, ◌+◌, ◌^◌, List, [], ◌∷◌}

-- The negative codes.
pub data OtsError : Type 0 where
  truncated noncanonical overflow bad_magic bad_version bad_hash_op : OtsError
  too_deep too_large bad_op : OtsError

abbrev pub op_append : ℕ
op_append = 0xf0

abbrev pub op_prepend : ℕ
op_prepend = 0xf1

abbrev pub op_reverse : ℕ
op_reverse = 0xf2

abbrev pub op_hexlify : ℕ
op_hexlify = 0xf3

abbrev pub op_sha1 : ℕ
op_sha1 = 0x02

abbrev pub op_ripemd160 : ℕ
op_ripemd160 = 0x03

abbrev pub op_sha256 : ℕ
op_sha256 = 0x08

abbrev pub op_keccak256 : ℕ
op_keccak256 = 0x67

abbrev pub op_branch : ℕ
op_branch = 0xff

abbrev pub op_attestation : ℕ
op_attestation = 0x00

-- "\x00OpenTimestamps\x00\x00Proof\x00\xbf\x89\xe2\xe8\x84\xe8\x92\x94"
abbrev pub header_magic : List ℕ
header_magic =
    0x00 ∷ 0x4f ∷ 0x70 ∷ 0x65 ∷ 0x6e ∷ 0x54 ∷ 0x69 ∷ 0x6d ∷ 0x65 ∷ 0x73 ∷ 0x74 ∷ 0x61 ∷ 0x6d ∷ 0x70
    ∷ 0x73 ∷ 0x00 ∷ 0x00 ∷ 0x50 ∷ 0x72 ∷ 0x6f ∷ 0x6f ∷ 0x66 ∷ 0x00 ∷ 0xbf ∷ 0x89 ∷ 0xe2 ∷ 0xe8
    ∷ 0x84 ∷ 0xe8 ∷ 0x92 ∷ 0x94 ∷ []

abbrev pub header_magic_len : ℕ
header_magic_len = 31

abbrev pub ots_version : ℕ
ots_version = 0x01

abbrev pub tag_len : ℕ
tag_len = 8

abbrev pub max_digest_len : ℕ
max_digest_len = 64

abbrev pub max_varbytes : ℕ
max_varbytes = 8192

abbrev pub max_depth : ℕ
max_depth = 32

-- "UC2-OTS\0"
abbrev pub trailer_magic : List ℕ
trailer_magic = 0x55 ∷ 0x43 ∷ 0x32 ∷ 0x2d ∷ 0x4f ∷ 0x54 ∷ 0x53 ∷ 0x00 ∷ []

abbrev pub trailer_magic_len : ℕ
trailer_magic_len = 8

abbrev pub trailer_version : ℕ
trailer_version = 1

abbrev pub trailer_head_len : ℕ
trailer_head_len = trailer_magic_len + 4 + 4 + 4

abbrev pub trailer_tail_len : ℕ
trailer_tail_len = 4 + trailer_magic_len

abbrev pub trailer_overhead : ℕ
trailer_overhead = trailer_head_len + trailer_tail_len

abbrev pub trailer_max_proof : ℕ
trailer_max_proof = 2 ^ 20
