-- ===== src/Dict/Store.antt =====
-- `struct uc2_dict` and its operations, lib/src/uc2_dict.c. A copy that would read behind its buffer
-- is the outcome `out_of_bounds`, which is no value of the C function.
use uc.Common.{
  ℕ, zero, suc, ◌+◌, ◌^◌, Bool, ◌&&◌, not, List, [], ◌++◌, leb, ◌==◌, length, take, drop, bit_or,
}
use uc.Common.Words.{u32, u64, byte_at, bytes32, word32, ◌<<<◌}
use uc.Common.Result.{Result, ok, ◌>>◌, require}
use uc.Cdc.Chunker.{fnv1a}
use uc.Merkle.Tree.{hash64, bytes64}

-- "UC2D"
abbrev pub dict_magic : ℕ
dict_magic = 0x44324355

abbrev pub hdr_size : ℕ
hdr_size = 24

pub data DictError : Type 0 where
  minus_one out_of_bounds : DictError

pub record Dict : Type 0 where
  pub id : ℕ
  pub checksum : ℕ
  pub size : ℕ
  pub content : List ℕ

-- `for (int i = 7; i >= 0; i--) v = (v << 8) | p[i];`
unfoldable pub word64_from : ℕ → List ℕ → ℕ → ℕ
word64_from zero p v = v
word64_from (suc i) p v = word64_from i p (bit_or (u64 (v <<< 8)) (byte_at p i))

unfoldable pub word64 : List ℕ → ℕ
word64 p = word64_from 8 p 0

unfoldable pub dict_create : (ℕ → Bool) → List ℕ → Result DictError Dict
dict_create alloc bytes = do
  require (not (length bytes == 0)) minus_one
  require (alloc (length bytes)) minus_one
  ok (record {
    id = hash64 bytes;
    checksum = fnv1a bytes;
    size = u32 (length bytes);
    content = bytes;
  })

unfoldable pub dict_verify : Dict → Bool
dict_verify d = not (d.size == 0) && fnv1a (take d.size d.content) == d.checksum

-- The header that is stored before the content.
unfoldable pub dict_header : Dict → List ℕ
dict_header d =
    bytes32 dict_magic ++ (bytes64 d.id ++ (bytes32 d.checksum ++ (bytes32 d.size ++ bytes32 0)))

-- The bytes of `*out`; -1 stands for the length 0 that is returned without a buffer.
unfoldable pub dict_serialize : (ℕ → Bool) → Dict → Result DictError (List ℕ)
dict_serialize alloc d = do
  require (leb d.size (2 ^ 30)) minus_one
  require (alloc (hdr_size + d.size)) minus_one
  ok (dict_header d ++ take d.size d.content)

-- `HDR_SIZE + size > len` is a sum of 32 bits, since both terms have no more.
unfoldable pub dict_deserialize : (ℕ → Bool) → List ℕ → Result DictError Dict
dict_deserialize alloc buf =
    let size = word32 (drop 16 buf) in
    do
      require (leb hdr_size (length buf)) minus_one
      require (word32 buf == dict_magic) minus_one
      require (leb (u32 (hdr_size + size)) (length buf)) minus_one
      require (alloc size) minus_one
      require (leb (hdr_size + size) (length buf)) out_of_bounds
      ok (record {
        id = word64 (drop 4 buf);
        checksum = word32 (drop 12 buf);
        size = size;
        content = take size (drop hdr_size buf);
      })

unfoldable pub dict_free : Dict → Dict
dict_free d = record { id = 0; checksum = 0; size = 0; content = [] }
