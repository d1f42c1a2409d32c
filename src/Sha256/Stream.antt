-- ===== src/Sha256/Stream.antt =====
-- The context of SHA-256 and the functions of lib/src/uc2_sha256.c that change it.
use uc.Common.{
  ℕ, zero, suc, ◌+◌, ◌-◌, ◌*◌, List, [], ◌∷◌, ◌++◌, take, drop, length, replicate, copied, ltb, leb,
  ◌==◌, set, if◌then◌else◌, min,
}
use uc.Common.Words.{u8, u64, ◌>>>◌}
use uc.Sha256.Compress.{Registers, block_len, compress, w32be}

pub record Context : Type 0 where
  pub state : Registers
  pub bitcount : ℕ
  pub buf : List ℕ
  pub buf_len : ℕ

abbrev pub initial_registers : Registers
initial_registers = record {
  a = 0x6a09e667;
  b = 0xbb67ae85;
  c = 0x3c6ef372;
  d = 0xa54ff53a;
  e = 0x510e527f;
  f = 0x9b05688c;
  g = 0x1f83d9ab;
  h = 0x5be0cd19;
}

-- `uc2_sha256_init` on a context with the bytes `buf`, which it leaves as they are.
unfoldable pub sha256_init : List ℕ → Context
sha256_init buf = record { state = initial_registers; bitcount = 0; buf = buf; buf_len = 0 }

-- The first part of the update: a block that has been started.
unfoldable pub fill : Context → List ℕ → Context × List ℕ
fill ctx p =
    let n = min (block_len - ctx.buf_len) (length p) in
    let buf = copied ctx.buf ctx.buf_len (take n p) in
    let len = ctx.buf_len + n in
    if len == block_len
    then (record ctx { state = compress ctx.state buf; buf = buf; buf_len = 0 }, drop n p)
    else (record ctx { buf = buf; buf_len = len }, drop n p)

-- `while (len >= UC2_SHA256_BLOCK_LEN)`, with at most `fuel` turns.
unfoldable pub whole_blocks : ℕ → Registers → List ℕ → Registers × List ℕ
whole_blocks zero s p = (s, p)
whole_blocks (suc fuel) s p =
    let rest = whole_blocks fuel (compress s (take block_len p)) (drop block_len p) in
    if leb block_len (length p) then rest else (s, p)

-- The end of the update: `memcpy(ctx->buf, p, len)`.
unfoldable pub keep_rest : Context → List ℕ → Context
keep_rest ctx p =
    if ltb 0 (length p) then record ctx { buf = copied ctx.buf 0 p; buf_len = length p } else ctx

unfoldable pub absorb : Context → List ℕ → Context
absorb ctx p =
    let blocks : Registers × List ℕ = whole_blocks (length p) ctx.state p in
    keep_rest (record ctx { state = blocks.0 }) blocks.1

unfoldable pub sha256_update : Context → List ℕ → Context
sha256_update start p =
    let ctx : Context = record start {
      bitcount = u64 (start.bitcount + u64 (u64 (length p) * 8));
    } in
    let filled : Context × List ℕ = fill ctx p in
    if ltb 0 ctx.buf_len then absorb filled.0 filled.1 else absorb ctx p

-- `bits >> (56 - 8 * i)` for `i` from 0 to 7.
abbrev pub bit_count_bytes : ℕ → List ℕ
bit_count_bytes bits =
    u8 (bits >>> 56)
    ∷ u8 (bits >>> 48)
    ∷ u8 (bits >>> 40)
    ∷ u8 (bits >>> 32)
    ∷ u8 (bits >>> 24)
    ∷ u8 (bits >>> 16)
    ∷ u8 (bits >>> 8)
    ∷ u8 bits
    ∷ []

abbrev pub digest_bytes : Registers → List ℕ
digest_bytes s =
    w32be s.a
    ++ (w32be s.b
        ++ (w32be s.c ++ (w32be s.d ++ (w32be s.e ++ (w32be s.f ++ (w32be s.g ++ w32be s.h))))))

-- `memset(ctx->buf + ctx->buf_len, 0, n)`
abbrev pub clear : List ℕ → ℕ → ℕ → List ℕ
clear buf i n = copied buf i (replicate n 0)

-- The last block, for a buffer with `len` bytes in use.
unfoldable pub last_block : Registers → ℕ → List ℕ → ℕ → Registers
last_block s bits buf len = compress s (copied (clear buf len (56 - len)) 56 (bit_count_bytes bits))

unfoldable pub sha256_final : Context → List ℕ
sha256_final ctx =
    let buf = set ctx.buf ctx.buf_len 0x80 in
    let len = ctx.buf_len + 1 in
    let full = clear buf len (block_len - len) in
    let s =
      if ltb 56 len
      then last_block (compress ctx.state full) ctx.bitcount full 0
      else last_block ctx.state ctx.bitcount buf len in
    digest_bytes s

-- The buffer of the context that `uc2_sha256_hash` declares holds any bytes at first.
unfoldable pub sha256_hash : List ℕ → List ℕ → List ℕ
sha256_hash buf bytes = sha256_final (sha256_update (sha256_init buf) bytes)
