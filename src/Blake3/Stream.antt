-- ===== src/Blake3/Stream.antt =====
-- The context of BLAKE3 and the functions of lib/src/uc2_blake3.c that change it. The stack is the
-- list of its chaining values, the last one first. An access outside of its 54 places has no result.
use uc.Common.{
  ℕ, zero, suc, ◌+◌, ◌-◌, ◌/◌, List, [], ◌∷◌, ◌++◌, Bool, Option, none, some, ltb, ◌==◌,
  if◌then◌else◌, bit_or, bit_xor, bit_and, take, drop, length, replicate, copied, min,
}
use uc.Common.Words.{u8, u64, byte_at}
use uc.Blake3.Compress.{iv, chunk_start, chunk_end, root, compress_cv, parent_cv, words_bytes}
use mathlib.Core.Option

abbrev pub block_len : ℕ
block_len = 64

abbrev pub max_depth : ℕ
max_depth = 54

pub record Context : Type 0 where
  pub cv : List ℕ
  pub buf : List ℕ
  pub buf_len : ℕ
  pub flags : ℕ
  pub cv_stack : List (List ℕ)
  pub chunk_counter : ℕ
  pub blocks_compressed : ℕ

-- `if (ctx->blocks_compressed == 0) flags |= CHUNK_START`
abbrev pub starting : ℕ → ℕ → ℕ
starting blocks flags = if blocks == 0 then bit_or flags chunk_start else flags

-- Process one block within a chunk.
unfoldable pub chunk_block : Context → Context
chunk_block ctx = record ctx {
  cv =
      compress_cv ctx.cv ctx.buf block_len ctx.chunk_counter
        (starting ctx.blocks_compressed ctx.flags);
  blocks_compressed = u8 (ctx.blocks_compressed + 1);
}

-- The bytes in use, and zeros.
abbrev pub padded_block : Context → List ℕ
padded_block ctx = take ctx.buf_len ctx.buf ++ replicate (block_len - ctx.buf_len) 0

unfoldable pub chunk_finalize : Context → List ℕ
chunk_finalize ctx =
    compress_cv ctx.cv (padded_block ctx) ctx.buf_len ctx.chunk_counter
      (starting ctx.blocks_compressed (bit_or ctx.flags chunk_end))

-- `while (total & 1)`: a counter of 64 bits is zero after 64 shifts.
unfoldable pub merge_full : ℕ → ℕ → List ℕ → List (List ℕ) → Option (List (List ℕ))
merge_full fuel total new_cv [] = if bit_and total 1 == 1 then none else some (new_cv ∷ [])
merge_full zero total new_cv (left ∷ stack) =
    if bit_and total 1 == 1 then none else some (new_cv ∷ left ∷ stack)
merge_full (suc fuel) total new_cv (left ∷ stack) =
    let merged = merge_full fuel (total / 2) (parent_cv left new_cv 0) stack in
    if bit_and total 1 == 1 then merged else some (new_cv ∷ left ∷ stack)

unfoldable pub push_cv : Context → List ℕ → Option Context
push_cv ctx new_cv =
    Option.bind (merge_full 64 ctx.chunk_counter new_cv ctx.cv_stack) (λ stack.
      if ltb max_depth (length stack) then none else some (record ctx { cv_stack = stack }))

unfoldable pub blake3_init : Context
blake3_init = record {
  cv = iv;
  buf = replicate 64 0;
  buf_len = 0;
  flags = 0;
  cv_stack = [];
  chunk_counter = 0;
  blocks_compressed = 0;
}

-- A chunk that is complete.
abbrev pub next_chunk : Context → Context
next_chunk ctx = record ctx {
  chunk_counter = u64 (ctx.chunk_counter + 1);
  cv = iv;
  blocks_compressed = 0;
  buf_len = 0;
}

-- What the update does before it takes more bytes.
unfoldable pub flush : Context → Option Context
flush ctx =
    let chunk = Option.map next_chunk (push_cv ctx (chunk_finalize ctx)) in
    if ctx.buf_len == block_len
    then (if ctx.blocks_compressed == 15
        then chunk
        else some (record (chunk_block ctx) { buf_len = 0 }))
    else some ctx

abbrev pub take_bytes : Context → List ℕ → Context
take_bytes ctx p = record ctx {
  buf = copied ctx.buf ctx.buf_len p;
  buf_len = u8 (ctx.buf_len + u8 (length p));
}

-- `while (len > 0)`: a turn takes a byte at least.
unfoldable pub update_loop : ℕ → Context → List ℕ → Option Context
update_loop fuel ctx [] = some ctx
update_loop zero ctx (x ∷ xs) = none
update_loop (suc fuel) ctx (x ∷ xs) = Option.bind (flush ctx) (λ ready.
    let n = min (block_len - ready.buf_len) (length (x ∷ xs)) in
    update_loop fuel (take_bytes ready (take n (x ∷ xs))) (drop n (x ∷ xs)))

unfoldable pub blake3_update : Context → List ℕ → Option Context
blake3_update ctx p = update_loop (length p) ctx p

-- The loop on `i`, from the top of the stack to its bottom.
unfoldable pub merge_up : List ℕ → List (List ℕ) → List ℕ
merge_up cv [] = cv
merge_up cv (left ∷ []) = parent_cv left cv root
merge_up cv (left ∷ next ∷ stack) = merge_up (parent_cv left cv 0) (next ∷ stack)

unfoldable pub blake3_final : Context → List ℕ
blake3_final ctx =
    let single =
      compress_cv ctx.cv (padded_block ctx) ctx.buf_len 0
        (starting ctx.blocks_compressed (bit_or (bit_or ctx.flags chunk_end) root)) in
    let cv =
      if length ctx.cv_stack == 0 then single else merge_up (chunk_finalize ctx) ctx.cv_stack in
    words_bytes cv

unfoldable pub blake3_hash : List ℕ → Option (List ℕ)
blake3_hash bytes = Option.map blake3_final (blake3_update blake3_init bytes)

-- The loop of `uc2_blake3_equal` on `n` bytes.
unfoldable pub differing_bits : ℕ → ℕ → List ℕ → List ℕ → ℕ
differing_bits zero diff a b = diff
differing_bits (suc n) diff a b =
    differing_bits n (u8 (bit_or diff (bit_xor (byte_at a 0) (byte_at b 0)))) (drop 1 a) (drop 1 b)

unfoldable pub blake3_equal : List ℕ → List ℕ → Bool
blake3_equal a b = differing_bits 32 0 a b == 0
