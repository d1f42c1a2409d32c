-- ===== src/Cdc/Chunker.antt =====
-- `struct uc2_chunker`, its operations and the 32-bit hashes, lib/src/uc2_cdc.c.
use uc.Common.{
  ℕ, zero, suc, ◌+◌, ◌-◌, ◌*◌, ◌^◌, Bool, true, false, List, [], ◌∷◌, ltb, ◌==◌, if◌then◌else◌,
  length, drop, slice, Option, none, some, bit_and, bit_xor,
}
use uc.Common.Words.{u32, byte_at, ◌<<<◌}
use uc.Cdc.GearTable.{gear_table}

-- `h = (h << 1) + gear_table[b]`
unfoldable pub roll : ℕ → ℕ → ℕ
roll h b = u32 (u32 (h <<< 1) + byte_at gear_table b)

unfoldable pub gear_from : ℕ → List ℕ → ℕ
gear_from h [] = h
gear_from h (b ∷ rest) = gear_from (roll h b) rest

unfoldable pub gear_hash : List ℕ → ℕ
gear_hash bytes = gear_from 0 bytes

unfoldable pub fnv1a_from : ℕ → List ℕ → ℕ
fnv1a_from h [] = h
fnv1a_from h (b ∷ rest) = fnv1a_from (u32 (bit_xor h b * 16777619)) rest

unfoldable pub fnv1a : List ℕ → ℕ
fnv1a bytes = fnv1a_from 2166136261 bytes

pub record Chunker : Type 0 where
  pub mask : ℕ
  pub min_chunk : ℕ
  pub max_chunk : ℕ
  pub pos : ℕ

-- A number of bits below 8 is 8, one above 20 is 20.
abbrev pub clamp_bits : ℕ → ℕ
clamp_bits bits = if ltb bits 8 then 8 else if ltb 20 bits then 20 else bits

unfoldable pub chunker_init : ℕ → ℕ → ℕ → Chunker
chunker_init bits min_chunk max_chunk =
    let b = clamp_bits bits in
    record {
      mask = 2 ^ b - 1;
      min_chunk = if min_chunk == 0 then 2 ^ (b - 2) else min_chunk;
      max_chunk = if max_chunk == 0 then 2 ^ (b + 2) else max_chunk;
      pos = 0;
    }

unfoldable pub chunker_reset : Chunker → Chunker
chunker_reset c = record c { pos = 0 }

-- `i + 1` for the first `i` below `i + n` where the hash meets the mask; the list is `data[i..)`.
unfoldable pub find_boundary : ℕ → ℕ → ℕ → ℕ → List ℕ → Option ℕ
find_boundary mask h i zero bytes = none
find_boundary mask h i (suc n) [] = none
find_boundary mask h i (suc n) (b ∷ rest) =
    let more = find_boundary mask (roll h b) (i + 1) n rest in
    if bit_and (roll h b) mask == 0 then some (i + 1) else more

-- `*chunk_off`, `*chunk_len` and the value that is returned.
pub record Chunk : Type 0 where
  pub off : ℕ
  pub len : ℕ
  pub more : Bool

-- `a < b ? a : b`
abbrev pub smaller : ℕ → ℕ → ℕ
smaller a b = if ltb a b then a else b

-- The chunk from `start` to `stop`, with the value that is returned.
abbrev pub cut : Chunker → ℕ → ℕ → Bool → Chunk × Chunker
cut c start stop more =
    (record { off = start; len = stop - start; more = more }, record c { pos = stop })

-- The chunk that ends at a boundary, or at `stop` if there is none.
unfoldable pub cut_at : Chunker → ℕ → ℕ → ℕ → Option ℕ → Chunk × Chunker
cut_at c start stop len none = cut c start stop (ltb stop len)
cut_at c start stop len (some boundary) = cut c start boundary true

unfoldable pub chunker_next : Chunker → List ℕ → Chunk × Chunker
chunker_next c bytes =
    let len = length bytes in
    let start = c.pos in
    let stop = start + smaller c.max_chunk (len - start) in
    let scan = start + smaller c.min_chunk (stop - start) in
    let h = gear_from 0 (slice bytes start (scan - start)) in
    if ltb start len
    then cut_at c start stop len (find_boundary c.mask h scan (stop - scan) (drop scan bytes))
    else (record { off = len; len = 0; more = false }, c)
