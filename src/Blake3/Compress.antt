-- ===== src/Blake3/Compress.antt =====
-- The compression function of BLAKE3 (`compress`, lib/src/uc2_blake3.c) on 32-bit words. An array of
-- words is a list; `byte_at` reads an entry.
use uc.Common.{ℕ, zero, suc, ◌+◌, ◌-◌, List, [], ◌∷◌, ◌++◌, bit_or, bit_xor, drop, map, set}
use uc.Common.Words.{u32, ◌<<<◌, ◌>>>◌, byte_at, bytes32, word32}

abbrev pub iv : List ℕ
iv =
    0x6A09E667 ∷ 0xBB67AE85 ∷ 0x3C6EF372 ∷ 0xA54FF53A ∷ 0x510E527F ∷ 0x9B05688C ∷ 0x1F83D9AB
    ∷ 0x5BE0CD19 ∷ []

abbrev pub chunk_start : ℕ
chunk_start = 1

abbrev pub chunk_end : ℕ
chunk_end = 2

abbrev pub parent : ℕ
parent = 4

abbrev pub root : ℕ
root = 8

-- `MSG_SCHEDULE`
abbrev msg_schedule : List (List ℕ)
msg_schedule =
    (0 ∷ 1 ∷ 2 ∷ 3 ∷ 4 ∷ 5 ∷ 6 ∷ 7 ∷ 8 ∷ 9 ∷ 10 ∷ 11 ∷ 12 ∷ 13 ∷ 14 ∷ 15 ∷ [])
    ∷ (2 ∷ 6 ∷ 3 ∷ 10 ∷ 7 ∷ 0 ∷ 4 ∷ 13 ∷ 1 ∷ 11 ∷ 12 ∷ 5 ∷ 9 ∷ 14 ∷ 15 ∷ 8 ∷ [])
    ∷ (3 ∷ 4 ∷ 10 ∷ 12 ∷ 13 ∷ 2 ∷ 7 ∷ 14 ∷ 6 ∷ 5 ∷ 9 ∷ 0 ∷ 11 ∷ 15 ∷ 8 ∷ 1 ∷ [])
    ∷ (10 ∷ 7 ∷ 12 ∷ 9 ∷ 14 ∷ 3 ∷ 13 ∷ 15 ∷ 4 ∷ 0 ∷ 11 ∷ 2 ∷ 5 ∷ 8 ∷ 1 ∷ 6 ∷ [])
    ∷ (12 ∷ 13 ∷ 9 ∷ 11 ∷ 15 ∷ 10 ∷ 14 ∷ 8 ∷ 7 ∷ 2 ∷ 5 ∷ 3 ∷ 0 ∷ 1 ∷ 6 ∷ 4 ∷ [])
    ∷ (9 ∷ 14 ∷ 11 ∷ 5 ∷ 8 ∷ 12 ∷ 15 ∷ 1 ∷ 13 ∷ 3 ∷ 0 ∷ 10 ∷ 2 ∷ 6 ∷ 4 ∷ 7 ∷ [])
    ∷ (11 ∷ 15 ∷ 5 ∷ 0 ∷ 1 ∷ 9 ∷ 8 ∷ 6 ∷ 14 ∷ 10 ∷ 2 ∷ 12 ∷ 3 ∷ 4 ∷ 7 ∷ 13 ∷ [])
    ∷ []

abbrev rotr : ℕ → ℕ → ℕ
rotr x n = bit_or (x >>> n) (u32 (x <<< (32 - n)))

-- Half of `g`: two words are mixed with one word of the message.
abbrev half_mix : List ℕ → ℕ → ℕ → ℕ → ℕ → ℕ → ℕ → ℕ → List ℕ
half_mix s a b c d m n k =
    let s1 = set s a (u32 (byte_at s a + byte_at s b + m)) in
    let s2 = set s1 d (rotr (bit_xor (byte_at s1 d) (byte_at s1 a)) n) in
    let s3 = set s2 c (u32 (byte_at s2 c + byte_at s2 d)) in
    set s3 b (rotr (bit_xor (byte_at s3 b) (byte_at s3 c)) k)

-- `g`
abbrev mix : List ℕ → ℕ → ℕ → ℕ → ℕ → ℕ → ℕ → List ℕ
mix s a b c d mx my = half_mix (half_mix s a b c d mx 16 12) a b c d my 8 7

abbrev round_fn : List ℕ → List ℕ → List ℕ
round_fn s m =
    let s1 = mix s 0 4 8 12 (byte_at m 0) (byte_at m 1) in
    let s2 = mix s1 1 5 9 13 (byte_at m 2) (byte_at m 3) in
    let s3 = mix s2 2 6 10 14 (byte_at m 4) (byte_at m 5) in
    let s4 = mix s3 3 7 11 15 (byte_at m 6) (byte_at m 7) in
    let s5 = mix s4 0 5 10 15 (byte_at m 8) (byte_at m 9) in
    let s6 = mix s5 1 6 11 12 (byte_at m 10) (byte_at m 11) in
    let s7 = mix s6 2 7 8 13 (byte_at m 12) (byte_at m 13) in
    mix s7 3 4 9 14 (byte_at m 14) (byte_at m 15)

abbrev round_loop : List (List ℕ) → List ℕ → List ℕ → List ℕ
round_loop [] m s = s
round_loop (row ∷ rows) m s = round_loop rows m (round_fn s (map (byte_at m) row))

-- `n` words of the block.
abbrev block_words : ℕ → List ℕ → List ℕ
block_words zero block = []
block_words (suc n) block = word32 block ∷ block_words n (drop 4 block)

-- `x[i] ^ y[i]`
abbrev xor_words : List ℕ → List ℕ → List ℕ
xor_words (x ∷ xs) (y ∷ ys) = bit_xor x y ∷ xor_words xs ys
xor_words [] ys = []
xor_words (x ∷ xs) [] = []

-- The first eight words of the output: what `cv_from_out` keeps. The others are never used.
unfoldable pub compress_cv : List ℕ → List ℕ → ℕ → ℕ → ℕ → List ℕ
compress_cv cv block block_len counter flags =
    let start =
      cv
      ++ (byte_at iv 0
          ∷ byte_at iv 1
          ∷ byte_at iv 2
          ∷ byte_at iv 3
          ∷ u32 counter
          ∷ u32 (counter >>> 32)
          ∷ block_len
          ∷ flags
          ∷ []) in
    let s = round_loop msg_schedule (block_words 16 block) start in xor_words s (drop 8 s)

-- `block[i*4] ...` for each word.
abbrev pub words_bytes : List ℕ → List ℕ
words_bytes [] = []
words_bytes (w ∷ ws) = bytes32 w ++ words_bytes ws

unfoldable pub parent_cv : List ℕ → List ℕ → ℕ → List ℕ
parent_cv left right flags =
    compress_cv iv (words_bytes left ++ words_bytes right) 64 0 (bit_or parent flags)
