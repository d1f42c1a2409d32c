-- ===== src/Bitstream/Out.antt =====
-- `struct bits_out`, lib/src/compress.c: bits into 16-bit words. `buf` is what lies below `pos` in the
-- buffer, `out` what the callback has been given; whether it takes a piece is a parameter.
use uc.Common.{
  ℕ, ◌+◌, ◌-◌, List, [], ◌∷◌, ◌++◌, Bool, ltb, leb, ◌==◌, if◌then◌else◌, length, bit_or,
}
use uc.Common.Result.{Result, ok, err, stuck, ◌>>=◌}
use uc.Common.Words.{u8, u16, ◌<<<◌, ◌>>>◌}

pub data WriteError : Type 0 where
  write_failed : WriteError

pub record BitsOut : Type 0 where
  pub out : List ℕ
  pub buf : List ℕ
  pub capacity : ℕ
  pub word : ℕ
  pub bits_left : ℕ

unfoldable pub bitsout_init : ℕ → BitsOut
bitsout_init capacity = record { out = []; buf = []; capacity = capacity; word = 0; bits_left = 16 }

module _ (takes : List ℕ → Bool) where
  unfoldable pub bitsout_flush_buf : BitsOut → Result WriteError BitsOut
  bitsout_flush_buf bo =
      if ltb 0 (length bo.buf)
      then (if takes bo.buf
          then ok (record bo { out = bo.out ++ bo.buf; buf = [] })
          else err write_failed)
      else ok bo

  -- A write behind the end of the buffer, which a capacity below two allows, is `stuck`.
  unfoldable pub store_word : ℕ → BitsOut → Result WriteError BitsOut
  store_word w bo =
      if ltb bo.capacity (length bo.buf + 2)
      then stuck
      else ok (record bo { buf = bo.buf ++ (u8 w ∷ u8 (w >>> 8) ∷ []) })

  unfoldable pub bitsout_emit_word : BitsOut → ℕ → Result WriteError BitsOut
  bitsout_emit_word bo w =
      if ltb bo.capacity (length bo.buf + 2)
      then bitsout_flush_buf bo >>= store_word w
      else store_word w bo

  unfoldable pub bitsout_put : BitsOut → ℕ → ℕ → Result WriteError BitsOut
  bitsout_put bo val nbits =
      let left = bo.bits_left in
      let whole = bit_or bo.word (u16 (val <<< (left - nbits))) in
      let second = nbits - left in
      let first = bit_or bo.word (u16 (val >>> second)) in
      if leb nbits left
      then (if left - nbits == 0
          then (bitsout_emit_word bo whole >>= λ b. ok (record b { word = 0; bits_left = 16 }))
          else ok (record bo { word = whole; bits_left = left - nbits }))
      else (bitsout_emit_word bo first >>= λ b.
          ok (record b { word = u16 (val <<< (16 - second)); bits_left = 16 - second }))

  unfoldable pub bitsout_finish : BitsOut → Result WriteError BitsOut
  bitsout_finish bo =
      if ltb bo.bits_left 16
      then bitsout_emit_word bo bo.word >>= bitsout_flush_buf
      else bitsout_flush_buf bo

  -- The calls for a list of values with their widths.
  unfoldable pub put_all : BitsOut → List (ℕ × ℕ) → Result WriteError BitsOut
  put_all bo [] = ok bo
  put_all bo ((val, nbits) ∷ more) = bitsout_put bo val nbits >>= λ b. put_all b more
