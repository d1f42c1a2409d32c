-- ===== src/Bitstream/In.antt =====
-- `struct bits`, lib/src/decompress.c: bits out of 16-bit words. `window` is what lies from `head` to
-- `tail` in the buffer of 4096 bytes. The reader is the pieces that its calls return.
use uc.Common.{
  ℕ, zero, suc, ◌+◌, ◌-◌, ◌^◌, List, [], ◌∷◌, ◌++◌, ltb, ◌==◌, if◌then◌else◌, length, take, drop,
  bit_or, bit_and,
}
use uc.Common.Result.{Result, ok, err, stuck, ◌>>=◌}
use uc.Common.Words.{u32, u64, byte_at, ◌<<<◌, ◌>>>◌}

pub data ReadError : Type 0 where
  truncated : ReadError

pub record BitsIn : Type 0 where
  pub consumed : ℕ
  pub bits : ℕ
  pub have_bits : ℕ
  pub window : List ℕ
  pub pieces : List (List ℕ)

unfoldable pub bits_init : List (List ℕ) → BitsIn
bits_init pieces = record { consumed = 0; bits = 0; have_bits = 0; window = []; pieces = pieces }

-- A call of the reader for at most `size` bytes; a piece that is longer is returned in parts. An empty
-- piece is a call that returns 0.
unfoldable pub read_piece : ℕ → List (List ℕ) → List ℕ × List (List ℕ)
read_piece size [] = ([], [])
read_piece size (p ∷ ps) = if ltb size (length p) then (take size p, drop size p ∷ ps) else (p, ps)

-- The loop that reads until a pair of bytes is there. A call that returns anything returns a byte at
-- least, so two turns are enough.
unfoldable pub fill_window : ℕ → BitsIn → Result ReadError BitsIn
fill_window zero bi = if ltb (length bi.window) 2 then stuck else ok bi
fill_window (suc fuel) bi =
    let (p, ps) = read_piece (4096 - length bi.window) bi.pieces in
    let more = fill_window fuel (record bi { window = bi.window ++ p; pieces = ps }) in
    if ltb (length bi.window) 2 then (if length p == 0 then err truncated else more) else ok bi

-- The pair at the head goes to the low end of `bits`.
unfoldable pub take_word : BitsIn → BitsIn
take_word bi = record bi {
  bits = bit_or (bit_or (u32 (bi.bits <<< 16)) (byte_at bi.window 0)) (byte_at bi.window 1 <<< 8);
  window = drop 2 bi.window;
  have_bits = bi.have_bits + 16;
}

unfoldable pub bits_feed : BitsIn → ℕ → Result ReadError BitsIn
bits_feed bi n =
    let fed = fill_window 2 bi >>= λ b. ok (take_word b) in
    if ltb bi.have_bits n then fed else ok bi

unfoldable pub bits_peek : BitsIn → ℕ → Result ReadError (ℕ × BitsIn)
bits_peek bi n = bits_feed bi n >>= λ b. ok (bit_and (b.bits >>> (b.have_bits - n)) (2 ^ n - 1), b)

unfoldable pub bits_skip : BitsIn → ℕ → BitsIn
bits_skip bi n = record bi { have_bits = bi.have_bits - n; consumed = u64 (bi.consumed + n) }

unfoldable pub bits_get : BitsIn → ℕ → Result ReadError (ℕ × BitsIn)
bits_get bi n = bits_peek bi n >>= λ (v, b). ok (v, bits_skip b n)

-- The calls for a list of widths.
unfoldable pub get_all : BitsIn → List ℕ → Result ReadError (List ℕ)
get_all bi [] = ok []
get_all bi (n ∷ ns) = bits_get bi n >>= λ (v, b). get_all b ns >>= λ vs. ok (v ∷ vs)
