-- ===== src/Rans/Coder.antt =====
-- The encoder and the decoder, lib/src/uc2_rans.c. The output buffer grows at its end, as in the
-- code; its growth by `realloc`, which the code does not check, is not modelled.
use uc.Common.{
  ℕ, zero, suc, ◌+◌, ◌-◌, ◌*◌, ◌/◌, ◌%◌, ◌^◌, ◌&&◌, List, [], ◌∷◌, ◌++◌, leb, ltb, ◌==◌,
  if◌then◌else◌, Option, none, some, bit_and, bit_or,
}
use uc.Common.Words.{u8, u32, byte_at, ◌<<<◌, ◌>>>◌}
use mathlib.Core.Option

abbrev pub prob_bits : ℕ
prob_bits = 12

abbrev pub prob_scale : ℕ
prob_scale = 4096

-- `RANS_L`
abbrev pub lower_bound : ℕ
lower_bound = 2 ^ 23

-- `byte_at` reads an entry of either array.
pub record Table : Type 0 where
  pub freq : List ℕ
  pub cumfreq : List ℕ
  pub nsym : ℕ

pub record Encoder : Type 0 where
  pub state : ℕ
  pub rev_buf : List ℕ

unfoldable pub enc_init : Encoder
enc_init = record { state = lower_bound; rev_buf = [] }

-- `while (enc->state >= upper)`; `none` is a loop that ran out of fuel.
unfoldable pub shift_out : ℕ → ℕ → Encoder → Option Encoder
shift_out zero upper e = none
shift_out (suc n) upper e =
    let more =
      shift_out n upper
        (record { state = e.state >>> 8; rev_buf = e.rev_buf ++ (u8 e.state ∷ []) }) in
    if leb upper e.state then more else some e

-- The bound `upper` for a frequency.
abbrev pub upper_bound : ℕ → ℕ
upper_bound freq = u32 (((lower_bound >>> prob_bits) <<< 8) * freq)

-- The state after a symbol.
abbrev pub put_symbol : ℕ → ℕ → Encoder → Encoder
put_symbol freq cumfreq e = record e {
  state = u32 (u32 ((e.state / freq) <<< prob_bits) + cumfreq + e.state % freq);
}

-- Five rounds are enough: four shift out every bit of a state.
unfoldable pub encode : Table → Encoder → ℕ → Option Encoder
encode tab e sym =
    let freq = byte_at tab.freq sym in
    let room = shift_out 5 (upper_bound freq) e in
    if freq == 0 then some e else Option.map (put_symbol freq (byte_at tab.cumfreq sym)) room

unfoldable pub reversed : List ℕ → List ℕ
reversed [] = []
reversed (x ∷ xs) = reversed xs ++ (x ∷ [])

-- The bytes that are returned: the state is put last and comes first.
unfoldable pub enc_finish : Encoder → List ℕ
enc_finish e =
    reversed (
      e.rev_buf ++ u8 e.state ∷ u8 (e.state >>> 8) ∷ u8 (e.state >>> 16) ∷ u8 (e.state >>> 24) ∷ [])

-- What the decoder keeps besides its table: the state, and `data[pos..len)`.
pub record Decoder : Type 0 where
  pub state : ℕ
  pub rest : List ℕ

-- The entry of the lookup table for a slot: the last of the first `n` symbols that fills it.
unfoldable pub lookup_in : Table → ℕ → ℕ → ℕ
lookup_in tab zero slot = 0
lookup_in tab (suc s) slot =
    let others = lookup_in tab s slot in
    if leb (byte_at tab.cumfreq s) slot && ltb slot (byte_at tab.cumfreq s + byte_at tab.freq s)
    then s
    else others

-- `dec->state <<= 8; if (dec->pos < len) dec->state |= data[dec->pos++];`
unfoldable pub pull : Decoder → Decoder
pull d = elim d.rest [
  | [] ↦ record d { state = u32 (d.state <<< 8) }
  | b ∷ rest ↦ record { state = bit_or (u32 (d.state <<< 8)) b; rest = rest }
]

unfoldable pub dec_init : List ℕ → Decoder
unfolding pull
dec_init bytes = pull (pull (pull (pull (record { state = 0; rest = bytes }))))

-- `while (dec->state < RANS_L && dec->pos < dec->len)`
unfoldable pub refill : ℕ → List ℕ → Decoder
refill state [] = record { state = state; rest = [] }
refill state (b ∷ rest) =
    let more = refill (bit_or (u32 (state <<< 8)) b) rest in
    if ltb state lower_bound then more else record { state = state; rest = b ∷ rest }

unfoldable pub decode : Table → Decoder → ℕ × Decoder
decode tab d =
    let slot = bit_and d.state (prob_scale - 1) in
    let sym = lookup_in tab tab.nsym slot in
    let freq = byte_at tab.freq sym in
    let cumfreq = byte_at tab.cumfreq sym in
    (sym, refill (u32 (freq * (d.state >>> prob_bits) + slot + 2 ^ 32 - cumfreq)) d.rest)
