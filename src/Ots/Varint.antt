-- ===== src/Ots/Varint.antt =====
-- `uc2_ots_varint_decode`, `uc2_ots_varint_encode` and `read_varbytes`, lib/src/uc2_ots.c.
use uc.Common.{
  ℕ, ◌+◌, ◌-◌, ◌≤◌, ◌<◌, bit_and, bit_or, ◌&&◌, List, [], ◌∷◌, ltb, leb, ◌==◌, if◌then◌else◌,
  length, take, drop, arith,
}
use uc.Common.Order.{lt_wf}
use uc.Common.Result.{Result, ok, err, ◌>>=◌, ◌>>◌, require}
use uc.Common.Words.{u8, u64, ◌<<<◌, ◌>>>◌}
use uc.Ots.Codes.{OtsError, truncated, noncanonical, overflow, too_large, max_varbytes}
use mathlib.Core.Logic.{dite}
use mathlib.Core.WellFounded.{Acc}
use native.Mathlib.Decide.{dec_le}

-- The loop; the list is `in[i..in_len)`. The result is `*out_value` and `*consumed`.
unfoldable pub decode_from : List ℕ → ℕ → ℕ → ℕ → Result OtsError (ℕ × ℕ)
decode_from [] v shift i = err truncated
decode_from (b ∷ rest) v shift i =
    let group = bit_and b 0x7f in
    let v' = bit_or v (u64 (group <<< shift)) in
    let more = decode_from rest v' (shift + 7) (i + 1) in
    if leb 64 shift
    then err overflow
    else if shift == 63 && ltb 1 group
    then err overflow
    else if bit_and b 0x80 == 0
    then (if ltb 1 (i + 1) && b == 0 then err noncanonical else ok (v', i + 1))
    else more

unfoldable pub varint_decode : List ℕ → Result OtsError (ℕ × ℕ)
varint_decode src = decode_from src 0 0 0

pub shift_falls : (value : ℕ) → 0x80 ≤ value → value >>> 7 < value
shift_falls value h = omega arith

-- The bytes that the loop stores, for any number.
unfoldable pub encode_acc : (value : ℕ) → Acc ◌<◌ value → List ℕ
encode_acc value (Acc.intro _ smaller) =
    dite (dec_le 0x80 value)
      (λ h. u8 (bit_or value 0x80) ∷ encode_acc (value >>> 7) (smaller _ (shift_falls value h)))
      (λ _. u8 value ∷ [])

unfoldable pub varint_encode : ℕ → List ℕ
unfolding encode_acc lt_wf dec_le
varint_encode value = encode_acc value (lt_wf.apply value)

-- The field's bytes and how many bytes it took.
unfoldable pub read_varbytes : List ℕ → Result OtsError (List ℕ × ℕ)
read_varbytes p = do
  (n, lc) ← varint_decode p
  require (leb n max_varbytes) too_large
  require (leb n (length p - lc)) truncated
  ok (take n (drop lc p), lc + n)
