-- ===== src/Lz4/Encode.antt =====
-- `uc2_lz4_compress`, lib/src/uc2_lz4.c. Pointers into the source are indices, `out` is what lies
-- from `dst` to `op`, `cap` is `dst_cap`. Null pointers are not modelled.
use uc.Common.{
  ℕ, zero, suc, ◌+◌, ◌-◌, ◌*◌, ◌/◌, ◌^◌, List, [], ◌∷◌, ◌++◌, ◌&&◌, ◌||◌, Option, none, some, ltb,
  leb, ◌==◌, if◌then◌else◌, length, drop, slice, bit_or,
}
use uc.Common.Result.{Result, ok, err, stuck, ◌>>=◌}
use uc.Common.Words.{byte_at, word32, same_bytes, u8, u16, u32, ◌<<<◌, ◌>>>◌}
use uc.Lz4.Decode.{Refusal, refused, min_match}

unfoldable pub lz4_hash : List ℕ → ℕ
lz4_hash p = u32 (word32 p * 2654435761) >>> 16

-- `htab`
abbrev pub Table : Type 0
Table = ℕ → ℕ

unfoldable pub put : Table → ℕ → ℕ → Table
put htab h v k = if k == h then v else htab k

-- `while (len >= 255)`: the length itself is fuel enough.
unfoldable pub write_len : ℕ → ℕ → List ℕ
write_len zero len = u8 len ∷ []
write_len (suc fuel) len =
    let more = 255 ∷ write_len fuel (len - 255) in if leb 255 len then more else u8 len ∷ []

-- The bytes behind a token for a length whose field of the token holds at most 15.
abbrev pub extra : ℕ → List ℕ
extra len = let bytes = write_len (len - 15) (len - 15) in if leb 15 len then bytes else []

abbrev pub nibble : ℕ → ℕ
nibble len = if ltb len 15 then len else 15

-- What a length costs besides the token, as the code reckons it.
abbrev pub cost : ℕ → ℕ
cost len = if ltb 14 len then len / 255 + 1 else 0

module _ (src : List ℕ) where
  -- The search for a match from `ip` on, up to `mflimit`; the fuel counts the positions left.
  unfoldable pub find_match : ℕ → Table → ℕ → Option (Table × ℕ × ℕ)
  find_match zero htab ip = none
  find_match (suc fuel) htab ip =
      let h = lz4_hash (drop ip src) in
      let ref = htab h in
      let later = find_match fuel (put htab h ip) (ip + 1) in
      if ltb (length src - 12) ip
      then none
      else if ltb ref ip
          && leb (ip - ref) 65535
          && same_bytes min_match (drop ref src) (drop ip src)
      then some (put htab h ip, ref, ip)
      else later

  -- The longest match at `ip`, up to five bytes before the end.
  unfoldable pub extend_match : ℕ → ℕ → ℕ → ℕ → ℕ
  extend_match zero ref ip len = len
  extend_match (suc fuel) ref ip len =
      let more = extend_match fuel ref ip (len + 1) in
      if ltb len (length src - ip - 5) && byte_at src (ref + len) == byte_at src (ip + len)
      then more
      else len

  -- Token, literals from `anchor` to `ip`, offset and length of the match.
  unfoldable pub sequence_bytes : ℕ → ℕ → ℕ → ℕ → List ℕ
  sequence_bytes anchor ip ref len =
      let lit_len = ip - anchor in
      let offset = u16 (ip - ref) in
      u8 (bit_or (nibble lit_len <<< 4) (nibble (len - min_match)))
      ∷ (extra lit_len
          ++ (slice src anchor lit_len
              ++ (u8 offset ∷ u8 (offset >>> 8) ∷ extra (len - min_match))))

  unfoldable pub emit_sequence : ℕ → List ℕ → ℕ → ℕ → ℕ → ℕ → Result Refusal (List ℕ)
  emit_sequence cap out anchor ip ref len =
      let lit_len = ip - anchor in
      let overhead = 3 + cost lit_len + cost (len - min_match) in
      let room = cap - length out in
      if ltb room lit_len || ltb (room - lit_len) overhead
      then err refused
      else ok (out ++ sequence_bytes anchor ip ref len)

  unfoldable pub emit_last : ℕ → List ℕ → ℕ → Result Refusal (List ℕ)
  emit_last cap out anchor =
      let last_lit = length src - anchor in
      let room = cap - length out in
      if ltb room last_lit || ltb (room - last_lit) (1 + cost last_lit)
      then err refused
      else ok (out ++ (u8 (nibble last_lit <<< 4) ∷ (extra last_lit ++ slice src anchor last_lit)))

  -- The outer loop; every turn but the last moves `ip` on.
  unfoldable pub compress_from : ℕ → ℕ → Table → ℕ → ℕ → List ℕ → Result Refusal (List ℕ)
  compress_from zero cap htab ip anchor out = stuck
  compress_from (suc fuel) cap htab ip anchor out =
      elim (find_match (length src - 11 - ip) htab ip) [
        | none ↦ emit_last cap out anchor
        | some (htab', ref, at) ↦
            let len = extend_match (length src) ref at min_match in
            let next = at + len in
            emit_sequence cap out anchor at ref len >>= λ out'.
            let more =
              compress_from fuel cap (put htab' (lz4_hash (drop (next - 2) src)) (next - 2)) next
                next out' in
            if ltb (length src - 12) next then emit_last cap out' next else more
      ]

  unfoldable pub lz4_compress : ℕ → Result Refusal (List ℕ)
  lz4_compress cap =
      let whole = compress_from (length src) cap (λ h. 0) 1 0 [] in
      if ltb cap 1 || ltb (2 ^ 32 - 1) (length src)
      then err refused
      else if length src == 0
      then ok (0 ∷ [])
      else if ltb (length src) 13
      then emit_last cap [] 0
      else whole

-- `uc2_lz4_bound`, lib/include/uc2/uc2_lz4.h.
unfoldable pub lz4_bound : ℕ → ℕ
lz4_bound src_len =
    if ltb (2 ^ 32 - 1) src_len || ltb (2 ^ 64 - 1 - 16 - src_len / 255) src_len
    then 0
    else src_len + src_len / 255 + 16
