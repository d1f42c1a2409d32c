-- ===== src/Lz4/RoundTrip.antt =====
-- `uc2_lz4_decompress` after `uc2_lz4_compress`, lib/src/uc2_lz4.c.
use uc.Common.{
  ℕ, zero, suc, ◌+◌, ◌-◌, ◌^◌, ◌≤◌, ◌<◌, ◌≡◌, refl, ap, ◌∙◌, List, [], ◌∷◌, ◌++◌, length, take,
  drop, slice, arith, Bool-cases, inl, inr, ◌⊎◌, ltb, leb, Option-cases, true, append_assoc, le→leb,
  lt→ltb, length-append, if◌then◌else◌,
}
use mathlib.Core.Path.{subst}
use uc.Common.Words.{u8, ◌<<<◌}
use uc.Common.Result.{ok, Result, ◌>>=◌, >>=-eq-ok}
use uc.Lz4.Decode.{Refusal, copy_literals, sequences, lz4_decompress, literal_length}
use uc.Lz4.Encode.{
  Table, lz4_hash, put, find_match, extend_match, extra, nibble, sequence_bytes, emit_sequence,
  emit_last, compress_from, lz4_compress,
}
use uc.Lz4.Matches.{Same, IsMatch, find_match-IsMatch, extend_match_bounds}
use uc.Lz4.Steps.{sequence_step, last_step}

module _ (src : List ℕ) (size : length src < 2 ^ 32) (cap : ℕ) (room : length src ≤ cap) where
  -- The bytes decode to what is left of the source from `anchor` on.
  abbrev Decodes : List ℕ → ℕ → Type 0
  Decodes bs anchor =
      (fuel : ℕ) → length bs ≤ fuel → sequences fuel cap bs (take anchor src) ≡ ok src

  abbrev Extends : List ℕ → ℕ → List ℕ → Type 0
  Extends out anchor res = (bs : List ℕ) × (res ≡ out ++ bs) × Decodes bs anchor

  module _ (dst_cap : ℕ) where
    emit_last-Extends :
        (out res : List ℕ) (anchor : ℕ)
        → anchor ≤ length src
        → emit_last src dst_cap out anchor ≡ ok res
        → Extends out anchor res
    unfolding emit_last
    emit_last-Extends out res anchor h e = (last_bytes, ground arith, reads)
      where
        last_bytes : List ℕ
        last_bytes =
            u8 (nibble (length src - anchor) <<< 4)
            ∷ (extra (length src - anchor) ++ slice src anchor (length src - anchor))

        reads : Decodes last_bytes anchor
        reads zero few = absurd (omega arith)
        reads (suc fuel) enough = last_step src size cap room fuel anchor h

    emit_sequence-ok :
        (out res : List ℕ) (anchor ip ref len : ℕ)
        → emit_sequence src dst_cap out anchor ip ref len ≡ ok res
        → res ≡ out ++ sequence_bytes src anchor ip ref len
    unfolding emit_sequence
    emit_sequence-ok out res anchor ip ref len e = ground arith

    -- A sequence and what decodes from behind its match on.
    sequence-Extends :
        (out res : List ℕ) (anchor ip ref len : ℕ)
        → anchor ≤ ip
        → ref < ip
        → ip - ref ≤ 65535
        → 4 ≤ len
        → ip + len ≤ length src
        → Same src ref ip len
        → Extends (out ++ sequence_bytes src anchor ip ref len) (ip + len) res
        → Extends out anchor res
    sequence-Extends out res anchor ip ref len order earlier near long inside same (bs, e, rest) = (
      sequence_bytes src anchor ip ref len ++ bs,
      e ∙ append_assoc out (sequence_bytes src anchor ip ref len) bs,
      reads,
    )
      where
        some_bytes : 1 ≤ length (sequence_bytes src anchor ip ref len)
        some_bytes = unfold sequence_bytes in omega arith

        count :
            length (sequence_bytes src anchor ip ref len ++ bs)
            ≡ length (sequence_bytes src anchor ip ref len) + length bs
        count = length-append (sequence_bytes src anchor ip ref len) bs

        reads : Decodes (sequence_bytes src anchor ip ref len ++ bs) anchor
        reads zero few = absurd (omega (arith, some_bytes, count))
        reads (suc fuel) enough =
            sequence_step src size cap room fuel anchor ip ref len bs order earlier near long inside
              same
            ∙ rest fuel (omega (arith, some_bytes, count))

    -- What a turn does once a match is written.
    rest_of : ℕ → Table → ℕ → List ℕ → Result Refusal (List ℕ)
    rest_of fuel htab next out =
        if ltb (length src - 12) next
        then emit_last src dst_cap out next
        else compress_from src fuel dst_cap (put htab (lz4_hash (drop (next - 2) src)) (next - 2))
            next next out

    abbrev Recurs : ℕ → Type 0
    Recurs fuel =
        (htab : Table) (ip anchor : ℕ) (out res : List ℕ)
        → anchor ≤ ip
        → anchor ≤ length src
        → compress_from src fuel dst_cap htab ip anchor out ≡ ok res
        → Extends out anchor res

    rest_of-Extends :
        (fuel : ℕ) (htab : Table) (next : ℕ) (out res : List ℕ)
        → Recurs fuel
        → next ≤ length src
        → rest_of fuel htab next out ≡ ok res
        → Extends out next res
    unfolding rest_of
    rest_of-Extends fuel htab next out res rec fits e =
        elim (Bool-cases (ltb (length src - 12) next)) [
          | inl end ↦ emit_last-Extends out res next fits (rw end at e)
          | inr more ↦
              rec (put htab (lz4_hash (drop (next - 2) src)) (next - 2)) next next out res
                (omega arith) fits (rw more at e)
        ]

    turn-Extends :
        (fuel : ℕ) (htab : Table) (ip anchor ref at : ℕ) (out res : List ℕ)
        → Recurs fuel
        → anchor ≤ ip
        → IsMatch src ip ref at
        → (emit_sequence src dst_cap out anchor at ref (extend_match src (length src) ref at 4)
            >>= rest_of fuel htab (at + extend_match src (length src) ref at 4))
          ≡ ok res
        → Extends out anchor res
    turn-Extends fuel htab ip anchor ref at out res rec order m e =
        let len = extend_match src (length src) ref at 4 in
        let (lower, upper, same) =
          extend_match_bounds src (length src) ref at 4 (omega (arith, m.inside)) m.same in
        let (out', emitted, more) =
          >>=-eq-ok (emit_sequence src dst_cap out anchor at ref len) (rest_of fuel htab (at + len))
            e in
        let fits : at + len ≤ length src = omega (arith, upper, m.inside) in
        let written = emit_sequence-ok out out' anchor at ref len emitted in
        sequence-Extends out res anchor at ref len (omega (arith, m.later)) m.earlier m.near lower
          fits same
          (subst (λ o. Extends o (at + len) res) written
            (rest_of-Extends fuel htab (at + len) out' res rec fits more))

    compress_from-Extends : 12 ≤ length src → (fuel : ℕ) → Recurs fuel
    unfolding compress_from rest_of
    compress_from-Extends long zero htab ip anchor out res order inside e = cc
    compress_from-Extends long (suc fuel) htab ip anchor out res order inside e =
        elim (Option-cases (find_match src (length src - 11 - ip) htab ip)) [
          | inl end ↦ emit_last-Extends out res anchor inside (rw (compress_from, end) at e)
          | inr ((htab', ref, at), hit) ↦
              turn-Extends fuel htab' ip anchor ref at out res (compress_from-Extends long fuel)
                order (find_match-IsMatch src (length src - 11 - ip) htab htab' ip ref at long hit)
                (rw (compress_from, hit) at e)
        ]

decodes :
    (src out : List ℕ) (size : length src < 2 ^ 32) (cap : ℕ) (room : length src ≤ cap)
    → Extends src size cap room [] 0 out
    → sequences (length out) cap out [] ≡ ok src
decodes src out size cap room (bs, same, reads) =
    ap (λ t. sequences (length out) cap t []) same
    ∙ reads (length out) (omega (arith, ap length same))

-- Bytes that decode are not empty, so the decoder takes them.
accepted :
    (src out : List ℕ) (cap : ℕ)
    → 0 < length out
    → sequences (length out) cap out [] ≡ ok src
    → lz4_decompress out cap ≡ ok src
unfolding lz4_decompress
accepted src out cap some_bytes h =
    let test : ltb 0 (length out) ≡ true = lt→ltb 0 (length out) some_bytes in rw test h

-- The checks on the arguments, and the three ways that the function goes on.
compress_cases :
    (src out : List ℕ) (dst_cap : ℕ)
    → lz4_compress src dst_cap ≡ ok out
    → (length src < 2 ^ 32)
      × (((length src ≡ 0) × (out ≡ 0 ∷ []))
          ⊎ (((1 ≤ length src) × (emit_last src dst_cap [] 0 ≡ ok out))
              ⊎ ((13 ≤ length src)
                  × (compress_from src (length src) dst_cap (λ h. 0) 1 0 [] ≡ ok out))))
unfolding lz4_compress
compress_cases src out dst_cap e = ground arith

decoded :
    (src out : List ℕ) (cap : ℕ)
    → 1 ≤ length src
    → sequences (length out) cap out [] ≡ ok src
    → lz4_decompress out cap ≡ ok src
decoded src [] cap some_source h = absurd (unfold sequences in nothing h)
  where
    nothing : ◌≡◌ {A = Result Refusal (List ℕ)} (ok []) (ok src) → ⊥
    nothing e = let none : [] ≡ src = cc in omega (arith, ap length none)
decoded src (b ∷ bs) cap some_source h = accepted src (b ∷ bs) cap (omega arith) h

zero_token : (cap : ℕ) → lz4_decompress (0 ∷ []) cap ≡ ok []
unfolding lz4_decompress sequences copy_literals literal_length
zero_token cap =
    let room : leb 0 (cap - 0) ≡ true = le→leb 0 (cap - 0) (omega arith) in rw room refl

-- If lz4_compress succeeds on an input, lz4_decompress on its output, with room for the input,
-- returns the input.
pub lz4_decompress-lz4_compress :
    (src out : List ℕ) (dst_cap cap : ℕ)
    → lz4_compress src dst_cap ≡ ok out
    → length src ≤ cap
    → lz4_decompress out cap ≡ ok src
lz4_decompress-lz4_compress src out dst_cap cap e room =
    let (size, ways) = compress_cases src out dst_cap e in
    elim ways [
      | inl (no_source, zero_byte) ↦ rw (zero_byte, empty_of src no_source) (zero_token cap)
      | inr (inl (some_bytes, last)) ↦ decoded src out cap some_bytes (
          decodes src out size cap room
            (emit_last-Extends src size cap room dst_cap [] out 0 (omega arith) last))
      | inr (inr (long, whole)) ↦ decoded src out cap (omega (arith, long)) (
          decodes src out size cap room (
            compress_from-Extends src size cap room dst_cap (omega (arith, long)) (length src)
              (λ h. 0) 1 0 [] out (omega arith) (omega arith) whole))
    ]
  where
    empty_of : (xs : List ℕ) → length xs ≡ 0 → xs ≡ []
    empty_of [] h = refl
    empty_of (x ∷ xs) h = absurd (omega arith)
