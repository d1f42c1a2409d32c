-- ===== src/Lz4/Total.antt =====
-- The encoder of lib/src/uc2_lz4.c in a buffer of `uc2_lz4_bound` bytes.
use uc.Common.{
  ℕ, zero, suc, ◌+◌, ◌-◌, ◌/◌, ◌^◌, ◌≤◌, ◌<◌, ◌≡◌, refl, List, [], ◌∷◌, ◌++◌, false, length, drop,
  slice, arith, Bool-cases, inl, inr, ltb, ◌==◌, length-append, length-slice, Option-cases,
  le→ltb_false, ltb→lt, ltb_false→le,
}
use uc.Common.Words.{u8, u16, ◌>>>◌}
use uc.Common.Result.{ok}
use uc.Lz4.Encode.{
  Table, lz4_hash, put, find_match, extend_match, extra, cost, sequence_bytes, emit_sequence,
  emit_last, compress_from, lz4_compress, lz4_bound,
}
use uc.Lz4.Lengths.{length-extra}
use uc.Lz4.Matches.{find_match-IsMatch, extend_match_bounds}

-- What is reckoned for a length, as a division.
cost_bound : (n : ℕ) → cost n ≤ n / 255 + 1
cost_bound n = ground arith

-- A sequence takes no more than what it stands for and a byte for each 255.
sequence_cost : (l m : ℕ) → 4 ≤ m → 3 + l + cost l + cost (m - 4) ≤ l + m + (l + m) / 255
sequence_cost l m h = elim (Bool-cases (ltb 14 l)) [
  | inl long ↦ elim (Bool-cases (ltb 14 (m - 4))) [
    | inl more ↦ rw (long, more) (omega (arith, ltb→lt 14 l long, ltb→lt 14 (m - 4) more))
    | inr less ↦ rw (long, less) (omega (arith, ltb→lt 14 l long))
  ]
  | inr short ↦ elim (Bool-cases (ltb 14 (m - 4))) [
    | inl more ↦ rw (short, more) (omega (arith, ltb→lt 14 (m - 4) more))
    | inr less ↦ rw (short, less) (omega arith)
  ]
]

module _ (src : List ℕ) (cap : ℕ) (room : length src + length src / 255 + 16 ≤ cap) where
  length-sequence_bytes :
      (anchor ip ref len : ℕ)
      → anchor ≤ ip
      → ip ≤ length src
      → length (sequence_bytes src anchor ip ref len)
        ≤ 3 + (ip - anchor) + cost (ip - anchor) + cost (len - 4)
  unfolding sequence_bytes
  length-sequence_bytes anchor ip ref len order inside =
      let lits = slice src anchor (ip - anchor) in
      let offset = u16 (ip - ref) in
      let tail = u8 offset ∷ u8 (offset >>> 8) ∷ extra (len - 4) in
      omega (
        arith,
        length-append (extra (ip - anchor)) (lits ++ tail),
        length-append lits tail,
        length-slice src anchor (ip - anchor) (omega arith),
        length-extra (ip - anchor),
        length-extra (len - 4),
      )

  -- The bytes written so far take no more than what they stand for and a byte for each 255.
  abbrev Slim : List ℕ → ℕ → Type 0
  Slim out anchor = length out ≤ anchor + anchor / 255

  emit_last-ok :
      (out : List ℕ) (anchor : ℕ)
      → anchor ≤ length src
      → Slim out anchor
      → (res : List ℕ) × (emit_last src cap out anchor ≡ ok res)
  unfolding emit_last
  emit_last-ok out anchor h slim =
      let l = length src - anchor in
      let one : ltb (cap - length out) l ≡ false = le→ltb_false _ l (omega arith) in
      let two : ltb (cap - length out - l) (1 + cost l) ≡ false =
        le→ltb_false _ (1 + cost l) (omega (arith, cost_bound l)) in
      rw (one, two) (_, refl)

  emit_sequence-ok :
      (out : List ℕ) (anchor ip ref len : ℕ)
      → anchor ≤ ip
      → 4 ≤ len
      → ip + len ≤ length src
      → Slim out anchor
      → (res : List ℕ) × (emit_sequence src cap out anchor ip ref len ≡ ok res)
        × Slim res (ip + len)
  unfolding emit_sequence
  emit_sequence-ok out anchor ip ref len order long inside slim =
      let l = ip - anchor in
      let fee = sequence_cost l len long in
      let one : ltb (cap - length out) l ≡ false = le→ltb_false _ l (omega arith) in
      let two : ltb (cap - length out - l) (3 + cost l + cost (len - 4)) ≡ false =
        le→ltb_false _ (3 + cost l + cost (len - 4)) (omega (arith, fee)) in
      rw (one, two)
        (
          out ++ sequence_bytes src anchor ip ref len,
          refl,
          omega (
            arith,
            length-append out (sequence_bytes src anchor ip ref len),
            length-sequence_bytes anchor ip ref len order (omega arith),
            fee,
          ),
        )

  compress_from-ok :
      12 ≤ length src
      → (fuel : ℕ) (htab : Table) (ip anchor : ℕ) (out : List ℕ) → anchor ≤ ip
      → anchor ≤ length src
      → ip ≤ length src
      → length src < fuel + ip
      → Slim out anchor
      → (res : List ℕ) × (compress_from src fuel cap htab ip anchor out ≡ ok res)
  unfolding compress_from
  compress_from-ok long zero htab ip anchor out order inside within enough slim =
      absurd (omega arith)
  compress_from-ok long (suc fuel) htab ip anchor out order inside within enough slim =
      elim (Option-cases (find_match src (length src - 11 - ip) htab ip)) [
        | inl end ↦ rw (compress_from, end) (emit_last-ok out anchor inside slim)
        | inr ((htab', ref, at), hit) ↦
            let m = find_match-IsMatch src (length src - 11 - ip) htab htab' ip ref at long hit in
            let len = extend_match src (length src) ref at 4 in
            let (lower, upper, _) =
              extend_match_bounds src (length src) ref at 4 (omega (arith, m.inside)) m.same in
            let next = at + len in
            let fits : next ≤ length src = omega (arith, upper, m.inside) in
            let (out', written, slim') =
              emit_sequence-ok out anchor at ref len (omega (arith, m.later)) lower fits slim in
            rw (compress_from, hit, written)
              (elim (Bool-cases (ltb (length src - 12) next)) [
                | inl end ↦ rw end (emit_last-ok out' next fits slim')
                | inr more ↦ rw more (
                    compress_from-ok long fuel
                      (put htab' (lz4_hash (drop (next - 2) src)) (next - 2)) next next out'
                      (omega arith) fits fits (omega (arith, lower, m.later)) slim')
              ])
      ]

-- lz4_compress of fewer than 2^32 bytes succeeds, loops included, when the capacity is at least
-- lz4_bound of the length.
pub lz4_compress-ok :
    (src : List ℕ) (cap : ℕ)
    → length src < 2 ^ 32
    → lz4_bound (length src) ≤ cap
    → (out : List ℕ) × (lz4_compress src cap ≡ ok out)
unfolding lz4_compress lz4_bound
lz4_compress-ok src cap size h =
    let n = length src in
    let small : ltb (2 ^ 32 - 1) n ≡ false = le→ltb_false _ n (omega arith) in
    let fine : ltb (2 ^ 64 - 1 - 16 - n / 255) n ≡ false = le→ltb_false _ n (omega arith) in
    let room : n + n / 255 + 16 ≤ cap = rw (small, fine) at h in
    let enough : ltb cap 1 ≡ false = le→ltb_false cap 1 (omega (arith, room)) in
    rw (enough, small)
      (elim (Bool-cases (n == 0)) [
        | inl no_bytes ↦ rw no_bytes (_, refl)
        | inr some_bytes ↦ rw some_bytes (elim (Bool-cases (ltb n 13)) [
          | inl short ↦ rw short (emit_last-ok src cap room [] 0 (omega arith) (omega arith))
          | inr long ↦
              let big = ltb_false→le n 13 long in
              rw long (
                compress_from-ok src cap room (omega (arith, big)) n (λ h. 0) 1 0 [] (omega arith)
                  (omega arith) (omega (arith, big)) (omega arith) (omega arith))
        ])
      ])
