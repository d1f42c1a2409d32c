-- ===== src/Lz4/Steps.antt =====
-- What the encoder of lib/src/uc2_lz4.c writes at once, read by one turn of the decoder.
use uc.Common.{
  ℕ, suc, ◌+◌, ◌-◌, ◌^◌, ◌≤◌, ◌<◌, ◌≡◌, refl, sym, ap, ap₂, ◌∙◌, List, [], ◌∷◌, ◌++◌, length, take,
  slice, arith, leb, ◌==◌, true, false, take-add, length-take, append_assoc, append-nil,
  take-append, drop-append, le→leb, length-append, length-slice, bit_and, take_all, bit_or,
}
use uc.Common.Words.{word16, le16-eq, u8, u16, ◌<<<◌, ◌>>>◌}
use uc.Common.Result.{ok}
use uc.Lz4.Decode.{copy_back, copy_literals, copy_match, sequences}
use uc.Lz4.Encode.{extra, nibble, sequence_bytes}
use uc.Lz4.Lengths.{token_high, token_low, nibble-lt, literal_length-extra, match_length-extra}
use uc.Lz4.Matches.{Same, copy_back_lem}

copy_literals-extra :
    (cap token : ℕ) (lits more out : List ℕ)
    → token >>> 4 ≡ nibble (length lits)
    → length lits < 2 ^ 63
    → length out + length lits ≤ cap
    → copy_literals cap token (extra (length lits) ++ (lits ++ more)) out ≡ ok (more, out ++ lits)
unfolding copy_literals
copy_literals-extra cap token lits more out h k room =
    let here : leb (length lits) (length (lits ++ more)) ≡ true =
      le→leb (length lits) (length (lits ++ more)) (omega (arith, length-append lits more)) in
    let fits : leb (length lits) (cap - length out) ≡ true =
      le→leb (length lits) (cap - length out) (omega arith) in
    rw (literal_length-extra token (length lits) (lits ++ more) h k, here, fits)
      (ap₂ (λ (r : List ℕ) (s : List ℕ). ok (r, out ++ s)) (drop-append lits more)
        (take-append lits more))

word16-offset :
    (offset : ℕ) (more : List ℕ)
    → offset < 2 ^ 16
    → word16 (u8 offset ∷ u8 (offset >>> 8) ∷ more) ≡ offset
unfolding word16
word16-offset offset more h = omega (arith, le16-eq (u8 offset) (u8 (offset >>> 8)))

copy_match-extra :
    (cap token offset len : ℕ) (more out : List ℕ)
    → bit_and token 15 ≡ nibble len
    → offset < 2 ^ 16
    → 0 < offset
    → offset ≤ length out
    → length out + (len + 4) ≤ cap
    → len < 2 ^ 63
    → copy_match cap token (u8 offset ∷ u8 (offset >>> 8) ∷ (extra len ++ more)) out
      ≡ ok (more, copy_back (len + 4) offset out)
unfolding copy_match
copy_match-extra cap token offset len more out h small some_way inside room k =
    let two : leb 2 (length (u8 offset ∷ u8 (offset >>> 8) ∷ (extra len ++ more))) ≡ true =
      le→leb 2 _ (omega arith) in
    let way : (offset == 0) ≡ false = ground arith in
    let back : leb offset (length out) ≡ true = le→leb offset (length out) inside in
    let fits : leb (len + 4) (cap - length out) ≡ true =
      le→leb (len + 4) (cap - length out) (omega arith) in
    rw
      (
        two,
        word16-offset offset (extra len ++ more) small,
        way,
        back,
        match_length-extra token len more h k,
        fits,
      )
      refl

module _ (src : List ℕ) (size : length src < 2 ^ 32) (cap : ℕ) (room : length src ≤ cap) where
  upto : (n : ℕ) → n ≤ length src → length (take n src) ≡ n
  upto n h = omega (arith, length-take n src)

  literals_next :
      (anchor ip : ℕ)
      → anchor ≤ ip
      → take anchor src ++ slice src anchor (ip - anchor) ≡ take ip src
  literals_next anchor ip h =
      sym (take-add anchor (ip - anchor) src)
      ∙ ap (λ (n : ℕ). take n src) {x = anchor + (ip - anchor)} {y = ip} (omega arith)

  -- A sequence that the encoder writes, read by one turn of the decoder.
  pub sequence_step :
      (fuel anchor ip ref len : ℕ) (more : List ℕ)
      → anchor ≤ ip
      → ref < ip
      → ip - ref ≤ 65535
      → 4 ≤ len
      → ip + len ≤ length src
      → Same src ref ip len
      → sequences (suc fuel) cap (sequence_bytes src anchor ip ref len ++ more) (take anchor src)
        ≡ sequences fuel cap more (take (ip + len) src)
  unfolding sequences sequence_bytes
  sequence_step fuel anchor ip ref len more order earlier near long inside same =
      let lits = slice src anchor (ip - anchor) in
      let offset = u16 (ip - ref) in
      let token = u8 (bit_or (nibble (ip - anchor) <<< 4) (nibble (len - 4))) in
      let tail = u8 offset ∷ u8 (offset >>> 8) ∷ (extra (len - 4) ++ more) in
      let count : length lits ≡ ip - anchor = length-slice src anchor (ip - anchor) (omega arith) in
      let way : offset ≡ ip - ref = omega arith in
      let bytes : (extra (ip - anchor)
              ++ (lits ++ (u8 offset ∷ u8 (offset >>> 8) ∷ extra (len - 4))))
            ++ more
          ≡ extra (length lits) ++ (lits ++ tail) =
        append_assoc (extra (ip - anchor)) _ more
        ∙ ap₂ (λ (n : ℕ) (t : List ℕ). extra n ++ t) (sym count) (append_assoc lits _ more) in
      let high : token >>> 4 ≡ nibble (length lits) =
        token_high (nibble (ip - anchor)) (nibble (len - 4)) (nibble-lt (ip - anchor))
          (nibble-lt (len - 4))
        ∙ ap nibble (sym count) in
      let low : bit_and token 15 ≡ nibble (len - 4) =
        token_low (nibble (ip - anchor)) (nibble (len - 4)) (nibble-lt (ip - anchor))
          (nibble-lt (len - 4)) in
      let first =
        copy_literals-extra cap token lits tail (take anchor src) high (omega (arith, count))
          (omega (arith, count, upto anchor)) in
      let second =
        copy_match-extra cap token offset (len - 4) more (take ip src) low (omega arith)
          (omega (arith, way)) (omega (arith, way, upto ip)) (omega (arith, upto ip))
          (omega arith) in
      let whole : len - 4 + 4 ≡ len = omega arith in
      let copied : copy_back (len - 4 + 4) offset (take ip src) ≡ take (ip + len) src =
        ap₂ (λ (n : ℕ) (o : ℕ). copy_back n o (take ip src)) whole way
        ∙ copy_back_lem src len ref ip earlier inside same in
      let some_left : (length tail == 0) ≡ false = ground arith in
      rw (bytes, first, literals_next anchor ip order, some_left, second, copied) refl

  -- The literals at the end.
  pub last_step :
      (fuel anchor : ℕ)
      → anchor ≤ length src
      → sequences
          (suc fuel)
          cap
          (u8 (nibble (length src - anchor) <<< 4)
            ∷ (extra (length src - anchor) ++ slice src anchor (length src - anchor)))
          (take anchor src)
        ≡ ok src
  unfolding sequences
  last_step fuel anchor h =
      let l = length src - anchor in
      let lits = slice src anchor l in
      let count : length lits ≡ l = length-slice src anchor l (omega arith) in
      let token = u8 (nibble l <<< 4) in
      let high : token >>> 4 ≡ nibble (length lits) =
        omega (arith, nibble-lt l) ∙ ap nibble (sym count) in
      let bytes : extra l ++ lits ≡ extra (length lits) ++ (lits ++ []) =
        ap₂ (λ (n : ℕ) (t : List ℕ). extra n ++ t) (sym count) (sym (append-nil lits)) in
      let first =
        copy_literals-extra cap token lits [] (take anchor src) high (omega (arith, count))
          (omega (arith, count, upto anchor)) in
      rw (bytes, first)
        (ap ok (literals_next anchor (length src) h ∙ take_all (length src) src (omega arith)))
