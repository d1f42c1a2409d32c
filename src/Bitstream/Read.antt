-- ===== src/Bitstream/Read.antt =====
-- The bytes that `struct bits` of lib/src/decompress.c buffers.
use uc.Common.{
  ℕ, zero, suc, ◌+◌, ◌-◌, ◌≤◌, ◌≡◌, refl, sym, ap, ◌∙◌, List, [], ◌∷◌, ◌++◌, false, ltb, ◌==◌,
  length, take, drop, All, arith, append_assoc, length-append, length-take, length-drop, Bool-cases,
  inl, inr, ltb→lt, ltb_false→le,
}
use mathlib.Core.Path.{subst}
use uc.Common.Result.{Result, ok}
use uc.Common.{joined, take-append-drop}
use uc.Bitstream.In.{ReadError, BitsIn, read_piece, fill_window}

abbrev pub IsPiece : List ℕ → Type 0
IsPiece p = 1 ≤ length p

record Piece (size : ℕ) (pieces : List (List ℕ)) (result : List ℕ × List (List ℕ)) : Type 0 where
  some : 1 ≤ length result.0
  same : result.0 ++ joined result.1 ≡ joined pieces
  parts : All IsPiece result.1

read_piece-Piece :
    (size : ℕ) (pieces : List (List ℕ))
    → 1 ≤ size
    → All IsPiece pieces
    → 1 ≤ length (joined pieces)
    → Piece size pieces (read_piece size pieces)
unfolding read_piece
read_piece-Piece size [] h parts some = absurd (omega arith)
read_piece-Piece size (p ∷ ps) h parts some = elim (Bool-cases (ltb size (length p))) [
  | inr whole ↦ rw whole (record { some = parts.0; same = refl; parts = parts.1 })
  | inl longer ↦
      let long = ltb→lt size (length p) longer in
      rw longer (record {
        some = omega (arith, length-take size p);
        same =
            sym (append_assoc (take size p) (drop size p) (joined ps))
            ∙ ap (λ t. t ++ joined ps) (take-append-drop size p);
        parts = (omega (arith, length-drop size p), parts.1);
      })
]

-- The window has a pair of bytes, and nothing else is different.
pub record Filled (bi : BitsIn) (result : Result ReadError BitsIn) : Type 0 where
  pub next : BitsIn
  pub done : result ≡ ok next
  pub same_bits : next.bits ≡ bi.bits
  pub same_have : next.have_bits ≡ bi.have_bits
  pub same : next.window ++ joined next.pieces ≡ bi.window ++ joined bi.pieces
  pub parts : All IsPiece next.pieces
  pub pair : 2 ≤ length next.window

pub fill_window-Filled :
    (fuel : ℕ) (bi : BitsIn)
    → 2 ≤ fuel + length bi.window
    → 2 ≤ length (bi.window ++ joined bi.pieces)
    → All IsPiece bi.pieces
    → Filled bi (fill_window fuel bi)
unfolding fill_window
fill_window-Filled zero bi h more parts =
    let test : ltb (length bi.window) 2 ≡ false = ground arith in
    rw test (record {
      next = bi;
      done = refl;
      same_bits = refl;
      same_have = refl;
      same = refl;
      parts = parts;
      pair = omega (arith, h);
    })
fill_window-Filled (suc fuel) bi h more parts = elim (Bool-cases (ltb (length bi.window) 2)) [
  | inr pair ↦ rw pair (record {
    next = bi;
    done = refl;
    same_bits = refl;
    same_have = refl;
    same = refl;
    parts = parts;
    pair = ltb_false→le (length bi.window) 2 pair;
  })
  | inl short ↦
      let few = ltb→lt (length bi.window) 2 short in
      let size = 4096 - length bi.window in
      let piece =
        read_piece-Piece size bi.pieces (omega arith) parts
          (omega (arith, length-append bi.window (joined bi.pieces))) in
      let p = (read_piece size bi.pieces).0 in
      let ps = (read_piece size bi.pieces).1 in
      let some : (length p == 0) ≡ false = not_zero (length p) piece.some in
      let same : (bi.window ++ p) ++ joined ps ≡ bi.window ++ joined bi.pieces =
        append_assoc bi.window p (joined ps) ∙ ap (λ t. bi.window ++ t) piece.same in
      let rest =
        fill_window-Filled fuel (record bi { window = bi.window ++ p; pieces = ps })
          (omega (arith, length-append bi.window p, piece.some))
          (subst (λ t. 2 ≤ length t) (sym same) more) piece.parts in
      rw (short, some)
        (record {
          next = rest.next;
          done = rest.done;
          same_bits = rest.same_bits;
          same_have = rest.same_have;
          same = rest.same ∙ same;
          parts = rest.parts;
          pair = rest.pair;
        })
]
  where
    not_zero : (n : ℕ) → 1 ≤ n → (n == 0) ≡ false
    not_zero n h = ground arith
