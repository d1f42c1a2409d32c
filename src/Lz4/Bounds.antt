-- ===== src/Lz4/Bounds.antt =====
-- The decoder of lib/src/uc2_lz4.c on any input, well formed or not.
use uc.Common.{
  ℕ, zero, suc, ◌+◌, ◌-◌, ◌≤◌, ◌≡◌, ◌≢◌, List, [], ◌∷◌, ◌++◌, Bool, length, take, drop, arith,
  Bool-cases, inl, inr, leb, ◌==◌, ◌&&◌, length-append, length-take, length-drop, bit_and,
}
use uc.Common.Words.{byte_at, word16}
use uc.Common.Result.{
  ok, stuck, Result, >>=-eq-ok, >>=-ne-stuck, require, require_then-eq-ok, ok-ne-stuck, ◌>>◌,
}
use uc.Lz4.Decode.{
  Refusal, refused, Progress, read_more, literal_length, match_length, copy_literals, copy_back,
  copy_match, sequences, lz4_decompress,
}

read_more-ne-stuck : (rest : List ℕ) (len : ℕ) → read_more rest len ≢ stuck
unfolding read_more
read_more-ne-stuck [] len e = cc
read_more-ne-stuck (b ∷ rest) len e = ground (arith, read_more-ne-stuck rest (len + b))

read_more_moves :
    (rest rest' : List ℕ) (len len' : ℕ)
    → read_more rest len ≡ ok (len', rest')
    → length rest' ≤ length rest
unfolding read_more
read_more_moves [] rest' len len' e = cc
read_more_moves (b ∷ rest) rest' len len' e =
    ground (arith, read_more_moves rest rest' (len + b) len')

literal_length_moves :
    (token : ℕ) (rest rest' : List ℕ) (len : ℕ)
    → literal_length token rest ≡ ok (len, rest')
    → length rest' ≤ length rest
unfolding literal_length
literal_length_moves token rest rest' len e = ground (arith, read_more_moves rest rest' 15 len)

match_length_moves :
    (token : ℕ) (rest rest' : List ℕ) (len : ℕ)
    → match_length token rest ≡ ok (len, rest')
    → length rest' ≤ length rest
unfolding match_length
match_length_moves token rest rest' len e =
    ground (arith, read_more_moves rest rest' (bit_and token 15 + 4) len)

literal_length-ne-stuck : (token : ℕ) (rest : List ℕ) → literal_length token rest ≢ stuck
unfolding literal_length
literal_length-ne-stuck token rest e = ground (arith, read_more-ne-stuck rest 15)

match_length-ne-stuck : (token : ℕ) (rest : List ℕ) → match_length token rest ≢ stuck
unfolding match_length
match_length-ne-stuck token rest e = ground (arith, read_more-ne-stuck rest (bit_and token 15 + 4))

length-copy_back : (n offset : ℕ) (out : List ℕ) → length (copy_back n offset out) ≡ length out + n
unfolding copy_back
length-copy_back zero offset out = omega arith
length-copy_back (suc n) offset out =
    let more = out ++ (byte_at out (length out - offset) ∷ []) in
    omega (
      arith,
      length-copy_back n offset more,
      length-append out (byte_at out (length out - offset) ∷ []),
    )

module _ (cap : ℕ) where
  copy_literals_moves :
      (token : ℕ) (rest out rest' out' : List ℕ)
      → length out ≤ cap
      → copy_literals cap token rest out ≡ ok (rest', out')
      → (length rest' ≤ length rest) × (length out' ≤ cap)
  unfolding copy_literals
  copy_literals_moves token rest out rest' out' room e =
      let (m, measured, next) = >>=-eq-ok (literal_length token rest) _ e in
      inside m.0 m.1 measured next
    where
      inside :
          (len : ℕ) (mid : List ℕ)
          → literal_length token rest ≡ ok (len, mid)
          → ◌>>◌ {B = Progress}
              (require (leb len (length mid) && leb len (cap - length out)) refused)
              (ok (drop len mid, out ++ take len mid))
            ≡ ok (rest', out')
          → (length rest' ≤ length rest) × (length out' ≤ cap)
      inside len mid measured e = ground (
        arith,
        literal_length_moves token rest mid len,
        length-drop len mid,
        length-append out (take len mid),
        length-take len mid,
      )

  copy_match_moves :
      (token : ℕ) (rest out rest' out' : List ℕ)
      → length out ≤ cap
      → copy_match cap token rest out ≡ ok (rest', out')
      → (length rest' ≤ length rest) × (length out' ≤ cap)
  unfolding copy_match
  copy_match_moves token rest out rest' out' room e =
      let (two, e2) = require_then-eq-ok _ refused _ e in
      let (way, e3) = require_then-eq-ok _ refused _ e2 in
      let (m, measured, next) = >>=-eq-ok (match_length token (drop 2 rest)) _ e3 in
      inside m.0 m.1 measured next
    where
      inside :
          (len : ℕ) (mid : List ℕ)
          → match_length token (drop 2 rest) ≡ ok (len, mid)
          → ◌>>◌ {B = Progress}
              (require (leb len (cap - length out)) refused)
              (ok (mid, copy_back len (word16 rest) out))
            ≡ ok (rest', out')
          → (length rest' ≤ length rest) × (length out' ≤ cap)
      inside len mid measured e = ground (
        arith,
        match_length_moves token (drop 2 rest) mid len,
        length-drop 2 rest,
        length-copy_back len (word16 rest) out,
      )

  require-ne-stuck :
      {A : Type 0} (b : Bool) (m : Result Refusal A)
      → m ≢ stuck
      → ◌>>◌ {B = A} (require b refused) m ≢ stuck
  require-ne-stuck b m h = >>=-ne-stuck (require b refused) (λ _. m) (λ e. ground arith) (λ u e. h)

  copy_literals-ne-stuck :
      (token : ℕ) (rest out : List ℕ) → copy_literals cap token rest out ≢ stuck
  unfolding copy_literals
  copy_literals-ne-stuck token rest out =
      >>=-ne-stuck (literal_length token rest) _ (literal_length-ne-stuck token rest)
        (λ m e. require-ne-stuck _ (ok _) (ok-ne-stuck _))

  copy_match-ne-stuck : (token : ℕ) (rest out : List ℕ) → copy_match cap token rest out ≢ stuck
  unfolding copy_match
  copy_match-ne-stuck token rest out = require-ne-stuck _ _ (
      require-ne-stuck _ _ (
        >>=-ne-stuck (match_length token (drop 2 rest)) _
          (match_length-ne-stuck token (drop 2 rest))
          (λ m e. require-ne-stuck _ (ok _) (ok-ne-stuck _))))

  turn_goes :
      (fuel token : ℕ) (rest out : List ℕ)
      → length out ≤ cap
      → ((rest' out' : List ℕ)
          → length out' ≤ cap
          → length rest' ≤ fuel
          → sequences fuel cap rest' out' ≢ stuck)
      → suc (length rest) ≤ suc fuel
      → sequences (suc fuel) cap (token ∷ rest) out ≢ stuck
  unfolding sequences
  turn_goes fuel token rest out room rec enough =
      >>=-ne-stuck (copy_literals cap token rest out) _ (copy_literals-ne-stuck token rest out)
        (λ p read.
          let (shorter, inside) = copy_literals_moves token rest out p.0 p.1 room read in
          elim (Bool-cases (length p.0 == 0)) [
            | inl last ↦ rw last (ok-ne-stuck _)
            | inr more ↦ rw more (
                >>=-ne-stuck (copy_match cap token p.0 p.1) _ (copy_match-ne-stuck token p.0 p.1)
                  (λ q copied.
                    let (shorter2, inside2) =
                      copy_match_moves token p.0 p.1 q.0 q.1 inside copied in
                    rec q.0 q.1 inside2 (omega (arith, shorter, shorter2))))
          ])

  sequences-ne-stuck :
      (fuel : ℕ) (rest out : List ℕ)
      → length out ≤ cap
      → length rest ≤ fuel
      → sequences fuel cap rest out ≢ stuck
  unfolding sequences
  sequences-ne-stuck zero [] out room enough e = cc
  sequences-ne-stuck (suc fuel) [] out room enough e = cc
  sequences-ne-stuck zero (token ∷ rest) out room enough e = absurd (omega arith)
  sequences-ne-stuck (suc fuel) (token ∷ rest) out room enough e =
      turn_goes fuel token rest out room (λ r o h k. sequences-ne-stuck fuel r o h k) enough e

  length-sequences :
      (fuel : ℕ) (rest out res : List ℕ)
      → length out ≤ cap
      → sequences fuel cap rest out ≡ ok res
      → length res ≤ cap
  unfolding sequences
  length-sequences zero [] out res room e = ground arith
  length-sequences (suc fuel) [] out res room e = ground arith
  length-sequences zero (token ∷ rest) out res room e = cc
  length-sequences (suc fuel) (token ∷ rest) out res room e =
      let (p, read, next) = >>=-eq-ok (copy_literals cap token rest out) _ e in
      let (_, inside) = copy_literals_moves token rest out p.0 p.1 room read in
      elim (Bool-cases (length p.0 == 0)) [
        | inl last ↦ ground (arith, rw last at next)
        | inr more ↦
            let (q, copied, rec) = >>=-eq-ok (copy_match cap token p.0 p.1) _ (rw more at next) in
            length-sequences fuel q.0 q.1 res
              ((copy_match_moves token p.0 p.1 q.0 q.1 inside copied).1) rec
      ]

-- On any bytes and any capacity lz4_decompress ends, with a result or a refusal, and a result has
-- no more bytes than the capacity.
pub lz4_decompress_bounds :
    (src : List ℕ) (cap : ℕ)
    → (lz4_decompress src cap ≢ stuck)
      × ((out : List ℕ) → lz4_decompress src cap ≡ ok out → length out ≤ cap)
unfolding lz4_decompress
lz4_decompress_bounds src cap = (
  require-ne-stuck cap _ _ (sequences-ne-stuck cap (length src) src [] (omega arith) (omega arith)),
  λ out e.
      length-sequences cap (length src) src [] out (omega arith)
        ((require_then-eq-ok _ refused _ e).1),
)
