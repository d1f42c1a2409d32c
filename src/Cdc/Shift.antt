-- ===== src/Cdc/Shift.antt =====
-- A chunk and the bytes before its start (`uc2_chunker_next`, lib/src/uc2_cdc.c).
use uc.Common.{
  ℕ, zero, suc, ◌+◌, ◌-◌, ◌≡◌, refl, ap, ◌∙◌, Bool, true, List, [], ◌∷◌, ◌++◌, ltb, ◌==◌, length,
  drop, Option, none, some, arith, slice, length-append, Bool-cases, inl, inr,
}
use uc.Cdc.Chunker.{
  roll, find_boundary, gear_from, Chunker, Chunk, smaller, cut, cut_at, chunker_next,
}
use mathlib.Core.Option
use uc.Common.{bit_and}

drop-append_add : (before xs : List ℕ) (n : ℕ) → drop (length before + n) (before ++ xs) ≡ drop n xs
drop-append_add [] xs n = let same : 0 + n ≡ n = omega arith in ap (λ k. drop k xs) same
drop-append_add (b ∷ before) xs n =
    let next : suc (length before) + n ≡ suc (length before + n) = omega arith in
    ap (λ k. drop k (b ∷ (before ++ xs))) next ∙ drop-append_add before xs n

find_boundary_shift :
    (p mask h i n : ℕ) (bytes : List ℕ)
    → find_boundary mask h (p + i) n bytes
      ≡ Option.map (λ (k : ℕ). p + k) (find_boundary mask h i n bytes)
unfolding find_boundary
find_boundary_shift p mask h i zero bytes = refl
find_boundary_shift p mask h i (suc n) [] = refl
find_boundary_shift p mask h i (suc n) (b ∷ rest) =
    let next : p + i + 1 ≡ p + (i + 1) = omega arith in
    let more = find_boundary_shift p mask (roll h b) (i + 1) n rest in
    elim (Bool-cases (bit_and (roll h b) mask == 0)) [
      | inl met ↦ rw (next, met) refl
      | inr not_met ↦ rw (next, more, not_met) refl
    ]

-- The chunker in the middle of a longer input.
abbrev pub moved : ℕ → Chunker → Chunker
moved p c = record c { pos = p + c.pos }

abbrev pub moved_chunk : ℕ → Chunk × Chunker → Chunk × Chunker
moved_chunk p (k, c) = (record k { off = p + k.off }, moved p c)

cut_shift :
    (p : ℕ) (c : Chunker) (start stop : ℕ) (more : Bool)
    → cut (moved p c) (p + start) (p + stop) more ≡ moved_chunk p (cut c start stop more)
cut_shift p c start stop more =
    let same : p + stop - (p + start) ≡ stop - start = omega arith in
    let build : ℕ → Chunk × Chunker =
      λ n. (record { off = p + start; len = n; more = more }, record c { pos = p + stop }) in
    ap build same

-- A decision that is moved cuts the chunk that is moved.
cut_at_shift :
    (p : ℕ) (c : Chunker) (start stop len : ℕ) (at : Option ℕ)
    → cut_at (moved p c) (p + start) (p + stop) (p + len) (Option.map (λ (k : ℕ). p + k) at)
      ≡ moved_chunk p (cut_at c start stop len at)
unfolding cut_at
cut_at_shift p c start stop len none =
    let same : ltb (p + stop) (p + len) ≡ ltb stop len = ground arith in
    ap (cut (moved p c) (p + start) (p + stop)) same ∙ cut_shift p c start stop (ltb stop len)
cut_at_shift p c start stop len (some k) = cut_shift p c start k true

-- The next chunk depends only on the bytes from the chunker's position on: with any bytes put
-- before the input and the position moved by as many, it is the same chunk moved by as many.
pub chunker_next_shift :
    (c : Chunker) (before bytes : List ℕ)
    → chunker_next (moved (length before) c) (before ++ bytes)
      ≡ moved_chunk (length before) (chunker_next c bytes)
unfolding chunker_next
chunker_next_shift c before bytes =
    let p = length before in
    let len = length bytes in
    let start = c.pos in
    let stop = start + smaller c.max_chunk (len - start) in
    let scan = start + smaller c.min_chunk (stop - start) in
    let h = gear_from 0 (slice bytes start (scan - start)) in
    let room : p + len - (p + start) ≡ len - start = omega arith in
    let e₁ : p + start + smaller c.max_chunk (len - start) ≡ p + stop = omega arith in
    let e₂ : p + stop - (p + start) ≡ stop - start = omega arith in
    let e₃ : p + start + smaller c.min_chunk (stop - start) ≡ p + scan = omega arith in
    let e₄ : p + scan - (p + start) ≡ scan - start = omega arith in
    let e₅ : p + stop - (p + scan) ≡ stop - scan = omega arith in
    let e₆ : ltb (p + start) (p + len) ≡ ltb start len = ground arith in
    rw
      (
        length-append before bytes,
        room,
        e₁,
        e₂,
        e₃,
        e₄,
        e₅,
        e₆,
        drop-append_add before bytes start,
        drop-append_add before bytes scan,
        find_boundary_shift p c.mask h scan (stop - scan) (drop scan bytes),
        cut_at_shift p c start stop len
            (find_boundary c.mask h scan (stop - scan) (drop scan bytes)),
      )
      (elim (Bool-cases (ltb start len)) [
        | inl inside ↦ rw inside refl
        | inr outside ↦ rw outside refl
      ])
