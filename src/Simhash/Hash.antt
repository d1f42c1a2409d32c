-- ===== src/Simhash/Hash.antt =====
-- The functions of lib/src/uc2_simhash.c. A vote is an `int32_t`, kept here with 2^31 added; where it
-- would leave its range, which C does not define, there is no result.
use uc.Common.{
  ℕ, zero, suc, ◌+◌, ◌-◌, ◌*◌, ◌^◌, List, [], ◌∷◌, Option, none, some, ltb, ◌==◌, if◌then◌else◌,
  length, take, drop, replicate, bit_and, bit_or, bit_xor,
}
use uc.Common.Words.{u64, ◌<<<◌}
use mathlib.Core.Option

-- The loop of `fnv1a_64` from a state on.
unfoldable pub fnv1a_from : ℕ → List ℕ → ℕ
fnv1a_from h [] = h
fnv1a_from h (x ∷ xs) = fnv1a_from (u64 (bit_xor h x * 1099511628211)) xs

abbrev pub fnv1a_64 : List ℕ → ℕ
fnv1a_64 xs = fnv1a_from 14695981039346656037 xs

abbrev pub zero_vote : ℕ
zero_vote = 2 ^ 31

-- One more or one less.
unfoldable pub cast_vote : ℕ → ℕ → ℕ → Option ℕ
cast_vote h b v =
    if bit_and h (1 <<< b) == 0
    then (if v == 0 then none else some (v - 1))
    else (if v == 2 ^ 32 - 1 then none else some (v + 1))

-- The loop on `b`.
unfoldable pub cast_votes : ℕ → ℕ → List ℕ → Option (List ℕ)
cast_votes h b [] = some []
cast_votes h b (v ∷ vs) =
    Option.bind (cast_vote h b v) (λ v'. Option.map (λ r. v' ∷ r) (cast_votes h (b + 1) vs))

-- The loop on the shingles that start at `p`, `p + 1`, and so on.
unfoldable pub shingle_votes : ℕ → List ℕ → List ℕ → Option (List ℕ)
shingle_votes zero p votes = some votes
shingle_votes (suc n) p votes =
    Option.bind (cast_votes (fnv1a_64 (take 4 p)) 0 votes) (shingle_votes n (drop 1 p))

-- The majority vote from bit `b` on.
unfoldable pub elect : ℕ → ℕ → List ℕ → ℕ
elect result b [] = result
elect result b (v ∷ vs) =
    elect (if ltb zero_vote v then bit_or result (1 <<< b) else result) (b + 1) vs

unfoldable pub simhash : List ℕ → Option ℕ
simhash p =
    let votes = shingle_votes (length p - 3) p (replicate 64 zero_vote) in
    if ltb (length p) 4 then some (fnv1a_64 p) else Option.map (elect 0 0) votes

-- `while (x)`: the bits of the word are fuel enough.
unfoldable pub clear_bits : ℕ → ℕ → ℕ → Option ℕ
clear_bits zero x count = if x == 0 then some count else none
clear_bits (suc n) x count =
    let more = clear_bits n (bit_and x (x - 1)) (count + 1) in if x == 0 then some count else more

unfoldable pub hamming : ℕ → ℕ → Option ℕ
hamming a b = clear_bits 64 (bit_xor a b) 0
