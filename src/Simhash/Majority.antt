-- ===== src/Simhash/Majority.antt =====
-- The bits of a fingerprint (`uc2_simhash`, lib/src/uc2_simhash.c) as majorities.
use uc.Common.{
  ℕ, zero, suc, ◌+◌, ◌-◌, ◌*◌, ◌/◌, ◌%◌, ◌^◌, ◌≤◌, ◌<◌, ◌≡◌, refl, sym, ap, ◌∙◌, List, [], ◌∷◌,
  some, ltb, ◌==◌, if◌then◌else◌, length, take, drop, replicate, arith, bit_and, Bool-cases, inl,
  inr, le→ltb_false, lt→ltb, true, false, ltb→lt, ltb_false→le,
}
use uc.Common.Bits.{bit_and_step, bit_and_mask, bit_or_disjoint}
use uc.Common.Words.{◌<<<◌}
use native.Mathlib.Nat.{pow-suc, div-div-eq-div-mul, one-le-pow, mul-le-mul}
use uc.Simhash.Hash.{fnv1a_64, zero_vote, cast_vote, cast_votes, shingle_votes, elect, simhash}
use mathlib.Core.Option

-- Digit `b` of a number in base two.
abbrev pub digit : ℕ → ℕ → ℕ
digit h b = h / 2 ^ b % 2

-- How many of the hashes have that digit set.
unfoldable pub ones : ℕ → List ℕ → ℕ
ones b [] = 0
ones b (h ∷ hs) = digit h b + ones b hs

-- The hashes of the `n` shingles of four bytes that start at the first `n` bytes.
unfoldable pub shingle_hashes : ℕ → List ℕ → List ℕ
shingle_hashes zero p = []
shingle_hashes (suc n) p = fnv1a_64 (take 4 p) ∷ shingle_hashes n (drop 1 p)

-- The number with `n` digits from `b` on, each set if more than half of the hashes have it set.
unfoldable pub majorities : ℕ → ℕ → List ℕ → ℕ
majorities zero b hs = 0
majorities (suc n) b hs =
    (if ltb (length hs) (2 * ones b hs) then 1 else 0) + 2 * majorities n (b + 1) hs

bit_and_double : (h q d : ℕ) → bit_and (h / 2) q ≡ d * q → bit_and h (2 * q) ≡ d * (2 * q)
bit_and_double h q d e =
    let half : 2 * q / 2 ≡ q = omega arith in
    let even : 2 * q % 2 ≡ 0 = omega arith in
    let twice : d * (2 * q) ≡ 2 * (d * q) = omega arith in
    bit_and_step h (2 * q) ∙ rw (half, even, e, twice) (omega arith)

bit_and-pow : (b h : ℕ) → bit_and h (2 ^ b) ≡ digit h b * 2 ^ b
bit_and-pow zero h = omega (arith, bit_and_mask 1 h)
bit_and-pow (suc b) h =
    let power : 2 ^ suc b ≡ 2 * 2 ^ b = omega (arith, pow-suc 2 b) in
    rw (power, ← div-div-eq-div-mul h 2 (2 ^ b))
      (bit_and_double h (2 ^ b) (digit (h / 2) b) (bit_and-pow b (h / 2)))

-- The test of a bit.
bit_test : (h b : ℕ) → (bit_and h (1 <<< b) == 0) ≡ (digit h b == 0)
bit_test h b =
    let shift : 1 <<< b ≡ 2 ^ b = omega arith in
    rw (shift, bit_and-pow b h) (same (digit h b) (2 ^ b) (one-le-pow b 2 (omega arith)))
  where
    same : (d q : ℕ) → 1 ≤ q → (d * q == 0) ≡ (d == 0)
    same zero q h = let none_left : 0 * q ≡ 0 = omega arith in rw none_left refl
    same (suc d) q h =
        let more : 1 ≤ suc d * q =
          mul-le-mul {n₁ = 1} {m₁ = 1} {n₂ = suc d} {m₂ = q} (omega arith) h in
        let left : (suc d * q == 0) ≡ false = ground (arith, more) in
        let right : (suc d == 0) ≡ false = ground arith in left ∙ sym right

-- After the hashes, each vote is half the range more than its lead.
unfoldable Tallied : List ℕ → ℕ → List ℕ → Type 0
Tallied hs b [] = Unit {0}
Tallied hs b (v ∷ vs) = (v + length hs ≡ zero_vote + 2 * ones b hs) × Tallied hs (b + 1) vs

ones-le : (b : ℕ) (hs : List ℕ) → ones b hs ≤ length hs
unfolding ones
ones-le b [] = omega arith
ones-le b (h ∷ hs) = omega (arith, ones-le b hs)

cast_vote-lem :
    (hs : List ℕ) (h b v : ℕ)
    → length hs < 2 ^ 31 - 1
    → v + length hs ≡ zero_vote + 2 * ones b hs
    → (v' : ℕ) × (cast_vote h b v ≡ some v')
      × (v' + length (h ∷ hs) ≡ zero_vote + 2 * ones b (h ∷ hs))
unfolding cast_vote ones
cast_vote-lem hs h b v few tally = elim (Bool-cases (digit h b == 0)) [
  | inl clear ↦
      let low : (v == 0) ≡ false = ground (arith, tally, few) in
      rw (bit_test h b, clear, low) (v - 1, refl, ground (arith, tally, few))
  | inr set_bit ↦
      let high : (v == 2 ^ 32 - 1) ≡ false = ground (arith, tally, few, ones-le b hs) in
      rw (bit_test h b, set_bit, high) (v + 1, refl, ground (arith, tally, few))
]

cast_votes-lem :
    (hs : List ℕ) (h b : ℕ) (vs : List ℕ)
    → length hs < 2 ^ 31 - 1
    → Tallied hs b vs
    → (vs' : List ℕ) × (cast_votes h b vs ≡ some vs')
      × Tallied (h ∷ hs) b vs'
      × (length vs' ≡ length vs)
unfolding cast_votes Tallied Option.bind
cast_votes-lem hs h b [] few tallied = ([], refl, tt, refl)
cast_votes-lem hs h b (v ∷ vs) few (tally, rest) =
    let (v', cast, tally') = cast_vote-lem hs h b v few tally in
    let (vs', casts, rest', size) = cast_votes-lem hs h (b + 1) vs few rest in
    (v' ∷ vs', rw (cast, casts) refl, (tally', rest'), ap suc size)

-- The hashes in the order in which they were counted.
unfoldable counted : ℕ → List ℕ → List ℕ → List ℕ
counted zero p hs = hs
counted (suc n) p hs = counted n (drop 1 p) (fnv1a_64 (take 4 p) ∷ hs)

shingle_votes-lem :
    (n : ℕ) (p hs vs : List ℕ)
    → n + length hs < 2 ^ 31
    → Tallied hs 0 vs
    → (vs' : List ℕ) × (shingle_votes n p vs ≡ some vs')
      × Tallied (counted n p hs) 0 vs'
      × (length vs' ≡ length vs)
unfolding shingle_votes counted Option.bind
shingle_votes-lem zero p hs vs few tallied = (vs, refl, tallied, refl)
shingle_votes-lem (suc n) p hs vs few tallied =
    let h = fnv1a_64 (take 4 p) in
    let (vs₁, cast, tallied₁, size₁) = cast_votes-lem hs h 0 vs (omega arith) tallied in
    let (vs₂, done, tallied₂, size₂) =
      shingle_votes-lem n (drop 1 p) (h ∷ hs) vs₁ (omega arith) tallied₁ in
    (vs₂, rw cast done, tallied₂, size₂ ∙ size₁)

-- Order does not matter to the counts.
ones-counted :
    (n b : ℕ) (p hs : List ℕ)
    → (ones b (counted n p hs) ≡ ones b (shingle_hashes n p) + ones b hs)
      × (length (counted n p hs) ≡ n + length hs)
unfolding ones counted shingle_hashes
ones-counted zero b p hs = omega arith
ones-counted (suc n) b p hs = omega (arith, ones-counted n b (drop 1 p) (fnv1a_64 (take 4 p) ∷ hs))

length-shingle_hashes : (n : ℕ) (p : List ℕ) → length (shingle_hashes n p) ≡ n
unfolding shingle_hashes
length-shingle_hashes zero p = refl
length-shingle_hashes (suc n) p = ap suc (length-shingle_hashes n (drop 1 p))

blank_votes : (n b : ℕ) → Tallied [] b (replicate n zero_vote)
unfolding Tallied ones
blank_votes zero b = tt
blank_votes (suc n) b = (omega arith, blank_votes n (b + 1))

elect-majorities :
    (hs : List ℕ) (r b : ℕ) (vs : List ℕ)
    → r < 2 ^ b
    → Tallied hs b vs
    → elect r b vs ≡ r + 2 ^ b * majorities (length vs) b hs
unfolding elect majorities Tallied
elect-majorities hs r b [] small tallied = omega arith
elect-majorities hs r b (v ∷ vs) small (tally, rest) =
    elim (Bool-cases (ltb (length hs) (2 * ones b hs))) [
      | inl won ↦
          let lead : ltb zero_vote v ≡ true =
            lt→ltb zero_vote v (omega (arith, tally, ltb→lt (length hs) (2 * ones b hs) won)) in
          rw (lead, won, bit_or_disjoint b r 1 small)
            (elect-majorities hs (r + 1 * 2 ^ b) (b + 1) vs (wider (r + 1 * 2 ^ b) (omega arith))
                rest
              ∙ together (1 + 0) (r + 1 * 2 ^ b) (omega arith))
      | inr lost ↦
          let no_lead : ltb zero_vote v ≡ false =
            le→ltb_false zero_vote v
              (omega (arith, tally, ltb_false→le (length hs) (2 * ones b hs) lost)) in
          rw (no_lead, lost)
            (elect-majorities hs r (b + 1) vs (wider r (omega arith)) rest
              ∙ together 0 r (omega arith))
    ]
  where
    double : 2 ^ (b + 1) ≡ 2 * 2 ^ b
    double = ap (λ (n : ℕ). 2 ^ n) {x = b + 1} {y = suc b} (omega arith) ∙ pow-suc 2 b ∙ omega arith

    wider : (x : ℕ) → x < 2 * 2 ^ b → x < 2 ^ (b + 1)
    wider x h = omega (arith, double)

    together :
        (d x : ℕ)
        → x ≡ r + d * 2 ^ b
        → x + 2 ^ (b + 1) * majorities (length vs) (b + 1) hs
          ≡ r + 2 ^ b * (d + 2 * majorities (length vs) (b + 1) hs)
    together d x h = rw (double, h) (spread r d (2 ^ b) (majorities (length vs) (b + 1) hs))
      where
        spread : (r d q m : ℕ) → r + d * q + 2 * q * m ≡ r + q * (d + 2 * m)
        spread r d q m = omega arith

majorities-cong :
    (n b : ℕ) (hs ks : List ℕ)
    → length hs ≡ length ks
    → ((c : ℕ) → ones c hs ≡ ones c ks)
    → majorities n b hs ≡ majorities n b ks
unfolding majorities
majorities-cong zero b hs ks e f = refl
majorities-cong (suc n) b hs ks e f = rw (e, f b, majorities-cong n (b + 1) hs ks e f) refl

-- On an input of at least 4 and fewer than 2^31 bytes simhash has a result, no vote leaving the
-- range of its type, and it is the number whose digit b in base two is set exactly if more than
-- half of the hashes of the shingles have it set, for each b below 64.
pub simhash-majorities :
    (p : List ℕ)
    → 4 ≤ length p
    → length p < 2 ^ 31
    → simhash p ≡ some (majorities 64 0 (shingle_hashes (length p - 3) p))
unfolding simhash
simhash-majorities p long short =
    let n = length p - 3 in
    let (vs, counts, tallied, size) =
      shingle_votes-lem n p [] (replicate 64 zero_vote) (omega arith) (blank_votes 64 0) in
    let enough : ltb (length p) 4 ≡ false = le→ltb_false (length p) 4 long in
    let elected =
      elect-majorities (counted n p []) 0 0 vs (omega arith) tallied
      ∙ ap (λ (k : ℕ). 0 + 2 ^ 0 * majorities k 0 (counted n p [])) size
      ∙ omega arith
      ∙ majorities-cong 64 0 (counted n p []) (shingle_hashes n p)
          (omega (arith, ones-counted n 0 p [], length-shingle_hashes n p))
          (λ c. (ones-counted n c p []).0 ∙ nothing c (shingle_hashes n p)) in
    rw (enough, counts) (ap some elected)
  where
    nothing : (c : ℕ) (ks : List ℕ) → ones c ks + ones c [] ≡ ones c ks
    nothing c ks = unfold ones in omega arith
