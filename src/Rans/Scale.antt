-- ===== src/Rans/Scale.antt =====
-- The table that `uc2_rans_build_table` (lib/src/uc2_rans.c) makes.
use uc.Common.{
  ℕ, zero, suc, ◌+◌, ◌-◌, ◌*◌, ◌/◌, ◌^◌, ◌≤◌, ◌<◌, ◌≡◌, refl, sym, ap, ap₂, ◌∙◌, List, [], ◌∷◌,
  ◌++◌, ltb, ◌==◌, length, take, drop, set, All, map, min, arith, Bool-cases, inl, inr, ==_iff,
  ==_ne, length-set, take_all, take-append, false,
}
use uc.Common.Words.{u16, u32, u64, byte_at}
use uc.Common.Arrays.{byte_at-set_self, byte_at-set_ne}
use native.Mathlib.Nat.{div-le_of_le-mul, mul-le-mul_right}
use uc.Rans.Coder.{prob_scale, Table}
use mathlib.Core.Path.{subst}
use uc.Rans.Step.{IsTable}
use uc.Rans.RoundTrip.{IsCoded}
use uc.Rans.Build.{max_syms, sum, scaled, largest_from, adjust, cumulative, build_table}
use uc.Rans.Sums.{sum-set, byte_at-sum, byte_at-append, cumulative-IsTable}

module _ (total : ℕ) (some_count : 1 ≤ total) (small : total < 2 ^ 44) where
  scaled_bounds :
      (raw : ℕ) → raw ≤ total → (scaled total raw ≤ 4096) × (1 ≤ raw → 1 ≤ scaled total raw)
  unfolding scaled
  scaled_bounds raw h =
      let top : raw * 4096 / total ≤ 4096 =
        div-le_of_le-mul total (mul-le-mul_right {m = raw} {n = total} 4096 h) in
      let wide : u64 (raw * 4096) ≡ raw * 4096 = omega arith in rw wide (ground (arith, top))

  scaled-All :
      (raws : List ℕ)
      → All (λ x. x ≤ total) raws
      → (All (λ f. f ≤ 4096) (map (scaled total) raws))
        × (sum (map (scaled total) raws) ≤ 4096 * length raws)
  scaled-All [] h = (tt, omega arith)
  scaled-All (x ∷ xs) h =
      let (one, _) = scaled_bounds x h.0 in
      let (rest, total_rest) = scaled-All xs h.1 in ((one, rest), omega (arith, one, total_rest))

  scaled_positive :
      (raws : List ℕ) (s : ℕ)
      → All (λ x. x ≤ total) raws
      → 1 ≤ byte_at raws s
      → 1 ≤ byte_at (map (scaled total) raws) s
  scaled_positive [] s h k = k
  scaled_positive (x ∷ xs) zero h k = (scaled_bounds x h.0).1 k
  scaled_positive (x ∷ xs) (suc s) h k = scaled_positive xs s h.1 k

u16-All : (fs : List ℕ) → All (λ f. f ≤ 4096) fs → map u16 fs ≡ fs
u16-All [] h = refl
u16-All (f ∷ fs) h = ap₂ ◌∷◌ (omega (arith, h.0)) (u16-All fs h.1)

All-sum : (xs : List ℕ) (n : ℕ) → sum xs ≤ n → All (λ x. x ≤ n) xs
All-sum [] n h = tt
All-sum (x ∷ xs) n h = (omega arith, All-sum xs n (omega arith))

sum_bound : (xs : List ℕ) → All (λ x. x < 2 ^ 32) xs → sum xs ≤ 2 ^ 32 * length xs
sum_bound [] h = omega arith
sum_bound (x ∷ xs) h = omega (arith, h.0, sum_bound xs h.1)

largest_from-lt :
    (freq : List ℕ) (n i largest : ℕ)
    → largest < length freq
    → i + n ≤ length freq
    → largest_from freq n i largest < length freq
unfolding largest_from
largest_from-lt freq zero i largest h k = h
largest_from-lt freq (suc n) i largest h k =
    elim (Bool-cases (ltb (byte_at freq largest) (byte_at freq i))) [
      | inl more ↦ rw more (largest_from-lt freq n (i + 1) i (omega arith) (omega arith))
      | inr less ↦ rw less (largest_from-lt freq n (i + 1) largest h (omega arith))
    ]

-- The entry that the code takes for the largest.
abbrev pub largest_of : List ℕ → ℕ
largest_of fs = largest_from fs (length fs - 1) 1 0

length-adjust : (fs : List ℕ) (assigned : ℕ) → length (adjust fs assigned) ≡ length fs
unfolding adjust
length-adjust fs assigned = elim (Bool-cases (assigned == prob_scale)) [
  | inl exact ↦ rw exact refl
  | inr off ↦ rw off (length-set fs (largest_of fs) _)
]

module _ (fs : List ℕ) (some_symbol : 1 ≤ length fs)
    (tame : sum fs < prob_scale + byte_at fs (largest_of fs)) (small : sum fs < 2 ^ 31) where
  abbrev place : ℕ
  place = largest_of fs

  inside : place < length fs
  inside = largest_from-lt fs (length fs - 1) 1 0 some_symbol (omega arith)

  new_value :
      u16 (byte_at fs place + (2 ^ 32 + prob_scale - sum fs))
      ≡ byte_at fs place + prob_scale - sum fs
  new_value = omega (arith, byte_at-sum fs place)

  sum-adjust : sum (adjust fs (sum fs)) ≡ prob_scale
  unfolding adjust
  sum-adjust = elim (Bool-cases (sum fs == prob_scale)) [
    | inl exact ↦ rw exact ((==_iff (sum fs) prob_scale).0 exact)
    | inr off ↦
        rw (off, new_value)
          (omega (
            arith,
            sum-set fs place (byte_at fs place + prob_scale - sum fs) inside,
            byte_at-sum fs place,
          ))
  ]

  adjust_positive : (s : ℕ) → 1 ≤ byte_at fs s → 1 ≤ byte_at (adjust fs (sum fs)) s
  unfolding adjust
  adjust_positive s h = elim (Bool-cases (sum fs == prob_scale)) [
    | inl exact ↦ rw exact h
    | inr off ↦
        rw (off, new_value)
          (elim (Bool-cases (place == s)) [
            | inl here ↦
                let at = (==_iff place s).0 here in
                subst (λ t. 1 ≤ byte_at (set fs place (byte_at fs place + prob_scale - sum fs)) t)
                  at
                  (omega (
                    arith,
                    byte_at-set_self fs place (byte_at fs place + prob_scale - sum fs) inside,
                    tame,
                  ))
            | inr away ↦ omega (
              arith,
              byte_at-set_ne fs place s (byte_at fs place + prob_scale - sum fs)
                  (==_ne place s away),
              h,
            )
          ])
  ]

length-map : (f : ℕ → ℕ) (xs : List ℕ) → length (map f xs) ≡ length xs
length-map f [] = refl
length-map f (x ∷ xs) = ap suc (length-map f xs)

nonempty : (xs : List ℕ) → 1 ≤ sum xs → 1 ≤ length xs
nonempty [] h = h
nonempty (x ∷ xs) h = omega arith

byte_at-positive : (xs : List ℕ) (s : ℕ) → 1 ≤ byte_at xs s → s < length xs
byte_at-positive [] s h = absurd (omega arith)
byte_at-positive (x ∷ xs) zero h = omega arith
byte_at-positive (x ∷ xs) (suc s) h = omega (arith, byte_at-positive xs s h)

-- The counts of the symbols, and the frequencies before the adjustment.
module _ (tab : Table) (raw : List ℕ) (few : length raw ≤ max_syms)
    (words : All (λ x. x < 2 ^ 32) raw) (counted : 1 ≤ sum raw) where
  abbrev rough : List ℕ
  rough = map (scaled (sum raw)) raw

  abbrev exact : List ℕ
  exact = adjust rough (sum rough)

  counts_small : sum raw < 2 ^ 44
  counts_small = omega (arith, sum_bound raw words)

  All-below : All (λ x. x ≤ sum raw) raw
  All-below = All-sum raw (sum raw) (omega arith)

  rough_small : sum rough < 2 ^ 31
  rough_small = omega (arith, (scaled-All (sum raw) counted counts_small raw All-below).1)

  length-exact : length exact ≡ length raw
  length-exact = length-adjust rough (sum rough) ∙ length-map (scaled (sum raw)) raw

  build_table_lem : build_table tab raw (length raw) ≡ record {
    freq = exact ++ drop (length raw) tab.freq;
    cumfreq = cumulative 0 exact ++ drop (length raw) tab.cumfreq;
    nsym = length exact;
  }
  unfolding build_table
  build_table_lem =
      let count : min (length raw) max_syms ≡ length raw = omega arith in
      let all : take (length raw) raw ≡ raw = take_all (length raw) raw (omega arith) in
      let total : u64 (sum raw) ≡ sum raw = omega (arith, counts_small) in
      let some_count : (sum raw == 0) ≡ false = ground arith in
      let words16 : map u16 rough ≡ rough =
        u16-All rough ((scaled-All (sum raw) counted counts_small raw All-below).0) in
      let assigned : u32 (sum rough) ≡ sum rough = omega (arith, rough_small) in
      rw (count, all, total, some_count, words16, assigned, length-exact) refl

  -- For at most 344 counts below 2^32, not all zero, whose scaled frequencies sum to less than
  -- 4096 and the largest of them, build_table makes a table with disjoint ranges within the scale
  -- whose frequencies sum to 4096, in which every symbol that occurs has a frequency of one at
  -- least.
  pub build_table-IsTable :
      sum rough < prob_scale + byte_at rough (largest_of rough)
      → IsTable (build_table tab raw (length raw))
        × (sum (take (length raw) ((build_table tab raw (length raw)).freq)) ≡ prob_scale)
        × ((s : ℕ) → 1 ≤ byte_at raw s → IsCoded (build_table tab raw (length raw)) s)
  build_table-IsTable tame =
      let some_symbol : 1 ≤ length rough =
        omega (arith, length-map (scaled (sum raw)) raw, nonempty raw counted) in
      let whole = sum-adjust rough some_symbol tame rough_small in
      rw build_table_lem (
        cumulative-IsTable exact (drop (length raw) tab.freq) (drop (length raw) tab.cumfreq)
            (omega (arith, whole)),
        ap sum (
              ap (λ (n : ℕ). take n (exact ++ drop (length raw) tab.freq)) (sym length-exact)
              ∙ take-append exact (drop (length raw) tab.freq))
            ∙ whole,
        λ s h.
            let known = byte_at-positive raw s h in
            (
              omega (arith, length-exact, known),
              rw
                  (byte_at-append exact (drop (length raw) tab.freq) s
                    (omega (arith, length-exact, known)))
                  (adjust_positive rough some_symbol tame rough_small s
                    (scaled_positive (sum raw) counted counts_small raw s All-below h)),
            ),
      )
