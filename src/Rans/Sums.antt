-- ===== src/Rans/Sums.antt =====
-- Frequencies and their sums as a table of lib/src/uc2_rans.c.
use uc.Common.{
  ℕ, zero, suc, ◌+◌, ◌^◌, ◌≤◌, ◌<◌, ◌≡◌, refl, ap, ◌∙◌, List, [], ◌∷◌, ◌++◌, length, take, set,
  arith,
}
use uc.Common.Words.{u16, byte_at}
use uc.Rans.Coder.{prob_scale}
use uc.Rans.Step.{IsTable}
use uc.Rans.Build.{sum, cumulative}

pub sum-set : (xs : List ℕ) (i v : ℕ) → i < length xs → sum (set xs i v) + byte_at xs i ≡ sum xs + v
sum-set [] i v h = absurd (omega arith)
sum-set (x ∷ xs) zero v h = omega arith
sum-set (x ∷ xs) (suc i) v h = omega (arith, sum-set xs i v)

pub byte_at-sum : (xs : List ℕ) (i : ℕ) → byte_at xs i ≤ sum xs
byte_at-sum [] i = omega arith
byte_at-sum (x ∷ xs) zero = omega arith
byte_at-sum (x ∷ xs) (suc i) = omega (arith, byte_at-sum xs i)

-- The entry at `i` ends where the entries up to it do.
pub sum-take_suc : (xs : List ℕ) (i : ℕ) → sum (take i xs) + byte_at xs i ≡ sum (take (i + 1) xs)
sum-take_suc xs i = up xs i ∙ ap (λ (k : ℕ). sum (take k xs)) {x = suc i} {y = i + 1} (omega arith)
  where
    up : (ys : List ℕ) (j : ℕ) → sum (take j ys) + byte_at ys j ≡ sum (take (suc j) ys)
    up [] zero = refl
    up [] (suc j) = refl
    up (y ∷ ys) zero = omega arith
    up (y ∷ ys) (suc j) = omega (arith, up ys j)

pub sum-take_mono : (xs : List ℕ) (i j : ℕ) → i ≤ j → sum (take i xs) ≤ sum (take j xs)
sum-take_mono xs zero j h = omega arith
sum-take_mono [] (suc i) zero h = absurd (omega arith)
sum-take_mono [] (suc i) (suc j) h = omega arith
sum-take_mono (x ∷ xs) (suc i) zero h = absurd (omega arith)
sum-take_mono (x ∷ xs) (suc i) (suc j) h = omega (arith, sum-take_mono xs i j)

pub sum-take_le : (xs : List ℕ) (i : ℕ) → sum (take i xs) ≤ sum xs
sum-take_le xs zero = omega arith
sum-take_le [] (suc i) = omega arith
sum-take_le (x ∷ xs) (suc i) = omega (arith, sum-take_le xs i)

pub cumulative-sum :
    (acc : ℕ) (xs : List ℕ) (i : ℕ)
    → i < length xs
    → acc + sum xs < 2 ^ 16
    → byte_at (cumulative acc xs) i ≡ acc + sum (take i xs)
unfolding cumulative
cumulative-sum acc [] i h small = absurd (omega arith)
cumulative-sum acc (x ∷ xs) zero h small = omega arith
cumulative-sum acc (x ∷ xs) (suc i) h small =
    omega (arith, cumulative-sum (u16 (acc + x)) xs i (omega arith) (omega arith))

pub length-cumulative : (acc : ℕ) (xs : List ℕ) → length (cumulative acc xs) ≡ length xs
unfolding cumulative
length-cumulative acc [] = refl
length-cumulative acc (x ∷ xs) = ap suc (length-cumulative (u16 (acc + x)) xs)

pub byte_at-append : (xs ys : List ℕ) (i : ℕ) → i < length xs → byte_at (xs ++ ys) i ≡ byte_at xs i
byte_at-append [] ys i h = absurd (omega arith)
byte_at-append (x ∷ xs) ys zero h = refl
byte_at-append (x ∷ xs) ys (suc i) h = byte_at-append xs ys i (omega arith)

-- Frequencies within the scale and their sums make a table.
pub cumulative-IsTable :
    (freq more_freq more_cum : List ℕ)
    → sum freq ≤ prob_scale
    → IsTable (record {
      freq = freq ++ more_freq;
      cumfreq = cumulative 0 freq ++ more_cum;
      nsym = length freq;
    })
cumulative-IsTable freq more_freq more_cum h = record {
  in_scale = λ s l. omega (arith, cum s l, own s l, sum-take_suc freq s, sum-take_le freq (s + 1));
  disjoint = λ s t below l. omega (
    arith,
    cum s (omega arith),
    own s (omega arith),
    cum t l,
    sum-take_suc freq s,
    sum-take_mono freq (s + 1) t (omega arith),
  );
}
  where
    cum : (s : ℕ) → s < length freq → byte_at (cumulative 0 freq ++ more_cum) s ≡ sum (take s freq)
    cum s l =
        byte_at-append (cumulative 0 freq) more_cum s (omega (arith, length-cumulative 0 freq))
        ∙ cumulative-sum 0 freq s l (omega arith)
        ∙ omega arith

    own : (s : ℕ) → s < length freq → byte_at (freq ++ more_freq) s ≡ byte_at freq s
    own s l = byte_at-append freq more_freq s l
