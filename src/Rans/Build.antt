-- ===== src/Rans/Build.antt =====
-- `uc2_rans_build_table`, lib/src/uc2_rans.c: frequencies on the scale of the coder. The counts
-- are those of the symbols; what the arrays hold behind them stays.
use uc.Common.{
  ℕ, zero, suc, ◌+◌, ◌-◌, ◌*◌, ◌/◌, ◌^◌, List, [], ◌∷◌, ◌++◌, ltb, ◌==◌, if◌then◌else◌, length,
  take, drop, set, replicate, map, min,
}
use uc.Common.Words.{u16, u32, u64, byte_at}
use uc.Rans.Coder.{prob_scale, Table}

abbrev pub max_syms : ℕ
max_syms = 344

abbrev pub sum : List ℕ → ℕ
sum [] = 0
sum (x ∷ xs) = x + sum xs

-- The frequency of a symbol that occurs is one at least.
unfoldable pub scaled : ℕ → ℕ → ℕ
scaled total raw =
    let f = u32 (u64 (raw * prob_scale) / total) in if raw == 0 then 0 else if f == 0 then 1 else f

-- The loop on `i` that keeps the index of the largest entry.
unfoldable pub largest_from : List ℕ → ℕ → ℕ → ℕ → ℕ
largest_from freq zero i largest = largest
largest_from freq (suc n) i largest =
    largest_from freq n (i + 1) (if ltb (byte_at freq largest) (byte_at freq i) then i else largest)

-- What is missing is added to the largest entry, what is too much is taken from it; `2 ^ 32` keeps
-- the difference positive, and the cast to 16 bits drops it.
unfoldable pub adjust : List ℕ → ℕ → List ℕ
adjust freq assigned =
    let largest = largest_from freq (length freq - 1) 1 0 in
    let exact = set freq largest (u16 (byte_at freq largest + (2 ^ 32 + prob_scale - assigned))) in
    if assigned == prob_scale then freq else exact

-- Each entry is the sum of the entries before it.
unfoldable pub cumulative : ℕ → List ℕ → List ℕ
cumulative acc [] = []
cumulative acc (x ∷ xs) = acc ∷ cumulative (u16 (acc + x)) xs

unfoldable pub build_table : Table → List ℕ → ℕ → Table
build_table tab raw_freq nsym =
    let n = min nsym max_syms in
    let raw = take n raw_freq in
    let total = u64 (sum raw) in
    let fs = map (scaled total) raw in
    let freq = adjust (map u16 fs) (u32 (sum fs)) in
    if total == 0
    then record {
      freq = replicate (length tab.freq) 0;
      cumfreq = replicate (length tab.cumfreq) 0;
      nsym = n;
    }
    else record {
      freq = freq ++ drop n tab.freq;
      cumfreq = cumulative 0 freq ++ drop n tab.cumfreq;
      nsym = n;
    }
