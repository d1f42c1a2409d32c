-- ===== src/Filters/StrideLaws.antt =====
-- The two stride filters one after the other, round by round (lib/src/uc2_preprocess.c).
use uc.Common.{
  ℕ, zero, suc, ◌+◌, ◌-◌, ◌^◌, ◌≤◌, ◌<◌, ◌≡◌, refl, ap, ◌∙◌, List, ltb, length, set, arith, All,
  length-set, Bool-cases, inl, inr, ◌≢◌,
}
use uc.Common.Words.{u8, IsByte, byte_at}
use uc.Common.Arrays.{
  byte_at-set_self, byte_at-set_ne, set-set, set-byte_at, byte_at-IsByte, set-IsByte,
}
use uc.Filters.Stride.{
  subtract, add_back, clamp_stride, filter_down, filter_up, delta_filter_apply, delta_filter_revert,
}

module _ (stride : ℕ) (positive : 1 ≤ stride) where
  add_back-subtract :
      (i : ℕ) (xs : List ℕ)
      → stride ≤ i
      → i < length xs
      → All IsByte xs
      → add_back stride i (subtract stride i xs) ≡ xs
  unfolding add_back subtract
  add_back-subtract i xs low high bytes =
      let apart : i ≢ i - stride = λ e. omega arith in
      let v = u8 (2 ^ 8 + byte_at xs i - byte_at xs (i - stride)) in
      rw
        (
          byte_at-set_self xs i v high,
          byte_at-set_ne xs i (i - stride) v apart,
          set-set xs i v (u8 (v + byte_at xs (i - stride))),
        )
        (ap (set xs i)
            (omega (arith, byte_at-IsByte xs i bytes, byte_at-IsByte xs (i - stride) bytes))
          ∙ set-byte_at xs i)

  subtract-add_back :
      (i : ℕ) (xs : List ℕ)
      → stride ≤ i
      → i < length xs
      → All IsByte xs
      → subtract stride i (add_back stride i xs) ≡ xs
  unfolding add_back subtract
  subtract-add_back i xs low high bytes =
      let apart : i ≢ i - stride = λ e. omega arith in
      let v = u8 (byte_at xs i + byte_at xs (i - stride)) in
      rw
        (
          byte_at-set_self xs i v high,
          byte_at-set_ne xs i (i - stride) v apart,
          set-set xs i v (u8 (2 ^ 8 + v - byte_at xs (i - stride))),
        )
        (ap (set xs i)
            (omega (arith, byte_at-IsByte xs i bytes, byte_at-IsByte xs (i - stride) bytes))
          ∙ set-byte_at xs i)

  subtract_keeps :
      (i : ℕ) (xs : List ℕ)
      → All IsByte xs
      → All IsByte (subtract stride i xs) × (length (subtract stride i xs) ≡ length xs)
  unfolding subtract
  subtract_keeps i xs bytes = (set-IsByte xs i _ bytes (omega arith), length-set xs i _)

  add_back_keeps :
      (i : ℕ) (xs : List ℕ)
      → All IsByte xs
      → All IsByte (add_back stride i xs) × (length (add_back stride i xs) ≡ length xs)
  unfolding add_back
  add_back_keeps i xs bytes = (set-IsByte xs i _ bytes (omega arith), length-set xs i _)

  filter_down_keeps :
      (i : ℕ) (xs : List ℕ)
      → All IsByte xs
      → All IsByte (filter_down stride i xs) × (length (filter_down stride i xs) ≡ length xs)
  unfolding filter_down
  filter_down_keeps zero xs bytes = (bytes, refl)
  filter_down_keeps (suc i) xs bytes = elim (Bool-cases (ltb stride (suc i))) [
    | inl more ↦
        let (bytes', same) = subtract_keeps i xs bytes in
        let (bytes'', same') = filter_down_keeps i (subtract stride i xs) bytes' in
        rw more ((bytes'', same' ∙ same))
    | inr done ↦ rw done ((bytes, refl))
  ]

  -- The last round of the way up.
  filter_up-snoc :
      (n i : ℕ) (xs : List ℕ)
      → filter_up (suc n) stride i xs ≡ add_back stride (i + n) (filter_up n stride i xs)
  unfolding filter_up
  filter_up-snoc zero i xs = ap (λ k. add_back stride k xs) (omega arith)
  filter_up-snoc (suc n) i xs =
      filter_up-snoc n (i + 1) (add_back stride i xs)
      ∙ ap (λ k. add_back stride k (filter_up n stride (i + 1) (add_back stride i xs)))
          (omega arith)

  filter_up_keeps :
      (n i : ℕ) (xs : List ℕ)
      → All IsByte xs
      → All IsByte (filter_up n stride i xs) × (length (filter_up n stride i xs) ≡ length xs)
  unfolding filter_up
  filter_up_keeps zero i xs bytes = (bytes, refl)
  filter_up_keeps (suc n) i xs bytes =
      let (bytes', same) = add_back_keeps i xs bytes in
      let (bytes'', same') = filter_up_keeps n (i + 1) (add_back stride i xs) bytes' in
      (bytes'', same' ∙ same)

  filter_down-stop : (i : ℕ) (xs : List ℕ) → i ≤ stride → filter_down stride i xs ≡ xs
  unfolding filter_down
  filter_down-stop zero xs h = refl
  filter_down-stop (suc i) xs h = ground arith

  filter_down-step :
      (i : ℕ) (xs : List ℕ)
      → stride ≤ i
      → filter_down stride (suc i) xs ≡ filter_down stride i (subtract stride i xs)
  unfolding filter_down
  filter_down-step i xs h = ground arith

  from_suc :
      (n : ℕ) (xs : List ℕ)
      → filter_down stride (stride + suc n) xs
        ≡ filter_down stride (stride + n) (subtract stride (stride + n) xs)
  from_suc n xs =
      let next : stride + suc n ≡ suc (stride + n) = omega arith in
      ap (λ k. filter_down stride k xs) next ∙ filter_down-step (stride + n) xs (omega arith)

  filter_up-filter_down :
      (n : ℕ) (xs : List ℕ)
      → stride + n ≤ length xs
      → All IsByte xs
      → filter_up n stride stride (filter_down stride (stride + n) xs) ≡ xs
  filter_up-filter_down zero xs room bytes =
      unfold filter_up in filter_down-stop (stride + 0) xs (omega arith)
  filter_up-filter_down (suc n) xs room bytes =
      let (bytes', same) = subtract_keeps (stride + n) xs bytes in
      ap (filter_up (suc n) stride stride) (from_suc n xs)
      ∙ filter_up-snoc n stride (filter_down stride (stride + n) (subtract stride (stride + n) xs))
      ∙ ap (add_back stride (stride + n))
          (filter_up-filter_down n (subtract stride (stride + n) xs) (omega (arith, same)) bytes')
      ∙ add_back-subtract (stride + n) xs (omega arith) (omega arith) bytes

  filter_down-filter_up :
      (n : ℕ) (xs : List ℕ)
      → stride + n ≤ length xs
      → All IsByte xs
      → filter_down stride (stride + n) (filter_up n stride stride xs) ≡ xs
  filter_down-filter_up zero xs room bytes =
      unfold filter_up in filter_down-stop (stride + 0) xs (omega arith)
  filter_down-filter_up (suc n) xs room bytes =
      let (bytes', same) = filter_up_keeps n stride xs bytes in
      ap (filter_down stride (stride + suc n)) (filter_up-snoc n stride xs)
      ∙ from_suc n (add_back stride (stride + n) (filter_up n stride stride xs))
      ∙ ap (filter_down stride (stride + n)) (
          subtract-add_back (stride + n) (filter_up n stride stride xs) (omega arith)
            (omega (arith, same)) bytes')
      ∙ filter_down-filter_up n xs (omega arith) bytes

  both_ways :
      (xs : List ℕ)
      → All IsByte xs
      → (filter_up (length xs - stride) stride stride (filter_down stride (length xs) xs) ≡ xs)
        × (filter_down stride (length xs) (filter_up (length xs - stride) stride stride xs) ≡ xs)
  both_ways xs bytes = elim (Bool-cases (ltb (length xs) stride)) [
    | inl short ↦
        let none : length xs - stride ≡ 0 = ground arith in
        let stop : length xs ≤ stride = ground arith in
        rw (none) (
          unfold filter_up in
          (filter_down-stop (length xs) xs stop, filter_down-stop (length xs) xs stop))
    | inr long ↦
        let whole : length xs ≡ stride + (length xs - stride) = ground arith in
        let room : stride + (length xs - stride) ≤ length xs = ground arith in
        let down = filter_up-filter_down (length xs - stride) xs room bytes in
        let up = filter_down-filter_up (length xs - stride) xs room bytes in
        (
          ap (λ k. filter_up (length xs - stride) stride stride (filter_down stride k xs)) whole
              ∙ down,
          ap (λ k. filter_down stride k (filter_up (length xs - stride) stride stride xs)) whole
              ∙ up,
        )
  ]

-- On bytes and for every stride, delta_filter_revert undoes delta_filter_apply and
-- delta_filter_apply undoes delta_filter_revert.
pub delta_filter_revert-delta_filter_apply :
    (stride : ℕ) (bytes : List ℕ)
    → All IsByte bytes
    → (delta_filter_revert stride (delta_filter_apply stride bytes) ≡ bytes)
      × (delta_filter_apply stride (delta_filter_revert stride bytes) ≡ bytes)
unfolding delta_filter_apply delta_filter_revert
delta_filter_revert-delta_filter_apply stride bytes h =
    let s = clamp_stride stride in
    let positive : 1 ≤ s = ground arith in
    let (down, up) = both_ways s positive bytes h in
    let len = (filter_down_keeps s positive (length bytes) bytes h).1 in
    let len' = (filter_up_keeps s positive (length bytes - s) s bytes h).1 in
    (
      ap (λ k. filter_up (k - s) s s (filter_down s (length bytes) bytes)) len ∙ down,
      ap (λ k. filter_down s k (filter_up (length bytes - s) s s bytes)) len' ∙ up,
    )
