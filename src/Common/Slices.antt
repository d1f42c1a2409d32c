-- ===== src/Common/Slices.antt =====
-- Pieces of an array: what `memcpy` reads, and how adjacent pieces join.
use Prim.Native.Nat.{ℕ, zero, suc, ◌+◌, ◌≤◌}
use mathlib.Core.Path.{◌≡◌, refl, sym, ap, ap₂, ◌∙◌}
use mathlib.Core.List.{List, [], ◌∷◌, ◌++◌, append_assoc}
use native.Mathlib.Nat.{zero-add, suc-add}
use native.Mathlib.Omega.{arith}
use uc.Common.Lists.{length, take, drop, All, length-take, length-drop, length-append}

-- The pieces of a stream in one list.
abbrev pub joined : List (List ℕ) → List ℕ
joined [] = []
joined (p ∷ ps) = p ++ joined ps

module _ {ℓ} {A : Type ℓ} where
  -- The `n` elements from index `i` on, fewer where the array ends.
  abbrev pub slice : List A → ℕ → ℕ → List A
  slice xs i n = take n (drop i xs)

  pub take-append-drop : (n : ℕ) (xs : List A) → take n xs ++ drop n xs ≡ xs
  take-append-drop zero xs = refl
  take-append-drop (suc n) [] = refl
  take-append-drop (suc n) (x ∷ xs) = ap (λ r. x ∷ r) (take-append-drop n xs)

  pub take-append : (xs ys : List A) → take (length xs) (xs ++ ys) ≡ xs
  take-append [] ys = refl
  take-append (x ∷ xs) ys = ap (λ r. x ∷ r) (take-append xs ys)

  pub drop-append : (xs ys : List A) → drop (length xs) (xs ++ ys) ≡ ys
  drop-append [] ys = refl
  drop-append (x ∷ xs) ys = drop-append xs ys

  pub take_all : (n : ℕ) (xs : List A) → length xs ≤ n → take n xs ≡ xs
  take_all zero [] h = refl
  take_all zero (x ∷ xs) h = absurd (omega arith)
  take_all (suc n) [] h = refl
  take_all (suc n) (x ∷ xs) h = ap (λ r. x ∷ r) (take_all n xs (omega arith))

  pub take-add : (m n : ℕ) (xs : List A) → take (m + n) xs ≡ take m xs ++ slice xs m n
  take-add zero n xs = ap (λ k. take k xs) (omega arith)
  take-add (suc m) n [] = take_nil (suc m + n) ∙ sym (take_nil n)
    where
      take_nil : (k : ℕ) → take {A = A} k [] ≡ []
      take_nil zero = refl
      take_nil (suc k) = refl
  take-add (suc m) n (x ∷ xs) =
      let e : suc m + n ≡ suc (m + n) = omega arith in rw e (ap (λ r. x ∷ r) (take-add m n xs))

  pub length-slice : (xs : List A) (i n : ℕ) → i + n ≤ length xs → length (slice xs i n) ≡ n
  length-slice xs i n h = omega (arith, length-take n (drop i xs), length-drop i xs)

  pub All-take {κ} : (P : A → Type κ) (n : ℕ) (xs : List A) → All P xs → All P (take n xs)
  All-take P zero xs h = tt
  All-take P (suc n) [] h = tt
  All-take P (suc n) (x ∷ xs) h = (h.0, All-take P n xs h.1)

  pub All-drop {κ} : (P : A → Type κ) (n : ℕ) (xs : List A) → All P xs → All P (drop n xs)
  All-drop P zero xs h = h
  All-drop P (suc n) [] h = tt
  All-drop P (suc n) (x ∷ xs) h = All-drop P n xs h.1

  pub drop-drop : (m n : ℕ) (xs : List A) → drop m (drop n xs) ≡ drop (n + m) xs
  drop-drop m zero xs = ap (λ k. drop k xs) (sym (zero-add m))
  drop-drop m (suc n) [] = rw (suc-add n m) (nothing m)
    where
      nothing : (k : ℕ) → drop {A = A} k [] ≡ []
      nothing zero = refl
      nothing (suc k) = refl
  drop-drop m (suc n) (x ∷ xs) = rw (suc-add n m) (drop-drop m n xs)

module _ {ℓ} {A : Type ℓ} where
  -- `memcpy(buf + i, xs, length xs)` into an array that has the room.
  abbrev pub copied : List A → ℕ → List A → List A
  copied buf i xs = take i buf ++ (xs ++ drop (i + length xs) buf)

  pub take-prefix : (n : ℕ) (xs ys : List A) → n ≤ length xs → take n (xs ++ ys) ≡ take n xs
  take-prefix zero xs ys h = refl
  take-prefix (suc n) [] ys h = absurd (omega arith)
  take-prefix (suc n) (x ∷ xs) ys h = ap (λ r. x ∷ r) (take-prefix n xs ys (omega arith))

  pub drop-prefix : (n : ℕ) (xs ys : List A) → n ≤ length xs → drop n (xs ++ ys) ≡ drop n xs ++ ys
  drop-prefix zero xs ys h = refl
  drop-prefix (suc n) [] ys h = absurd (omega arith)
  drop-prefix (suc n) (x ∷ xs) ys h = drop-prefix n xs ys (omega arith)

  pub length-copied :
      (buf xs : List A) (i : ℕ) → i + length xs ≤ length buf → length (copied buf i xs) ≡ length buf
  length-copied buf xs i h = omega (
    arith,
    length-append (take i buf) (xs ++ drop (i + length xs) buf),
    length-append xs (drop (i + length xs) buf),
    length-take i buf,
    length-drop (i + length xs) buf,
  )

  -- What stands before the end of the copy.
  pub take-copied :
      (buf xs : List A) (i : ℕ)
      → i + length xs ≤ length buf
      → take (i + length xs) (copied buf i xs) ≡ take i buf ++ xs
  take-copied buf xs i h =
      let start : length (take i buf) ≡ i = omega (arith, length-take i buf) in
      let size : i + length xs ≡ length (take i buf ++ xs) =
        omega (arith, length-append (take i buf) xs, start) in
      ap (λ t. take (i + length xs) t)
        (sym (append_assoc (take i buf) xs (drop (i + length xs) buf)))
      ∙ ap (λ (k : ℕ). take k ((take i buf ++ xs) ++ drop (i + length xs) buf)) size
      ∙ take-append (take i buf ++ xs) (drop (i + length xs) buf)

  pub drop_all : (n : ℕ) (xs : List A) → length xs ≤ n → drop n xs ≡ []
  drop_all zero [] h = refl
  drop_all zero (x ∷ xs) h = absurd (omega arith)
  drop_all (suc n) [] h = refl
  drop_all (suc n) (x ∷ xs) h = drop_all n xs (omega arith)

  -- What stands behind the copy.
  pub drop-copied :
      (buf xs : List A) (i k : ℕ)
      → i + length xs ≤ length buf
      → drop (i + length xs + k) (copied buf i xs) ≡ drop (i + length xs + k) buf
  drop-copied buf xs i k h =
      let size : i + length xs ≡ length (take i buf ++ xs) =
        omega (arith, length-append (take i buf) xs, length-take i buf) in
      let first : drop (i + length xs) (copied buf i xs) ≡ drop (i + length xs) buf =
        ap (λ t. drop (i + length xs) t)
          (sym (append_assoc (take i buf) xs (drop (i + length xs) buf)))
        ∙ ap (λ (n : ℕ). drop n ((take i buf ++ xs) ++ drop (i + length xs) buf)) size
        ∙ drop-append (take i buf ++ xs) (drop (i + length xs) buf) in
      sym (drop-drop k (i + length xs) (copied buf i xs))
      ∙ ap (drop k) first
      ∙ drop-drop k (i + length xs) buf

  -- Two copies, one behind the other.
  pub copied-copied :
      (buf xs ys : List A) (i : ℕ)
      → i + length xs + length ys ≤ length buf
      → copied (copied buf i xs) (i + length xs) ys ≡ copied buf i (xs ++ ys)
  copied-copied buf xs ys i h =
      let total : i + length xs + length ys ≡ i + length (xs ++ ys) =
        omega (arith, length-append xs ys) in
      ap₂ (λ s t. s ++ (ys ++ t)) (take-copied buf xs i (omega arith))
        (drop-copied buf xs i (length ys) (omega arith))
      ∙ append_assoc (take i buf) xs (ys ++ drop (i + length xs + length ys) buf)
      ∙ ap (λ t. take i buf ++ t)
          (sym (append_assoc xs ys (drop (i + length xs + length ys) buf))
            ∙ ap (λ (n : ℕ). (xs ++ ys) ++ drop n buf) total)

  pub copied-nil : (buf : List A) (i : ℕ) → copied buf i [] ≡ buf
  copied-nil buf i =
      ap (λ (n : ℕ). take i buf ++ drop n buf) {x = i + 0} {y = i} (omega arith)
      ∙ take-append-drop i buf
