-- ===== src/Common/Arrays.antt =====
-- Writes to a byte array.
use Prim.Native.Nat.{ℕ, zero, suc, ◌<◌}
use mathlib.Core.Path.{◌≡◌, refl, ap}
use mathlib.Core.Logic.{◌≢◌}
use mathlib.Core.List.{List, [], ◌∷◌}
use native.Mathlib.Omega.{arith}
use uc.Common.Lists.{length, set, All}
use uc.Common.Words.{byte_at, IsByte}

pub byte_at-set_self : (xs : List ℕ) (i v : ℕ) → i < length xs → byte_at (set xs i v) i ≡ v
byte_at-set_self [] i v h = absurd (omega arith)
byte_at-set_self (x ∷ xs) zero v h = refl
byte_at-set_self (x ∷ xs) (suc i) v h = byte_at-set_self xs i v (omega arith)

pub byte_at-set_ne : (xs : List ℕ) (i j v : ℕ) → i ≢ j → byte_at (set xs i v) j ≡ byte_at xs j
byte_at-set_ne [] i j v h = refl
byte_at-set_ne (x ∷ xs) zero zero v h = absurd (h refl)
byte_at-set_ne (x ∷ xs) zero (suc j) v h = refl
byte_at-set_ne (x ∷ xs) (suc i) zero v h = refl
byte_at-set_ne (x ∷ xs) (suc i) (suc j) v h = byte_at-set_ne xs i j v (λ e. h (ap suc e))

pub set-set : (xs : List ℕ) (i v w : ℕ) → set (set xs i v) i w ≡ set xs i w
set-set [] i v w = refl
set-set (x ∷ xs) zero v w = refl
set-set (x ∷ xs) (suc i) v w = ap (λ t. x ∷ t) (set-set xs i v w)

pub set-byte_at : (xs : List ℕ) (i : ℕ) → set xs i (byte_at xs i) ≡ xs
set-byte_at [] i = refl
set-byte_at (x ∷ xs) zero = refl
set-byte_at (x ∷ xs) (suc i) = ap (λ t. x ∷ t) (set-byte_at xs i)

pub byte_at-IsByte : (xs : List ℕ) (i : ℕ) → All IsByte xs → byte_at xs i < 256
byte_at-IsByte [] i h = omega arith
byte_at-IsByte (x ∷ xs) zero h = h.0
byte_at-IsByte (x ∷ xs) (suc i) h = byte_at-IsByte xs i h.1

pub set-IsByte : (xs : List ℕ) (i v : ℕ) → All IsByte xs → v < 256 → All IsByte (set xs i v)
set-IsByte [] i v h k = tt
set-IsByte (x ∷ xs) zero v h k = (k, h.1)
set-IsByte (x ∷ xs) (suc i) v h k = (h.0, set-IsByte xs i v h.1 k)
