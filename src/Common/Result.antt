-- ===== src/Common/Result.antt =====
-- The outcome of a C function that reports errors: a value, an error code, or (no C value) a model
-- loop that ran out of fuel.
use mathlib.Core.Path.{◌≡◌, refl}
use mathlib.Core.Bool.{Bool, true, false}
use mathlib.Core.Logic.{◌≢◌, ◌⊎◌, inl, inr}

pub data Result {ℓ} (E : Type 0) (A : Type ℓ) : Type ℓ where
  ok : A → Result E A
  err : E → Result E A
  stuck : Result E A

infixl 5 ◌>>=◌ ◌>>◌
abbrev pub ◌>>=◌ {ℓ κ} :
    {E : Type 0} {A : Type ℓ} {B : Type κ} → Result E A → (A → Result E B) → Result E B
ok a >>= f = f a
err e >>= f = err e
stuck >>= f = stuck

abbrev pub ◌>>◌ {ℓ} : {E : Type 0} {B : Type ℓ} → Result E (Unit {0}) → Result E B → Result E B
m >> k = m >>= λ _. k

-- `if (!test) return e;`
abbrev pub require : {E : Type 0} → Bool → E → Result E (Unit {0})
require true e = ok tt
require false e = err e

pub >>=-eq-ok {ℓ κ} :
    {E : Type 0} {A : Type ℓ} {B : Type κ} (m : Result E A) (next : A → Result E B) {c : B}
    → (m >>= next) ≡ ok c
    → (a : A) × (m ≡ ok a) × (next a ≡ ok c)
>>=-eq-ok stuck next done = cc
>>=-eq-ok (err e) next done = cc
>>=-eq-ok (ok a) next done = (a, refl, done)

pub Result-cases {ℓ} :
    {E : Type 0} {A : Type ℓ} (m : Result E A)
    → m ≢ stuck
    → ((x : A) × (m ≡ ok x)) ⊎ ((code : E) × (m ≡ err code))
Result-cases stuck ends = absurd (ends refl)
Result-cases (err code) ends = inr (code, refl)
Result-cases (ok x) ends = inl (x, refl)

pub >>=-ne-stuck {ℓ κ} :
    {E : Type 0} {A : Type ℓ} {B : Type κ} (m : Result E A) (f : A → Result E B)
    → m ≢ stuck
    → ((a : A) → m ≡ ok a → f a ≢ stuck)
    → (m >>= f) ≢ stuck
>>=-ne-stuck (ok a) f h k = k a refl
>>=-ne-stuck (err e) f h k = λ p. cc
>>=-ne-stuck stuck f h k = absurd (h refl)

pub >>=-eq-ok_intro {ℓ κ} :
    {E : Type 0} {A : Type ℓ} {B : Type κ} (m : Result E A) (f : A → Result E B)
    → ((a : A) × (m ≡ ok a))
    → ((a : A) → m ≡ ok a → (b : B) × (f a ≡ ok b))
    → (b : B) × ((m >>= f) ≡ ok b)
>>=-eq-ok_intro (ok a) f h k = k a refl
>>=-eq-ok_intro (err e) f (a, h) k = cc
>>=-eq-ok_intro stuck f (a, h) k = cc

pub require-ok : {E : Type 0} (b : Bool) (e : E) → b ≡ true → (u : Unit {0}) × (require b e ≡ ok u)
require-ok true e h = (tt, refl)
require-ok false e h = cc

pub ok-ne-stuck {ℓ} : {E : Type 0} {A : Type ℓ} (a : A) → ◌≢◌ {A = Result E A} (ok a) stuck
ok-ne-stuck a = λ p. cc

pub require_then-eq-ok {ℓ} :
    {E : Type 0} {A : Type ℓ} (b : Bool) (e : E) (m : Result E A) {a : A}
    → (require b e >> m) ≡ ok a
    → (b ≡ true) × (m ≡ ok a)
require_then-eq-ok true e m h = (refl, h)
require_then-eq-ok false e m h = cc
