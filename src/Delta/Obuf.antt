-- ===== src/Delta/Obuf.antt =====
-- `struct obuf` and its operations, lib/src/uc2_delta.c. An allocator is the test whether a request
-- for so many bytes is met.
use uc.Common.{
  ℕ, zero, suc, ◌+◌, ◌-◌, ◌*◌, ◌^◌, ◌≤◌, ◌<◌, ◌≡◌, Bool, true, List, [], ◌∷◌, ◌++◌, arith, ltb,
  ◌==◌, if◌then◌else◌, length, length-append, ap, ◌≢◌, Bool-cases, inl, inr, refl,
}
use native.Mathlib.Nat.{pow-suc}
use uc.Common.Result.{Result, ok, err, stuck, ◌>>=◌, >>=-ne-stuck, >>=-eq-ok_intro}
use uc.Common.Words.{bytes32}

-- The only error code of this file is -1.
pub data Failure : Type 0 where
  minus_one : Failure

abbrev pub size_max : ℕ
size_max = 2 ^ 64 - 1

pub record Obuf : Type 0 where
  pub bytes : List ℕ
  pub cap : ℕ

abbrev pub empty_obuf : Obuf
empty_obuf = record { bytes = []; cap = 0 }

-- `while (newcap < need) { if (newcap > SIZE_MAX / 2) { newcap = need; break; } newcap *= 2; }`
unfoldable pub grow : ℕ → ℕ → ℕ → Result Failure ℕ
grow zero need newcap = if ltb newcap need then stuck else ok newcap
grow (suc fuel) need newcap =
    let more = grow fuel need (newcap * 2) in
    if ltb newcap need then (if ltb (2 ^ 63 - 1) newcap then ok need else more) else ok newcap

-- The capacity that the loop starts from.
abbrev first_cap : Obuf → ℕ
first_cap o = if o.cap == 0 then 256 else o.cap

unfoldable pub obuf_append : (ℕ → Bool) → Obuf → List ℕ → Result Failure Obuf
obuf_append alloc o xs =
    let need = length o.bytes + length xs in
    let resized = grow 64 need (first_cap o) >>= λ newcap.
    if alloc newcap then ok (record { bytes = o.bytes ++ xs; cap = newcap }) else err minus_one in
    if ltb (size_max - length o.bytes) (length xs)
    then err minus_one
    else if ltb o.cap need
    then resized
    else ok (record o { bytes = o.bytes ++ xs })

unfoldable pub emit_copy : (ℕ → Bool) → Obuf → ℕ → ℕ → Result Failure Obuf
emit_copy alloc o offset len = obuf_append alloc o (0x01 ∷ (bytes32 offset ++ bytes32 len))

unfoldable pub emit_insert : (ℕ → Bool) → Obuf → List ℕ → Result Failure Obuf
emit_insert alloc o xs = do
  o' ← obuf_append alloc o (0x02 ∷ bytes32 (length xs))
  obuf_append alloc o' xs

-- Once `newcap` has the highest bit of a `size_t`, the next round is the last one.
grow-ok :
    (fuel need c : ℕ)
    → 2 ^ 63 ≤ c * 2 ^ fuel
    → (m : ℕ) × (grow (suc fuel) need c ≡ ok m) × (need ≤ m)
unfolding grow
grow-ok zero need c h = elim (Bool-cases (ltb c need)) [
  | inl less ↦ (need, ground arith, omega arith)
  | inr enough ↦ (c, ground arith, ground arith)
]
grow-ok (suc fuel) need c h =
    let (m, done, enough) =
      grow-ok fuel need (c * 2) (omega (arith, ap (λ (t : ℕ). c * t) (pow-suc 2 fuel))) in
    elim (Bool-cases (ltb c need)) [
      | inr there ↦ (c, rw there refl, ground arith)
      | inl less ↦ elim (Bool-cases (ltb (2 ^ 63 - 1) c)) [
        | inl high ↦ (need, rw (less, high) refl, omega arith)
        | inr low ↦ (m, rw (less, low) done, enough)
      ]
    ]

-- An append is refused, or the bytes fit the new capacity.
record Appended (alloc : ℕ → Bool) (o : Obuf) (xs : List ℕ) : Type 0 where
  newcap : ℕ
  enough : length o.bytes + length xs ≤ newcap
  same : obuf_append alloc o xs ≡ (
      if ltb (size_max - length o.bytes) (length xs)
      then err minus_one
      else if ltb o.cap (length o.bytes + length xs)
      then (if alloc newcap
          then ok (record { bytes = o.bytes ++ xs; cap = newcap })
          else err minus_one)
      else ok (record o { bytes = o.bytes ++ xs }))

appended : (alloc : ℕ → Bool) (o : Obuf) (xs : List ℕ) → Appended alloc o xs
unfolding obuf_append
appended alloc o xs =
    let (m, done, enough) = grow-ok 63 (length o.bytes + length xs) (first_cap o) (ground arith) in
    record { newcap = m; enough = enough; same = rw done refl }

-- An append that succeeds appends just the bytes.
pub obuf_append_bytes :
    (alloc : ℕ → Bool) (o : Obuf) (xs : List ℕ) (o' : Obuf)
    → obuf_append alloc o xs ≡ ok o'
    → o'.bytes ≡ o.bytes ++ xs
obuf_append_bytes alloc o xs o' e = ground (arith, (appended alloc o xs).same)

-- If obuf_append succeeds on a buffer whose length is within its capacity, the buffer that results
-- is within its capacity as well, so the copy stays in the allocation.
pub obuf_append_fits :
    (alloc : ℕ → Bool) (o : Obuf) (xs : List ℕ) (o' : Obuf)
    → length o.bytes ≤ o.cap
    → obuf_append alloc o xs ≡ ok o'
    → length o'.bytes ≤ o'.cap
obuf_append_fits alloc o xs o' fits e =
    ground
      (arith, length-append o.bytes xs, (appended alloc o xs).same, (appended alloc o xs).enough)

pub obuf_append-ne-stuck :
    (alloc : ℕ → Bool) (o : Obuf) (xs : List ℕ) → obuf_append alloc o xs ≢ stuck
obuf_append-ne-stuck alloc o xs e = ground (arith, (appended alloc o xs).same)

pub emit_insert-ne-stuck :
    (alloc : ℕ → Bool) (o : Obuf) (xs : List ℕ) → emit_insert alloc o xs ≢ stuck
unfolding emit_insert
emit_insert-ne-stuck alloc o xs =
    >>=-ne-stuck (obuf_append alloc o _) _ (obuf_append-ne-stuck alloc o _)
      (λ o' _. obuf_append-ne-stuck alloc o' xs)

-- Every request for memory is met.
abbrev pub always : ℕ → Bool
always n = true

pub obuf_append-ok :
    (o : Obuf) (xs : List ℕ)
    → length o.bytes + length xs < 2 ^ 64
    → (o' : Obuf) × (obuf_append always o xs ≡ ok o')
obuf_append-ok o xs room = elim (Bool-cases (ltb o.cap (length o.bytes + length xs))) [
  | inl more ↦ (
    record { bytes = o.bytes ++ xs; cap = (appended always o xs).newcap },
    ground (arith, (appended always o xs).same),
  )
  | inr fits ↦ (record o { bytes = o.bytes ++ xs }, ground (arith, (appended always o xs).same))
]

pub emit_insert-ok :
    (o : Obuf) (xs : List ℕ)
    → length o.bytes + length xs + 5 < 2 ^ 64
    → (o' : Obuf) × (emit_insert always o xs ≡ ok o')
unfolding emit_insert bytes32
emit_insert-ok o xs room =
    let head : List ℕ = 0x02 ∷ bytes32 (length xs) in
    >>=-eq-ok_intro (obuf_append always o head) _ (obuf_append-ok o head (omega arith)) (λ mid e.
      obuf_append-ok mid xs (
        omega
          (arith, ap length (obuf_append_bytes always o head mid e), length-append o.bytes head)))
