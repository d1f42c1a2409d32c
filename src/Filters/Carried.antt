-- ===== src/Filters/Carried.antt =====
-- `struct delta`, lib/src/decompress.c: the stride filter over blocks, with the last bytes kept from
-- block to block.
use uc.Common.{
  ℕ, ◌+◌, ◌-◌, ◌^◌, ◌≤◌, ◌<◌, ◌≡◌, refl, sym, ap, ◌∙◌, joined, List, [], ◌∷◌, ◌++◌, true, ltb, ◌==◌,
  if◌then◌else◌, All, arith, set, get_or, replicate, Bool-cases, inl, inr, ==_ne,
}
use uc.Common.Result.{Result, ok, err, stuck, ◌>>=◌}
use uc.Common.Words.{u8, IsByte}

-- An access behind the end of `val`.
pub data FilterFault : Type 0 where
  beyond_val : FilterFault

pub record DeltaState : Type 0 where
  pub size : ℕ
  pub index : ℕ
  pub val : List ℕ

unfoldable pub delta_init : ℕ → DeltaState
delta_init type = record { size = u8 type; index = 0; val = replicate 16 0 }

-- `d.val[d.index] = v; if (++d.index == d.size) d.index = 0;`
unfoldable pub advance : DeltaState → ℕ → DeltaState
advance d v =
    let next = u8 (d.index + 1) in
    record d { index = if next == d.size then 0 else next; val = set d.val d.index v }

unfoldable pub delta_apply : DeltaState → List ℕ → Result FilterFault (List ℕ × DeltaState)
delta_apply d [] = ok ([], d)
delta_apply d (v ∷ p) =
    let rest = delta_apply (advance d v) p in
    if ltb d.index 16
    then (rest >>= λ (q, e). ok (u8 (v + 2 ^ 8 - u8 (get_or d.val d.index 0)) ∷ q, e))
    else err beyond_val

unfoldable pub delta_revert : DeltaState → List ℕ → Result FilterFault (List ℕ × DeltaState)
delta_revert d [] = ok ([], d)
delta_revert d (c ∷ src) =
    let v = u8 (c + u8 (get_or d.val d.index 0)) in
    let rest = delta_revert (advance d v) src in
    if ltb d.index 16 then (rest >>= λ (q, e). ok (v ∷ q, e)) else err beyond_val

advance_index :
    (d : DeltaState) (v : ℕ) → d.index < d.size → d.size ≤ 16 → (advance d v).index < d.size
unfolding advance
advance_index d v h k =
    let next : u8 (d.index + 1) ≡ d.index + 1 = omega arith in
    rw next (elim (Bool-cases (d.index + 1 == d.size)) [
      | inl last ↦ rw last (omega arith)
      | inr more ↦ rw more (omega (arith, ==_ne (d.index + 1) d.size more))
    ])

advance_size : (d : DeltaState) (v : ℕ) → (advance d v).size ≡ d.size
unfolding advance
advance_size d v = refl

delta_revert-delta_apply :
    (d : DeltaState) (p : List ℕ)
    → d.index < d.size
    → d.size ≤ 16
    → All IsByte p
    → (q : List ℕ) × (e : DeltaState) × (delta_apply d p ≡ ok (q, e))
      × (delta_revert d q ≡ ok (p, e))
unfolding delta_apply delta_revert
delta_revert-delta_apply d [] h k bytes = ([], d, refl, refl)
delta_revert-delta_apply d (v ∷ p) h k bytes =
    let size = advance_size d v in
    let inside : ltb d.index 16 ≡ true = ground arith in
    let (q, e, applied, reverted) =
      delta_revert-delta_apply (advance d v) p (omega (arith, advance_index d v h k, size))
        (omega (arith, size)) bytes.1 in
    let x = u8 (get_or d.val d.index 0) in
    let back : u8 (u8 (v + 2 ^ 8 - x) + x) ≡ v = omega (arith, bytes.0) in
    (u8 (v + 2 ^ 8 - x) ∷ q, e, rw (inside, applied) refl, rw (back, inside, reverted) refl)

-- The blocks of a file in turn, each from the state behind the one before.
unfoldable pub revert_blocks : DeltaState → List (List ℕ) → Result FilterFault (List ℕ × DeltaState)
revert_blocks d [] = ok ([], d)
revert_blocks d (p ∷ ps) =
    delta_revert d p >>= λ (a, e). revert_blocks e ps >>= λ (b, f). ok (a ++ b, f)

abbrev Reverted : Type 0
Reverted = Result FilterFault (List ℕ × DeltaState)

abbrev before : List ℕ → Reverted → Reverted
before a m = m >>= λ (b, f). ok (a ++ b, f)

abbrev then_blocks : Reverted → (DeltaState → Reverted) → Reverted
then_blocks m next = m >>= λ (a, e). before a (next e)

before_cons : (v : ℕ) (a : List ℕ) (m : Reverted) → before (v ∷ []) (before a m) ≡ before (v ∷ a) m
before_cons v a (ok (b, f)) = refl
before_cons v a (err code) = refl
before_cons v a stuck = refl

before-then_blocks :
    (v : ℕ) (m : Reverted) (next : DeltaState → Reverted)
    → before (v ∷ []) (then_blocks m next) ≡ then_blocks (before (v ∷ []) m) next
before-then_blocks v (ok (a, e)) next = before_cons v a (next e)
before-then_blocks v (err code) next = refl
before-then_blocks v stuck next = refl

then_blocks_same :
    (m : Reverted) (f g : DeltaState → Reverted)
    → ((e : DeltaState) → f e ≡ g e)
    → then_blocks m f ≡ then_blocks m g
then_blocks_same (ok (a, e)) f g h = ap (before a) (h e)
then_blocks_same (err code) f g h = refl
then_blocks_same stuck f g h = refl

delta_revert-append :
    (d : DeltaState) (p q : List ℕ)
    → delta_revert d (p ++ q) ≡ then_blocks (delta_revert d p) (λ e. delta_revert e q)
unfolding delta_revert
delta_revert-append d [] q = sym (before_nil (delta_revert d q))
  where
    before_nil : (m : Reverted) → before [] m ≡ m
    before_nil (ok (b, f)) = refl
    before_nil (err code) = refl
    before_nil stuck = refl
delta_revert-append d (c ∷ p) q = elim (Bool-cases (ltb d.index 16)) [
  | inr beyond ↦ rw beyond refl
  | inl inside ↦
      let v = u8 (c + u8 (get_or d.val d.index 0)) in
      rw inside (
        ap (before (v ∷ [])) (delta_revert-append (advance d v) p q)
        ∙ before-then_blocks v (delta_revert (advance d v) p) (λ e. delta_revert e q))
]

revert_blocks-joined :
    (d : DeltaState) (ps : List (List ℕ)) → revert_blocks d ps ≡ delta_revert d (joined ps)
unfolding revert_blocks delta_revert
revert_blocks-joined d [] = refl
revert_blocks-joined d (p ∷ ps) =
    then_blocks_same (delta_revert d p) (λ e. revert_blocks e ps) (λ e. delta_revert e (joined ps))
      (λ e. revert_blocks-joined e ps)
    ∙ sym (delta_revert-append d p (joined ps))

-- For a stride from 1 to 16, delta_apply from a new state on a file gives bytes that delta_revert,
-- from a new state and with the state carried over, turns back to the file in blocks of any sizes,
-- and neither reaches behind the end of `val`.
pub revert_blocks-delta_apply :
    (type : ℕ) (p : List ℕ) (cut : List ℕ → List (List ℕ))
    → 1 ≤ type
    → type ≤ 16
    → All IsByte p
    → ((q : List ℕ) → joined (cut q) ≡ q)
    → (q : List ℕ) × (e : DeltaState) × (delta_apply (delta_init type) p ≡ ok (q, e))
      × (revert_blocks (delta_init type) (cut q) ≡ ok (p, e))
unfolding delta_init
revert_blocks-delta_apply type p cut some limit bytes joins =
    let (q, e, applied, reverted) =
      delta_revert-delta_apply (delta_init type) p (omega arith) (omega arith) bytes in
    (
      q,
      e,
      applied,
      revert_blocks-joined (delta_init type) (cut q)
          ∙ ap (delta_revert (delta_init type)) (joins q)
          ∙ reverted,
    )
