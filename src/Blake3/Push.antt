-- ===== src/Blake3/Push.antt =====
-- An update of BLAKE3 (`uc2_blake3_update`, lib/src/uc2_blake3.c), byte by byte.
use uc.Common.{
  ℕ, zero, suc, ◌+◌, ◌-◌, ◌≤◌, ◌<◌, ◌≡◌, refl, sym, ap, ap₂, ◌∙◌, List, [], ◌∷◌, ◌++◌, Option, none,
  some, Option-cases, ltb, ◌==◌, take, drop, length, arith, copied, min, take-append-drop,
  length-copied, copied-copied, copied-nil, length-take, length-drop, length-append, Bool-cases,
  inl, inr, false, ==_ne, if◌then◌else◌,
}
use mathlib.Core.Path.{subst}
use uc.Common.Words.{u8}
use uc.Blake3.Stream.{
  Context, next_chunk, merge_full, push_cv, chunk_finalize, chunk_block, flush, take_bytes,
  update_loop, blake3_update,
}
use mathlib.Core.Option

unfoldable pub push : Context → ℕ → Option Context
push ctx x = Option.bind (flush ctx) (λ ready. some (take_bytes ready (x ∷ [])))

unfoldable pub pushes : Context → List ℕ → Option Context
pushes ctx [] = some ctx
pushes ctx (x ∷ xs) = Option.bind (push ctx x) (λ next. pushes next xs)

abbrev pub IsBuffered : Context → Type 0
IsBuffered ctx = (length ctx.buf ≡ 64) × (ctx.buf_len ≤ 64)

-- A flushed context has room.
abbrev pub HasRoom : Context → Type 0
HasRoom ctx = (length ctx.buf ≡ 64) × (ctx.buf_len < 64)

pub flush-HasRoom_id : (ctx : Context) → HasRoom ctx → flush ctx ≡ some ctx
unfolding flush
flush-HasRoom_id ctx (size, room) =
    let part : (ctx.buf_len == 64) ≡ false = ground (arith, room) in rw part refl

push_cv-keeps :
    (ctx next : Context) (cv : List ℕ)
    → push_cv ctx cv ≡ some next
    → (next.buf ≡ ctx.buf) × (next.buf_len ≡ ctx.buf_len)
unfolding push_cv Option.bind
push_cv-keeps ctx next cv e =
    elim (Option-cases (merge_full 64 ctx.chunk_counter cv ctx.cv_stack)) [
      | inl stop ↦ absurd (no_context (rw stop at e))
      | inr (stack, merged) ↦ placed stack (rw merged at e)
    ]
  where
    no_context : ◌≡◌ {A = Option Context} none (some next) → ⊥
    no_context e = cc

    placed :
        (stack : List (List ℕ))
        → (if ltb 54 (length stack) then none else some (record ctx { cv_stack = stack }))
          ≡ some next
        → (next.buf ≡ ctx.buf) × (next.buf_len ≡ ctx.buf_len)
    placed stack e = elim (Bool-cases (ltb 54 (length stack))) [
      | inl deep ↦ absurd (no_context (rw deep at e))
      | inr fine ↦
          let same : record ctx { cv_stack = stack } ≡ next = Option.some_inj.0 (rw fine at e) in
          (sym (ap (λ (c : Context). c.buf) same), sym (ap (λ (c : Context). c.buf_len) same))
    ]

pub flush-HasRoom : (ctx ready : Context) → IsBuffered ctx → flush ctx ≡ some ready → HasRoom ready
unfolding flush
flush-HasRoom ctx ready (size, used) e = elim (Bool-cases (ctx.buf_len == 64)) [
  | inr part ↦
      let same : ctx ≡ ready = Option.some_inj.0 (rw part at e) in
      subst HasRoom same (size, omega (arith, ==_ne ctx.buf_len 64 part))
  | inl full ↦ elim (Bool-cases (ctx.blocks_compressed == 15)) [
    | inr more ↦
        let same : record (chunk_block ctx) { buf_len = 0 } ≡ ready =
          Option.some_inj.0 (rw (full, more) at e) in
        subst HasRoom same (unfold chunk_block in (size, omega arith))
    | inl last ↦ elim (Option-cases (push_cv ctx (chunk_finalize ctx))) [
      | inl stop ↦ absurd (no_context (rw (full, last, stop) at e))
      | inr (next, pushed) ↦
          let same : next_chunk next ≡ ready = Option.some_inj.0 (rw (full, last, pushed) at e) in
          let (buf, _) = push_cv-keeps ctx next (chunk_finalize ctx) pushed in
          subst HasRoom same (ap length buf ∙ size, omega arith)
    ]
  ]
]
  where
    no_context : ◌≡◌ {A = Option Context} none (some ready) → ⊥
    no_context e = cc

take_bytes-nil : (ctx : Context) → ctx.buf_len ≤ 64 → take_bytes ctx [] ≡ ctx
take_bytes-nil ctx h =
    let used : u8 (ctx.buf_len + u8 0) ≡ ctx.buf_len = omega arith in
    ap₂ (λ (b : List ℕ) (n : ℕ). record ctx { buf = b; buf_len = n })
      (copied-nil ctx.buf ctx.buf_len) used

take_bytes-append :
    (ctx : Context) (xs ys : List ℕ)
    → length ctx.buf ≡ 64
    → ctx.buf_len + length xs + length ys ≤ 64
    → take_bytes (take_bytes ctx xs) ys ≡ take_bytes ctx (xs ++ ys)
take_bytes-append ctx xs ys size h =
    let used : u8 (ctx.buf_len + u8 (length xs)) ≡ ctx.buf_len + length xs = omega arith in
    let total : u8 (u8 (ctx.buf_len + u8 (length xs)) + u8 (length ys))
        ≡ u8 (ctx.buf_len + u8 (length (xs ++ ys))) =
      omega (arith, length-append xs ys) in
    ap₂ (λ (b : List ℕ) (n : ℕ). record ctx { buf = b; buf_len = n })
      (ap (λ (n : ℕ). copied (copied ctx.buf ctx.buf_len xs) n ys) used
        ∙ copied-copied ctx.buf xs ys ctx.buf_len (omega (arith, size)))
      total

-- The bytes of one copy.
pushes-take_bytes :
    (ctx : Context) (xs : List ℕ)
    → length ctx.buf ≡ 64
    → ctx.buf_len + length xs ≤ 64
    → pushes ctx xs ≡ some (take_bytes ctx xs)
unfolding pushes push Option.bind
pushes-take_bytes ctx [] size h = ap some (sym (take_bytes-nil ctx (omega arith)))
pushes-take_bytes ctx (x ∷ xs) size h =
    let next = take_bytes ctx (x ∷ []) in
    let kept : length next.buf ≡ 64 =
      length-copied ctx.buf (x ∷ []) ctx.buf_len (omega (arith, size)) ∙ size in
    rw (flush-HasRoom_id ctx (size, omega arith)) (
      pushes-take_bytes next xs kept (omega arith)
      ∙ ap some (take_bytes-append ctx (x ∷ []) xs size (omega arith)))

pub pushes-append :
    (ctx : Context) (xs ys : List ℕ)
    → pushes ctx (xs ++ ys) ≡ Option.bind (pushes ctx xs) (λ next. pushes next ys)
unfolding pushes Option.bind
pushes-append ctx [] ys = refl
pushes-append ctx (x ∷ xs) ys = elim (Option-cases (push ctx x)) [
  | inl stop ↦ rw stop refl
  | inr (next, step) ↦ rw step (pushes-append next xs ys)
]

-- The length of the data is fuel enough, since every turn copies a byte at least.
module _ (x : ℕ) (xs : List ℕ) (fuel : ℕ) (enough : length xs ≤ fuel)
    (rest : (ctx : Context) (p : List ℕ)
      → IsBuffered ctx
      → length p ≤ fuel
      → update_loop fuel ctx p ≡ pushes ctx p) where
  turn_pushes :
      (ready : Context)
      → HasRoom ready
      → update_loop fuel
          (take_bytes ready (take (min (64 - ready.buf_len) (length (x ∷ xs))) (x ∷ xs)))
          (drop (min (64 - ready.buf_len) (length (x ∷ xs))) (x ∷ xs))
        ≡ pushes ready (x ∷ xs)
  unfolding Option.bind
  turn_pushes ready (size, room) =
      let n = min (64 - ready.buf_len) (length (x ∷ xs)) in
      let front = take n (x ∷ xs) in
      let back = drop n (x ∷ xs) in
      let count : length front ≡ n = omega (arith, length-take n (x ∷ xs)) in
      let next = take_bytes ready front in
      let kept : length next.buf ≡ 64 =
        length-copied ready.buf front ready.buf_len (omega (arith, size, count)) ∙ size in
      let used : next.buf_len ≤ 64 = omega (arith, count) in
      rest next back (kept, used) (omega (arith, length-drop n (x ∷ xs)))
      ∙ sym (
          ap (pushes ready) (sym (take-append-drop n (x ∷ xs)))
          ∙ pushes-append ready front back
          ∙ ap (λ (o : Option Context). Option.bind o (λ c. pushes c back))
              (pushes-take_bytes ready front size (omega (arith, count))))

  flushed_pushes :
      (ctx ready : Context)
      → flush ctx ≡ some ready
      → HasRoom ready
      → pushes ctx (x ∷ xs) ≡ pushes ready (x ∷ xs)
  unfolding pushes push Option.bind
  flushed_pushes ctx ready done has = rw (done, flush-HasRoom_id ready has) refl

update_loop-pushes :
    (fuel : ℕ) (ctx : Context) (p : List ℕ)
    → IsBuffered ctx
    → length p ≤ fuel
    → update_loop fuel ctx p ≡ pushes ctx p
unfolding update_loop Option.bind
update_loop-pushes fuel ctx [] held enough = unfold pushes in refl
update_loop-pushes zero ctx (x ∷ xs) held enough = absurd (omega arith)
update_loop-pushes (suc fuel) ctx (x ∷ xs) held enough = elim (Option-cases (flush ctx)) [
  | inl stop ↦ rw stop (sym (stopped stop))
  | inr (ready, done) ↦
      let has = flush-HasRoom ctx ready held done in
      rw done (
        turn_pushes x xs fuel (omega arith) (λ c p. update_loop-pushes fuel c p) ready has
        ∙ sym (
            flushed_pushes x xs fuel (omega arith) (λ c p. update_loop-pushes fuel c p) ctx ready
              done has))
]
  where
    stopped : flush ctx ≡ none → pushes ctx (x ∷ xs) ≡ none
    stopped e = unfold pushes push in rw e refl

pub blake3_update-pushes :
    (ctx : Context) (p : List ℕ) → IsBuffered ctx → blake3_update ctx p ≡ pushes ctx p
unfolding blake3_update
blake3_update-pushes ctx p held = update_loop-pushes (length p) ctx p held (omega arith)
