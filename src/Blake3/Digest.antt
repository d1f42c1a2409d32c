-- ===== src/Blake3/Digest.antt =====
-- A stream of bytes through the context of BLAKE3 (lib/src/uc2_blake3.c).
use uc.Common.{
  ℕ, ◌+◌, ◌^◌, ◌≤◌, ◌<◌, ◌≡◌, refl, sym, List, [], ◌∷◌, ◌++◌, some, length, arith, ◌==◌,
  append_assoc, append-nil, length-append, Bool-cases, inl, inr, ==_iff, ==_ne,
}
use mathlib.Core.Path.{subst}
use uc.Blake3.Stream.{Context, flush, take_bytes, blake3_init}
use uc.Blake3.Push.{push, pushes}
use uc.Blake3.Tree.{chain}
use uc.Blake3.Stack.{leaves_of, contents, cvs, bottom}
use uc.Blake3.Laws.{Holds, take_byte, block_done, chunk_pushed}
use mathlib.Core.Option

-- A stream that has begun has bytes in its buffer.
abbrev pub Begun : Context → List ℕ → Type 0
Begun ctx message = Holds ctx message × (1 ≤ length message → 1 ≤ ctx.buf_len)

pub blake3_init-Holds : Holds blake3_init []
unfolding blake3_init
blake3_init-Holds = record {
  trees = [];
  current = [];
  parts = unfold contents in refl;
  digits = bottom 0;
  count = unfold leaves_of in refl;
  whole = unfold contents in refl;
  stack = unfold cvs in refl;
  no_flags = refl;
  few = omega arith;
  state = unfold chain in refl;
  size = refl;
  rest = refl;
  room = refl;
  used = omega arith;
}

flush-Holds :
    (ctx : Context) (message : List ℕ)
    → Holds ctx message
    → length message < 2 ^ 64
    → (ready : Context) × (flush ctx ≡ some ready) × Holds ready message × (ready.buf_len < 64)
unfolding flush
flush-Holds ctx message held small = elim (Bool-cases (ctx.buf_len == 64)) [
  | inr part ↦ rw part (ctx, refl, held, omega (arith, held.used, ==_ne ctx.buf_len 64 part))
  | inl full ↦
      let at_end = (==_iff ctx.buf_len 64).0 full in
      elim (Bool-cases (ctx.blocks_compressed == 15)) [
        | inr more ↦
            rw (full, more)
              (
                _,
                refl,
                block_done ctx message held at_end
                    (omega (arith, held.few, ==_ne ctx.blocks_compressed 15 more)),
                omega arith,
              )
        | inl last ↦
            let ends = (==_iff ctx.blocks_compressed 15).0 last in
            let (next, pushed, kept) = chunk_pushed ctx message held at_end ends small in
            rw (full, last, pushed) (_, refl, kept, omega arith)
      ]
]

push-Holds :
    (ctx : Context) (message : List ℕ) (x : ℕ)
    → Holds ctx message
    → length message < 2 ^ 64
    → (next : Context) × (push ctx x ≡ some next) × Begun next (message ++ (x ∷ []))
unfolding push Option.bind
push-Holds ctx message x held small =
    let (ready, done, kept, room) = flush-Holds ctx message held small in
    rw done (
      take_bytes ready (x ∷ []),
      refl,
      (take_byte ready message x kept room, λ _. omega (arith, room)),
    )

pub pushes-Begun :
    (ctx : Context) (message p : List ℕ)
    → Begun ctx message
    → length message + length p < 2 ^ 64
    → (next : Context) × (pushes ctx p ≡ some next) × Begun next (message ++ p)
unfolding pushes Option.bind
pushes-Begun ctx message [] held small =
    (ctx, refl, subst (Begun ctx) (sym (append-nil message)) held)
pushes-Begun ctx message (x ∷ xs) held small =
    let (mid, step, begun) = push-Holds ctx message x held.0 (omega arith) in
    let (next, steps, done) =
      pushes-Begun mid (message ++ (x ∷ [])) xs begun
        (omega (arith, length-append message (x ∷ []))) in
    (next, rw step steps, subst (Begun next) (append_assoc message (x ∷ []) xs) done)
