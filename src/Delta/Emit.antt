-- ===== src/Delta/Emit.antt =====
-- The emitters of lib/src/uc2_delta.c as instructions: what a successful call appends.
use uc.Common.{ℕ, ◌≡◌, ◌∙◌, ap, List, ◌∷◌, ◌++◌, Bool, length, append_assoc}
use uc.Common.Result.{ok, >>=-eq-ok}
use uc.Common.Words.{bytes32}
use uc.Delta.Obuf.{Obuf, obuf_append, emit_copy, emit_insert, obuf_append_bytes}
use uc.Delta.Instr.{copy, insert, code}

pub emit_copy-code :
    (alloc : ℕ → Bool) (o : Obuf) (offset len : ℕ) (o' : Obuf)
    → emit_copy alloc o offset len ≡ ok o'
    → o'.bytes ≡ o.bytes ++ code (copy offset len)
unfolding emit_copy code
emit_copy-code alloc o offset len o' e = obuf_append_bytes alloc o _ o' e

pub emit_insert-code :
    (alloc : ℕ → Bool) (o : Obuf) (xs : List ℕ) (o' : Obuf)
    → emit_insert alloc o xs ≡ ok o'
    → o'.bytes ≡ o.bytes ++ code (insert xs)
unfolding emit_insert code
emit_insert-code alloc o xs o' e =
    let (mid, first, second) = >>=-eq-ok (obuf_append alloc o _) _ e in
    obuf_append_bytes alloc mid xs o' second
    ∙ ap (λ b. b ++ xs) (obuf_append_bytes alloc o _ mid first)
    ∙ append_assoc o.bytes (0x02 ∷ bytes32 (length xs)) xs
