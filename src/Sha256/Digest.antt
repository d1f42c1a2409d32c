-- ===== src/Sha256/Digest.antt =====
-- The context after any sequence of updates (lib/src/uc2_sha256.c).
use uc.Common.{
  ℕ, ◌+◌, ◌*◌, ◌≡◌, refl, sym, ap, ◌∙◌, List, [], ◌++◌, length, arith, length-append, Bool-cases,
  inl, inr, ltb,
}
use uc.Common.Words.{u64}
use uc.Sha256.Stream.{Context, sha256_init, sha256_update}
use uc.Sha256.Padded.{blocks}
use uc.Sha256.Laws.{Keeps, fill-Keeps, empty-Keeps, fill-bitcount, absorb-bitcount}

-- The context has taken `message`.
pub record Holds (ctx : Context) (message : List ℕ) : Type 0 where
  pub keeps : Keeps ctx message
  pub bits : ctx.bitcount ≡ u64 (length message * 8)

pub sha256_init-Holds : (buf : List ℕ) → length buf ≡ 64 → Holds (sha256_init buf) []
unfolding sha256_init
sha256_init-Holds buf h = record {
  keeps = record {
    count = 0;
    front = [];
    tail = [];
    parts = refl;
    size = refl;
    state = unfold blocks in refl;
    room = h;
    rest = refl;
    used = refl;
    small = omega arith;
  };
  bits = refl;
}

count_more : (bits m n : ℕ) → bits ≡ u64 (m * 8) → u64 (bits + u64 (u64 n * 8)) ≡ u64 ((m + n) * 8)
count_more bits m n h = omega (arith, h)

module _ (ctx : Context) (message p : List ℕ) (held : Holds ctx message) where
  abbrev counted : Context
  counted = record ctx { bitcount = u64 (ctx.bitcount + u64 (u64 (length p) * 8)) }

  counted-Keeps : Keeps counted message
  counted-Keeps = record {
    count = held.keeps.count;
    front = held.keeps.front;
    tail = held.keeps.tail;
    parts = held.keeps.parts;
    size = held.keeps.size;
    state = held.keeps.state;
    room = held.keeps.room;
    rest = held.keeps.rest;
    used = held.keeps.used;
    small = held.keeps.small;
  }

  counted_bits : counted.bitcount ≡ u64 (length (message ++ p) * 8)
  counted_bits =
      count_more ctx.bitcount (length message) (length p) held.bits
      ∙ ap (λ (n : ℕ). u64 (n * 8)) (sym (length-append message p))

  pub sha256_update-Holds : Holds (sha256_update ctx p) (message ++ p)
  unfolding sha256_update
  sha256_update-Holds = elim (Bool-cases (ltb 0 ctx.buf_len)) [
    | inl started ↦ rw started (record {
      keeps = fill-Keeps counted message p counted-Keeps;
      bits = absorb-bitcount _ _ ∙ fill-bitcount counted p ∙ counted_bits;
    })
    | inr fresh ↦ rw fresh (record {
      keeps = empty-Keeps counted message p counted-Keeps fresh;
      bits = absorb-bitcount _ _ ∙ counted_bits;
    })
  ]
