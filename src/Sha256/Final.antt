-- ===== src/Sha256/Final.antt =====
-- The end of a stream of SHA-256 (`uc2_sha256_final`, `uc2_sha256_hash`, lib/src/uc2_sha256.c).
use uc.Common.{joined}
use uc.Common.{
  ℕ, ◌+◌, ◌-◌, ◌*◌, ◌≤◌, ◌<◌, ◌≡◌, refl, sym, ap, ap₂, ◌∙◌, List, [], ◌∷◌, ◌++◌, take, set, length,
  replicate, arith, length-append, length-set, append_assoc, append-nil, Bool-cases, inl, inr, ltb,
  ltb→lt, ltb_false→le,
}
use uc.Common.Words.{u64}
use uc.Sha256.Compress.{Registers, compress}
use uc.Sha256.Stream.{
  Context, initial_registers, sha256_init, sha256_update, last_block, sha256_final, clear,
  bit_count_bytes, digest_bytes,
}
use uc.Sha256.Padded.{blocks, blocks-suc, blocks_one, standard_hash}
use uc.Sha256.Digest.{Holds, sha256_init-Holds, sha256_update-Holds}
use uc.Sha256.Last.{
  replicate-add, zeros, take-set, copied_end, last_block_lem, padded_parts, standard_blocks,
}

-- The end where the mark and the count fit the block.
module _ (ctx : Context) (message : List ℕ) (held : Holds ctx message) where
  abbrev tail : List ℕ
  tail = held.keeps.tail

  abbrev front : List ℕ
  front = held.keeps.front

  abbrev after : Registers
  after = blocks held.keeps.count initial_registers front

  abbrev buffer : List ℕ
  buffer = set ctx.buf ctx.buf_len 0x80

  buffer-room : length buffer ≡ 64
  buffer-room = length-set ctx.buf ctx.buf_len 0x80 ∙ held.keeps.room

  mark : take (ctx.buf_len + 1) buffer ≡ tail ++ (0x80 ∷ [])
  mark =
      take-set ctx.buf ctx.buf_len 0x80
        (omega (arith, held.keeps.room, held.keeps.used, held.keeps.small))
      ∙ ap (λ t. t ++ (0x80 ∷ [])) held.keeps.rest

  count : ctx.bitcount ≡ u64 (length (front ++ tail) * 8)
  count = held.bits ∙ ap (λ t. u64 (length t * 8)) held.keeps.parts

  short_end :
      ctx.buf_len + 1 ≤ 56
      → digest_bytes (last_block ctx.state ctx.bitcount buffer (ctx.buf_len + 1))
        ≡ standard_hash (front ++ tail)
  short_end h =
      let n = 56 - (ctx.buf_len + 1) in
      let block = ((tail ++ (0x80 ∷ [])) ++ replicate n 0) ++ bit_count_bytes ctx.bitcount in
      let size : length block ≡ 64 = omega (
        arith,
        length-append ((tail ++ (0x80 ∷ [])) ++ replicate n 0) (bit_count_bytes ctx.bitcount),
        length-append (tail ++ (0x80 ∷ [])) (replicate n 0),
        length-append tail (0x80 ∷ []),
        zeros n,
        held.keeps.used,
      ) in
      ap digest_bytes (
        last_block_lem buffer (tail ++ (0x80 ∷ [])) buffer-room ctx.state ctx.bitcount
          (ctx.buf_len + 1) mark h
        ∙ ap (λ s. compress s block) held.keeps.state
        ∙ sym (blocks_one after block size))
      ∙ sym (
          standard_blocks front tail held.keeps.count held.keeps.size held.keeps.small 1 block
            (padded_parts front tail held.keeps.count held.keeps.size held.keeps.small n
                (omega (arith, held.keeps.used, held.keeps.small))
              ∙ ap (λ b. front ++ (((tail ++ (0x80 ∷ [])) ++ replicate n 0) ++ bit_count_bytes b))
                  (sym count))
            (omega (arith, size)))

  long_end :
      56 < ctx.buf_len + 1
      → digest_bytes (
          last_block
            (compress ctx.state (clear buffer (ctx.buf_len + 1) (64 - (ctx.buf_len + 1))))
            ctx.bitcount
            (clear buffer (ctx.buf_len + 1) (64 - (ctx.buf_len + 1)))
            0)
        ≡ standard_hash (front ++ tail)
  long_end h =
      let marked = tail ++ (0x80 ∷ []) in
      let len = ctx.buf_len + 1 in
      let n = 64 - len in
      let full = clear buffer len n in
      let first = marked ++ replicate n 0 in
      let second = replicate 56 0 ++ bit_count_bytes ctx.bitcount in
      let fits : len + n ≡ 64 = omega (arith, held.keeps.used, held.keeps.small) in
      let same : full ≡ first =
        copied_end buffer marked (replicate n 0) len mark
          (omega (arith, buffer-room, fits, zeros n)) in
      let first_size : length first ≡ 64 = omega (
        arith,
        length-append marked (replicate n 0),
        length-append tail (0x80 ∷ []),
        zeros n,
        held.keeps.used,
        fits,
      ) in
      let second_size : length second ≡ 64 = refl in
      ap digest_bytes (
        last_block_lem full [] (ap length same ∙ first_size) (compress ctx.state full) ctx.bitcount
          0 refl (omega arith)
        ∙ ap₂ (λ s b. compress (compress s b) second) held.keeps.state same
        ∙ ap (λ s. compress s second) (sym (blocks_one after first first_size))
        ∙ sym (blocks-suc 1 after first second first_size second_size))
      ∙ sym (
          standard_blocks front tail held.keeps.count held.keeps.size held.keeps.small 2
            (first ++ second)
            (padded_parts front tail held.keeps.count held.keeps.size held.keeps.small (n + 56)
                (omega (arith, held.keeps.used, held.keeps.small, h))
              ∙ ap₂ (λ z b. front ++ ((marked ++ z) ++ bit_count_bytes b)) (replicate-add n 56)
                  (sym count)
              ∙ ap (λ t. front ++ t)
                  (ap (λ t. t ++ bit_count_bytes ctx.bitcount)
                      (sym (append_assoc marked (replicate n 0) (replicate 56 0)))
                    ∙ append_assoc first (replicate 56 0) (bit_count_bytes ctx.bitcount)))
            (omega (arith, length-append first second, first_size, second_size)))

  pub sha256_final-Holds : sha256_final ctx ≡ standard_hash message
  unfolding sha256_final
  sha256_final-Holds = elim (Bool-cases (ltb 56 (ctx.buf_len + 1))) [
    | inl long ↦ rw (long, held.keeps.parts) (long_end (ltb→lt 56 (ctx.buf_len + 1) long))
    | inr short ↦ rw (short, held.keeps.parts) (short_end (ltb_false→le 56 (ctx.buf_len + 1) short))
  ]

-- The digest of a message that comes in pieces.
unfoldable pub updates : Context → List (List ℕ) → Context
updates ctx [] = ctx
updates ctx (p ∷ ps) = updates (sha256_update ctx p) ps

updates-Holds :
    (ctx : Context) (message : List ℕ) (ps : List (List ℕ))
    → Holds ctx message
    → Holds (updates ctx ps) (message ++ joined ps)
unfolding updates
updates-Holds ctx message [] held = rw (append-nil message) held
updates-Holds ctx message (p ∷ ps) held =
    rw (sym (append_assoc message p (joined ps))) (
      updates-Holds (sha256_update ctx p) (message ++ p) ps
        (sha256_update-Holds ctx message p held))

-- From sha256_init on a context with a buffer of 64 bytes of any content, sha256_update for each
-- piece of a message in turn, however it is cut and empty pieces included, and then sha256_final,
-- give the digest of the standard: the whole message, one bit, zeros and the 64-bit count of its
-- bits, taken by the compression function block after block.
pub sha256_final-updates :
    (buf : List ℕ) (ps : List (List ℕ))
    → length buf ≡ 64
    → sha256_final (updates (sha256_init buf) ps) ≡ standard_hash (joined ps)
sha256_final-updates buf ps h =
    sha256_final-Holds _ (joined ps)
      (updates-Holds (sha256_init buf) [] ps (sha256_init-Holds buf h))
