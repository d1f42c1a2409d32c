-- ===== src/Sha256/Laws.antt =====
-- The two parts of an update of SHA-256 (`fill` and `absorb`), lib/src/uc2_sha256.c.
use uc.Common.{
  ℕ, ◌+◌, ◌-◌, ◌*◌, ◌≤◌, ◌<◌, ◌≡◌, refl, sym, ap, ap₂, ◌∙◌, List, [], ◌∷◌, ◌++◌, take, drop, length,
  min, arith, copied, take-append-drop, take_all, take-copied, length-copied, length-append,
  length-take, append_assoc, append-nil, Bool-cases, inl, inr, ltb, lt→ltb, ◌==◌, true, false,
  ==_iff, ==_ne, ◌≢◌, drop_all,
}
use mathlib.Core.Path.{subst}
use uc.Sha256.Compress.{Registers, compress}
use uc.Sha256.Stream.{Context, initial_registers, fill, whole_blocks, keep_rest, absorb}
use uc.Sha256.Padded.{blocks, blocks-append, blocks-suc, Taken, whole_blocks-Taken}

-- The context has taken `message`, apart from the count of bits: its whole blocks are in the
-- registers, the rest is in the buffer.
pub record Keeps (ctx : Context) (message : List ℕ) : Type 0 where
  pub count : ℕ
  pub front : List ℕ
  pub tail : List ℕ
  pub parts : message ≡ front ++ tail
  pub size : length front ≡ count * 64
  pub state : ctx.state ≡ blocks count initial_registers front
  pub room : length (ctx.buf) ≡ 64
  pub rest : take (ctx.buf_len) (ctx.buf) ≡ tail
  pub used : ctx.buf_len ≡ length tail
  pub small : length tail < 64

keep_rest-cons :
    (ctx : Context) (x : ℕ) (xs : List ℕ)
    → keep_rest ctx (x ∷ xs)
      ≡ record ctx { buf = copied ctx.buf 0 (x ∷ xs); buf_len = length (x ∷ xs) }
unfolding keep_rest
keep_rest-cons ctx x xs =
    let more : ltb 0 (length (x ∷ xs)) ≡ true = lt→ltb 0 (length (x ∷ xs)) (omega arith) in
    rw more refl

-- A context whose buffer is empty takes any bytes.
absorb-Keeps :
    (ctx : Context) (front p : List ℕ) (count : ℕ)
    → length front ≡ count * 64
    → ctx.state ≡ blocks count initial_registers front
    → length (ctx.buf) ≡ 64
    → ctx.buf_len ≡ 0
    → Keeps (absorb ctx p) (front ++ p)
absorb-Keeps ctx front p count size state room empty =
    let taken : Taken (ctx.state) p (whole_blocks (length p) (ctx.state) p) =
      whole_blocks-Taken (length p) (ctx.state) p (omega arith) in
    unfold absorb in kept (whole_blocks (length p) (ctx.state) p) taken
  where
    joined :
        (s : Registers) (xs : List ℕ) (taken : Taken (ctx.state) p (s, xs))
        → s ≡ blocks (count + taken.count) initial_registers (front ++ taken.front)
    joined s xs taken =
        taken.state
        ∙ ap (λ t. blocks taken.count t taken.front) state
        ∙ sym (blocks-append count taken.count initial_registers front taken.front size)

    kept :
        (result : Registers × List ℕ)
        → Taken (ctx.state) p result
        → Keeps (keep_rest (record ctx { state = result.0 }) result.1) (front ++ p)
    kept (s, []) taken = record {
      count = count + taken.count;
      front = front ++ taken.front;
      tail = [];
      parts = ap (λ t. front ++ t) taken.parts ∙ sym (append_assoc front taken.front []);
      size = omega (arith, length-append front taken.front, taken.size, size);
      state = unfold keep_rest in joined s [] taken;
      room = unfold keep_rest in room;
      rest = unfold keep_rest in ap (λ (k : ℕ). take k ctx.buf) empty;
      used = unfold keep_rest in empty;
      small = omega arith;
    }
    kept (s, x ∷ xs) taken =
        let fits : 0 + length (x ∷ xs) ≤ length ctx.buf = omega (arith, taken.small, room) in
        rw (keep_rest-cons (record ctx { state = s }) x xs) (record {
          count = count + taken.count;
          front = front ++ taken.front;
          tail = x ∷ xs;
          parts = ap (λ t. front ++ t) taken.parts ∙ sym (append_assoc front taken.front (x ∷ xs));
          size = omega (arith, length-append front taken.front, taken.size, size);
          state = joined s (x ∷ xs) taken;
          room = length-copied ctx.buf (x ∷ xs) 0 fits ∙ room;
          rest =
              ap (λ (k : ℕ). take k (copied ctx.buf 0 (x ∷ xs))) {x = length (x ∷ xs)}
                {y = 0 + length (x ∷ xs)} (omega arith)
              ∙ take-copied ctx.buf (x ∷ xs) 0 fits;
          used = refl;
          small = taken.small;
        })

absorb-nil : (ctx : Context) → absorb ctx [] ≡ ctx
unfolding absorb whole_blocks keep_rest
absorb-nil ctx = refl

-- The buffer once `n` bytes are copied behind the tail.
module _ (ctx : Context) (message p : List ℕ) (held : Keeps ctx message) where
  abbrev space : ℕ
  space = min (64 - ctx.buf_len) (length p)

  abbrev filled : List ℕ
  filled = copied ctx.buf ctx.buf_len (take space p)

  taken-size : length (take space p) ≡ space
  taken-size = omega (arith, length-take space p)

  fits : ctx.buf_len + length (take space p) ≤ length ctx.buf
  fits = omega (arith, length-take space p, held.room, held.used, held.small)

  filled-room : length filled ≡ 64
  filled-room = length-copied ctx.buf (take space p) ctx.buf_len fits ∙ held.room

  filled-rest : take (ctx.buf_len + space) filled ≡ held.tail ++ take space p
  filled-rest =
      ap (λ (k : ℕ). take (ctx.buf_len + k) filled) (sym taken-size)
      ∙ take-copied ctx.buf (take space p) ctx.buf_len fits
      ∙ ap (λ t. t ++ take space p) held.rest

  abbrev compressed : Context
  compressed = record ctx { state = compress ctx.state filled; buf = filled; buf_len = 0 }

  full_block : ctx.buf_len + space ≡ 64 → Keeps (absorb compressed (drop space p)) (message ++ p)
  full_block full =
      let block : filled ≡ held.tail ++ take space p =
        sym (take_all (ctx.buf_len + space) filled (omega (arith, full, filled-room)))
        ∙ filled-rest in
      let size : length (held.tail ++ take space p) ≡ 64 =
        omega (arith, length-append held.tail (take space p), taken-size, held.used, full) in
      let front = held.front ++ (held.tail ++ take space p) in
      let whole : front ++ drop space p ≡ message ++ p =
        append_assoc held.front (held.tail ++ take space p) (drop space p)
        ∙ ap (λ t. held.front ++ t) (append_assoc held.tail (take space p) (drop space p))
        ∙ ap (λ t. held.front ++ (held.tail ++ t)) (take-append-drop space p)
        ∙ sym (append_assoc held.front held.tail p)
        ∙ ap (λ t. t ++ p) (sym held.parts) in
      subst (λ t. Keeps (absorb compressed (drop space p)) t) whole
        (absorb-Keeps compressed front (drop space p) (held.count + 1)
          (omega (arith, length-append held.front (held.tail ++ take space p), size, held.size))
          (ap₂ compress held.state block
            ∙ sym (
                blocks-suc held.count initial_registers held.front (held.tail ++ take space p)
                  held.size size))
          filled-room refl)

  part_block :
      ctx.buf_len + space ≢ 64
      → Keeps
          (absorb (record ctx { buf = filled; buf_len = ctx.buf_len + space }) (drop space p))
          (message ++ p)
  part_block less =
      let all : length p ≤ space = omega (arith, less, held.used, held.small) in
      let none : drop space p ≡ [] = drop_all space p all in
      let some : take space p ≡ p = take_all space p all in
      rw (none, absorb-nil (record ctx { buf = filled; buf_len = ctx.buf_len + space }))
        (record {
          count = held.count;
          front = held.front;
          tail = held.tail ++ p;
          parts = ap (λ t. t ++ p) held.parts ∙ append_assoc held.front held.tail p;
          size = held.size;
          state = held.state;
          room = filled-room;
          rest = filled-rest ∙ ap (λ t. held.tail ++ t) some;
          used = omega (arith, length-append held.tail p, held.used, taken-size, ap length some);
          small = omega (arith, length-append held.tail p, held.used, held.small, less);
        })

  pub fill-Keeps : Keeps (absorb ((fill ctx p).0) ((fill ctx p).1)) (message ++ p)
  unfolding fill
  fill-Keeps = elim (Bool-cases (ctx.buf_len + space == 64)) [
    | inl full ↦ rw full (full_block ((==_iff (ctx.buf_len + space) 64).0 full))
    | inr less ↦ rw less (part_block (==_ne (ctx.buf_len + space) 64 less))
  ]

-- A context with an empty buffer takes the bytes at once.
pub empty-Keeps :
    (ctx : Context) (message p : List ℕ)
    → Keeps ctx message
    → ltb 0 ctx.buf_len ≡ false
    → Keeps (absorb ctx p) (message ++ p)
empty-Keeps ctx message p held h = record_tail held.tail refl
  where
    record_tail : (tail : List ℕ) → held.tail ≡ tail → Keeps (absorb ctx p) (message ++ p)
    record_tail [] e =
        let none : held.front ≡ message =
          sym (held.parts ∙ ap (λ t. held.front ++ t) e ∙ append-nil held.front) in
        subst (λ t. Keeps (absorb ctx p) (t ++ p)) none
          (absorb-Keeps ctx held.front p held.count held.size held.state held.room
            (held.used ∙ ap length e))
    record_tail (x ∷ xs) e = absurd (ground (arith, held.used, ap length e, lt→ltb 0 ctx.buf_len))

keep_rest-bitcount : (ctx : Context) (p : List ℕ) → (keep_rest ctx p).bitcount ≡ ctx.bitcount
unfolding keep_rest
keep_rest-bitcount ctx p = elim (Bool-cases (ltb 0 (length p))) [
  | inl more ↦ rw more refl
  | inr less ↦ rw less refl
]

pub absorb-bitcount : (ctx : Context) (p : List ℕ) → (absorb ctx p).bitcount ≡ ctx.bitcount
unfolding absorb
absorb-bitcount ctx p = keep_rest-bitcount _ _

pub fill-bitcount : (ctx : Context) (p : List ℕ) → ((fill ctx p).0).bitcount ≡ ctx.bitcount
unfolding fill
fill-bitcount ctx p = elim (Bool-cases (ctx.buf_len + min (64 - ctx.buf_len) (length p) == 64)) [
  | inl full ↦ rw full refl
  | inr less ↦ rw less refl
]
