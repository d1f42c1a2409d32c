-- ===== src/Sha256/Padded.antt =====
-- What the stream of lib/src/uc2_sha256.c computes: the standard pads the whole message and then
-- takes it block by block.
use uc.Common.{
  ℕ, zero, suc, ◌+◌, ◌-◌, ◌*◌, ◌^◌, ◌/◌, ◌%◌, ◌≤◌, ◌<◌, ◌≡◌, refl, sym, ap, ap₂, ◌∙◌, List, [], ◌∷◌,
  ◌++◌, take, drop, length, replicate, arith, take-prefix, drop-prefix, take-append-drop, take_all,
  length-append, length-take, length-drop, append_assoc, Bool-cases, inl, inr, leb, true, leb→le,
}
use uc.Sha256.Compress.{Registers, block_len, compress}
use uc.Sha256.Stream.{initial_registers, whole_blocks, bit_count_bytes, digest_bytes}

-- The registers after `n` blocks.
unfoldable pub blocks : ℕ → Registers → List ℕ → Registers
blocks zero s p = s
blocks (suc n) s p = blocks n (compress s (take block_len p)) (drop block_len p)

-- A number in `n` bytes, the highest first.
unfoldable pub highest_first : ℕ → ℕ → List ℕ
highest_first zero v = []
highest_first (suc n) v = highest_first n (v / 256) ++ (v % 256 ∷ [])

-- One bit, and zeros up to 8 bytes before the end of a block.
unfoldable pub padded : List ℕ → List ℕ
padded message =
    message
    ++ (0x80
        ∷ (replicate ((119 - length message % 64) % 64) 0
            ++ highest_first 8 (length message * 8 % 2 ^ 64)))

unfoldable pub standard_hash : List ℕ → List ℕ
standard_hash message =
    digest_bytes (blocks (length (padded message) / 64) initial_registers (padded message))

pub highest_first-bits : (v : ℕ) → highest_first 8 v ≡ bit_count_bytes v
unfolding highest_first
highest_first-bits v = cons (omega arith) (
    cons (omega arith) (
      cons (omega arith)
        (cons (omega arith) (cons (omega arith) (cons (omega arith) (cons (omega arith) refl))))))
  where
    cons : {x y : ℕ} {xs ys : List ℕ} → x ≡ y → xs ≡ ys → ◌≡◌ {A = List ℕ} (x ∷ xs) (y ∷ ys)
    cons p q = ap₂ ◌∷◌ p q

pub blocks-append :
    (m n : ℕ) (s : Registers) (xs ys : List ℕ)
    → length xs ≡ m * 64
    → blocks (m + n) s (xs ++ ys) ≡ blocks n (blocks m s xs) ys
unfolding blocks
blocks-append zero n s [] ys h = ap (λ (k : ℕ). blocks k s ys) {x = 0 + n} {y = n} (omega arith)
blocks-append zero n s (x ∷ xs) ys h = absurd (omega arith)
blocks-append (suc m) n s xs ys h =
    let size : suc m + n ≡ suc (m + n) = omega arith in
    ap (λ (k : ℕ). blocks k s (xs ++ ys)) size
    ∙ ap₂ (λ (b : List ℕ) (r : List ℕ). blocks (m + n) (compress s b) r)
        (take-prefix 64 xs ys (omega arith)) (drop-prefix 64 xs ys (omega arith))
    ∙ blocks-append m n (compress s (take 64 xs)) (drop 64 xs) ys (omega (arith, length-drop 64 xs))

pub blocks_one : (s : Registers) (xs : List ℕ) → length xs ≡ 64 → blocks 1 s xs ≡ compress s xs
unfolding blocks
blocks_one s xs h = ap (compress s) (take_all 64 xs (omega arith))

-- One more block.
pub blocks-suc :
    (m : ℕ) (s : Registers) (xs ys : List ℕ)
    → length xs ≡ m * 64
    → length ys ≡ 64
    → blocks (m + 1) s (xs ++ ys) ≡ compress (blocks m s xs) ys
blocks-suc m s xs ys h k = blocks-append m 1 s xs ys h ∙ blocks_one (blocks m s xs) ys k

-- What the loop takes off the front of its input.
pub record Taken (s : Registers) (p : List ℕ) (result : Registers × List ℕ) : Type 0 where
  pub count : ℕ
  pub front : List ℕ
  pub parts : p ≡ front ++ result.1
  pub size : length front ≡ count * 64
  pub small : length (result.1) < 64
  pub state : result.0 ≡ blocks count s front

pub whole_blocks-Taken :
    (fuel : ℕ) (s : Registers) (p : List ℕ) → length p ≤ fuel → Taken s p (whole_blocks fuel s p)
unfolding whole_blocks
whole_blocks-Taken zero s p h = record {
  count = 0;
  front = [];
  parts = refl;
  size = refl;
  small = omega arith;
  state = unfold blocks in refl;
}
whole_blocks-Taken (suc fuel) s p h = elim (Bool-cases (leb 64 (length p))) [
  | inl more ↦
      let rest : Taken (compress s (take 64 p)) (drop 64 p)
          (whole_blocks fuel (compress s (take 64 p)) (drop 64 p)) =
        whole_blocks-Taken fuel (compress s (take 64 p)) (drop 64 p)
          (omega (arith, length-drop 64 p, leb→le 64 (length p) more)) in
      rw more (longer more rest)
  | inr less ↦ rw less (record {
    count = 0;
    front = [];
    parts = refl;
    size = refl;
    small = ground arith;
    state = unfold blocks in refl;
  })
]
  where
    longer :
        leb 64 (length p) ≡ true
        → Taken
            (compress s (take 64 p))
            (drop 64 p)
            (whole_blocks fuel (compress s (take 64 p)) (drop 64 p))
        → Taken s p (whole_blocks fuel (compress s (take 64 p)) (drop 64 p))
    longer more rest =
        let start : length (take 64 p) ≡ 64 =
          omega (arith, length-take 64 p, leb→le 64 (length p) more) in
        record {
          count = 1 + rest.count;
          front = take 64 p ++ rest.front;
          parts =
              sym (take-append-drop 64 p)
              ∙ ap (λ t. take 64 p ++ t) rest.parts
              ∙ sym (append_assoc (take 64 p) rest.front _);
          size = omega (arith, length-append (take 64 p) rest.front, rest.size, start);
          small = rest.small;
          state =
              rest.state
              ∙ ap (λ t. blocks rest.count t rest.front) (sym (blocks_one s (take 64 p) start))
              ∙ sym (blocks-append 1 rest.count s (take 64 p) rest.front start);
        }
