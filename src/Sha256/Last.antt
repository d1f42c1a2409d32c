-- ===== src/Sha256/Last.antt =====
-- The last blocks of a stream of SHA-256 (`last_block`) beside the padding of the standard.
use uc.Common.{
  ℕ, zero, suc, ◌+◌, ◌-◌, ◌*◌, ◌/◌, ◌%◌, ◌≤◌, ◌<◌, ◌≡◌, refl, sym, ap, ap₂, ◌∙◌, List, [], ◌∷◌,
  ◌++◌, take, set, length, replicate, arith, copied, take-copied, length-copied, length-append,
  length-replicate, append_assoc, append-nil, drop_all,
}
use uc.Common.Words.{u64}
use uc.Sha256.Compress.{Registers, compress}
use uc.Sha256.Stream.{initial_registers, last_block, clear, bit_count_bytes, digest_bytes}
use uc.Sha256.Padded.{
  highest_first, highest_first-bits, blocks, blocks-append, padded, standard_hash,
}

pub replicate-add : (m n : ℕ) → replicate {A = ℕ} (m + n) 0 ≡ replicate m 0 ++ replicate n 0
replicate-add zero n = ap (λ (k : ℕ). replicate k 0) {x = 0 + n} {y = n} (omega arith)
replicate-add (suc m) n =
    ap (λ (k : ℕ). replicate k 0) {x = suc m + n} {y = suc (m + n)} (omega arith)
    ∙ ap (λ t. 0 ∷ t) (replicate-add m n)

pub zeros : (n : ℕ) → length (replicate {A = ℕ} n 0) ≡ n
zeros n = length-replicate n 0

pub take-set :
    (xs : List ℕ) (i v : ℕ) → i < length xs → take (i + 1) (set xs i v) ≡ take i xs ++ (v ∷ [])
take-set [] i v h = absurd (omega arith)
take-set (x ∷ xs) zero v h = refl
take-set (x ∷ xs) (suc i) v h =
    ap (λ (k : ℕ). take k (x ∷ set xs i v)) {x = suc i + 1} {y = suc (i + 1)} (omega arith)
    ∙ ap (λ t. x ∷ t) (take-set xs i v (omega arith))

-- A copy up to the end of the array.
pub copied_end :
    (buf xs ys : List ℕ) (i : ℕ)
    → take i buf ≡ xs
    → length buf ≤ i + length ys
    → copied buf i ys ≡ xs ++ ys
copied_end buf xs ys i h k =
    ap₂ (λ s t. s ++ (ys ++ t)) h (drop_all (i + length ys) buf k)
    ∙ ap (λ t. xs ++ t) (append-nil ys)

module _ (buf tail : List ℕ) (room : length buf ≡ 64) where
  cleared :
      (i n : ℕ)
      → take i buf ≡ tail
      → i + n ≤ 64
      → take (i + n) (clear buf i n) ≡ tail ++ replicate n 0
  cleared i n start h =
      let size = zeros n in
      ap (λ (k : ℕ). take (i + k) (clear buf i n)) (sym size)
      ∙ take-copied buf (replicate n 0) i (omega (arith, size, room))
      ∙ ap (λ t. t ++ replicate n 0) start

  length-clear : (i n : ℕ) → i + n ≤ 64 → length (clear buf i n) ≡ 64
  length-clear i n h = length-copied buf (replicate n 0) i (omega (arith, zeros n, room)) ∙ room

  pub last_block_lem :
      (s : Registers) (bits len : ℕ)
      → take len buf ≡ tail
      → len ≤ 56
      → last_block s bits buf len
        ≡ compress s ((tail ++ replicate (56 - len) 0) ++ bit_count_bytes bits)
  unfolding last_block
  last_block_lem s bits len start h =
      let upto : len + (56 - len) ≡ 56 = omega arith in
      ap (compress s) (
        copied_end (clear buf len (56 - len)) (tail ++ replicate (56 - len) 0)
          (bit_count_bytes bits) 56
          (ap (λ (k : ℕ). take k (clear buf len (56 - len))) (sym upto)
            ∙ cleared len (56 - len) start (omega arith))
          (omega (arith, length-clear len (56 - len) (omega arith))))

-- The padding, as the blocks that the end of the stream compresses.
module _ (front tail : List ℕ) (count : ℕ) (size : length front ≡ count * 64)
    (small : length tail < 64) where
  abbrev bits : ℕ
  bits = u64 (length (front ++ tail) * 8)

  abbrev marked : List ℕ
  marked = tail ++ (0x80 ∷ [])

  pub padded_parts :
      (n : ℕ)
      → (119 - length tail) % 64 ≡ n
      → padded (front ++ tail) ≡ front ++ ((marked ++ replicate n 0) ++ bit_count_bytes bits)
  unfolding padded
  padded_parts n h =
      let same : (119 - length (front ++ tail) % 64) % 64 ≡ n =
        omega (arith, length-append front tail, size, h) in
      ap (λ (k : ℕ). (front ++ tail) ++ (0x80 ∷ (replicate k 0 ++ highest_first 8 bits))) same
      ∙ ap (λ t. (front ++ tail) ++ (0x80 ∷ (replicate n 0 ++ t))) (highest_first-bits bits)
      ∙ append_assoc front tail _
      ∙ ap (λ t. front ++ t)
          (sym (append_assoc tail (0x80 ∷ []) (replicate n 0 ++ bit_count_bytes bits))
            ∙ sym (append_assoc marked (replicate n 0) (bit_count_bytes bits)))

  pub standard_blocks :
      (k : ℕ) (rest : List ℕ)
      → padded (front ++ tail) ≡ front ++ rest
      → length rest ≡ k * 64
      → standard_hash (front ++ tail)
        ≡ digest_bytes (blocks k (blocks count initial_registers front) rest)
  unfolding standard_hash
  standard_blocks k rest parts h =
      let total : length (padded (front ++ tail)) / 64 ≡ count + k =
        omega (arith, ap length parts, length-append front rest, size, h) in
      ap digest_bytes (
        ap₂ (λ (n : ℕ) (t : List ℕ). blocks n initial_registers t) total parts
        ∙ blocks-append count k initial_registers front rest size)
