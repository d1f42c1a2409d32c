-- ===== src/Sha256/Compress.antt =====
-- The compression function of SHA-256 (`compress`, lib/src/uc2_sha256.c) on 32-bit words.
use uc.Common.{ℕ, zero, suc, ◌+◌, ◌-◌, ◌^◌, List, [], ◌∷◌, ◌++◌, bit_and, bit_or, bit_xor, drop}
use uc.Common.Words.{u8, u32, ◌<<<◌, ◌>>>◌, byte_at}

abbrev pub block_len : ℕ
block_len = 64

-- `K`
abbrev round_constants : List ℕ
round_constants =
    0x428a2f98 ∷ 0x71374491 ∷ 0xb5c0fbcf ∷ 0xe9b5dba5 ∷ 0x3956c25b ∷ 0x59f111f1 ∷ 0x923f82a4
    ∷ 0xab1c5ed5 ∷ 0xd807aa98 ∷ 0x12835b01 ∷ 0x243185be ∷ 0x550c7dc3 ∷ 0x72be5d74 ∷ 0x80deb1fe
    ∷ 0x9bdc06a7 ∷ 0xc19bf174 ∷ 0xe49b69c1 ∷ 0xefbe4786 ∷ 0x0fc19dc6 ∷ 0x240ca1cc ∷ 0x2de92c6f
    ∷ 0x4a7484aa ∷ 0x5cb0a9dc ∷ 0x76f988da ∷ 0x983e5152 ∷ 0xa831c66d ∷ 0xb00327c8 ∷ 0xbf597fc7
    ∷ 0xc6e00bf3 ∷ 0xd5a79147 ∷ 0x06ca6351 ∷ 0x14292967 ∷ 0x27b70a85 ∷ 0x2e1b2138 ∷ 0x4d2c6dfc
    ∷ 0x53380d13 ∷ 0x650a7354 ∷ 0x766a0abb ∷ 0x81c2c92e ∷ 0x92722c85 ∷ 0xa2bfe8a1 ∷ 0xa81a664b
    ∷ 0xc24b8b70 ∷ 0xc76c51a3 ∷ 0xd192e819 ∷ 0xd6990624 ∷ 0xf40e3585 ∷ 0x106aa070 ∷ 0x19a4c116
    ∷ 0x1e376c08 ∷ 0x2748774c ∷ 0x34b0bcb5 ∷ 0x391c0cb3 ∷ 0x4ed8aa4a ∷ 0x5b9cca4f ∷ 0x682e6ff3
    ∷ 0x748f82ee ∷ 0x78a5636f ∷ 0x84c87814 ∷ 0x8cc70208 ∷ 0x90befffa ∷ 0xa4506ceb ∷ 0xbef9a3f7
    ∷ 0xc67178f2 ∷ []

-- `uint32_t state[8]`, which the rounds hold in the variables a to h.
pub record Registers : Type 0 where
  pub a : ℕ
  pub b : ℕ
  pub c : ℕ
  pub d : ℕ
  pub e : ℕ
  pub f : ℕ
  pub g : ℕ
  pub h : ℕ

-- `(x >> n) | (x << (32 - n))`
abbrev rotr32 : ℕ → ℕ → ℕ
rotr32 x n = bit_or (x >>> n) (u32 (x <<< (32 - n)))

abbrev xor3 : ℕ → ℕ → ℕ → ℕ
xor3 x y z = bit_xor (bit_xor x y) z

-- `~x` on a word.
abbrev complement : ℕ → ℕ
complement x = 2 ^ 32 - 1 - u32 x

abbrev pub r32be : List ℕ → ℕ
r32be p =
    bit_or (bit_or (bit_or (byte_at p 0 <<< 24) (byte_at p 1 <<< 16)) (byte_at p 2 <<< 8))
      (byte_at p 3)

abbrev pub w32be : ℕ → List ℕ
w32be v = u8 (v >>> 24) ∷ u8 (v >>> 16) ∷ u8 (v >>> 8) ∷ u8 v ∷ []

-- The loop on `i` from 0 to 15, `n` words from the bytes on.
abbrev load : ℕ → List ℕ → List ℕ
load zero block = []
load (suc n) block = r32be block ∷ load n (drop 4 block)

-- The loop on `i` from 16 to 63: each step writes `w[i]`.
abbrev extend : ℕ → ℕ → List ℕ → List ℕ
extend zero i w = w
extend (suc n) i w =
    let x = byte_at w (i - 15) in
    let y = byte_at w (i - 2) in
    let s0 = xor3 (rotr32 x 7) (rotr32 x 18) (x >>> 3) in
    let s1 = xor3 (rotr32 y 17) (rotr32 y 19) (y >>> 10) in
    let next = u32 (byte_at w (i - 16) + s0 + byte_at w (i - 7) + s1) in
    extend n (i + 1) (w ++ (next ∷ []))

-- One round, with its constant and its word of the schedule.
abbrev sha256_round : Registers → ℕ → ℕ → Registers
sha256_round r k w =
    let s1 = xor3 (rotr32 r.e 6) (rotr32 r.e 11) (rotr32 r.e 25) in
    let ch = bit_xor (bit_and r.e r.f) (bit_and (complement r.e) r.g) in
    let t1 = u32 (r.h + s1 + ch + k + w) in
    let s0 = xor3 (rotr32 r.a 2) (rotr32 r.a 13) (rotr32 r.a 22) in
    let mj = xor3 (bit_and r.a r.b) (bit_and r.a r.c) (bit_and r.b r.c) in
    let t2 = u32 (s0 + mj) in
    record {
      a = u32 (t1 + t2);
      b = r.a;
      c = r.b;
      d = r.c;
      e = u32 (r.d + t1);
      f = r.e;
      g = r.f;
      h = r.g;
    }

abbrev rounds : List ℕ → List ℕ → Registers → Registers
rounds [] ws r = r
rounds (k ∷ ks) [] r = r
rounds (k ∷ ks) (w ∷ ws) r = rounds ks ws (sha256_round r k w)

abbrev add_registers : Registers → Registers → Registers
add_registers s r = record {
  a = u32 (s.a + r.a);
  b = u32 (s.b + r.b);
  c = u32 (s.c + r.c);
  d = u32 (s.d + r.d);
  e = u32 (s.e + r.e);
  f = u32 (s.f + r.f);
  g = u32 (s.g + r.g);
  h = u32 (s.h + r.h);
}

unfoldable pub compress : Registers → List ℕ → Registers
compress s block = add_registers s (rounds round_constants (extend 48 16 (load 16 block)) s)
