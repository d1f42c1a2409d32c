-- ===== src/Rans/Step.antt =====
-- One symbol: the decoder after the encoder (lib/src/uc2_rans.c).
use uc.Common.{
  ℕ, zero, suc, ◌+◌, ◌-◌, ◌*◌, ◌/◌, ◌%◌, ◌^◌, ◌≤◌, ◌<◌, ◌≡◌, refl, ap, ◌∙◌, true, false, List, [],
  ◌∷◌, ◌++◌, leb, ltb, ◌==◌, some, bit_and, bit_or, arith, Bool-cases, inl, inr, ◌⊎◌, le→leb,
  leb→le,
}
use uc.Common.Bits.{bit_or_byte, bit_and_mask}
use uc.Common.Words.{u32, byte_at, ◌<<<◌}
use native.Mathlib.Nat.{pow-suc, le-div_iff_mul-le, div-lt_iff_lt-mul, mod-lt, div-add-mod}
use uc.Rans.Coder.{
  prob_scale, lower_bound, Table, Encoder, shift_out, upper_bound, encode, reversed, refill,
  lookup_in, decode,
}

-- A table that gives the symbols disjoint ranges of the scale.
pub record IsTable (tab : Table) : Type 0 where
  pub in_scale : (s : ℕ) → s < tab.nsym → byte_at tab.cumfreq s + byte_at tab.freq s ≤ prob_scale
  pub disjoint :
      (s t : ℕ)
      → s < t
      → t < tab.nsym
      → byte_at tab.cumfreq s + byte_at tab.freq s ≤ byte_at tab.cumfreq t

-- The slot of a symbol is looked up as that symbol.
lookup_in_own :
    (tab : Table) (n s slot : ℕ)
    → IsTable tab
    → s < n
    → n ≤ tab.nsym
    → byte_at tab.cumfreq s ≤ slot
    → slot < byte_at tab.cumfreq s + byte_at tab.freq s
    → lookup_in tab n slot ≡ s
unfolding lookup_in
lookup_in_own tab zero s slot ok p q low high = absurd (omega arith)
lookup_in_own tab (suc t) s slot ok p q low high = elim (Bool-cases (s == t)) [
  | inl here ↦ ground arith
  | inr below ↦ ground (arith, ok.disjoint s t, lookup_in_own tab t s slot ok)
]

-- A state that is renormalised.
abbrev pub IsState : ℕ → Type 0
IsState x = (lower_bound ≤ x) × (x < 2 ^ 31)

reversed-snoc : (xs : List ℕ) (b : ℕ) → reversed (xs ++ (b ∷ [])) ≡ b ∷ reversed xs
unfolding reversed
reversed-snoc [] b = refl
reversed-snoc (x ∷ xs) b = ap (λ r. r ++ (x ∷ [])) (reversed-snoc xs b)

refill_done :
    (x : ℕ) (rest : List ℕ) → lower_bound ≤ x → refill x rest ≡ record { state = x; rest = rest }
unfolding refill
refill_done x [] h = refl
refill_done x (b ∷ rest) h = ground arith

refill_byte :
    (x : ℕ) (rest : List ℕ) → x < 2 ^ 31 → refill (x / 256) (x % 256 ∷ rest) ≡ refill x rest
unfolding refill
refill_byte x rest h =
    let kept : u32 ((x / 256) <<< 8) ≡ x / 256 * 2 ^ 8 = omega arith in
    let whole : bit_or (x / 256 * 2 ^ 8) (x % 256) ≡ x =
      bit_or_byte 8 (x / 256) (x % 256) (omega arith) ∙ omega arith in
    let below : ltb (x / 256) lower_bound ≡ true = ground arith in rw (kept, whole, below) refl

-- What is shifted out of a state is read back into it.
pub record Shifted (n upper x : ℕ) (buf : List ℕ) : Type 0 where
  pub state : ℕ
  pub buf' : List ℕ
  pub returned :
      shift_out n upper (record { state = x; rev_buf = buf })
      ≡ some (record { state = state; rev_buf = buf' })
  pub below : state < upper
  pub kept : (state ≡ x) ⊎ (upper ≤ state * 256 + 255)
  pub back : refill state (reversed buf') ≡ refill x (reversed buf)

Shifted-none : (n upper x : ℕ) (buf : List ℕ) → x < upper → Shifted (suc n) upper x buf
unfolding shift_out
Shifted-none n upper x buf inside = record {
  state = x;
  buf' = buf;
  returned = ground arith;
  below = inside;
  kept = inl refl;
  back = refl;
}

Shifted-byte :
    (n upper x : ℕ) (buf : List ℕ)
    → upper ≤ x
    → x < 2 ^ 31
    → Shifted n upper (x / 256) (buf ++ (x % 256 ∷ []))
    → Shifted (suc n) upper x buf
unfolding shift_out
Shifted-byte n upper x buf outside small s =
    let go_on : leb upper x ≡ true = le→leb upper x outside in
    record {
      state = s.state;
      buf' = s.buf';
      returned = rw go_on s.returned;
      below = s.below;
      kept = elim s.kept [ inl same ↦ inr (omega (arith, same)) | inr most ↦ inr most ];
      back =
          s.back
          ∙ ap (refill (x / 256)) (reversed-snoc buf (x % 256))
          ∙ refill_byte x (reversed buf) small;
    }

shift_out-Shifted :
    (n upper x : ℕ) (buf : List ℕ) → x < upper * 256 ^ n → x < 2 ^ 31 → Shifted (suc n) upper x buf
shift_out-Shifted zero upper x buf enough small = Shifted-none zero upper x buf (omega arith)
shift_out-Shifted (suc n) upper x buf enough small = elim (Bool-cases (leb upper x)) [
  | inr inside ↦ Shifted-none (suc n) upper x buf (ground arith)
  | inl outside ↦ Shifted-byte (suc n) upper x buf (leb→le upper x outside) small (
      shift_out-Shifted n upper (x / 256) (buf ++ (x % 256 ∷ []))
        (omega (arith, ap (λ (t : ℕ). upper * t) (pow-suc 256 n))) (omega arith))
]

-- The state behind a symbol is renormalised, its slot is the symbol's, and it leads back.
put_symbol_fits :
    (y f c : ℕ)
    → 1 ≤ f
    → c + f ≤ prob_scale
    → 2 ^ 11 * f ≤ y
    → y < 2 ^ 19 * f
    → let e = y / f * 4096 + c + y % f in
      IsState e
      × (e % 4096 ≡ c + y % f)
      × (e / 4096 ≡ y / f)
      × (y / f < 2 ^ 19)
      × (y % f < f)
      × (f * (y / f) + y % f ≡ y)
put_symbol_fits y f c positive range low high =
    let least : 2 ^ 11 ≤ y / f = (le-div_iff_mul-le {k = f} {x = 2 ^ 11} {y = y} positive).1 low in
    let most : y / f < 2 ^ 19 = (div-lt_iff_lt-mul {k = f} {x = y} {y = 2 ^ 19} positive).1 high in
    let rem : y % f < f = mod-lt y positive in
    (omega arith, omega arith, omega arith, most, rem, div-add-mod y f)

module _ (tab : Table) (ok : IsTable tab) (sym_ : ℕ) (known : sym_ < tab.nsym)
    (positive : 1 ≤ byte_at tab.freq sym_) where
  -- The decoder at the state that a symbol makes of `y`.
  decode_at :
      (y e : ℕ) (rest : List ℕ)
      → y < 2 ^ 31
      → e % 4096 ≡ byte_at tab.cumfreq sym_ + y % byte_at tab.freq sym_
      → e / 4096 ≡ y / byte_at tab.freq sym_
      → y % byte_at tab.freq sym_ < byte_at tab.freq sym_
      → byte_at tab.freq sym_ * (y / byte_at tab.freq sym_) + y % byte_at tab.freq sym_ ≡ y
      → decode tab (record { state = e; rest = rest }) ≡ (sym_, refill y rest)
  unfolding decode
  decode_at y e rest small slot_is over rem whole =
      let f = byte_at tab.freq sym_ in
      let c = byte_at tab.cumfreq sym_ in
      let slot : bit_and e (prob_scale - 1) ≡ c + y % f = bit_and_mask 12 e ∙ slot_is in
      let sym_is : lookup_in tab tab.nsym (c + y % f) ≡ sym_ =
        lookup_in_own tab tab.nsym sym_ (c + y % f) ok known (omega arith) (omega arith)
          (omega arith) in
      let back : u32 (f * (y / f) + (c + y % f) + 2 ^ 32 - c) ≡ y = omega (arith, whole) in
      rw (slot, sym_is, over, back) refl

  -- The encoder once its state is shifted to `y`.
  encode_at :
      (x y e : ℕ) (buf buf' : List ℕ)
      → upper_bound (byte_at tab.freq sym_) ≡ 2 ^ 19 * byte_at tab.freq sym_
      → shift_out 5 (2 ^ 19 * byte_at tab.freq sym_) (record { state = x; rev_buf = buf })
        ≡ some (record { state = y; rev_buf = buf' })
      → u32 (
          u32 ((y / byte_at tab.freq sym_) <<< 12)
          + byte_at tab.cumfreq sym_
          + y % byte_at tab.freq sym_)
        ≡ e
      → encode tab (record { state = x; rev_buf = buf }) sym_
        ≡ some (record { state = e; rev_buf = buf' })
  unfolding encode
  encode_at x y e buf buf' bound shifted no_wrap =
      let some_freq : (byte_at tab.freq sym_ == 0) ≡ false = ground arith in
      rw (some_freq, bound, shifted, no_wrap) refl

  pub decode-encode :
      (x : ℕ) (buf : List ℕ)
      → IsState x
      → (e : Encoder) × (encode tab (record { state = x; rev_buf = buf }) sym_ ≡ some e)
        × IsState e.state
        × (decode tab (record { state = e.state; rest = reversed e.rev_buf })
            ≡ (sym_, record { state = x; rest = reversed buf }))
  decode-encode x buf state =
      let f = byte_at tab.freq sym_ in
      let c = byte_at tab.cumfreq sym_ in
      let range = ok.in_scale sym_ known in
      let bound : upper_bound f ≡ 2 ^ 19 * f = omega arith in
      let s = shift_out-Shifted 4 (2 ^ 19 * f) x buf (omega arith) state.1 in
      let y = s.state in
      let low : 2 ^ 11 * f ≤ y = elim s.kept [
        | inl same ↦ omega (arith, same)
        | inr most ↦ omega (arith, most)
      ] in
      let (fits, slot, over, _, rem, whole) = put_symbol_fits y f c positive range low s.below in
      let e : ℕ = y / f * 4096 + c + y % f in
      let no_wrap : u32 (u32 ((y / f) <<< 12) + c + y % f) ≡ e = omega arith in
      (
        record { state = e; rev_buf = s.buf' },
        encode_at x y e buf s.buf' bound s.returned no_wrap,
        fits,
        decode_at y e (reversed s.buf') (omega arith) slot over rem whole
            ∙ ap (λ d. (sym_, d)) (s.back ∙ refill_done x (reversed buf) state.0),
      )
