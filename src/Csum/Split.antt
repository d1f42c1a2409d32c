-- ===== src/Csum/Split.antt =====
-- Data that comes in pieces (`csum_update`, lib/src/decompress.c).
use uc.Common.{
  ℕ, zero, suc, ◌+◌, ◌*◌, ◌/◌, ◌%◌, ◌^◌, ◌≤◌, ◌<◌, ◌≡◌, refl, ap, ap₂, ◌∙◌, sym, true, false, List,
  [], ◌∷◌, ◌++◌, ltb, bit_and, bit_or, bit_xor, arith, All, Bool-cases, inl, inr, lt→ltb,
  le→ltb_false,
}
use uc.Common.Bits.{
  zero-bit_xor, bit_xor_step, bit_xor_fields, bit_xor-lt, bit_and_mask, bit_or_disjoint,
}
use uc.Common.Words.{le16, le16-eq, IsByte, ◌<<<◌}
use uc.Csum.Update.{fold16, csum_update}
use native.Mathlib.Nat.{le_refl}
use Prim.Native.Nat.{differ}

differ-zero : (a : ℕ) → differ a 0 ≡ a
differ-zero zero = refl
differ-zero (suc a) = refl

bit_xor-zero : (n a : ℕ) → a ≤ n → bit_xor a 0 ≡ a
bit_xor-zero n zero h = refl
bit_xor-zero zero (suc a) h = absurd (omega arith)
bit_xor-zero (suc n) (suc a) h = omega (
  arith,
  bit_xor_step (suc a) 0,
  differ-zero (suc a % 2),
  bit_xor-zero n (suc a / 2) (omega arith),
)

xor_low : (v c : ℕ) → c < 2 ^ 16 → bit_xor v c % 2 ^ 16 ≡ bit_xor (v % 2 ^ 16) c
xor_low v c h =
    let parts : v % 2 ^ 16 + v / 2 ^ 16 * 2 ^ 16 ≡ v = omega arith in
    let same : c + 0 * 2 ^ 16 ≡ c = omega arith in
    let split : bit_xor v c ≡ bit_xor (v % 2 ^ 16) c + bit_xor (v / 2 ^ 16) 0 * 2 ^ 16 =
      ap₂ bit_xor (sym parts) (sym same)
      ∙ bit_xor_fields 16 (v % 2 ^ 16) (v / 2 ^ 16) c 0 (omega arith) h in
    omega (arith, split, bit_xor-lt 16 (v % 2 ^ 16) c (omega arith) h)

-- Two bytes one after the other are a word.
xor_bytes : (v a b : ℕ) → a < 256 → b < 256 → bit_xor (bit_xor v a) (b <<< 8) ≡ bit_xor v (le16 a b)
xor_bytes v a b p q =
    let l = v % 2 ^ 8 in
    let h = v / 2 ^ 8 in
    let parts : v ≡ l + h * 2 ^ 8 = omega arith in
    let low : a ≡ a + 0 * 2 ^ 8 = omega arith in
    let high : b <<< 8 ≡ 0 + b * 2 ^ 8 = omega arith in
    let word : le16 a b ≡ a + b * 2 ^ 8 = le16-eq a b p ∙ omega arith in
    let small = bit_xor-lt 8 l a (omega arith) p in
    let first : bit_xor v a ≡ bit_xor l a + h * 2 ^ 8 =
      ap₂ bit_xor parts low
      ∙ bit_xor_fields 8 l h a 0 (omega arith) p
      ∙ ap (λ t. bit_xor l a + t * 2 ^ 8) (bit_xor-zero h h (le_refl h)) in
    ap₂ bit_xor first high
    ∙ bit_xor_fields 8 (bit_xor l a) h 0 b small (omega arith)
    ∙ ap (λ t. t + bit_xor h b * 2 ^ 8)
        (bit_xor-zero (bit_xor l a) (bit_xor l a) (le_refl (bit_xor l a)))
    ∙ sym (bit_xor_fields 8 l h a b (omega arith) p)
    ∙ sym (ap₂ bit_xor parts word)

le16-lt : (a b : ℕ) → a < 256 → b < 256 → le16 a b < 2 ^ 16
le16-lt a b p q = omega (arith, le16-eq a b p)

-- Only the low 16 bits of the state matter to the loop.
fold16_low :
    (u w : ℕ) (xs : List ℕ) → All IsByte xs → u % 2 ^ 16 ≡ w % 2 ^ 16 → fold16 u xs ≡ fold16 w xs
unfolding fold16
fold16_low u w [] h e = bit_and_mask 16 u ∙ e ∙ sym (bit_and_mask 16 w)
fold16_low u w (a ∷ []) h e =
    ap (λ t. bit_xor t (bit_or a 0x10000)) (bit_and_mask 16 u ∙ e ∙ sym (bit_and_mask 16 w))
fold16_low u w (a ∷ b ∷ rest) (p, (q, r)) e =
    fold16_low (bit_xor u (le16 a b)) (bit_xor w (le16 a b)) rest r (
      xor_low u (le16 a b) (le16-lt a b p q)
      ∙ ap (λ t. bit_xor t (le16 a b)) e
      ∙ sym (xor_low w (le16 a b) (le16-lt a b p q)))

-- A byte that waits.
waiting : (v a : ℕ) → a < 256 → fold16 v (a ∷ []) ≡ 65536 + bit_xor (v % 2 ^ 16) a
unfolding fold16
waiting v a h =
    let bits : bit_or a 0x10000 ≡ a + 1 * 2 ^ 16 = bit_or_disjoint 16 a 1 (omega arith) in
    let low : bit_and v 0xffff ≡ v % 2 ^ 16 + 0 * 2 ^ 16 = bit_and_mask 16 v ∙ omega arith in
    ap₂ bit_xor low bits
    ∙ bit_xor_fields 16 (v % 2 ^ 16) 0 a 1 (omega arith) (omega arith)
    ∙ omega (arith, zero-bit_xor 1)

-- A state with a byte that waits, and more data.
update_waiting :
    (v a b : ℕ) (rest : List ℕ)
    → a < 256
    → b < 256
    → All IsByte rest
    → csum_update (fold16 v (a ∷ [])) (b ∷ rest) ≡ fold16 v (a ∷ b ∷ rest)
unfolding csum_update fold16
update_waiting v a b rest p q r =
    let low = v % 2 ^ 16 in
    let small = bit_xor-lt 16 low a (omega arith) (omega arith) in
    let word = le16-lt a b p q in
    let waits : ltb 0xffff (65536 + bit_xor low a) ≡ true =
      lt→ltb 65535 (65536 + bit_xor low a) (omega arith) in
    let shifted : b <<< 8 < 2 ^ 16 = omega arith in
    let same : bit_xor (65536 + bit_xor low a) (b <<< 8) % 2 ^ 16 ≡ bit_xor v (le16 a b) % 2 ^ 16 =
      xor_low (65536 + bit_xor low a) (b <<< 8) shifted
      ∙ ap (λ t. bit_xor t (b <<< 8)) (omega arith)
      ∙ xor_bytes low a b p q
      ∙ sym (xor_low v (le16 a b) word) in
    ap (λ t. csum_update t (b ∷ rest)) (waiting v a p)
    ∙ rw waits
        (fold16_low (bit_xor (65536 + bit_xor low a) (b <<< 8)) (bit_xor v (le16 a b)) rest r same)

update_even : (v : ℕ) (ys : List ℕ) → All IsByte ys → csum_update (fold16 v []) ys ≡ fold16 v ys
unfolding csum_update fold16
update_even v [] h = refl
update_even v (y ∷ ys) h =
    let low : bit_and v 0xffff ≡ v % 2 ^ 16 = bit_and_mask 16 v in
    let none : ltb 0xffff (v % 2 ^ 16) ≡ false = le→ltb_false 65535 (v % 2 ^ 16) (omega arith) in
    ap (λ t. csum_update t (y ∷ ys)) low
    ∙ rw none (fold16_low (v % 2 ^ 16) v (y ∷ ys) h (omega arith))

update_after :
    (v : ℕ) (xs ys : List ℕ)
    → All IsByte xs
    → All IsByte ys
    → csum_update (fold16 v xs) ys ≡ fold16 v (xs ++ ys)
unfolding fold16
update_after v [] ys h k = update_even v ys k
update_after v (a ∷ []) [] h k = unfold csum_update in refl
update_after v (a ∷ []) (b ∷ ys) h k = update_waiting v a b ys h.0 k.0 k.1
update_after v (a ∷ b ∷ xs) ys h k = update_after (bit_xor v (le16 a b)) xs ys h.1.1 k

-- On bytes and from any state, csum_update with one piece of data and then another gives the state
-- of csum_update with both pieces at once, whatever their lengths, odd ones included.
pub csum_update-append :
    (v : ℕ) (xs ys : List ℕ)
    → All IsByte xs
    → All IsByte ys
    → csum_update (csum_update v xs) ys ≡ csum_update v (xs ++ ys)
csum_update-append v [] ys h k = unfold csum_update in refl
csum_update-append v (x ∷ xs) ys h k = elim (Bool-cases (ltb 0xffff v)) [
  | inl waits ↦ unfold csum_update in rw waits (update_after (bit_xor v (x <<< 8)) xs ys h.1 k)
  | inr even ↦ unfold csum_update in rw even (update_after v (x ∷ xs) ys h k)
]
