-- ===== src/Blockstore/Paths.antt =====
-- The names of the blocks' files (`hash_path`, lib/src/uc2_blockstore.c).
use uc.Common.{
  ℕ, zero, suc, ◌+◌, ◌/◌, ◌%◌, ◌^◌, ◌≤◌, ◌<◌, ◌≡◌, refl, sym, ap, ap₂, ◌∙◌, List, [], ◌∷◌, ◌++◌,
  true, ◌==◌, length, take, drop, take_all, arith, drop-append, length-append, Bool-cases, inl, inr,
  ==_iff,
}
use uc.Common.Words.{snoc_parts, ◌>>>◌}
use native.Mathlib.Nat.{pow-suc}
use uc.Blockstore.Store.{hex_digit, hex, hash_path, same_path}

hex_digit-injective : (d e : ℕ) → d < 16 → e < 16 → hex_digit d ≡ hex_digit e → d ≡ e
hex_digit-injective d e h k same = ground arith

length-hex : (n v : ℕ) → length (hex n v) ≡ n
unfolding hex
length-hex zero v = refl
length-hex (suc n) v =
    omega (arith, length-append (hex n (v / 16)) (hex_digit (v % 16) ∷ []), length-hex n (v / 16))

hex-injective : (n v w : ℕ) → v < 16 ^ n → w < 16 ^ n → hex n v ≡ hex n w → v ≡ w
unfolding hex
hex-injective zero v w h k e = omega arith
hex-injective (suc n) v w h k e =
    let (high, low) =
      snoc_parts (hex n (v / 16)) (hex n (w / 16)) (hex_digit (v % 16)) (hex_digit (w % 16))
        (length-hex n (v / 16) ∙ sym (length-hex n (w / 16))) e in
    let upper =
      hex-injective n (v / 16) (w / 16) (omega (arith, pow-suc 16 n)) (omega (arith, pow-suc 16 n))
        high in
    let lower = hex_digit-injective (v % 16) (w % 16) (omega arith) (omega arith) low in
    omega (arith, upper, lower)

-- Different hashes have different files, as long as the path is not cut.
pub hash_path-injective :
    (path : List ℕ) (v w : ℕ)
    → length path + 20 ≤ 4095
    → v < 2 ^ 64
    → w < 2 ^ 64
    → hash_path path v ≡ hash_path path w
    → v ≡ w
unfolding hash_path
hash_path-injective path v w short h k e =
    let whole = (uncut v) in
    hex-injective 16 v w h k (
      sym (tail v) ∙ ap (λ t. drop 4 (drop (length path) t)) (sym (uncut v) ∙ e ∙ uncut w) ∙ tail w)
  where
    name : ℕ → List ℕ
    name hash = b'/' ∷ (hex 2 (hash >>> 56 % 256) ++ (b'/' ∷ hex 16 hash))

    uncut : (hash : ℕ) → take 4095 (path ++ name hash) ≡ path ++ name hash
    uncut hash = take_all 4095 (path ++ name hash) (
        omega (
          arith,
          length-append path (name hash),
          length-append (hex 2 (hash >>> 56 % 256)) (b'/' ∷ hex 16 hash),
          length-hex 2 (hash >>> 56 % 256),
          length-hex 16 hash,
        ))

    tail : (hash : ℕ) → drop 4 (drop (length path) (path ++ name hash)) ≡ hex 16 hash
    tail hash = ap (drop 4) (drop-append path (name hash)) ∙ (unfold hex in refl)

pub same_path_self : (p : List ℕ) → same_path p p ≡ true
unfolding same_path
same_path_self [] = refl
same_path_self (x ∷ p) = ground (arith, same_path_self p)

pub same_path-eq : (p q : List ℕ) → same_path p q ≡ true → p ≡ q
unfolding same_path
same_path-eq [] [] h = refl
same_path-eq [] (y ∷ q) h = cc
same_path-eq (x ∷ p) [] h = cc
same_path-eq (x ∷ p) (y ∷ q) h = elim (Bool-cases (x == y)) [
  | inl same ↦ ap₂ ◌∷◌ ((==_iff x y).0 same) (same_path-eq p q (rw same at h))
  | inr other ↦ ground (arith, rw other at h)
]
