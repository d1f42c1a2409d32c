-- ===== src/Filters/BcjLaws.antt =====
-- The two address filters one after the other (lib/src/uc2_preprocess.c).
use uc.Common.{
  ℕ, ◌+◌, ◌/◌, ◌^◌, ◌<◌, ◌≡◌, refl, ap, ap₂, ◌∙◌, true, false, List, [], ◌∷◌, ◌++◌, length, arith,
  All, Bool-cases, inl, inr,
}
use uc.Common.Words.{u8, le32, le32-lt, bytes32, bytes32-le32, IsByte, word32-bytes32, word32}
use uc.Filters.Bcj.{is_branch, abs_addr, rel_addr, bcj_loop, bcj_apply, bcj_revert}

-- A byte that is no branch is stepped over, also where no address fits behind it.
bcj_loop_plain :
    (f : ℕ → ℕ → ℕ) (i b : ℕ) (t : List ℕ)
    → is_branch b ≡ false
    → bcj_loop f i (b ∷ t) ≡ b ∷ bcj_loop f (i + 1) t
unfolding bcj_loop
bcj_loop_plain f i b [] h = refl
bcj_loop_plain f i b (c ∷ []) h = refl
bcj_loop_plain f i b (c ∷ d ∷ []) h = refl
bcj_loop_plain f i b (c ∷ d ∷ e ∷ []) h = refl
bcj_loop_plain f i b (c ∷ d ∷ e ∷ k ∷ r) h = rw h refl

bcj_loop_branch :
    (f : ℕ → ℕ → ℕ) (i b c d e k : ℕ) (r : List ℕ)
    → is_branch b ≡ true
    → bcj_loop f i (b ∷ c ∷ d ∷ e ∷ k ∷ r)
      ≡ b ∷ (bytes32 (f i (le32 c d e k)) ++ bcj_loop f (i + 5) r)
unfolding bcj_loop
bcj_loop_branch f i b c d e k r h = rw h refl

-- The word that was stored is read back.
le32-bytes32_parts :
    (w : ℕ) → w < 2 ^ 32 → le32 (u8 w) (u8 (w / 2 ^ 8)) (u8 (w / 2 ^ 16)) (u8 (w / 2 ^ 24)) ≡ w
unfolding word32 bytes32
le32-bytes32_parts w h = word32-bytes32 w [] h

module _ (f g : ℕ → ℕ → ℕ)
    (back : (i w : ℕ) → w < 2 ^ 32 → (g i (f i w) ≡ w) × (f i w < 2 ^ 32)) where
  bcj_loop_inverse : (i : ℕ) (xs : List ℕ) → All IsByte xs → bcj_loop g i (bcj_loop f i xs) ≡ xs
  unfolding bcj_loop bytes32
  bcj_loop_inverse i (b ∷ c ∷ d ∷ e ∷ k ∷ r) bytes = elim (Bool-cases (is_branch b)) [
    | inr plain ↦
        ap (bcj_loop g i) (bcj_loop_plain f i b (c ∷ d ∷ e ∷ k ∷ r) plain)
        ∙ bcj_loop_plain g i b (bcj_loop f (i + 1) (c ∷ d ∷ e ∷ k ∷ r)) plain
        ∙ ap (λ t. b ∷ t) (bcj_loop_inverse (i + 1) (c ∷ d ∷ e ∷ k ∷ r) bytes.1)
    | inl branch ↦
        let (_, (hc, (hd, (he, (hk, hr))))) = bytes in
        let w = le32 c d e k in
        let small : w < 2 ^ 32 = le32-lt c d e k hc hd he hk in
        let (same, fits) = back i w small in
        ap (bcj_loop g i) (bcj_loop_branch f i b c d e k r branch)
        ∙ bcj_loop_branch g i b (u8 (f i w)) (u8 (f i w / 2 ^ 8)) (u8 (f i w / 2 ^ 16))
            (u8 (f i w / 2 ^ 24)) (bcj_loop f (i + 5) r) branch
        ∙ ap (λ t. b ∷ t)
            (ap₂ ◌++◌
              (ap (λ v. bytes32 (g i v)) (le32-bytes32_parts (f i w) fits)
                ∙ ap bytes32 same
                ∙ bytes32-le32 c d e k hc hd he hk)
              (bcj_loop_inverse (i + 5) r hr))
  ]
  bcj_loop_inverse i [] bytes = refl
  bcj_loop_inverse i (b ∷ []) bytes = refl
  bcj_loop_inverse i (b ∷ c ∷ []) bytes = refl
  bcj_loop_inverse i (b ∷ c ∷ d ∷ []) bytes = refl
  bcj_loop_inverse i (b ∷ c ∷ d ∷ e ∷ []) bytes = refl

  length-bcj_loop : (i : ℕ) (xs : List ℕ) → length (bcj_loop f i xs) ≡ length xs
  unfolding bcj_loop bytes32
  length-bcj_loop i (b ∷ c ∷ d ∷ e ∷ k ∷ r) =
      ground (arith, length-bcj_loop (i + 5) r, length-bcj_loop (i + 1) (c ∷ d ∷ e ∷ k ∷ r))
  length-bcj_loop i [] = refl
  length-bcj_loop i (b ∷ []) = refl
  length-bcj_loop i (b ∷ c ∷ []) = refl
  length-bcj_loop i (b ∷ c ∷ d ∷ []) = refl
  length-bcj_loop i (b ∷ c ∷ d ∷ e ∷ []) = refl

rel-abs : (i w : ℕ) → w < 2 ^ 32 → (rel_addr i (abs_addr i w) ≡ w) × (abs_addr i w < 2 ^ 32)
rel-abs i w h = omega arith

abs-rel : (i w : ℕ) → w < 2 ^ 32 → (abs_addr i (rel_addr i w) ≡ w) × (rel_addr i w < 2 ^ 32)
abs-rel i w h = omega arith

-- On bytes, bcj_revert undoes bcj_apply and bcj_apply undoes bcj_revert, and bcj_apply keeps the
-- length.
pub bcj_revert-bcj_apply :
    (bytes : List ℕ)
    → All IsByte bytes
    → (bcj_revert (bcj_apply bytes) ≡ bytes)
      × (bcj_apply (bcj_revert bytes) ≡ bytes)
      × (length (bcj_apply bytes) ≡ length bytes)
unfolding bcj_apply bcj_revert
bcj_revert-bcj_apply bytes h = ground (
  arith,
  bcj_loop_inverse abs_addr rel_addr rel-abs 0 bytes h,
  bcj_loop_inverse rel_addr abs_addr abs-rel 0 bytes h,
  length-bcj_loop abs_addr rel_addr rel-abs 0 bytes,
  length-bcj_loop rel_addr abs_addr abs-rel 0 bytes,
)
