-- ===== src/Filters/Bcj.antt =====
-- `uc2_bcj_apply` and `uc2_bcj_revert`, lib/src/uc2_preprocess.c. The list is `data[i..len)`; sums of
-- `int32_t` wrap, as two's complement does.
use uc.Common.{ℕ, ◌+◌, ◌-◌, ◌^◌, Bool, ◌||◌, List, ◌∷◌, ◌++◌, ltb, ◌==◌, if◌then◌else◌, length}
use uc.Common.Words.{u32, le32, bytes32}

-- `data[i] == 0xE8 || data[i] == 0xE9`
abbrev pub is_branch : ℕ → Bool
is_branch b = b == 0xe8 || b == 0xe9

-- `rel + (int32_t)(i + 5)`
abbrev pub abs_addr : ℕ → ℕ → ℕ
abs_addr i rel = u32 (rel + u32 (i + 5))

-- `abs_addr - (int32_t)(i + 5)`
abbrev pub rel_addr : ℕ → ℕ → ℕ
rel_addr i addr = u32 (addr + 2 ^ 32 - u32 (i + 5))

-- The loop of both functions, which differ in the address that they store.
unfoldable pub bcj_loop : (ℕ → ℕ → ℕ) → ℕ → List ℕ → List ℕ
bcj_loop convert i (b ∷ c ∷ d ∷ e ∷ f ∷ r) =
    let skipped = bcj_loop convert (i + 5) r in
    let next = bcj_loop convert (i + 1) (c ∷ d ∷ e ∷ f ∷ r) in
    if is_branch b then b ∷ (bytes32 (convert i (le32 c d e f)) ++ skipped) else b ∷ next
bcj_loop convert i short = short

unfoldable pub bcj_apply : List ℕ → List ℕ
bcj_apply bytes = if ltb (length bytes) 5 then bytes else bcj_loop abs_addr 0 bytes

unfoldable pub bcj_revert : List ℕ → List ℕ
bcj_revert bytes = if ltb (length bytes) 5 then bytes else bcj_loop rel_addr 0 bytes
