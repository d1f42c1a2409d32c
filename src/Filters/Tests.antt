-- ===== src/Filters/Tests.antt =====
-- Runs of the filters, and their theorems at concrete inputs.
use uc.Filters.Carried.{
  DeltaState, delta_init, delta_apply, revert_blocks, revert_blocks-delta_apply,
}
use uc.Common.Result.{ok}
use uc.Common.{◌≡◌, refl, ap, joined, List, [], ◌∷◌, ℕ, arith, length, All}
use uc.Common.Words.{IsByte, bytes32, le32}
use uc.Filters.Bcj.{bcj_loop, bcj_apply, bcj_revert}
use uc.Filters.BcjLaws.{bcj_revert-bcj_apply}
use uc.Filters.Stride.{
  subtract, add_back, filter_down, filter_up, delta_filter_apply, delta_filter_revert,
}
use uc.Filters.StrideLaws.{delta_filter_revert-delta_filter_apply}
use uc.Filters.Kinds.{
  starts_with, is_in, count_in, codes_from, text_codes, content_kind, detect_content-kinds,
}
use uc.Filters.Content.{binary, text, x86, count_bytes, classify, check_len, detect_content}

-- A call at offset 1 of what lies four bytes before its end.
abbrev a_call : List ℕ
a_call = 0x90 ∷ 0xe8 ∷ 0xfc ∷ 0xff ∷ 0xff ∷ 0xff ∷ 0x90 ∷ []

bcj_apply_run : bcj_apply a_call ≡ 0x90 ∷ 0xe8 ∷ 0x02 ∷ 0x00 ∷ 0x00 ∷ 0x00 ∷ 0x90 ∷ []
unfolding bcj_apply bcj_loop bytes32 le32
bcj_apply_run = refl

a_call-IsByte : All IsByte a_call
a_call-IsByte = omega arith

bcj_revert-bcj_apply_example :
    (bcj_revert (bcj_apply a_call) ≡ a_call)
    × (bcj_apply (bcj_revert a_call) ≡ a_call)
    × (length (bcj_apply a_call) ≡ length a_call)
bcj_revert-bcj_apply_example = bcj_revert-bcj_apply a_call a_call-IsByte

abbrev samples : List ℕ
samples = 10 ∷ 20 ∷ 13 ∷ 18 ∷ 16 ∷ []

delta_filter_apply_run : delta_filter_apply 2 samples ≡ 10 ∷ 20 ∷ 3 ∷ 254 ∷ 3 ∷ []
unfolding delta_filter_apply filter_down subtract
delta_filter_apply_run = refl

delta_filter_revert_run : delta_filter_revert 2 (10 ∷ 20 ∷ 3 ∷ 254 ∷ 3 ∷ []) ≡ samples
unfolding delta_filter_revert filter_up add_back
delta_filter_revert_run = refl

samples-IsByte : All IsByte samples
samples-IsByte = omega arith

delta_filter_revert-delta_filter_apply_example :
    (delta_filter_revert 2 (delta_filter_apply 2 samples) ≡ samples)
    × (delta_filter_apply 2 (delta_filter_revert 2 samples) ≡ samples)
delta_filter_revert-delta_filter_apply_example =
    delta_filter_revert-delta_filter_apply 2 samples samples-IsByte

abbrev words : List ℕ
words = b'W' ∷ b'o' ∷ b'r' ∷ b'd' ∷ 10 ∷ []

detect_content_elf : detect_content (0x7f ∷ b'E' ∷ b'L' ∷ b'F' ∷ []) ≡ x86
unfolding detect_content classify check_len count_bytes
detect_content_elf = refl

-- Six characters of seven bytes are less than 86 percent.
abbrev mostly_words : List ℕ
mostly_words = b'W' ∷ b'o' ∷ b'r' ∷ b'd' ∷ b's' ∷ b'.' ∷ 0 ∷ []

detect_content_share : detect_content mostly_words ≡ binary
unfolding detect_content classify check_len count_bytes
detect_content_share = refl

detect_content-kinds_example : detect_content words ≡ content_kind words
detect_content-kinds_example = detect_content-kinds words

words_kind : content_kind words ≡ text
unfolding content_kind starts_with count_in is_in text_codes codes_from
words_kind = refl

-- Blocks of one byte.
abbrev single_blocks : List ℕ → List (List ℕ)
single_blocks [] = []
single_blocks (b ∷ bs) = (b ∷ []) ∷ single_blocks bs

joined-single_blocks : (q : List ℕ) → joined (single_blocks q) ≡ q
joined-single_blocks [] = refl
joined-single_blocks (b ∷ bs) = ap (λ t. b ∷ t) (joined-single_blocks bs)

revert_blocks-delta_apply_example :
    (q : List ℕ) × (e : DeltaState) × (delta_apply (delta_init 2) samples ≡ ok (q, e))
    × (revert_blocks (delta_init 2) (single_blocks q) ≡ ok (samples, e))
revert_blocks-delta_apply_example =
    revert_blocks-delta_apply 2 samples single_blocks (omega arith) (omega arith) samples-IsByte
      joined-single_blocks
