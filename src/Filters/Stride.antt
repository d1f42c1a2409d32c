-- ===== src/Filters/Stride.antt =====
-- `uc2_delta_filter_apply` and `uc2_delta_filter_revert`, lib/src/uc2_preprocess.c. A stride of 0
-- stands for every `int` below one.
use uc.Common.{ℕ, zero, suc, ◌+◌, ◌-◌, ◌^◌, List, ltb, if◌then◌else◌, length, set}
use uc.Common.Words.{u8, byte_at}

-- `data[i] = (uint8_t)(data[i] - data[i - stride])`
unfoldable pub subtract : ℕ → ℕ → List ℕ → List ℕ
subtract stride i bytes = set bytes i (u8 (2 ^ 8 + byte_at bytes i - byte_at bytes (i - stride)))

-- `data[i] = (uint8_t)(data[i] + data[i - stride])`
unfoldable pub add_back : ℕ → ℕ → List ℕ → List ℕ
add_back stride i bytes = set bytes i (u8 (byte_at bytes i + byte_at bytes (i - stride)))

-- `if (stride < 1) stride = 1;`
abbrev pub clamp_stride : ℕ → ℕ
clamp_stride stride = if ltb stride 1 then 1 else stride

-- `for (i = len; i > stride; )`
unfoldable pub filter_down : ℕ → ℕ → List ℕ → List ℕ
filter_down stride zero bytes = bytes
filter_down stride (suc i) bytes =
    let more = filter_down stride i (subtract stride i bytes) in
    if ltb stride (suc i) then more else bytes

-- `for (i = stride; i < len; i++)`, for `n` more rounds.
unfoldable pub filter_up : ℕ → ℕ → ℕ → List ℕ → List ℕ
filter_up zero stride i bytes = bytes
filter_up (suc n) stride i bytes = filter_up n stride (i + 1) (add_back stride i bytes)

unfoldable pub delta_filter_apply : ℕ → List ℕ → List ℕ
delta_filter_apply stride bytes = filter_down (clamp_stride stride) (length bytes) bytes

unfoldable pub delta_filter_revert : ℕ → List ℕ → List ℕ
delta_filter_revert stride bytes =
    filter_up (length bytes - clamp_stride stride) (clamp_stride stride) (clamp_stride stride) bytes
