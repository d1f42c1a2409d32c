-- ===== src/Dict/Bounds.antt =====
-- Which buffers `uc2_dict_deserialize` copies from beyond their end (lib/src/uc2_dict.c).
use uc.Common.{ℕ, ◌+◌, ◌^◌, ◌≤◌, ◌<◌, ◌≡◌, Bool, true, List, length, drop, arith, ◌≢◌}
use uc.Common.Words.{word32}
use uc.Common.Result.{err}
use uc.Dict.Store.{dict_magic, out_of_bounds, dict_deserialize}

-- If the size that a buffer declares is below 2^32 - 24, dict_deserialize never copies from beyond
-- the buffer.
pub dict_deserialize_in_bounds :
    (alloc : ℕ → Bool) (buf : List ℕ)
    → word32 (drop 16 buf) + 24 < 2 ^ 32
    → dict_deserialize alloc buf ≢ err out_of_bounds
unfolding dict_deserialize
dict_deserialize_in_bounds alloc buf small e = ground arith

-- If a buffer of at least 24 and fewer than 2^31 bytes has the magic number and declares a size
-- from 2^32 - 24 up to 2^32 - 1, and memory for that size is granted, dict_deserialize copies from
-- beyond the buffer.
pub dict_deserialize_wraps :
    (alloc : ℕ → Bool) (buf : List ℕ)
    → 24 ≤ length buf
    → length buf < 2 ^ 31
    → word32 buf ≡ dict_magic
    → 2 ^ 32 ≤ word32 (drop 16 buf) + 24
    → word32 (drop 16 buf) < 2 ^ 32
    → alloc (word32 (drop 16 buf)) ≡ true
    → dict_deserialize alloc buf ≡ err out_of_bounds
unfolding dict_deserialize
dict_deserialize_wraps alloc buf room short magic big word given = ground arith
