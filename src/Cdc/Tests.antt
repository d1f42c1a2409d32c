-- ===== src/Cdc/Tests.antt =====
-- Runs of the chunker, and its theorems at concrete inputs.
use uc.Common.{◌≡◌, refl, List, [], ◌∷◌, ℕ, arith, ◌+◌, ◌-◌, ◌≤◌, length, false, true, min}
use uc.Cdc.Chunker.{
  roll, gear_from, fnv1a_from, fnv1a, find_boundary, Chunker, cut_at, chunker_next,
}
use uc.Cdc.Bounds.{chunker_next_bounds}
use uc.Cdc.Shift.{moved, moved_chunk, chunker_next_shift}

-- FNV-1a of "a".
fnv1a_run : fnv1a (b'a' ∷ []) ≡ 0xe40c292c
unfolding fnv1a fnv1a_from
fnv1a_run = refl

abbrev few : Chunker
few = record { mask = 255; min_chunk = 2; max_chunk = 4; pos = 0 }

abbrev six : List ℕ
six = 1 ∷ 2 ∷ 3 ∷ 4 ∷ 5 ∷ 6 ∷ []

chunker_next_run :
    chunker_next few six ≡ (record { off = 0; len = 4; more = true }, record few { pos = 4 })
unfolding chunker_next cut_at find_boundary gear_from roll
chunker_next_run = refl

chunker_next_bounds_example :
    let (k, c') = chunker_next few six in
    (k.off ≡ 0)
    × (c'.pos ≡ k.off + k.len)
    × (c'.pos ≤ 6)
    × (1 ≤ k.len)
    × (k.len ≤ 4)
    × (min 2 (min 4 (length six - 0)) ≤ k.len)
    × (k.more ≡ false → c'.pos ≡ 6)
chunker_next_bounds_example = chunker_next_bounds few six (omega arith) (omega arith)

chunker_next_shift_example :
    chunker_next (moved 2 few) (9 ∷ 9 ∷ six) ≡ moved_chunk 2 (chunker_next few six)
chunker_next_shift_example = chunker_next_shift few (9 ∷ 9 ∷ []) six
