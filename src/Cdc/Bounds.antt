-- ===== src/Cdc/Bounds.antt =====
-- One chunk: where it lies and how long it is (`uc2_chunker_next`, lib/src/uc2_cdc.c).
use uc.Common.{
  ℕ, zero, suc, ◌+◌, ◌-◌, ◌≤◌, ◌<◌, ◌≡◌, false, List, [], ◌∷◌, length, drop, some, arith,
  Option-cases, inl, inr, slice, min,
}
use uc.Cdc.Chunker.{roll, find_boundary, gear_from, Chunker, smaller, cut_at, chunker_next}

find_boundary_bounds :
    (mask h i n : ℕ) (bytes : List ℕ) (k : ℕ)
    → find_boundary mask h i n bytes ≡ some k
    → (i < k) × (k ≤ i + n)
unfolding find_boundary
find_boundary_bounds mask h i zero bytes k e = cc
find_boundary_bounds mask h i (suc n) [] k e = cc
find_boundary_bounds mask h i (suc n) (b ∷ rest) k e =
    ground (arith, find_boundary_bounds mask (roll h b) (i + 1) n rest k)

-- If the chunker stands inside the input and its maximum is positive, the next chunk starts there
-- and ends where the chunker stands next, within the input; it is not empty, at most the maximum
-- long, and at least the minimum unless the maximum or the input ends before; and if 0 is
-- returned, the chunker has reached the end.
pub chunker_next_bounds :
    (c : Chunker) (bytes : List ℕ)
    → c.pos < length bytes
    → 1 ≤ c.max_chunk
    → let (k, c') = chunker_next c bytes in
      (k.off ≡ c.pos)
      × (c'.pos ≡ k.off + k.len)
      × (c'.pos ≤ length bytes)
      × (1 ≤ k.len)
      × (k.len ≤ c.max_chunk)
      × (min c.min_chunk (min c.max_chunk (length bytes - c.pos)) ≤ k.len)
      × (k.more ≡ false → c'.pos ≡ length bytes)
unfolding chunker_next cut_at
chunker_next_bounds c bytes inside positive =
    let start = c.pos in
    let stop = start + smaller c.max_chunk (length bytes - start) in
    let scan = start + smaller c.min_chunk (stop - start) in
    let h = gear_from 0 (slice bytes start (scan - start)) in
    elim (Option-cases (find_boundary c.mask h scan (stop - scan) (drop scan bytes))) [
      | inl nowhere ↦ rw nowhere (ground arith)
      | inr (k, there) ↦ rw there (
          ground
            (arith, find_boundary_bounds c.mask h scan (stop - scan) (drop scan bytes) k there))
    ]
