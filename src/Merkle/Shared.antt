-- ===== src/Merkle/Shared.antt =====
-- The comparison of two trees (lib/src/uc2_merkle.c).
use uc.Common.{
  ℕ, ◌+◌, ◌^◌, ◌≤◌, ◌<◌, ◌≡◌, refl, true, false, List, [], ◌∷◌, ◌==◌, length, arith, All,
  Bool-cases, inl, inr, lt→ltb,
}
use uc.Common.Words.{u32}
use uc.Merkle.Tree.{Leaf, Tree, has_hash, common_from, merkle_common, weigh, merkle_similarity}

abbrev pub IsIn : List Leaf → Leaf → Type 0
IsIn bs a = has_hash a.hash bs ≡ true

All-IsIn_cons : (k : Leaf) (bs xs : List Leaf) → All (IsIn bs) xs → All (IsIn (k ∷ bs)) xs
unfolding has_hash
All-IsIn_cons k bs [] h = tt
All-IsIn_cons k bs (x ∷ xs) h = (ground arith, All-IsIn_cons k bs xs h.1)

All-IsIn_self : (ks : List Leaf) → All (IsIn ks) ks
unfolding has_hash
All-IsIn_self [] = tt
All-IsIn_self (k ∷ ks) = (ground arith, All-IsIn_cons k ks ks (All-IsIn_self ks))

common_from_bounds :
    (xs bs : List Leaf) (n : ℕ) → (n ≤ common_from xs bs n) × (common_from xs bs n ≤ n + length xs)
unfolding common_from
common_from_bounds [] bs n = omega arith
common_from_bounds (x ∷ xs) bs n =
    ground (arith, common_from_bounds xs bs n, common_from_bounds xs bs (n + 1))

common_from-All :
    (xs bs : List Leaf) (n : ℕ) → All (IsIn bs) xs → common_from xs bs n ≡ n + length xs
unfolding common_from
common_from-All [] bs n h = omega arith
common_from-All (x ∷ xs) bs n h = rw h.0 (omega (arith, common_from-All xs bs (n + 1) h.1))

-- merkle_common counts at most the chunks of the first tree, and all of them when a tree is
-- compared with itself.
pub merkle_common_bounds :
    (a b : Tree) → (merkle_common a b ≤ length a.chunks) × (merkle_common a a ≡ length a.chunks)
unfolding merkle_common
merkle_common_bounds a b = (
  omega (arith, common_from_bounds a.chunks b.chunks 0),
  omega (arith, common_from-All a.chunks a.chunks 0 (All-IsIn_self a.chunks)),
)

unfoldable pub total_size : List Leaf → ℕ
total_size [] = 0
total_size (k ∷ ks) = k.size + total_size ks

weigh_bounds :
    (xs bs : List Leaf) (s t : ℕ)
    → s ≤ t
    → t + total_size xs < 2 ^ 32
    → ((weigh xs bs s t).0 ≤ (weigh xs bs s t).1) × ((weigh xs bs s t).1 ≡ t + total_size xs)
unfolding weigh total_size
weigh_bounds [] bs s t p q = omega arith
weigh_bounds (x ∷ xs) bs s t p q = elim (Bool-cases (has_hash x.hash bs)) [
  | inl met ↦
      let rest =
        weigh_bounds xs bs (u32 (s + x.size)) (u32 (t + x.size)) (omega arith) (omega arith) in
      rw (weigh, met) ((rest.0, omega (arith, rest.1)))
  | inr new ↦
      let rest = weigh_bounds xs bs s (u32 (t + x.size)) (omega arith) (omega arith) in
      rw (weigh, new) ((rest.0, omega (arith, rest.1)))
]

weigh-All :
    (xs bs : List Leaf) (s : ℕ) → All (IsIn bs) xs → (weigh xs bs s s).0 ≡ (weigh xs bs s s).1
unfolding weigh
weigh-All [] bs s h = refl
weigh-All (x ∷ xs) bs s h = rw (weigh, h.0) (weigh-All xs bs (u32 (s + x.size)) h.1)

not_empty : (ks : List Leaf) → 1 ≤ total_size ks → (length ks == 0) ≡ false
unfolding total_size
not_empty [] h = absurd (omega arith)
not_empty (k ∷ ks) h = ground arith

-- For a tree with bytes the quotient is the one of the two sums.
similarity-weigh :
    (a b : Tree)
    → (length a.chunks == 0) ≡ false
    → 1 ≤ (weigh a.chunks b.chunks 0 0).1
    → merkle_similarity a b ≡ weigh a.chunks b.chunks 0 0
unfolding merkle_similarity
similarity-weigh a b some_chunks positive =
    rw (merkle_similarity, some_chunks, lt→ltb 0 (weigh a.chunks b.chunks 0 0).1 positive) refl

-- For a tree whose chunks have from 1 to 2^32 - 1 bytes in all, the numerator of merkle_similarity
-- is at most the denominator, the denominator is the sum of the sizes, and a tree compared with
-- itself has equal ones.
pub merkle_similarity_bounds :
    (a b : Tree)
    → total_size a.chunks < 2 ^ 32
    → 1 ≤ total_size a.chunks
    → ((merkle_similarity a b).0 ≤ (merkle_similarity a b).1)
      × ((merkle_similarity a b).1 ≡ total_size a.chunks)
      × ((merkle_similarity a a).0 ≡ (merkle_similarity a a).1)
merkle_similarity_bounds a b small some_bytes =
    let some_chunks = not_empty a.chunks some_bytes in
    let (below, total) = weigh_bounds a.chunks b.chunks 0 0 (omega arith) (omega (arith, small)) in
    let (_, total') = weigh_bounds a.chunks a.chunks 0 0 (omega arith) (omega (arith, small)) in
    rw
      (
        similarity-weigh a b some_chunks (omega (arith, total)),
        similarity-weigh a a some_chunks (omega (arith, total')),
      )
      ((below, omega (arith, total), weigh-All a.chunks a.chunks 0 (All-IsIn_self a.chunks)))
