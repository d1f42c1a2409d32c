-- ===== src/Merkle/Cover.antt =====
-- How the chunks of a tree lie in the file (`uc2_merkle_build`, lib/src/uc2_merkle.c).
use uc.Common.{
  ℕ, zero, suc, ◌+◌, ◌-◌, ◌*◌, ◌^◌, ◌≤◌, ◌<◌, ◌≡◌, refl, ◌∙◌, sym, Bool, false, List, [], ◌∷◌, ◌++◌,
  ltb, ◌==◌, if◌then◌else◌, length, slice, Option, none, some, arith, Option-cases, Bool-cases, inl,
  inr, ◌⊎◌, ap, ap₂, ltb→lt, leb, leb→le, length-append,
}
use uc.Common.Words.{u32}
use uc.Cdc.Chunker.{Chunker, clamp_bits, chunker_init, chunker_next, cut_at}
use uc.Cdc.Bounds.{chunker_next_bounds}
use mathlib.Core.Path.{subst}
use native.Mathlib.Nat.{one-le-pow}
use uc.Merkle.Tree.{
  hash64, Leaf, Tree, empty_tree, leaf_of, add_leaf, after_leaf, build_loop, set_root, finish_tree,
  merkle_build,
}

-- The chunks cover `bytes` from index `at` to index `stop`, none of them empty or larger than `limit`.
unfoldable pub Covers : List ℕ → ℕ → ℕ → ℕ → List Leaf → Type 0
Covers bytes limit at stop [] = at ≡ stop
Covers bytes limit at stop (k ∷ ks) =
    (k.offset ≡ at)
    × (1 ≤ k.size)
    × (k.size ≤ limit)
    × (at + k.size ≤ length bytes)
    × (k.hash ≡ hash64 (slice bytes at k.size))
    × Covers bytes limit (at + k.size) stop ks

Covers-snoc :
    (bytes : List ℕ) (limit at stop : ℕ) (ks : List Leaf) (k : Leaf)
    → Covers bytes limit at stop ks
    → k.offset ≡ stop
    → 1 ≤ k.size
    → k.size ≤ limit
    → stop + k.size ≤ length bytes
    → k.hash ≡ hash64 (slice bytes stop k.size)
    → Covers bytes limit at (stop + k.size) (ks ++ (k ∷ []))
unfolding Covers
Covers-snoc bytes limit at stop [] k c p q r s t =
    subst (λ i. Covers bytes limit i (stop + k.size) (k ∷ [])) (sym c) (p, q, r, s, t, refl)
Covers-snoc bytes limit at stop (j ∷ ks) k (o, a, b, d, e, c) p q r s t =
    (o, a, b, d, e, Covers-snoc bytes limit (at + j.size) stop ks k c p q r s t)

-- The chunker's parameters stay.
chunker_next_keeps :
    (c : Chunker) (bytes : List ℕ)
    → let (k, c') = chunker_next c bytes in c'.max_chunk ≡ c.max_chunk
unfolding chunker_next cut_at
chunker_next_keeps c bytes = ground arith

chunker_next_end :
    (c : Chunker) (bytes : List ℕ) → length bytes ≤ c.pos → (chunker_next c bytes).0.len ≡ 0
unfolding chunker_next
chunker_next_end c bytes h = ground arith

-- The bytes for twice as many chunks as there are, or for the first 16.
unfoldable pub next_request : ℕ → ℕ
next_request chunks = (if chunks == 0 then 16 else chunks * 2) * 16

-- Without memory the tree stays, and the request for the next chunks was refused.
add_leaf-none :
    (alloc : ℕ → Bool) (t : Tree) (k : Leaf)
    → length t.chunks ≤ t.capacity
    → add_leaf alloc t k ≡ none
    → alloc (next_request (length t.chunks)) ≡ false
unfolding add_leaf next_request
add_leaf-none alloc t k fits e = elim (Bool-cases (leb t.capacity (length t.chunks))) [
  | inr room ↦ absurd (ground arith)
  | inl full ↦
      let same : t.capacity ≡ length t.chunks = omega (arith, leb→le _ _ full) in
      ap (λ (n : ℕ). alloc ((if n == 0 then 16 else n * 2) * 16)) (sym same) ∙ ground arith
]

add_leaf_room :
    (alloc : ℕ → Bool) (t t' : Tree) (k : Leaf)
    → length t.chunks ≤ t.capacity
    → add_leaf alloc t k ≡ some t'
    → length t'.chunks ≤ t'.capacity
unfolding add_leaf
add_leaf_room alloc t t' k fits e = ground (arith, length-append t.chunks (k ∷ []))

add_leaf-some :
    (alloc : ℕ → Bool) (t t' : Tree) (k : Leaf)
    → add_leaf alloc t k ≡ some t'
    → t'.chunks ≡ t.chunks ++ (k ∷ [])
unfolding add_leaf
add_leaf-some alloc t t' k e = ground arith

module _ (alloc : ℕ → Bool) (bytes : List ℕ) (limit : ℕ) (small : length bytes < 2 ^ 32)
    (positive : 1 ≤ limit) where
  -- A tree that covers what was read, all of it unless memory was refused.
  record Built (result : Option Tree) : Type 0 where
    tree : Tree
    stop : ℕ
    returned : result ≡ some tree
    covered : Covers bytes limit 0 stop tree.chunks
    finished : (stop ≡ length bytes) ⊎ (alloc (next_request (length tree.chunks)) ≡ false)

  leaf_of-Covers :
      (c : Chunker) (ks : List Leaf)
      → c.max_chunk ≡ limit
      → c.pos < length bytes
      → Covers bytes limit 0 c.pos ks
      → let (k, c') = chunker_next c bytes in
        Covers bytes limit 0 c'.pos (ks ++ (leaf_of bytes k ∷ []))
  leaf_of-Covers c ks same inside covered =
      let k = (chunker_next c bytes).0 in
      let next = (chunker_next c bytes).1 in
      let (off, behind, within, one, most, least, last) =
        chunker_next_bounds c bytes inside (omega (arith, same)) in
      let size : u32 k.len ≡ k.len = omega arith in
      let offset : u32 k.off ≡ c.pos = omega arith in
      let stop : c.pos + u32 k.len ≡ next.pos = omega arith in
      let hash : hash64 (slice bytes k.off k.len) ≡ hash64 (slice bytes c.pos (u32 k.len)) =
        ap₂ (λ i n. hash64 (slice bytes i n)) off (sym size) in
      subst (λ i. Covers bytes limit 0 i (ks ++ (leaf_of bytes k ∷ []))) stop
        (Covers-snoc bytes limit 0 c.pos ks (leaf_of bytes k) covered offset (omega arith)
          (omega arith) (omega arith) hash)

  build_loop-Built :
      (n : ℕ) (c : Chunker) (t : Tree)
      → c.max_chunk ≡ limit
      → c.pos ≤ length bytes
      → length bytes - c.pos < n
      → length t.chunks ≤ t.capacity
      → Covers bytes limit 0 c.pos t.chunks
      → Built (build_loop n alloc c bytes t)
  unfolding build_loop after_leaf
  build_loop-Built zero c t same within enough fits covered = absurd (omega arith)
  build_loop-Built (suc n) c t same within enough fits covered =
      let k = (chunker_next c bytes).0 in
      let c' = (chunker_next c bytes).1 in
      let leaf = leaf_of bytes k in
      elim (Bool-cases (ltb c.pos (length bytes))) [
        | inr at_end ↦
            let stop : c.pos ≡ length bytes = ground arith in
            rw (chunker_next_end c bytes (ground arith)) (record {
              tree = t;
              stop = c.pos;
              returned = refl;
              covered = covered;
              finished = inl stop;
            })
        | inl more ↦
            let inside : c.pos < length bytes = ltb→lt c.pos (length bytes) more in
            let (off, behind, in_reach, one, most, least, last) =
              chunker_next_bounds c bytes inside (omega (arith, same)) in
            let not_empty : (k.len == 0) ≡ false = ground arith in
            rw not_empty (elim (Option-cases (add_leaf alloc t leaf)) [
              | inl refused ↦ rw refused (record {
                tree = t;
                stop = c.pos;
                returned = refl;
                covered = covered;
                finished = inr (add_leaf-none alloc t leaf fits refused);
              })
              | inr (t', grown) ↦
                  let covered' : Covers bytes limit 0 c'.pos t'.chunks =
                    subst (λ ks. Covers bytes limit 0 c'.pos ks)
                      (sym (add_leaf-some alloc t t' leaf grown))
                      (leaf_of-Covers c t.chunks same inside covered) in
                  rw grown (elim (Bool-cases k.more) [
                    | inl goes_on ↦
                        let keeps : c'.max_chunk ≡ limit = chunker_next_keeps c bytes ∙ same in
                        rw goes_on (
                          build_loop-Built n c' t' keeps in_reach (omega arith)
                            (add_leaf_room alloc t t' leaf fits grown) covered')
                    | inr ends ↦ rw ends (record {
                      tree = t';
                      stop = c'.pos;
                      returned = refl;
                      covered = covered';
                      finished = inl (last ends);
                    })
                  ])
            ])
      ]

set_root-chunks : (alloc : ℕ → Bool) (t : Tree) → (set_root alloc t).chunks ≡ t.chunks
unfolding set_root
set_root-chunks alloc t = ground arith

-- The largest chunk, four times the size that is aimed at.
unfoldable pub largest_chunk : ℕ → ℕ
unfolding chunker_init
largest_chunk bits = (chunker_init bits 0 0).max_chunk

chunker_init_pos : (bits : ℕ) → (chunker_init bits 0 0).pos ≡ 0
unfolding chunker_init
chunker_init_pos bits = refl

largest_chunk_positive : (bits : ℕ) → 1 ≤ largest_chunk bits
unfolding largest_chunk chunker_init
largest_chunk_positive bits = one-le-pow (clamp_bits bits + 2) 2 (omega arith)

-- For a file shorter than 2^32 bytes and any allocator, merkle_build returns a tree whose chunks
-- lie one behind the other from offset 0, none empty, larger than largest_chunk or beyond the
-- file, each with the hash of its bytes; together they reach the end of the file unless the
-- allocator refuses the request for the chunk behind the last one: for 16 chunks where there is
-- none, and for twice as many as there are otherwise.
pub merkle_build-Covers :
    (alloc : ℕ → Bool) (bytes : List ℕ) (bits : ℕ)
    → length bytes < 2 ^ 32
    → (t : Tree) × (stop : ℕ) × (merkle_build alloc bytes bits ≡ some t)
      × Covers bytes (largest_chunk bits) 0 stop t.chunks
      × ((stop ≡ length bytes) ⊎ (alloc (next_request (length t.chunks)) ≡ false))
unfolding merkle_build
merkle_build-Covers alloc bytes bits small = elim (Bool-cases (length bytes == 0)) [
  | inl nothing ↦
      let zero_bytes : 0 ≡ length bytes = ground arith in
      rw nothing ((empty_tree, 0, refl, unfold Covers in refl, inl zero_bytes))
  | inr something ↦
      let limit = largest_chunk bits in
      let c = chunker_init bits 0 0 in
      let start : Covers bytes limit 0 c.pos [] = unfold Covers in sym (chunker_init_pos bits) in
      let max : c.max_chunk ≡ limit = unfold largest_chunk in refl in
      let b =
        build_loop-Built alloc bytes limit small (largest_chunk_positive bits) (length bytes + 1) c
          empty_tree max (omega (arith, chunker_init_pos bits))
          (omega (arith, chunker_init_pos bits)) (omega arith) start in
      rw (something, b.returned)
        (unfold finish_tree in
          (
            set_root alloc b.tree,
            b.stop,
            refl,
            subst (λ ks. Covers bytes limit 0 b.stop ks) (sym (set_root-chunks alloc b.tree))
                b.covered,
            subst
                (λ (ks : List Leaf).
                  (b.stop ≡ length bytes) ⊎ (alloc (next_request (length ks)) ≡ false))
                (sym (set_root-chunks alloc b.tree)) b.finished,
          ))
]
