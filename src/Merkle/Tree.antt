-- ===== src/Merkle/Tree.antt =====
-- `struct uc2_merkle` and its operations, lib/src/uc2_merkle.c. An allocator is the test whether a
-- request for so many bytes is met.
use uc.Common.{
  ℕ, zero, suc, ◌+◌, ◌*◌, Bool, true, false, List, [], ◌∷◌, ◌++◌, leb, ltb, ◌==◌, if◌then◌else◌,
  length, slice, Option, none, some, bit_xor,
}
use uc.Common.Words.{u8, u32, u64, ◌>>>◌}
use uc.Cdc.Chunker.{Chunker, Chunk, chunker_init, chunker_next}

unfoldable pub hash64_from : ℕ → List ℕ → ℕ
hash64_from h [] = h
hash64_from h (b ∷ rest) = hash64_from (u64 (bit_xor h b * 1099511628211)) rest

unfoldable pub hash64 : List ℕ → ℕ
hash64 bytes = hash64_from 14695981039346656037 bytes

-- `struct uc2_chunk`
pub record Leaf : Type 0 where
  pub hash : ℕ
  pub offset : ℕ
  pub size : ℕ

-- `nchunks` is the length of the list.
pub record Tree : Type 0 where
  pub chunks : List Leaf
  pub capacity : ℕ
  pub root : ℕ

abbrev pub empty_tree : Tree
empty_tree = record { chunks = []; capacity = 0; root = 0 }

abbrev pub leaf_of : List ℕ → Chunk → Leaf
leaf_of bytes k = record {
  hash = hash64 (slice bytes k.off k.len);
  offset = u32 k.off;
  size = u32 k.len;
}

-- One more chunk; `none` if there is no memory for it. A chunk takes 16 bytes.
unfoldable pub add_leaf : (ℕ → Bool) → Tree → Leaf → Option Tree
add_leaf alloc t k =
    let ncap = if t.capacity == 0 then 16 else t.capacity * 2 in
    if leb t.capacity (length t.chunks)
    then (if alloc (ncap * 16)
        then some (record t { chunks = t.chunks ++ (k ∷ []); capacity = ncap })
        else none)
    else some (record t { chunks = t.chunks ++ (k ∷ []) })

-- What the loop does with the chunk `k`; `rest` is the loop behind it.
unfoldable pub after_leaf : Tree → Bool → (Tree → Option Tree) → Option Tree → Option Tree
after_leaf t more rest none = some t
after_leaf t more rest (some t') = if more then rest t' else some t'

-- The loop over the chunks; `none` is a loop that ran out of fuel.
unfoldable pub build_loop : ℕ → (ℕ → Bool) → Chunker → List ℕ → Tree → Option Tree
build_loop zero alloc c bytes t = none
build_loop (suc n) alloc c bytes t =
    let (k, c') = chunker_next c bytes in
    let grown =
      after_leaf t k.more (λ t'. build_loop n alloc c' bytes t')
        (add_leaf alloc t (leaf_of bytes k)) in
    if k.len == 0 then some t else grown

-- `(uint8_t)(h >> (j * 8))` for `j` from 0 to 7
unfoldable pub bytes64 : ℕ → List ℕ
bytes64 h =
    u8 h
    ∷ u8 (h >>> 8)
    ∷ u8 (h >>> 16)
    ∷ u8 (h >>> 24)
    ∷ u8 (h >>> 32)
    ∷ u8 (h >>> 40)
    ∷ u8 (h >>> 48)
    ∷ u8 (h >>> 56)
    ∷ []

unfoldable pub hash_bytes : List Leaf → List ℕ
hash_bytes [] = []
hash_bytes (k ∷ ks) = bytes64 k.hash ++ hash_bytes ks

unfoldable pub set_root : (ℕ → Bool) → Tree → Tree
set_root alloc t =
    let root = hash64 (hash_bytes t.chunks) in
    if ltb 0 (length t.chunks)
    then (if alloc (length t.chunks * 8) then record t { root = root } else t)
    else t

unfoldable pub finish_tree : (ℕ → Bool) → Option Tree → Option Tree
finish_tree alloc none = none
finish_tree alloc (some t) = some (set_root alloc t)

unfoldable pub merkle_build : (ℕ → Bool) → List ℕ → ℕ → Option Tree
merkle_build alloc bytes bits =
    let built = build_loop (length bytes + 1) alloc (chunker_init bits 0 0) bytes empty_tree in
    if length bytes == 0 then some empty_tree else finish_tree alloc built

-- Whether a chunk of the list has the hash.
unfoldable pub has_hash : ℕ → List Leaf → Bool
has_hash h [] = false
has_hash h (k ∷ ks) = if h == k.hash then true else has_hash h ks

unfoldable pub common_from : List Leaf → List Leaf → ℕ → ℕ
common_from [] bs count = count
common_from (a ∷ more) bs count =
    common_from more bs (if has_hash a.hash bs then count + 1 else count)

unfoldable pub merkle_common : Tree → Tree → ℕ
merkle_common a b = common_from a.chunks b.chunks 0

-- `shared_bytes` and `total_bytes`
unfoldable pub weigh : List Leaf → List Leaf → ℕ → ℕ → ℕ × ℕ
weigh [] bs shared total = (shared, total)
weigh (a ∷ more) bs shared total =
    weigh more bs (if has_hash a.hash bs then u32 (shared + a.size) else shared)
      (u32 (total + a.size))

-- The quotient that is returned, as numerator and denominator.
unfoldable pub merkle_similarity : Tree → Tree → ℕ × ℕ
merkle_similarity a b =
    let (shared, total) = weigh a.chunks b.chunks 0 0 in
    if length a.chunks == 0 then (0, 1) else if ltb 0 total then (shared, total) else (0, 1)

-- The root stays.
unfoldable pub merkle_free : Tree → Tree
merkle_free t = record t { chunks = []; capacity = 0 }
