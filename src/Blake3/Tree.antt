-- ===== src/Blake3/Tree.antt =====
-- What BLAKE3 (lib/src/uc2_blake3.c) is to compute: the message is cut into chunks, which are the
-- leaves of a binary tree.
use uc.Common.{
  ℕ, zero, suc, ◌+◌, ◌-◌, ◌*◌, ◌/◌, ◌≤◌, ◌≡◌, List, ◌++◌, length, take, drop, replicate, ◌==◌,
  if◌then◌else◌,
}
use uc.Blake3.Compress.{iv, compress_cv, words_bytes}

-- A chunk is its bytes.
pub data Tree : Type 0 where
  leaf : List ℕ → Tree
  node : Tree → Tree → Tree

unfoldable pub leaves : Tree → ℕ
leaves (leaf bytes) = 1
leaves (node l r) = leaves l + leaves r

-- The bytes of the message, in order.
unfoldable pub content : Tree → List ℕ
content (leaf bytes) = bytes
content (node l r) = content l ++ content r

-- The flags are sums: 1 for the first block of a chunk, 2 for its last block, 4 for a node, 8 for the
-- root.
unfoldable pub block_flags : ℕ → ℕ → ℕ
block_flags i last = if i == 0 then 1 + last else last

-- A node hashes the 64 bytes of its two sides, the left one first.
unfoldable pub node_cv : ℕ → List ℕ → List ℕ → List ℕ
node_cv flags left right = compress_cv iv (words_bytes left ++ words_bytes right) 64 0 flags

-- The chaining value before block `i` of a chunk, whose blocks before it are whole.
unfoldable pub chain : ℕ → ℕ → List ℕ → List ℕ
chain zero number bytes = iv
chain (suc i) number bytes =
    compress_cv (chain i number bytes) (take 64 (drop (64 * i) bytes)) 64 number (block_flags i 0)

-- The last block is block `i`: the bytes that are left, and zeros. The root has a flag of its own.
unfoldable pub last_cv : ℕ → ℕ → ℕ → List ℕ → List ℕ
last_cv flags i number bytes =
    let tail = drop (64 * i) bytes in
    compress_cv (chain i number bytes) (tail ++ replicate (64 - length tail) 0) (length tail) number
      (block_flags i flags)

-- The number of the last block of `n` bytes.
abbrev pub last_index : ℕ → ℕ
last_index n = (n - 1) / 64

-- The chaining value of a tree whose first chunk has that number.
unfoldable pub tree_cv : ℕ → Tree → List ℕ
tree_cv number (leaf bytes) = last_cv 2 (last_index (length bytes)) number bytes
tree_cv number (node l r) = node_cv 4 (tree_cv number l) (tree_cv (number + leaves l) r)

-- The digest of a whole tree.
unfoldable pub tree_digest : Tree → List ℕ
tree_digest (leaf bytes) = words_bytes (last_cv 10 (last_index (length bytes)) 0 bytes)
tree_digest (node l r) = words_bytes (node_cv 12 (tree_cv 0 l) (tree_cv (leaves l) r))

-- All chunks are whole and all paths have one length.
pub data IsPerfect : ℕ → Tree → Type 0 where
  one_chunk : (bytes : List ℕ) → length bytes ≡ 1024 → IsPerfect 0 (leaf bytes)
  two_halves : (h : ℕ) (l r : Tree) → IsPerfect h l → IsPerfect h r → IsPerfect (suc h) (node l r)

-- The chunks to the left of the last one are whole, and the left side of a node is a perfect tree
-- that is as large as it can be: no smaller than the right side.
unfoldable pub IsLeftHeavy : Tree → Type 0
IsLeftHeavy (leaf bytes) = length bytes ≤ 1024
IsLeftHeavy (node l r) =
    ((h : ℕ) × IsPerfect h l) × (leaves r ≤ leaves l) × (1 ≤ length (content r)) × IsLeftHeavy r
