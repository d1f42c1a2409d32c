-- ===== src/Blockstore/Restore.antt =====
-- What a file's blocks give back (lib/src/uc2_blockstore.c, with the chunks of lib/src/uc2_merkle.c).
use uc.Common.{
  ℕ, ◌+◌, ◌^◌, ◌<◌, ◌≤◌, ◌≡◌, refl, sym, ap, ◌∙◌, List, [], ◌∷◌, ◌++◌, some, length, take, drop,
  slice, All, arith, take_all, drop_all, length-take, take-append-drop, drop-drop,
}
use mathlib.Core.Path.{subst}
use uc.Common.Ints.{to_int, to_int_small}
use uc.Merkle.Tree.{Leaf, Tree}
use uc.Merkle.Cover.{Covers}
use uc.Blockstore.Store.{
  Disk, Store, hash_path, find_file, ingest_chunk, ingest_chunks, blockstore_ingest, first_bytes,
  blockstore_read,
}
use uc.Blockstore.Laws.{block_read, restore, Agrees, IsBlock, Accepts, Grows, ingest_chunk-Grows}
use mathlib.Core.Option

-- The chunk's block is in the store.
abbrev Has : (ℕ → List ℕ) → Store → Leaf → Type 0
Has block_of s k = find_file (hash_path s.path k.hash) s.files ≡ some (block_of k.hash)

found_bytes :
    (s : Store) (h buf_size : ℕ) (c : List ℕ)
    → find_file (hash_path s.path h) s.files ≡ some c
    → blockstore_read s h buf_size ≡ (to_int (length (take buf_size c)), take buf_size c)
unfolding blockstore_read first_bytes
found_bytes s h buf_size c e = rw e refl

-- A count that fits is the number of bytes.
read_all :
    (bytes : List ℕ)
    → length bytes < 2 ^ 31
    → block_read (to_int (length bytes), bytes) ≡ some bytes
unfolding block_read
read_all bytes h =
    rw (to_int_small (length bytes) h) (ap some (take_all (length bytes) bytes (omega arith)))

module _ (disk : Disk) (fine : Accepts disk) (block_of : ℕ → List ℕ) (bytes : List ℕ) where
  -- Where the blocks of earlier chunks are, they stay, and those of the list are added.
  ingest_chunks-Grows :
      (ks : List Leaf) (s : Store)
      → length s.path + 20 ≤ 4095
      → All (IsBlock bytes block_of) ks
      → Agrees block_of s
      → Grows block_of s ((ingest_chunks disk bytes s ks).0)
        × All (Has block_of ((ingest_chunks disk bytes s ks).0)) ks
  unfolding ingest_chunks
  ingest_chunks-Grows [] s short good agrees =
      (record { same = refl; agrees = agrees; keeps = λ h c found below. found }, tt)
  ingest_chunks-Grows (k ∷ ks) s short good agrees =
      let (grown, here) = ingest_chunk-Grows disk fine block_of bytes s k short good.0 agrees in
      let s₁ = (ingest_chunk disk bytes s k).0 in
      let (rest, others) =
        ingest_chunks-Grows ks s₁ (subst (λ p. length p + 20 ≤ 4095) (sym grown.same) short) good.1
          grown.agrees in
      let s₂ = (ingest_chunks disk bytes s₁ ks).0 in
      (
        record {
          same = rest.same ∙ grown.same;
          agrees = rest.agrees;
          keeps = λ h c found below.
              ap (λ p. find_file (hash_path p h) s₂.files) (sym grown.same)
              ∙ rest.keeps h c
                  (ap (λ p. find_file (hash_path p h) s₁.files) grown.same
                    ∙ grown.keeps h c found below)
                  below;
        },
        (
          ap (λ p. find_file (hash_path p k.hash) s₂.files) rest.same
              ∙ rest.keeps k.hash (block_of k.hash)
                  (ap (λ p. find_file (hash_path p k.hash) s₁.files) grown.same ∙ here) good.0.1,
          others,
        ),
      )

  restore_from :
      (s : Store) (buf_size limit at stop : ℕ) (ks : List Leaf)
      → Covers bytes limit at stop ks
      → All (IsBlock bytes block_of) ks
      → All (Has block_of s) ks
      → limit ≤ buf_size
      → limit < 2 ^ 31
      → stop ≡ length bytes
      → restore s buf_size ks ≡ some (drop at bytes)
  unfolding restore Covers Option.bind
  restore_from s buf_size limit at stop [] covers good has big int ends =
      ap some (sym (drop_all at bytes (omega (arith, covers, ends))))
  restore_from s buf_size limit at stop (k ∷ ks) (o, a, b, d, e, more) good has big int ends =
      let block : slice bytes at k.size ≡ block_of k.hash =
        ap (λ (i : ℕ). slice bytes i k.size) (sym o) ∙ good.0.2 in
      let whole : take buf_size (block_of k.hash) ≡ slice bytes at k.size =
        take_all buf_size (block_of k.hash)
          (omega (arith, ap length block, length-take k.size (drop at bytes), b))
        ∙ sym block in
      let size : length (slice bytes at k.size) < 2 ^ 31 =
        omega (arith, length-take k.size (drop at bytes), b) in
      let read : block_read (blockstore_read s k.hash buf_size) ≡ some (slice bytes at k.size) =
        ap block_read (found_bytes s k.hash buf_size (block_of k.hash) has.0)
        ∙ ap (λ t. block_read (to_int (length t), t)) whole
        ∙ read_all (slice bytes at k.size) size in
      rw (read, restore_from s buf_size limit (at + k.size) stop ks more good.1 has.1 big int ends)
        (ap some (
          ap (λ t. slice bytes at k.size ++ t) (sym (drop-drop k.size at bytes))
          ∙ take-append-drop k.size (drop at bytes)))

-- On a disk that opens every file and writes every byte, with a store path of at most 4075 bytes,
-- let the files of the store be the blocks that a map has for their hashes, let the chunks of a
-- tree cover a file from its start to its end, and let the map have the bytes of each chunk for
-- its hash, which is below 2^64: after blockstore_ingest the files of the store are still those of
-- the map, and the blocks that blockstore_read returns for the hashes of the tree, in a row, are
-- the file, if the buffer has room for the largest chunk and the largest chunk has fewer than 2^31
-- bytes.
pub restore-blockstore_ingest :
    (disk : Disk) (block_of : ℕ → List ℕ) (s : Store) (tree : Tree) (bytes : List ℕ)
    (limit buf_size : ℕ)
    → Accepts disk
    → length s.path + 20 ≤ 4095
    → Agrees block_of s
    → Covers bytes limit 0 (length bytes) tree.chunks
    → All (IsBlock bytes block_of) tree.chunks
    → limit ≤ buf_size
    → limit < 2 ^ 31
    → let s' = (blockstore_ingest disk s tree bytes).0 in
      Agrees block_of s' × (restore s' buf_size tree.chunks ≡ some bytes)
unfolding blockstore_ingest
restore-blockstore_ingest disk block_of s tree bytes limit buf_size fine short agrees covers good
      big int =
    let (grown, has) =
      ingest_chunks-Grows disk fine block_of bytes tree.chunks s short good agrees in
    (
      grown.agrees,
      restore_from disk fine block_of bytes _ buf_size limit 0 (length bytes) tree.chunks covers
          good has big int refl,
    )
