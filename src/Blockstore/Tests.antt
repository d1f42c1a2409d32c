-- ===== src/Blockstore/Tests.antt =====
-- Runs of the block store and instances of its theorems.
use uc.Common.{ℕ, ◌-◌, ◌^◌, ◌<◌, ◌≡◌, refl, List, [], ◌∷◌, true, some, arith, length}
use uc.Common.Ints.{negsuc, to_int}
use uc.Merkle.Tree.{Tree, hash64, hash64_from}
use uc.Merkle.Cover.{Covers}
use uc.Blockstore.Store.{
  Disk, Store, hex, hash_path, same_path, find_file, is_there, blockstore_has, write_block,
  ingest_chunk, ingest_chunks, blockstore_ingest,
}
use uc.Blockstore.Laws.{restore, Agrees}
use uc.Blockstore.Restore.{restore-blockstore_ingest}

abbrev free_disk : Disk
free_disk = record { opens = λ p. true; takes = λ p n. n }

abbrev new_store : Store
new_store = record { path = b's' ∷ []; nblocks = 0; total_bytes = 0; saved_bytes = 0; files = [] }

abbrev three_bytes : List ℕ
three_bytes = 1 ∷ 2 ∷ 3 ∷ []

abbrev one_chunk : Tree
one_chunk = record {
  chunks = record { hash = hash64 three_bytes; offset = 0; size = 3 } ∷ [];
  capacity = 16;
  root = 0;
}

name_of_block :
    hash_path (b's' ∷ []) 0xab00000000000001
    ≡ b's' ∷ b'/' ∷ b'a' ∷ b'b' ∷ b'/' ∷ b'a' ∷ b'b' ∷ b'0' ∷ b'0' ∷ b'0' ∷ b'0' ∷ b'0' ∷ b'0'
      ∷ b'0' ∷ b'0' ∷ b'0' ∷ b'0' ∷ b'0' ∷ b'0' ∷ b'0' ∷ b'1' ∷ []
unfolding hash_path hex
name_of_block = refl

-- A disk that is full keeps an empty file, which counts as the block from then on.
abbrev full_disk : Disk
full_disk = record { opens = λ p. true; takes = λ p n. 0 }

lost_block :
    blockstore_has
      ((blockstore_ingest full_disk new_store one_chunk three_bytes).0)
      (hash64 three_bytes)
    ≡ true
unfolding blockstore_has blockstore_ingest ingest_chunks ingest_chunk write_block find_file
    same_path hash_path hex is_there hash64 hash64_from
lost_block = refl

-- The count of a block that is too large for an `int`.
big_count : to_int (2 ^ 31) ≡ negsuc (2 ^ 31 - 1)
unfolding to_int
big_count = refl

three_Covered : Covers three_bytes 3 0 (length three_bytes) (one_chunk.chunks)
unfolding Covers
three_Covered = (refl, omega arith, omega arith, omega arith, refl, refl)

empty-Agrees : Agrees (λ h. three_bytes) new_store
unfolding find_file
empty-Agrees h c below found = cc

hash_small : hash64 three_bytes < 2 ^ 64
unfolding hash64 hash64_from
hash_small = omega arith

restore-blockstore_ingest_example :
    Agrees (λ h. three_bytes) ((blockstore_ingest free_disk new_store one_chunk three_bytes).0)
    × (restore
          ((blockstore_ingest free_disk new_store one_chunk three_bytes).0)
          65536
          (one_chunk.chunks)
        ≡ some three_bytes)
restore-blockstore_ingest_example =
    restore-blockstore_ingest free_disk (λ h. three_bytes) new_store one_chunk three_bytes 3 65536
      (λ p. refl, λ p n. refl) (omega arith) empty-Agrees three_Covered
      ((omega arith, hash_small, refl), tt) (omega arith) (omega arith)
