-- ===== src/Merkle/Tests.antt =====
-- Runs of the tree of chunks, and its theorems at concrete inputs.
use uc.Common.{◌≡◌, refl, List, [], ◌∷◌, ℕ, arith, ◌≤◌, length, true, false, Bool, some, ◌⊎◌}
use uc.Cdc.Chunker.{roll, gear_from, find_boundary, cut_at, chunker_init, chunker_next}
use uc.Merkle.Tree.{
  hash64, hash64_from, Leaf, Tree, add_leaf, after_leaf, build_loop, bytes64, hash_bytes, set_root,
  finish_tree, merkle_build, merkle_free, merkle_common, merkle_similarity, common_from, has_hash,
  weigh,
}
use uc.Merkle.Cover.{Covers, largest_chunk, next_request, merkle_build-Covers}
use uc.Merkle.Shared.{total_size, merkle_similarity_bounds}

abbrev six : List ℕ
six = 1 ∷ 2 ∷ 3 ∷ 4 ∷ 5 ∷ 6 ∷ []

abbrev six_leaf : Leaf
six_leaf = record { hash = 10900583652230846538; offset = 0; size = 6 }

abbrev six_tree : Tree
six_tree = record { chunks = six_leaf ∷ []; capacity = 16; root = 12563640115911238081 }

abbrev other_tree : Tree
other_tree = record {
  chunks = six_leaf ∷ record { hash = 7; offset = 6; size = 9 } ∷ [];
  capacity = 16;
  root = 0;
}

abbrev plenty : ℕ → Bool
plenty n = true

merkle_build_run : merkle_build plenty six 13 ≡ some six_tree
unfolding merkle_build build_loop finish_tree set_root hash_bytes bytes64 hash64 hash64_from
    add_leaf after_leaf chunker_init chunker_next cut_at find_boundary gear_from roll
merkle_build_run = refl

-- Without memory for the list there is an empty tree.
merkle_build_starved :
    merkle_build (λ n. false) six 13 ≡ some (record { chunks = []; capacity = 0; root = 0 })
unfolding merkle_build build_loop finish_tree set_root hash_bytes add_leaf after_leaf chunker_init
    chunker_next cut_at find_boundary gear_from roll
merkle_build_starved = refl

merkle_build-Covers_example :
    (t : Tree) × (stop : ℕ) × (merkle_build plenty six 13 ≡ some t)
    × Covers six (largest_chunk 13) 0 stop t.chunks
    × ((stop ≡ length six) ⊎ (plenty (next_request (length t.chunks)) ≡ false))
merkle_build-Covers_example = merkle_build-Covers plenty six 13 (omega arith)

merkle_free_run : merkle_common (merkle_free six_tree) six_tree ≡ 0
unfolding merkle_free merkle_common common_from
merkle_free_run = refl

merkle_common_run : merkle_common other_tree six_tree ≡ 1
unfolding merkle_common common_from has_hash
merkle_common_run = refl

merkle_similarity_run : merkle_similarity other_tree six_tree ≡ (6, 15)
unfolding merkle_similarity weigh has_hash
merkle_similarity_run = refl

merkle_similarity_bounds_example :
    ((merkle_similarity other_tree six_tree).0 ≤ (merkle_similarity other_tree six_tree).1)
    × ((merkle_similarity other_tree six_tree).1 ≡ total_size other_tree.chunks)
    × ((merkle_similarity other_tree other_tree).0 ≡ (merkle_similarity other_tree other_tree).1)
merkle_similarity_bounds_example =
    merkle_similarity_bounds other_tree six_tree (unfold total_size in omega arith)
      (unfold total_size in omega arith)
