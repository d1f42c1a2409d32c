-- ===== src/Blockstore/Laws.antt =====
-- The store as a map from hashes to blocks (lib/src/uc2_blockstore.c).
use uc.Common.{
  ℕ, ◌+◌, ◌-◌, ◌^◌, ◌≤◌, ◌<◌, ◌≡◌, refl, sym, ap, ◌∙◌, List, [], ◌∷◌, ◌++◌, true, false, Option,
  none, some, length, take, slice, arith, Bool-cases, inl, inr, ◌⊎◌, ltb, le→ltb_false, take_all,
}
use uc.Common.Ints.{ℤ, pos, negsuc}
use uc.Merkle.Tree.{Leaf}
use uc.Blockstore.Store.{
  Disk, Store, hash_path, same_path, find_file, is_there, blockstore_has, write_block, ingest_chunk,
  blockstore_read,
}
use uc.Blockstore.Paths.{hash_path-injective, same_path_self, same_path-eq}
use mathlib.Core.Option

-- What a caller has of a read: a negative result is a failure, any other the number of bytes.
unfoldable pub block_read : ℤ × List ℕ → Option (List ℕ)
block_read (pos n, buf) = some (take n buf)
block_read (negsuc n, buf) = none

-- The blocks of the chunks in a row, each read with a buffer of that size.
unfoldable pub restore : Store → ℕ → List Leaf → Option (List ℕ)
restore s buf_size [] = some []
restore s buf_size (k ∷ ks) =
    Option.bind (block_read (blockstore_read s k.hash buf_size))
      (λ block. Option.map (λ more. block ++ more) (restore s buf_size ks))

-- Every file, and every chunk, is the block that the map has for its hash.
abbrev pub Agrees : (ℕ → List ℕ) → Store → Type 0
Agrees block_of s =
    (h : ℕ) (c : List ℕ)
    → h < 2 ^ 64
    → find_file (hash_path s.path h) s.files ≡ some c
    → c ≡ block_of h

abbrev pub IsBlock : List ℕ → (ℕ → List ℕ) → Leaf → Type 0
IsBlock bytes block_of k =
    (k.offset + k.size ≤ length bytes)
    × (k.hash < 2 ^ 64)
    × (slice bytes k.offset k.size ≡ block_of k.hash)

-- A disk that refuses nothing.
abbrev pub Accepts : Disk → Type 0
Accepts disk = ((p : List ℕ) → disk.opens p ≡ true) × ((p : List ℕ) (n : ℕ) → disk.takes p n ≡ n)

pub record Grows (block_of : ℕ → List ℕ) (s s' : Store) : Type 0 where
  pub same : s'.path ≡ s.path
  pub agrees : Agrees block_of s'
  pub keeps :
      (h : ℕ) (c : List ℕ)
      → find_file (hash_path s.path h) s.files ≡ some c
      → h < 2 ^ 64
      → find_file (hash_path s.path h) s'.files ≡ some c

module _ (disk : Disk) (fine : Accepts disk) (block_of : ℕ → List ℕ) (bytes : List ℕ) where
  abbrev written : Store → Leaf → Store
  written s k = record s {
    files = (hash_path s.path k.hash, block_of k.hash) ∷ s.files;
    nblocks = s.nblocks + 1;
    total_bytes = s.total_bytes + length (slice bytes k.offset k.size);
  }

  write_block-written :
      (s : Store) (k : Leaf)
      → IsBlock bytes block_of k
      → write_block disk s k.hash (slice bytes k.offset k.size) ≡ (written s k, 1)
  unfolding write_block
  write_block-written s k (inside, small, block) =
      let path = hash_path s.path k.hash in
      let all : take (disk.takes path (length (slice bytes k.offset k.size)))
            (slice bytes k.offset k.size)
          ≡ block_of k.hash =
        take_all _ (slice bytes k.offset k.size)
          (omega (arith, fine.1 path (length (slice bytes k.offset k.size))))
        ∙ block in
      rw (fine.0 path, all) refl

  find_new :
      (s : Store) (k : Leaf) (h : ℕ)
      → length s.path + 20 ≤ 4095
      → k.hash < 2 ^ 64
      → h < 2 ^ 64
      → ((h ≡ k.hash) × (find_file (hash_path s.path h) ((written s k).files) ≡ some (block_of h)))
        ⊎ (find_file (hash_path s.path h) ((written s k).files)
            ≡ find_file (hash_path s.path h) s.files)
  unfolding find_file
  find_new s k h short small below =
      elim (Bool-cases (same_path (hash_path s.path h) (hash_path s.path k.hash))) [
        | inl here ↦
            let at : h ≡ k.hash =
              hash_path-injective s.path h k.hash short below small (same_path-eq _ _ here) in
            rw here (inl (at, ap (λ (n : ℕ). some (block_of n)) (sym at)))
        | inr away ↦ rw away (inr refl)
      ]

  find_self :
      (s : Store) (k : Leaf)
      → find_file (hash_path s.path k.hash) ((written s k).files) ≡ some (block_of k.hash)
  unfolding find_file
  find_self s k = rw (same_path_self (hash_path s.path k.hash)) refl

  written-Grows :
      (s : Store) (k : Leaf)
      → length s.path + 20 ≤ 4095
      → k.hash < 2 ^ 64
      → Agrees block_of s
      → Grows block_of s (written s k)
  written-Grows s k short small agrees = record {
    same = refl;
    agrees = λ h c below found. elim (find_new s k h short small below) [
      | inl (_, new) ↦ Option.some_inj.0 (sym found ∙ new)
      | inr old ↦ agrees h c below (sym old ∙ found)
    ];
    keeps = λ h c found below. elim (find_new s k h short small below) [
      | inl (_, new) ↦ new ∙ ap some (sym (agrees h c below found))
      | inr old ↦ old ∙ found
    ];
  }

  there : (o : Option (List ℕ)) → is_there o ≡ true → (c : List ℕ) × (o ≡ some c)
  unfolding is_there
  there none h = cc
  there (some c) h = (c, refl)

  stored :
      (s : Store) (h : ℕ)
      → blockstore_has s h ≡ true
      → (c : List ℕ) × (find_file (hash_path s.path h) s.files ≡ some c)
  unfolding blockstore_has
  stored s h e = there (find_file (hash_path s.path h) s.files) e

  -- A turn keeps what is there, and the chunk is there after it.
  pub ingest_chunk-Grows :
      (s : Store) (k : Leaf)
      → length s.path + 20 ≤ 4095
      → IsBlock bytes block_of k
      → Agrees block_of s
      → Grows block_of s ((ingest_chunk disk bytes s k).0)
        × (find_file (hash_path s.path k.hash) (((ingest_chunk disk bytes s k).0).files)
            ≡ some (block_of k.hash))
  unfolding ingest_chunk
  ingest_chunk-Grows s k short good agrees =
      let one : ltb (length bytes) k.offset ≡ false = le→ltb_false _ _ (omega (arith, good.0)) in
      let two : ltb (length bytes - k.offset) k.size ≡ false =
        le→ltb_false _ _ (omega (arith, good.0)) in
      elim (Bool-cases (blockstore_has s k.hash)) [
        | inr new ↦
            rw (one, two, new, write_block-written s k good)
              (written-Grows s k short good.1 agrees, find_self s k)
        | inl old ↦
            let (c, found) = stored s k.hash old in
            rw (one, two, old)
              (
                record { same = refl; agrees = agrees; keeps = λ h c found below. found },
                found ∙ ap some (agrees k.hash c good.1 found),
              )
      ]
