-- ===== src/Blockstore/Store.antt =====
-- The block store, lib/src/uc2_blockstore.c. The files of the disk are part of the state: a path and
-- the bytes of its file. What the operating system refuses to write is a parameter;
-- what is there is read in full. The counters are signed, and
-- their overflow, which C does not define, is not modelled.
use uc.Common.{
  ℕ, zero, suc, ◌+◌, ◌-◌, ◌/◌, ◌%◌, List, [], ◌∷◌, ◌++◌, Bool, true, false, ◌&&◌, ◌||◌, Option,
  none, some, ltb, ◌==◌, if◌then◌else◌, length, take, slice,
}
use uc.Common.Words.{◌>>>◌}
use uc.Common.Ints.{ℤ, negsuc, to_int}
use uc.Merkle.Tree.{Leaf, Tree}

-- Whether a file can be opened for writing, and how many of `n` bytes `fwrite` takes.
pub record Disk : Type 0 where
  pub opens : List ℕ → Bool
  pub takes : List ℕ → ℕ → ℕ

abbrev pub Files : Type 0
Files = List (List ℕ × List ℕ)

pub record Store : Type 0 where
  pub path : List ℕ
  pub nblocks : ℕ
  pub total_bytes : ℕ
  pub saved_bytes : ℕ
  pub files : Files

-- `%x` with `n` digits.
abbrev pub hex_digit : ℕ → ℕ
hex_digit d = if ltb d 10 then b'0' + d else b'a' + (d - 10)

unfoldable pub hex : ℕ → ℕ → List ℕ
hex zero v = []
hex (suc n) v = hex n (v / 16) ++ (hex_digit (v % 16) ∷ [])

-- `snprintf` into 4096 bytes: `store/AB/ABCDEF0123456789`.
unfoldable pub hash_path : List ℕ → ℕ → List ℕ
hash_path path hash =
    take 4095 (path ++ (b'/' ∷ (hex 2 (hash >>> 56 % 256) ++ (b'/' ∷ hex 16 hash))))

unfoldable pub same_path : List ℕ → List ℕ → Bool
same_path [] [] = true
same_path [] (y ∷ ys) = false
same_path (x ∷ xs) [] = false
same_path (x ∷ xs) (y ∷ ys) = x == y && same_path xs ys

unfoldable pub find_file : List ℕ → Files → Option (List ℕ)
find_file p [] = none
find_file p ((q, bytes) ∷ more) = if same_path p q then some bytes else find_file p more

-- `strdup`, and `mkdir` that succeeds or finds the directory.
unfoldable pub blockstore_open : Bool → Bool → List ℕ → Files → Option Store
blockstore_open copied made path files =
    if copied && made
    then some (record { path = path; nblocks = 0; total_bytes = 0; saved_bytes = 0; files = files })
    else none

-- `stat`
unfoldable pub is_there : Option (List ℕ) → Bool
is_there none = false
is_there (some bytes) = true

unfoldable pub blockstore_has : Store → ℕ → Bool
blockstore_has s hash = is_there (find_file (hash_path s.path hash) s.files)

-- The file is opened, the bytes are written and it is closed; no result of `fwrite` is looked at.
unfoldable pub write_block : Disk → Store → ℕ → List ℕ → Store × ℕ
write_block disk s hash block =
    let path = hash_path s.path hash in
    let kept = take (disk.takes path (length block)) block in
    if disk.opens path
    then (
      record s {
        files = (path, kept) ∷ s.files;
        nblocks = s.nblocks + 1;
        total_bytes = s.total_bytes + length block;
      },
      1,
    )
    else (s, 0)

-- One turn of the loop, with the number of new chunks in it.
unfoldable pub ingest_chunk : Disk → List ℕ → Store → Leaf → Store × ℕ
ingest_chunk disk bytes s k =
    let block = slice bytes k.offset k.size in
    if ltb (length bytes) k.offset || ltb (length bytes - k.offset) k.size
    then (s, 0)
    else if blockstore_has s k.hash
    then (record s { saved_bytes = s.saved_bytes + k.size }, 0)
    else write_block disk s k.hash block

unfoldable pub ingest_chunks : Disk → List ℕ → Store → List Leaf → Store × ℕ
ingest_chunks disk bytes s [] = (s, 0)
ingest_chunks disk bytes s (k ∷ ks) =
    let (s₁, new) = ingest_chunk disk bytes s k in
    let (s₂, more) = ingest_chunks disk bytes s₁ ks in (s₂, new + more)

unfoldable pub blockstore_ingest : Disk → Store → Tree → List ℕ → Store × ℕ
blockstore_ingest disk s tree bytes = ingest_chunks disk bytes s tree.chunks

-- What the function returns, and the bytes that it writes to the front of the buffer. The count of
-- `fread` is converted to `int`.
unfoldable pub first_bytes : ℕ → Option (List ℕ) → ℤ × List ℕ
first_bytes n none = (negsuc 0, [])
first_bytes n (some bytes) = (to_int (length (take n bytes)), take n bytes)

unfoldable pub blockstore_read : Store → ℕ → ℕ → ℤ × List ℕ
blockstore_read s hash buf_size = first_bytes buf_size (find_file (hash_path s.path hash) s.files)

unfoldable pub blockstore_close : Store → Store
blockstore_close s = record s { path = []; nblocks = 0; total_bytes = 0; saved_bytes = 0 }
