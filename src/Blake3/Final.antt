-- ===== src/Blake3/Final.antt =====
-- A whole stream of BLAKE3 and its digest (lib/src/uc2_blake3.c).
use uc.Common.{
  ℕ, ◌+◌, ◌*◌, ◌^◌, ◌≤◌, ◌<◌, ◌≡◌, refl, sym, ap, ap₂, ◌∙◌, List, [], ◌∷◌, ◌++◌, Option, some,
  length, arith, ◌==◌, append_assoc, append-nil, length-append, Bool-cases, inl, inr, false, ==_iff,
  ==_ne, bit_or,
}
use mathlib.Core.Path.{subst}
use uc.Blake3.Compress.{chunk_end, root, compress_cv, words_bytes}
use uc.Blake3.Stream.{
  Context, starting, chunk_finalize, padded_block, blake3_init, blake3_update, merge_up,
  blake3_final,
}
use uc.Blake3.Push.{blake3_update-pushes}
use uc.Blake3.Tree.{
  Tree, leaf, node, leaves, content, block_flags, last_cv, last_index, tree_cv, tree_digest,
  IsLeftHeavy,
}
use uc.Blake3.Stack.{leaves_of, contents, cvs}
use uc.Blake3.Shape.{assemble, content-assemble, merge_up-assemble, assemble-IsLeftHeavy}
use uc.Blake3.Laws.{Holds, last_block_lem, chunk_finalize-last_cv}
use mathlib.Core.Option
use uc.Blake3.Digest.{Begun, blake3_init-Holds, pushes-Begun}

-- The digest is that of a tree with the message's bytes at its leaves.
pub record IsDigest (message digest : List ℕ) : Type 0 where
  pub tree : Tree
  pub text : content tree ≡ message
  pub shape : IsLeftHeavy tree
  pub value : digest ≡ tree_digest tree

leaves-positive : (t : Tree) → 1 ≤ leaves t
unfolding leaves
leaves-positive (leaf bytes) = omega arith
leaves-positive (node l r) = omega (arith, leaves-positive l, leaves-positive r)

module _ (ctx : Context) (message : List ℕ) (held : Holds ctx message)
    (begun : 1 ≤ length message → 1 ≤ ctx.buf_len) where
  total : length message ≡ 1024 * ctx.chunk_counter + length held.current
  total =
      omega
        (arith, ap length held.parts, length-append (contents held.trees) held.current, held.whole)

  index : ctx.blocks_compressed ≡ last_index (length held.current)
  index = elim (Bool-cases (length message == 0)) [
    | inl nothing ↦ omega (arith, total, held.size, (==_iff (length message) 0).0 nothing)
    | inr something ↦
        let used = begun (ground (arith, ==_ne (length message) 0 something)) in
        omega (arith, held.size, used, held.used)
  ]

  last_leaf : chunk_finalize ctx ≡ tree_cv (leaves_of held.trees) (leaf held.current)
  unfolding tree_cv
  last_leaf =
      chunk_finalize-last_cv ctx message held
      ∙ ap₂ (λ (i : ℕ) (n : ℕ). last_cv chunk_end i n held.current) index (sym held.count)

  heavy_leaf : IsLeftHeavy (leaf held.current)
  unfolding IsLeftHeavy
  heavy_leaf = omega (arith, held.size, held.few, held.used)

  shape_of :
      (ts : List Tree) → held.trees ≡ ts → IsLeftHeavy (assemble (leaf held.current) held.trees)
  shape_of [] e = rw e (unfold assemble in heavy_leaf)
  shape_of (t ∷ ts) e =
      let some_chunk : 1 ≤ ctx.chunk_counter =
        omega (arith, held.count, ap leaves_of e, leaves_of-positive t ts) in
      let used = begun (omega (arith, total, some_chunk)) in
      assemble-IsLeftHeavy 0 ctx.chunk_counter (leaf held.current) held.trees held.digits heavy_leaf
        (one_leaf held.current) (some_content held.current (omega (arith, held.size, used)))
    where
      leaves_of-positive : (l : Tree) (ks : List Tree) → 1 ≤ leaves_of (l ∷ ks)
      leaves_of-positive l ks = unfold leaves_of in omega (arith, leaves-positive l)

      one_leaf : (bytes : List ℕ) → leaves (leaf bytes) ≤ 2 ^ 0
      one_leaf bytes = unfold leaves in omega arith

      some_content : (bytes : List ℕ) → 1 ≤ length bytes → 1 ≤ length (content (leaf bytes))
      some_content bytes h = unfold content in h

  -- The message is a single chunk.
  single_value : held.trees ≡ [] → blake3_final ctx ≡ tree_digest (assemble (leaf held.current) [])
  unfolding blake3_final assemble tree_digest
  single_value e =
      let empty : ctx.cv_stack ≡ [] = held.stack ∙ ap cvs e ∙ (unfold cvs in refl) in
      let none_yet : ctx.chunk_counter ≡ 0 =
        sym held.count ∙ ap leaves_of e ∙ (unfold leaves_of in refl) in
      rw empty (
        ap words_bytes (
          ap₂
            (λ (n : ℕ) (f : ℕ).
              compress_cv ctx.cv (padded_block ctx) ctx.buf_len n
                (starting ctx.blocks_compressed (bit_or (bit_or f chunk_end) root)))
            (sym none_yet) held.no_flags
          ∙ last_block_lem ctx message held (bit_or chunk_end root)
              (λ i. unfold block_flags in refl)
          ∙ ap₂ (λ (i : ℕ) (n : ℕ). last_cv (bit_or chunk_end root) i n held.current) index
              none_yet))

  joined_value :
      (l : Tree) (ts : List Tree)
      → held.trees ≡ l ∷ ts
      → blake3_final ctx ≡ tree_digest (assemble (leaf held.current) (l ∷ ts))
  unfolding blake3_final chunk_finalize
  joined_value l ts e =
      let stack : ctx.cv_stack ≡ cvs (l ∷ ts) = held.stack ∙ ap cvs e in
      let test : (length (cvs (l ∷ ts)) == 0) ≡ false = filled l ts in
      rw (stack, test)
        (ap (λ cv. words_bytes (merge_up cv (cvs (l ∷ ts))))
            (last_leaf ∙ ap (λ ks. tree_cv (leaves_of ks) (leaf held.current)) e)
          ∙ merge_up-assemble (leaf held.current) l ts)
    where
      filled : (t : Tree) (ks : List Tree) → (length (cvs (t ∷ ks)) == 0) ≡ false
      filled t ks = unfold cvs in ground arith

  value_of :
      (ts : List Tree)
      → held.trees ≡ ts
      → blake3_final ctx ≡ tree_digest (assemble (leaf held.current) held.trees)
  value_of [] e = single_value e ∙ ap (λ ts. tree_digest (assemble (leaf held.current) ts)) (sym e)
  value_of (l ∷ ts) e =
      joined_value l ts e ∙ ap (λ ks. tree_digest (assemble (leaf held.current) ks)) (sym e)

  pub blake3_final-IsDigest : IsDigest message (blake3_final ctx)
  blake3_final-IsDigest = record {
    tree = assemble (leaf held.current) held.trees;
    text = content-assemble (leaf held.current) held.trees ∙ unchanged ∙ sym held.parts;
    shape = shape_of held.trees refl;
    value = value_of held.trees refl;
  }
    where
      unchanged :
          contents held.trees ++ content (leaf held.current) ≡ contents held.trees ++ held.current
      unchanged = unfold content in refl

-- The calls of the update for the pieces of a message.
unfoldable pub blake3_updates : Context → List (List ℕ) → Option Context
blake3_updates ctx [] = some ctx
blake3_updates ctx (p ∷ ps) = Option.bind (blake3_update ctx p) (λ next. blake3_updates next ps)

abbrev pub all_bytes : List (List ℕ) → List ℕ
all_bytes [] = []
all_bytes (p ∷ ps) = p ++ all_bytes ps

updates-Begun :
    (ctx : Context) (message : List ℕ) (ps : List (List ℕ))
    → Begun ctx message
    → length message + length (all_bytes ps) < 2 ^ 64
    → (next : Context) × (blake3_updates ctx ps ≡ some next) × Begun next (message ++ all_bytes ps)
unfolding blake3_updates Option.bind
updates-Begun ctx message [] held small =
    (ctx, refl, subst (Begun ctx) (sym (append-nil message)) held)
updates-Begun ctx message (p ∷ ps) held small =
    let count = length-append p (all_bytes ps) in
    let (mid, step, begun) = pushes-Begun ctx message p held (omega (arith, count)) in
    let (next, steps, done) =
      updates-Begun mid (message ++ p) ps begun (omega (arith, count, length-append message p)) in
    (
      next,
      rw (blake3_update-pushes ctx p (held.0.room, held.0.used), step) steps,
      subst (Begun next) (append_assoc message p (all_bytes ps)) done,
    )

-- For a message of fewer than 2^64 bytes that comes in any pieces, blake3_update for each piece
-- from blake3_init on never leaves the stack, and blake3_final gives the digest of a binary tree
-- over the message: its leaves are the message's chunks in order, each of at most 1024 bytes, the
-- left side of each node is a perfect tree of whole chunks with no fewer leaves than the right
-- side, the right side is not empty, each chunk is numbered and chained by blocks of 64 bytes with
-- the flags for its start and its end, and only the last compression has the flag of the root.
pub blake3_final-blake3_updates :
    (ps : List (List ℕ))
    → length (all_bytes ps) < 2 ^ 64
    → (ctx : Context) × (blake3_updates blake3_init ps ≡ some ctx)
      × IsDigest (all_bytes ps) (blake3_final ctx)
blake3_final-blake3_updates ps small =
    let (ctx, done, (held, begun)) =
      updates-Begun blake3_init [] ps (blake3_init-Holds, λ h. absurd (omega arith))
        (omega arith) in
    (ctx, done, blake3_final-IsDigest ctx (all_bytes ps) held begun)
