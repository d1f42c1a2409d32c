-- ===== src/Blake3/Laws.antt =====
-- The context of BLAKE3 after some bytes (lib/src/uc2_blake3.c), and one byte more.
use uc.Common.{
  ℕ, zero, suc, ◌+◌, ◌-◌, ◌*◌, ◌^◌, ◌≤◌, ◌<◌, ◌≡◌, refl, sym, ap, ap₂, ◌∙◌, List, [], ◌∷◌, ◌++◌,
  some, length, take, drop, replicate, copied, arith, ltb, append_assoc, append-nil, length-append,
  length-copied, take-copied, take_all, take-prefix, drop-prefix, length-drop, false, bit_or,
  le→ltb_false, drop_all,
}
use mathlib.Core.Path.{subst}
use uc.Common.Words.{u8, u64}
use uc.Blake3.Compress.{chunk_end, compress_cv}
use uc.Blake3.Stream.{
  Context, starting, chunk_block, chunk_finalize, padded_block, push_cv, merge_full, next_chunk,
  take_bytes,
}
use uc.Blake3.Tree.{
  Tree, leaf, leaves, content, block_flags, chain, last_cv, last_index, tree_cv, one_chunk,
}
use uc.Blake3.Stack.{leaves_of, contents, cvs, Stacked, Pushed, merge_full-Pushed, length-cvs}
use mathlib.Core.Option

-- The context has taken `message`: whole chunks, which are in the stack, and the bytes of another one,
-- whose whole blocks are in the chaining value and whose rest is in the buffer.
pub record Holds (ctx : Context) (message : List ℕ) : Type 0 where
  pub trees : List Tree
  pub current : List ℕ
  pub parts : message ≡ contents trees ++ current
  pub digits : Stacked 0 ctx.chunk_counter trees
  pub count : leaves_of trees ≡ ctx.chunk_counter
  pub whole : length (contents trees) ≡ 1024 * ctx.chunk_counter
  pub stack : ctx.cv_stack ≡ cvs trees
  pub no_flags : ctx.flags ≡ 0
  pub few : ctx.blocks_compressed ≤ 15
  pub state : ctx.cv ≡ chain ctx.blocks_compressed ctx.chunk_counter current
  pub size : length current ≡ 64 * ctx.blocks_compressed + ctx.buf_len
  pub rest : take ctx.buf_len ctx.buf ≡ drop (64 * ctx.blocks_compressed) current
  pub room : length ctx.buf ≡ 64
  pub used : ctx.buf_len ≤ 64

chain-suc :
    (i number : ℕ) (bytes : List ℕ)
    → chain (suc i) number bytes
      ≡ compress_cv (chain i number bytes) (take 64 (drop (64 * i) bytes)) 64 number (starting i 0)
unfolding chain block_flags
chain-suc i number bytes = refl

chain-append :
    (i number : ℕ) (xs ys : List ℕ)
    → 64 * i ≤ length xs
    → chain i number (xs ++ ys) ≡ chain i number xs
unfolding chain
chain-append zero number xs ys h = refl
chain-append (suc i) number xs ys h =
    ap₂ (λ (cv : List ℕ) (b : List ℕ). compress_cv cv b 64 number (block_flags i 0))
      (chain-append i number xs ys (omega arith))
      (ap (take 64) (drop-prefix (64 * i) xs ys (omega arith))
        ∙ take-prefix 64 (drop (64 * i) xs) ys (omega (arith, length-drop (64 * i) xs)))

-- A byte for which the buffer has room.
pub take_byte :
    (ctx : Context) (message : List ℕ) (x : ℕ)
    → Holds ctx message
    → ctx.buf_len < 64
    → Holds (take_bytes ctx (x ∷ [])) (message ++ (x ∷ []))
take_byte ctx message x held small =
    let one_more : u8 (ctx.buf_len + u8 1) ≡ ctx.buf_len + 1 = omega arith in
    let fits : ctx.buf_len + 1 ≤ length ctx.buf = omega (arith, held.room) in
    record {
      trees = held.trees;
      current = held.current ++ (x ∷ []);
      parts =
          ap (λ t. t ++ (x ∷ [])) held.parts
          ∙ append_assoc (contents held.trees) held.current (x ∷ []);
      digits = held.digits;
      count = held.count;
      whole = held.whole;
      stack = held.stack;
      no_flags = held.no_flags;
      few = held.few;
      state =
          held.state
          ∙ sym (
              chain-append ctx.blocks_compressed ctx.chunk_counter held.current (x ∷ [])
                (omega (arith, held.size)));
      size = omega (arith, length-append held.current (x ∷ []), held.size, one_more);
      rest =
          ap (λ (n : ℕ). take n (copied ctx.buf ctx.buf_len (x ∷ []))) one_more
          ∙ take-copied ctx.buf (x ∷ []) ctx.buf_len fits
          ∙ ap (λ t. t ++ (x ∷ [])) held.rest
          ∙ sym (
              drop-prefix (64 * ctx.blocks_compressed) held.current (x ∷ [])
                (omega (arith, held.size)));
      room = length-copied ctx.buf (x ∷ []) ctx.buf_len fits ∙ held.room;
      used = omega (arith, one_more);
    }

-- A whole block that is not the last one of its chunk.
pub block_done :
    (ctx : Context) (message : List ℕ)
    → Holds ctx message
    → ctx.buf_len ≡ 64
    → ctx.blocks_compressed < 15
    → Holds (record (chunk_block ctx) { buf_len = 0 }) message
unfolding chunk_block
block_done ctx message held full more =
    let i = ctx.blocks_compressed in
    let next : u8 (i + 1) ≡ suc i = omega (arith, more) in
    let block : ctx.buf ≡ take 64 (drop (64 * i) held.current) =
      sym (take_all ctx.buf_len ctx.buf (omega (arith, held.room, full)))
      ∙ held.rest
      ∙ sym (
          take_all 64 (drop (64 * i) held.current)
            (omega (arith, length-drop (64 * i) held.current, held.size, full))) in
    record {
      trees = held.trees;
      current = held.current;
      parts = held.parts;
      digits = held.digits;
      count = held.count;
      whole = held.whole;
      stack = held.stack;
      no_flags = held.no_flags;
      few = omega (arith, next, more);
      state =
          ap (λ (f : ℕ). compress_cv ctx.cv ctx.buf 64 ctx.chunk_counter (starting i f))
            held.no_flags
          ∙ ap₂ (λ (cv : List ℕ) (b : List ℕ). compress_cv cv b 64 ctx.chunk_counter (starting i 0))
              held.state block
          ∙ sym (chain-suc i ctx.chunk_counter held.current)
          ∙ ap (λ (n : ℕ). chain n ctx.chunk_counter held.current) (sym next);
      size = omega (arith, held.size, full, next);
      rest = sym (drop_all (64 * u8 (i + 1)) held.current (omega (arith, held.size, full, next)));
      room = held.room;
      used = omega arith;
    }

-- The last block of a chunk, with the flags of its kind.
pub last_block_lem :
    (ctx : Context) (message : List ℕ) (held : Holds ctx message) (flags : ℕ)
    → ((i : ℕ) → starting i flags ≡ block_flags i flags)
    → compress_cv ctx.cv
        (padded_block ctx)
        ctx.buf_len
        ctx.chunk_counter
        (starting ctx.blocks_compressed flags)
      ≡ last_cv flags ctx.blocks_compressed ctx.chunk_counter held.current
unfolding last_cv
last_block_lem ctx message held flags same =
    let i = ctx.blocks_compressed in
    let tail = drop (64 * i) held.current in
    let size : ctx.buf_len ≡ length tail =
      omega (arith, length-drop (64 * i) held.current, held.size) in
    ap₂
      (λ (cv : List ℕ) (b : List ℕ).
        compress_cv cv (b ++ replicate (64 - ctx.buf_len) 0) ctx.buf_len ctx.chunk_counter
          (starting i flags))
      held.state held.rest
    ∙ ap₂
        (λ (n f : ℕ).
          compress_cv (chain i ctx.chunk_counter held.current) (tail ++ replicate (64 - n) 0) n
            ctx.chunk_counter f)
        size (same i)

pub chunk_finalize-last_cv :
    (ctx : Context) (message : List ℕ) (held : Holds ctx message)
    → chunk_finalize ctx ≡ last_cv chunk_end ctx.blocks_compressed ctx.chunk_counter held.current
unfolding chunk_finalize
chunk_finalize-last_cv ctx message held =
    ap
      (λ (f : ℕ).
        compress_cv ctx.cv (padded_block ctx) ctx.buf_len ctx.chunk_counter
          (starting ctx.blocks_compressed (bit_or f chunk_end)))
      held.no_flags
    ∙ last_block_lem ctx message held chunk_end (λ i. unfold block_flags in refl)

-- A chunk that is complete goes to the stack.
module _ (ctx : Context) (message : List ℕ) (held : Holds ctx message) (full : ctx.buf_len ≡ 64)
    (last : ctx.blocks_compressed ≡ 15) (small : length message < 2 ^ 64) where
  chunk_size : length held.current ≡ 1024
  chunk_size = omega (arith, held.size, full, last)

  counted : length message ≡ 1024 * (ctx.chunk_counter + 1)
  counted = omega (
    arith,
    ap length held.parts,
    length-append (contents held.trees) held.current,
    held.whole,
    chunk_size,
  )

  chunk_cv : chunk_finalize ctx ≡ tree_cv (leaves_of held.trees) (leaf held.current)
  unfolding tree_cv
  chunk_cv =
      let index : ctx.blocks_compressed ≡ last_index (length held.current) =
        omega (arith, last, chunk_size) in
      chunk_finalize-last_cv ctx message held
      ∙ ap₂ (λ (i : ℕ) (n : ℕ). last_cv chunk_end i n held.current) index (sym held.count)

  abbrev pushed : Pushed 0 ctx.chunk_counter (leaf held.current) held.trees (
      merge_full 64 ctx.chunk_counter
        (tree_cv (leaves_of held.trees) (leaf held.current))
        (cvs held.trees))
  pushed =
      merge_full-Pushed 64 0 ctx.chunk_counter (leaf held.current) held.trees
        (omega (arith, counted)) held.digits (one_chunk held.current chunk_size)

  stacked : push_cv ctx (chunk_finalize ctx) ≡ some (record ctx { cv_stack = cvs pushed.trees })
  unfolding push_cv Option.bind
  stacked =
      let depth : ltb 54 (length (cvs pushed.trees)) ≡ false =
        le→ltb_false 54 (length (cvs pushed.trees)) (
          length-cvs 54 0 (ctx.chunk_counter + 1) pushed.trees pushed.digits
            (omega (arith, counted))) in
      rw (chunk_cv, held.stack, pushed.same, depth) refl

  chunk_done : Holds (next_chunk (record ctx { cv_stack = cvs pushed.trees })) message
  chunk_done =
      let next : u64 (ctx.chunk_counter + 1) ≡ ctx.chunk_counter + 1 = omega (arith, counted) in
      record {
        trees = pushed.trees;
        current = [];
        parts = held.parts ∙ text ∙ sym (append-nil (contents pushed.trees));
        digits = subst (λ (n : ℕ). Stacked 0 n pushed.trees) (sym next) pushed.digits;
        count = pushed.count ∙ one_more ∙ sym next;
        whole = omega (arith, ap length (held.parts ∙ text), counted, next);
        stack = refl;
        no_flags = held.no_flags;
        few = omega arith;
        state = unfold chain in refl;
        size = refl;
        rest = refl;
        room = held.room;
        used = omega arith;
      }
    where
      text : contents held.trees ++ held.current ≡ contents pushed.trees
      text = opened ∙ sym pushed.text
        where
          opened : contents held.trees ++ held.current ≡ contents (leaf held.current ∷ held.trees)
          opened = unfold contents content in refl

      one_more : leaves_of (leaf held.current ∷ held.trees) ≡ ctx.chunk_counter + 1
      one_more = unfold leaves_of leaves in omega (arith, held.count)

  pub chunk_pushed :
      (next : Context) × (push_cv ctx (chunk_finalize ctx) ≡ some next)
      × Holds (next_chunk next) message
  chunk_pushed = (record ctx { cv_stack = cvs pushed.trees }, stacked, chunk_done)
