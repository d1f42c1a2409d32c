-- ===== src/Blake3/Shape.antt =====
-- The tree that the end of a stream of BLAKE3 (lib/src/uc2_blake3.c) makes of the stack.
use uc.Common.{
  ℕ, suc, ◌+◌, ◌*◌, ◌^◌, ◌≤◌, ◌≡◌, refl, sym, ap, ◌∙◌, List, [], ◌∷◌, ◌++◌, length, arith,
  append_assoc, length-append,
}
use native.Mathlib.Nat.{pow-suc}
use uc.Blake3.Compress.{parent_cv, root, words_bytes}
use uc.Blake3.Stream.{merge_up}
use uc.Blake3.Tree.{
  Tree, node, leaves, content, node_cv, tree_cv, tree_digest, IsPerfect, one_chunk, two_halves,
  IsLeftHeavy,
}
use uc.Blake3.Stack.{leaves_of, contents, cvs, Stacked, bottom, even, odd}

-- The trees of the stack joined with the last one, as the end of a stream joins them.
unfoldable pub assemble : Tree → List Tree → Tree
assemble t [] = t
assemble t (l ∷ ts) = assemble (node l t) ts

pub content-assemble :
    (t : Tree) (ts : List Tree) → content (assemble t ts) ≡ contents ts ++ content t
unfolding assemble contents content
content-assemble t [] = refl
content-assemble t (l ∷ ts) =
    content-assemble (node l t) ts ∙ sym (append_assoc (contents ts) (content l) (content t))

joined_cv :
    (t l : Tree) (ts : List Tree)
    → parent_cv (tree_cv (leaves_of ts) l) (tree_cv (leaves_of (l ∷ ts)) t) 0
      ≡ tree_cv (leaves_of ts) (node l t)
unfolding tree_cv leaves_of node_cv parent_cv
joined_cv t l ts = refl

at_bottom :
    (t l : Tree)
    → words_bytes (merge_up (tree_cv (leaves_of (l ∷ [])) t) (cvs (l ∷ [])))
      ≡ tree_digest (node l t)
unfolding merge_up cvs leaves_of tree_digest node_cv parent_cv
at_bottom t l =
    ap (λ (n : ℕ). words_bytes (parent_cv (tree_cv 0 l) (tree_cv n t) root)) {x = 0 + leaves l}
      {y = leaves l} (omega arith)

one_up :
    (t l k : Tree) (ts : List Tree)
    → merge_up (tree_cv (leaves_of (l ∷ k ∷ ts)) t) (cvs (l ∷ k ∷ ts))
      ≡ merge_up
          (parent_cv (tree_cv (leaves_of (k ∷ ts)) l) (tree_cv (leaves_of (l ∷ k ∷ ts)) t) 0)
          (cvs (k ∷ ts))
unfolding merge_up cvs
one_up t l k ts = refl

pub merge_up-assemble :
    (t l : Tree) (ts : List Tree)
    → words_bytes (merge_up (tree_cv (leaves_of (l ∷ ts)) t) (cvs (l ∷ ts)))
      ≡ tree_digest (assemble t (l ∷ ts))
unfolding assemble
merge_up-assemble t l [] = at_bottom t l
merge_up-assemble t l (k ∷ ts) =
    ap words_bytes (one_up t l k ts)
    ∙ ap (λ cv. words_bytes (merge_up cv (cvs (k ∷ ts)))) (joined_cv t l (k ∷ ts))
    ∙ merge_up-assemble (node l t) k ts

leaves-IsPerfect : (h : ℕ) (t : Tree) → IsPerfect h t → leaves t ≡ 2 ^ h
unfolding leaves
leaves-IsPerfect _ _ (one_chunk bytes size) = refl
leaves-IsPerfect _ _ (two_halves h l r p q) =
    omega (arith, leaves-IsPerfect h l p, leaves-IsPerfect h r q, pow-suc 2 h)

pub content-IsPerfect : (h : ℕ) (t : Tree) → IsPerfect h t → length (content t) ≡ 1024 * leaves t
unfolding leaves content
content-IsPerfect _ _ (one_chunk bytes size) = size
content-IsPerfect _ _ (two_halves h l r p q) =
    omega (
      arith,
      content-IsPerfect h l p,
      content-IsPerfect h r q,
      length-append (content l) (content r),
    )

pub assemble-IsLeftHeavy :
    (h n : ℕ) (t : Tree) (ts : List Tree)
    → Stacked h n ts
    → IsLeftHeavy t
    → leaves t ≤ 2 ^ h
    → 1 ≤ length (content t)
    → IsLeftHeavy (assemble t ts)
unfolding assemble
assemble-IsLeftHeavy _ _ t _ (bottom h) heavy small some_bytes = heavy
assemble-IsLeftHeavy _ _ t _ (even h m n ts e deeper) heavy small some_bytes =
    assemble-IsLeftHeavy (suc h) m t ts deeper heavy (omega (arith, pow-suc 2 h)) some_bytes
assemble-IsLeftHeavy _ _ t _ (odd h m n l ts e left deeper) heavy small some_bytes =
    assemble-IsLeftHeavy (suc h) m (node l t) ts deeper
      (joined_heavy h l t left heavy small some_bytes) (wide h l t left small)
      (longer l t some_bytes)
  where
    joined_heavy :
        (h : ℕ) (l t : Tree)
        → IsPerfect h l
        → IsLeftHeavy t
        → leaves t ≤ 2 ^ h
        → 1 ≤ length (content t)
        → IsLeftHeavy (node l t)
    joined_heavy h l t left heavy small some_bytes =
        unfold IsLeftHeavy in
        ((h, left), omega (arith, leaves-IsPerfect h l left), some_bytes, heavy)

    wide : (h : ℕ) (l t : Tree) → IsPerfect h l → leaves t ≤ 2 ^ h → leaves (node l t) ≤ 2 ^ suc h
    wide h l t left small = unfold leaves in omega (arith, leaves-IsPerfect h l left, pow-suc 2 h)

    longer : (l t : Tree) → 1 ≤ length (content t) → 1 ≤ length (content (node l t))
    longer l t some_bytes = unfold content in omega (arith, length-append (content l) (content t))
