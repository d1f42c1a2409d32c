-- ===== src/Blake3/Stack.antt =====
-- The stack of lib/src/uc2_blake3.c as trees (`push_cv`): one perfect tree for each binary digit of the
-- number of chunks.
use uc.Common.{
  ℕ, zero, suc, ◌+◌, ◌*◌, ◌/◌, ◌%◌, ◌^◌, ◌≤◌, ◌<◌, ◌≡◌, refl, sym, ap, ◌∙◌, List, [], ◌∷◌, ◌++◌,
  Option, some, length, arith, bit_and, append_assoc,
}
use uc.Common.Bits.{bit_and_mask}
use native.Mathlib.Nat.{pow-suc}
use uc.Blake3.Compress.{parent_cv}
use uc.Blake3.Stream.{merge_full}
use uc.Blake3.Tree.{Tree, node, leaves, content, node_cv, tree_cv, IsPerfect, two_halves}

-- Trees from the top of the stack on; the message runs from the bottom up.
unfoldable pub leaves_of : List Tree → ℕ
leaves_of [] = 0
leaves_of (t ∷ ts) = leaves_of ts + leaves t

unfoldable pub contents : List Tree → List ℕ
contents [] = []
contents (t ∷ ts) = contents ts ++ content t

unfoldable pub cvs : List Tree → List (List ℕ)
cvs [] = []
cvs (t ∷ ts) = tree_cv (leaves_of ts) t ∷ cvs ts

-- The digits of `n`, from the one of weight one on; the trees of the first digit have height `h`.
pub data Stacked : ℕ → ℕ → List Tree → Type 0 where
  bottom : (h : ℕ) → Stacked h 0 []
  even : (h n m : ℕ) (ts : List Tree) → m ≡ 2 * n → Stacked (suc h) n ts → Stacked h m ts
  odd :
      (h n m : ℕ) (t : Tree) (ts : List Tree)
      → m ≡ 2 * n + 1
      → IsPerfect h t
      → Stacked (suc h) n ts
      → Stacked h m (t ∷ ts)

-- What a push makes of the stack.
pub record Pushed (h n : ℕ) (t : Tree) (ts : List Tree) (result : Option (List (List ℕ)))
    : Type 0 where
  pub trees : List Tree
  pub same : result ≡ some (cvs trees)
  pub digits : Stacked h (n + 1) trees
  pub text : contents trees ≡ contents (t ∷ ts)
  pub count : leaves_of trees ≡ leaves_of (t ∷ ts)

even_stays :
    (fuel total : ℕ) (cv : List ℕ) (stack : List (List ℕ))
    → total % 2 ≡ 0
    → merge_full fuel total cv stack ≡ some (cv ∷ stack)
unfolding merge_full
even_stays fuel total cv [] h =
    let test : bit_and total 1 ≡ 0 = bit_and_mask 1 total ∙ h in rw test refl
even_stays zero total cv (left ∷ stack) h =
    let test : bit_and total 1 ≡ 0 = bit_and_mask 1 total ∙ h in rw test refl
even_stays (suc fuel) total cv (left ∷ stack) h =
    let test : bit_and total 1 ≡ 0 = bit_and_mask 1 total ∙ h in rw test refl

odd_merges :
    (fuel total : ℕ) (cv left : List ℕ) (stack : List (List ℕ))
    → total % 2 ≡ 1
    → merge_full (suc fuel) total cv (left ∷ stack)
      ≡ merge_full fuel (total / 2) (parent_cv left cv 0) stack
unfolding merge_full
odd_merges fuel total cv left stack h =
    let test : bit_and total 1 ≡ 1 = bit_and_mask 1 total ∙ h in rw test refl

pub merge_full-Pushed :
    (fuel h n : ℕ) (t : Tree) (ts : List Tree)
    → n < 2 ^ fuel
    → Stacked h n ts
    → IsPerfect h t
    → Pushed h n t ts (merge_full fuel n (tree_cv (leaves_of ts) t) (cvs ts))
merge_full-Pushed fuel _ _ t _ few (bottom h) perfect = record {
  trees = t ∷ [];
  same = even_stays fuel 0 (tree_cv (leaves_of []) t) (cvs []) (omega arith) ∙ (unfold cvs in refl);
  digits = odd h 0 1 t [] (omega arith) perfect (bottom (suc h));
  text = refl;
  count = refl;
}
merge_full-Pushed fuel _ _ t _ few (even h k n ts e deeper) perfect = record {
  trees = t ∷ ts;
  same =
      even_stays fuel n (tree_cv (leaves_of ts) t) (cvs ts) (omega (arith, e))
      ∙ (unfold cvs in refl);
  digits = odd h k (n + 1) t ts (omega (arith, e)) perfect deeper;
  text = refl;
  count = refl;
}
merge_full-Pushed zero _ _ t _ few (odd h k n l ts e left deeper) perfect =
    absurd (omega (arith, e))
merge_full-Pushed (suc fuel) _ _ t _ few (odd h k n l ts e left deeper) perfect =
    let half : n / 2 ≡ k = omega (arith, e) in
    let rec : Pushed (suc h) k (node l t) ts
        (merge_full fuel k (tree_cv (leaves_of ts) (node l t)) (cvs ts)) =
      merge_full-Pushed fuel (suc h) k (node l t) ts (omega (arith, e, pow-suc 2 fuel)) deeper
        (two_halves h l t left perfect) in
    record {
      trees = rec.trees;
      same =
          merges fuel n l t ts (omega (arith, e))
          ∙ ap
              (λ (m : ℕ).
                merge_full fuel m
                  (parent_cv (tree_cv (leaves_of ts) l) (tree_cv (leaves_of (l ∷ ts)) t) 0)
                  (cvs ts))
              half
          ∙ ap (λ (cv : List ℕ). merge_full fuel k cv (cvs ts)) (merged l t ts)
          ∙ rec.same;
      digits = even h (k + 1) (n + 1) rec.trees (omega (arith, e)) rec.digits;
      text = rec.text ∙ rebracket l t ts;
      count = rec.count ∙ regroup l t ts;
    }
  where
    merges :
        (fuel n : ℕ) (l t : Tree) (ts : List Tree)
        → n % 2 ≡ 1
        → merge_full (suc fuel) n (tree_cv (leaves_of (l ∷ ts)) t) (cvs (l ∷ ts))
          ≡ merge_full fuel
              (n / 2)
              (parent_cv (tree_cv (leaves_of ts) l) (tree_cv (leaves_of (l ∷ ts)) t) 0)
              (cvs ts)
    merges fuel n l t ts e =
        unfold cvs in
        odd_merges fuel n (tree_cv (leaves_of (l ∷ ts)) t) (tree_cv (leaves_of ts) l) (cvs ts) e

    merged :
        (l t : Tree) (ts : List Tree)
        → parent_cv (tree_cv (leaves_of ts) l) (tree_cv (leaves_of (l ∷ ts)) t) 0
          ≡ tree_cv (leaves_of ts) (node l t)
    merged l t ts = unfold tree_cv leaves_of node_cv parent_cv in refl

    rebracket : (l t : Tree) (ts : List Tree) → contents (node l t ∷ ts) ≡ contents (t ∷ l ∷ ts)
    rebracket l t ts =
        unfold contents content in sym (append_assoc (contents ts) (content l) (content t))

    regroup : (l t : Tree) (ts : List Tree) → leaves_of (node l t ∷ ts) ≡ leaves_of (t ∷ l ∷ ts)
    regroup l t ts = unfold leaves_of leaves in omega arith

-- The stack has a place for each digit.
pub length-cvs : (k h n : ℕ) (ts : List Tree) → Stacked h n ts → n < 2 ^ k → length (cvs ts) ≤ k
unfolding cvs
length-cvs k _ _ _ (bottom h) few = omega arith
length-cvs zero _ _ _ (even h m n ts e deeper) few =
    length-cvs zero (suc h) m ts deeper (omega (arith, e))
length-cvs (suc k) _ _ _ (even h m n ts e deeper) few =
    omega (arith, length-cvs k (suc h) m ts deeper (omega (arith, e, pow-suc 2 k)))
length-cvs zero _ _ _ (odd h m n t ts e left deeper) few = absurd (omega (arith, e))
length-cvs (suc k) _ _ _ (odd h m n t ts e left deeper) few =
    omega (arith, length-cvs k (suc h) m ts deeper (omega (arith, e, pow-suc 2 k)))
