-- ===== src/Lz4/Matches.antt =====
-- The matches that the encoder finds, and the copies of the decoder (lib/src/uc2_lz4.c).
use uc.Common.{
  ℕ, zero, suc, ◌+◌, ◌-◌, ◌≤◌, ◌<◌, ◌≡◌, refl, sym, ap, ap₂, ◌∙◌, List, [], ◌∷◌, ◌++◌, length, take,
  drop, arith, Bool-cases, inl, inr, ltb, leb, ◌==◌, ◌&&◌, Option, some, none, leb→le, true, false,
  ltb→lt, ==_iff, take-add, length-take, ltb_false→le,
}
use mathlib.Core.Path.{subst}
use uc.Common.Words.{byte_at, same_bytes, byte_at-drop, take-byte_at}
use uc.Lz4.Decode.{copy_back}
use uc.Lz4.Encode.{Table, lz4_hash, put, find_match, extend_match}

same_bytes-byte_at :
    (n : ℕ) (xs ys : List ℕ)
    → same_bytes n xs ys ≡ true
    → (k : ℕ) → k < n
    → byte_at xs k ≡ byte_at ys k
unfolding same_bytes
same_bytes-byte_at zero xs ys h k l = absurd (omega arith)
same_bytes-byte_at (suc n) xs ys h zero l = (==_iff (byte_at xs 0) (byte_at ys 0)).0 (both.0)
  where
    both : (byte_at xs 0 == byte_at ys 0) ≡ true × same_bytes n (drop 1 xs) (drop 1 ys) ≡ true
    both = ground arith
same_bytes-byte_at (suc n) xs ys h (suc k) l =
    next xs
    ∙ same_bytes-byte_at n (drop 1 xs) (drop 1 ys) (ground arith) k (omega arith)
    ∙ sym (next ys)
  where
    next : (zs : List ℕ) → byte_at zs (suc k) ≡ byte_at (drop 1 zs) k
    next [] = refl
    next (z ∷ zs) = refl

module _ (src : List ℕ) where
  -- `n` bytes from `ref` on are those from `ip` on.
  abbrev pub Same : ℕ → ℕ → ℕ → Type 0
  Same ref ip n = (k : ℕ) → k < n → byte_at src (ref + k) ≡ byte_at src (ip + k)

  pub record IsMatch (from ref at : ℕ) : Type 0 where
    pub later : from ≤ at
    pub inside : at + 12 ≤ length src
    pub earlier : ref < at
    pub near : at - ref ≤ 65535
    pub same : Same ref at 4

  hit-IsMatch :
      (ref ip : ℕ)
      → 12 ≤ length src
      → ltb (length src - 12) ip ≡ false
      → (ltb ref ip && leb (ip - ref) 65535 && same_bytes 4 (drop ref src) (drop ip src)) ≡ true
      → IsMatch ip ref ip
  hit-IsMatch ref ip size inside hit = record {
    later = omega arith;
    inside = omega (arith, ltb_false→le (length src - 12) ip inside);
    earlier = ltb→lt ref ip parts.0;
    near = leb→le (ip - ref) 65535 parts.1;
    same = λ k l.
        sym (byte_at-drop src ref k)
        ∙ same_bytes-byte_at 4 (drop ref src) (drop ip src) parts.2 k l
        ∙ byte_at-drop src ip k;
  }
    where
      split : (a b c : _) → (a && b && c) ≡ true → (a ≡ true) × (b ≡ true) × (c ≡ true)
      split true true true h = (refl, refl, refl)
      split true true false h = cc
      split true false c h = cc
      split false b c h = cc

      parts :
          (ltb ref ip ≡ true)
          × (leb (ip - ref) 65535 ≡ true)
          × (same_bytes 4 (drop ref src) (drop ip src) ≡ true)
      parts = split _ _ _ hit

  pub find_match-IsMatch :
      (fuel : ℕ) (htab htab' : Table) (ip ref at : ℕ)
      → 12 ≤ length src
      → find_match src fuel htab ip ≡ some (htab', ref, at)
      → IsMatch ip ref at
  unfolding find_match
  find_match-IsMatch zero htab htab' ip ref at size h = cc
  find_match-IsMatch (suc fuel) htab htab' ip ref at size h =
      elim (Bool-cases (ltb (length src - 12) ip)) [
        | inl out ↦ absurd (none_lem (rw out at h))
        | inr inside ↦
            elim (Bool-cases (
              ltb place ip
              && leb (ip - place) 65535
              && same_bytes 4 (drop place src) (drop ip src))) [
                | inl hit ↦ found inside hit (rw (inside, hit) at h)
                | inr miss ↦
                    let rest =
                      find_match-IsMatch fuel (put htab (lz4_hash (drop ip src)) ip) htab' (ip + 1)
                        ref at size (rw (inside, miss) at h) in
                    record {
                      later = omega (arith, rest.later);
                      inside = rest.inside;
                      earlier = rest.earlier;
                      near = rest.near;
                      same = rest.same;
                    }
              ]
      ]
    where
      place : ℕ
      place = htab (lz4_hash (drop ip src))

      none_lem : ◌≡◌ {A = Option (Table × ℕ × ℕ)} none (some (htab', ref, at)) → ⊥
      none_lem e = cc

      found :
          ltb (length src - 12) ip ≡ false
          → (ltb place ip && leb (ip - place) 65535 && same_bytes 4 (drop place src) (drop ip src))
            ≡ true
          → ◌≡◌ {A = Option (Table × ℕ × ℕ)}
              (some (put htab (lz4_hash (drop ip src)) ip, place, ip))
              (some (htab', ref, at))
          → IsMatch ip ref at
      found inside hit e =
          let one : place ≡ ref = cc in
          let two : ip ≡ at = cc in
          subst (λ r. IsMatch ip r at) one
            (subst (λ a. IsMatch ip place a) two (hit-IsMatch place ip size inside hit))

  pub extend_match_bounds :
      (fuel ref ip len : ℕ)
      → len ≤ length src - ip - 5
      → Same ref ip len
      → (len ≤ extend_match src fuel ref ip len)
        × (extend_match src fuel ref ip len ≤ length src - ip - 5)
        × Same ref ip (extend_match src fuel ref ip len)
  unfolding extend_match
  extend_match_bounds zero ref ip len h same = (omega arith, h, same)
  extend_match_bounds (suc fuel) ref ip len h same =
      elim (Bool-cases
        (ltb len (length src - ip - 5) && byte_at src (ref + len) == byte_at src (ip + len))) [
          | inl more ↦
              let one : byte_at src (ref + len) ≡ byte_at src (ip + len) = ground arith in
              let (lower, upper, rest) =
                extend_match_bounds fuel ref ip (len + 1) (ground arith) (longer one) in
              rw more (omega (arith, lower), upper, rest)
          | inr less ↦ rw less (omega arith, h, same)
        ]
    where
      longer : byte_at src (ref + len) ≡ byte_at src (ip + len) → Same ref ip (len + 1)
      longer one k l = elim (Bool-cases (ltb k len)) [
        | inl below ↦ same k (ltb→lt k len below)
        | inr last ↦
            let e : len ≡ k = omega (arith, ltb_false→le k len last) in
            ap (λ (t : ℕ). byte_at src (ref + t)) (sym e)
            ∙ one
            ∙ ap (λ (t : ℕ). byte_at src (ip + t)) e
      ]

  byte_at-take : (xs : List ℕ) (n k : ℕ) → k < n → byte_at (take n xs) k ≡ byte_at xs k
  byte_at-take xs zero k h = absurd (omega arith)
  byte_at-take [] (suc n) k h = refl
  byte_at-take (x ∷ xs) (suc n) zero h = refl
  byte_at-take (x ∷ xs) (suc n) (suc k) h = byte_at-take xs n k (omega arith)

  -- The copy of a match writes the next bytes of the source, overlapping or not.
  pub copy_back_lem :
      (len ref ip : ℕ)
      → ref < ip
      → ip + len ≤ length src
      → Same ref ip len
      → copy_back len (ip - ref) (take ip src) ≡ take (ip + len) src
  unfolding copy_back
  copy_back_lem zero ref ip h k same =
      ap (λ (n : ℕ). take n src) {x = ip} {y = ip + 0} (omega arith)
  copy_back_lem (suc len) ref ip h k same =
      let size : length (take ip src) ≡ ip = omega (arith, length-take ip src) in
      let place : length (take ip src) - (ip - ref) ≡ ref = omega (arith, size) in
      let byte : byte_at (take ip src) (length (take ip src) - (ip - ref)) ≡ byte_at src ip =
        ap (byte_at (take ip src)) place
        ∙ byte_at-take src ip ref h
        ∙ ap (byte_at src) {x = ref} {y = ref + 0} (omega arith)
        ∙ same 0 (omega arith)
        ∙ ap (byte_at src) {x = ip + 0} {y = ip} (omega arith) in
      let longer : take ip src ++ (byte_at src ip ∷ []) ≡ take (ip + 1) src =
        ap (λ t. take ip src ++ t) (sym (take-byte_at src ip (omega arith)))
        ∙ sym (take-add ip 1 src) in
      ap₂ (λ (d : ℕ) (t : List ℕ). copy_back len d t) {x = ip - ref} {y = ip + 1 - (ref + 1)}
        (omega arith) (ap (λ b. take ip src ++ (b ∷ [])) byte ∙ longer)
      ∙ copy_back_lem len (ref + 1) (ip + 1) (omega arith) (omega arith) (λ j l.
        ap (byte_at src) {x = ref + 1 + j} {y = ref + (suc j)} (omega arith)
        ∙ same (suc j) (omega arith)
        ∙ ap (byte_at src) {x = ip + (suc j)} {y = ip + 1 + j} (omega arith))
      ∙ ap (λ (n : ℕ). take n src) {x = ip + 1 + len} {y = ip + suc len} (omega arith)
