-- ===== src/Delta/Match.antt =====
-- The matches that `uc2_delta_encode` takes, lib/src/uc2_delta.c.
use uc.Common.{
  ℕ, suc, ◌+◌, ◌≤◌, ◌<◌, ◌≡◌, ◌∙◌, ap, ap₂, sym, Bool-cases, inl, inr, ◌==◌, ==_iff, List, [], ◌∷◌,
  ◌++◌, true, some, length, drop, slice, arith, length-drop,
}
use mathlib.Core.Option
use uc.Common.Words.{byte_at, same_bytes, same_bytes-take, slice-byte_at, drop-eq-cons}
use uc.Delta.Encode.{Table, extend_match, try_match, find_match, window}

-- `len` bytes from `spos` and from `tpos` agree.
pub record IsMatch (src : List ℕ) (spos : ℕ) (tgt : List ℕ) (tpos len : ℕ) : Type 0 where
  pub in_source : spos + len ≤ length src
  pub in_target : tpos + len ≤ length tgt
  pub agrees : slice src spos len ≡ slice tgt tpos len

-- The first of the bytes that lie behind a position.
front_of :
    (bytes : List ℕ) (at len x : ℕ) (xs : List ℕ)
    → x ∷ xs ≡ drop (at + len) bytes
    → (at + len < length bytes)
      × (x ≡ byte_at bytes (at + len))
      × (xs ≡ drop (at + (len + 1)) bytes)
front_of bytes at len x xs p =
    let inside : at + len < length bytes =
      omega (arith, ap length p, length-drop (at + len) bytes) in
    let parts = p ∙ drop-eq-cons bytes (at + len) inside in
    (
      inside,
      ap (λ t. byte_at t 0) parts,
      ap (drop 1) parts
          ∙ ap (λ (k : ℕ). drop k bytes) {x = suc (at + len)} {y = at + (len + 1)} (omega arith),
    )

module _ (src : List ℕ) (spos : ℕ) (tgt : List ℕ) (tpos : ℕ) where
  longer :
      (len : ℕ)
      → IsMatch src spos tgt tpos len
      → spos + len < length src
      → tpos + len < length tgt
      → byte_at src (spos + len) ≡ byte_at tgt (tpos + len)
      → IsMatch src spos tgt tpos (len + 1)
  longer len m p q e = record {
    in_source = omega arith;
    in_target = omega arith;
    agrees =
        slice-byte_at src spos len p
        ∙ ap₂ (λ xs b. xs ++ (b ∷ [])) m.agrees e
        ∙ sym (slice-byte_at tgt tpos len q);
  }

  extend_match-IsMatch :
      (xs ys : List ℕ) (len : ℕ)
      → IsMatch src spos tgt tpos len
      → xs ≡ drop (spos + len) src
      → ys ≡ drop (tpos + len) tgt
      → IsMatch src spos tgt tpos (extend_match xs ys len)
  unfolding extend_match
  extend_match-IsMatch xs [] len m p q = m
  extend_match-IsMatch [] (y ∷ ys) len m p q = m
  extend_match-IsMatch (x ∷ xs) (y ∷ ys) len m p q = elim (Bool-cases (x == y)) [
    | inr differ ↦ rw differ m
    | inl same ↦
        let (in_src, front, rest) = front_of src spos len x xs p in
        let (in_tgt, front', rest') = front_of tgt tpos len y ys q in
        rw same (
          extend_match-IsMatch xs ys (len + 1)
            (longer len m in_src in_tgt (sym front ∙ (==_iff x y).0 same ∙ front')) rest rest')
  ]

module _ (src tgt : List ℕ) (tpos : ℕ) (room : tpos + window ≤ length tgt) where
  first_bytes :
      (spos : ℕ)
      → spos + window ≤ length src
      → same_bytes window (drop spos src) (drop tpos tgt) ≡ true
      → IsMatch src spos tgt tpos window
  first_bytes spos p e = record {
    in_source = p;
    in_target = room;
    agrees =
        same_bytes-take window (drop spos src) (drop tpos tgt) (omega (arith, length-drop spos src))
          (omega (arith, length-drop tpos tgt)) e;
  }

  try_match-IsMatch :
      (spos spos' len : ℕ)
      → try_match src tgt tpos spos ≡ some (spos', len)
      → IsMatch src spos' tgt tpos len × (8 ≤ len)
  unfolding try_match
  try_match-IsMatch spos spos' len e = ground (
    arith,
    first_bytes spos,
    extend_match-IsMatch src spos tgt tpos (drop (spos + window) src) (drop (tpos + window) tgt)
        window,
  )

  -- A match that is taken is real and moves the scan on.
  pub find_match-IsMatch :
      (htab : Table) (spos len : ℕ)
      → find_match src tgt htab tpos ≡ some (spos, len)
      → IsMatch src spos tgt tpos len × (8 ≤ len)
  unfolding find_match
  find_match-IsMatch htab spos len e =
      let (found, _, taken) = (Option.bind-eq-some_iff (htab _) (try_match src tgt tpos)).0 e in
      try_match-IsMatch found spos len taken
