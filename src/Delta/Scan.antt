-- ===== src/Delta/Scan.antt =====
-- The scan of `uc2_delta_encode` and the instructions that it has written, lib/src/uc2_delta.c.
use uc.Common.{
  ℕ, zero, suc, ◌+◌, ◌-◌, ◌*◌, ◌^◌, ◌≤◌, ◌<◌, ◌≡◌, refl, ap, sym, List, [], ◌∷◌, ◌++◌, Bool, false,
  ◌&&◌, Option, none, some, ltb, leb, length, take, slice, arith, append_assoc, append-nil,
  length-append, All, All-append, take-add, length-slice, Bool-cases, inl, inr,
}
use mathlib.Core.Path.{subst, subst₂}
use uc.Common.Result.{Result, ok, >>=-eq-ok}
use uc.Common.Words.{u32, bytes32, length-bytes32, length-bytes32_append}
use uc.Delta.Obuf.{Failure, Obuf, emit_insert, emit_copy}
use uc.Delta.Encode.{
  Table, find_match, header, window, Scan, flush_insert, take_match, skip_byte, follow, scan_step,
  scan,
}
use uc.Delta.Instr.{
  Instr, copy, insert, code, codes, text, texts, IsEncodable, codes-append, texts-append,
}
use uc.Delta.Emit.{emit_copy-code, emit_insert-code}
use uc.Delta.Match.{IsMatch, find_match-IsMatch}

-- The output holds the header and the instructions `is`, which write the first `at` bytes.
pub record Written (src tgt : List ℕ) (o : Obuf) (is : List Instr) (at : ℕ) : Type 0 where
  pub bytes : o.bytes ≡ header (length tgt) ++ codes is
  pub encodable : All (IsEncodable src) is
  pub prefix : texts src is ≡ take at tgt
  pub small : length (codes is) ≤ 9 * at

module _ (alloc : ℕ → Bool) (src tgt : List ℕ) (src_fits : length src < 2 ^ 31)
    (tgt_fits : length tgt < 2 ^ 32) where
  -- One more instruction.
  add_instr :
      (o o' : Obuf) (is : List Instr) (at n : ℕ) (i : Instr)
      → Written src tgt o is at
      → IsEncodable src i
      → o'.bytes ≡ o.bytes ++ code i
      → text src i ≡ slice tgt at n
      → length (code i) ≤ 9 * n
      → Written src tgt o' (is ++ (i ∷ [])) (at + n)
  unfolding codes texts
  add_instr o o' is at n i w h b t small = record {
    bytes = rw (b, w.bytes, codes-append, append-nil, append_assoc) refl;
    encodable = All-append (IsEncodable src) is (i ∷ []) w.encodable (h, tt);
    prefix = rw (texts-append, w.prefix, append-nil, t) (sym (take-add at n tgt));
    small =
        rw (codes-append, append-nil) (omega (arith, length-append (codes is) (code i), w.small));
  }

  pub insert_slice :
      (o o' : Obuf) (is : List Instr) (at n : ℕ)
      → Written src tgt o is at
      → at + n ≤ length tgt
      → 1 ≤ n
      → emit_insert alloc o (slice tgt at n) ≡ ok o'
      → Written src tgt o' (is ++ (insert (slice tgt at n) ∷ [])) (at + n)
  unfolding text code
  insert_slice o o' is at n w room some_bytes e =
      let xs = slice tgt at n in
      let len : length xs ≡ n = length-slice tgt at n room in
      add_instr o o' is at n (insert xs) w (omega (arith, len)) (emit_insert-code alloc o xs o' e)
        refl (omega (arith, len, length-bytes32_append (length xs) xs))

  pub copy_match :
      (o o' : Obuf) (is : List Instr) (at spos len : ℕ)
      → Written src tgt o is at
      → IsMatch src spos tgt at len
      → 8 ≤ len
      → emit_copy alloc o (u32 spos) (u32 len) ≡ ok o'
      → Written src tgt o' (is ++ (copy spos len ∷ [])) (at + len)
  unfolding text code
  copy_match o o' is at spos len w m long e =
      let here : u32 spos ≡ spos = omega (arith, m) in
      let there : u32 len ≡ len = omega (arith, m) in
      add_instr o o' is at len (copy spos len) w (omega (arith, m))
        (emit_copy-code alloc o spos len o' (rw (here, there) at e)) m.agrees
        (omega (arith, length-bytes32_append spos (bytes32 len), length-bytes32 len))

  -- The state of the scan: what lies before the pending insert is written.
  pub record IsScanning (s : Scan) (is : List Instr) : Type 0 where
    pub written : Written src tgt s.out is s.insert_start
    pub ordered : s.insert_start ≤ s.tpos
    pub inside : s.tpos ≤ length tgt
    pub settled : s.in_insert ≡ false → s.insert_start ≡ s.tpos

  -- After the flush all that the scan has passed is written.
  pub flush_insert-Written :
      (s : Scan) (is : List Instr) (o : Obuf)
      → IsScanning s is
      → flush_insert alloc tgt s ≡ ok o
      → (js : List Instr) × Written src tgt o js s.tpos
  unfolding flush_insert
  flush_insert-Written s is o h e = elim (Bool-cases (s.in_insert && ltb s.insert_start s.tpos)) [
    | inl pending ↦
        let at : s.insert_start + (s.tpos - s.insert_start) ≡ s.tpos = omega (arith, h.ordered) in
        let js = is ++ (insert (slice tgt s.insert_start (s.tpos - s.insert_start)) ∷ []) in
        (
          js,
          subst (λ k. Written src tgt o js k) at
              (insert_slice s.out o is s.insert_start (s.tpos - s.insert_start) h.written
                (omega (arith, h.ordered, h.inside)) (ground arith) (rw pending at e)),
        )
    | inr clear ↦
        let kept : ◌≡◌ {A = Result Failure Obuf} (ok s.out) (ok o) = rw clear at e in
        let at : s.insert_start ≡ s.tpos = ground (arith, h.settled, h.ordered) in
        (is, subst₂ (λ out k. Written src tgt out is k) (cc kept) at h.written)
  ]

  pub take_match-IsScanning :
      (s s' : Scan) (is : List Instr) (spos len : ℕ)
      → IsScanning s is
      → IsMatch src spos tgt s.tpos len
      → 8 ≤ len
      → take_match alloc tgt s spos len ≡ ok s'
      → (js : List Instr) × IsScanning s' js × (s'.tpos ≡ s.tpos + len)
  unfolding take_match
  take_match-IsScanning s s' is spos len h m long e =
      let (out, flushed, rest) = >>=-eq-ok (flush_insert alloc tgt s) _ e in
      let (js, w) = flush_insert-Written s is out h flushed in
      let (out', copied, last) = >>=-eq-ok (emit_copy alloc out (u32 spos) (u32 len)) _ rest in
      let w' = copy_match out out' js s.tpos spos len w m long copied in
      let after : Scan = record {
        out = out';
        tpos = s.tpos + len;
        insert_start = s.tpos + len;
        in_insert = false;
      } in
      let same : after ≡ s' = cc last in
      let done : IsScanning after (js ++ (copy spos len ∷ [])) = record {
        written = w';
        ordered = omega arith;
        inside = m.in_target;
        settled = λ _. refl;
      } in
      (
        _,
        subst (λ t. IsScanning t (js ++ (copy spos len ∷ []))) same done,
        ap (λ t. t.tpos) (sym same),
      )

  pub skip_byte-IsScanning :
      (s : Scan) (is : List Instr)
      → IsScanning s is
      → s.tpos < length tgt
      → IsScanning (skip_byte s) is × ((skip_byte s).tpos ≡ s.tpos + 1)
  unfolding skip_byte
  skip_byte-IsScanning s is h room = ground (arith, h)

  -- One round: the scan goes on, and what lies before the pending insert is written.
  pub follow-IsScanning :
      (s s' : Scan) (is : List Instr) (found : Option (ℕ × ℕ))
      → IsScanning s is
      → s.tpos + window ≤ length tgt
      → ((spos len : ℕ) → found ≡ some (spos, len) → IsMatch src spos tgt s.tpos len × (8 ≤ len))
      → follow alloc tgt s found ≡ ok s'
      → (js : List Instr) × IsScanning s' js × (s.tpos < s'.tpos)
  unfolding follow
  follow-IsScanning s s' is none h room real e =
      let same : skip_byte s ≡ s' = cc in
      let (kept, moved) = skip_byte-IsScanning s is h (omega (arith, room)) in
      (is, subst (λ t. IsScanning t is) same kept, omega (arith, moved, ap (λ t. t.tpos) same))
  follow-IsScanning s s' is (some (spos, len)) h room real e =
      let (m, long) = real spos len refl in
      let (js, kept, moved) = take_match-IsScanning s s' is spos len h m long e in
      (js, kept, omega (arith, moved, long))

  pub scan_step-IsScanning :
      (htab : Table) (s s' : Scan) (is : List Instr)
      → IsScanning s is
      → s.tpos + window ≤ length tgt
      → scan_step alloc src tgt htab s ≡ ok s'
      → (js : List Instr) × IsScanning s' js × (s.tpos < s'.tpos)
  unfolding scan_step
  scan_step-IsScanning htab s s' is h room e =
      follow-IsScanning s s' is (find_match src tgt htab s.tpos) h room
        (find_match-IsMatch src tgt s.tpos room htab) e

  -- The whole scan.
  pub scan-IsScanning :
      (htab : Table) (fuel : ℕ) (s s' : Scan) (is : List Instr)
      → IsScanning s is
      → scan fuel alloc src tgt htab s ≡ ok s'
      → (js : List Instr) × IsScanning s' js
  unfolding scan
  scan-IsScanning htab zero s s' is h e =
      let same : s ≡ s' = ground arith in (is, subst (λ t. IsScanning t is) same h)
  scan-IsScanning htab (suc fuel) s s' is h e =
      elim (Bool-cases (leb window (length tgt - s.tpos))) [
        | inl more ↦
            let (mid, first, rest) =
              >>=-eq-ok (scan_step alloc src tgt htab s) (scan fuel alloc src tgt htab)
                (rw more at e) in
            let (js, kept, _) = scan_step-IsScanning htab s mid is h (ground arith) first in
            scan-IsScanning htab fuel mid s' js kept rest
        | inr over ↦ let same : s ≡ s' = ground arith in (is, subst (λ t. IsScanning t is) same h)
      ]
