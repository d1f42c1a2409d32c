-- ===== src/Delta/RoundTrip.antt =====
-- `uc2_delta_apply` after `uc2_delta_encode`, lib/src/uc2_delta.c.
use uc.Common.{
  ℕ, ◌+◌, ◌-◌, ◌*◌, ◌^◌, ◌≤◌, ◌<◌, ◌≡◌, refl, ◌∙◌, ap, sym, List, [], ◌∷◌, ◌++◌, Bool, true, none,
  ltb, leb, ◌==◌, if◌then◌else◌, length, slice, arith, length-append, length-slice, Bool-cases, inl,
  inr, ◌≢◌, append_assoc, append-nil, take_all,
}
use mathlib.Core.Path.{subst, subst₂}
use uc.Common.Result.{
  require, ok-ne-stuck, require-ok, Result, ok, stuck, ◌>>=◌, >>=-eq-ok, >>=-ne-stuck,
  >>=-eq-ok_intro,
}
use uc.Common.Words.{same_bytes, u32, bytes32, word32-bytes32, drop-bytes32, length-bytes32_append}
use uc.Delta.Obuf.{
  Failure, minus_one, Obuf, obuf_append, emit_insert, always, empty_obuf, obuf_append-ne-stuck,
  obuf_append_bytes, emit_insert-ne-stuck, obuf_append-ok, emit_insert-ok,
}
use uc.Delta.Encode.{
  Table, hash_size, header, Scan, scan, emit_trailing, encode, start_scan, build_table, encode_with,
  finish_delta,
}
use uc.Delta.Apply.{apply, apply_ops}
use uc.Delta.Instr.{Instr, insert, codes, texts, apply_ops-codes, length-codes}
use uc.Delta.Scan.{Written, IsScanning, scan-IsScanning, insert_slice}
use uc.Delta.Total.{scan-ok, scan-ne-stuck, length-Written}

module _ (alloc : ℕ → Bool) (src tgt : List ℕ) (src_fits : length src < 2 ^ 31)
    (tgt_fits : length tgt < 2 ^ 32) where
  start-IsScanning :
      (o : Obuf)
      → obuf_append alloc empty_obuf (header (length tgt)) ≡ ok o
      → IsScanning alloc src tgt src_fits tgt_fits (start_scan o) []
  unfolding codes texts
  start-IsScanning o e = record {
    written = record {
      bytes = obuf_append_bytes alloc empty_obuf _ o e ∙ sym (append-nil _);
      encodable = tt;
      prefix = refl;
      small = omega arith;
    };
    ordered = omega arith;
    inside = omega arith;
    settled = λ _. refl;
  }

  -- What is pending when the scan ends is what is left of the target.
  emit_trailing_lem :
      (s : Scan) (is : List Instr)
      → IsScanning alloc src tgt src_fits tgt_fits s is
      → emit_trailing alloc tgt s ≡ (
          if ltb s.insert_start (length tgt)
          then emit_insert alloc s.out (slice tgt s.insert_start (length tgt - s.insert_start))
          else ok s.out)
  unfolding emit_trailing
  emit_trailing_lem s is h = ground (arith, h)

  emit_trailing-ne-stuck :
      (s : Scan) (is : List Instr)
      → IsScanning alloc src tgt src_fits tgt_fits s is
      → emit_trailing alloc tgt s ≢ stuck
  emit_trailing-ne-stuck s is h e = ground (
    arith,
    emit_trailing_lem s is h,
    emit_insert-ne-stuck alloc s.out (slice tgt s.insert_start (length tgt - s.insert_start)),
  )

  emit_trailing-Written :
      (s : Scan) (is : List Instr) (o : Obuf)
      → IsScanning alloc src tgt src_fits tgt_fits s is
      → emit_trailing alloc tgt s ≡ ok o
      → (js : List Instr) × Written src tgt o js (length tgt)
  emit_trailing-Written s is o h e = elim (Bool-cases (ltb s.insert_start (length tgt))) [
    | inl some_left ↦
        let js = is ++ (insert (slice tgt s.insert_start (length tgt - s.insert_start)) ∷ []) in
        let at : s.insert_start + (length tgt - s.insert_start) ≡ length tgt = ground arith in
        (
          js,
          subst (λ k. Written src tgt o js k) at
              (insert_slice alloc src tgt src_fits tgt_fits s.out o is s.insert_start
                (length tgt - s.insert_start) h.written (omega (arith, at)) (ground arith)
                (rw some_left at e')),
        )
    | inr all_done ↦
        let kept : ◌≡◌ {A = Result Failure Obuf} (ok s.out) (ok o) = rw all_done at e' in
        let at : s.insert_start ≡ length tgt = ground (arith, h) in
        (is, subst₂ (λ out k. Written src tgt out is k) (cc kept) at h.written)
  ]
    where
      e' :
          (if ltb s.insert_start (length tgt)
            then emit_insert alloc s.out (slice tgt s.insert_start (length tgt - s.insert_start))
            else ok s.out)
          ≡ ok o
      e' = sym (emit_trailing_lem s is h) ∙ e

  -- The shape of a delta: header, instructions that write the target, end mark.
  pub encode-eq-ok :
      (delta : List ℕ)
      → encode alloc src tgt ≡ ok delta
      → (js : List Instr) × (o : Obuf) × Written src tgt o js (length tgt)
        × (delta ≡ o.bytes ++ (0x00 ∷ []))
  unfolding encode encode_with
  encode-eq-ok delta e =
      let (_, _, e₁) = >>=-eq-ok (require (leb (length src) (2 ^ 31 - 1)) minus_one) _ e in
      let (_, _, e₂) = >>=-eq-ok (require (leb (length tgt) (2 ^ 32 - 1)) minus_one) _ e₁ in
      let (_, _, e₃) = >>=-eq-ok (require (alloc (4 * hash_size)) minus_one) _ e₂ in
      let (out, begun, e₄) = >>=-eq-ok (obuf_append alloc empty_obuf (header (length tgt))) _ e₃ in
      let (s, scanned, e₅) =
        >>=-eq-ok (scan (length tgt) alloc src tgt (build_table src) (start_scan out)) _ e₄ in
      let (out', trailed, e₆) = >>=-eq-ok (emit_trailing alloc tgt s) _ e₅ in
      let (fin, ended, e₇) = >>=-eq-ok (obuf_append alloc out' (0x00 ∷ [])) _ e₆ in
      let (is, h) =
        scan-IsScanning alloc src tgt src_fits tgt_fits (build_table src) (length tgt)
          (start_scan out) s [] (start-IsScanning out begun) scanned in
      let (js, w) = emit_trailing-Written s is out' h trailed in
      let same : fin.bytes ≡ delta = cc e₇ in
      (js, out', w, sym same ∙ obuf_append_bytes alloc out' (0x00 ∷ []) fin ended)

emit_trailing-ok :
    (src tgt : List ℕ) (p : length src < 2 ^ 31) (q : length tgt < 2 ^ 32) (s : Scan)
    (is : List Instr)
    → IsScanning always src tgt p q s is
    → (o : Obuf) × (emit_trailing always tgt s ≡ ok o)
emit_trailing-ok src tgt p q s is h = elim (Bool-cases (ltb s.insert_start (length tgt))) [
  | inl some_left ↦
      rw (emit_trailing_lem always src tgt p q s is h, some_left)
        (emit_insert-ok s.out (slice tgt s.insert_start (length tgt - s.insert_start)) (
          omega (
            arith,
            length-slice tgt s.insert_start (length tgt - s.insert_start) (omega (arith, h)),
            length-Written src tgt p q (λ k. none) s.out is s.insert_start h.written,
            h,
          )))
  | inr all_done ↦ (s.out, rw (emit_trailing_lem always src tgt p q s is h, all_done) refl)
]

apply-header :
    (alloc : ℕ → Bool) (src : List ℕ) (n : ℕ) (body : List ℕ)
    → n < 2 ^ 32
    → 1 ≤ length body
    → alloc (if n == 0 then 1 else n) ≡ true
    → apply alloc src (header n ++ body) ≡ apply_ops (8 + length body) src n body []
unfolding apply header same_bytes
apply-header alloc src n body fits some_body given =
    let small : u32 n ≡ n = omega arith in
    rw (small, word32-bytes32 n body fits, given, drop-bytes32 n body, length-bytes32_append n body)
      (ground arith)

-- If encode returns a delta of tgt against src, with whatever memory it was given, then apply on
-- src and that delta returns tgt, provided that src is shorter than 2^31 bytes and tgt than 2^32
-- and that the request for the target's memory is met.
pub apply-encode :
    (alloc alloc' : ℕ → Bool) (src tgt delta : List ℕ)
    → length src < 2 ^ 31
    → length tgt < 2 ^ 32
    → encode alloc src tgt ≡ ok delta
    → alloc' (if length tgt == 0 then 1 else length tgt) ≡ true
    → apply alloc' src delta ≡ ok tgt
apply-encode alloc alloc' src tgt delta src_fits tgt_fits e given =
    let (js, o, w, shape) = encode-eq-ok alloc src tgt src_fits tgt_fits delta e in
    let body = codes js ++ (0x00 ∷ []) in
    let len : length body ≡ length (codes js) + 1 = length-append (codes js) (0x00 ∷ []) in
    let whole : texts src js ≡ tgt = w.prefix ∙ take_all (length tgt) tgt (omega arith) in
    rw (shape, w.bytes, append_assoc (header (length tgt)) (codes js) (0x00 ∷ []))
      (apply-header alloc' src (length tgt) body tgt_fits (omega (arith, len)) given
        ∙ apply_ops-codes src (length tgt) js (8 + length body) [] w.encodable
            (omega (arith, len, length-codes js)) (omega (arith, ap length whole))
        ∙ ap ok whole)

finish_delta-ne-stuck :
    (alloc : ℕ → Bool) (src tgt : List ℕ) (p : length src < 2 ^ 31) (q : length tgt < 2 ^ 32)
    (s : Scan) (is : List Instr)
    → IsScanning alloc src tgt p q s is
    → finish_delta alloc tgt s ≢ stuck
unfolding finish_delta
finish_delta-ne-stuck alloc src tgt p q s is h =
    >>=-ne-stuck (emit_trailing alloc tgt s)
      (λ out. obuf_append alloc out (0x00 ∷ []) >>= λ done. ok done.bytes)
      (emit_trailing-ne-stuck alloc src tgt p q s is h)
      (λ out _.
        >>=-ne-stuck (obuf_append alloc out (0x00 ∷ [])) (λ done. ok done.bytes)
          (obuf_append-ne-stuck alloc out (0x00 ∷ [])) (λ done _. ok-ne-stuck done.bytes))

encode_with-ne-stuck :
    (alloc : ℕ → Bool) (src tgt : List ℕ) (htab : Table)
    → length src < 2 ^ 31
    → length tgt < 2 ^ 32
    → encode_with alloc src tgt htab ≢ stuck
unfolding encode_with
encode_with-ne-stuck alloc src tgt htab p q =
    let rounds = λ (o : Obuf). scan (length tgt) alloc src tgt htab (start_scan o) in
    >>=-ne-stuck (obuf_append alloc empty_obuf (header (length tgt)))
      (λ out. rounds out >>= finish_delta alloc tgt) (obuf_append-ne-stuck alloc empty_obuf _)
      (λ out begun.
        let h = start-IsScanning alloc src tgt p q out begun in
        >>=-ne-stuck (rounds out) (finish_delta alloc tgt)
          (scan-ne-stuck alloc src tgt p q htab (length tgt) (start_scan out) [] h (omega arith))
          (λ s scanned.
            let (is, h') =
              scan-IsScanning alloc src tgt p q htab (length tgt) (start_scan out) s [] h scanned in
            finish_delta-ne-stuck alloc src tgt p q s is h'))

-- On any inputs and with any allocator, encode ends: neither the scan of the target nor the loop
-- that doubles a capacity runs out of its fuel.
pub encode-ne-stuck : (alloc : ℕ → Bool) (src tgt : List ℕ) → encode alloc src tgt ≢ stuck
unfolding encode
encode-ne-stuck alloc src tgt e =
    ground (arith, encode_with-ne-stuck alloc src tgt (build_table src))

-- When every request for memory is met, encode returns a delta for each source shorter than 2^31
-- bytes and each target shorter than 2^32.
pub encode-ok :
    (src tgt : List ℕ)
    → length src < 2 ^ 31
    → length tgt < 2 ^ 32
    → (delta : List ℕ) × (encode always src tgt ≡ ok delta)
unfolding encode encode_with
encode-ok src tgt p q =
    >>=-eq-ok_intro _ _ (require-ok (leb (length src) (2 ^ 31 - 1)) minus_one (ground arith)) λ _ _.
      >>=-eq-ok_intro _ _ (require-ok (leb (length tgt) (2 ^ 32 - 1)) minus_one (ground arith))
        λ _ _. >>=-eq-ok_intro _ _ (require-ok true minus_one refl) λ _ _.
          >>=-eq-ok_intro _ _
            (obuf_append-ok empty_obuf (header (length tgt)) (unfold header bytes32 in omega arith))
            λ out begun.
              let h = start-IsScanning always src tgt p q out begun in
              >>=-eq-ok_intro _ _
                (scan-ok src tgt p q (build_table src) (length tgt) (start_scan out) [] h
                  (omega arith))
                λ s scanned.
                  let (is, h') =
                    scan-IsScanning always src tgt p q (build_table src) (length tgt)
                      (start_scan out) s [] h scanned in
                  >>=-eq-ok_intro _ _ (emit_trailing-ok src tgt p q s is h') λ out' trailed.
                    let (js, w) = emit_trailing-Written always src tgt p q s is out' h' trailed in
                    >>=-eq-ok_intro _ _
                      (obuf_append-ok out' (0x00 ∷ [])
                        (omega (arith, length-Written src tgt p q (build_table src) out' js _ w)))
                      (λ fin _. (fin.bytes, refl))
