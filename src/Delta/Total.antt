-- ===== src/Delta/Total.antt =====
-- When the scan of `uc2_delta_encode` ends and when it fails, lib/src/uc2_delta.c.
use uc.Common.{
  ℕ, zero, suc, ◌+◌, ◌-◌, ◌*◌, ◌^◌, ◌≤◌, ◌<◌, ◌≡◌, refl, ap, List, ◌∷◌, ◌++◌, Bool, ◌&&◌, Option,
  none, some, ltb, leb, length, slice, arith, length-append, length-slice, Bool-cases, inl, inr,
  ◌≢◌,
}
use uc.Common.Result.{ok, stuck, >>=-ne-stuck, >>=-eq-ok_intro}
use uc.Common.Words.{u32, bytes32}
use uc.Delta.Obuf.{
  Obuf, emit_copy, always, obuf_append-ne-stuck, emit_insert-ne-stuck, obuf_append-ok,
  emit_insert-ok,
}
use uc.Delta.Encode.{
  Table, find_match, header, window, Scan, flush_insert, take_match, skip_byte, follow, scan_step,
  scan,
}
use uc.Delta.Instr.{Instr, codes}
use uc.Delta.Scan.{Written, IsScanning, flush_insert-Written, scan_step-IsScanning}

module _ (alloc : ℕ → Bool) (tgt : List ℕ) where
  flush_insert-ne-stuck : (s : Scan) → flush_insert alloc tgt s ≢ stuck
  unfolding flush_insert
  flush_insert-ne-stuck s e =
      ground (
        arith,
        emit_insert-ne-stuck alloc s.out (slice tgt s.insert_start (s.tpos - s.insert_start)),
      )

  take_match-ne-stuck : (s : Scan) (spos len : ℕ) → take_match alloc tgt s spos len ≢ stuck
  unfolding take_match emit_copy
  take_match-ne-stuck s spos len =
      >>=-ne-stuck (flush_insert alloc tgt s) _ (flush_insert-ne-stuck s) (λ out _.
        >>=-ne-stuck (emit_copy alloc out (u32 spos) (u32 len)) _ (obuf_append-ne-stuck alloc out _)
          (λ out' _ p. cc))

  follow-ne-stuck : (s : Scan) (found : Option (ℕ × ℕ)) → follow alloc tgt s found ≢ stuck
  unfolding follow
  follow-ne-stuck s none e = cc
  follow-ne-stuck s (some (spos, len)) e = take_match-ne-stuck s spos len e

module _ (alloc : ℕ → Bool) (src tgt : List ℕ) (src_fits : length src < 2 ^ 31)
    (tgt_fits : length tgt < 2 ^ 32) (htab : Table) where
  -- Every round moves on by a byte at least, so the target's length is fuel enough.
  pub scan-ne-stuck :
      (fuel : ℕ) (s : Scan) (is : List Instr)
      → IsScanning alloc src tgt src_fits tgt_fits s is
      → length tgt < s.tpos + fuel + window
      → scan fuel alloc src tgt htab s ≢ stuck
  unfolding scan
  scan-ne-stuck zero s is h enough = λ e. ground arith
  scan-ne-stuck (suc fuel) s is h enough = elim (Bool-cases (leb window (length tgt - s.tpos))) [
    | inl more ↦ rw more (
        >>=-ne-stuck (scan_step alloc src tgt htab s) (scan fuel alloc src tgt htab)
          (unfold scan_step in follow-ne-stuck alloc tgt s (find_match src tgt htab s.tpos))
          (λ mid first.
            let (js, kept, on) =
              scan_step-IsScanning alloc src tgt src_fits tgt_fits htab s mid is h (ground arith)
                first in
            scan-ne-stuck fuel mid js kept (omega (arith, on, enough))))
    | inr over ↦ rw over (λ p. cc)
  ]

module _ (src tgt : List ℕ) (src_fits : length src < 2 ^ 31) (tgt_fits : length tgt < 2 ^ 32)
    (htab : Table) where
  length-header : length (header (length tgt)) ≡ 8
  unfolding header bytes32
  length-header = refl

  -- What has been written is small.
  pub length-Written :
      (o : Obuf) (is : List Instr) (at : ℕ) → Written src tgt o is at → length o.bytes ≤ 8 + 9 * at
  length-Written o is at w = omega (
    arith,
    ap length w.bytes,
    length-append (header (length tgt)) (codes is),
    length-header,
    w.small,
  )

  flush_insert-ok :
      (s : Scan) (is : List Instr)
      → IsScanning always src tgt src_fits tgt_fits s is
      → (o : Obuf) × (flush_insert always tgt s ≡ ok o)
  unfolding flush_insert
  flush_insert-ok s is h = elim (Bool-cases (s.in_insert && ltb s.insert_start s.tpos)) [
    | inl pending ↦ rw pending (
        emit_insert-ok s.out (slice tgt s.insert_start len) (
          omega (
            arith,
            length-slice tgt s.insert_start len (omega (arith, h)),
            length-Written s.out is s.insert_start h.written,
            h,
          )))
    | inr clear ↦ (s.out, rw clear refl)
  ]
    where
      len : ℕ
      len = s.tpos - s.insert_start

  emit_copy-ok :
      (o : Obuf) (is : List Instr) (at spos len : ℕ)
      → Written src tgt o is at
      → at ≤ length tgt
      → (o' : Obuf) × (emit_copy always o spos len ≡ ok o')
  unfolding emit_copy bytes32
  emit_copy-ok o is at spos len w h =
      obuf_append-ok o (0x01 ∷ (bytes32 spos ++ bytes32 len))
        (omega (arith, length-Written o is at w))

  take_match-ok :
      (s : Scan) (is : List Instr) (spos len : ℕ)
      → IsScanning always src tgt src_fits tgt_fits s is
      → (s' : Scan) × (take_match always tgt s spos len ≡ ok s')
  unfolding take_match
  take_match-ok s is spos len h =
      >>=-eq-ok_intro (flush_insert always tgt s) _ (flush_insert-ok s is h) λ out e.
        let (js, w) = flush_insert-Written always src tgt src_fits tgt_fits s is out h e in
        >>=-eq-ok_intro (emit_copy always out (u32 spos) (u32 len)) _
          (emit_copy-ok out js s.tpos (u32 spos) (u32 len) w h.inside) (λ out' _. (_, refl))

  follow-ok :
      (s : Scan) (is : List Instr) (found : Option (ℕ × ℕ))
      → IsScanning always src tgt src_fits tgt_fits s is
      → (s' : Scan) × (follow always tgt s found ≡ ok s')
  unfolding follow
  follow-ok s is none h = (skip_byte s, refl)
  follow-ok s is (some (spos, len)) h = take_match-ok s is spos len h

  -- With memory the scan comes to its end.
  pub scan-ok :
      (fuel : ℕ) (s : Scan) (is : List Instr)
      → IsScanning always src tgt src_fits tgt_fits s is
      → length tgt < s.tpos + fuel + window
      → (s' : Scan) × (scan fuel always src tgt htab s ≡ ok s')
  unfolding scan
  scan-ok zero s is h enough = (s, ground arith)
  scan-ok (suc fuel) s is h enough = elim (Bool-cases (leb window (length tgt - s.tpos))) [
    | inl more ↦ rw more (
        >>=-eq-ok_intro (scan_step always src tgt htab s) (scan fuel always src tgt htab)
          (unfold scan_step in follow-ok s is (find_match src tgt htab s.tpos) h)
          (λ mid first.
            let (js, kept, on) =
              scan_step-IsScanning always src tgt src_fits tgt_fits htab s mid is h (ground arith)
                first in
            scan-ok fuel mid js kept (omega (arith, on, enough))))
    | inr over ↦ (s, rw over refl)
  ]
