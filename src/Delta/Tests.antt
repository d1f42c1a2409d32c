-- ===== src/Delta/Tests.antt =====
-- Runs of `uc2_delta_encode` and `uc2_delta_apply`, and the theorems at concrete inputs.
use uc.Common.{◌≡◌, refl, List, [], ◌∷◌, ℕ, arith, ◌≤◌, length, ◌≢◌}
use uc.Common.Result.{ok, err, stuck}
use uc.Common.Words.{same_bytes, word32, bytes32, le32}
use uc.Delta.Obuf.{
  always, obuf_append, obuf_append_fits, empty_obuf, Obuf, emit_copy, emit_insert, grow, minus_one,
}
use uc.Delta.Encode.{
  encode, encode_with, scan, scan_step, follow, take_match, skip_byte, flush_insert, find_match,
  try_match, build_table, slot, header, emit_trailing, finish_delta, extend_match,
}
use uc.Delta.Apply.{apply, apply_ops, apply_op, apply_copy, apply_insert}
use uc.Delta.RoundTrip.{apply-encode, encode-ok, encode-ne-stuck}
use uc.Delta.Decode.{apply-ne-stuck, length-apply}
use mathlib.Core.Option

abbrev old_text : List ℕ
old_text = 1 ∷ 2 ∷ 3 ∷ 4 ∷ 5 ∷ 6 ∷ 7 ∷ 8 ∷ 9 ∷ 10 ∷ []

-- One byte before a copy of all but the first, and one behind it.
abbrev new_text : List ℕ
new_text = 77 ∷ 2 ∷ 3 ∷ 4 ∷ 5 ∷ 6 ∷ 7 ∷ 8 ∷ 9 ∷ 10 ∷ 88 ∷ []

abbrev the_delta : List ℕ
the_delta =
    85 ∷ 67 ∷ 50 ∷ 68 ∷ 11 ∷ 0 ∷ 0 ∷ 0 ∷ 2 ∷ 1 ∷ 0 ∷ 0 ∷ 0 ∷ 77 ∷ 1 ∷ 1 ∷ 0 ∷ 0 ∷ 0 ∷ 9 ∷ 0 ∷ 0 ∷ 0
    ∷ 2 ∷ 1 ∷ 0 ∷ 0 ∷ 0 ∷ 88 ∷ 0 ∷ []

encode_run : encode always old_text new_text ≡ ok the_delta
unfolding encode encode_with scan scan_step follow take_match skip_byte flush_insert find_match
    try_match build_table slot header emit_trailing finish_delta obuf_append emit_copy emit_insert
    grow bytes32 word32 le32 Option.bind same_bytes extend_match
encode_run = refl

apply_run : apply always old_text the_delta ≡ ok new_text
unfolding apply apply_ops apply_op apply_copy apply_insert word32 le32 same_bytes
apply_run = refl

-- A copy past the end of the source is refused.
apply_wild :
    apply always
      (1 ∷ 2 ∷ [])
      (85 ∷ 67 ∷ 50 ∷ 68 ∷ 2 ∷ 0 ∷ 0 ∷ 0 ∷ 1 ∷ 1 ∷ 0 ∷ 0 ∷ 0 ∷ 2 ∷ 0 ∷ 0 ∷ 0 ∷ 0 ∷ [])
    ≡ err minus_one
unfolding apply apply_ops apply_op apply_copy apply_insert word32 le32 same_bytes
apply_wild = refl

apply-encode_example : apply always old_text the_delta ≡ ok new_text
apply-encode_example =
    apply-encode always always old_text new_text the_delta (omega arith) (omega arith) encode_run
      refl

encode-ok_example : (delta : List ℕ) × (encode always old_text new_text ≡ ok delta)
encode-ok_example = encode-ok old_text new_text (omega arith) (omega arith)

encode-ne-stuck_example : encode always old_text new_text ≢ stuck
encode-ne-stuck_example = encode-ne-stuck always old_text new_text

apply-ne-stuck_example : apply always old_text the_delta ≢ stuck
apply-ne-stuck_example = apply-ne-stuck always old_text the_delta

length-apply_example : ◌≡◌ {A = ℕ} 11 (word32 (11 ∷ 0 ∷ 0 ∷ 0 ∷ 2 ∷ []))
unfolding word32
length-apply_example = length-apply always old_text the_delta new_text apply_run

abbrev filled : Obuf
filled = record { bytes = 5 ∷ 6 ∷ []; cap = 256 }

obuf_append_run : obuf_append always empty_obuf (5 ∷ 6 ∷ []) ≡ ok filled
unfolding obuf_append grow
obuf_append_run = refl

obuf_append_fits_example : length filled.bytes ≤ filled.cap
obuf_append_fits_example =
    obuf_append_fits always empty_obuf (5 ∷ 6 ∷ []) filled (omega arith) obuf_append_run
