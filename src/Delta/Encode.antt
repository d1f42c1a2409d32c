-- ===== src/Delta/Encode.antt =====
-- `uc2_delta_encode`, lib/src/uc2_delta.c. Arrays are lists and positions are numbers; null
-- pointers are not modelled.
use uc.Common.{
  ℕ, zero, suc, ◌+◌, ◌-◌, ◌*◌, ◌^◌, Bool, true, false, ◌&&◌, ◌||◌, List, [], ◌∷◌, bit_and, Option,
  none, some, ltb, leb, ◌==◌, if◌then◌else◌, length, drop, slice,
}
use mathlib.Core.Option
use uc.Common.Result.{Result, ok, stuck, ◌>>=◌, ◌>>◌, require}
use uc.Common.Words.{same_bytes, word32, bytes32, u32}
use uc.Delta.Obuf.{Failure, minus_one, Obuf, empty_obuf, obuf_append, emit_copy, emit_insert}

abbrev pub hash_size : ℕ
hash_size = 65536

abbrev pub window : ℕ
window = 4

abbrev pub min_match : ℕ
min_match = 8

unfoldable pub roll_hash : List ℕ → ℕ
roll_hash p = word32 p

-- `htab[h]`; `none` is the -1 of an empty slot.
abbrev pub Table : Type 0
Table = ℕ → Option ℕ

-- `roll_hash(p) & (HASH_SIZE - 1)`
unfoldable pub slot : List ℕ → ℕ
unfolding roll_hash
slot p = bit_and (roll_hash p) (hash_size - 1)

unfoldable pub fill_table : ℕ → ℕ → List ℕ → Table → Table
fill_table zero i src htab = htab
fill_table (suc n) i src htab =
    fill_table n (i + 1) src (λ h. if h == slot (drop i src) then some i else htab h)

unfoldable pub build_table : List ℕ → Table
unfolding fill_table
build_table src =
    if leb window (length src) then fill_table (length src - window + 1) 0 src (λ h. none) else λ h.
    none

-- The loop that extends a match forward, from the bytes that lie behind it in the source and in the
-- target.
unfoldable pub extend_match : List ℕ → List ℕ → ℕ → ℕ
extend_match xs [] len = len
extend_match [] (y ∷ ys) len = len
extend_match (x ∷ xs) (y ∷ ys) len =
    let more = extend_match xs ys (len + 1) in if x == y then more else len

-- The match at `spos`, if it is real and long enough.
unfoldable pub try_match : List ℕ → List ℕ → ℕ → ℕ → Option (ℕ × ℕ)
try_match src tgt tpos spos =
    let len = extend_match (drop (spos + window) src) (drop (tpos + window) tgt) window in
    if leb (spos + window) (length src)
      && (same_bytes window (drop spos src) (drop tpos tgt) && leb min_match len)
    then some (spos, len)
    else none

-- The match that the table proposes at `tpos`.
unfoldable pub find_match : List ℕ → List ℕ → Table → ℕ → Option (ℕ × ℕ)
find_match src tgt htab tpos = Option.bind (htab (slot (drop tpos tgt))) (try_match src tgt tpos)

pub record Scan : Type 0 where
  pub out : Obuf
  pub tpos : ℕ
  pub insert_start : ℕ
  pub in_insert : Bool

-- `if (in_insert && tpos > insert_start) emit_insert(...)`
unfoldable pub flush_insert : (ℕ → Bool) → List ℕ → Scan → Result Failure Obuf
flush_insert alloc tgt s =
    if s.in_insert && ltb s.insert_start s.tpos
    then emit_insert alloc s.out (slice tgt s.insert_start (s.tpos - s.insert_start))
    else ok s.out

unfoldable pub take_match : (ℕ → Bool) → List ℕ → Scan → ℕ → ℕ → Result Failure Scan
unfolding flush_insert
take_match alloc tgt s spos len = do
  out ← flush_insert alloc tgt s
  out' ← emit_copy alloc out (u32 spos) (u32 len)
  ok (record { out = out'; tpos = s.tpos + len; insert_start = s.tpos + len; in_insert = false })

unfoldable pub skip_byte : Scan → Scan
skip_byte s =
    if s.in_insert
    then record s { tpos = s.tpos + 1 }
    else record s { tpos = s.tpos + 1; insert_start = s.tpos; in_insert = true }

-- What a round does with the match that it found, if any.
unfoldable pub follow : (ℕ → Bool) → List ℕ → Scan → Option (ℕ × ℕ) → Result Failure Scan
follow alloc tgt s none = ok (skip_byte s)
follow alloc tgt s (some (spos, len)) = take_match alloc tgt s spos len

-- One round of `while (tgt_len - tpos >= WINDOW)`.
unfoldable pub scan_step : (ℕ → Bool) → List ℕ → List ℕ → Table → Scan → Result Failure Scan
scan_step alloc src tgt htab s = follow alloc tgt s (find_match src tgt htab s.tpos)

unfoldable pub scan : ℕ → (ℕ → Bool) → List ℕ → List ℕ → Table → Scan → Result Failure Scan
scan zero alloc src tgt htab s = if leb window (length tgt - s.tpos) then stuck else ok s
scan (suc fuel) alloc src tgt htab s =
    let more = scan_step alloc src tgt htab s >>= scan fuel alloc src tgt htab in
    if leb window (length tgt - s.tpos) then more else ok s

-- The bytes after the last match.
unfoldable pub emit_trailing : (ℕ → Bool) → List ℕ → Scan → Result Failure Obuf
emit_trailing alloc tgt s =
    let trailing = length tgt - s.tpos in
    let ins_start = if s.in_insert then s.insert_start else s.tpos in
    let ins_len = length tgt - ins_start in
    if (s.in_insert || ltb 0 trailing) && ltb 0 ins_len
    then emit_insert alloc s.out (slice tgt ins_start ins_len)
    else ok s.out

-- `{'U','C','2','D'}` and the target's length.
unfoldable pub header : ℕ → List ℕ
header len = b'U' ∷ b'C' ∷ b'2' ∷ b'D' ∷ bytes32 (u32 len)

abbrev pub start_scan : Obuf → Scan
start_scan o = record { out = o; tpos = 0; insert_start = 0; in_insert = false }

-- The trailing bytes and the end marker.
unfoldable pub finish_delta : (ℕ → Bool) → List ℕ → Scan → Result Failure (List ℕ)
finish_delta alloc tgt s = do
  out ← emit_trailing alloc tgt s
  done ← obuf_append alloc out (0x00 ∷ [])
  ok done.bytes

unfoldable pub encode_with : (ℕ → Bool) → List ℕ → List ℕ → Table → Result Failure (List ℕ)
unfolding finish_delta
encode_with alloc src tgt htab = do
  out ← obuf_append alloc empty_obuf (header (length tgt))
  s ← scan (length tgt) alloc src tgt htab (start_scan out)
  finish_delta alloc tgt s

-- The table takes 4 bytes a slot.
unfoldable pub encode : (ℕ → Bool) → List ℕ → List ℕ → Result Failure (List ℕ)
encode alloc src tgt = do
  require (leb (length src) (2 ^ 31 - 1)) minus_one
  require (leb (length tgt) (2 ^ 32 - 1)) minus_one
  require (alloc (4 * hash_size)) minus_one
  encode_with alloc src tgt (build_table src)
