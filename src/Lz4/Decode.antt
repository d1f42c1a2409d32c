-- ===== src/Lz4/Decode.antt =====
-- `uc2_lz4_decompress`, lib/src/uc2_lz4.c. `rest` is what lies from `ip` to `iend`, `out` the bytes
-- from `dst` to `op`, `cap` is `dst_cap`. Null pointers are not modelled.
use uc.Common.{
  ℕ, zero, suc, ◌+◌, ◌-◌, ◌^◌, List, [], ◌∷◌, ◌++◌, ◌&&◌, not, ltb, leb, ◌==◌, if◌then◌else◌,
  length, take, drop, bit_and,
}
use uc.Common.Result.{Result, ok, err, stuck, ◌>>=◌, ◌>>◌, require}
use uc.Common.Words.{byte_at, word16, ◌>>>◌}

-- `return 0` where the input or the room is not right.
pub data Refusal : Type 0 where
  refused : Refusal

abbrev size_max : ℕ
size_max = 2 ^ 64 - 1

abbrev pub min_match : ℕ
min_match = 4

-- A length and what lies behind it; what lies behind a run and the bytes written.
abbrev pub Measured : Type 0
Measured = ℕ × List ℕ

abbrev pub Progress : Type 0
Progress = List ℕ × List ℕ

-- `do { ... } while (b == 255)` on a length so far.
unfoldable pub read_more : List ℕ → ℕ → Result Refusal Measured
read_more [] len = err refused
read_more (b ∷ rest) len =
    let more = read_more rest (len + b) in
    if ltb (size_max - b) len then err refused else if b == 255 then more else ok (len + b, rest)

unfoldable pub literal_length : ℕ → List ℕ → Result Refusal Measured
literal_length token rest =
    let more = read_more rest 15 in if token >>> 4 == 15 then more else ok (token >>> 4, rest)

unfoldable pub match_length : ℕ → List ℕ → Result Refusal Measured
match_length token rest =
    let low = bit_and token 15 in
    let more = read_more rest (low + min_match) in
    if low == 15 then more else ok (low + min_match, rest)

unfoldable pub copy_literals : ℕ → ℕ → List ℕ → List ℕ → Result Refusal Progress
copy_literals cap token rest out = literal_length token rest >>= λ (len, rest'). do
  require (leb len (length rest') && leb len (cap - length out)) refused
  ok (drop len rest', out ++ take len rest')

-- `op[i] = ref[i]` for `i` below the length, where `ref = op - offset`.
unfoldable pub copy_back : ℕ → ℕ → List ℕ → List ℕ
copy_back zero offset out = out
copy_back (suc n) offset out = copy_back n offset (out ++ (byte_at out (length out - offset) ∷ []))

unfoldable pub copy_match : ℕ → ℕ → List ℕ → List ℕ → Result Refusal Progress
copy_match cap token rest out =
    let offset = word16 rest in
    do
      require (leb 2 (length rest)) refused
      require (not (offset == 0) && leb offset (length out)) refused
      match_length token (drop 2 rest) >>= λ (len, rest'). do
        require (leb len (cap - length out)) refused
        ok (rest', copy_back len offset out)

-- Every turn takes its token at least.
unfoldable pub sequences : ℕ → ℕ → List ℕ → List ℕ → Result Refusal (List ℕ)
sequences fuel cap [] out = ok out
sequences zero cap (token ∷ rest) out = stuck
sequences (suc fuel) cap (token ∷ rest) out = copy_literals cap token rest out >>= λ (rest', out').
    let more =
      copy_match cap token rest' out' >>= λ (rest'', out''). sequences fuel cap rest'' out'' in
    if length rest' == 0 then ok out' else more

unfoldable pub lz4_decompress : List ℕ → ℕ → Result Refusal (List ℕ)
lz4_decompress src cap = do require (ltb 0 (length src)) refused; sequences (length src) cap src []
