-- ===== src/Rans/RoundTrip.antt =====
-- A sequence of symbols (lib/src/uc2_rans.c). The compressor (`flush_block_rans`, lib/src/compress.c)
-- encodes from the last symbol to the first.
use uc.Common.{
  ℕ, zero, suc, ◌*◌, ◌/◌, ◌^◌, ◌≤◌, ◌<◌, ◌≡◌, refl, ap, ◌∙◌, sym, List, [], ◌∷◌, ◌++◌, length,
  Option, some, bit_or, arith, All, append_assoc, append-nil,
}
use uc.Common.Bits.{bit_or_byte}
use uc.Common.Words.{u8, u32, byte_at, ◌<<<◌, ◌>>>◌}
use uc.Rans.Coder.{
  lower_bound, Table, Encoder, enc_init, encode, reversed, enc_finish, Decoder, pull, dec_init,
  decode,
}
use uc.Rans.Step.{IsTable, IsState, decode-encode}
use mathlib.Core.Option

-- The calls of `uc2_rans_encode` for the symbols of a list, first to last; `flush_block_rans` makes
-- them for its symbols in the opposite order.
unfoldable pub encode_all : Table → List ℕ → Encoder → Option Encoder
encode_all tab [] e = some e
encode_all tab (s ∷ more) e = Option.bind (encode tab e s) (encode_all tab more)

-- So many calls of `uc2_rans_decode`.
unfoldable pub decode_all : ℕ → Table → Decoder → List ℕ × Decoder
decode_all zero tab d = ([], d)
decode_all (suc n) tab d =
    let (s, d') = decode tab d in let (more, d'') = decode_all n tab d' in (s ∷ more, d'')

decode_all-snoc :
    (n : ℕ) (tab : Table) (d d₁ d₂ : Decoder) (xs : List ℕ) (s : ℕ)
    → decode_all n tab d ≡ (xs, d₁)
    → decode tab d₁ ≡ (s, d₂)
    → decode_all (suc n) tab d ≡ (xs ++ (s ∷ []), d₂)
unfolding decode_all
decode_all-snoc zero tab d d₁ d₂ xs s h k =
    let here : d ≡ d₁ = ap (λ p. p.1) h in
    let none_yet : [] ≡ xs = ap (λ p. p.0) h in rw (← none_yet, here, k) refl
decode_all-snoc (suc n) tab d d₁ d₂ xs s h k =
    let rest =
      decode_all-snoc n tab (decode tab d).1 d₁ d₂ (decode_all n tab (decode tab d).1).0 s
        (ap (λ q. ((decode_all n tab (decode tab d).1).0, q)) (ap (λ p. p.1) h)) k in
    ap (λ p. ((decode tab d).0 ∷ p.0, p.1)) rest ∙ ap (λ ys. (ys ++ (s ∷ []), d₂)) (ap (λ p. p.0) h)

-- A symbol that the table codes.
abbrev pub IsCoded : Table → ℕ → Type 0
IsCoded tab s = (s < tab.nsym) × (1 ≤ byte_at tab.freq s)

abbrev pub reader_of : Encoder → Decoder
reader_of e = record { state = e.state; rest = reversed e.rev_buf }

decode_all-encode_all_from :
    (tab : Table) (ok : IsTable tab) (ss : List ℕ) (e : Encoder)
    → All (IsCoded tab) ss
    → IsState e.state
    → (e' : Encoder) × (encode_all tab ss e ≡ some e')
      × IsState e'.state
      × (decode_all (length ss) tab (reader_of e') ≡ (reversed ss, reader_of e))
unfolding encode_all decode_all reversed Option.bind
decode_all-encode_all_from tab ok [] e coded state = (e, refl, state, refl)
decode_all-encode_all_from tab ok (s ∷ more) e coded state =
    let (e₁, encoded, state₁, back) =
      decode-encode tab ok s coded.0.0 coded.0.1 e.state e.rev_buf state in
    let (e', encoded', state', back') = decode_all-encode_all_from tab ok more e₁ coded.1 state₁ in
    (
      e',
      ap (λ (o : Option Encoder). Option.bind o (encode_all tab more)) encoded ∙ encoded',
      state',
      decode_all-snoc (length more) tab (reader_of e') (reader_of e₁) (reader_of e) (reversed more)
          s back' back,
    )

-- A byte that is read under the bytes before it.
byte_under : (x y : ℕ) → y ≡ x / 256 → x < 2 ^ 32 → bit_or (u32 (y <<< 8)) (u8 x) ≡ x
byte_under x y e h =
    let kept : u32 (y <<< 8) ≡ y * 2 ^ 8 = omega arith in
    rw kept (bit_or_byte 8 y (u8 x) (omega arith) ∙ omega arith)

reversed-append : (xs ys : List ℕ) → reversed (xs ++ ys) ≡ reversed ys ++ reversed xs
unfolding reversed
reversed-append [] ys = sym (append-nil (reversed ys))
reversed-append (x ∷ xs) ys =
    ap (λ r. r ++ (x ∷ [])) (reversed-append xs ys)
    ∙ append_assoc (reversed ys) (reversed xs) (x ∷ [])

enc_finish_bytes :
    (e : Encoder)
    → enc_finish e
      ≡ u8 (e.state >>> 24)
        ∷ u8 (e.state >>> 16)
        ∷ u8 (e.state >>> 8)
        ∷ u8 e.state
        ∷ reversed e.rev_buf
unfolding enc_finish reversed
enc_finish_bytes e =
    reversed-append e.rev_buf
      (u8 e.state ∷ u8 (e.state >>> 8) ∷ u8 (e.state >>> 16) ∷ u8 (e.state >>> 24) ∷ [])

pull_byte :
    (x y b : ℕ) (rest : List ℕ)
    → y ≡ x / 256
    → x < 2 ^ 32
    → b ≡ u8 x
    → pull (record { state = y; rest = b ∷ rest }) ≡ record { state = x; rest = rest }
unfolding pull
pull_byte x y b rest e h k = rw (k, byte_under x y e h) refl

dec_init-enc_finish : (e : Encoder) → IsState e.state → dec_init (enc_finish e) ≡ reader_of e
unfolding dec_init
dec_init-enc_finish e state =
    let x = e.state in
    let buf = reversed e.rev_buf in
    let rest₁ = u8 (x >>> 8) ∷ u8 x ∷ buf in
    ap dec_init (enc_finish_bytes e)
    ∙ ap (λ (d : Decoder). pull (pull (pull d)))
        (pull_byte (x >>> 24) 0 (u8 (x >>> 24)) (u8 (x >>> 16) ∷ rest₁) (omega arith) (omega arith)
          refl)
    ∙ ap (λ (d : Decoder). pull (pull d))
        (pull_byte (x >>> 16) (x >>> 24) (u8 (x >>> 16)) rest₁ (omega arith) (omega arith) refl)
    ∙ ap pull (
        pull_byte (x >>> 8) (x >>> 16) (u8 (x >>> 8)) (u8 x ∷ buf) (omega arith) (omega arith) refl)
    ∙ pull_byte x (x >>> 8) (u8 x) buf (omega arith) (omega arith) refl

-- For a table that gives its symbols disjoint ranges within the scale, and any list of symbols of
-- the table with a frequency of at least one, encode_all from the initial state succeeds, and as
-- many decodings of the finished bytes return the list backwards.
pub decode_all-encode_all :
    (tab : Table) (ss : List ℕ)
    → IsTable tab
    → All (IsCoded tab) ss
    → (e : Encoder) × (encode_all tab ss enc_init ≡ some e)
      × ((decode_all (length ss) tab (dec_init (enc_finish e))).0 ≡ reversed ss)
unfolding enc_init
decode_all-encode_all tab ss ok coded =
    let (e, encoded, state, back) =
      decode_all-encode_all_from tab ok ss (record { state = lower_bound; rev_buf = [] }) coded
        (omega arith) in
    (
      e,
      encoded,
      ap (λ d. (decode_all (length ss) tab d).0) (dec_init-enc_finish e state) ∙ ap (λ p. p.0) back,
    )
