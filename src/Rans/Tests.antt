-- ===== src/Rans/Tests.antt =====
-- Runs of the entropy coder, and its theorem at a concrete input.
use uc.Common.{
  replicate, take, map, ◌++◌, ◌≡◌, refl, List, [], ◌∷◌, ℕ, zero, suc, arith, ◌+◌, ◌≤◌, ◌<◌, some,
  All,
}
use uc.Common.Words.{byte_at}
use uc.Rans.Coder.{
  prob_scale, Table, Encoder, enc_init, encode, shift_out, reversed, enc_finish, pull, dec_init,
  decode, refill, lookup_in,
}
use uc.Rans.Build.{sum, scaled, largest_from, adjust, build_table}
use uc.Rans.Scale.{largest_of, build_table-IsTable}
use uc.Rans.Step.{IsTable}
use uc.Rans.RoundTrip.{IsCoded, encode_all, decode_all, decode_all-encode_all}
use mathlib.Core.Option

-- One symbol in four is 0, the others are 1.
abbrev quarter : Table
quarter = record { freq = 1024 ∷ 3072 ∷ []; cumfreq = 0 ∷ 1024 ∷ []; nsym = 2 }

abbrev message : List ℕ
message = 0 ∷ 1 ∷ 1 ∷ 0 ∷ 0 ∷ 0 ∷ 0 ∷ 0 ∷ 0 ∷ []

abbrev coded : List ℕ
coded = 56 ∷ 224 ∷ 3 ∷ 192 ∷ 0 ∷ []

encode_all_run : Option.map enc_finish (encode_all quarter message enc_init) ≡ some coded
unfolding encode_all encode shift_out enc_init enc_finish reversed Option.bind
encode_all_run = refl

decode_all_run : (decode_all 9 quarter (dec_init coded)).0 ≡ 0 ∷ 0 ∷ 0 ∷ 0 ∷ 0 ∷ 0 ∷ 1 ∷ 1 ∷ 0 ∷ []
unfolding decode_all decode dec_init pull refill lookup_in
decode_all_run = refl

quarter_in_scale : (s : ℕ) → s < 2 → byte_at quarter.cumfreq s + byte_at quarter.freq s ≤ prob_scale
quarter_in_scale zero h = omega arith
quarter_in_scale (suc zero) h = omega arith
quarter_in_scale (suc (suc s)) h = absurd (omega arith)

quarter_disjoint :
    (s t : ℕ)
    → s < t
    → t < 2
    → byte_at quarter.cumfreq s + byte_at quarter.freq s ≤ byte_at quarter.cumfreq t
quarter_disjoint zero zero p q = absurd (omega arith)
quarter_disjoint zero (suc zero) p q = omega arith
quarter_disjoint s (suc (suc t)) p q = absurd (omega arith)
quarter_disjoint (suc s) zero p q = absurd (omega arith)
quarter_disjoint (suc s) (suc zero) p q = absurd (omega arith)

quarter-IsTable : IsTable quarter
quarter-IsTable = record { in_scale = quarter_in_scale; disjoint = quarter_disjoint }

message-IsCoded : All (IsCoded quarter) message
message-IsCoded = ground arith

decode_all-encode_all_example :
    (e : Encoder) × (encode_all quarter message enc_init ≡ some e)
    × ((decode_all 9 quarter (dec_init (enc_finish e))).0 ≡ reversed message)
decode_all-encode_all_example =
    decode_all-encode_all quarter message quarter-IsTable message-IsCoded

abbrev three_counts : List ℕ
three_counts = 1 ∷ 1 ∷ 1 ∷ []

abbrev blank : Table
blank = record { freq = replicate 344 0; cumfreq = replicate 344 0; nsym = 0 }

build_table-IsTable_example :
    IsTable (build_table blank three_counts 3)
    × (sum (take 3 ((build_table blank three_counts 3).freq)) ≡ prob_scale)
    × ((s : ℕ) → 1 ≤ byte_at three_counts s → IsCoded (build_table blank three_counts 3) s)
build_table-IsTable_example =
    build_table-IsTable blank three_counts (omega arith) (ground arith) (omega arith) tame
  where
    tame :
        sum (map (scaled 3) three_counts)
        < prob_scale
          + byte_at (map (scaled 3) three_counts) (largest_of (map (scaled 3) three_counts))
    tame = unfold scaled largest_from in omega arith

-- A hundred frequent symbols and 244 rare ones: the largest frequency wraps below zero.
wrapped : byte_at ((build_table blank (replicate 100 10000 ++ replicate 244 1) 344).freq) 0 ≡ 65428
unfolding build_table scaled adjust largest_from
wrapped = refl
