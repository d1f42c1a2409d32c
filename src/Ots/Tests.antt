-- ===== src/Ots/Tests.antt =====
-- Runs of the OpenTimestamps code, and its theorems at concrete inputs.
use uc.Common.Ints.{pos, to_int}
use uc.Common.{
  ◌≡◌, refl, List, [], ◌∷◌, ◌++◌, ℕ, arith, ◌<◌, ◌≤◌, length, replicate, length-replicate, false,
  Bool, ◌^◌, ◌≢◌, All,
}
use uc.Common.Result.{ok, err, stuck}
use uc.Common.Order.{lt_wf}
use uc.Common.Words.{same_bytes, word32, bytes32, le32, IsByte}
use uc.Ots.Codes.{truncated, noncanonical, bad_op, max_digest_len, header_magic}
use uc.Ots.Varint.{varint_decode, varint_encode, decode_from, encode_acc, read_varbytes}
use uc.Ots.VarintLaws.{varint_decode-varint_encode, length-varint_encode}
use uc.Ots.VarintCanonical.{varint_decode_canonical}
use uc.Ots.File.{
  ProofFile, digest_len_of, parse_file, serialize_file, parse_file-serialize_file,
  serialize_file-parse_file,
}
use uc.Ots.Trailer.{
  layout, trailer_build, trailer_parse, parse_tail, parse_at, found, absent,
  trailer_parse-trailer_build,
}
use uc.Ots.Walk.{
  Sha, Attestation, Walker, verified, apply_binary, apply_op, walk_attestation, read_head,
  walk_item, walk_node, walk_items, walk,
}
use uc.Ots.WalkLaws.{apply_op_bounds, walk-ne-stuck}
use uc.Ots.Stamp.{
  Stamp, attest, apply, last, fork, append, stamp_bytes, item_bytes, varbytes, stamp_skips,
  stamp_log, StampFits, ItemFits,
}
use uc.Ots.StampWalk.{walk-stamp_bytes}
use native.Mathlib.Decide.{dec_le}

-- 300 takes two bytes.
abbrev three_hundred : List ℕ
three_hundred = 0xac ∷ 0x02 ∷ []

varint_encode_run : varint_encode 300 ≡ three_hundred
unfolding varint_encode encode_acc lt_wf dec_le
varint_encode_run = refl

varint_decode_run : varint_decode (0xac ∷ 0x02 ∷ 7 ∷ []) ≡ ok (300, 2)
unfolding varint_decode decode_from
varint_decode_run = refl

-- A last byte of zero is refused.
varint_decode_padded : varint_decode (0x80 ∷ 0x00 ∷ []) ≡ err noncanonical
unfolding varint_decode decode_from
varint_decode_padded = refl

varint_decode-varint_encode_example :
    varint_decode (varint_encode 300 ++ (7 ∷ [])) ≡ ok (300, length (varint_encode 300))
varint_decode-varint_encode_example = varint_decode-varint_encode 300 (7 ∷ []) (omega arith)

length-varint_encode_example : (1 ≤ length (varint_encode 300)) × (length (varint_encode 300) ≤ 10)
length-varint_encode_example = length-varint_encode 300 (omega arith)

three_hundred-IsByte : All IsByte (0xac ∷ 0x02 ∷ 7 ∷ [])
three_hundred-IsByte = ground arith

varint_decode_canonical_example :
    (◌<◌ 300 (2 ^ 64)) × (2 ≡ length (varint_encode 300)) × (three_hundred ≡ varint_encode 300)
varint_decode_canonical_example =
    varint_decode_canonical (0xac ∷ 0x02 ∷ 7 ∷ []) 300 2 three_hundred-IsByte varint_decode_run

-- A SHA-256 proof whose body is two bytes.
abbrev a_proof : ProofFile
a_proof = record { hash_op = 0x08; leaf_digest = replicate 32 5; body = 1 ∷ 2 ∷ [] }

abbrev a_file : List ℕ
a_file = header_magic ++ 1 ∷ 8 ∷ (replicate 32 5 ++ (1 ∷ 2 ∷ []))

serialize_file_run : serialize_file a_proof 100 ≡ ok (pos (length a_file), a_file)
unfolding serialize_file digest_len_of to_int
serialize_file_run = refl

parse_file_run : parse_file a_file ≡ ok a_proof
unfolding parse_file digest_len_of same_bytes
parse_file_run = refl

-- A SHA-1 proof with a short body is written, and then refused.
short_file_run :
    parse_file (header_magic ++ 1 ∷ 2 ∷ (replicate 20 5 ++ (1 ∷ 2 ∷ []))) ≡ err truncated
unfolding parse_file digest_len_of same_bytes
short_file_run = refl

parse_file-serialize_file_example : parse_file a_file ≡ ok a_proof
parse_file-serialize_file_example =
    parse_file-serialize_file a_proof 100 (pos (length a_file)) a_file serialize_file_run

serialize_file-parse_file_example :
    serialize_file a_proof (length a_file) ≡ ok (pos (length a_file), a_file)
serialize_file-parse_file_example =
    serialize_file-parse_file a_file a_proof (omega arith) parse_file_run

abbrev an_archive : List ℕ
an_archive = 9 ∷ 8 ∷ 7 ∷ []

abbrev a_trailer : List ℕ
a_trailer =
    0x55 ∷ 0x43 ∷ 0x32 ∷ 0x2d ∷ 0x4f ∷ 0x54 ∷ 0x53 ∷ 0 ∷ 1 ∷ 0 ∷ 0 ∷ 0 ∷ 3 ∷ 0 ∷ 0 ∷ 0 ∷ 2 ∷ 0 ∷ 0
    ∷ 0 ∷ 41 ∷ 42 ∷ 2 ∷ 0 ∷ 0 ∷ 0 ∷ 0x55 ∷ 0x43 ∷ 0x32 ∷ 0x2d ∷ 0x4f ∷ 0x54 ∷ 0x53 ∷ 0 ∷ []

trailer_build_run : trailer_build 3 (41 ∷ 42 ∷ []) 34 ≡ ok a_trailer
unfolding trailer_build layout bytes32
trailer_build_run = refl

trailer_parse_plain : trailer_parse an_archive ≡ ok absent
unfolding trailer_parse parse_tail parse_at same_bytes word32 le32
trailer_parse_plain = refl

trailer_parse-trailer_build_example :
    trailer_parse (an_archive ++ a_trailer) ≡ ok (found (length an_archive) (41 ∷ 42 ∷ []))
trailer_parse-trailer_build_example =
    trailer_parse-trailer_build an_archive (41 ∷ 42 ∷ []) 34 a_trailer (omega arith)
      trailer_build_run

-- A hash that is easy to compute.
abbrev zeros : Sha
zeros = record {
  sha256 = λ xs. replicate 32 0;
  length-sha256 = λ xs. length-replicate {A = ℕ} 32 0;
}

abbrev go_on : Attestation → Bool
go_on call = false

abbrev a_tag : List ℕ
a_tag = 1 ∷ 2 ∷ 3 ∷ 4 ∷ 5 ∷ 6 ∷ 7 ∷ 8 ∷ []

-- A branch with an attestation of the digest, then an append of 66, then an attestation.
abbrev a_body : List ℕ
a_body = 0xff ∷ 0 ∷ (a_tag ++ 1 ∷ 55 ∷ 0xf0 ∷ 1 ∷ 66 ∷ 0 ∷ (a_tag ++ 0 ∷ []))

walk_run :
    walk zeros go_on a_body (5 ∷ [])
    ≡ ok (
      verified,
      record { tag = a_tag; payload = 55 ∷ []; digest = 5 ∷ [] }
          ∷ record { tag = a_tag; payload = []; digest = 5 ∷ 66 ∷ [] }
          ∷ [],
    )
unfolding walk walk_node walk_items walk_item walk_attestation read_head apply_op apply_binary
    read_varbytes varint_decode decode_from
walk_run = refl

walk_unknown : walk zeros go_on (0x77 ∷ []) (5 ∷ []) ≡ err bad_op
unfolding walk walk_node walk_items walk_item read_head apply_op
walk_unknown = refl

walk-ne-stuck_example : walk zeros go_on a_body (5 ∷ []) ≢ stuck
walk-ne-stuck_example = walk-ne-stuck zeros go_on a_body (5 ∷ [])

-- The same as a tree.
abbrev a_stamp : Stamp
a_stamp = fork (attest a_tag (55 ∷ [])) (last (apply (append (66 ∷ [])) (last (attest a_tag []))))

a_stamp_run : stamp_bytes a_stamp ≡ a_body
unfolding stamp_bytes item_bytes varbytes varint_encode encode_acc lt_wf dec_le
a_stamp_run = refl

a_stamp_fits : StampFits zeros a_stamp (5 ∷ []) 0
unfolding StampFits ItemFits
a_stamp_fits = ground arith

walk-stamp_bytes_example :
    walk zeros go_on (stamp_bytes a_stamp) (5 ∷ [])
    ≡ ok (verified, stamp_log zeros a_stamp (5 ∷ []))
unfolding stamp_skips
walk-stamp_bytes_example =
    walk-stamp_bytes zeros go_on (λ call. refl) a_stamp (5 ∷ []) (omega arith) a_stamp_fits

abbrev before : Walker
before = record { rest = 2 ∷ 66 ∷ 67 ∷ 0 ∷ []; seen = []; has_unsupported_op = false }

abbrev behind : Walker
behind = record { rest = 0 ∷ []; seen = []; has_unsupported_op = false }

abbrev grown : List ℕ
grown = 66 ∷ 67 ∷ 5 ∷ []

apply_op_run : apply_op zeros go_on before 0xf1 (5 ∷ []) ≡ ok (grown, behind)
unfolding apply_op apply_binary read_varbytes varint_decode decode_from
apply_op_run = refl

apply_op_bounds_example :
    (length grown ≤ max_digest_len) × (length behind.rest ≤ length before.rest)
apply_op_bounds_example =
    apply_op_bounds zeros go_on before behind 0xf1 (5 ∷ []) grown (omega arith) apply_op_run
