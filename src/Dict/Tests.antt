-- ===== src/Dict/Tests.antt =====
-- Runs of the dictionary code, and its theorems at concrete inputs.
use uc.Common.{◌≡◌, refl, List, [], ◌∷◌, ◌++◌, ℕ, arith, true, false, Bool, ◌≢◌}
use uc.Common.Result.{ok, err}
use uc.Common.Words.{bytes32, word32, le32}
use uc.Cdc.Chunker.{fnv1a, fnv1a_from}
use uc.Merkle.Tree.{hash64, hash64_from, bytes64}
use uc.Dict.Store.{
  Dict, minus_one, out_of_bounds, dict_create, dict_verify, dict_free, dict_header, dict_serialize,
  dict_deserialize,
}
use uc.Dict.RoundTrip.{IsDict, dict_deserialize-dict_serialize, dict_verify-dict_create}
use uc.Dict.Bounds.{dict_deserialize_in_bounds, dict_deserialize_wraps}

abbrev plenty : ℕ → Bool
plenty n = true

abbrev three : List ℕ
three = 1 ∷ 2 ∷ 3 ∷ []

abbrev a_dict : Dict
a_dict = record { id = 15035938162879559083; checksum = 1456420779; size = 3; content = three }

abbrev stored : List ℕ
stored =
    85 ∷ 67 ∷ 50 ∷ 68 ∷ 171 ∷ 245 ∷ 44 ∷ 103 ∷ 24 ∷ 98 ∷ 170 ∷ 208 ∷ 171 ∷ 55 ∷ 207 ∷ 86 ∷ 3 ∷ 0 ∷ 0
    ∷ 0 ∷ 0 ∷ 0 ∷ 0 ∷ 0 ∷ 1 ∷ 2 ∷ 3 ∷ []

dict_create_run : dict_create plenty three ≡ ok a_dict
unfolding dict_create hash64 hash64_from fnv1a fnv1a_from
dict_create_run = refl

dict_create_empty : dict_create plenty [] ≡ err minus_one
unfolding dict_create
dict_create_empty = refl

-- What was freed does not pass the check.
dict_free_run : dict_verify (dict_free a_dict) ≡ false
unfolding dict_free dict_verify fnv1a fnv1a_from
dict_free_run = refl

dict_serialize_run : dict_serialize plenty a_dict ≡ ok stored
unfolding dict_serialize dict_header bytes32 bytes64
dict_serialize_run = refl

dict_verify-dict_create_example : IsDict a_dict × (dict_verify a_dict ≡ true) × (three ≡ three)
dict_verify-dict_create_example =
    dict_verify-dict_create plenty three a_dict (omega arith) dict_create_run

dict_deserialize-dict_serialize_example : dict_deserialize plenty (stored ++ (9 ∷ [])) ≡ ok a_dict
dict_deserialize-dict_serialize_example =
    dict_deserialize-dict_serialize plenty plenty a_dict stored (9 ∷ [])
      (record { id_fits = omega arith; checksum_fits = omega arith; size_is = refl })
      dict_serialize_run refl

dict_deserialize_in_bounds_example : dict_deserialize plenty stored ≢ err out_of_bounds
dict_deserialize_in_bounds_example =
    dict_deserialize_in_bounds plenty stored (unfold word32 le32 in omega arith)

-- A header alone, which declares a size of 2^32 - 1.
abbrev hostile : List ℕ
hostile =
    0x55 ∷ 0x43 ∷ 0x32 ∷ 0x44 ∷ 0 ∷ 0 ∷ 0 ∷ 0 ∷ 0 ∷ 0 ∷ 0 ∷ 0 ∷ 0 ∷ 0 ∷ 0 ∷ 0 ∷ 255 ∷ 255 ∷ 255
    ∷ 255 ∷ 0 ∷ 0 ∷ 0 ∷ 0 ∷ []

dict_deserialize_wraps_example : dict_deserialize plenty hostile ≡ err out_of_bounds
dict_deserialize_wraps_example =
    dict_deserialize_wraps plenty hostile (omega arith) (omega arith) (unfold word32 le32 in refl)
      (unfold word32 le32 in omega arith) (unfold word32 le32 in omega arith) refl
