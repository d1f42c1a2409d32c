-- ===== src/Csum/Tests.antt =====
-- Runs of the checksum, and its theorem at a concrete input.
use uc.Common.{◌≡◌, refl, List, [], ◌∷◌, ◌++◌, ℕ, arith, All}
use uc.Common.Words.{le16, IsByte}
use uc.Csum.Update.{csum_init, csum_update, csum_get, fold16}
use uc.Csum.Split.{csum_update-append}

abbrev front : List ℕ
front = 1 ∷ 2 ∷ 3 ∷ []

abbrev rear : List ℕ
rear = 4 ∷ 5 ∷ []

csum_update_run : csum_get (csum_update csum_init (front ++ rear)) ≡ 41821
unfolding csum_update fold16 le16
csum_update_run = refl

csum_update_pieces : csum_update (csum_update csum_init front) rear ≡ 107357
unfolding csum_update fold16 le16
csum_update_pieces = refl

front-IsByte : All IsByte front
front-IsByte = omega arith

rear-IsByte : All IsByte rear
rear-IsByte = omega arith

csum_update-append_example :
    csum_update (csum_update csum_init front) rear ≡ csum_update csum_init (front ++ rear)
csum_update-append_example = csum_update-append csum_init front rear front-IsByte rear-IsByte
