-- ===== src/Identity/Examples.antt =====
-- The theorems on request identities at concrete digests.
use herdres.Prelude.{List, [], arith, codes, false, refl, suc, true, zero, ℕ, ◌∷◌, ◌≡◌}
use herdres.Identity.{encode_request_id, valid_request_id}
use herdres.Identity.Check.{valid_request_id-encode_request_id}
use herdres.Safe.Ascii.{ascii}

abbrev zeros : ℕ → List ℕ
zeros zero = []
zeros (suc n) = 0 ∷ zeros n

abbrev one_hot : List ℕ
one_hot = 7 ∷ zeros 31

valid_request_id-encode_request_id_example : valid_request_id (encode_request_id one_hot) ≡ true
valid_request_id-encode_request_id_example =
    valid_request_id-encode_request_id one_hot (omega arith) refl

abbrev zero_id : List ℕ
zero_id = codes "hri1_AAAAAAAAAAAAAAAAAAAAAAAAAAAAAAAAAAAAAAAAAAA"

zero_id_valid : valid_request_id zero_id ≡ true
unfolding valid_request_id
zero_id_valid = refl

-- The last character carries four bits: the other spellings of the same bytes are refused.
other_spelling_invalid :
    valid_request_id (codes "hri1_AAAAAAAAAAAAAAAAAAAAAAAAAAAAAAAAAAAAAAAAAAB") ≡ false
unfolding valid_request_id
other_spelling_invalid = refl
