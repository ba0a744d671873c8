-- ===== src/Identity.antt =====
-- herdres_connector/ingress_identity.py: the private identity of a Telegram ingress request. Texts
-- are lists of code points; the MAC is a parameter, known only to give 32 bytes.
pub mod Encoding
pub mod Check
mod Examples
use herdres.Prelude.{
  Bool, List, Option, [], codes, false, if◌then◌else◌, leb, length, ltb, nat_eq, none, some,
  string_eq, true, ℕ, ◌%◌, ◌&&◌, ◌*◌, ◌++◌, ◌+◌, ◌-◌, ◌/◌, ◌==◌, ◌∷◌,
}

-- One character of the base64url alphabet for each value below 64.
pub sextet_char : ℕ → ℕ
sextet_char v =
    if ltb v 26
    then b'A' + v
    else if ltb v 52
    then b'a' + (v - 26)
    else if ltb v 62
    then b'0' + (v - 52)
    else if v == 62
    then b'-'
    else b'_'

-- Its inverse; `none` outside the alphabet.
pub char_sextet : ℕ → Option ℕ
char_sextet c =
    if leb b'A' c && leb c b'Z'
    then some (c - b'A')
    else if leb b'a' c && leb c b'z'
    then some (c - b'a' + 26)
    else if leb b'0' c && leb c b'9'
    then some (c - b'0' + 52)
    else if c == b'-'
    then some 62
    else if c == b'_'
    then some 63
    else none

-- `base64.urlsafe_b64encode(digest).rstrip(b"=")`, before the alphabet: three bytes give four
-- sextets, two give three and one gives two.
pub to_sextets : List ℕ → List ℕ
to_sextets [] = []
to_sextets (a ∷ []) = (a / 4) ∷ (a % 4 * 16) ∷ []
to_sextets (a ∷ b ∷ []) = (a / 4) ∷ (a % 4 * 16 + b / 16) ∷ (b % 16 * 4) ∷ []
to_sextets (a ∷ b ∷ c ∷ rest) =
    (a / 4) ∷ (a % 4 * 16 + b / 16) ∷ (b % 16 * 4 + c / 64) ∷ (c % 64) ∷ to_sextets rest

-- `base64.b64decode(encoded + "=", altchars=b"-_", validate=True)`, after the alphabet: with one
-- `=` of padding the last group has three characters, and any other length is refused. The two low
-- bits of the last sextet are dropped.
pub from_sextets : List ℕ → Option (List ℕ)
from_sextets [] = none
from_sextets (p ∷ []) = none
from_sextets (p ∷ q ∷ []) = none
from_sextets (p ∷ q ∷ r ∷ []) = some ((p * 4 + q / 16) ∷ (q % 16 * 16 + r / 4) ∷ [])
from_sextets (p ∷ q ∷ r ∷ s ∷ rest) = elim (from_sextets rest) [
  | none ↦ none
  | some bytes ↦ some ((p * 4 + q / 16) ∷ (q % 16 * 16 + r / 4) ∷ (r % 4 * 64 + s) ∷ bytes)
]

pub map_chars : List ℕ → List ℕ
unfolding sextet_char
map_chars [] = []
map_chars (v ∷ vs) = sextet_char v ∷ map_chars vs

pub read_chars : List ℕ → Option (List ℕ)
unfolding char_sextet
read_chars [] = some []
read_chars (c ∷ cs) = elim (char_sextet c) [
  | none ↦ none
  | some v ↦ elim (read_chars cs) [ none ↦ none | some vs ↦ some (v ∷ vs) ]
]

pub same_codes : List ℕ → List ℕ → Bool
same_codes [] [] = true
same_codes [] (y ∷ ys) = false
same_codes (x ∷ xs) [] = false
same_codes (x ∷ xs) (y ∷ ys) = x == y && same_codes xs ys

-- `_REQUEST_ID_PREFIX`
abbrev pub request_id_prefix : List ℕ
request_id_prefix = codes "hri1_"

unfoldable pub strip_prefix : List ℕ → List ℕ → Option (List ℕ)
strip_prefix [] ys = some ys
strip_prefix (x ∷ xs) [] = none
strip_prefix (x ∷ xs) (y ∷ ys) = if x == y then strip_prefix xs ys else none

-- The last checks of `validate_request_id`: 32 bytes, and the canonical spelling of those bytes.
pub check_digest : List ℕ → Option (List ℕ) → Bool
check_digest encoded none = false
check_digest encoded (some digest) =
    length digest == 32 && same_codes encoded (map_chars (to_sextets digest))

pub check_sextets : List ℕ → Option (List ℕ) → Bool
check_sextets encoded none = false
check_sextets encoded (some vs) = check_digest encoded (from_sextets vs)

-- The checks behind the prefix; the first is that of the regular expression.
pub valid_encoded : List ℕ → Bool
valid_encoded encoded = length encoded == 43 && check_sextets encoded (read_chars encoded)

pub check_encoded : Option (List ℕ) → Bool
check_encoded none = false
check_encoded (some encoded) = valid_encoded encoded

-- `validate_request_id`, as a test.
unfoldable pub valid_request_id : List ℕ → Bool
unfolding check_encoded strip_prefix valid_encoded check_sextets check_digest same_codes map_chars
    to_sextets read_chars from_sextets
valid_request_id text = check_encoded (strip_prefix request_id_prefix text)

-- What `derive_telegram_request_id` makes of the MAC's digest.
pub encode_request_id : List ℕ → List ℕ
encode_request_id digest = request_id_prefix ++ map_chars (to_sextets digest)
