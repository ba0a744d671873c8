-- ===== src/Lanes/Key.antt =====
-- `lane_key`: `json.dumps([receiver_kind, topic_id], ensure_ascii=False, separators=(",", ":"))`, on
-- lists of code points, with the escapes of the standard library's JSON encoder.
use mathlib.Core.List.{append_assoc}
use herdres.Prelude.{
  List, Option, [], arith, if◌then◌else◌, ltb, nat_eq, none, refl, some, string_eq, sym, ℕ, ◌%◌,
  ◌++◌, ◌+◌, ◌-◌, ◌/◌, ◌==◌, ◌∙◌, ◌∷◌, ◌≡◌, ◌≢◌,
}

hex_digit : ℕ → ℕ
hex_digit v = if ltb v 10 then b'0' + v else b'a' + (v - 10)

-- The letter that stands behind a backslash for a code point with a short escape.
short_escape : ℕ → Option ℕ
short_escape c =
    if c == b'"'
    then some b'"'
    else if c == 92
    then some 92
    else if c == 8
    then some b'b'
    else if c == 9
    then some b't'
    else if c == 10
    then some b'n'
    else if c == 12
    then some b'f'
    else if c == 13
    then some b'r'
    else none

escape_char : ℕ → List ℕ
escape_char c = elim (short_escape c) [
  | some l ↦ 92 ∷ l ∷ []
  | none ↦
      if ltb c 32
      then 92 ∷ b'u' ∷ b'0' ∷ b'0' ∷ hex_digit (c / 16) ∷ hex_digit (c % 16) ∷ []
      else c ∷ []
]

escape : List ℕ → List ℕ
escape [] = []
escape (c ∷ cs) = escape_char c ++ escape cs

json_text : List ℕ → List ℕ → List ℕ
json_text s rest = b'"' ∷ escape s ++ b'"' ∷ rest

unfoldable pub lane_key : List ℕ → List ℕ → List ℕ
unfolding json_text escape escape_char short_escape hex_digit
lane_key receiver_kind topic_id =
    b'[' ∷ json_text receiver_kind (b',' ∷ json_text topic_id (b']' ∷ []))

-- No code point's spelling is the beginning of another's.
escape_char_prefix :
    (c d : ℕ) (xs ys : List ℕ) → escape_char c ++ xs ≡ escape_char d ++ ys → (c ≡ d) × (xs ≡ ys)
unfolding escape_char short_escape hex_digit
escape_char_prefix c d xs ys h = ground arith

-- The closing quote begins no spelling.
escape_char_quote : (c : ℕ) (xs ys : List ℕ) → escape_char c ++ xs ≢ b'"' ∷ ys
unfolding escape_char short_escape
escape_char_quote c xs ys h = ground arith

-- A spelled text ends at its quote, so what stands behind it can be read off.
json_text_prefix :
    (s t xs ys : List ℕ) → escape s ++ b'"' ∷ xs ≡ escape t ++ b'"' ∷ ys → (s ≡ t) × (xs ≡ ys)
unfolding escape
json_text_prefix [] [] xs ys h = (refl, cc)
json_text_prefix [] (d ∷ ds) xs ys h = absurd (
    escape_char_quote d (escape ds ++ b'"' ∷ ys) xs
      (sym (h ∙ append_assoc (escape_char d) (escape ds) (b'"' ∷ ys))))
json_text_prefix (c ∷ cs) [] xs ys h = absurd (
    escape_char_quote c (escape cs ++ b'"' ∷ xs) ys
      (sym (append_assoc (escape_char c) (escape cs) (b'"' ∷ xs)) ∙ h))
json_text_prefix (c ∷ cs) (d ∷ ds) xs ys h =
    let (e, rest) = escape_char_prefix c d (escape cs ++ b'"' ∷ xs) (escape ds ++ b'"' ∷ ys) (
      sym (append_assoc (escape_char c) (escape cs) (b'"' ∷ xs))
      ∙ h
      ∙ append_assoc (escape_char d) (escape ds) (b'"' ∷ ys)) in
    let (f, q) = json_text_prefix cs ds xs ys rest in (cc (e, f), q)

-- Two pairs of a receiver and a topic have one lane only if they are the same pair.
pub lane_key-injective : (r s t u : List ℕ) → lane_key r t ≡ lane_key s u → (r ≡ s) × (t ≡ u)
unfolding lane_key
lane_key-injective r s t u h =
    let after = λ (x : List ℕ). b',' ∷ json_text x (b']' ∷ []) in
    let (e, rest) = json_text_prefix r s (after t) (after u) (cc h) in
    let (f, _) = json_text_prefix t u (b']' ∷ []) (b']' ∷ []) (cc rest) in (e, f)
