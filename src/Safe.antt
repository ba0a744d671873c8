-- ===== src/Safe.antt =====
-- herdres_connector/safe.py: what is removed from a text before it is stored or shown.
pub mod Ascii
pub mod Sanitized
mod Examples
use herdres.Prelude.{
  Bool, Option, Text, [], any, codes, false, if◌then◌else◌, leb, nat_eq, none, not, some, string_eq,
  suc, text_eq, true, zero, ℕ, ◌&&◌, ◌++◌, ◌+◌, ◌-◌, ◌==◌, ◌||◌, ◌∷◌, ◌≡◌,
}

-- The classes `\d` and `\w` of Python's `re` and `str.isspace`, over code points. What the program relies on: a digit
-- is a word character, and on ASCII the classes are the usual ones.
pub record Unicode : Type 0 where
  pub is_digit : ℕ → Bool
  pub is_word : ℕ → Bool
  pub is_space : ℕ → Bool
  pub digit_word : (c : ℕ) → is_digit c ≡ true → is_word c ≡ true
  pub colon_no_digit : is_digit b':' ≡ false

-- [A-Za-z0-9_-]
abbrev pub is_token_char : ℕ → Bool
is_token_char c =
    (leb b'A' c && leb c b'Z')
    || (leb b'a' c && leb c b'z')
    || (leb b'0' c && leb c b'9')
    || (c == b'_')
    || (c == b'-')

-- `"[redacted-token]"`
abbrev pub redaction : Text
redaction = codes "[redacted-token]"

-- `ch in "\n\t" or ord(ch) >= 32`
abbrev pub is_printable : ℕ → Bool
is_printable c = (c == 10) || (c == 9) || leb 32 c

unfoldable pub printable : Text → Text
printable [] = []
printable (c ∷ cs) = if is_printable c then c ∷ printable cs else printable cs

-- `text[:limit]`
abbrev pub cut : ℕ → Text → Text
cut zero cs = []
cut (suc n) [] = []
cut (suc n) (c ∷ cs) = c ∷ cut n cs

module _ ⦃u : Unicode⦄ where
  -- `\b` between a character and the next one.
  abbrev pub is_boundary : Bool → ℕ → Bool
  is_boundary before c = if before then not (u.is_word c) else u.is_word c

  -- `[A-Za-z0-9_-]{20,}\b`: the longest end that the greedy run can back up to. `n` characters are
  -- read and `before` is the class of the last one.
  unfoldable pub token_end : ℕ → Bool → Text → Option ℕ → Option ℕ
  token_end n before [] best = if leb 20 n && before then some n else best
  token_end n before (c ∷ cs) best =
      let best' = if leb 20 n && is_boundary before c then some n else best in
      let further = token_end (suc n) (u.is_word c) cs best' in
      if is_token_char c then further else best'

  -- `\d{6,}:` and the rest, from a place where `n` digits are read: the length of the match. Fewer
  -- digits than there are cannot be followed by a colon.
  unfoldable pub secret_length : ℕ → Text → Option ℕ
  secret_length n [] = none
  secret_length n (c ∷ cs) =
      let further = secret_length (suc n) cs in
      if u.is_digit c
      then further
      else if (c == b':') && leb 6 n
      then (elim (token_end 0 false cs none) [ none ↦ none | some k ↦ some (n + 1 + k) ])
      else none

  -- `SECRET_RE.sub("[redacted-token]", text)`: `skip` characters of the last match are left.
  unfoldable pub redact : ℕ → Bool → Text → Text
  redact skip before [] = []
  redact (suc skip) before (c ∷ cs) = redact skip (u.is_word c) cs
  redact zero before (c ∷ cs) =
      let found = if is_boundary before c then secret_length 0 (c ∷ cs) else none in
      let kept = c ∷ redact zero (u.is_word c) cs in
      elim found [ none ↦ kept | some n ↦ redaction ++ redact (n - 1) (u.is_word c) cs ]

  -- `sanitize_text`, of a value that is a text; a limit of 0 gives the empty text.
  unfoldable pub sanitize_text : Text → ℕ → Text
  unfolding redact secret_length token_end printable
  sanitize_text text limit = cut limit (printable (redact 0 false text))

-- `bool(text.strip())`
unfoldable pub has_ink : ⦃u : Unicode⦄ → Text → Bool
has_ink ⦃u⦄ text = any (λ c. not (u.is_space c)) text
