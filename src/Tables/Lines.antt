-- ===== src/Tables/Lines.antt =====
-- `str.splitlines(keepends=True)` and `str.strip()`, which the table code uses.
use herdres.Prelude.{
  Bool, List, Text, [], any, false, if◌then◌else◌, nat_eq, not, string_eq, text_eq, true, ℕ, ◌&&◌,
  ◌==◌, ◌∷◌,
}
use herdres.Chunks.Boundary.{cr, lf, starts_with}
use herdres.Safe.{Unicode}

-- The characters that end a line for `splitlines`.
abbrev pub line_breaks : Text
line_breaks = 10 ∷ 13 ∷ 11 ∷ 12 ∷ 28 ∷ 29 ∷ 30 ∷ 133 ∷ 8232 ∷ 8233 ∷ []

abbrev pub has_char : ℕ → Text → Bool
has_char c text = any (λ d. d == c) text

abbrev pub no_text : Text → Bool
no_text [] = true
no_text (c ∷ cs) = false

-- Whether a line ends behind this character: the two of a CRLF stay together.
abbrev pub ends_line : ℕ → Text → Bool
ends_line c cs = has_char c line_breaks && not (c == cr && starts_with (lf ∷ []) cs)

abbrev pub push : ℕ → List Text → List Text
push c [] = (c ∷ []) ∷ []
push c (l ∷ ls) = (c ∷ l) ∷ ls

unfoldable pub splitlines : Text → List Text
splitlines [] = []
splitlines (c ∷ cs) = let ls = splitlines cs in if ends_line c cs then (c ∷ []) ∷ ls else push c ls

module _ ⦃u : Unicode⦄ where
  unfoldable pub lstrip : Text → Text
  lstrip [] = []
  lstrip (c ∷ cs) = let rest = lstrip cs in if u.is_space c then rest else c ∷ cs

  -- In front of what is left of the rest.
  abbrev pub trimmed : ℕ → Text → Text
  trimmed c [] = if u.is_space c then [] else c ∷ []
  trimmed c (d ∷ rest) = c ∷ d ∷ rest

  unfoldable pub rstrip : Text → Text
  rstrip [] = []
  rstrip (c ∷ cs) = trimmed c (rstrip cs)

  abbrev pub strip : Text → Text
  strip text = rstrip (lstrip text)
