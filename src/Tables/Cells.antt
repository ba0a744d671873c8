-- ===== src/Tables/Cells.antt =====
-- `_looks_like_table_row`, `_looks_like_table_separator` and `_table_cells`.
use herdres.Prelude.{
  Bool, List, Text, [], drop, false, if◌then◌else◌, leb, length, nat_eq, not, string_eq, take,
  text_eq, true, ◌&&◌, ◌++◌, ◌-◌, ◌==◌, ◌||◌, ◌∷◌,
}
use herdres.Chunks.Boundary.{starts_with}
use herdres.Safe.{Unicode, has_ink}
use herdres.Tables.Lines.{has_char, lstrip, no_text, push, rstrip, strip}

-- `text.endswith(suffix)`
abbrev pub ends_with : Text → Text → Bool
ends_with suffix text =
    leb (length suffix) (length text)
    && starts_with suffix (drop (length text - length suffix) text)

-- `text.split("|")`
unfoldable pub split_bars : Text → List Text
split_bars [] = [] ∷ []
split_bars (c ∷ cs) = let ls = split_bars cs in if c == b'|' then [] ∷ ls else push c ls

-- `-*:?` to the end.
abbrev pub dashes : Text → Bool
dashes [] = true
dashes (c ∷ cs) = let rest = dashes cs in if c == b'-' then rest else c == b':' && no_text cs

-- `-+:?` to the end.
abbrev pub rule_tail : Text → Bool
rule_tail [] = false
rule_tail (c ∷ cs) = c == b'-' && dashes cs

-- `:?-+:?` to the end.
abbrev pub rule : Text → Bool
rule [] = false
rule (c ∷ cs) = if c == b':' then rule_tail cs else rule_tail (c ∷ cs)

module _ ⦃u : Unicode⦄ where
  -- Of the pieces between the bars, the first may be blank, if there is a bar behind it.
  abbrev pub without_first : List Text → List Text
  without_first [] = []
  without_first (l ∷ []) = l ∷ []
  without_first (l ∷ r ∷ ls) = if has_ink l then l ∷ r ∷ ls else r ∷ ls

  -- Each piece is a rule; the last may be blank, if it is not the only one.
  abbrev pub rules : List Text → Bool
  rules [] = true
  rules (l ∷ []) = not (has_ink l) || rule (strip l)
  rules (l ∷ r ∷ ls) = let rest = rules (r ∷ ls) in rule (strip l) && rest

  abbrev pub rules_first : List Text → Bool
  rules_first [] = false
  rules_first (l ∷ []) = rule (strip l)
  rules_first (l ∷ r ∷ ls) = rules (l ∷ r ∷ ls)

  -- `_TABLE_SEPARATOR_RE`: a bar or none, rules with bars between, a bar or none.
  unfoldable pub matches_separator : Text → Bool
  unfolding split_bars lstrip rstrip has_ink
  matches_separator line = rules_first (without_first (split_bars line))

  abbrev pub looks_like_table_row : Text → Bool
  looks_like_table_row line = has_char b'|' line && has_ink line

  unfoldable pub looks_like_table_separator : Text → Bool
  looks_like_table_separator line =
      has_char b'-' (strip line) && has_char b'|' (strip line) && matches_separator (strip line)

  -- The loop over the characters: `escaped` holds behind the backslash of an escaped bar.
  unfoldable pub scan_cells : Bool → Bool → Text → Text → List Text
  scan_cells escaped in_code buf [] = strip buf ∷ []
  scan_cells true in_code buf (c ∷ cs) = scan_cells false in_code (buf ++ (c ∷ [])) cs
  scan_cells false in_code buf (c ∷ cs) = elim (c == b'\\' && starts_with (b'|' ∷ []) cs) [
    | true ↦ scan_cells true in_code buf cs
    | false ↦ elim (c == b'`') [
      | true ↦ scan_cells false (not in_code) (buf ++ (c ∷ [])) cs
      | false ↦ elim (c == b'|' && not in_code) [
        | true ↦ strip buf ∷ scan_cells false in_code [] cs
        | false ↦ scan_cells false in_code (buf ++ (c ∷ [])) cs
      ]
    ]
  ]

  abbrev pub without_lead : Text → Text
  without_lead text = if starts_with (b'|' ∷ []) text then drop 1 text else text

  abbrev pub without_trail : Text → Text
  without_trail text =
      if ends_with (b'|' ∷ []) text && not (ends_with (b'\\' ∷ b'|' ∷ []) text)
      then take (length text - 1) text
      else text

  unfoldable pub table_cells : Text → List Text
  unfolding scan_cells lstrip rstrip
  table_cells line =
      if has_char b'|' (strip line)
      then scan_cells false false [] (without_trail (without_lead (strip line)))
      else []
