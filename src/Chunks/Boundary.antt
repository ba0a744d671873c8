-- ===== src/Chunks/Boundary.antt =====
-- `_preferred_span_end`: where a part may end.
-- `text[i:].startswith(prefix)`
use herdres.Prelude.{
  Bool, Option, Text, [], coalesce, drop, false, if◌then◌else◌, leb, length, ltb, max, nat_eq, none,
  some, string_eq, suc, text_eq, true, zero, ℕ, ◌&&◌, ◌+◌, ◌-◌, ◌/◌, ◌==◌, ◌∷◌,
}

abbrev pub starts_with : Text → Text → Bool
starts_with [] text = true
starts_with (c ∷ cs) [] = false
starts_with (c ∷ cs) (d ∷ text) = c == d && starts_with cs text

-- Whether the separator stands at `i` and ends by `hard_end`.
abbrev pub fits_at : Text → Text → ℕ → ℕ → Bool
fits_at text sep hard_end i = leb (i + length sep) hard_end && starts_with sep (drop i text)

-- `text.rfind(sep, lower, …)`, from `k` places above `lower` down.
unfoldable pub rfind_from : Text → Text → ℕ → ℕ → ℕ → Option ℕ
rfind_from text sep lower hard_end zero =
    if fits_at text sep hard_end lower then some lower else none
rfind_from text sep lower hard_end (suc k) =
    let below = rfind_from text sep lower hard_end k in
    if fits_at text sep hard_end (lower + suc k) then some (lower + suc k) else below

-- The place behind the last separator.
unfoldable pub after_last : Text → ℕ → ℕ → Text → Option ℕ
after_last text lower hard_end sep = elim (rfind_from text sep lower hard_end (hard_end - lower)) [
  | none ↦ none
  | some found ↦ some (found + length sep)
]

abbrev pub larger : Option ℕ → Option ℕ → Option ℕ
larger none b = b
larger (some a) none = some a
larger (some a) (some b) = some (max a b)

abbrev pub cr : ℕ
cr = 13

abbrev pub lf : ℕ
lf = 10

abbrev pub crlf : Text
crlf = cr ∷ lf ∷ []

-- Whole blocks, the first kind of separator that is found.
unfoldable pub block_end : Text → ℕ → ℕ → Option ℕ
block_end text lower hard_end = coalesce (after_last text lower hard_end (cr ∷ lf ∷ cr ∷ lf ∷ [])) (
    coalesce (after_last text lower hard_end (lf ∷ lf ∷ []))
      (after_last text lower hard_end (cr ∷ cr ∷ [])))

unfoldable pub line_end : Text → ℕ → ℕ → Option ℕ
line_end text lower hard_end =
    larger (after_last text lower hard_end crlf)
      (larger (after_last text lower hard_end (lf ∷ [])) (after_last text lower hard_end (cr ∷ [])))

unfoldable pub word_end : Text → ℕ → ℕ → Option ℕ
word_end text lower hard_end =
    larger (after_last text lower hard_end (b' ' ∷ [])) (after_last text lower hard_end (9 ∷ []))

unfoldable pub natural_end : Text → ℕ → ℕ → Option ℕ
natural_end text lower hard_end =
    coalesce (block_end text lower hard_end)
      (coalesce (line_end text lower hard_end) (word_end text lower hard_end))

abbrev pub get_or : ℕ → Option ℕ → ℕ
get_or d none = d
get_or d (some a) = a

-- `text[hard_end - 1 : hard_end + 1] == "\r\n"` moves the end back, if that leaves something.
abbrev pub keep_crlf : Text → ℕ → ℕ → ℕ
keep_crlf text start hard_end =
    if ltb (start + 1) hard_end && starts_with crlf (drop (hard_end - 1) text)
    then hard_end - 1
    else hard_end

abbrev pub end_above : Text → ℕ → ℕ → ℕ
end_above text lower hard_end =
    if leb hard_end lower then hard_end else get_or hard_end (natural_end text lower hard_end)

unfoldable pub preferred_span_end : Text → ℕ → ℕ → ℕ → ℕ
unfolding natural_end block_end line_end word_end after_last rfind_from
preferred_span_end text start hard_end limit =
    if leb (length text) hard_end
    then length text
    else end_above text (start + max 1 (limit / 2)) (keep_crlf text start hard_end)
