-- ===== src/Chunks/Spans.antt =====
-- `split_text_spans` and `split_text_chunks`.
-- `end = …; if end <= start: end = hard_end`
use herdres.Prelude.{
  List, Option, Text, [], drop, false, if◌then◌else◌, leb, length, ltb, map, min, none, some, suc,
  take, true, zero, ℕ, ◌+◌, ◌-◌, ◌∷◌,
}
use herdres.Chunks.Boundary.{preferred_span_end}

abbrev pub forward : ℕ → ℕ → ℕ → ℕ
forward start hard_end end = if leb end start then hard_end else end

-- The loop of both splitters: `next` is the end that is chosen from a start. Each round consumes a
-- character at least, so as many rounds as characters are enough.
unfoldable pub spans_from : (ℕ → ℕ) → ℕ → ℕ → ℕ → List (ℕ × ℕ)
spans_from next size zero start = []
spans_from next size (suc fuel) start = elim (ltb start size) [
  | true ↦ (start, next start) ∷ spans_from next size fuel (next start)
  | false ↦ []
]

abbrev pub hard_end_of : Text → ℕ → ℕ → ℕ
hard_end_of text limit start = min (length text) (start + limit)

unfoldable pub next_end : Text → ℕ → ℕ → ℕ
next_end text limit start =
    forward start (hard_end_of text limit start)
      (preferred_span_end text start (hard_end_of text limit start) limit)

-- `none` is the `ValueError` of a limit that is not positive.
unfoldable pub split_text_spans : Text → ℕ → Option (List (ℕ × ℕ))
split_text_spans text limit =
    if leb limit 0
    then none
    else some (spans_from (next_end text limit) (length text) (length text) 0)

-- `text[start:end]`
abbrev pub slice : Text → ℕ × ℕ → Text
slice text (a, b) = take (b - a) (drop a text)

abbrev pub chunks_of : Text → Option (List (ℕ × ℕ)) → Option (List Text)
chunks_of text none = none
chunks_of text (some spans) = some (map (slice text) spans)

unfoldable pub split_text_chunks : Text → ℕ → Option (List Text)
split_text_chunks text limit = chunks_of text (split_text_spans text limit)
