-- ===== src/Tables/Spans.antt =====
-- `split_table_aware_spans` and `table_continuation_header`.
use herdres.Prelude.{
  Bool, List, Option, Text, [], find, if◌then◌else◌, leb, length, ltb, nat_eq, none, not, some,
  string_eq, suc, text_eq, ℕ, ◌&&◌, ◌-◌, ◌==◌, ◌||◌, ◌∷◌,
}
use herdres.Chunks.Boundary.{cr, larger, lf, preferred_span_end, starts_with}
use herdres.Chunks.Spans.{forward, hard_end_of, spans_from}
use herdres.Safe.{Unicode}
use herdres.Tables.Blocks.{Block, markdown_table_blocks}

-- `match.end()` of `\r\n|\n|\r`, from a character at `offset`.
unfoldable pub row_ends : ℕ → Text → List ℕ
row_ends offset [] = []
row_ends offset (c ∷ cs) =
    let rest = row_ends (suc offset) cs in
    if c == lf || (c == cr && not (starts_with (lf ∷ []) cs)) then suc offset ∷ rest else rest

abbrev pub filter : (ℕ → Bool) → List ℕ → List ℕ
filter p [] = []
filter p (x ∷ xs) = let rest = filter p xs in if p x then x ∷ rest else rest

abbrev pub maximum : List ℕ → Option ℕ
maximum [] = none
maximum (x ∷ xs) = larger (some x) (maximum xs)

abbrev pub row_boundaries : Text → Block → List ℕ
row_boundaries text b = filter (λ e. ltb b.data_start e && leb e b.block_end_at) (row_ends 0 text)

-- The next end of a row, unless there is none or it is too far.
abbrev pub next_row : ℕ → ℕ → ℕ → Option ℕ → ℕ
next_row start limit generic none = generic
next_row start limit generic (some e) = if ltb limit (e - start) then generic else e

abbrev pub row_end : Text → ℕ → ℕ → ℕ → Block → Option ℕ → ℕ
row_end text limit start generic b (some e) = e
row_end text limit start generic b none =
    if ltb start b.block_start
    then b.block_start
    else next_row start limit generic (find (λ e. ltb start e) (row_boundaries text b))

-- The first table that `generic` falls into moves the end.
abbrev pub table_end : Text → ℕ → ℕ → ℕ → Option Block → ℕ
table_end text limit start generic none = generic
table_end text limit start generic (some b) =
    row_end text limit start generic b
      (maximum (filter (λ e. ltb start e && leb e generic) (row_boundaries text b)))

abbrev pub falls_into : ℕ → Block → Bool
falls_into e b = ltb b.block_start e && ltb e b.block_end_at

unfoldable pub next_table_end : Text → List Block → ℕ → ℕ → ℕ
unfolding row_ends
next_table_end text tables limit start =
    let generic = preferred_span_end text start (hard_end_of text limit start) limit in
    forward start (hard_end_of text limit start)
      (table_end text limit start generic (find (falls_into generic) tables))

module _ ⦃u : Unicode⦄ where
  -- `none` is the `ValueError` of a limit that is not positive.
  unfoldable pub split_table_aware_spans : Text → ℕ → Option (List (ℕ × ℕ))
  unfolding markdown_table_blocks
  split_table_aware_spans text limit =
      if leb limit 0
      then none
      else some (
          spans_from (next_table_end text (markdown_table_blocks text) limit) (length text)
            (length text) 0)

  -- The first table whose data `start` continues.
  abbrev pub continues : ℕ → Block → Bool
  continues start b =
      leb b.data_start start && ltb start b.block_end_at && not (start == b.block_start)

  abbrev pub repeated : ℕ → Option Block → Text
  repeated limit none = []
  repeated limit (some b) = if ltb limit (length b.header) then [] else b.header

  unfoldable pub table_continuation_header : Text → ℕ → ℕ → Option Text
  unfolding markdown_table_blocks
  table_continuation_header text start limit =
      if leb limit 0
      then none
      else some (repeated limit (find (continues start) (markdown_table_blocks text)))
