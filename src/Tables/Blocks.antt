-- ===== src/Tables/Blocks.antt =====
-- `try_render_table`, as to where a table ends, and `_markdown_table_blocks`.
use herdres.Prelude.{
  Bool, List, Option, Text, [], any, if◌then◌else◌, length, none, some, suc, take, zero, ℕ, ◌&&◌,
  ◌++◌, ◌+◌, ◌-◌, ◌||◌, ◌∷◌,
}
use herdres.Chunks.Boundary.{cr, lf}
use herdres.Chunks.Joined.{join}
use herdres.Safe.{Unicode, has_ink}
use herdres.Tables.Cells.{ends_with, looks_like_table_row, looks_like_table_separator, table_cells}
use herdres.Tables.Lines.{no_text, splitlines}

-- `(start, data_start, end, header)`
pub record Block : Type 0 where
  pub block_start : ℕ
  pub data_start : ℕ
  pub block_end_at : ℕ
  pub header : Text

abbrev pub total_length : List Text → ℕ
total_length [] = 0
total_length (l ∷ ls) = length l + total_length ls

-- `header += "\n"`, if it is not empty and ends otherwise.
abbrev pub closed : Text → Text
closed header =
    if no_text header || ends_with (lf ∷ []) header || ends_with (cr ∷ []) header
    then header
    else header ++ (lf ∷ [])

module _ ⦃u : Unicode⦄ where
  -- The lines of the table behind its first two, and the cells of those that are not separators.
  unfoldable pub data_rows : List Text → ℕ × List (List Text)
  data_rows [] = (0, [])
  data_rows (l ∷ ls) =
      let (n, rows) = data_rows ls in
      if looks_like_table_row l
      then (suc n, if looks_like_table_separator l then rows else table_cells l ∷ rows)
      else (0, [])

  abbrev pub ink_in : List (List Text) → Bool
  ink_in rows = any (any has_ink) rows

  -- How many lines the table has that starts at the first line, if one does.
  unfoldable pub try_render_table : List Text → Option ℕ
  unfolding data_rows
  try_render_table [] = none
  try_render_table (l ∷ []) = none
  try_render_table (l ∷ s ∷ ls) =
      let (n, rows) = data_rows ls in
      if looks_like_table_row l && looks_like_table_separator s && ink_in (table_cells l ∷ rows)
      then some (suc (suc n))
      else none

  abbrev pub block_at : ℕ → ℕ → List Text → Block
  block_at offset n lines = record {
    block_start = offset;
    data_start = offset + total_length (take 2 lines);
    block_end_at = offset + total_length (take n lines);
    header = closed (join (take 2 lines));
  }

  -- From the line at `offset`, when the table before it has `skip` lines more.
  unfoldable pub blocks_from : ℕ → ℕ → List Text → List Block
  blocks_from skip offset [] = []
  blocks_from (suc skip) offset (l ∷ ls) = blocks_from skip (offset + length l) ls
  blocks_from zero offset (l ∷ ls) = elim (try_render_table (l ∷ ls)) [
    | none ↦ blocks_from zero (offset + length l) ls
    | some n ↦ block_at offset n (l ∷ ls) ∷ blocks_from (n - 1) (offset + length l) ls
  ]

  unfoldable pub markdown_table_blocks : Text → List Block
  unfolding blocks_from try_render_table splitlines
  markdown_table_blocks text = blocks_from 0 0 (splitlines text)
