-- ===== src/Tables/Examples.antt =====
-- The splitter that keeps table rows whole, at a small table.
use herdres.Prelude.{List, Text, [], arith, codes, length, map, refl, some, true, ℕ, ◌++◌, ◌∷◌, ◌≡◌}
use herdres.Chunks.Boundary.{
  after_last, block_end, lf, line_end, natural_end, preferred_span_end, rfind_from, word_end,
}
use herdres.Chunks.Cover.{Tiles}
use herdres.Chunks.Joined.{join}
use herdres.Chunks.Spans.{slice, spans_from, split_text_spans}
use herdres.Safe.{has_ink}
use herdres.Safe.Ascii.{ascii, ascii_space}
use herdres.Tables.Blocks.{blocks_from, data_rows, markdown_table_blocks, try_render_table}
use herdres.Tables.Cells.{
  looks_like_table_separator, matches_separator, scan_cells, split_bars, table_cells,
}
use herdres.Tables.Lines.{lstrip, rstrip, splitlines}
use herdres.Tables.Plain.{split_table_aware_spans-plain}
use herdres.Tables.Spans.{
  next_table_end, row_ends, split_table_aware_spans, table_continuation_header,
}
use herdres.Tables.Tiled.{split_table_aware_spans-Tiles}

abbrev table : Text
table = codes "|a" ++ (lf ∷ []) ++ codes "|-" ++ (lf ∷ []) ++ codes "|1"

abbrev first_lines : Text
first_lines = codes "|a" ++ (lf ∷ []) ++ codes "|-" ++ (lf ∷ [])

table_lines :
    splitlines table ≡ (codes "|a" ++ (lf ∷ [])) ∷ (codes "|-" ++ (lf ∷ [])) ∷ codes "|1" ∷ []
unfolding splitlines
table_lines = refl

row_cells : table_cells (codes "|a") ≡ codes "a" ∷ []
unfolding table_cells scan_cells lstrip rstrip ascii_space
row_cells = refl

rule_line : looks_like_table_separator (codes "|-") ≡ true
unfolding looks_like_table_separator matches_separator split_bars lstrip rstrip has_ink ascii_space
rule_line = refl

table_blocks :
    markdown_table_blocks table
    ≡ record { block_start = 0; data_start = 6; block_end_at = 8; header = first_lines } ∷ []
unfolding markdown_table_blocks blocks_from try_render_table data_rows splitlines
    looks_like_table_separator matches_separator split_bars lstrip rstrip table_cells scan_cells
    has_ink ascii_space
table_blocks = refl

split_table_aware_spans-Tiles_example :
    (spans : List (ℕ × ℕ)) × (split_table_aware_spans table 7 ≡ some spans)
    × Tiles 7 0 (length table) spans
    × (join (map (slice table) spans) ≡ table)
split_table_aware_spans-Tiles_example = split_table_aware_spans-Tiles table 7 (omega arith)

abbrev plain : Text
plain = codes "no table here"

split_table_aware_spans-plain_example : split_table_aware_spans plain 5 ≡ split_text_spans plain 5
split_table_aware_spans-plain_example = split_table_aware_spans-plain plain 5 refl

abbrev long_table : Text
long_table = table ++ (lf ∷ []) ++ codes "|22"

-- The rows stay whole: the ordinary splitter ends the first part at the limit.
table_spans : split_table_aware_spans long_table 10 ≡ some ((0, 9) ∷ (9, 12) ∷ [])
unfolding split_table_aware_spans next_table_end row_ends spans_from preferred_span_end natural_end
    block_end line_end word_end after_last rfind_from markdown_table_blocks blocks_from
    try_render_table data_rows splitlines looks_like_table_separator matches_separator split_bars
    lstrip rstrip table_cells scan_cells has_ink ascii_space
table_spans = refl

table_header : table_continuation_header long_table 9 20 ≡ some first_lines
unfolding table_continuation_header markdown_table_blocks blocks_from try_render_table data_rows
    splitlines looks_like_table_separator matches_separator split_bars lstrip rstrip table_cells
    scan_cells has_ink ascii_space
table_header = refl
