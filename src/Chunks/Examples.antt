-- ===== src/Chunks/Examples.antt =====
-- The splitter at short texts.
use herdres.Prelude.{All, List, Text, [], arith, codes, refl, some, ◌++◌, ◌∷◌, ◌≡◌}
use herdres.Chunks.Boundary.{
  after_last, block_end, cr, lf, line_end, natural_end, preferred_span_end, rfind_from, word_end,
}
use herdres.Chunks.Joined.{IsPart, join, split_text_chunks-join}
use herdres.Chunks.Spans.{next_end, spans_from, split_text_chunks, split_text_spans}
use herdres.Safe.Ascii.{ascii}

abbrev poem : Text
poem = codes "one two " ++ (lf ∷ lf ∷ []) ++ codes "three"

poem_spans : split_text_spans poem 10 ≡ some ((0, 10) ∷ (10, 15) ∷ [])
unfolding split_text_spans spans_from next_end preferred_span_end natural_end block_end line_end
    word_end after_last rfind_from
poem_spans = refl

split_text_chunks-join_example :
    (chunks : List Text) × (split_text_chunks poem 10 ≡ some chunks)
    × (join chunks ≡ poem)
    × All (IsPart 10) chunks
split_text_chunks-join_example = split_text_chunks-join poem 10 (omega arith)

-- A carriage return and the CRLF behind it: the end falls between the two characters of the CRLF.
abbrev torn : Text
torn = codes "abcd" ++ (cr ∷ cr ∷ lf ∷ []) ++ codes "efgh"

torn_spans : split_text_spans torn 8 ≡ some ((0, 6) ∷ (6, 11) ∷ [])
unfolding split_text_spans spans_from next_end preferred_span_end natural_end block_end line_end
    word_end after_last rfind_from
torn_spans = refl
