-- ===== src/Tables/Plain.antt =====
-- About `split_table_aware_spans` on a text without a table.
use herdres.Prelude.{
  All, Bool, Bool-cases, List, Text, [], false, inl, inr, length, nat_eq, none, refl, string_eq,
  text_eq, true, ℕ, ◌+◌, ◌==◌, ◌||◌, ◌∷◌, ◌≡◌,
}
use herdres.Chunks.Spans.{next_end, split_text_spans}
use herdres.Safe.{Unicode}
use herdres.Tables.Blocks.{blocks_from, markdown_table_blocks, try_render_table}
use herdres.Tables.Lines.{ends_line, has_char, push, splitlines}
use herdres.Tables.Spans.{next_table_end, split_table_aware_spans}

or-false : (a b : Bool) → (a || b) ≡ false → (a ≡ false) × (b ≡ false)
or-false true b e = cc
or-false false b e = (refl, e)

push-bars :
    (c : ℕ) (ls : List Text)
    → All (λ l. has_char b'|' l ≡ false) ls
    → (c == b'|') ≡ false
    → All (λ l. has_char b'|' l ≡ false) (push c ls)
push-bars c [] a e = (rw e refl, tt)
push-bars c (l ∷ ls) a e = (rw e a.0, a.1)

splitlines-bars :
    (text : Text)
    → has_char b'|' text ≡ false
    → All (λ l. has_char b'|' l ≡ false) (splitlines text)
unfolding splitlines
splitlines-bars [] e = tt
splitlines-bars (c ∷ cs) e =
    let (h, t) = or-false (c == b'|') (has_char b'|' cs) e in
    let rest = splitlines-bars cs t in
    elim (Bool-cases (ends_line c cs)) [
      | inl k ↦ rw k ((rw h refl), rest)
      | inr k ↦ rw k (push-bars c (splitlines cs) rest h)
    ]

try_render_table-bars :
    ⦃u : Unicode⦄
    → (l : Text) (ls : List Text) → has_char b'|' l ≡ false
    → try_render_table (l ∷ ls) ≡ none
unfolding try_render_table
try_render_table-bars l [] a = refl
try_render_table-bars l (s ∷ ls) a = rw a refl

module _ ⦃u : Unicode⦄ where
  blocks_from-bars :
      (offset : ℕ) (ls : List Text)
      → All (λ l. has_char b'|' l ≡ false) ls
      → blocks_from 0 offset ls ≡ []
  unfolding blocks_from
  blocks_from-bars offset [] a = refl
  blocks_from-bars offset (l ∷ ls) a =
      rw (blocks_from, try_render_table-bars l ls a.0) (blocks_from-bars (offset + length l) ls a.1)

  -- On a text without a bar, the splitter that keeps table rows whole gives what the ordinary
  -- splitter gives, for every limit.
  pub split_table_aware_spans-plain :
      (text : Text) (limit : ℕ)
      → has_char b'|' text ≡ false
      → split_table_aware_spans text limit ≡ split_text_spans text limit
  unfolding split_table_aware_spans split_text_spans markdown_table_blocks next_table_end next_end
  split_table_aware_spans-plain text limit e =
      rw (blocks_from-bars 0 (splitlines text) (splitlines-bars text e)) refl
