-- ===== src/Tables/Tiled.antt =====
-- About the spans of `split_table_aware_spans`.
use herdres.Prelude.{
  All, All-map, Bool, Bool-cases, List, Option, Option-cases, Text, [], arith, false, find,
  find_lem, inl, inr, leb, length, ltb, ltb→lt, map, max, nat_eq, none, not, refl, some, string_eq,
  suc, text_eq, true, ℕ, ◌&&◌, ◌+◌, ◌-◌, ◌<◌, ◌==◌, ◌||◌, ◌∷◌, ◌≡◌, ◌≤◌,
}
use herdres.Chunks.Boundary.{cr, larger, lf, preferred_span_end, starts_with}
use herdres.Chunks.Cover.{Moves, Tiles, preferred_span_end-bound, spans_from-Tiles}
use herdres.Chunks.Joined.{join, join-Tiles}
use herdres.Chunks.Spans.{hard_end_of, slice, spans_from}
use herdres.Safe.{Unicode}
use herdres.Tables.Blocks.{Block, markdown_table_blocks}
use herdres.Tables.Spans.{
  falls_into, filter, maximum, next_row, next_table_end, row_boundaries, row_end, row_ends,
  split_table_aware_spans, table_end,
}

row_ends-bound :
    (offset : ℕ) (text : Text) → All (λ e. e ≤ offset + length text) (row_ends offset text)
unfolding row_ends
row_ends-bound offset [] = tt
row_ends-bound offset (c ∷ cs) =
    let rest =
      All-map (λ e. e ≤ suc offset + length cs) (λ e. e ≤ offset + length (c ∷ cs))
        (λ e h. omega arith) (row_ends (suc offset) cs) (row_ends-bound (suc offset) cs) in
    elim (Bool-cases (c == lf || (c == cr && not (starts_with (lf ∷ []) cs)))) [
      | inl h ↦ rw h (omega arith, rest)
      | inr h ↦ rw h rest
    ]

All-filter :
    (P : ℕ → Type 0) (Q : ℕ → Type 0) (p : ℕ → Bool)
    → ((e : ℕ) → P e → p e ≡ true → Q e)
    → (xs : List ℕ) → All P xs
    → All Q (filter p xs)
All-filter P Q p f [] a = tt
All-filter P Q p f (x ∷ xs) a = elim (Bool-cases (p x)) [
  | inl h ↦ rw h (f x a.0 h, All-filter P Q p f xs a.1)
  | inr h ↦ rw h (All-filter P Q p f xs a.1)
]

-- What an end that is found has to satisfy.
abbrev Holds : (ℕ → Type 0) → Option ℕ → Type 0
Holds P none = Unit
Holds P (some e) = P e

Holds-maximum : (P : ℕ → Type 0) (xs : List ℕ) → All P xs → Holds P (maximum xs)
Holds-maximum P [] a = tt
Holds-maximum P (x ∷ xs) a = Holds-larger (maximum xs) (Holds-maximum P xs a.1)
  where
    Holds-larger : (m : Option ℕ) → Holds P m → Holds P (larger (some x) m)
    Holds-larger none h = a.0
    Holds-larger (some e) h = elim (Bool-cases (ltb x e)) [
      | inl t ↦ let q : max x e ≡ e = let l = ltb→lt x e t in omega arith in rw q h
      | inr t ↦ let q : max x e ≡ x = ground arith in rw q (a.0)
    ]

-- An end that may be taken, from a start.
abbrev Ends : Text → ℕ → ℕ → ℕ → Type 0
Ends text limit start e = (start < e) × (e ≤ length text) × (e ≤ start + limit)

row_boundaries-bound :
    (text : Text) (b : Block) → All (λ e. e ≤ length text) (row_boundaries text b)
row_boundaries-bound text b =
    All-filter (λ e. e ≤ 0 + length text) (λ e. e ≤ length text)
      (λ e. ltb b.data_start e && leb e b.block_end_at) (λ e h t. omega arith) (row_ends 0 text)
      (row_ends-bound 0 text)

next_row-Ends :
    (text : Text) (limit start generic : ℕ) (found : Option ℕ)
    → Ends text limit start generic
    → Holds (λ e. (start < e) × (e ≤ length text)) found
    → Ends text limit start (next_row start limit generic found)
next_row-Ends text limit start generic none g h = g
next_row-Ends text limit start generic (some e) g h = elim (Bool-cases (ltb limit (e - start))) [
  | inl t ↦ rw (Ends, next_row, t) g
  | inr t ↦ rw (Ends, next_row, t) (h.0, h.1, ground arith)
]

next_row-found :
    (text : Text) (start : ℕ) (xs : List ℕ)
    → All (λ e. e ≤ length text) xs
    → Holds (λ e. (start < e) × (e ≤ length text)) (find (λ e. ltb start e) xs)
next_row-found text start [] a = tt
next_row-found text start (x ∷ xs) a = elim (Bool-cases (ltb start x)) [
  | inl t ↦ rw t (ltb→lt start x t, a.0)
  | inr t ↦ rw t (next_row-found text start xs a.1)
]

row_end-Ends :
    (text : Text) (limit start generic : ℕ) (b : Block) (found : Option ℕ)
    → Ends text limit start generic
    → b.block_start < generic
    → Holds (λ e. (start < e) × (e ≤ generic)) found
    → Ends text limit start (row_end text limit start generic b found)
row_end-Ends text limit start generic b (some e) g k h = (h.0, omega arith, omega arith)
row_end-Ends text limit start generic b none g k h = elim (Bool-cases (ltb start b.block_start)) [
  | inl t ↦ rw (Ends, row_end, t) (ltb→lt start b.block_start t, omega arith, omega arith)
  | inr t ↦
      rw (Ends, row_end, t)
        (next_row-Ends text limit start generic _ g
          (next_row-found text start (row_boundaries text b) (row_boundaries-bound text b)))
]

table_end-Ends :
    (text : Text) (limit start generic : ℕ) (tables : List Block)
    → Ends text limit start generic
    → Ends text limit start (table_end text limit start generic (find (falls_into generic) tables))
table_end-Ends text limit start generic tables g =
    elim (Option-cases (find (falls_into generic) tables)) [
      | inl e ↦ rw (Ends, table_end, e) g
      | inr (b, e) ↦
          let inside = find_lem (falls_into generic) tables e in
          rw (Ends, table_end, e)
            (row_end-Ends text limit start generic b _ g (ground (arith, inside)) (
              Holds-maximum (λ e. (start < e) × (e ≤ generic)) _
                (All-filter (λ e. e ≤ length text) (λ e. (start < e) × (e ≤ generic))
                  (λ e. ltb start e && leb e generic) (λ e h t. (ground arith, ground arith))
                  (row_boundaries text b) (row_boundaries-bound text b))))
    ]

next_table_end-Moves :
    (text : Text) (limit : ℕ) (tables : List Block)
    → 0 < limit
    → Moves limit (length text) (next_table_end text tables limit)
unfolding next_table_end
next_table_end-Moves text limit tables p a h =
    let generic = preferred_span_end text a (hard_end_of text limit a) limit in
    let b =
      preferred_span_end-bound text a (hard_end_of text limit a) limit (omega arith)
        (omega arith) in
    let (c, d, e) = table_end-Ends text limit a generic tables (b.0, omega arith, omega arith) in
    let n : leb (table_end text limit a generic (find (falls_into generic) tables)) a ≡ false =
      ground arith in
    rw n (c, d, e)

module _ ⦃u : Unicode⦄ where
  -- With a positive limit, the spans of the splitter that keeps table rows whole follow on each
  -- other from the first character of the text to its last, without a gap or an overlap, and each
  -- has one to `limit` characters, whatever the classes of Unicode are.
  pub split_table_aware_spans-Tiles :
      (text : Text) (limit : ℕ)
      → 0 < limit
      → (spans : List (ℕ × ℕ)) × (split_table_aware_spans text limit ≡ some spans)
        × Tiles limit 0 (length text) spans
        × (join (map (slice text) spans) ≡ text)
  unfolding split_table_aware_spans
  split_table_aware_spans-Tiles text limit p =
      let n : leb limit 0 ≡ false = ground arith in
      let spans =
        spans_from (next_table_end text (markdown_table_blocks text) limit) (length text)
          (length text) 0 in
      let tiles : Tiles limit 0 (length text) spans =
        spans_from-Tiles (next_table_end text (markdown_table_blocks text) limit) limit
          (length text) (length text) 0
          (next_table_end-Moves text limit (markdown_table_blocks text) p) (omega arith)
          (omega arith) in
      (spans, rw n refl, tiles, join-Tiles text limit 0 spans tiles)
