-- ===== src/Chunks/Cover.antt =====
-- About the spans of `split_text_spans` and the chunks of `split_text_chunks`.
-- From `a` to `b` without a gap or an overlap, in parts of one to `limit` characters.
use herdres.Prelude.{
  Bool-cases, List, Option, Option-cases, Text, [], arith, coalesce, false, inl, inr, leb, length,
  ltb, ltb→lt, max, none, refl, some, suc, zero, ℕ, ◌+◌, ◌-◌, ◌/◌, ◌<◌, ◌∷◌, ◌≡◌, ◌≤◌,
}
use herdres.Chunks.Boundary.{
  after_last, block_end, end_above, get_or, keep_crlf, larger, line_end, natural_end,
  preferred_span_end, rfind_from, word_end,
}
use herdres.Chunks.Spans.{hard_end_of, next_end, spans_from, split_text_spans}

abbrev pub Tiles : ℕ → ℕ → ℕ → List (ℕ × ℕ) → Type 0
Tiles limit a b [] = a ≡ b
Tiles limit a b ((s, e) ∷ spans) = (s ≡ a) × (s < e) × (e ≤ s + limit) × Tiles limit e b spans

-- An end that is chosen moves on, stays inside, and is not too far.
abbrev pub Moves : ℕ → ℕ → (ℕ → ℕ) → Type 0
Moves limit size next = (a : ℕ) → a < size → (a < next a) × (next a ≤ size) × (next a ≤ a + limit)

pub spans_from-Tiles :
    (next : ℕ → ℕ) (limit size fuel a : ℕ)
    → Moves limit size next
    → a ≤ size
    → size ≤ a + fuel
    → Tiles limit a size (spans_from next size fuel a)
unfolding spans_from
spans_from-Tiles next limit size zero a m h f = omega arith
spans_from-Tiles next limit size (suc fuel) a m h f = elim (Bool-cases (ltb a size)) [
  | inl t ↦
      let lt : a < size = ltb→lt a size t in
      let (p, q, r) = m a lt in
      rw (Tiles, t) (refl, p, r, spans_from-Tiles next limit size fuel (next a) m q (omega arith))
  | inr t ↦ rw (Tiles, t) (ground arith)
]

abbrev pub Within : ℕ → ℕ → Option ℕ → Type 0
Within lower hard_end none = Unit
Within lower hard_end (some e) = (lower < e) × (e ≤ hard_end)

rfind_from-bound :
    (text sep : Text) (lower hard_end k : ℕ)
    → 0 < length sep
    → {i : ℕ} → rfind_from text sep lower hard_end k ≡ some i
    → (lower ≤ i) × (i + length sep ≤ hard_end)
unfolding rfind_from
rfind_from-bound text sep lower hard_end zero p {i} h = ground arith
rfind_from-bound text sep lower hard_end (suc k) p {i} h =
    ground (arith, rfind_from-bound text sep lower hard_end k p {i = i})

after_last-Within :
    (text : Text) (lower hard_end : ℕ) (sep : Text)
    → 0 < length sep
    → Within lower hard_end (after_last text lower hard_end sep)
unfolding after_last
after_last-Within text lower hard_end sep p =
    elim (Option-cases (rfind_from text sep lower hard_end (hard_end - lower))) [
      | inl e ↦ rw (Within, e) tt
      | inr (i, e) ↦
          let b = rfind_from-bound text sep lower hard_end (hard_end - lower) p e in
          rw (Within, e) (omega arith, omega arith)
    ]

Within-coalesce :
    (lower hard_end : ℕ) (a b : Option ℕ)
    → Within lower hard_end a
    → Within lower hard_end b
    → Within lower hard_end (coalesce a b)
Within-coalesce lower hard_end none b h k = k
Within-coalesce lower hard_end (some a) b h k = h

Within-larger :
    (lower hard_end : ℕ) (a b : Option ℕ)
    → Within lower hard_end a
    → Within lower hard_end b
    → Within lower hard_end (larger a b)
Within-larger lower hard_end none b h k = k
Within-larger lower hard_end (some a) none h k = h
Within-larger lower hard_end (some a) (some b) h k = (omega arith, omega arith)

natural_end-Within :
    (text : Text) (lower hard_end : ℕ) → Within lower hard_end (natural_end text lower hard_end)
unfolding natural_end block_end line_end word_end
natural_end-Within text lower hard_end =
    let at = after_last-Within text lower hard_end in
    let either = Within-coalesce lower hard_end in
    let further = Within-larger lower hard_end in
    either _ _
      (either _ _ (at _ (omega arith)) (either _ _ (at _ (omega arith)) (at _ (omega arith))))
      (either _ _
        (further _ _ (at _ (omega arith)) (further _ _ (at _ (omega arith)) (at _ (omega arith))))
        (further _ _ (at _ (omega arith)) (at _ (omega arith))))

end_above-bound :
    (text : Text) (start lower hard_end : ℕ)
    → start < hard_end
    → start < lower
    → (start < end_above text lower hard_end) × (end_above text lower hard_end ≤ hard_end)
end_above-bound text start lower hard_end h l = elim (Bool-cases (leb hard_end lower)) [
  | inl e ↦ rw e (h, omega arith)
  | inr e ↦
      rw e (get_or-bound (natural_end text lower hard_end) (natural_end-Within text lower hard_end))
]
  where
    get_or-bound :
        (m : Option ℕ)
        → Within lower hard_end m
        → (start < get_or hard_end m) × (get_or hard_end m ≤ hard_end)
    get_or-bound none w = (h, omega arith)
    get_or-bound (some e) w = (omega arith, w.1)

keep_crlf-bound :
    (text : Text) (start hard_end : ℕ)
    → start < hard_end
    → (start < keep_crlf text start hard_end) × (keep_crlf text start hard_end ≤ hard_end)
keep_crlf-bound text start hard_end h = ground arith

-- The end that is preferred needs no correction: it is behind the start.
pub preferred_span_end-bound :
    (text : Text) (start hard_end limit : ℕ)
    → start < hard_end
    → hard_end ≤ length text
    → (start < preferred_span_end text start hard_end limit)
      × (preferred_span_end text start hard_end limit ≤ hard_end)
unfolding preferred_span_end
preferred_span_end-bound text start hard_end limit h n =
    elim (Bool-cases (leb (length text) hard_end)) [
      | inl e ↦ rw e (ground arith)
      | inr e ↦
          let (a, b) = keep_crlf-bound text start hard_end h in
          let (c, d) =
            end_above-bound text start (start + max 1 (limit / 2)) (keep_crlf text start hard_end) a
              (omega arith) in
          rw e (c, omega arith)
    ]

next_end-Moves :
    (text : Text) (limit : ℕ) → 0 < limit → Moves limit (length text) (next_end text limit)
unfolding next_end
next_end-Moves text limit p a h =
    let b =
      preferred_span_end-bound text a (hard_end_of text limit a) limit (omega arith)
        (omega arith) in
    ground (arith, b)

-- With a positive limit, the spans of a text follow on each other from its first character to its
-- last, without a gap or an overlap, and each has one to `limit` characters.
pub split_text_spans-Tiles :
    (text : Text) (limit : ℕ)
    → 0 < limit
    → (spans : List (ℕ × ℕ)) × (split_text_spans text limit ≡ some spans)
      × Tiles limit 0 (length text) spans
unfolding split_text_spans
split_text_spans-Tiles text limit p =
    let n : leb limit 0 ≡ false = ground arith in
    (
      spans_from (next_end text limit) (length text) (length text) 0,
      rw n refl,
      spans_from-Tiles (next_end text limit) limit (length text) (length text) 0
          (next_end-Moves text limit p) (omega arith) (omega arith),
    )
