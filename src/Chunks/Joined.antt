-- ===== src/Chunks/Joined.antt =====
-- About the chunks that a list of spans cuts out of a text.
use herdres.Prelude.{
  All, List, Text, [], arith, drop, drop-drop, drop-length, length, length-drop, length-take, map,
  refl, some, sym, take-drop, ℕ, ◌++◌, ◌-◌, ◌<◌, ◌∷◌, ◌≡◌, ◌≤◌,
}
use herdres.Chunks.Cover.{Tiles, split_text_spans-Tiles}
use herdres.Chunks.Spans.{chunks_of, slice, split_text_chunks}

abbrev pub join : List Text → Text
join [] = []
join (t ∷ ts) = t ++ join ts

-- The size of a part of a delivery.
abbrev pub IsPart : ℕ → Text → Type 0
IsPart limit t = (0 < length t) × (length t ≤ limit)

slice-drop : (text : Text) (a b : ℕ) → a ≤ b → slice text (a, b) ++ drop b text ≡ drop a text
slice-drop text a b h =
    rw (sym (drop-drop a (b - a) b text (omega arith))) (take-drop (b - a) (drop a text))

length-slice :
    (text : Text) (a b : ℕ) → a ≤ b → b ≤ length text → length (slice text (a, b)) ≡ b - a
length-slice text a b h k =
    length-take (b - a) (drop a text) (let e = length-drop a text (omega arith) in omega arith)

pub join-Tiles :
    (text : Text) (limit a : ℕ) (spans : List (ℕ × ℕ))
    → Tiles limit a (length text) spans
    → join (map (slice text) spans) ≡ drop a text
join-Tiles text limit a [] t = rw t (sym (drop-length text))
join-Tiles text limit a ((s, e) ∷ spans) (p, q, r, t) =
    let k = join-Tiles text limit e spans t in rw k (rw p (slice-drop text a e (omega arith)))

Tiles-bound : (limit a b : ℕ) (spans : List (ℕ × ℕ)) → Tiles limit a b spans → a ≤ b
Tiles-bound limit a b [] t = omega arith
Tiles-bound limit a b ((s, e) ∷ spans) (p, q, r, t) =
    let k = Tiles-bound limit e b spans t in omega arith

pub IsPart-Tiles :
    (text : Text) (limit a : ℕ) (spans : List (ℕ × ℕ))
    → Tiles limit a (length text) spans
    → All (IsPart limit) (map (slice text) spans)
IsPart-Tiles text limit a [] t = tt
IsPart-Tiles text limit a ((s, e) ∷ spans) (p, q, r, t) =
    let k = Tiles-bound limit e (length text) spans t in
    let l = length-slice text s e (omega arith) k in
    ((omega arith, omega arith), IsPart-Tiles text limit e spans t)

-- With a positive limit, the chunks of a text joined are the text, and each has one to `limit`
-- characters.
pub split_text_chunks-join :
    (text : Text) (limit : ℕ)
    → 0 < limit
    → (chunks : List Text) × (split_text_chunks text limit ≡ some chunks)
      × (join chunks ≡ text)
      × All (IsPart limit) chunks
unfolding split_text_chunks
split_text_chunks-join text limit p =
    let (spans, e, t) = split_text_spans-Tiles text limit p in
    (
      map (slice text) spans,
      rw (split_text_chunks, chunks_of, e) refl,
      join-Tiles text limit 0 spans t,
      IsPart-Tiles text limit 0 spans t,
    )
