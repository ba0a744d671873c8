-- ===== src/Requests/Stored.antt =====
-- About lookups in a store that is changed, and its validation.
use herdres.Prelude.{
  Bool-cases, List, Option, Text, [], all, and-true, ap, arith, false, inl, inr, nat_eq, none, refl,
  same_text-eq, same_text_refl, some, string_eq, sym, text_eq, true, ◌++◌, ◌==◌, ◌∷◌, ◌≡◌,
}
use herdres.Identity.{valid_request_id}
use herdres.Requests.Record.{CommandCodec, valid_record}
use herdres.Requests.Store.{Entry, assign, lookup, valid_entry}
use herdres.Requests.Types.{Request}
use herdres.Safe.{Unicode}

value_or : Request → Option Request → Request
value_or d none = d
value_or d (some r) = r

pub some_value : (a b : Request) → some a ≡ some b → a ≡ b
unfolding value_or
some_value a b h = ap (value_or a) h

pub lookup-append :
    (k : Text) (r : Request) (es : List Entry)
    → lookup k es ≡ none
    → lookup k (es ++ record { key = k; value = r } ∷ []) ≡ some r
lookup-append k r [] h = rw (same_text_refl k) refl
lookup-append k r (e ∷ es) h = elim (Bool-cases (e.key == k)) [
  | inl q ↦ cc (rw q at h)
  | inr q ↦ let h' : lookup k es ≡ none = rw q at h in rw q (lookup-append k r es h')
]

pub lookup-assign :
    (k : Text) (r s : Request) (es : List Entry)
    → lookup k es ≡ some s
    → lookup k (assign k r es) ≡ some r
lookup-assign k r s [] h = cc
lookup-assign k r s (e ∷ es) h = elim (Bool-cases (e.key == k)) [
  | inl q ↦ rw (q, q) refl
  | inr q ↦ let h' : lookup k es ≡ some s = rw q at h in rw (q, q) (lookup-assign k r s es h')
]

pub lookup-assign_other :
    (k j : Text) (r : Request) (es : List Entry)
    → (k == j) ≡ false
    → lookup j (assign k r es) ≡ lookup j es
lookup-assign_other k j r [] h = refl
lookup-assign_other k j r (e ∷ es) h = elim (Bool-cases (e.key == k)) [
  | inl q ↦ let n : (e.key == j) ≡ false = rw (sym (same_text-eq e.key k q)) at h in rw (q, n) refl
  | inr q ↦ rw q (ground (arith, lookup-assign_other k j r es h))
]

module _ ⦃u : Unicode⦄ ⦃codec : CommandCodec⦄ where
  pub lookup-valid :
      (k : Text) (r : Request) (es : List Entry)
      → all valid_entry es ≡ true
      → lookup k es ≡ some r
      → valid_record r k ≡ true
  lookup-valid k r [] v h = cc
  lookup-valid k r (e ∷ es) v h =
      let p = and-true (valid_entry e) (all valid_entry es) v in
      elim (Bool-cases (e.key == k)) [
        | inl q ↦
            let k' = same_text-eq e.key k q in
            let r' : e.value ≡ r = some_value e.value r (rw q at h) in
            let v' = and-true (valid_request_id e.key) (valid_record e.value e.key) p.0 in
            rw (sym r', sym k') v'.1
        | inr q ↦ let h' : lookup k es ≡ some r = rw q at h in lookup-valid k r es p.1 h'
      ]

  pub append-valid :
      (e : Entry) (es : List Entry)
      → all valid_entry es ≡ true
      → valid_entry e ≡ true
      → all valid_entry (es ++ e ∷ []) ≡ true
  append-valid e [] v h = rw h refl
  append-valid e (f ∷ es) v h =
      let p = and-true (valid_entry f) (all valid_entry es) v in
      rw (p.0, append-valid e es p.1 h) refl

  pub assign-valid :
      (k : Text) (r : Request) (es : List Entry)
      → all valid_entry es ≡ true
      → valid_record r k ≡ true
      → all valid_entry (assign k r es) ≡ true
  assign-valid k r [] v h = refl
  assign-valid k r (e ∷ es) v h =
      let p = and-true (valid_entry e) (all valid_entry es) v in
      elim (Bool-cases (e.key == k)) [
        | inl q ↦
            let k' = same_text-eq e.key k q in
            let h' : valid_record r e.key ≡ true = rw (sym k') at h in
            let v' = and-true (valid_request_id e.key) (valid_record e.value e.key) p.0 in
            rw q (rw (v'.0, h', p.1) refl)
        | inr q ↦ rw q (rw (p.0, assign-valid k r es p.1 h) refl)
      ]
