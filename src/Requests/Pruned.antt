-- ===== src/Requests/Pruned.antt =====
-- About `prune_requests`.
use herdres.Prelude.{
  All, Bool, Bool-cases, List, Text, [], all, and-true, ap, arith, false, inl, inr, leb→le, nat_eq,
  not, refl, some, string_eq, text_eq, true, ℕ, ◌==◌, ◌∷◌, ◌≡◌, ◌≤◌,
}
use herdres.Requests.Record.{CommandCodec}
use herdres.Requests.Store.{
  Entry, Store, is_retained, lookup, prune_requests, retained, valid_entry,
}
use herdres.Requests.Stored.{some_value}
use herdres.Requests.Types.{Raises, Request, returns}
use herdres.Safe.{Unicode}

module _ ⦃u : Unicode⦄ ⦃codec : CommandCodec⦄ where
  retained-valid :
      (now : ℕ) (es : List Entry)
      → all valid_entry es ≡ true
      → all valid_entry (retained now es) ≡ true
  retained-valid now [] v = refl
  retained-valid now (e ∷ es) v =
      let p = and-true (valid_entry e) (all valid_entry es) v in
      elim (Bool-cases (is_retained now e)) [
        | inl q ↦ rw q (rw (p.0, retained-valid now es p.1) refl)
        | inr q ↦ rw q (retained-valid now es p.1)
      ]

  retained-live :
      (now : ℕ) (k : Text) (r : Request) (es : List Entry)
      → lookup k es ≡ some r
      → now ≤ r.retain_until
      → lookup k (retained now es) ≡ some r
  retained-live now k r [] h n = cc
  retained-live now k r (e ∷ es) h n = elim (Bool-cases (e.key == k)) [
    | inl q ↦
        let e' : e.value ≡ r = some_value e.value r (rw q at h) in
        let t : is_retained now e ≡ true = rw e' (ground arith) in rw (t, q) (ap some e')
    | inr q ↦
        let h' : lookup k es ≡ some r = rw q at h in
        ground (arith, retained-live now k r es h' n, q)
  ]

  -- The retention of the record is not over.
  abbrev pub IsKeptAt : ℕ → Entry → Type 0
  IsKeptAt now e = now ≤ e.value.retain_until

  retained-IsKeptAt : (now : ℕ) (es : List Entry) → All (IsKeptAt now) (retained now es)
  retained-IsKeptAt now [] = tt
  retained-IsKeptAt now (e ∷ es) = elim (Bool-cases (is_retained now e)) [
    | inl q ↦ rw q (leb→le now e.value.retain_until q, retained-IsKeptAt now es)
    | inr q ↦ rw q (retained-IsKeptAt now es)
  ]

  -- The answer says whether something was removed.
  all-retained :
      (now : ℕ) (es : List Entry) → all (is_retained now) es ≡ true → retained now es ≡ es
  all-retained now [] h = refl
  all-retained now (e ∷ es) h =
      let p = and-true (is_retained now e) (all (is_retained now) es) h in
      rw p.0 (ap (λ (t : List Entry). e ∷ t) (all-retained now es p.1))

  kept-all : (now : ℕ) (es : List Entry) → All (IsKeptAt now) es → all (is_retained now) es ≡ true
  kept-all now [] a = refl
  kept-all now (e ∷ es) a =
      let h : is_retained now e ≡ true = ground (arith, a.0) in rw h (kept-all now es a.1)

  -- What `prune_requests` answers and leaves of a valid store.
  pub record IsPruned (es : List Entry) (now : ℕ) (m : Raises Bool × Store) : Type 0 where
    pub removed : Bool
    pub left : List Entry
    pub answer : m ≡ (returns removed, some left)
    pub unchanged : removed ≡ false → left ≡ es
    pub changed : removed ≡ true → ¬ All (IsKeptAt now) es
    pub valid : all valid_entry left ≡ true
    pub live :
        (k : Text) (r : Request)
        → lookup k es ≡ some r
        → now ≤ r.retain_until
        → lookup k left ≡ some r
    pub over : All (IsKeptAt now) left

  -- On a valid store `prune_requests` does not raise and leaves a valid store in which every record
  -- is still found whose retention is not over, and none whose retention is over; it answers
  -- `True` only if there was such a record, and `False` only if the store is unchanged.
  pub prune_requests_lem :
      (es : List Entry) (now : ℕ)
      → all valid_entry es ≡ true
      → IsPruned es now (prune_requests (some es) now)
  unfolding prune_requests
  prune_requests_lem es now v = record {
    removed = not (all (is_retained now) es);
    left = retained now es;
    answer = rw v refl;
    unchanged = λ h. all-retained now es (ground (arith, h));
    changed = λ h a. cc (kept-all now es a, rw (kept-all now es a) at h);
    valid = retained-valid now es v;
    live = λ k r. retained-live now k r es;
    over = retained-IsKeptAt now es;
  }
