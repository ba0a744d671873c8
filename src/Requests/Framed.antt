-- ===== src/Requests/Framed.antt =====
-- About `preflight_request` and the records of other requests.
use herdres.Prelude.{
  Bool, Bool-cases, List, Option, Text, [], all, arith, false, inl, inr, leb, nat_eq, none, refl,
  some, string_eq, sym, text_eq, ℕ, ◌++◌, ◌==◌, ◌∙◌, ◌∷◌, ◌≡◌,
}
use herdres.Identity.{valid_request_id}
use herdres.Requests.Lifecycle.{new_record}
use herdres.Requests.Record.{CommandCodec, valid_record}
use herdres.Requests.Shell.{lookup_in}
use herdres.Requests.Store.{
  Entry, Store, assign_in, ensure_request_shell, first_seen, is_final, lookup, preflight_expired,
  preflight_over, preflight_request, shell_among, shell_over, valid_entry, validated,
}
use herdres.Requests.Stored.{lookup-assign_other}
use herdres.Requests.Types.{Child, Raises, Request, corrupt_store, returns, value_error}
use herdres.Safe.{Unicode}

lookup-append_other :
    (k j : Text) (r : Request) (es : List Entry)
    → (k == j) ≡ false
    → lookup j (es ++ record { key = k; value = r } ∷ []) ≡ lookup j es
lookup-append_other k j r [] h = rw h refl
lookup-append_other k j r (e ∷ es) h = ground (arith, lookup-append_other k j r es h)

module _ ⦃u : Unicode⦄ ⦃codec : CommandCodec⦄ where
  first_seen-other :
      (id j : Text) (es : List Entry) (store : Store) (new : Raises Request)
      → (id == j) ≡ false
      → lookup_in j store ≡ lookup j es
      → lookup_in j (first_seen id es store new).1 ≡ lookup_in j store
  first_seen-other id j es store (returns r) h e = lookup-append_other id j r es h ∙ sym e
  first_seen-other id j es store value_error h e = refl
  first_seen-other id j es store corrupt_store h e = refl

  shell_among-other :
      (id j : Text) (es : List Entry) (new : Raises Request) (m : Option Request)
      → (id == j) ≡ false
      → lookup_in j (shell_among id es new m).1 ≡ lookup j es
  shell_among-other id j es new none h = first_seen-other id j es (some es) new h refl
  shell_among-other id j es new (some r) h = elim (Bool-cases (valid_record r id)) [
    | inl v ↦ rw v refl
    | inr v ↦ rw v refl
  ]

  shell_over-other :
      (id j : Text) (store : Store) (new : Raises Request)
      → (id == j) ≡ false
      → lookup_in j (shell_over id store new (validated store)).1 ≡ lookup_in j store
  shell_over-other id j none new h = first_seen-other id j [] none new h refl
  shell_over-other id j (some es) new h = elim (Bool-cases (all valid_entry es)) [
    | inl v ↦ rw v (shell_among-other id j es new (lookup id es) h)
    | inr v ↦ rw v refl
  ]

  ensure_request_shell-other :
      (store : Store) (id j : Text) (now horizon retention : ℕ)
      → (id == j) ≡ false
      → lookup_in j (ensure_request_shell store id now horizon retention).1 ≡ lookup_in j store
  unfolding ensure_request_shell
  ensure_request_shell-other store id j now horizon retention h =
      elim (Bool-cases (valid_request_id id)) [
        | inl i ↦ rw i (shell_over-other id j store (new_record id now horizon retention) h)
        | inr i ↦ rw i refl
      ]

  assign_in-other :
      (id j : Text) (r : Request) (store : Store)
      → (id == j) ≡ false
      → lookup_in j (assign_in id r store) ≡ lookup_in j store
  assign_in-other id j r none h = refl
  assign_in-other id j r (some es) h = lookup-assign_other id j r es h

  expired-other :
      (id j : Text) (store : Store) (q : Raises Child × Request)
      → (id == j) ≡ false
      → lookup_in j (preflight_expired id store q).1 ≡ lookup_in j store
  expired-other id j store (returns c, r) h = assign_in-other id j r store h
  expired-other id j store (value_error, r) h = assign_in-other id j r store h
  expired-other id j store (corrupt_store, r) h = assign_in-other id j r store h

  preflight_over-other :
      (now : ℕ) (id j : Text) (m : Raises (Request × Bool)) (store : Store)
      → (id == j) ≡ false
      → lookup_in j (preflight_over id now (m, store)).1 ≡ lookup_in j store
  preflight_over-other now id j value_error store h = refl
  preflight_over-other now id j corrupt_store store h = refl
  preflight_over-other now id j (returns (r, b)) store h = elim (Bool-cases (is_final r.state)) [
    | inl f ↦ rw f refl
    | inr f ↦ elim (Bool-cases (leb r.deadline_at now)) [
      | inl d ↦ rw (f, d) (expired-other id j store _ h)
      | inr d ↦ rw (f, d) refl
    ]
  ]

  -- `preflight_request` of one request leaves what the store has of every other request.
  pub preflight_request-other :
      (store : Store) (id j : Text) (now horizon retention : ℕ)
      → (id == j) ≡ false
      → lookup_in j (preflight_request store id now horizon retention).1 ≡ lookup_in j store
  unfolding preflight_request
  preflight_request-other store id j now horizon retention h =
      let shell = ensure_request_shell store id now horizon retention in
      preflight_over-other now id j shell.0 shell.1 h
      ∙ ensure_request_shell-other store id j now horizon retention h
