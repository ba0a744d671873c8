-- ===== src/Requests/Returned.antt =====
-- About `preflight_request` and the errors that it may raise.
use herdres.Prelude.{
  Bool, Bool-cases, List, Option, Text, all, arith, codes, false, inl, inr, leb, ltb, none, refl,
  same_text-eq, some, sym, true, ℕ, ◌&&◌, ◌<◌, ◌≡◌, ◌≤◌,
}
use herdres.Identity.{valid_request_id}
use herdres.Requests.Child.{child_result}
use herdres.Requests.Lifecycle.{
  new_record, opened_record, quarantine_child, quarantine_request, quarantined_record, write,
}
use herdres.Requests.Parts.{valid_record_parts}
use herdres.Requests.Record.{CommandCodec}
use herdres.Requests.Shell.{IsShell, IsValidStore, ensure_request_shell-IsShell, lookup_in}
use herdres.Requests.Store.{
  Entry, Store, ensure_request_shell, is_final, lookup, preflight_expired, preflight_over,
  preflight_request, quarantine_reply, shell_among, shell_over, valid_entry, validated,
}
use herdres.Requests.Stored.{lookup-valid}
use herdres.Requests.Types.{Child, Raises, Request, corrupt_store, returns, value_error}
use herdres.Safe.{Unicode}

module _ ⦃u : Unicode⦄ ⦃codec : CommandCodec⦄ where
  abbrev pub Returns : {A : Type 0} → Raises A → Type 0
  Returns {A} m = (a : A) × (m ≡ returns a)

  new_record-returns :
      (id : Text) (now horizon retention : ℕ)
      → valid_request_id id ≡ true
      → 0 < horizon
      → horizon < retention
      → new_record id now horizon retention ≡ returns (opened_record id now horizon retention)
  unfolding new_record
  new_record-returns id now horizon retention i p q =
      let b : (ltb 0 horizon && ltb 0 retention && ltb horizon retention) ≡ true = ground arith in
      rw (b, i) refl

  shell_among-Returns :
      (id : Text) (es : List Entry) (r : Request) (m : Option Request)
      → lookup id es ≡ m
      → all valid_entry es ≡ true
      → Returns (shell_among id es (returns r) m).0
  shell_among-Returns id es r none e v = ((r, true), refl)
  shell_among-Returns id es r (some s) e v =
      let h = lookup-valid id s es v e in rw h ((s, false), refl)

  shell_over-Returns :
      (id : Text) (store : Store) (r : Request)
      → IsValidStore store
      → Returns (shell_over id store (returns r) (validated store)).0
  shell_over-Returns id none r s = ((r, true), refl)
  shell_over-Returns id (some es) r s = rw s (shell_among-Returns id es r (lookup id es) refl s)

  ensure_request_shell-Returns :
      (store : Store) (id : Text) (now horizon retention : ℕ)
      → IsValidStore store
      → valid_request_id id ≡ true
      → 0 < horizon
      → horizon < retention
      → Returns (ensure_request_shell store id now horizon retention).0
  unfolding ensure_request_shell
  ensure_request_shell-Returns store id now horizon retention s i p q =
      rw (i, new_record-returns id now horizon retention i p q)
        (shell_over-Returns id store (opened_record id now horizon retention) s)

  quarantine_child-Returns :
      (id : Text)
      → valid_request_id id ≡ true
      → Returns (quarantine_child id none quarantine_reply true)
  unfolding quarantine_child child_result
  quarantine_child-Returns id i = rw i (_, refl)

  expired-Returns :
      (id : Text) (store : Store) (r : Request) (m : Raises Child) (f : Child → Request)
      → Returns m
      → Returns (preflight_expired id store (write r m f)).0
  expired-Returns id store r (returns c) f k = (_, refl)
  expired-Returns id store r value_error f k = cc k.1
  expired-Returns id store r corrupt_store f k = cc k.1

  reached-Returns :
      (now : ℕ) (id : Text) (store : Store) (r : Request)
      → valid_request_id r.request_id ≡ true
      → Returns
          (preflight_expired id store (
            quarantine_request r
              (codes "request deadline reached")
              now
              none
              quarantine_reply
              true)).0
  unfolding quarantine_request
  reached-Returns now id store r i =
      expired-Returns id store r (quarantine_child r.request_id none quarantine_reply true)
        (quarantined_record (codes "request deadline reached") now none r)
        (quarantine_child-Returns r.request_id i)

  preflight_over-Returns :
      (now : ℕ) (id : Text) (m : Raises (Request × Bool)) (store : Store)
      → valid_request_id id ≡ true
      → Returns m
      → IsShell now id (m, store)
      → Returns (preflight_over id now (m, store)).0
  preflight_over-Returns now id value_error store i k h = cc k.1
  preflight_over-Returns now id corrupt_store store i k h = cc k.1
  preflight_over-Returns now id (returns (r, b)) store i k (s, l, v, n) =
      let same = same_text-eq r.request_id id (valid_record_parts r id v).same_id in
      let i' : valid_request_id r.request_id ≡ true = rw (sym same) at i in
      elim (Bool-cases (is_final r.state)) [
        | inl f ↦ rw f (_, refl)
        | inr f ↦ elim (Bool-cases (leb r.deadline_at now)) [
          | inl d ↦ rw (f, d) (reached-Returns now id store r i')
          | inr d ↦ rw (f, d) (_, refl)
        ]
      ]

  -- On a valid store, with a valid identity, a positive horizon and a longer retention, and at a time
  -- that is not before the last change of the record, `preflight_request` does not raise.
  pub preflight_request-Returns :
      (store : Store) (id : Text) (now horizon retention : ℕ)
      → IsValidStore store
      → ((r : Request) → lookup_in id store ≡ some r → r.updated_at ≤ now)
      → valid_request_id id ≡ true
      → 0 < horizon
      → horizon < retention
      → Returns (preflight_request store id now horizon retention).0
  unfolding preflight_request
  preflight_request-Returns store id now horizon retention s k i p q =
      let shell = ensure_request_shell store id now horizon retention in
      preflight_over-Returns now id shell.0 shell.1 i
        (ensure_request_shell-Returns store id now horizon retention s i p q)
        (ensure_request_shell-IsShell store id now horizon retention s k)
