-- ===== src/Requests/Shell.antt =====
-- About `ensure_request_shell`.
use herdres.Prelude.{
  Bool, Bool-cases, List, Option, Text, [], all, arith, inl, inr, none, refl, some, true, ℕ, ◌≡◌,
  ◌≤◌,
}
use herdres.Identity.{valid_request_id}
use herdres.Requests.Lifecycle.{new_record}
use herdres.Requests.Opened.{new_record-valid, returned-opened}
use herdres.Requests.Record.{CommandCodec, valid_record}
use herdres.Requests.Store.{
  Entry, Store, ensure_request_shell, first_seen, lookup, shell_among, shell_over, valid_entry,
  validated,
}
use herdres.Requests.Stored.{append-valid, lookup-append, lookup-valid}
use herdres.Requests.Types.{Raises, Request, corrupt_store, returns, value_error}
use herdres.Safe.{Unicode}

module _ ⦃u : Unicode⦄ ⦃codec : CommandCodec⦄ where
  abbrev pub IsValidStore : Store → Type 0
  IsValidStore none = Unit
  IsValidStore (some es) = all valid_entry es ≡ true

  abbrev pub lookup_in : Text → Store → Option Request
  lookup_in k none = none
  lookup_in k (some es) = lookup k es

  -- A record is given that stands in a valid store.
  abbrev pub IsShell : ℕ → Text → Raises (Request × Bool) × Store → Type 0
  IsShell now id (returns (r, b), store) =
      IsValidStore store
      × (lookup_in id store ≡ some r)
      × (valid_record r id ≡ true)
      × (r.updated_at ≤ now)
  IsShell now id (value_error, store) = IsValidStore store
  IsShell now id (corrupt_store, store) = IsValidStore store

  first_seen-IsShell :
      (now : ℕ) (id : Text) (es : List Entry) (store : Store) (new : Raises Request)
      → valid_request_id id ≡ true
      → IsValidStore store
      → all valid_entry es ≡ true
      → lookup id es ≡ none
      → ((r : Request) → new ≡ returns r → (valid_record r id ≡ true) × (r.updated_at ≤ now))
      → IsShell now id (first_seen id es store new)
  first_seen-IsShell now id es store (returns r) i s v n w = (
    append-valid (record { key = id; value = r }) es v (rw (i, (w r refl).0) refl),
    lookup-append id r es n,
    (w r refl).0,
    (w r refl).1,
  )
  first_seen-IsShell now id es store value_error i s v n w = s
  first_seen-IsShell now id es store corrupt_store i s v n w = s

  shell_among-IsShell :
      (now : ℕ) (id : Text) (es : List Entry) (new : Raises Request) (m : Option Request)
      → lookup id es ≡ m
      → ((r : Request) → lookup id es ≡ some r → r.updated_at ≤ now)
      → valid_request_id id ≡ true
      → all valid_entry es ≡ true
      → ((r : Request) → new ≡ returns r → (valid_record r id ≡ true) × (r.updated_at ≤ now))
      → IsShell now id (shell_among id es new m)
  shell_among-IsShell now id es new none e k i v w =
      first_seen-IsShell now id es (some es) new i v v e w
  shell_among-IsShell now id es new (some r) e k i v w =
      let h = lookup-valid id r es v e in rw h (v, e, h, k r e)

  shell_over-IsShell :
      (now : ℕ) (id : Text) (store : Store) (new : Raises Request)
      → valid_request_id id ≡ true
      → ((r : Request) → new ≡ returns r → (valid_record r id ≡ true) × (r.updated_at ≤ now))
      → ((r : Request) → lookup_in id store ≡ some r → r.updated_at ≤ now)
      → IsValidStore store
      → IsShell now id (shell_over id store new (validated store))
  shell_over-IsShell now id none new i w k s =
      first_seen-IsShell now id [] none new i tt refl refl w
  shell_over-IsShell now id (some es) new i w k v =
      rw v (shell_among-IsShell now id es new (lookup id es) refl k i v w)

  new_record-now :
      (id : Text) (now horizon retention : ℕ) (r : Request)
      → new_record id now horizon retention ≡ returns r
      → (valid_record r id ≡ true) × (r.updated_at ≤ now)
  new_record-now id now horizon retention r h = (
    new_record-valid id now horizon retention r h,
    (let e = (returned-opened id now horizon retention r h).0 in rw e (omega arith)),
  )

  pub ensure_request_shell-IsShell :
      (store : Store) (id : Text) (now horizon retention : ℕ)
      → IsValidStore store
      → ((r : Request) → lookup_in id store ≡ some r → r.updated_at ≤ now)
      → IsShell now id (ensure_request_shell store id now horizon retention)
  unfolding ensure_request_shell
  ensure_request_shell-IsShell store id now horizon retention s k =
      elim (Bool-cases (valid_request_id id)) [
        | inl i ↦ rw i (
            shell_over-IsShell now id store (new_record id now horizon retention) i
              (new_record-now id now horizon retention) k s)
        | inr i ↦ rw i s
      ]
