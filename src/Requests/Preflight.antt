-- ===== src/Requests/Preflight.antt =====
-- About `preflight_request`: the ways in which it ends.
use herdres.Prelude.{
  Bool, Bool-cases, Option, Text, arith, codes, false, inl, inr, is_some, leb, none, refl, some,
  true, ℕ, ◌<◌, ◌≡◌, ◌≤◌,
}
use herdres.Requests.Finished.{quarantine_request-valid}
use herdres.Requests.Lifecycle.{quarantine_child, quarantine_request, quarantined_record, write}
use herdres.Requests.Parts.{valid_record_parts}
use herdres.Requests.Record.{CommandCodec, valid_finish, valid_in_state, valid_record}
use herdres.Requests.Shell.{IsShell, IsValidStore, ensure_request_shell-IsShell, lookup_in}
use herdres.Requests.Stable.{plain-IsStable}
use herdres.Requests.Store.{
  Preflight, Store, ensure_request_shell, is_final, preflight_expired, preflight_over,
  preflight_request, quarantine_reply,
}
use herdres.Requests.Stored.{assign-valid, lookup-assign}
use herdres.Requests.Types.{
  Child, Raises, Request, RequestState, corrupt_store, returns, value_error,
}
use herdres.Safe.{Unicode}

module _ ⦃u : Unicode⦄ ⦃codec : CommandCodec⦄ where
  -- The three ways in which a preflight ends: the record is live before its deadline, it has its
  -- final answer, or an error was raised. The store is valid in each.
  abbrev pub IsPreflight : ℕ → Text → Preflight → Type 0
  IsPreflight now id (returns (r, none, b), store) =
      IsValidStore store
      × (lookup_in id store ≡ some r)
      × (is_final r.state ≡ false)
      × (now < r.deadline_at)
  IsPreflight now id (returns (r, some c, b), store) =
      IsValidStore store
      × (lookup_in id store ≡ some r)
      × (is_final r.state ≡ true)
      × (r.outcome ≡ some c)
  IsPreflight now id (value_error, store) = IsValidStore store
  IsPreflight now id (corrupt_store, store) = IsValidStore store

  finish-no_outcome : (r : Request) (id : Text) → r.outcome ≡ none → valid_finish r id ≡ false
  unfolding valid_finish
  finish-no_outcome r id e = rw e (ground arith)

  final-outcome :
      (st : RequestState) (r : Request) (id : Text) (m : Option Child)
      → r.outcome ≡ m
      → is_final st ≡ true
      → valid_in_state st r id ≡ true
      → is_some m ≡ true
  final-outcome st r id (some c) e f v = refl
  final-outcome RequestState.resolving r id none e f v = cc
  final-outcome RequestState.retryable r id none e f v = cc
  final-outcome RequestState.terminal r id none e f v = ground (arith, finish-no_outcome r id e)
  final-outcome RequestState.quarantined r id none e f v = ground (arith, finish-no_outcome r id e)

  expired-IsPreflight :
      (now : ℕ) (id : Text) (store : Store) (r : Request) (m : Raises Child) (f : Child → Request)
      → IsValidStore store
      → lookup_in id store ≡ some r
      → valid_record (write r m f).1 id ≡ true
      → ((c : Child) → (is_final (f c).state ≡ true) × ((f c).outcome ≡ some c))
      → IsPreflight now id (preflight_expired id store (write r m f))
  expired-IsPreflight now id none r m f s l v k = cc
  expired-IsPreflight now id (some es) r (returns c) f s l v k =
      (assign-valid id (f c) es s v, lookup-assign id (f c) r es l, (k c).0, (k c).1)
  expired-IsPreflight now id (some es) r value_error f s l v k = assign-valid id r es s v
  expired-IsPreflight now id (some es) r corrupt_store f s l v k = assign-valid id r es s v

  final-IsPreflight :
      (now : ℕ) (id : Text) (store : Store) (r : Request) (b : Bool) (m : Option Child)
      → r.outcome ≡ m
      → IsValidStore store
      → lookup_in id store ≡ some r
      → is_final r.state ≡ true
      → is_some m ≡ true
      → IsPreflight now id (returns (r, m, b), store)
  final-IsPreflight now id store r b none e s l f h = cc
  final-IsPreflight now id store r b (some c) e s l f h = (s, l, f, e)

  reached-IsPreflight :
      (now : ℕ) (id : Text) (store : Store) (r : Request)
      → IsValidStore store
      → lookup_in id store ≡ some r
      → valid_record r id ≡ true
      → r.updated_at ≤ now
      → IsPreflight now id (
          preflight_expired id store (
            quarantine_request r (codes "request deadline reached") now none quarantine_reply true))
  unfolding quarantine_request
  reached-IsPreflight now id store r s l v n =
      expired-IsPreflight now id store r (quarantine_child r.request_id none quarantine_reply true)
        (quarantined_record (codes "request deadline reached") now none r) s l
        (quarantine_request-valid r id (codes "request deadline reached") now none quarantine_reply
          true n (plain-IsStable _ refl (omega arith)) (plain-IsStable _ refl (omega arith))
          (ground arith) refl v)
        (λ c. (refl, refl))

  preflight_over-IsPreflight :
      (now : ℕ) (id : Text) (m : Raises (Request × Bool)) (store : Store)
      → IsShell now id (m, store)
      → IsPreflight now id (preflight_over id now (m, store))
  preflight_over-IsPreflight now id value_error store h = h
  preflight_over-IsPreflight now id corrupt_store store h = h
  preflight_over-IsPreflight now id (returns (r, b)) store (s, l, v, n) =
      elim (Bool-cases (is_final r.state)) [
        | inl f ↦ rw f (
            final-IsPreflight now id store r b r.outcome refl s l f
              (final-outcome r.state r id r.outcome refl f (valid_record_parts r id v).in_state))
        | inr f ↦ elim (Bool-cases (leb r.deadline_at now)) [
          | inl d ↦ rw (f, d) (reached-IsPreflight now id store r s l v n)
          | inr d ↦ rw (f, d) (s, l, f, ground arith)
        ]
      ]

  -- `preflight_request` on a valid store, at a time that is not before the last change of the record,
  -- leaves a valid store, and returns the record that stands there: without an answer only if the
  -- record is not final and its deadline is still to come, and with the stored outcome otherwise.
  pub preflight_request-IsPreflight :
      (store : Store) (id : Text) (now horizon retention : ℕ)
      → IsValidStore store
      → ((r : Request) → lookup_in id store ≡ some r → r.updated_at ≤ now)
      → IsPreflight now id (preflight_request store id now horizon retention)
  unfolding preflight_request
  preflight_request-IsPreflight store id now horizon retention s k =
      let shell = ensure_request_shell store id now horizon retention in
      preflight_over-IsPreflight now id shell.0 shell.1
        (ensure_request_shell-IsShell store id now horizon retention s k)
