-- ===== src/Requests/Store.antt =====
-- The store of request records: a dictionary from identities, which the state may lack. Its records
-- are of the current version; one of an older version would first be migrated.
use herdres.Prelude.{
  Bool, List, Option, Text, [], all, codes, false, if◌then◌else◌, leb, nat_eq, none, not, some,
  string_eq, text_eq, true, ℕ, ◌&&◌, ◌++◌, ◌==◌, ◌∷◌,
}
use herdres.Identity.{valid_request_id}
use herdres.Requests.Lifecycle.{new_record, quarantine_request}
use herdres.Requests.Record.{CommandCodec, valid_record}
use herdres.Requests.Types.{
  Child, Raises, Request, RequestState, corrupt_store, returns, value_error,
}
use herdres.Safe.{Unicode}

pub record Entry : Type 0 where
  pub key : Text
  pub value : Request

abbrev pub Store : Type 0
Store = Option (List Entry)

-- `records.get(request_id)`
abbrev pub lookup : Text → List Entry → Option Request
lookup k [] = none
lookup k (e ∷ es) = let rest = lookup k es in if e.key == k then some e.value else rest

-- The record that stands under the key is changed in place.
abbrev pub assign : Text → Request → List Entry → List Entry
assign k r [] = []
assign k r (e ∷ es) =
    let rest = assign k r es in
    if e.key == k then record { key = e.key; value = r } ∷ es else e ∷ rest

abbrev pub assign_in : Text → Request → Store → Store
assign_in k r none = none
assign_in k r (some es) = some (assign k r es)

-- `state in {"terminal", "quarantined"}`
abbrev pub is_final : RequestState → Bool
is_final RequestState.terminal = true
is_final RequestState.quarantined = true
is_final _ = false

-- `QUARANTINE_REPLY`
abbrev pub quarantine_reply : Text
quarantine_reply = codes "Could not send safely. Refresh status and choose the target again."

module _ ⦃u : Unicode⦄ ⦃codec : CommandCodec⦄ where
  abbrev pub valid_entry : Entry → Bool
  valid_entry e = valid_request_id e.key && valid_record e.value e.key

  -- `_validated_records_mapping`: all the records, or the error if one of them is not valid.
  abbrev pub validated : Store → Raises Store
  validated none = returns none
  validated (some es) = if all valid_entry es then returns (some es) else corrupt_store

  abbrev pub cached_among : Text → Option Request → Raises (Option Child)
  cached_among id none = returns none
  cached_among id (some r) =
      if valid_record r id && is_final r.state then returns r.outcome else returns none

  abbrev pub cached_in : Text → Raises Store → Raises (Option Child)
  cached_in id (returns none) = returns none
  cached_in id (returns (some es)) = cached_among id (lookup id es)
  cached_in id value_error = value_error
  cached_in id corrupt_store = corrupt_store

  unfoldable pub cached_terminal_outcome : Store → Text → Raises (Option Child)
  cached_terminal_outcome store id =
      if valid_request_id id then cached_in id (validated store) else value_error

  abbrev pub first_seen :
      Text → List Entry → Store → Raises Request → Raises (Request × Bool) × Store
  first_seen id es store (returns r) =
      (returns (r, true), some (es ++ record { key = id; value = r } ∷ []))
  first_seen id es store value_error = (value_error, store)
  first_seen id es store corrupt_store = (corrupt_store, store)

  abbrev pub shell_among :
      Text → List Entry → Raises Request → Option Request → Raises (Request × Bool) × Store
  shell_among id es new none = first_seen id es (some es) new
  shell_among id es new (some r) =
      if valid_record r id then (returns (r, false), some es) else (corrupt_store, some es)

  abbrev pub shell_over :
      Text → Store → Raises Request → Raises Store → Raises (Request × Bool) × Store
  shell_over id store new (returns none) = first_seen id [] store new
  shell_over id store new (returns (some es)) = shell_among id es new (lookup id es)
  shell_over id store new value_error = (value_error, store)
  shell_over id store new corrupt_store = (corrupt_store, store)

  unfoldable pub ensure_request_shell :
      Store → Text → (now horizon retention : ℕ) → Raises (Request × Bool) × Store
  ensure_request_shell store id now horizon retention =
      if valid_request_id id
      then shell_over id store (new_record id now horizon retention) (validated store)
      else (value_error, store)

  abbrev pub Preflight : Type 0
  Preflight = Raises (Request × Option Child × Bool) × Store

  -- The record is quarantined where it stands in the store.
  abbrev pub preflight_expired : Text → Store → Raises Child × Request → Preflight
  preflight_expired id store (returns c, r) = (returns (r, some c, true), assign_in id r store)
  preflight_expired id store (value_error, r) = (value_error, assign_in id r store)
  preflight_expired id store (corrupt_store, r) = (corrupt_store, assign_in id r store)

  abbrev pub preflight_over : Text → ℕ → Raises (Request × Bool) × Store → Preflight
  preflight_over id now (returns (r, changed), store) =
      if is_final r.state
      then (returns (r, r.outcome, changed), store)
      else if leb r.deadline_at now
      then preflight_expired id store
          (quarantine_request r (codes "request deadline reached") now none quarantine_reply true)
      else (returns (r, none, changed), store)
  preflight_over id now (value_error, store) = (value_error, store)
  preflight_over id now (corrupt_store, store) = (corrupt_store, store)

  unfoldable pub preflight_request : Store → Text → (now horizon retention : ℕ) → Preflight
  preflight_request store id now horizon retention =
      preflight_over id now (ensure_request_shell store id now horizon retention)

  -- `timestamp > record["retain_until"]`; every record has passed `_valid_record`.
  abbrev pub is_retained : ℕ → Entry → Bool
  is_retained now e = leb now e.value.retain_until

  abbrev pub retained : ℕ → List Entry → List Entry
  retained now [] = []
  retained now (e ∷ es) = let rest = retained now es in if is_retained now e then e ∷ rest else rest

  abbrev pub pruned : ℕ → Store → Raises Store → Raises Bool × Store
  pruned now store (returns none) = (returns false, store)
  pruned now store (returns (some es)) =
      (returns (not (all (is_retained now) es)), some (retained now es))
  pruned now store value_error = (value_error, store)
  pruned now store corrupt_store = (corrupt_store, store)

  unfoldable pub prune_requests : Store → ℕ → Raises Bool × Store
  prune_requests store now = pruned now store (validated store)
