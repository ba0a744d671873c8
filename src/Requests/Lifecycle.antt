-- ===== src/Requests/Lifecycle.antt =====
-- The transitions of one record. Each returns its answer, or the error that it raises, and the
-- record as it leaves it: Python changes the dictionary in place, also before a later `raise`.
use herdres.Prelude.{
  Bool, Option, Text, [], codes, false, holds, if◌then◌else◌, is_some, ltb, nat_eq, none, some,
  string_eq, text_eq, true, ℕ, ◌&&◌, ◌+◌, ◌==◌, ◌∷◌,
}
use herdres.Identity.{valid_request_id}
use herdres.Requests.Child.{child_result, fixed_reply, is_delivered}
use herdres.Requests.Record.{CommandCodec}
use herdres.Requests.Types.{
  Checkpoint, Child, Disposition, Outcome, Raises, Request, RequestPhase, RequestState, check,
  corrupt_store, is_hold_outcome, is_retryable, normalize, outcome_phase, outcome_transport,
  returns, value_error, ◌>>◌,
}
use herdres.Safe.{Unicode}

-- Write `f a` to the record if the call returned `a`; an error leaves it alone.
abbrev pub write : {A : Type 0} → Request → Raises A → (A → Request) → Raises A × Request
write r (returns a) f = (returns a, f a)
write r value_error f = (value_error, r)
write r corrupt_store f = (corrupt_store, r)

-- `text or other`
abbrev pub or_else : Text → Text → Text
or_else [] other = other
or_else (c ∷ cs) other = c ∷ cs

-- `text or None`
abbrev pub or_none : Text → Option Text
or_none [] = none
or_none (c ∷ cs) = some (c ∷ cs)

abbrev pub default_reason : Outcome → Text
default_reason Outcome.delivery_unknown = codes "delivery truth unavailable"
default_reason _ = codes "request was not delivered"

abbrev pub default_action : Outcome → Text
default_action Outcome.delivery_unknown = codes "inspect ingress evidence and resolve manually"
default_action _ = codes "review the failure before requesting a retry"

-- `disposition in {None, "terminal_uncertain"}`
abbrev pub is_quarantine_disposition : Option Disposition → Bool
is_quarantine_disposition none = true
is_quarantine_disposition (some Disposition.terminal_uncertain) = true
is_quarantine_disposition _ = false

abbrev pub quarantine_outcome : Option Disposition → Outcome
quarantine_outcome (some Disposition.terminal_uncertain) = Outcome.delivery_unknown
quarantine_outcome (some Disposition.written_to_pty) = Outcome.delivery_unknown
quarantine_outcome _ = Outcome.not_delivered

module _ ⦃u : Unicode⦄ ⦃codec : CommandCodec⦄ where
  -- `_new_record`: the horizon and the retention are positive, and the retention is the longer.
  abbrev pub opened_record : Text → ℕ → ℕ → ℕ → Request
  opened_record request_id now horizon retention = record {
    request_id = request_id;
    created_at = now;
    updated_at = now;
    deadline_at = now + horizon;
    retain_until = now + retention;
    state = RequestState.resolving;
    request_json = none;
    transport = none;
    phase = RequestPhase.resolving;
    terminal_outcome = none;
    checkpoint_already_advanced = false;
    operator_attention_required = false;
    blocked_reason = none;
    next_action = none;
    dedup_witness = none;
    stale_target_refreshed = false;
    terminal_at = none;
    quarantined_at = none;
    quarantine_reason = none;
    outcome = none;
    submission_id = none;
    submission_state = none;
    turn_id = none;
    target_owner = none;
    submitted_at = none;
    linked_at = none;
  }

  unfoldable pub new_record : Text → ℕ → ℕ → ℕ → Raises Request
  new_record request_id now horizon retention = do
    check (ltb 0 horizon && ltb 0 retention && ltb horizon retention)
    check (valid_request_id request_id)
    returns (opened_record request_id now horizon retention)

  abbrev pub quarantined_record : Text → ℕ → Option Disposition → Request → Child → Request
  quarantined_record reason now transport r child = record r {
    state = RequestState.quarantined;
    updated_at = now;
    transport = transport;
    phase = RequestPhase.terminal;
    terminal_outcome = some (quarantine_outcome transport);
    checkpoint_already_advanced = false;
    operator_attention_required = true;
    blocked_reason =
        some (or_else (fixed_reply reason) (default_reason (quarantine_outcome transport)));
    next_action = some (default_action (quarantine_outcome transport));
    terminal_at = some now;
    quarantined_at = some now;
    quarantine_reason =
        some (or_else (fixed_reply reason) (default_reason (quarantine_outcome transport)));
    outcome = some child;
  }

  -- The envelope of a quarantine.
  unfoldable pub quarantine_child : Text → Option Disposition → Text → Bool → Raises Child
  quarantine_child request_id disposition reply handled = do
    check (is_quarantine_disposition disposition)
    child_result request_id Checkpoint.hold (normalize disposition) RequestPhase.terminal
        (some (quarantine_outcome (normalize disposition))) reply handled

  unfoldable pub quarantine_request :
      Request → Text → ℕ → Option Disposition → Text → Bool → Raises Child × Request
  quarantine_request r reason now disposition reply handled =
      write r (quarantine_child r.request_id disposition reply handled)
        (quarantined_record reason now (normalize disposition) r)

  abbrev pub is_resolving : RequestState → Bool
  is_resolving RequestState.resolving = true
  is_resolving _ = false

  abbrev pub attached_record : Text → ℕ → Request → Request
  attached_record json now r = record r {
    request_json = some json;
    state = RequestState.retryable;
    phase = RequestPhase.ready;
    updated_at = now;
  }

  -- What stands in the record decides: the same bytes again, others, or none yet.
  abbrev pub attach_over : Text → ℕ → Request → Option Text → Raises Bool × Request
  attach_over json now r (some current) =
      if current == json then (returns false, r) else (value_error, r)
  attach_over json now r none =
      if is_resolving r.state then (returns true, attached_record json now r) else (value_error, r)

  unfoldable pub attach_request_json : Request → Text → ℕ → Raises Bool × Request
  attach_request_json r json now =
      if valid_request_id r.request_id
        && holds (λ id. id == r.request_id) (codec.request_id_from_json json)
      then attach_over json now r r.request_json
      else (value_error, r)

  abbrev pub retryable_record : Option Disposition → ℕ → Request → Request
  retryable_record disposition now r = record r {
    state = RequestState.retryable;
    updated_at = now;
    transport = normalize disposition;
    phase = RequestPhase.retryable;
    terminal_outcome = none;
    checkpoint_already_advanced = false;
    operator_attention_required = false;
    blocked_reason = none;
    next_action = none;
    terminal_at = none;
    quarantined_at = none;
    quarantine_reason = none;
    outcome = none;
  }

  unfoldable pub mark_retryable : Request → Option Disposition → ℕ → Raises Child × Request
  mark_retryable r disposition now =
      if is_retryable disposition && is_some r.request_json
      then (
        child_result r.request_id Checkpoint.retry disposition RequestPhase.retryable none [] true,
        retryable_record disposition now r,
      )
      else (value_error, r)

  abbrev pub outcome_checkpoint : Outcome → Checkpoint
  outcome_checkpoint Outcome.delivered = Checkpoint.advance
  outcome_checkpoint _ = Checkpoint.hold

  -- `blocked` and `action`, `None` for a delivery.
  abbrev pub outcome_note : Outcome → Text → Text → Option Text
  outcome_note Outcome.delivered text default = none
  outcome_note _ text default = or_none (or_else (fixed_reply text) default)

  abbrev pub terminal_record :
      Option Disposition → RequestPhase → Outcome → ℕ → Text → Text → Request → Child → Request
  terminal_record transport phase outcome now reason action r child = record r {
    state = RequestState.terminal;
    updated_at = now;
    transport = transport;
    phase = phase;
    terminal_outcome = some outcome;
    checkpoint_already_advanced = false;
    operator_attention_required = is_hold_outcome (some outcome);
    blocked_reason = outcome_note outcome reason (default_reason outcome);
    next_action = outcome_note outcome action (default_action outcome);
    terminal_at = some now;
    quarantined_at = none;
    quarantine_reason = none;
    outcome = some child;
  }

  -- The envelope of an outcome; only a delivery has a reply.
  unfoldable pub outcome_child :
      Request → Option Disposition → RequestPhase → Outcome → Text → Bool → Raises Child
  outcome_child r disposition phase outcome reply handled = do
    check (outcome_transport outcome (normalize disposition))
    check (is_some r.request_json)
    check (outcome_phase outcome phase)
    child_result r.request_id (outcome_checkpoint outcome) (normalize disposition) phase
        (some outcome) (if is_delivered (some outcome) then reply else []) handled

  unfoldable pub record_terminal_outcome :
      Request
      → Option Disposition
      → RequestPhase
      → Outcome
      → ℕ
      → (reply reason action : Text) → (handled : Bool) → Raises Child × Request
  record_terminal_outcome r disposition phase outcome now reply reason action handled =
      write r (outcome_child r disposition phase outcome reply handled)
        (terminal_record (normalize disposition) phase outcome now reason action r)

  -- The legacy reduction of an answer from Tendwire; its `reply` is not used.
  unfoldable pub mark_terminal : Request → Disposition → ℕ → Raises Child × Request
  mark_terminal r Disposition.terminal_accepted now =
      record_terminal_outcome r (some Disposition.written_to_pty) RequestPhase.accepted_unverified
        Outcome.delivery_unknown now [] (codes "transport accepted but submission was not verified")
        (codes "inspect the composer before any replay") true
  mark_terminal r Disposition.terminal_rejected now =
      record_terminal_outcome r (some Disposition.terminal_rejected) RequestPhase.terminal
        Outcome.not_delivered now [] (codes "provider rejected the instruction")
        (codes "review the rejection before requesting a retry") true
  mark_terminal r _ now = (value_error, r)
