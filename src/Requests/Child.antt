-- ===== src/Requests/Child.antt =====
-- `child_result`, which builds the envelope for the gateway, and `_valid_child`, which tests the
-- envelope of a stored outcome.
use herdres.Prelude.{
  Bool, Option, Text, [], false, is_some, nat_eq, none, not, some, string_eq, text_eq, true, ◌&&◌,
  ◌==◌, ◌||◌, ◌∷◌,
}
use herdres.Identity.{valid_request_id}
use herdres.Requests.Types.{
  Checkpoint, Child, Disposition, Outcome, Raises, RequestPhase, check, is_hold_outcome,
  is_persisted, is_retry_phase, is_retryable, normalize, outcome_phase, outcome_transport, returns,
  ◌>>◌,
}
use herdres.Safe.{Unicode, sanitize_text}

abbrev pub is_hold : Checkpoint → Bool
is_hold Checkpoint.hold = true
is_hold _ = false

abbrev pub is_delivered : Option Outcome → Bool
is_delivered (some Outcome.delivered) = true
is_delivered _ = false

abbrev pub is_empty : Text → Bool
is_empty [] = true
is_empty (c ∷ cs) = false

-- `terminal_outcome` may be any of the three; the tables answer for one that is given.
abbrev pub held_transport : Option Outcome → Option Disposition → Bool
held_transport none t = false
held_transport (some o) t = outcome_transport o t

abbrev pub held_phase : Option Outcome → RequestPhase → Bool
held_phase none p = false
held_phase (some o) p = outcome_phase o p

-- The test of `child_result` at each checkpoint; the transport is normalized.
abbrev pub child_allowed :
    Bool → Checkpoint → Option Disposition → RequestPhase → Option Outcome → Text → Bool
child_allowed handled Checkpoint.retry transport phase outcome reply =
    handled && is_retryable transport && is_retry_phase phase && not (is_some outcome)
child_allowed handled Checkpoint.advance transport phase outcome reply =
    is_delivered outcome && held_phase outcome phase && held_transport outcome transport
child_allowed handled Checkpoint.hold transport phase outcome reply =
    is_hold_outcome outcome
    && held_transport outcome transport
    && held_phase outcome phase
    && (handled || (not (is_some transport) && is_empty reply))

-- `reply = ""` on a retry.
abbrev pub child_reply : Checkpoint → Text → Text
child_reply Checkpoint.retry reply = []
child_reply _ reply = reply

module _ ⦃u : Unicode⦄ where
  -- `_fixed_reply`
  unfoldable pub fixed_reply : Text → Text
  fixed_reply text = sanitize_text text 160

  abbrev pub child_of :
      Text → Checkpoint → Option Disposition → RequestPhase → Option Outcome → Text → Bool → Child
  child_of request_id checkpoint transport phase outcome reply handled = record {
    handled = handled;
    request_id = request_id;
    checkpoint = checkpoint;
    transport = normalize transport;
    phase = phase;
    outcome = outcome;
    reply = fixed_reply (child_reply checkpoint reply);
  }

  unfoldable pub child_result :
      Text
      → Checkpoint
      → Option Disposition
      → RequestPhase
      → Option Outcome
      → Text
      → Bool
      → Raises Child
  child_result request_id checkpoint transport phase outcome reply handled = do
    check (valid_request_id request_id)
    check (child_allowed handled checkpoint (normalize transport) phase outcome reply)
    returns (child_of request_id checkpoint transport phase outcome reply handled)

  -- `value["checkpoint"] == "advance"` and its `elif`.
  abbrev pub child_consistent : Child → Checkpoint → Bool
  child_consistent c Checkpoint.retry = false
  child_consistent c Checkpoint.advance =
      is_delivered c.outcome && held_phase c.outcome c.phase && held_transport c.outcome c.transport
  child_consistent c Checkpoint.hold =
      is_hold_outcome c.outcome
      && held_transport c.outcome c.transport
      && held_phase c.outcome c.phase

  unfoldable pub valid_child : Child → Text → Bool
  valid_child c request_id =
      (c.request_id == request_id)
      && is_persisted c.transport
      && is_some c.outcome
      && (c.reply == fixed_reply c.reply)
      && child_consistent c c.checkpoint
      && (c.handled || (not (is_some c.transport) && is_empty c.reply))
