-- ===== src/Gateway/Words.antt =====
-- The words of the child's envelope, as herdres_gateway.py knows them.
use herdres.Prelude.{
  Option, Text, codes, if◌then◌else◌, nat_eq, none, some, string_eq, text_eq, ◌==◌,
}
use herdres.Json.Values.{Json}
use herdres.Requests.Lifecycle.{write}
use herdres.Requests.Types.{Checkpoint, Disposition, Outcome, RequestPhase}

abbrev pub read_checkpoint : Text → Option Checkpoint
read_checkpoint t =
    if t == codes "retry"
    then some Checkpoint.retry
    else if t == codes "hold"
    then some Checkpoint.hold
    else if t == codes "advance"
    then some Checkpoint.advance
    else none

abbrev pub write_checkpoint : Checkpoint → Text
write_checkpoint Checkpoint.retry = codes "retry"
write_checkpoint Checkpoint.hold = codes "hold"
write_checkpoint Checkpoint.advance = codes "advance"

-- _TRANSPORT_DISPOSITIONS, which lacks `terminal_accepted`.
abbrev pub read_disposition : Text → Option Disposition
read_disposition t =
    if t == codes "no_receipt"
    then some Disposition.no_receipt
    else if t == codes "in_progress"
    then some Disposition.in_progress
    else if t == codes "terminal_rejected"
    then some Disposition.terminal_rejected
    else if t == codes "terminal_uncertain"
    then some Disposition.terminal_uncertain
    else if t == codes "written_to_pty"
    then some Disposition.written_to_pty
    else if t == codes "submitted"
    then some Disposition.submitted
    else if t == codes "agent_prompt_not_received"
    then some Disposition.agent_prompt_not_received
    else if t == codes "agent_prompt_unsubmitted"
    then some Disposition.agent_prompt_unsubmitted
    else if t == codes "agent_prompt_stalled"
    then some Disposition.agent_prompt_stalled
    else if t == codes "agent_input_pending"
    then some Disposition.agent_input_pending
    else none

abbrev pub write_disposition : Disposition → Text
write_disposition Disposition.no_receipt = codes "no_receipt"
write_disposition Disposition.in_progress = codes "in_progress"
write_disposition Disposition.terminal_accepted = codes "terminal_accepted"
write_disposition Disposition.terminal_rejected = codes "terminal_rejected"
write_disposition Disposition.terminal_uncertain = codes "terminal_uncertain"
write_disposition Disposition.written_to_pty = codes "written_to_pty"
write_disposition Disposition.submitted = codes "submitted"
write_disposition Disposition.agent_prompt_not_received = codes "agent_prompt_not_received"
write_disposition Disposition.agent_prompt_unsubmitted = codes "agent_prompt_unsubmitted"
write_disposition Disposition.agent_prompt_stalled = codes "agent_prompt_stalled"
write_disposition Disposition.agent_input_pending = codes "agent_input_pending"

abbrev pub read_phase : Text → Option RequestPhase
read_phase t =
    if t == codes "resolving"
    then some RequestPhase.resolving
    else if t == codes "ready"
    then some RequestPhase.ready
    else if t == codes "retryable"
    then some RequestPhase.retryable
    else if t == codes "retry_authorized"
    then some RequestPhase.retry_authorized
    else if t == codes "accepted_unverified"
    then some RequestPhase.accepted_unverified
    else if t == codes "queued"
    then some RequestPhase.queued
    else if t == codes "terminal"
    then some RequestPhase.terminal
    else none

abbrev pub write_phase : RequestPhase → Text
write_phase RequestPhase.resolving = codes "resolving"
write_phase RequestPhase.ready = codes "ready"
write_phase RequestPhase.retryable = codes "retryable"
write_phase RequestPhase.retry_authorized = codes "retry_authorized"
write_phase RequestPhase.accepted_unverified = codes "accepted_unverified"
write_phase RequestPhase.queued = codes "queued"
write_phase RequestPhase.terminal = codes "terminal"

abbrev pub read_outcome : Text → Option Outcome
read_outcome t =
    if t == codes "delivered"
    then some Outcome.delivered
    else if t == codes "not_delivered"
    then some Outcome.not_delivered
    else if t == codes "delivery_unknown"
    then some Outcome.delivery_unknown
    else none

abbrev pub write_outcome : Outcome → Text
write_outcome Outcome.delivered = codes "delivered"
write_outcome Outcome.not_delivered = codes "not_delivered"
write_outcome Outcome.delivery_unknown = codes "delivery_unknown"

-- A word, or `null`.
abbrev pub write_or_null {ℓ} : {A : Type ℓ} → (A → Text) → Option A → Json
write_or_null write none = Json.null
write_or_null write (some a) = Json.string (write a)
