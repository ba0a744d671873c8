-- ===== src/Requests/Types.antt =====
-- The vocabulary of ingress_requests.py and its tables. Field types of the Python dictionaries are
-- the types of the fields here, so the checks of types are not repeated.
use herdres.Prelude.{Bool, Option, Text, false, none, some, true, ℕ}

-- A call that may raise `ValueError`, or the `RuntimeError` of a corrupt store.
pub data Raises {ℓ} (A : Type ℓ) : Type ℓ where
  returns : A → Raises A
  value_error : Raises A
  corrupt_store : Raises A

infixl 5 ◌>>=◌ ◌>>◌
abbrev pub ◌>>=◌ {ℓ κ} : {A : Type ℓ} {B : Type κ} → Raises A → (A → Raises B) → Raises B
returns a >>= f = f a
value_error >>= f = value_error
corrupt_store >>= f = corrupt_store

abbrev pub ◌>>◌ {ℓ} : {B : Type ℓ} → Raises (Unit {0}) → Raises B → Raises B
m >> n = m >>= λ _. n

-- `if not b: raise ValueError`
abbrev pub check : Bool → Raises (Unit {0})
check true = returns tt
check false = value_error

-- RECORD_STATES
pub data RequestState : Type 0 where
  resolving retryable terminal quarantined : RequestState

-- TRANSPORT_DISPOSITIONS
pub data Disposition : Type 0 where
  no_receipt in_progress terminal_accepted terminal_rejected terminal_uncertain : Disposition
  written_to_pty submitted agent_prompt_not_received agent_prompt_unsubmitted : Disposition
  agent_prompt_stalled agent_input_pending : Disposition

-- REQUEST_PHASES
pub data RequestPhase : Type 0 where
  resolving ready retryable retry_authorized accepted_unverified queued terminal : RequestPhase

-- TERMINAL_OUTCOMES
pub data Outcome : Type 0 where
  delivered not_delivered delivery_unknown : Outcome

pub data Checkpoint : Type 0 where
  retry hold advance : Checkpoint

-- PERSISTED_TRANSPORT_DISPOSITIONS | {None}
abbrev pub is_persisted : Option Disposition → Bool
is_persisted (some Disposition.terminal_accepted) = false
is_persisted _ = true

-- RETRYABLE_DISPOSITIONS | {None}
abbrev pub is_retryable : Option Disposition → Bool
is_retryable none = true
is_retryable (some Disposition.no_receipt) = true
is_retryable (some Disposition.in_progress) = true
is_retryable _ = false

-- `normalize_transport_disposition`
abbrev pub normalize : Option Disposition → Option Disposition
normalize (some Disposition.terminal_accepted) = some Disposition.written_to_pty
normalize d = d

-- HOLD_OUTCOMES
abbrev pub is_hold_outcome : Option Outcome → Bool
is_hold_outcome (some Outcome.not_delivered) = true
is_hold_outcome (some Outcome.delivery_unknown) = true
is_hold_outcome _ = false

-- TERMINAL_OUTCOME_TRANSPORTS
abbrev pub outcome_transport : Outcome → Option Disposition → Bool
outcome_transport Outcome.delivered (some Disposition.submitted) = true
outcome_transport Outcome.delivered _ = false
outcome_transport Outcome.not_delivered none = true
outcome_transport Outcome.not_delivered (some Disposition.no_receipt) = true
outcome_transport Outcome.not_delivered (some Disposition.terminal_rejected) = true
outcome_transport Outcome.not_delivered (some Disposition.agent_prompt_not_received) = true
outcome_transport Outcome.not_delivered (some Disposition.agent_prompt_unsubmitted) = true
outcome_transport Outcome.not_delivered (some Disposition.agent_input_pending) = true
outcome_transport Outcome.not_delivered _ = false
outcome_transport Outcome.delivery_unknown none = true
outcome_transport Outcome.delivery_unknown (some Disposition.written_to_pty) = true
outcome_transport Outcome.delivery_unknown (some Disposition.terminal_uncertain) = true
outcome_transport Outcome.delivery_unknown (some Disposition.agent_prompt_stalled) = true
outcome_transport Outcome.delivery_unknown _ = false

-- TERMINAL_OUTCOME_PHASES
abbrev pub outcome_phase : Outcome → RequestPhase → Bool
outcome_phase _ RequestPhase.terminal = true
outcome_phase Outcome.delivery_unknown RequestPhase.accepted_unverified = true
outcome_phase Outcome.delivery_unknown RequestPhase.queued = true
outcome_phase _ _ = false

-- `request_phase in {"ready", "retryable", "retry_authorized"}`
abbrev pub is_retry_phase : RequestPhase → Bool
is_retry_phase RequestPhase.ready = true
is_retry_phase RequestPhase.retryable = true
is_retry_phase RequestPhase.retry_authorized = true
is_retry_phase _ = false

-- The envelope that the gateway consumes; its schema version is always 2.
pub record Child : Type 0 where
  pub handled : Bool
  pub request_id : Text
  pub checkpoint : Checkpoint
  pub transport : Option Disposition
  pub phase : RequestPhase
  pub outcome : Option Outcome
  pub reply : Text

-- _SUBMISSION_STATES
pub data SubmissionState : Type 0 where
  pending_observation observed complete linked : SubmissionState

pub record TargetOwner : Type 0 where
  pub stable_key : Text
  pub stable_key_version : ℕ

-- _DEDUP_COMPARISONS
pub data Comparison : Type 0 where
  match different unreadable : Comparison

pub record DedupWitness : Type 0 where
  pub prompt_fingerprint : Text
  pub composer_fingerprint : Option Text
  pub comparison : Comparison
  pub provider_verdict : Disposition
  pub owner_generation : Option Text
  pub observed_at : ℕ
  pub automatic_replay_authorized : Bool

-- _RECORD_FIELDS; the schema version is always 4.
pub record Request : Type 0 where
  pub request_id : Text
  pub created_at : ℕ
  pub updated_at : ℕ
  pub deadline_at : ℕ
  pub retain_until : ℕ
  pub state : RequestState
  pub request_json : Option Text
  pub transport : Option Disposition
  pub phase : RequestPhase
  pub terminal_outcome : Option Outcome
  pub checkpoint_already_advanced : Bool
  pub operator_attention_required : Bool
  pub blocked_reason : Option Text
  pub next_action : Option Text
  pub dedup_witness : Option DedupWitness
  pub stale_target_refreshed : Bool
  pub terminal_at : Option ℕ
  pub quarantined_at : Option ℕ
  pub quarantine_reason : Option Text
  pub outcome : Option Child
  pub submission_id : Option Text
  pub submission_state : Option SubmissionState
  pub turn_id : Option Text
  pub target_owner : Option TargetOwner
  pub submitted_at : Option ℕ
  pub linked_at : Option ℕ

-- `==` on the words of each vocabulary, by their place in it.
abbrev pub disposition_index : Option Disposition → ℕ
disposition_index none = 0
disposition_index (some Disposition.no_receipt) = 1
disposition_index (some Disposition.in_progress) = 2
disposition_index (some Disposition.terminal_accepted) = 3
disposition_index (some Disposition.terminal_rejected) = 4
disposition_index (some Disposition.terminal_uncertain) = 5
disposition_index (some Disposition.written_to_pty) = 6
disposition_index (some Disposition.submitted) = 7
disposition_index (some Disposition.agent_prompt_not_received) = 8
disposition_index (some Disposition.agent_prompt_unsubmitted) = 9
disposition_index (some Disposition.agent_prompt_stalled) = 10
disposition_index (some Disposition.agent_input_pending) = 11

abbrev pub phase_index : RequestPhase → ℕ
phase_index RequestPhase.resolving = 0
phase_index RequestPhase.ready = 1
phase_index RequestPhase.retryable = 2
phase_index RequestPhase.retry_authorized = 3
phase_index RequestPhase.accepted_unverified = 4
phase_index RequestPhase.queued = 5
phase_index RequestPhase.terminal = 6

abbrev pub outcome_index : Option Outcome → ℕ
outcome_index none = 0
outcome_index (some Outcome.delivered) = 1
outcome_index (some Outcome.not_delivered) = 2
outcome_index (some Outcome.delivery_unknown) = 3

abbrev pub comparison_index : Comparison → ℕ
comparison_index Comparison.match = 0
comparison_index Comparison.different = 1
comparison_index Comparison.unreadable = 2
