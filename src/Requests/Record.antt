-- ===== src/Requests/Record.antt =====
-- `_valid_record` and the tests that it is made of.
use herdres.Prelude.{
  Bool, Option, Text, all, codes, false, holds, if◌then◌else◌, is_some, leb, length, ltb, nat_eq,
  none, not, some, string_eq, text_eq, true, ℕ, ◌&&◌, ◌==◌, ◌||◌, ◌≡◌,
}
use herdres.Identity.{strip_prefix}
use herdres.Requests.Child.{fixed_reply, is_empty, valid_child}
use herdres.Requests.Types.{
  Child, Comparison, DedupWitness, Disposition, Outcome, Request, RequestPhase, RequestState,
  SubmissionState, TargetOwner, disposition_index, is_hold_outcome, is_persisted, is_retry_phase,
  is_retryable, outcome_index, phase_index,
}
use herdres.Safe.{Unicode, has_ink}

-- A command whose target has a fingerprint, and the canonical text of it without the fingerprint,
-- if it is a public command; or a text that has none.
pub data Refreshed : Type 0 where
  nothing_stale not_canonical : Refreshed
  without : Text → Refreshed

-- `_request_id_from_json` reads the text by the standard library's JSON, which is a parameter: the
-- identity in a canonical public command, or nothing. So does the rewrite of a command without the
-- fingerprint of its target, which keeps the identity, as it removes no other key.
pub record CommandCodec : Type 0 where
  pub request_id_from_json : Text → Option Text
  pub without_fingerprint : Text → Refreshed
  pub keeps_identity :
      (j k i : Text)
      → without_fingerprint j ≡ without k
      → request_id_from_json j ≡ some i
      → request_id_from_json k ≡ some i

-- `len(x) > 200` and the like, on identifiers.
abbrev pub fits : Text → Bool
fits t = leb (length t) 200

abbrev pub is_hex : ℕ → Bool
is_hex c = (leb b'0' c && leb c b'9') || (leb b'a' c && leb c b'f')

-- `_valid_target_owner`, of an owner that is given.
unfoldable pub valid_owner : TargetOwner → Bool
valid_owner o = elim (strip_prefix (codes "wsk1_") o.stable_key) [
  | none ↦ false
  | some digits ↦ length o.stable_key == 69 && all is_hex digits && o.stable_key_version == 1
]

abbrev pub valid_owner? : Option TargetOwner → Bool
valid_owner? none = true
valid_owner? (some o) = valid_owner o

abbrev pub nonempty_fits : Option Text → Bool
nonempty_fits none = true
nonempty_fits (some t) = not (is_empty t) && fits t

-- _DEDUP_PROVIDER_VERDICTS
abbrev pub is_verdict : Disposition → Bool
is_verdict Disposition.agent_prompt_not_received = true
is_verdict Disposition.agent_prompt_unsubmitted = true
is_verdict Disposition.agent_prompt_stalled = true
is_verdict Disposition.written_to_pty = true
is_verdict _ = false

abbrev pub is_not_received : Disposition → Bool
is_not_received Disposition.agent_prompt_not_received = true
is_not_received _ = false

-- The tests of `_valid_dedup_witness` that depend on the comparison.
abbrev pub valid_comparison : DedupWitness → Comparison → Option Text → Bool
valid_comparison w Comparison.unreadable none = not w.automatic_replay_authorized
valid_comparison w Comparison.unreadable (some c) = false
valid_comparison w Comparison.match none = false
valid_comparison w Comparison.match (some c) =
    (c == w.prompt_fingerprint) && not w.automatic_replay_authorized
valid_comparison w Comparison.different none = false
valid_comparison w Comparison.different (some c) =
    not (c == w.prompt_fingerprint)
    && (not w.automatic_replay_authorized || is_not_received w.provider_verdict)

-- `_valid_dedup_witness`
unfoldable pub valid_witness : DedupWitness → Bool
valid_witness w =
    not (is_empty w.prompt_fingerprint)
    && fits w.prompt_fingerprint
    && nonempty_fits w.composer_fingerprint
    && is_verdict w.provider_verdict
    && nonempty_fits w.owner_generation
    && valid_comparison w w.comparison w.composer_fingerprint

abbrev pub valid_witness? : Option DedupWitness → Bool
valid_witness? none = true
valid_witness? (some w) = valid_witness w

abbrev pub is_linked : Option SubmissionState → Bool
is_linked (some SubmissionState.linked) = true
is_linked _ = false

module _ ⦃u : Unicode⦄ ⦃codec : CommandCodec⦄ where
  abbrev pub ink_or_none : Option Text → Bool
  ink_or_none none = true
  ink_or_none (some t) = has_ink t

  -- The end of `_valid_submission_fields`: a turn and its time come together.
  abbrev pub valid_link : Option Text → Option ℕ → ℕ → ℕ → Bool
  valid_link none linked_at since updated = not (is_some linked_at)
  valid_link (some t) none since updated = false
  valid_link (some t) (some l) since updated = leb since l && leb l updated

  abbrev pub submitted_in_time : Request → Option ℕ → Bool
  submitted_in_time r none = false
  submitted_in_time r (some s) =
      leb r.created_at s && leb s r.updated_at && valid_link r.turn_id r.linked_at s r.updated_at

  abbrev pub valid_receipt : Request → Option Text → Bool
  valid_receipt r none =
      not (is_some r.submission_state)
      && not (is_some r.turn_id)
      && not (is_some r.submitted_at)
      && not (is_some r.linked_at)
      && valid_owner? r.target_owner
  valid_receipt r (some id) =
      has_ink id
      && fits id
      && is_some r.submission_state
      && ink_or_none r.turn_id
      && is_some r.target_owner
      && valid_owner? r.target_owner
      && (not (is_linked r.submission_state) || is_some r.turn_id)
      && submitted_in_time r r.submitted_at

  -- `_valid_submission_fields`
  unfoldable pub valid_submission : Request → Bool
  valid_submission r = valid_receipt r r.submission_id

  abbrev pub fixed_or_none : Option Text → Bool
  fixed_or_none none = true
  fixed_or_none (some t) = not (is_empty t) && (t == fixed_reply t)

  -- The lifetime of a record.
  unfoldable pub valid_times : Request → Bool
  valid_times r =
      leb r.created_at r.updated_at
      && ltb r.created_at r.deadline_at
      && ltb r.deadline_at r.retain_until

  abbrev pub json_matches : Option Text → Text → Bool
  json_matches none request_id = true
  json_matches (some json) request_id =
      holds (λ id. id == request_id) (codec.request_id_from_json json)

  unfoldable pub valid_json : Request → Text → Bool
  valid_json r request_id =
      json_matches r.request_json request_id
      && (not r.stale_target_refreshed || is_some r.request_json)

  abbrev pub is_unknown : Option Outcome → Bool
  is_unknown (some Outcome.delivery_unknown) = true
  is_unknown _ = false

  abbrev pub authorizes : Option DedupWitness → Bool
  authorizes none = false
  authorizes (some w) = w.automatic_replay_authorized

  -- Who must look at the record, and whether its evidence may replay it.
  unfoldable pub valid_attention : Request → Bool
  valid_attention r =
      not (is_unknown r.terminal_outcome && authorizes r.dedup_witness)
      && (if is_hold_outcome r.terminal_outcome
          then r.operator_attention_required && is_some r.blocked_reason && is_some r.next_action
          else not r.operator_attention_required)

  -- The fields that only a finished record has.
  abbrev pub unfinished : Request → Bool
  unfinished r =
      not (is_some r.terminal_outcome)
      && not r.checkpoint_already_advanced
      && not r.operator_attention_required
      && not (is_some r.blocked_reason)
      && not (is_some r.next_action)
      && not (is_some r.terminal_at)
      && not (is_some r.quarantined_at)
      && not (is_some r.quarantine_reason)
      && not (is_some r.outcome)

  abbrev pub is_resolving_phase : RequestPhase → Bool
  is_resolving_phase RequestPhase.resolving = true
  is_resolving_phase _ = false

  -- `state == "resolving"`
  unfoldable pub valid_resolving : Request → Bool
  valid_resolving r =
      not (is_some r.request_json)
      && r.updated_at == r.created_at
      && not (is_some r.transport)
      && is_resolving_phase r.phase
      && not (is_some r.dedup_witness)
      && not r.stale_target_refreshed
      && unfinished r

  -- `state == "retryable"`
  unfoldable pub valid_retryable : Request → Bool
  valid_retryable r =
      is_some r.request_json && is_retryable r.transport && is_retry_phase r.phase && unfinished r

  abbrev pub agrees : Request → Text → Option Child → Bool
  agrees r request_id none = false
  agrees r request_id (some c) =
      valid_child c request_id
      && disposition_index c.transport == disposition_index r.transport
      && phase_index c.phase == phase_index r.phase
      && outcome_index c.outcome == outcome_index r.terminal_outcome

  -- What the two finished states share.
  unfoldable pub valid_finish : Request → Text → Bool
  valid_finish r request_id =
      holds (λ t. leb t r.updated_at) r.terminal_at && agrees r request_id r.outcome

  -- `state == "terminal"`
  unfoldable pub valid_terminal : Request → Bool
  valid_terminal r =
      is_some r.request_json && not (is_some r.quarantined_at) && not (is_some r.quarantine_reason)

  unfoldable pub valid_quarantined : Request → Bool
  valid_quarantined r =
      (is_some r.request_json || not (is_some r.transport))
      && holds (λ t. t == r.updated_at) r.quarantined_at
      && holds (λ t. not (is_empty t)) r.quarantine_reason

  abbrev pub valid_in_state : RequestState → Request → Text → Bool
  valid_in_state RequestState.resolving r request_id = valid_resolving r
  valid_in_state RequestState.retryable r request_id = valid_retryable r
  valid_in_state RequestState.terminal r request_id = valid_finish r request_id && valid_terminal r
  valid_in_state RequestState.quarantined r request_id =
      valid_finish r request_id && valid_quarantined r

  -- `_valid_record`
  unfoldable pub valid_record : Request → Text → Bool
  valid_record r request_id =
      (r.request_id == request_id)
      && valid_times r
      && is_persisted r.transport
      && fixed_or_none r.blocked_reason
      && fixed_or_none r.next_action
      && valid_witness? r.dedup_witness
      && valid_submission r
      && valid_json r request_id
      && valid_attention r
      && valid_in_state r.state r request_id
