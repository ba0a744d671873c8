-- ===== src/Client/Answers.antt =====
-- `_validated_command_response` and `_validated_decision_response`.
use herdres.Prelude.{Bool, List, Text, [], codes, false, if◌then◌else◌, not, true, ◌&&◌, ◌||◌, ◌∷◌}
use herdres.Client.Commands.{worker_target}
use herdres.Client.Results.{valid_accepted_command_result}
use herdres.Client.Verdicts.{Verdict, demand, member_of, string_among}
use herdres.Json.Prune.{Casing, public_prune}
use herdres.Json.Same.{same_json}
use herdres.Json.Values.{
  Json, Members, equals_text, exact_keys, get, is_boolean, is_integer, is_null, is_object,
  is_strings, members_of, nonempty_string,
}
use herdres.Safe.{Unicode}

-- _COMMAND_RESPONSE_FIELDS
abbrev pub response_fields : List Text
response_fields =
    codes "schema_version"
    ∷ codes "action"
    ∷ codes "request_id"
    ∷ codes "ok"
    ∷ codes "dry_run"
    ∷ codes "status"
    ∷ codes "disposition"
    ∷ codes "result"
    ∷ codes "error"
    ∷ codes "warnings"
    ∷ []

-- _COMMAND_DISPOSITIONS
abbrev pub command_dispositions : List Text
command_dispositions =
    codes "no_receipt"
    ∷ codes "in_progress"
    ∷ codes "terminal_accepted"
    ∷ codes "terminal_rejected"
    ∷ codes "terminal_uncertain"
    ∷ []

-- _COMMAND_TERMINAL_REJECTION_STATUSES
abbrev pub rejection_statuses : List Text
rejection_statuses =
    codes "rejected"
    ∷ codes "stale_target"
    ∷ codes "backend_unavailable"
    ∷ codes "backend_unsupported"
    ∷ codes "ambiguous_backend_target"
    ∷ codes "backend_failed"
    ∷ codes "duplicate_request"
    ∷ []

-- _COMMAND_PRE_RECEIPT_STATUSES
abbrev pub pre_receipt_statuses : List Text
pre_receipt_statuses =
    codes "invalid_request"
    ∷ codes "rejected"
    ∷ codes "not_found"
    ∷ codes "ambiguous_target"
    ∷ codes "stale_target"
    ∷ codes "backend_unavailable"
    ∷ codes "backend_unsupported"
    ∷ codes "ambiguous_backend_target"
    ∷ codes "backend_failed"
    ∷ []

-- _DECISION_FAILURE_STATUSES
abbrev pub failure_statuses : List Text
failure_statuses =
    codes "decision_not_pending"
    ∷ codes "invalid_selection"
    ∷ codes "unsupported_decision"
    ∷ codes "unknown_worker"
    ∷ []

abbrev pub is_bool : Json → Bool
is_bool (Json.boolean b) = true
is_bool _ = false

abbrev pub disposition_of : Members → Json
disposition_of r = get (codes "disposition") r

abbrev pub status_of : Members → Json
status_of r = get (codes "status") r

-- What both validators test before the disposition.
abbrev pub shared_head : Text → Members → Members → Bool
shared_head action r request =
    same_json (get (codes "request_id") r) (get (codes "request_id") request)
    && equals_text action (get (codes "action") r)
    && is_boolean false (get (codes "dry_run") r)
    && is_bool (get (codes "ok") r)
    && nonempty_string (status_of r)

module _ ⦃u : Unicode⦄ ⦃casing : Casing⦄ where
  -- `public_prune(response) == response`
  abbrev pub is_public : Members → Bool
  is_public r = same_json (public_prune (Json.object r)) (Json.object r)

  -- `error.get("code") is not None and error.get("code") != status`, and the message.
  abbrev pub explained : Members → Json → Bool
  explained r (Json.object e) =
      (is_null (get (codes "code") e) || same_json (get (codes "code") e) (status_of r))
      && nonempty_string (get (codes "message") e)
  explained r _ = false

  abbrev pub status_fits : Members → Bool
  status_fits r =
      if equals_text (codes "in_progress") (disposition_of r)
      then equals_text (codes "pending") (status_of r)
      else if equals_text (codes "terminal_uncertain") (disposition_of r)
      then equals_text (codes "request_state_uncertain") (status_of r)
      else if equals_text (codes "terminal_rejected") (disposition_of r)
      then string_among rejection_statuses (status_of r)
      else equals_text (codes "no_receipt") (disposition_of r)
        && string_among pre_receipt_statuses (status_of r)

  abbrev pub is_third : Members → Bool
  is_third r = is_integer 3 (get (codes "schema_version") r)

  abbrev pub affirmed : Members → Bool
  affirmed r =
      equals_text (codes "accepted") (status_of r)
      && is_boolean true (get (codes "ok") r)
      && is_null (get (codes "error") r)

  abbrev pub declined : Members → Bool
  declined r =
      is_boolean false (get (codes "ok") r) && explained r (get (codes "error") r) && status_fits r

  abbrev pub command_tail : Members → Members → Verdict
  command_tail r request =
      if equals_text (codes "terminal_accepted") (disposition_of r)
      then demand (affirmed r)
          (valid_accepted_command_result (is_third r) request (get (codes "result") r))
      else demand (declined r) Verdict.accepted

  abbrev pub null_or_object : Json → Bool
  null_or_object j = is_null j || is_object j

  abbrev pub command_head : Members → Members → Bool
  command_head r request =
      exact_keys response_fields r
      && (is_integer 2 (get (codes "schema_version") r) || is_third r)
      && (not (is_third r) || is_integer 3 (get (codes "response_schema_version") request))
      && shared_head (codes "send_instruction") r request

  abbrev pub command_body : Members → Bool
  command_body r =
      null_or_object (get (codes "result") r)
      && null_or_object (get (codes "error") r)
      && is_strings (get (codes "warnings") r)
      && is_public r

  unfoldable pub validated_command_response : Members → Members → Verdict
  unfolding valid_accepted_command_result same_json public_prune
  validated_command_response r request = demand (command_head r request) (
      member_of command_dispositions (disposition_of r)
        (demand (command_body r) (command_tail r request)))

  abbrev pub decided_fields : List Text
  decided_fields =
      codes "target"
      ∷ codes "decision"
      ∷ codes "delivery_state"
      ∷ codes "transport_state"
      ∷ codes "observed_pending_state"
      ∷ []

  abbrev pub decided : Members → Json → Bool
  decided request (Json.object r) =
      exact_keys decided_fields r
      && worker_target (get (codes "target") r)
      && same_json (get (codes "worker_id") (members_of (get (codes "target") r)))
          (get (codes "worker_id") (members_of (get (codes "target") request)))
      && is_object (get (codes "decision") r)
      && exact_keys (codes "decision_ref" ∷ []) (members_of (get (codes "decision") r))
      && same_json (get (codes "decision_ref") (members_of (get (codes "decision") r)))
          (get (codes "decision_ref") (members_of (get (codes "params") request)))
      && equals_text (codes "submitted") (get (codes "delivery_state") r)
      && equals_text (codes "submitted") (get (codes "transport_state") r)
      && equals_text (codes "pending_observation") (get (codes "observed_pending_state") r)
  decided request _ = false

  abbrev pub coded : Members → Json → Bool
  coded r (Json.object e) =
      same_json (get (codes "code") e) (status_of r) && nonempty_string (get (codes "message") e)
  coded r _ = false

  abbrev pub undecided : Members → Bool
  undecided r =
      if equals_text (codes "answer_in_progress") (status_of r)
      then string_among (codes "no_receipt" ∷ codes "in_progress" ∷ []) (disposition_of r)
      else string_among failure_statuses (status_of r)
        && string_among (codes "no_receipt" ∷ codes "terminal_rejected" ∷ []) (disposition_of r)

  abbrev pub affirmed_decision : Members → Members → Bool
  affirmed_decision r request =
      equals_text (codes "accepted") (status_of r)
      && equals_text (codes "terminal_accepted") (disposition_of r)
      && is_null (get (codes "error") r)
      && decided request (get (codes "result") r)

  abbrev pub declined_decision : Members → Bool
  declined_decision r =
      is_null (get (codes "result") r) && coded r (get (codes "error") r) && undecided r

  abbrev pub decision_tail : Members → Members → Verdict
  decision_tail r request =
      if is_boolean true (get (codes "ok") r)
      then demand (affirmed_decision r request) Verdict.accepted
      else demand (declined_decision r) Verdict.accepted

  abbrev pub decision_head : Members → Members → Bool
  decision_head r request =
      exact_keys response_fields r
      && is_integer 2 (get (codes "schema_version") r)
      && shared_head (codes "answer_decision") r request

  abbrev pub decision_body : Members → Bool
  decision_body r = is_strings (get (codes "warnings") r) && is_public r

  unfoldable pub validated_decision_response : Members → Members → Verdict
  unfolding same_json public_prune
  validated_decision_response r request = demand (decision_head r request) (
      member_of command_dispositions (disposition_of r)
        (demand (decision_body r) (decision_tail r request)))
