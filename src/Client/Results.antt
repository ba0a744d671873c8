-- ===== src/Client/Results.antt =====
-- `_valid_accepted_command_result`.
use herdres.Prelude.{
  Bool, List, Text, [], codes, if◌then◌else◌, nat_eq, not, string_eq, text_eq, true, ◌&&◌, ◌==◌,
  ◌||◌, ◌∷◌,
}
use herdres.Client.Commands.{inked_string, worker_target}
use herdres.Client.Verdicts.{Verdict, demand, member_of}
use herdres.Json.Values.{
  Json, Members, equals_text, get, has_key, has_keys, is_null, keys_among, members_of,
}
use herdres.Safe.{Unicode, has_ink}

-- _COMMAND_ACCEPTED_RESULT_FIELDS
abbrev pub accepted_fields : List Text
accepted_fields =
    codes "target"
    ∷ codes "delivery_state"
    ∷ codes "transport_state"
    ∷ codes "target_state_at_send"
    ∷ codes "observed_turn_state"
    ∷ []

abbrev pub accepted_or_optional : List Text
accepted_or_optional = codes "submission_id" ∷ codes "turn_id" ∷ accepted_fields

abbrev pub turn_states : List Text
turn_states =
    codes "pending_observation" ∷ codes "observed" ∷ codes "complete" ∷ codes "linked" ∷ []

abbrev pub same_worker : Json → Json → Bool
same_worker (Json.string w) (Json.string asked) = w == asked
same_worker w asked = true

module _ ⦃u : Unicode⦄ where
  abbrev pub valid_turn_id : Bool → Members → Bool
  valid_turn_id v3 r =
      not (has_key (codes "turn_id") r)
      || (if is_null (get (codes "turn_id") r) then v3 else inked_string (get (codes "turn_id") r))

  -- Only the third version of an answer names a submission.
  abbrev pub valid_submission_id : Bool → Members → Bool
  valid_submission_id v3 r =
      not (has_key (codes "submission_id") r)
      || (inked_string (get (codes "submission_id") r) && v3)

  abbrev pub result_fits : Bool → Members → Members → Bool
  result_fits v3 request r =
      has_keys accepted_fields r
      && keys_among accepted_or_optional r
      && valid_turn_id v3 r
      && valid_submission_id v3 r
      && worker_target (get (codes "target") r)
      && same_worker (get (codes "worker_id") (members_of (get (codes "target") r)))
          (get (codes "worker_id") (members_of (get (codes "target") request)))
      && equals_text (codes "submitted") (get (codes "delivery_state") r)
      && equals_text (codes "submitted") (get (codes "transport_state") r)
      && inked_string (get (codes "target_state_at_send") r)

  abbrev pub accepted_result : Bool → Members → Members → Verdict
  accepted_result v3 request r =
      demand (result_fits v3 request r)
        (member_of turn_states (get (codes "observed_turn_state") r) Verdict.accepted)

  unfoldable pub valid_accepted_command_result : Bool → Members → Json → Verdict
  unfolding has_ink
  valid_accepted_command_result v3 request (Json.object r) = accepted_result v3 request r
  valid_accepted_command_result v3 request _ = Verdict.refused
