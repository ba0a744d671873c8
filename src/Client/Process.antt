-- ===== src/Client/Process.antt =====
-- `TendwireClient.command_json`, with the run of the child process as an argument.
use herdres.Prelude.{
  Bool, Option, codes, false, if◌then◌else◌, nat_eq, not, some, string_eq, text_eq, true, ℕ, ◌&&◌,
  ◌==◌, ◌||◌,
}
use herdres.Client.Answers.{validated_command_response, validated_decision_response}
use herdres.Client.Commands.{exact_public_command_request, is_decision}
use herdres.Client.Verdicts.{Verdict}
use herdres.Json.Prune.{Casing, public_prune}
use herdres.Json.Values.{Json, Members, get, is_boolean, members_of}
use herdres.Safe.{Unicode}

-- What `call` sees of the child: it was not started, its result was lost (a timeout, an exception,
-- an output that is not a JSON dictionary), or its return code and answer.
pub data ChildProcess : Type 0 where
  not_started lost : ChildProcess
  -- The sign of the return code, its magnitude, and the output.
  finished : Bool → ℕ → Members → ChildProcess

pub data CommandAnswer : Type 0 where
  invalid_request subprocess_failed request_state_uncertain : CommandAnswer
  raises_type_error : CommandAnswer
  answers : Members → CommandAnswer

module _ ⦃u : Unicode⦄ ⦃casing : Casing⦄ where
  abbrev pub validated_response : Members → Members → Verdict
  validated_response r request =
      if is_decision request
      then validated_decision_response r request
      else validated_command_response r request

  -- The return code has to agree with `ok`.
  abbrev pub code_agrees : Bool → ℕ → Members → Bool
  code_agrees negative code r =
      not negative
      && ((code == 0 && is_boolean true (get (codes "ok") r))
          || (code == 1 && is_boolean false (get (codes "ok") r)))

  abbrev pub checked_answer : Bool → ℕ → Members → Verdict → CommandAnswer
  checked_answer negative code r Verdict.refused = request_state_uncertain
  checked_answer negative code r Verdict.type_error = raises_type_error
  checked_answer negative code r Verdict.accepted =
      if code_agrees negative code r
      then answers (members_of (public_prune (Json.object r)))
      else request_state_uncertain

  abbrev pub process_answer : Members → ChildProcess → CommandAnswer
  process_answer request not_started = subprocess_failed
  process_answer request lost = request_state_uncertain
  process_answer request (finished negative code r) =
      checked_answer negative code r (validated_response r request)

  -- `none` is a text that `json.loads` does not read.
  unfoldable pub command_json : Option Json → ChildProcess → CommandAnswer
  unfolding exact_public_command_request validated_command_response validated_decision_response
      public_prune
  command_json (some (Json.object request)) process =
      if exact_public_command_request request
      then process_answer request process
      else invalid_request
  command_json _ process = invalid_request
