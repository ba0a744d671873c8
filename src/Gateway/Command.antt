-- ===== src/Gateway/Command.antt =====
-- `run_herdres_command` and `_checkpoint_for_command_result`.
use herdres.Prelude.{Bool, Option, Text, [], codes, false, if◌then◌else◌, none, some, true}
use herdres.Gateway.Envelope.{Reading, raises, reads, refuses, validated_child_response}
use herdres.Gateway.Words.{
  write_checkpoint, write_disposition, write_or_null, write_outcome, write_phase,
}
use herdres.Identity.{valid_request_id}
use herdres.Json.Values.{Json, Members, member, no_members}
use herdres.Requests.Types.{Checkpoint, Child, RequestPhase}
use herdres.Safe.{Unicode}

-- What the parent sees of the child: it was not started or did not come back in time, or it came
-- back with a return code, whether that is 0, and an output, if it is UTF-8 and JSON.
pub data ChildRun : Type 0 where
  no_result : ChildRun
  came_back : (success : Bool) (output : Option Json) → ChildRun

-- `_private_retry_child_result`
abbrev pub private_retry_child_result : Text → Child
private_retry_child_result request_id = record {
  handled = true;
  request_id = request_id;
  checkpoint = Checkpoint.retry;
  transport = none;
  phase = RequestPhase.retryable;
  outcome = none;
  reply = [];
}

-- `IngressResult.to_wire_dict`
abbrev pub envelope : Child → Members
envelope c = member (codes "schema_version") (Json.integer false 2) (
    member (codes "handled") (Json.boolean c.handled) (
      member (codes "request_id") (Json.string c.request_id) (
        member (codes "checkpoint") (Json.string (write_checkpoint c.checkpoint)) (
          member (codes "transport_disposition") (write_or_null write_disposition c.transport) (
            member (codes "request_phase") (Json.string (write_phase c.phase)) (
              member (codes "terminal_outcome") (write_or_null write_outcome c.outcome)
                (member (codes "reply") (Json.string c.reply) no_members)))))))

-- `validated if validated is not None else …`
abbrev pub or_private_retry : Text → Reading Child → Reading Child
or_private_retry request_id (reads c) = reads c
or_private_retry request_id refuses = reads (private_retry_child_result request_id)
or_private_retry request_id raises = raises

module _ ⦃u : Unicode⦄ where
  abbrev pub child_answer : Text → ChildRun → Reading Child
  child_answer request_id no_result = reads (private_retry_child_result request_id)
  child_answer request_id (came_back false output) = reads (private_retry_child_result request_id)
  child_answer request_id (came_back true none) = reads (private_retry_child_result request_id)
  child_answer request_id (came_back true (some data_read)) =
      or_private_retry request_id (validated_child_response data_read request_id)

  -- `validate_request_id` of the payload comes first.
  unfoldable pub run_herdres_command : Json → ChildRun → Reading Child
  unfolding validated_child_response valid_request_id
  run_herdres_command (Json.string request_id) child =
      if valid_request_id request_id
      then child_answer request_id child
      else reads (private_retry_child_result [])
  run_herdres_command _ child = reads (private_retry_child_result [])

  abbrev pub checkpoint_in : Reading Child → Reading Checkpoint
  checkpoint_in (reads c) = reads c.checkpoint
  checkpoint_in refuses = reads Checkpoint.retry
  checkpoint_in raises = raises

  -- The result is tested again, whether it was cached or has just come back.
  unfoldable pub checkpoint_for_command_result : Child → Text → Reading Checkpoint
  unfolding validated_child_response
  checkpoint_for_command_result c request_id =
      checkpoint_in (validated_child_response (Json.object (envelope c)) request_id)
