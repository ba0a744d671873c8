-- ===== src/Gateway/Examples.antt =====
-- The gateway at one row and one command.
use herdres.Prelude.{List, Text, [], arith, codes, false, none, refl, some, true, ◌∷◌, ◌≡◌}
use herdres.Gateway.Command.{
  ChildRun, came_back, checkpoint_for_command_result, envelope, run_herdres_command,
}
use herdres.Gateway.Delivered.{SaysDelivered, dispatch-delivered}
use herdres.Gateway.Dispatch.{DispatchConfig, dispatch, handle_message}
use herdres.Gateway.Envelope.{Reading, reads, validated_child_response}
use herdres.Gateway.Settles.{IsUnfinished}
use herdres.Gateway.Wire.{Delivered, run_herdres_command-advance}
use herdres.Gateway.Written.{child_result-validated_child_response}
use herdres.Identity.{strip_prefix, valid_request_id}
use herdres.Json.Ascii.{ascii_casing}
use herdres.Json.Values.{Json}
use herdres.Lanes.Calls.{Call, renews, run, step}
use herdres.Lanes.Holders.{row_at}
use herdres.Lanes.Leases.{mark_done, renew_lease, renewed_row, update_one}
use herdres.Lanes.Rows.{LaneItem, Row, Spool, blank, is_done, processing}
use herdres.Lanes.Settled.{state_at}
use herdres.Requests.Child.{child_result, fixed_reply}
use herdres.Requests.Stable.{plain-IsStable}
use herdres.Requests.Types.{Checkpoint, Child, Disposition, Outcome, RequestPhase, returns}
use herdres.Safe.{printable, redact, sanitize_text}
use herdres.Safe.Ascii.{ascii}

abbrev cfg0 : DispatchConfig
cfg0 = record { backoff = 2000; lease = 60000; hold = 30000 }

abbrev row0 : Row
row0 = record blank {
  seq = 1;
  state = processing;
  kind = "message";
  lane_key = "a";
  deadline_at = 90000;
  lease_owner = some "w";
  lease_until = some 50000;
  state_since = some 0;
}

abbrev spool0 : Spool
spool0 = record { rows = row0 ∷ []; next_seq = 2; cursors = [] }

abbrev leased0 : LaneItem
leased0 = record {
  seq = 1;
  request_id = "";
  receiver_kind = "";
  update_id = 0;
  lane_key = "a";
  kind = "message";
  update = "";
  route = "";
  attempts = 0;
  first_seen_at = 0;
  next_attempt_at = 0;
  deadline_at = 90000;
  lease_owner = "w";
  lease_until = 50000;
  notify_state = "";
}

abbrev id2 : Text
id2 = codes "hri1_AAAAAAAAAAAAAAAAAAAAAAAAAAAAAAAAAAAAAAAAAAA"

abbrev delivered2 : Child
delivered2 = record {
  handled = true;
  request_id = id2;
  checkpoint = Checkpoint.advance;
  transport = some Disposition.submitted;
  phase = RequestPhase.terminal;
  outcome = some Outcome.delivered;
  reply = [];
}

abbrev came_delivered : ChildRun
came_delivered = came_back true (some (Json.object (envelope delivered2)))

command_delivered : run_herdres_command (Json.string id2) came_delivered ≡ reads delivered2
unfolding run_herdres_command validated_child_response valid_request_id strip_prefix sanitize_text
    redact printable
command_delivered = refl

run_herdres_command-advance_example :
    (id : Text) × (Json.string id2 ≡ Json.string id)
    × (valid_request_id id ≡ true)
    × Delivered id came_delivered delivered2
run_herdres_command-advance_example =
    run_herdres_command-advance (Json.string id2) came_delivered delivered2 command_delivered refl

child_made :
    child_result id2 Checkpoint.advance
      (some Disposition.submitted)
      RequestPhase.terminal
      (some Outcome.delivered)
      []
      true
    ≡ returns delivered2
unfolding child_result valid_request_id strip_prefix fixed_reply sanitize_text redact printable
child_made = refl

child_result-validated_child_response_example :
    (validated_child_response (Json.object (envelope delivered2)) id2 ≡ reads delivered2)
    × (checkpoint_for_command_result delivered2 id2 ≡ reads Checkpoint.advance)
child_result-validated_child_response_example =
    child_result-validated_child_response id2 Checkpoint.advance (some Disposition.submitted)
      RequestPhase.terminal (some Outcome.delivered) [] true delivered2 (λ e. refl)
      (plain-IsStable [] refl (omega arith)) child_made

-- The heartbeat renews the lease meanwhile.
abbrev meanwhile0 : List Call
meanwhile0 = renews 1 "w" 60000 20000 ∷ []

abbrev handled0 : Reading Checkpoint
handled0 = handle_message (some id2) none came_delivered false

unfinished0 : IsUnfinished cfg0 leased0 "w" 10000 meanwhile0 1 spool0
unfolding state_at run step renew_lease update_one
unfinished0 = (refl, refl)

dispatched0 :
    state_at is_done 1 (dispatch cfg0 leased0 "w" true 10000 meanwhile0 handled0 30000 spool0).rows
    ≡ true
unfolding state_at dispatch run step renew_lease update_one mark_done handle_message
    run_herdres_command checkpoint_for_command_result validated_child_response valid_request_id
    strip_prefix sanitize_text redact printable
dispatched0 = refl

dispatch-delivered_example : SaysDelivered id2 none came_delivered
dispatch-delivered_example =
    dispatch-delivered cfg0 leased0 "w" true 10000 meanwhile0 id2 none came_delivered false 30000 1
      spool0 unfinished0 dispatched0

renewed0 : (renew_lease 1 "w" 60000 10000 spool0).1 ≡ true
unfolding renew_lease update_one
renewed0 = refl

abbrev row_meanwhile : Row
row_meanwhile = renewed_row 60000 20000 (renewed_row 60000 10000 row0)

row_still :
    row_at 1 (run (renew_lease 1 "w" 60000 10000 spool0).0 meanwhile0).rows ≡ some row_meanwhile
unfolding run step renew_lease update_one
row_still = refl
