-- ===== src/Gateway/Dispatch.antt =====
-- `handle_message`, as to the checkpoint that it returns, and `_InboundLaneDispatcher._dispatch`.
use herdres.Prelude.{
  Bool, List, Option, String, Text, false, if◌then◌else◌, nat_eq, none, some, string_eq, text_eq,
  true, ℕ, ◌==◌,
}
use herdres.Gateway.Command.{ChildRun, checkpoint_for_command_result, run_herdres_command}
use herdres.Gateway.Envelope.{Reading, raises, reads, refuses}
use herdres.Json.Values.{Json}
use herdres.Lanes.Calls.{Call, blocks, finishes, retries, run}
use herdres.Lanes.Leases.{mark_blocked, mark_done, renew_lease, retry}
use herdres.Lanes.Rows.{LaneItem, Spool}
use herdres.Requests.Types.{Checkpoint, Child}
use herdres.Safe.{Unicode}

pub record DispatchConfig : Type 0 where
  pub backoff : ℕ
  pub lease : ℕ
  pub hold : ℕ

-- `deferred_reply(reply)`, which only follows an advance.
abbrev pub replied : Bool → Reading Checkpoint → Reading Checkpoint
replied true (reads Checkpoint.advance) = raises
replied false (reads Checkpoint.advance) = reads Checkpoint.advance
replied reply_raises (reads Checkpoint.hold) = reads Checkpoint.hold
replied reply_raises (reads Checkpoint.retry) = reads Checkpoint.retry
replied reply_raises refuses = refuses
replied reply_raises raises = raises

module _ ⦃u : Unicode⦄ where
  -- The result of a command: the cached one, or that of the child.
  abbrev pub command_result : Text → Option Child → ChildRun → Reading Child
  command_result request_id (some c) child = reads c
  command_result request_id none child = run_herdres_command (Json.string request_id) child

  abbrev pub checkpoint_of : Text → Reading Child → Reading Checkpoint
  checkpoint_of request_id (reads c) = checkpoint_for_command_result c request_id
  checkpoint_of request_id refuses = refuses
  checkpoint_of request_id raises = raises

  -- `none` is an update without a valid identity, which is dropped. `reply_raises` says whether
  -- there is a reply whose deferral raises; a reply that is sent at once is best effort.
  unfoldable pub handle_message :
      Option Text → Option Child → ChildRun → (reply_raises : Bool) → Reading Checkpoint
  unfolding run_herdres_command checkpoint_for_command_result
  handle_message none cached child reply_raises = reads Checkpoint.advance
  handle_message (some request_id) cached child reply_raises =
      replied reply_raises (checkpoint_of request_id (command_result request_id cached child))

-- An exception of `handle_update` counts as a retry.
abbrev pub caught : Reading Checkpoint → Checkpoint
caught (reads c) = c
caught _ = Checkpoint.retry

-- `"sent" if item.kind != "message" else None`
abbrev pub notify_of : LaneItem → Option String
notify_of leased = if leased.kind == "message" then none else some "sent"

-- The call that settles the row.
abbrev pub settling_call : DispatchConfig → LaneItem → String → ℕ → Checkpoint → Call
settling_call cfg leased owner now Checkpoint.advance =
    finishes leased.seq owner now (notify_of leased)
settling_call cfg leased owner now Checkpoint.hold = blocks leased.seq owner now cfg.hold
settling_call cfg leased owner now Checkpoint.retry = retries leased.seq owner cfg.backoff now

abbrev pub settle : DispatchConfig → LaneItem → String → ℕ → Checkpoint → Spool → Spool
settle cfg leased owner now Checkpoint.advance sp =
    (mark_done leased.seq owner now (notify_of leased) sp).0
settle cfg leased owner now Checkpoint.hold sp = (mark_blocked leased.seq owner now cfg.hold sp).0
settle cfg leased owner now Checkpoint.retry sp = (retry leased.seq owner cfg.backoff now sp).0

-- After the lease is renewed, or was not: `between` is what the other threads and processes, and
-- the heartbeat, do to the spool while the update is handled.
abbrev pub dispatch_leased :
    DispatchConfig
    → LaneItem
    → String
    → (between : List Call) → Reading Checkpoint
    → ℕ
    → Spool × Bool
    → Spool
dispatch_leased cfg leased owner between handled end_at (sp, true) =
    settle cfg leased owner end_at (caught handled) (run sp between)
dispatch_leased cfg leased owner between handled end_at (sp, false) = sp

unfoldable pub dispatch :
    DispatchConfig
    → LaneItem
    → String
    → (has_token : Bool) → (start_at : ℕ) → (between : List Call) → Reading Checkpoint
    → (end_at : ℕ) → Spool
    → Spool
unfolding renew_lease mark_done mark_blocked retry run
dispatch cfg leased owner has_token start_at between handled end_at sp =
    if has_token
    then dispatch_leased cfg leased owner between handled end_at
        (renew_lease leased.seq owner cfg.lease start_at sp)
    else (retry leased.seq owner cfg.backoff start_at sp).0
