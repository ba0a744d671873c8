-- ===== src/Requests/History.antt =====
-- The life of a record: what a sequence of the transitions makes of it.
use herdres.Prelude.{
  Bool, Option, Text, coalesce, false, is_some, not, some, true, ℕ, ◌&&◌, ◌||◌, ◌≡◌, ◌≤◌,
}
use herdres.Requests.Evidence.{attach_submission_receipt, attach_target_owner, record_dedup_witness}
use herdres.Requests.Finished.{quarantine_request-valid}
use herdres.Requests.Legacy.{mark_retryable-valid, mark_terminal-valid}
use herdres.Requests.Lifecycle.{
  attach_request_json, mark_retryable, mark_terminal, new_record, quarantine_request,
  record_terminal_outcome,
}
use herdres.Requests.Opened.{attach_request_json-valid, new_record-valid}
use herdres.Requests.Outcomes.{record_terminal_outcome-valid}
use herdres.Requests.Receipts.{attach_target_owner-valid, may_age}
use herdres.Requests.Record.{CommandCodec, authorizes, is_linked, is_unknown, valid_record}
use herdres.Requests.Refresh.{stale_target_refresh_json, stale_target_refresh_json-valid}
use herdres.Requests.Stable.{IsStable}
use herdres.Requests.Types.{
  Disposition, Outcome, Request, RequestPhase, RequestState, SubmissionState, TargetOwner,
  is_hold_outcome, returns,
}
use herdres.Requests.Witnessed.{record_dedup_witness-valid}
use herdres.Requests.Written.{attach_submission_receipt-valid}
use herdres.Safe.{Unicode}

module _ ⦃u : Unicode⦄ ⦃codec : CommandCodec⦄ where
  -- One transition, whatever it answers, under the conditions on which it keeps a record valid. The
  -- callers do not see to all of them: see `attach_target_owner-stale`,
  -- `attach_submission_receipt-linked` and `record_dedup_witness-unreadable` for what happens without.
  pub data Step : Request → Request → Type 0 where
    attaches :
        {r : Request} (json : Text) (now : ℕ)
        → r.updated_at ≤ now
        → Step r (attach_request_json r json now).1
    delays :
        {r : Request} (d : Option Disposition) (now : ℕ)
        → r.updated_at ≤ now
        → Step r (mark_retryable r d now).1
    reduces :
        {r : Request} (d : Disposition) (now : ℕ)
        → r.updated_at ≤ now
        → authorizes r.dedup_witness ≡ false
        → Step r (mark_terminal r d now).1
    concludes :
        {r : Request} (d : Option Disposition) (p : RequestPhase) (o : Outcome) (now : ℕ)
        (reply reason action : Text) (handled : Bool)
        → r.updated_at ≤ now
        → IsStable reply
        → IsStable reason
        → IsStable action
        → (is_hold_outcome (some o) || handled) ≡ true
        → (is_unknown (some o) && authorizes r.dedup_witness) ≡ false
        → Step r (record_terminal_outcome r d p o now reply reason action handled).1
    quarantines :
        {r : Request} (reason : Text) (now : ℕ) (d : Option Disposition) (reply : Text)
        (handled : Bool)
        → r.updated_at ≤ now
        → IsStable reason
        → IsStable reply
        → (is_some r.request_json || not (is_some d)) ≡ true
        → (is_some d && authorizes r.dedup_witness) ≡ false
        → Step r (quarantine_request r reason now d reply handled).1
    owns :
        {r : Request} (owner : TargetOwner) (now : ℕ)
        → may_age r.state ≡ true
        → r.updated_at ≤ now
        → Step r (attach_target_owner r owner now).1
    submits :
        {r : Request} (i : Text) (state : SubmissionState) (turn : Option Text) (now : ℕ)
        → may_age r.state ≡ true
        → r.updated_at ≤ now
        → (is_linked (some state) && not (is_some (coalesce turn r.turn_id))) ≡ false
        → Step r (attach_submission_receipt r i state turn now).1
    witnesses :
        {r : Request} (prompt : Text) (composer : Option Text) (readable : Bool)
        (verdict : Disposition) (gen : Option Text) (now : ℕ)
        → r.state ≡ RequestState.terminal
        → is_hold_outcome r.terminal_outcome ≡ true
        → r.updated_at ≤ now
        → Step r (record_dedup_witness r prompt composer readable verdict gen now).1
    refreshes :
        {r : Request} (now : ℕ)
        → r.state ≡ RequestState.retryable
        → r.updated_at ≤ now
        → Step r (stale_target_refresh_json r now).1

  -- A sequence of such transitions.
  pub data Life : Request → Request → Type 0 where
    here : {r : Request} → Life r r
    then_step : {r s t : Request} → Life r s → Step s t → Life r t

  Step-valid :
      {r s : Request} (id : Text) → Step r s → valid_record r id ≡ true → valid_record s id ≡ true
  Step-valid id (attaches {r} json now n) v = attach_request_json-valid r id json now n v
  Step-valid id (delays {r} d now n) v = mark_retryable-valid r id d now n v
  Step-valid id (reduces {r} d now n w) v = mark_terminal-valid r id d now n w v
  Step-valid id (concludes {r} d p o now reply reason action handled n a b c f w) v =
      record_terminal_outcome-valid r id d p o now reply reason action handled n a b c f w v
  Step-valid id (quarantines {r} reason now d reply handled n a b j w) v =
      quarantine_request-valid r id reason now d reply handled n a b j w v
  Step-valid id (owns {r} owner now a n) v = attach_target_owner-valid r id owner now a n v
  Step-valid id (submits {r} i state turn now a n l) v =
      attach_submission_receipt-valid r id i state turn now a n l v
  Step-valid id (witnesses {r} prompt composer readable verdict gen now t h n) v =
      record_dedup_witness-valid r id prompt composer readable verdict gen now t h n v
  Step-valid id (refreshes {r} now t n) v = stale_target_refresh_json-valid r id now t n v

  -- A record that `_new_record` made stays valid through any sequence of transitions, each of which
  -- meets these conditions: the clock does not go back; reply, reason and action texts are stable
  -- under sanitizing; a delivery is concluded as handled; no witness that permits a replay stands
  -- when the record is reduced by `mark_terminal`, concluded as unknown or quarantined with a
  -- disposition, which takes a record with a command; an owner or a receipt is attached only in a
  -- state in which `updated_at` may move (`may_age`), and a receipt that says `linked` only with a
  -- turn; a witness is recorded only on a terminal record with a held outcome; and the stale target
  -- is refreshed only on a retryable record.
  pub Life-valid :
      (id : Text) (now horizon retention : ℕ) {r s : Request}
      → new_record id now horizon retention ≡ returns r
      → Life r s
      → valid_record s id ≡ true
  Life-valid id now horizon retention {r} e here = new_record-valid id now horizon retention r e
  Life-valid id now horizon retention e (then_step l t) =
      Step-valid id t (Life-valid id now horizon retention e l)
