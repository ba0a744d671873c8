-- ===== src/Requests/HistoryExamples.antt =====
-- The theorems on the life of a record at the life of one command.
use herdres.Prelude.{Text, [], arith, codes, none, refl, some, true, ◌≡◌}
use herdres.Identity.{strip_prefix, valid_request_id}
use herdres.Requests.History.{
  Life, Life-valid, attaches, concludes, delays, here, refreshes, then_step,
}
use herdres.Requests.Kept.{Keeps, Life-Keeps}
use herdres.Requests.Lifecycle.{attach_request_json, mark_retryable, record_terminal_outcome}
use herdres.Requests.Record.{valid_record}
use herdres.Requests.Refresh.{stale_target_refresh_json}
use herdres.Requests.SampleExamples.{command0, id0, opened0, opened_made, plain_codec}
use herdres.Requests.Stable.{IsStable, plain-IsStable}
use herdres.Requests.Types.{Disposition, Outcome, Request, RequestPhase, RequestState}
use herdres.Safe.Ascii.{ascii}

empty-IsStable : IsStable []
empty-IsStable = plain-IsStable [] refl (omega arith)

-- The command is attached, deferred once, refreshed, and delivered.
abbrev stale0 : Text
stale0 = codes "pick hri1_AAAAAAAAAAAAAAAAAAAAAAAAAAAAAAAAAAAAAAAAAAA"

abbrev deferred0 : Request
deferred0 =
    (mark_retryable (attach_request_json opened0 stale0 1500).1 (some Disposition.no_receipt)
      1700).1

abbrev refreshed0 : Request
refreshed0 = (stale_target_refresh_json deferred0 1800).1

abbrev delivered0 : Request
delivered0 =
    (record_terminal_outcome refreshed0 (some Disposition.submitted) RequestPhase.terminal
      Outcome.delivered 2000 [] [] [] true).1

updated_deferred : deferred0.updated_at ≡ 1700
unfolding mark_retryable attach_request_json valid_request_id strip_prefix
updated_deferred = refl

updated_attached : (attach_request_json opened0 stale0 1500).1.updated_at ≡ 1500
unfolding attach_request_json valid_request_id strip_prefix
updated_attached = refl

state_deferred : deferred0.state ≡ RequestState.retryable
unfolding mark_retryable attach_request_json valid_request_id strip_prefix
state_deferred = refl

updated_refreshed : refreshed0.updated_at ≡ 1800
unfolding stale_target_refresh_json mark_retryable attach_request_json valid_request_id strip_prefix
updated_refreshed = refl

command_refreshed : refreshed0.request_json ≡ some command0
unfolding stale_target_refresh_json mark_retryable attach_request_json valid_request_id strip_prefix
command_refreshed = refl

witness_refreshed : refreshed0.dedup_witness ≡ none
unfolding stale_target_refresh_json mark_retryable attach_request_json valid_request_id strip_prefix
witness_refreshed = refl

life0 : Life opened0 delivered0
life0 =
    then_step
      (then_step
        (then_step (then_step here (attaches stale0 1500 (omega arith)))
          (delays (some Disposition.no_receipt) 1700 (omega (arith, updated_attached))))
        (refreshes 1800 state_deferred (omega (arith, updated_deferred))))
      (concludes (some Disposition.submitted) RequestPhase.terminal Outcome.delivered 2000 [] [] []
        true (omega (arith, updated_refreshed)) empty-IsStable empty-IsStable empty-IsStable refl
        refl)

Life-valid_example : valid_record delivered0 id0 ≡ true
Life-valid_example = Life-valid id0 1000 3600 86400 opened_made life0

Life-Keeps_example : Keeps opened0 delivered0
Life-Keeps_example = Life-Keeps life0
