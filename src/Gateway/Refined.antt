-- ===== src/Gateway/Refined.antt =====
-- About a dispatch as a history of the spool.
use herdres.Prelude.{Bool, List, String, [], ap, false, refl, sym, true, ℕ, ◌++◌, ◌∙◌, ◌∷◌, ◌≡◌}
use herdres.Gateway.Dispatch.{
  DispatchConfig, caught, dispatch, dispatch_leased, settle, settling_call,
}
use herdres.Gateway.Envelope.{Reading}
use herdres.Lanes.Calls.{Call, renews, retries, run, step}
use herdres.Lanes.Leases.{renew_lease}
use herdres.Lanes.Rows.{LaneItem, Spool}
use herdres.Requests.Types.{Checkpoint}

run-append : (cs ds : List Call) (sp : Spool) → run sp (cs ++ ds) ≡ run (run sp cs) ds
unfolding run
run-append [] ds sp = refl
run-append (c ∷ cs) ds sp = run-append cs ds (step sp c)

settle-run :
    (cfg : DispatchConfig) (leased : LaneItem) (owner : String) (now : ℕ) (cp : Checkpoint)
    (sp : Spool)
    → settle cfg leased owner now cp sp ≡ run sp (settling_call cfg leased owner now cp ∷ [])
unfolding run step
settle-run cfg leased owner now Checkpoint.retry sp = refl
settle-run cfg leased owner now Checkpoint.hold sp = refl
settle-run cfg leased owner now Checkpoint.advance sp = refl

-- The calls of a dispatch.
abbrev pub dispatch_calls :
    DispatchConfig
    → LaneItem
    → String
    → Bool
    → Bool
    → ℕ
    → List Call
    → Reading Checkpoint
    → ℕ
    → List Call
dispatch_calls cfg leased owner false renewed start_at between handled end_at =
    retries leased.seq owner cfg.backoff start_at ∷ []
dispatch_calls cfg leased owner true false start_at between handled end_at =
    renews leased.seq owner cfg.lease start_at ∷ []
dispatch_calls cfg leased owner true true start_at between handled end_at =
    renews leased.seq owner cfg.lease start_at ∷ between
    ++ settling_call cfg leased owner end_at (caught handled) ∷ []

-- A dispatch is a history of the spool's calls: a retry, if the receiver has no token; else the
-- renewal of the lease and, if that is granted, the calls between and one call that settles the row
-- by the checkpoint, where an exception counts as a retry.
pub dispatch-run :
    (cfg : DispatchConfig) (leased : LaneItem) (owner : String) (has_token : Bool) (start_at : ℕ)
    (between : List Call) (handled : Reading Checkpoint) (end_at : ℕ) (sp : Spool)
    → dispatch cfg leased owner has_token start_at between handled end_at sp
      ≡ run sp (
          dispatch_calls cfg leased owner has_token
            (renew_lease leased.seq owner cfg.lease start_at sp).1
            start_at
            between
            handled
            end_at)
unfolding dispatch run step
dispatch-run cfg leased owner false start_at between handled end_at sp = refl
dispatch-run cfg leased owner true start_at between handled end_at sp =
    leased_run (renew_lease leased.seq owner cfg.lease start_at sp) refl
  where
    leased_run :
        (m : Spool × Bool)
        → renew_lease leased.seq owner cfg.lease start_at sp ≡ m
        → dispatch_leased cfg leased owner between handled end_at m
          ≡ run sp (dispatch_calls cfg leased owner true m.1 start_at between handled end_at)
    leased_run (sp', true) e =
        settle-run cfg leased owner end_at (caught handled) (run sp' between)
        ∙ sym (run-append between (settling_call cfg leased owner end_at (caught handled) ∷ []) sp')
        ∙ ap
            (λ (x : Spool).
              run x (between ++ settling_call cfg leased owner end_at (caught handled) ∷ []))
            (sym (ap (λ (x : Spool × Bool). x.0) e))
    leased_run (sp', false) e = sym (ap (λ (x : Spool × Bool). x.0) e)
