-- ===== src/Lanes/History.antt =====
-- Histories of the spool: what holds after any sequence of transactions.
use herdres.Prelude.{List, [], ◌∷◌}
use herdres.Lanes.Calls.{
  Call, blocks, claims_head, claims_notification, enqueues, expires_holds, finishes, moves_cursor,
  reclaims, renews, retries, run, sends_notification, step,
}
use herdres.Lanes.Claimed.{claim-IsValid}
use herdres.Lanes.Enqueued.{advance_cursor-IsValid}
use herdres.Lanes.Ingest.{enqueue-IsValid}
use herdres.Lanes.Leases.{initialize_cursor}
use herdres.Lanes.Rows.{Spool}
use herdres.Lanes.Spool.{empty}
use herdres.Lanes.Valid.{
  IsValid, claim_notification-IsValid, expire_holds-IsValid, mark_blocked-IsValid,
  mark_done-IsValid, mark_notification_sent-IsValid, reclaim_processing-IsValid,
  renew_lease-IsValid, retry-IsValid,
}

IsValid-empty : IsValid empty
IsValid-empty = record { ordered = tt; kept = tt }

pub step-IsValid : (c : Call) {sp : Spool} → IsValid sp → IsValid (step sp c)
unfolding step initialize_cursor
step-IsValid (enqueues a) v = enqueue-IsValid a v
step-IsValid (claims_head owner now lease) v = claim-IsValid owner now lease v
step-IsValid (moves_cursor kind next now) v = advance_cursor-IsValid kind next now v
step-IsValid (expires_holds now) v = expire_holds-IsValid v now
step-IsValid (reclaims now) v = reclaim_processing-IsValid v now
step-IsValid (renews seq owner lease now) v = renew_lease-IsValid v seq owner lease now
step-IsValid (claims_notification seq now) v = claim_notification-IsValid v seq now
step-IsValid (sends_notification seq now) v = mark_notification_sent-IsValid v seq now
step-IsValid (finishes seq owner now notify) v = mark_done-IsValid v seq owner now notify
step-IsValid (blocks seq owner now pause) v = mark_blocked-IsValid v seq owner now pause
step-IsValid (retries seq owner backoff now) v = retry-IsValid v seq owner backoff now

pub run-IsValid : (cs : List Call) {sp : Spool} → IsValid sp → IsValid (run sp cs)
unfolding run
run-IsValid [] v = v
run-IsValid (c ∷ cs) v = run-IsValid cs (step-IsValid c v)

-- After any sequence of calls on a new spool: the rows stand in the order of their numbers, no two
-- share a request or an update of one receiver, behind an open row of a lane every row waits or is
-- done, a row has a lease just while it is processing, and the cursor of each receiver has passed
-- every update that is stored.
pub history-IsValid : (cs : List Call) → IsValid (run empty cs)
history-IsValid cs = run-IsValid cs IsValid-empty
