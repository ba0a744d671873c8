-- ===== src/Lanes/Calls.antt =====
-- The public methods of `IngressLaneSpool` as one alphabet of calls, so that a history of the spool
-- is a list. Processes and threads interleave only between transactions.
use herdres.Prelude.{List, Option, String, [], ℕ, ◌∷◌}
use herdres.Lanes.Claim.{claim, expire_holds}
use herdres.Lanes.Leases.{
  claim_notification, initialize_cursor, mark_blocked, mark_done, mark_notification_sent,
  reclaim_processing, renew_lease, retry,
}
use herdres.Lanes.Rows.{Spool}
use herdres.Lanes.Spool.{Arrival, Enqueued, enqueue, err, ok}

pub data Call : Type 0 where
  enqueues : Arrival → Call
  claims_head : (owner : String) (now lease : ℕ) → Call
  moves_cursor : (kind : String) (next now : ℕ) → Call
  expires_holds : (now : ℕ) → Call
  reclaims : (now : ℕ) → Call
  renews : (seq : ℕ) (owner : String) (lease now : ℕ) → Call
  claims_notification sends_notification : (seq now : ℕ) → Call
  finishes : (seq : ℕ) (owner : String) (now : ℕ) (notify : Option String) → Call
  blocks : (seq : ℕ) (owner : String) (now hold : ℕ) → Call
  retries : (seq : ℕ) (owner : String) (backoff now : ℕ) → Call

-- A transaction that raises leaves the spool as it was.
abbrev pub after_enqueue : Spool → Enqueued → Spool
after_enqueue sp (ok result sp') = sp'
after_enqueue sp (err e) = sp

unfoldable pub step : Spool → Call → Spool
step sp (enqueues a) = after_enqueue sp (enqueue a sp)
step sp (claims_head owner now lease) = (claim owner now lease sp).0
step sp (moves_cursor kind next now) = (initialize_cursor kind next now sp).0
step sp (expires_holds now) = expire_holds now sp
step sp (reclaims now) = (reclaim_processing now sp).0
step sp (renews seq owner lease now) = (renew_lease seq owner lease now sp).0
step sp (claims_notification seq now) = (claim_notification seq now sp).0
step sp (sends_notification seq now) = (mark_notification_sent seq now sp).0
step sp (finishes seq owner now notify) = (mark_done seq owner now notify sp).0
step sp (blocks seq owner now hold) = (mark_blocked seq owner now hold sp).0
step sp (retries seq owner backoff now) = (retry seq owner backoff now sp).0

unfoldable pub run : Spool → List Call → Spool
run sp [] = sp
run sp (c ∷ cs) = run (step sp c) cs
