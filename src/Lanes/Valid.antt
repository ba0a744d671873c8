-- ===== src/Lanes/Valid.antt =====
-- The invariant of the spool, and the statements of a dispatcher under it.
use herdres.Prelude.{
  All, AllPairs, Bool, Bool-cases, Option, String, arith, find, inl, inr, is_some, update_where, ℕ,
}
use herdres.Lanes.Claim.{
  end_hold, expire_holds, expire_leases, hold_due, lease_lapsed, release_lease,
}
use herdres.Lanes.Leases.{
  blocked_row, claim_notification, finished_row, is_leased, leased_by, mark_blocked, mark_done,
  mark_notification_sent, move_notification, notified_as, notified_row, reclaim_processing,
  reclaimed_row, renew_lease, renewed_row, retry, retry_row, update_one,
}
use herdres.Lanes.Rewrites.{
  All-IsKept-update_where, AllPairs-IsBehind-update_where, IsBehind, IsGentle, IsKept, rewritten,
}
use herdres.Lanes.Rows.{Row, Spool}

pub record IsValid (sp : Spool) : Type 0 where
  pub ordered : AllPairs IsBehind sp.rows
  pub kept : All (IsKept sp.next_seq sp.cursors) sp.rows

module _ (p : Row → Bool) (f : Row → Row) (gentle : (r : Row) → IsGentle r (rewritten p f r)) where
  pub update_where-IsValid :
      {sp : Spool} → IsValid sp → IsValid (record sp { rows = update_where p f sp.rows })
  update_where-IsValid {sp} v = record {
    ordered = AllPairs-IsBehind-update_where p f gentle sp.rows v.ordered;
    kept = All-IsKept-update_where p f (λ r. (gentle r).tidy) sp.next_seq sp.cursors sp.rows v.kept;
  }

  update_one-IsValid : {sp : Spool} → IsValid sp → IsValid (update_one p f sp).0
  unfolding update_one
  update_one-IsValid = update_where-IsValid

end_hold-IsGentle : (now : ℕ) (r : Row) → IsGentle r (rewritten (hold_due now) (end_hold now) r)
end_hold-IsGentle now r = ground arith

release_lease-IsGentle :
    (now : ℕ) (r : Row) → IsGentle r (rewritten (lease_lapsed now) (release_lease now) r)
release_lease-IsGentle now r = ground arith

reclaimed_row-IsGentle :
    (now : ℕ) (r : Row) → IsGentle r (rewritten is_leased (reclaimed_row now) r)
reclaimed_row-IsGentle now r = ground arith

renewed_row-IsGentle :
    (seq : ℕ) (owner : String) (lease now : ℕ) (r : Row)
    → IsGentle r (rewritten (leased_by seq owner) (renewed_row lease now) r)
renewed_row-IsGentle seq owner lease now r = ground arith

notified_row-IsGentle :
    (from to : String) (seq now : ℕ) (r : Row)
    → IsGentle r (rewritten (notified_as from seq) (notified_row to now) r)
notified_row-IsGentle from to seq now r = ground arith

finished_row-IsGentle :
    (seq : ℕ) (owner : String) (now : ℕ) (notify : Option String) (r : Row)
    → IsGentle r (rewritten (leased_by seq owner) (finished_row now notify) r)
finished_row-IsGentle seq owner now notify r = ground arith

blocked_row-IsGentle :
    (seq : ℕ) (owner : String) (now hold : ℕ) (r : Row)
    → IsGentle r (rewritten (leased_by seq owner) (blocked_row now hold) r)
blocked_row-IsGentle seq owner now hold r = ground arith

retry_row-IsGentle :
    (seq : ℕ) (owner : String) (backoff now : ℕ) (r : Row)
    → IsGentle r (rewritten (leased_by seq owner) (retry_row backoff now) r)
unfolding retry_row
retry_row-IsGentle seq owner backoff now r = ground arith

module _ {sp : Spool} (v : IsValid sp) where
  pub expire_holds-IsValid : (now : ℕ) → IsValid (expire_holds now sp)
  unfolding expire_holds
  expire_holds-IsValid now =
      update_where-IsValid (hold_due now) (end_hold now) (end_hold-IsGentle now) v

  pub expire_leases-IsValid : (now : ℕ) → IsValid (expire_leases now sp)
  unfolding expire_leases
  expire_leases-IsValid now =
      update_where-IsValid (lease_lapsed now) (release_lease now) (release_lease-IsGentle now) v

  pub reclaim_processing-IsValid : (now : ℕ) → IsValid (reclaim_processing now sp).0
  unfolding reclaim_processing
  reclaim_processing-IsValid now =
      update_where-IsValid is_leased (reclaimed_row now) (reclaimed_row-IsGentle now) v

  pub renew_lease-IsValid :
      (seq : ℕ) (owner : String) (lease now : ℕ) → IsValid (renew_lease seq owner lease now sp).0
  unfolding renew_lease
  renew_lease-IsValid seq owner lease now =
      update_one-IsValid (leased_by seq owner) (renewed_row lease now)
        (renewed_row-IsGentle seq owner lease now) v

  move_notification-IsValid :
      (from to : String) (seq now : ℕ) → IsValid (move_notification from to seq now sp).0
  unfolding move_notification
  move_notification-IsValid from to seq now =
      update_one-IsValid (notified_as from seq) (notified_row to now)
        (notified_row-IsGentle from to seq now) v

  pub claim_notification-IsValid : (seq now : ℕ) → IsValid (claim_notification seq now sp).0
  unfolding claim_notification
  claim_notification-IsValid = move_notification-IsValid "pending" "claimed"

  pub mark_notification_sent-IsValid : (seq now : ℕ) → IsValid (mark_notification_sent seq now sp).0
  unfolding mark_notification_sent
  mark_notification_sent-IsValid = move_notification-IsValid "claimed" "sent"

  pub mark_done-IsValid :
      (seq : ℕ) (owner : String) (now : ℕ) (notify : Option String)
      → IsValid (mark_done seq owner now notify sp).0
  unfolding mark_done
  mark_done-IsValid seq owner now notify =
      update_one-IsValid (leased_by seq owner) (finished_row now notify)
        (finished_row-IsGentle seq owner now notify) v

  pub mark_blocked-IsValid :
      (seq : ℕ) (owner : String) (now hold : ℕ) → IsValid (mark_blocked seq owner now hold sp).0
  unfolding mark_blocked
  mark_blocked-IsValid seq owner now hold =
      update_one-IsValid (leased_by seq owner) (blocked_row now hold)
        (blocked_row-IsGentle seq owner now hold) v

  pub retry-IsValid :
      (seq : ℕ) (owner : String) (backoff now : ℕ) → IsValid (retry seq owner backoff now sp).0
  unfolding retry
  retry-IsValid seq owner backoff now =
      elim (Bool-cases (is_some (find (leased_by seq owner) sp.rows))) [
        | inl e ↦ rw e (
            update_where-IsValid (leased_by seq owner) (retry_row backoff now)
              (retry_row-IsGentle seq owner backoff now) v)
        | inr e ↦ rw e v
      ]
