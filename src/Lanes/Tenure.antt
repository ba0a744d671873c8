-- ===== src/Lanes/Tenure.antt =====
-- What the calls of the others do to a lease.
use herdres.Prelude.{
  Bool, Bool-cases, List, Option, String, [], arith, count, false, find, if◌then◌else◌, inl, inr,
  is_some, max, nat_eq, none, refl, some, string_eq, text_eq, true, update_where, ℕ, ◌&&◌, ◌+◌, ◌<◌,
  ◌==◌, ◌∷◌, ◌≡◌,
}
use herdres.Lanes.Calls.{
  Call, after_enqueue, blocks, claims_head, claims_notification, enqueues, expires_holds, finishes,
  moves_cursor, reclaims, renews, retries, run, sends_notification, step,
}
use herdres.Lanes.Claim.{
  claim, claim_row, claims, end_hold, expire_holds, expire_leases, hold_due, lease_end,
  lease_lapsed, release_lease, sweep, take_lease,
}
use herdres.Lanes.Ingest.{enqueue_cases}
use herdres.Lanes.Leases.{
  blocked_row, claim_notification, finished_row, initialize_cursor, leased_by, mark_blocked,
  mark_done, mark_notification_sent, move_notification, notified_as, notified_row, renew_lease,
  renewed_row, retry, retry_row, update_one,
}
use herdres.Lanes.Rewrites.{rewritten}
use herdres.Lanes.Rows.{Row, Spool, is_pending, retry_clock}
use herdres.Lanes.Spool.{Arrival, advance_cursor, enqueue, insert_row, inserted_row}
use herdres.Lanes.Quiet.{
  AllQuiet, IsLeased, IsQuiet, KeepsLease, KeepsLease-passed, KeepsLease-update_where, end_after,
  not_blocked, not_lapsed, not_pending, not_theirs, row_at-append, theirs,
}

KeepsLease-expire_holds :
    (n : ℕ) (owner : String) (until now : ℕ) (base : Row) (sp : Spool)
    → KeepsLease n owner until base sp.rows
    → KeepsLease n owner until base (expire_holds now sp).rows
unfolding expire_holds
KeepsLease-expire_holds n owner until now base sp h =
    KeepsLease-passed n owner until base (hold_due now) (end_hold now) (λ t. refl)
      (λ r l. rw (not_blocked n owner until base r l) refl) sp.rows h

KeepsLease-sweep :
    (n : ℕ) (owner : String) (until now : ℕ) (base : Row) (sp : Spool)
    → now < until
    → KeepsLease n owner until base sp.rows
    → KeepsLease n owner until base (sweep now sp).rows
unfolding sweep expire_leases
KeepsLease-sweep n owner until now base sp t h =
    KeepsLease-expire_holds n owner until now base (expire_leases now sp) (
      KeepsLease-passed n owner until base (lease_lapsed now) (release_lease now) (λ t. refl)
        (λ r l. not_lapsed n owner until now base r t l) sp.rows h)

KeepsLease-claim_row :
    (n : ℕ) (owner who : String) (until now lease : ℕ) (base : Row) (sp swept : Spool)
    (o : Option Row)
    → KeepsLease n owner until base sp.rows
    → KeepsLease n owner until base swept.rows
    → KeepsLease n owner until base (claim_row who now lease sp swept o).0.rows
unfolding claim_row
KeepsLease-claim_row n owner who until now lease base sp swept none h k = k
KeepsLease-claim_row n owner who until now lease base sp swept (some r) h k =
    elim (Bool-cases (count (claims r.seq) swept.rows == 1)) [
      | inl e ↦ rw e (
          KeepsLease-passed n owner until base (claims r.seq)
            (take_lease who (lease_end now lease) now (retry_clock r)) (λ t. refl)
            (λ s l. not_claimed s (not_pending n owner until base s l)) swept.rows k)
      | inr e ↦ rw e h
    ]
  where
    not_claimed : (s : Row) → is_pending s.state ≡ false → claims r.seq s ≡ false
    not_claimed s e = ground (arith, e)

KeepsLease-enqueue :
    (n : ℕ) (owner : String) (until : ℕ) (base : Row) (a : Arrival) (sp : Spool)
    → KeepsLease n owner until base sp.rows
    → KeepsLease n owner until base (after_enqueue sp (enqueue a sp)).rows
unfolding advance_cursor insert_row
KeepsLease-enqueue n owner until base a sp h =
    enqueue_cases (λ e. KeepsLease n owner until base (after_enqueue sp e).rows) a sp
      (record {
        invalid = λ e. h;
        collision = λ r e f. h;
        again = λ r e f. h;
        full = λ e f. h;
        inserted = λ e f. record {
          row = h.row;
          stored = row_at-append n sp.rows (inserted_row a sp.next_seq) h.stored;
          leased = h.leased;
        };
      })

-- A notification changes nothing of a lease.
KeepsLease-notified :
    (n seq : ℕ) (owner from to : String) (until now : ℕ) (base : Row) (sp : Spool)
    → KeepsLease n owner until base sp.rows
    → KeepsLease n owner until base
        (update_where (notified_as from seq) (notified_row to now) sp.rows)
KeepsLease-notified n seq owner from to until now base sp h =
    KeepsLease-update_where n owner until until base (notified_as from seq) (notified_row to now)
      (λ t. refl) (λ r l. moved r l (notified_as from seq r)) sp.rows h
  where
    moved :
        (r : Row)
        → IsLeased n owner until base r
        → (b : Bool) → IsLeased n owner until base (if b then notified_row to now r else r)
    moved r l true = record {
      number = l.number;
      in_work = l.in_work;
      by_owner = l.by_owner;
      ends = l.ends;
      same_attempts = l.same_attempts;
      same_deadline = l.same_deadline;
    }
    moved r l false = l

-- The heartbeat of the owner moves the end of the lease, another's does not.
pub KeepsLease-renews :
    (n seq : ℕ) (owner who : String) (until lease now : ℕ) (base : Row) (sp : Spool)
    → KeepsLease n owner until base sp.rows
    → KeepsLease n owner
        (end_after n owner until (renews seq who lease now))
        base
        (update_where (leased_by seq who) (renewed_row lease now) sp.rows)
KeepsLease-renews n seq owner who until lease now base sp h =
    elim (Bool-cases ((seq == n) && (who == owner))) [
      | inr e ↦ rw e (
          KeepsLease-passed n owner until base (leased_by seq who) (renewed_row lease now)
            (λ t. refl) (λ r l. not_theirs n seq owner who until base r e l) sp.rows h)
      | inl e ↦ rw e (
          KeepsLease-update_where n owner until (now + max 100 lease) base (leased_by seq who)
            (renewed_row lease now) (λ t. refl) (λ r l. moved r l e) sp.rows h)
    ]
  where
    moved :
        (r : Row)
        → IsLeased n owner until base r
        → ((seq == n) && (who == owner)) ≡ true
        → IsLeased n owner
            (now + max 100 lease)
            base
            (rewritten (leased_by seq who) (renewed_row lease now) r)
    moved r l e =
        let met = theirs n seq owner who until base r e l in
        rw met (record {
          number = l.number;
          in_work = l.in_work;
          by_owner = l.by_owner;
          ends = refl;
          same_attempts = l.same_attempts;
          same_deadline = l.same_deadline;
        })

retry_row-seq : (backoff now : ℕ) (r : Row) → (retry_row backoff now r).seq ≡ r.seq
unfolding retry_row
retry_row-seq backoff now r = refl

KeepsLease-retry :
    (n seq : ℕ) (owner who : String) (until backoff now : ℕ) (base : Row) (sp : Spool)
    → ((seq == n) && (who == owner)) ≡ false
    → KeepsLease n owner until base sp.rows
    → KeepsLease n owner until base (retry seq who backoff now sp).0.rows
unfolding retry
KeepsLease-retry n seq owner who until backoff now base sp q h =
    elim (Bool-cases (is_some (find (leased_by seq who) sp.rows))) [
      | inl e ↦ rw e (
          KeepsLease-passed n owner until base (leased_by seq who) (retry_row backoff now)
            (retry_row-seq backoff now) (λ r l. not_theirs n seq owner who until base r q l) sp.rows
            h)
      | inr e ↦ rw e h
    ]

-- What the others do leaves the lease.
pub KeepsLease-step :
    (n : ℕ) (owner : String) (until : ℕ) (base : Row) (sp : Spool) (c : Call)
    → IsQuiet n owner until c
    → KeepsLease n owner until base sp.rows
    → KeepsLease n owner (end_after n owner until c) base (step sp c).rows
unfolding step claim initialize_cursor advance_cursor renew_lease claim_notification
    mark_notification_sent move_notification mark_done mark_blocked retry update_one
KeepsLease-step n owner until base sp (enqueues a) q h =
    KeepsLease-enqueue n owner until base a sp h
KeepsLease-step n owner until base sp (claims_head who now lease) q h =
    KeepsLease-claim_row n owner who until now lease base sp (sweep now sp) _ h
      (KeepsLease-sweep n owner until now base sp q h)
KeepsLease-step n owner until base sp (moves_cursor kind next now) q h = h
KeepsLease-step n owner until base sp (expires_holds now) q h =
    KeepsLease-expire_holds n owner until now base sp h
KeepsLease-step n owner until base sp (reclaims now) q h = absurd q
KeepsLease-step n owner until base sp (renews seq who lease now) q h =
    KeepsLease-renews n seq owner who until lease now base sp h
KeepsLease-step n owner until base sp (claims_notification seq now) q h =
    KeepsLease-notified n seq owner "pending" "claimed" until now base sp h
KeepsLease-step n owner until base sp (sends_notification seq now) q h =
    KeepsLease-notified n seq owner "claimed" "sent" until now base sp h
KeepsLease-step n owner until base sp (finishes seq who now notify) q h =
    KeepsLease-passed n owner until base (leased_by seq who) (finished_row now notify) (λ t. refl)
      (λ r l. not_theirs n seq owner who until base r q l) sp.rows h
KeepsLease-step n owner until base sp (blocks seq who now span) q h =
    KeepsLease-passed n owner until base (leased_by seq who) (blocked_row now span) (λ t. refl)
      (λ r l. not_theirs n seq owner who until base r q l) sp.rows h
KeepsLease-step n owner until base sp (retries seq who backoff now) q h =
    KeepsLease-retry n seq owner who until backoff now base sp q h

-- The end of the lease behind a history.
abbrev pub end_behind : ℕ → String → ℕ → List Call → ℕ
end_behind n owner until [] = until
end_behind n owner until (c ∷ cs) = end_behind n owner (end_after n owner until c) cs

pub KeepsLease-run :
    (n : ℕ) (owner : String) (until : ℕ) (base : Row) (sp : Spool) (cs : List Call)
    → AllQuiet n owner until cs
    → KeepsLease n owner until base sp.rows
    → KeepsLease n owner (end_behind n owner until cs) base (run sp cs).rows
unfolding run
KeepsLease-run n owner until base sp [] q h = h
KeepsLease-run n owner until base sp (c ∷ cs) q h =
    KeepsLease-run n owner (end_after n owner until c) base (step sp c) cs q.1
      (KeepsLease-step n owner until base sp c q.0 h)
