-- ===== src/Lanes/Settled.antt =====
-- About rows that are done or held, under any call.
use herdres.Prelude.{
  Bool, Bool-cases, List, Option, String, [], arith, count, false, find, if◌then◌else◌, inl, inr,
  is_some, nat_eq, none, refl, some, string_eq, true, update_where, ℕ, ◌++◌, ◌==◌, ◌||◌, ◌∷◌, ◌≡◌,
}
use herdres.Lanes.Calls.{
  Call, after_enqueue, blocks, claims_head, claims_notification, enqueues, expires_holds, finishes,
  moves_cursor, reclaims, renews, retries, run, sends_notification, step,
}
use herdres.Lanes.Claim.{
  claim, claim_row, claims, end_hold, expire_holds, expire_leases, hold_due, lease_end,
  lease_lapsed, release_lease, sweep, take_lease,
}
use herdres.Lanes.Ingest.{enqueue_cases}
use herdres.Lanes.Leases.{
  blocked_row, claim_notification, finished_row, initialize_cursor, is_leased, leased_by,
  mark_blocked, mark_done, mark_notification_sent, move_notification, notified_as, notified_row,
  reclaim_processing, reclaimed_row, renew_lease, renewed_row, retry, retry_row, update_one,
}
use herdres.Lanes.Rows.{LaneState, Row, Spool, is_blocked, is_done, retry_clock}
use herdres.Lanes.Spool.{Arrival, advance_cursor, enqueue, insert_row, inserted_row}

-- Held for the last time, or over: nothing is to be delivered any more.
abbrev pub is_spent : LaneState → Bool
is_spent s = is_blocked s || is_done s

-- The row numbered `seq` has a state that passes the test `q`.
unfoldable pub state_at : (LaneState → Bool) → ℕ → List Row → Bool
state_at q seq [] = false
state_at q seq (r ∷ rows) = if r.seq == seq then q r.state else state_at q seq rows

-- The two tests that every transaction keeps.
pub data Kind : Type 0 where
  over spent : Kind

abbrev pub passes : Kind → LaneState → Bool
passes over s = is_done s
passes spent s = is_spent s

module _ (k : Kind) (seq : ℕ) where
  module _ (p : Row → Bool) (f : Row → Row) (keeps_seq : (r : Row) → (f r).seq ≡ r.seq) where
    state_at-update_where :
        ((r : Row) → p r ≡ true → passes k r.state ≡ true → passes k (f r).state ≡ true)
        → (rows : List Row) → state_at (passes k) seq rows ≡ true
        → state_at (passes k) seq (update_where p f rows) ≡ true
    unfolding state_at
    state_at-update_where g [] h = h
    state_at-update_where g (r ∷ rows) h =
        ground (arith, keeps_seq r, g r, state_at-update_where g rows)

  state_at-append :
      (rows more : List Row)
      → state_at (passes k) seq rows ≡ true
      → state_at (passes k) seq (rows ++ more) ≡ true
  unfolding state_at
  state_at-append [] more h = cc
  state_at-append (r ∷ rows) more h = ground (arith, state_at-append rows more)

  module _ (sp : Spool) (h : state_at (passes k) seq sp.rows ≡ true) where
    settled_expire_holds : (now : ℕ) → state_at (passes k) seq (expire_holds now sp).rows ≡ true
    unfolding expire_holds
    settled_expire_holds now =
        state_at-update_where (hold_due now) (end_hold now) (λ r. refl) (λ r e g. ground arith)
          sp.rows h

    settled_expire_leases : (now : ℕ) → state_at (passes k) seq (expire_leases now sp).rows ≡ true
    unfolding expire_leases
    settled_expire_leases now =
        state_at-update_where (lease_lapsed now) (release_lease now) (λ r. refl)
          (λ r e g. ground arith) sp.rows h

    settled_reclaim : (now : ℕ) → state_at (passes k) seq (reclaim_processing now sp).0.rows ≡ true
    unfolding reclaim_processing
    settled_reclaim now =
        state_at-update_where is_leased (reclaimed_row now) (λ r. refl) (λ r e g. ground arith)
          sp.rows h

    settled_lease :
        (n : ℕ) (owner : String) (f : Row → Row)
        → ((r : Row) → (f r).seq ≡ r.seq)
        → state_at (passes k) seq (update_where (leased_by n owner) f sp.rows) ≡ true
    settled_lease n owner f keeps =
        state_at-update_where (leased_by n owner) f keeps (λ r e g. ground arith) sp.rows h

    settled_notification :
        (from to : String) (n now : ℕ)
        → state_at (passes k) seq (move_notification from to n now sp).0.rows ≡ true
    unfolding move_notification update_one
    settled_notification from to n now =
        state_at-update_where (notified_as from n) (notified_row to now) (λ r. refl) (λ r e g. g)
          sp.rows h

    settled_retry :
        (n : ℕ) (owner : String) (backoff now : ℕ)
        → state_at (passes k) seq (retry n owner backoff now sp).0.rows ≡ true
    unfolding retry
    settled_retry n owner backoff now =
        elim (Bool-cases (is_some (find (leased_by n owner) sp.rows))) [
          | inl e ↦
              rw e (settled_lease n owner (retry_row backoff now) (λ r. unfold retry_row in refl))
          | inr e ↦ rw e h
        ]

    settled_claims :
        (n : ℕ) (owner : String) (until now : ℕ) (clock : Option ℕ)
        → state_at
            (passes k)
            seq
            (update_where (claims n) (take_lease owner until now clock) sp.rows)
          ≡ true
    settled_claims n owner until now clock =
        state_at-update_where (claims n) (take_lease owner until now clock) (λ r. refl)
          (λ r e g. ground arith) sp.rows h

  settled_claim_row :
      (owner : String) (now lease : ℕ) (sp swept : Spool) (o : Option Row)
      → state_at (passes k) seq sp.rows ≡ true
      → state_at (passes k) seq swept.rows ≡ true
      → state_at (passes k) seq (claim_row owner now lease sp swept o).0.rows ≡ true
  unfolding claim_row
  settled_claim_row owner now lease sp swept none h g = g
  settled_claim_row owner now lease sp swept (some r) h g =
      elim (Bool-cases (count (claims r.seq) swept.rows == 1)) [
        | inl e ↦
            rw e (settled_claims swept g r.seq owner (lease_end now lease) now (retry_clock r))
        | inr e ↦ rw e h
      ]

  settled_enqueue :
      (a : Arrival) (sp : Spool)
      → state_at (passes k) seq sp.rows ≡ true
      → state_at (passes k) seq (after_enqueue sp (enqueue a sp)).rows ≡ true
  unfolding advance_cursor insert_row
  settled_enqueue a sp h =
      enqueue_cases (λ e. state_at (passes k) seq (after_enqueue sp e).rows ≡ true) a sp
        (record {
          invalid = λ g. h;
          collision = λ r e g. h;
          again = λ r e g. h;
          full = λ e g. h;
          inserted = λ e g. state_at-append sp.rows (inserted_row a sp.next_seq ∷ []) h;
        })

  step-state_at :
      (c : Call) (sp : Spool)
      → state_at (passes k) seq sp.rows ≡ true
      → state_at (passes k) seq (step sp c).rows ≡ true
  unfolding step claim sweep initialize_cursor advance_cursor renew_lease claim_notification
      mark_notification_sent mark_done mark_blocked update_one
  step-state_at (enqueues a) sp h = settled_enqueue a sp h
  step-state_at (claims_head owner now lease) sp h =
      settled_claim_row owner now lease sp (sweep now sp) _ h
        (settled_expire_holds (expire_leases now sp) (settled_expire_leases sp h now) now)
  step-state_at (moves_cursor kind next now) sp h = h
  step-state_at (expires_holds now) sp h = settled_expire_holds sp h now
  step-state_at (reclaims now) sp h = settled_reclaim sp h now
  step-state_at (renews n owner lease now) sp h =
      settled_lease sp h n owner (renewed_row lease now) (λ r. refl)
  step-state_at (claims_notification n now) sp h =
      settled_notification sp h "pending" "claimed" n now
  step-state_at (sends_notification n now) sp h = settled_notification sp h "claimed" "sent" n now
  step-state_at (finishes n owner now notify) sp h =
      settled_lease sp h n owner (finished_row now notify) (λ r. refl)
  step-state_at (blocks n owner now hold) sp h =
      settled_lease sp h n owner (blocked_row now hold) (λ r. refl)
  step-state_at (retries n owner backoff now) sp h = settled_retry sp h n owner backoff now

-- A row that is done stays done, and one that is held or done is never pending or leased again,
-- whatever calls follow: a delivery in doubt is not started a second time.
pub run-state_at :
    (k : Kind) (seq : ℕ) (cs : List Call) (sp : Spool)
    → state_at (passes k) seq sp.rows ≡ true
    → state_at (passes k) seq (run sp cs).rows ≡ true
unfolding run
run-state_at k seq [] sp h = h
run-state_at k seq (c ∷ cs) sp h = run-state_at k seq cs (step sp c) (step-state_at k seq c sp h)
