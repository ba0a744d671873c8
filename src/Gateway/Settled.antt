-- ===== src/Gateway/Settled.antt =====
-- About the spool behind a dispatch.
use text.Mathlib.TextPositions.{eq_refl}
use herdres.Prelude.{
  Bool, List, String, arith, count, false, max, min, nat_eq, none, refl, some, string_eq, subst,
  suc, sym, text_eq, true, update_where, ℕ, ◌&&◌, ◌+◌, ◌==◌, ◌≡◌, ◌≤◌,
}
use herdres.Gateway.Dispatch.{DispatchConfig, caught, dispatch, dispatch_leased, notify_of, settle}
use herdres.Gateway.Envelope.{Reading, raises, reads, refuses}
use herdres.Gateway.Refined.{dispatch-run, dispatch_calls}
use herdres.Lanes.Calls.{Call, renews, run}
use herdres.Lanes.History.{run-IsValid}
use herdres.Lanes.Holders.{row_at, row_at-find, row_at-update_where}
use herdres.Lanes.Leases.{
  blocked_row, finished_row, leased_by, mark_blocked, mark_done, renew_lease, renewed_row, retry,
  retry_delay, retry_row, update_one,
}
use herdres.Lanes.Quiet.{AllQuiet, IsLeased, KeepsLease, count_leased, end_after, theirs}
use herdres.Lanes.Rows.{LaneItem, Row, Spool, blocked, done, pending}
use herdres.Lanes.Tenure.{KeepsLease-renews, KeepsLease-run, end_behind}
use herdres.Lanes.Valid.{IsValid}
use herdres.Requests.Types.{Checkpoint}

-- The row of a dispatch, by the checkpoint.
abbrev pub settled_row : DispatchConfig → LaneItem → ℕ → Checkpoint → Row → Row
settled_row cfg leased now Checkpoint.advance r = finished_row now (notify_of leased) r
settled_row cfg leased now Checkpoint.hold r = blocked_row now cfg.hold r
settled_row cfg leased now Checkpoint.retry r = retry_row cfg.backoff now r

retry-settled :
    (n now backoff : ℕ) (owner : String) (sp : Spool) (r : Row)
    → row_at n sp.rows ≡ some r
    → leased_by n owner r ≡ true
    → row_at n (retry n owner backoff now sp).0.rows ≡ some (retry_row backoff now r)
unfolding retry
retry-settled n now backoff owner sp r e h = rw (row_at-find n (leased_by n owner) sp.rows e h) (
    rw (row_at-update_where n (leased_by n owner) (retry_row backoff now) (λ t. refl) sp.rows e, h)
      refl)

settle-settled_row :
    (cfg : DispatchConfig) (leased : LaneItem) (owner : String) (now : ℕ) (cp : Checkpoint)
    (sp : Spool) (r : Row)
    → row_at leased.seq sp.rows ≡ some r
    → leased_by leased.seq owner r ≡ true
    → row_at leased.seq (settle cfg leased owner now cp sp).rows
      ≡ some (settled_row cfg leased now cp r)
unfolding mark_done mark_blocked update_one
settle-settled_row cfg leased owner now Checkpoint.advance sp r e h =
    rw
      (
        row_at-update_where leased.seq (leased_by leased.seq owner)
            (finished_row now (notify_of leased)) (λ t. refl) sp.rows e,
        h,
      )
      refl
settle-settled_row cfg leased owner now Checkpoint.hold sp r e h =
    rw
      (
        row_at-update_where leased.seq (leased_by leased.seq owner) (blocked_row now cfg.hold)
            (λ t. refl) sp.rows e,
        h,
      )
      refl
settle-settled_row cfg leased owner now Checkpoint.retry sp r e h =
    retry-settled leased.seq now cfg.backoff owner sp r e h

-- The row waits for its next attempt, which is at its deadline at the latest.
abbrev Waits : ℕ → Row → Row → Type 0
Waits now r s =
    (s.state ≡ pending)
    × (s.lease_owner ≡ none)
    × (s.attempts ≡ suc r.attempts)
    × (s.next_attempt_at ≤ r.deadline_at)
    × (s.next_attempt_at ≤ now + 300000)

-- What `handle_update` asks for, of the row `r` before and the row `s` behind.
abbrev pub IsSettled : DispatchConfig → ℕ → Reading Checkpoint → Row → Row → Type 0
IsSettled cfg now (reads Checkpoint.advance) r s =
    (s.state ≡ done) × (s.lease_owner ≡ none) × (s.attempts ≡ r.attempts)
IsSettled cfg now (reads Checkpoint.hold) r s =
    (s.state ≡ blocked)
    × (s.lease_owner ≡ none)
    × (s.attempts ≡ r.attempts)
    × (s.next_attempt_at ≡ min r.deadline_at (now + cfg.hold))
IsSettled cfg now (reads Checkpoint.retry) r s = Waits now r s
IsSettled cfg now refuses r s = Waits now r s
IsSettled cfg now raises r s = Waits now r s

retry_row-Waits : (backoff now : ℕ) (r : Row) → Waits now r (retry_row backoff now r)
unfolding retry_row retry_delay
retry_row-Waits backoff now r = (refl, refl, omega arith, omega arith, omega arith)

settled_row-IsSettled :
    (cfg : DispatchConfig) (leased : LaneItem) (now : ℕ) (handled : Reading Checkpoint) (r : Row)
    → IsSettled cfg now handled r (settled_row cfg leased now (caught handled) r)
settled_row-IsSettled cfg leased now (reads Checkpoint.advance) r = (refl, refl, refl)
settled_row-IsSettled cfg leased now (reads Checkpoint.hold) r = (refl, refl, refl, refl)
settled_row-IsSettled cfg leased now (reads Checkpoint.retry) r = retry_row-Waits cfg.backoff now r
settled_row-IsSettled cfg leased now refuses r = retry_row-Waits cfg.backoff now r
settled_row-IsSettled cfg leased now raises r = retry_row-Waits cfg.backoff now r

-- Behind a lease that is renewed, and held until `handle_update` is over.
pub dispatch_settled :
    (cfg : DispatchConfig) (leased : LaneItem) (owner : String) (start_at : ℕ) (between : List Call)
    (handled : Reading Checkpoint) (end_at : ℕ) (sp : Spool) (r : Row)
    → (renew_lease leased.seq owner cfg.lease start_at sp).1 ≡ true
    → row_at leased.seq (run (renew_lease leased.seq owner cfg.lease start_at sp).0 between).rows
      ≡ some r
    → leased_by leased.seq owner r ≡ true
    → row_at leased.seq (dispatch cfg leased owner true start_at between handled end_at sp).rows
      ≡ some (settled_row cfg leased end_at (caught handled) r)
unfolding dispatch
dispatch_settled cfg leased owner start_at between handled end_at sp r t e h =
    renewed (renew_lease leased.seq owner cfg.lease start_at sp) t e
  where
    renewed :
        (m : Spool × Bool)
        → m.1 ≡ true
        → row_at leased.seq (run m.0 between).rows ≡ some r
        → row_at leased.seq (dispatch_leased cfg leased owner between handled end_at m).rows
          ≡ some (settled_row cfg leased end_at (caught handled) r)
    renewed (sp', true) t e =
        settle-settled_row cfg leased owner end_at (caught handled) (run sp' between) r e h
    renewed (sp', false) t e = cc

self_same : (n : ℕ) (owner : String) → ((n == n) && (owner == owner)) ≡ true
self_same n owner = ground (arith, eq_refl owner)

renewed_once :
    (n : ℕ) (owner : String) (lease now : ℕ) (sp : Spool)
    → count (leased_by n owner) sp.rows ≡ 1
    → (renew_lease n owner lease now sp).1 ≡ true
unfolding renew_lease update_one
renewed_once n owner lease now sp e = rw e refl

-- The lease behind its renewal and what the others do.
held_behind :
    (n : ℕ) (owner : String) (start_at lease until : ℕ) (between : List Call) (base : Row)
    (sp : Spool)
    → KeepsLease n owner until base sp.rows
    → AllQuiet n owner (start_at + max 100 lease) between
    → KeepsLease n owner
        (end_behind n owner (start_at + max 100 lease) between)
        base
        (run (renew_lease n owner lease start_at sp).0 between).rows
unfolding renew_lease update_one
held_behind n owner start_at lease until between base sp h q =
    KeepsLease-run n owner (start_at + max 100 lease) base (renew_lease n owner lease start_at sp).0
      between q
      (subst
        (λ (t : ℕ).
          KeepsLease n owner t base
            (update_where (leased_by n owner) (renewed_row lease start_at) sp.rows))
        (own_end (self_same n owner))
        (KeepsLease-renews n n owner owner until lease start_at base sp h))
  where
    own_end :
        ((n == n) && (owner == owner)) ≡ true
        → end_after n owner until (renews n owner lease start_at) ≡ start_at + max 100 lease
    own_end e = rw e refl

-- What a dispatch leaves of its row: without a token, a retry at its start.
abbrev pub IsAnswered : DispatchConfig → Bool → ℕ → ℕ → Reading Checkpoint → Row → Row → Type 0
IsAnswered cfg false start_at end_at handled r s = Waits start_at r s
IsAnswered cfg true start_at end_at handled r s = IsSettled cfg end_at handled r s

-- The attempts and the deadline of the row are those of the row before.
IsSettled-base :
    (cfg : DispatchConfig) (now : ℕ) (handled : Reading Checkpoint) (r row s : Row)
    → row.attempts ≡ r.attempts
    → row.deadline_at ≡ r.deadline_at
    → IsSettled cfg now handled row s
    → IsSettled cfg now handled r s
IsSettled-base cfg now (reads Checkpoint.advance) r row s a d h = rw (← a) h
IsSettled-base cfg now (reads Checkpoint.hold) r row s a d h = rw (← a, ← d) h
IsSettled-base cfg now (reads Checkpoint.retry) r row s a d h = rw (← a, ← d) h
IsSettled-base cfg now refuses r row s a d h = rw (← a, ← d) h
IsSettled-base cfg now raises r row s a d h = rw (← a, ← d) h

-- If the row of the dispatch is leased to the owner, and meanwhile the others only claim before the
-- lease, as the heartbeat renews it, ends, do not open the spool anew, and settle no row in the name
-- of this owner, then the lease is renewed and never lost: the dispatch leaves the row done on
-- `advance`, blocked on `hold`, and otherwise, also after an exception, waiting for its next attempt,
-- with one attempt more. Without a token the row waits likewise.
pub dispatch-settled_row :
    (cfg : DispatchConfig) (leased : LaneItem) (owner : String) (has_token : Bool) (start_at : ℕ)
    (between : List Call) (handled : Reading Checkpoint) (end_at until : ℕ) (sp : Spool) (r : Row)
    → IsValid sp
    → row_at leased.seq sp.rows ≡ some r
    → IsLeased leased.seq owner until r r
    → AllQuiet leased.seq owner (start_at + max 100 cfg.lease) between
    → (s : Row) × (row_at leased.seq
          (dispatch cfg leased owner has_token start_at between handled end_at sp).rows
        ≡ some s)
      × IsAnswered cfg has_token start_at end_at handled r s
unfolding dispatch
dispatch-settled_row cfg leased owner false start_at between handled end_at until sp r v e l q = (
  retry_row cfg.backoff start_at r,
  retry-settled leased.seq start_at cfg.backoff owner sp r e
      (theirs leased.seq leased.seq owner owner until r r (self_same leased.seq owner) l),
  retry_row-Waits cfg.backoff start_at r,
)
dispatch-settled_row cfg leased owner true start_at between handled end_at until sp r v e l q =
    let same = self_same leased.seq owner in
    let mine = theirs leased.seq leased.seq owner owner until r r same l in
    let k =
      held_behind leased.seq owner start_at cfg.lease until between r sp
        (record { row = r; stored = e; leased = l }) q in
    let held = theirs leased.seq leased.seq owner owner _ r k.row same k.leased in
    (
      settled_row cfg leased end_at (caught handled) k.row,
      dispatch_settled cfg leased owner start_at between handled end_at sp k.row
          (renewed_once leased.seq owner cfg.lease start_at sp
            (count_leased leased.seq owner sp.rows v.ordered e mine))
          k.stored held,
      IsSettled-base cfg end_at handled r k.row _ k.leased.same_attempts k.leased.same_deadline
          (settled_row-IsSettled cfg leased end_at handled k.row),
    )

-- A dispatch keeps the invariant of the spool, whatever the others do meanwhile.
pub dispatch-IsValid :
    (cfg : DispatchConfig) (leased : LaneItem) (owner : String) (has_token : Bool) (start_at : ℕ)
    (between : List Call) (handled : Reading Checkpoint) (end_at : ℕ) {sp : Spool}
    → IsValid sp
    → IsValid (dispatch cfg leased owner has_token start_at between handled end_at sp)
dispatch-IsValid cfg leased owner has_token start_at between handled end_at {sp} v =
    subst IsValid (sym (dispatch-run cfg leased owner has_token start_at between handled end_at sp))
      (run-IsValid
        (dispatch_calls cfg leased owner has_token
          (renew_lease leased.seq owner cfg.lease start_at sp).1 start_at between handled end_at)
        v)
