-- ===== src/Gateway/Settles.antt =====
-- About what a dispatch makes of its row.
use herdres.Prelude.{
  Bool, List, String, [], ap, arith, false, find, if◌then◌else◌, is_some, refl, subst, true,
  update_where, ℕ, ◌∷◌, ◌≡◌,
}
use herdres.Gateway.Dispatch.{DispatchConfig, caught, dispatch, dispatch_leased, settle}
use herdres.Gateway.Envelope.{Reading, raises, reads, refuses}
use herdres.Lanes.Calls.{Call, run}
use herdres.Lanes.Leases.{
  blocked_row, leased_by, mark_blocked, renew_lease, renewed_row, retry, retry_row, update_one,
}
use herdres.Lanes.Rows.{LaneItem, Row, Spool, is_done}
use herdres.Lanes.Settled.{state_at}
use herdres.Requests.Types.{Checkpoint}

-- A rewrite that finishes no row, of a row that was not finished.
state_at-unfinished :
    (seq : ℕ) (p : Row → Bool) (f : Row → Row)
    → ((r : Row) → (f r).seq ≡ r.seq)
    → ((r : Row) → is_done r.state ≡ false → is_done (f r).state ≡ false)
    → (rows : List Row) → state_at is_done seq rows ≡ false
    → state_at is_done seq (update_where p f rows) ≡ false
unfolding state_at
state_at-unfinished seq p f k g [] h = h
state_at-unfinished seq p f k g (r ∷ rows) h =
    ground (arith, k r, g r, state_at-unfinished seq p f k g rows)

either_unfinished :
    (seq : ℕ) (b : Bool) (x y : Spool × Bool)
    → state_at is_done seq x.0.rows ≡ false
    → state_at is_done seq y.0.rows ≡ false
    → state_at is_done seq (if◌then◌else◌ {A = Spool × Bool} b x y).0.rows ≡ false
either_unfinished seq true x y h k = h
either_unfinished seq false x y h k = k

settle-unfinished :
    (cfg : DispatchConfig) (leased : LaneItem) (owner : String) (now seq : ℕ) (cp : Checkpoint)
    (sp : Spool)
    → state_at is_done seq sp.rows ≡ false
    → state_at is_done seq (settle cfg leased owner now cp sp).rows ≡ true
    → cp ≡ Checkpoint.advance
unfolding mark_blocked retry update_one retry_row
settle-unfinished cfg leased owner now seq Checkpoint.advance sp h k = refl
settle-unfinished cfg leased owner now seq Checkpoint.hold sp h k = cc (
  state_at-unfinished seq (leased_by leased.seq owner) (blocked_row now cfg.hold) (λ r. refl)
      (λ r e. refl) sp.rows h,
  k,
)
settle-unfinished cfg leased owner now seq Checkpoint.retry sp h k = cc (
  either_unfinished seq (is_some (find (leased_by leased.seq owner) sp.rows))
      (
        record sp {
          rows = update_where (leased_by leased.seq owner) (retry_row cfg.backoff now) sp.rows;
        },
        true,
      )
      (sp, false)
      (state_at-unfinished seq (leased_by leased.seq owner) (retry_row cfg.backoff now) (λ r. refl)
        (λ r e. refl) sp.rows h)
      h,
  k,
)

renew-unfinished :
    (seq : ℕ) (n : ℕ) (owner : String) (lease now : ℕ) (sp : Spool)
    → state_at is_done seq sp.rows ≡ false
    → state_at is_done seq (renew_lease n owner lease now sp).0.rows ≡ false
unfolding renew_lease update_one
renew-unfinished seq n owner lease now sp h =
    state_at-unfinished seq (leased_by n owner) (renewed_row lease now) (λ r. refl) (λ r e. e)
      sp.rows h

caught-advance :
    (handled : Reading Checkpoint)
    → caught handled ≡ Checkpoint.advance
    → handled ≡ reads Checkpoint.advance
caught-advance refuses h = cc
caught-advance raises h = cc
caught-advance (reads c) h = ap reads h

-- No row of that number is done before the dispatch settles it.
abbrev pub IsUnfinished : DispatchConfig → LaneItem → String → ℕ → List Call → ℕ → Spool → Type 0
IsUnfinished cfg leased owner start_at between seq sp =
    (state_at is_done seq sp.rows ≡ false)
    × (state_at is_done seq
          (run (renew_lease leased.seq owner cfg.lease start_at sp).0 between).rows
        ≡ false)

-- If a row was not done before a dispatch, nor after what the others did meanwhile, and is done
-- after it, then the receiver had a token, the lease was renewed, and `handle_update` returned the
-- checkpoint `advance`.
pub dispatch-done :
    (cfg : DispatchConfig) (leased : LaneItem) (owner : String) (has_token : Bool) (start_at : ℕ)
    (between : List Call) (handled : Reading Checkpoint) (end_at seq : ℕ) (sp : Spool)
    → IsUnfinished cfg leased owner start_at between seq sp
    → state_at is_done seq
        (dispatch cfg leased owner has_token start_at between handled end_at sp).rows
      ≡ true
    → (has_token ≡ true)
      × ((renew_lease leased.seq owner cfg.lease start_at sp).1 ≡ true)
      × (handled ≡ reads Checkpoint.advance)
unfolding dispatch
dispatch-done cfg leased owner false start_at between handled end_at seq sp u k =
    cc (settle-unfinished cfg leased owner start_at seq Checkpoint.retry sp u.0 k)
dispatch-done cfg leased owner true start_at between handled end_at seq sp u k =
    leased_done (renew_lease leased.seq owner cfg.lease start_at sp) refl k
  where
    leased_done :
        (m : Spool × Bool)
        → renew_lease leased.seq owner cfg.lease start_at sp ≡ m
        → state_at is_done seq (dispatch_leased cfg leased owner between handled end_at m).rows
          ≡ true
        → (true ≡ true) × (m.1 ≡ true) × (handled ≡ reads Checkpoint.advance)
    leased_done (sp', true) e k = (
      refl,
      refl,
      caught-advance handled (
          settle-unfinished cfg leased owner end_at seq (caught handled) (run sp' between)
            (subst (λ (x : Spool × Bool). state_at is_done seq (run x.0 between).rows ≡ false) e
              u.1)
            k),
    )
    leased_done (sp', false) e k = cc (
      subst (λ (x : Spool × Bool). state_at is_done seq x.0.rows ≡ false) e
          (renew-unfinished seq leased.seq owner cfg.lease start_at sp u.0),
      k,
    )
