-- ===== src/Lanes/Leases.antt =====
-- The statements of `IngressLaneSpool` by which a dispatcher finishes, holds, retries or extends a
-- lease, and the migrations of older spools. A Boolean result is `changed == 1`.
use herdres.Prelude.{
  Bool, List, Option, String, [], coalesce, count, false, find, holds, if◌then◌else◌, is_some, ltb,
  max, min, nat_eq, none, some, string_eq, true, update_where, ℕ, ◌&&◌, ◌*◌, ◌+◌, ◌-◌, ◌==◌, ◌^◌,
  ◌∷◌,
}
use herdres.Lanes.Rows.{
  LaneState, Row, Spool, blocked, done, is_pending, is_processing, pending, processing, retry_clock,
}
use herdres.Lanes.Spool.{advance_cursor, cursor_of}

-- WHERE state = 'processing'
abbrev pub is_leased : Row → Bool
is_leased r = is_processing r.state

-- WHERE seq = ? AND notify_state = ?
abbrev pub notified_as : String → ℕ → Row → Bool
notified_as from seq r = (r.seq == seq) && (r.notify_state == from)

-- UPDATE lane_items SET f WHERE p, and whether it changed exactly one row.
unfoldable pub update_one : (Row → Bool) → (Row → Row) → Spool → Spool × Bool
update_one p f sp = (record sp { rows = update_where p f sp.rows }, count p sp.rows == 1)

-- WHERE seq = ? AND state = 'processing' AND lease_owner = ?
abbrev pub leased_by : ℕ → String → Row → Bool
leased_by seq owner r =
    (r.seq == seq) && is_processing r.state && holds (λ o. o == owner) r.lease_owner

unfoldable pub initialize_cursor : String → ℕ → ℕ → Spool → Spool × Option ℕ
initialize_cursor kind next now sp =
    let sp' = advance_cursor kind next now sp in (sp', cursor_of kind sp'.cursors)

abbrev pub reclaimed_row : ℕ → Row → Row
reclaimed_row now r = record r {
  state = pending;
  next_attempt_at = min r.next_attempt_at now;
  lease_owner = none;
  lease_until = none;
  retry_obstructed_since = retry_clock r;
  state_since = some now;
  updated_at = now;
}

unfoldable pub reclaim_processing : ℕ → Spool → Spool × ℕ
reclaim_processing now sp = (
  record sp { rows = update_where is_leased (reclaimed_row now) sp.rows },
  count is_leased sp.rows,
)

abbrev pub renewed_row : ℕ → ℕ → Row → Row
renewed_row lease now r = record r {
  lease_until = some (now + max 100 lease);
  retry_obstructed_since = retry_clock r;
  updated_at = now;
}

unfoldable pub renew_lease : ℕ → String → ℕ → ℕ → Spool → Spool × Bool
unfolding update_one
renew_lease seq owner lease now sp = update_one (leased_by seq owner) (renewed_row lease now) sp

abbrev pub notified_row : String → ℕ → Row → Row
notified_row to now r = record r {
  notify_state = to;
  retry_obstructed_since = retry_clock r;
  updated_at = now;
}

-- SET notify_state = ? WHERE seq = ? AND notify_state = ?
unfoldable pub move_notification : String → String → ℕ → ℕ → Spool → Spool × Bool
unfolding update_one
move_notification from to seq now sp = update_one (notified_as from seq) (notified_row to now) sp

unfoldable pub claim_notification : ℕ → ℕ → Spool → Spool × Bool
unfolding move_notification
claim_notification = move_notification "pending" "claimed"

unfoldable pub mark_notification_sent : ℕ → ℕ → Spool → Spool × Bool
unfolding move_notification
mark_notification_sent = move_notification "claimed" "sent"

abbrev pub or_keep : Option String → String → String
or_keep none old = old
or_keep (some new) old = new

abbrev pub finished_row : ℕ → Option String → Row → Row
finished_row now notify r = record r {
  state = done;
  lease_owner = none;
  lease_until = none;
  notify_state = or_keep notify r.notify_state;
  retry_obstructed_since = retry_clock r;
  state_since = some now;
  updated_at = now;
}

unfoldable pub mark_done : ℕ → String → ℕ → Option String → Spool → Spool × Bool
unfolding update_one
mark_done seq owner now notify sp = update_one (leased_by seq owner) (finished_row now notify) sp

abbrev pub blocked_row : ℕ → ℕ → Row → Row
blocked_row now hold r = record r {
  state = blocked;
  lease_owner = none;
  lease_until = none;
  next_attempt_at = min r.deadline_at (now + hold);
  retry_obstructed_since = retry_clock r;
  state_since = some now;
  updated_at = now;
}

-- `hold` is already the configured hold, or `max(0.1, hold_seconds)`.
unfoldable pub mark_blocked : ℕ → String → ℕ → ℕ → Spool → Spool × Bool
unfolding update_one
mark_blocked seq owner now hold sp = update_one (leased_by seq owner) (blocked_row now hold) sp

-- `min(300.0, backoff_seconds * 2 ** min(attempts - 1, 16))`
unfoldable pub retry_delay : ℕ → ℕ → ℕ
retry_delay backoff attempts = min 300000 (backoff * 2 ^ min (attempts - 1) 16)

unfoldable pub retry_row : ℕ → ℕ → Row → Row
unfolding retry_delay
retry_row backoff now r = record r {
  state = pending;
  attempts = r.attempts + 1;
  next_attempt_at = min (now + retry_delay backoff (r.attempts + 1)) r.deadline_at;
  lease_owner = none;
  lease_until = none;
  state_since = some now;
  retry_obstructed_since = coalesce r.retry_obstructed_since (some now);
  updated_at = now;
}

-- The SELECT finds the row that the UPDATE rewrites, as `seq` is the primary key.
unfoldable pub retry : ℕ → String → ℕ → ℕ → Spool → Spool × Bool
unfolding retry_row
retry seq owner backoff now sp =
    if is_some (find (leased_by seq owner) sp.rows)
    then (
      record sp { rows = update_where (leased_by seq owner) (retry_row backoff now) sp.rows },
      true,
    )
    else (sp, false)

-- `_migrate_state_since`: the column is new, so it is NULL in every row.
abbrev pub migrated_since : LaneState → ℕ → Option ℕ
migrated_since pending t = some t
migrated_since processing t = none
migrated_since blocked t = some t
migrated_since done t = some t

unfoldable pub migrate_state_since : List Row → List Row
migrate_state_since [] = []
migrate_state_since (r ∷ rs) =
    record r { state_since = migrated_since r.state r.updated_at } ∷ migrate_state_since rs

-- `_migrate_retry_obstructed_since`
unfoldable pub migrate_retry_obstructed_since : List Row → List Row
migrate_retry_obstructed_since [] = []
migrate_retry_obstructed_since (r ∷ rs) =
    record r {
      retry_obstructed_since =
          if is_pending r.state && ltb 0 r.attempts then some r.updated_at else none;
    }
    ∷ migrate_retry_obstructed_since rs
