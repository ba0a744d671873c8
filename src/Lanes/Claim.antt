-- ===== src/Lanes/Claim.antt =====
-- `IngressLaneSpool.claim` and the two sweeps that it makes first, each a part of its transaction.
use herdres.Prelude.{
  Bool, List, Option, String, any, count, find, holds, if◌then◌else◌, leb, ltb, max, nat_eq, none,
  not, some, string_eq, update_where, ℕ, ◌&&◌, ◌+◌, ◌==◌,
}
use herdres.Lanes.Rows.{
  LaneItem, Row, Spool, done, is_blocked, is_open, is_pending, is_processing, pending, processing,
  retry_clock, same_lane,
}

-- UPDATE … SET state = 'done' WHERE state = 'blocked' AND next_attempt_at <= ?
abbrev pub hold_due : ℕ → Row → Bool
hold_due now r = is_blocked r.state && leb r.next_attempt_at now

abbrev pub end_hold : ℕ → Row → Row
end_hold now r = record r {
  state = done;
  lease_owner = none;
  lease_until = none;
  retry_obstructed_since = retry_clock r;
  state_since = some now;
  updated_at = now;
}

unfoldable pub expire_holds : ℕ → Spool → Spool
expire_holds now sp = record sp { rows = update_where (hold_due now) (end_hold now) sp.rows }

-- WHERE state = 'processing' AND lease_until <= ?
abbrev pub lease_lapsed : ℕ → Row → Bool
lease_lapsed now r = is_processing r.state && holds (λ u. leb u now) r.lease_until

abbrev pub release_lease : ℕ → Row → Row
release_lease now r = record r {
  state = pending;
  lease_owner = none;
  lease_until = none;
  retry_obstructed_since = retry_clock r;
  state_since = some now;
  updated_at = now;
}

unfoldable pub expire_leases : ℕ → Spool → Spool
expire_leases now sp = record sp {
  rows = update_where (lease_lapsed now) (release_lease now) sp.rows;
}

-- NOT EXISTS (… prior.lane_key = candidate.lane_key AND prior.state != 'done' AND prior.seq < …)
abbrev pub is_obstructed : List Row → Row → Bool
is_obstructed rows r = any (λ p. same_lane p r && is_open p && ltb p.seq r.seq) rows

abbrev pub is_claimable : ℕ → List Row → Row → Bool
is_claimable now rows r =
    is_pending r.state && leb r.next_attempt_at now && not (is_obstructed rows r)

-- The rows stand in the order of `seq`, so the first is that of ORDER BY seq LIMIT 1.
unfoldable pub next_claimable : ℕ → List Row → Option Row
next_claimable now rows = find (is_claimable now rows) rows

-- WHERE seq = ? AND state = 'pending'
abbrev pub claims : ℕ → Row → Bool
claims seq r = (r.seq == seq) && is_pending r.state

-- The fallback of the retry clock is read before the update, from the same row.
abbrev pub take_lease : String → ℕ → ℕ → Option ℕ → Row → Row
take_lease owner until now clock r = record r {
  state = processing;
  lease_owner = some owner;
  lease_until = some until;
  state_since = some now;
  retry_obstructed_since = elim r.retry_obstructed_since [ none ↦ clock | some t ↦ some t ];
  updated_at = now;
}

abbrev pub item_of : String → ℕ → Row → LaneItem
item_of owner until r = record {
  seq = r.seq;
  request_id = r.request_id;
  receiver_kind = r.receiver_kind;
  update_id = r.update_id;
  lane_key = r.lane_key;
  kind = r.kind;
  update = r.update_json;
  route = r.route_json;
  attempts = r.attempts;
  first_seen_at = r.first_seen_at;
  next_attempt_at = r.next_attempt_at;
  deadline_at = r.deadline_at;
  lease_owner = owner;
  lease_until = until;
  notify_state = r.notify_state;
}

-- `max(0.1, float(lease_seconds))`
abbrev pub lease_end : ℕ → ℕ → ℕ
lease_end now lease = now + max 100 lease

-- The two sweeps at the head of `claim`.
unfoldable pub sweep : ℕ → Spool → Spool
sweep now sp = expire_holds now (expire_leases now sp)

-- If the UPDATE does not change exactly one row the whole transaction is rolled back to `sp`.
unfoldable pub claim_row : String → ℕ → ℕ → Spool → Spool → Option Row → Spool × Option LaneItem
claim_row owner now lease sp swept none = (swept, none)
claim_row owner now lease sp swept (some r) =
    if count (claims r.seq) swept.rows == 1
    then (
      record swept {
        rows =
            update_where (claims r.seq) (take_lease owner (lease_end now lease) now (retry_clock r))
              swept.rows;
      },
      some (item_of owner (lease_end now lease) r),
    )
    else (sp, none)

unfoldable pub claim : String → ℕ → ℕ → Spool → Spool × Option LaneItem
claim owner now lease sp =
    let swept = sweep now sp in claim_row owner now lease sp swept (next_claimable now swept.rows)
