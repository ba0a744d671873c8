-- ===== src/Lanes/Rows.antt =====
-- The tables of ingress_lanes.py: `lane_items`, `receiver_cursors`, and the SET clauses that the
-- statements share. Times are whole milliseconds; a nullable column is an `Option`.
use herdres.Prelude.{
  Bool, List, Option, String, coalesce, false, if◌then◌else◌, ltb, nat_eq, none, not, some,
  string_eq, true, ℕ, ◌==◌,
}

pub data LaneState : Type 0 where
  pending processing blocked done : LaneState

abbrev pub is_pending : LaneState → Bool
is_pending pending = true
is_pending _ = false

abbrev pub is_processing : LaneState → Bool
is_processing processing = true
is_processing _ = false

abbrev pub is_blocked : LaneState → Bool
is_blocked blocked = true
is_blocked _ = false

abbrev pub is_done : LaneState → Bool
is_done done = true
is_done _ = false

-- A row of `lane_items`.
pub record Row : Type 0 where
  pub seq : ℕ
  pub request_id : String
  pub receiver_kind : String
  pub update_id : ℕ
  pub lane_key : String
  pub kind : String
  pub update_json : String
  pub route_json : String
  pub state : LaneState
  pub attempts : ℕ
  pub first_seen_at : ℕ
  pub next_attempt_at : ℕ
  pub deadline_at : ℕ
  pub lease_owner : Option String
  pub lease_until : Option ℕ
  pub notify_state : String
  pub state_since : Option ℕ
  pub retry_obstructed_since : Option ℕ
  pub updated_at : ℕ

-- A row of `receiver_cursors`.
pub record Cursor : Type 0 where
  pub receiver : String
  pub next_update_id : ℕ
  pub moved_at : ℕ

-- `next_seq` is what AUTOINCREMENT gives the next row.
pub record Spool : Type 0 where
  pub rows : List Row
  pub next_seq : ℕ
  pub cursors : List Cursor

-- What `claim` hands to a worker.
pub record LaneItem : Type 0 where
  pub seq : ℕ
  pub request_id : String
  pub receiver_kind : String
  pub update_id : ℕ
  pub lane_key : String
  pub kind : String
  pub update : String
  pub route : String
  pub attempts : ℕ
  pub first_seen_at : ℕ
  pub next_attempt_at : ℕ
  pub deadline_at : ℕ
  pub lease_owner : String
  pub lease_until : ℕ
  pub notify_state : String

abbrev pub is_open : Row → Bool
is_open r = not (is_done r.state)

abbrev pub same_lane : Row → Row → Bool
same_lane r s = r.lane_key == s.lane_key

-- COALESCE(retry_obstructed_since, CASE WHEN attempts > 0 THEN updated_at END)
abbrev pub retry_clock : Row → Option ℕ
retry_clock r =
    coalesce r.retry_obstructed_since (if ltb 0 r.attempts then some r.updated_at else none)

-- A row of no importance, from which tests build theirs.
abbrev pub blank : Row
blank = record {
  seq = 0;
  request_id = "";
  receiver_kind = "";
  update_id = 0;
  lane_key = "";
  kind = "";
  update_json = "";
  route_json = "";
  state = pending;
  attempts = 0;
  first_seen_at = 0;
  next_attempt_at = 0;
  deadline_at = 0;
  lease_owner = none;
  lease_until = none;
  notify_state = "";
  state_since = none;
  retry_obstructed_since = none;
  updated_at = 0;
}
