-- ===== src/Lanes/Spool.antt =====
-- The transactions of `IngressLaneSpool` that ingest. Each is one SQLite transaction, so
-- one function; an exception inside it rolls back.
use herdres.Prelude.{
  Bool, List, Option, String, [], codes, count, find, if◌then◌else◌, leb, max, nat_eq, none, not,
  some, string_eq, suc, ℕ, ◌&&◌, ◌++◌, ◌+◌, ◌==◌, ◌||◌, ◌∷◌,
}
use herdres.Identity.{valid_request_id}
use herdres.Lanes.Rows.{Cursor, Row, Spool, done, is_open, pending}

abbrev pub empty : Spool
empty = record { rows = []; next_seq = 1; cursors = [] }

-- SELECT next_update_id FROM receiver_cursors WHERE receiver_kind = ?
unfoldable pub cursor_of : String → List Cursor → Option ℕ
cursor_of kind [] = none
cursor_of kind (c ∷ cs) = if c.receiver == kind then some c.next_update_id else cursor_of kind cs

-- INSERT … ON CONFLICT DO UPDATE SET next_update_id = MAX(…)
unfoldable pub upsert_cursor : String → ℕ → ℕ → List Cursor → List Cursor
upsert_cursor kind next now [] =
    record { receiver = kind; next_update_id = next; moved_at = now } ∷ []
upsert_cursor kind next now (c ∷ cs) =
    if c.receiver == kind
    then record c { next_update_id = max c.next_update_id next; moved_at = now } ∷ cs
    else c ∷ upsert_cursor kind next now cs

-- `_advance_cursor_tx`, without the value that it reads back.
unfoldable pub advance_cursor : String → ℕ → ℕ → Spool → Spool
advance_cursor kind next now sp = record sp { cursors = upsert_cursor kind next now sp.cursors }

-- The failures of `enqueue`.
pub data EnqueueError : Type 0 where
  invalid_request_id identity_collision cursor_commit_failed : EnqueueError

pub data EnqueueStatus : Type 0 where
  duplicate overflow already_handled enqueued : EnqueueStatus

pub record EnqueueResult : Type 0 where
  pub status : EnqueueStatus
  pub next_update_id : ℕ
  pub seq : Option ℕ

pub data Enqueued : Type 0 where
  ok : EnqueueResult → Spool → Enqueued
  err : EnqueueError → Enqueued

-- What the gateway enqueues; the two payloads are the JSON texts that the function makes of them.
pub record Arrival : Type 0 where
  pub request_id : String
  pub receiver_kind : String
  pub update_id : ℕ
  pub lane_key : String
  pub kind : String
  pub update_json : String
  pub route_json : String
  pub first_seen_at : ℕ
  pub deadline_at : ℕ
  pub depth_limit : ℕ
  pub already_done : Bool

-- WHERE request_id = ? OR (receiver_kind = ? AND update_id = ?)
abbrev pub clashes : Arrival → Row → Bool
clashes a r =
    (r.request_id == a.request_id)
    || ((r.receiver_kind == a.receiver_kind) && (r.update_id == a.update_id))

abbrev pub same_identity : Arrival → Row → Bool
same_identity a r =
    (r.request_id == a.request_id)
    && (r.receiver_kind == a.receiver_kind)
    && (r.update_id == a.update_id)

-- SELECT COUNT(*) … WHERE lane_key = ? AND state != 'done'
abbrev pub depth : String → List Row → ℕ
depth key = count (λ r. (r.lane_key == key) && is_open r)

abbrev pub inserted_row : Arrival → ℕ → Row
inserted_row a seq = record {
  seq = seq;
  request_id = a.request_id;
  receiver_kind = a.receiver_kind;
  update_id = a.update_id;
  lane_key = a.lane_key;
  kind = a.kind;
  update_json = a.update_json;
  route_json = a.route_json;
  state = if a.already_done then done else pending;
  attempts = 0;
  first_seen_at = a.first_seen_at;
  next_attempt_at = a.first_seen_at;
  deadline_at = a.deadline_at;
  lease_owner = none;
  lease_until = none;
  notify_state = if a.already_done then "cached" else "pending";
  state_since = some a.first_seen_at;
  retry_obstructed_since = none;
  updated_at = a.first_seen_at;
}

-- The answer of a branch, once the cursor is read back.
unfoldable pub answered : EnqueueStatus → Option ℕ → Spool → Option ℕ → Enqueued
answered status seq sp none = err cursor_commit_failed
answered status seq sp (some next) =
    ok (record { status = status; next_update_id = next; seq = seq }) sp

-- The end of each branch: advance the cursor, read it back, commit.
unfoldable pub commit_at : Arrival → EnqueueStatus → Option ℕ → Spool → Enqueued
commit_at a status seq sp =
    let sp' = advance_cursor a.receiver_kind (a.update_id + 1) a.first_seen_at sp in
    answered status seq sp' (cursor_of a.receiver_kind sp'.cursors)

-- Whether the lane has no room for one more row.
unfoldable pub is_full : Arrival → Spool → Bool
is_full a sp = not a.already_done && leb a.depth_limit (depth a.lane_key sp.rows)

abbrev pub new_status : Arrival → EnqueueStatus
new_status a = if a.already_done then already_handled else enqueued

unfoldable pub insert_row : Arrival → Spool → Spool
insert_row a sp = record sp {
  rows = sp.rows ++ inserted_row a sp.next_seq ∷ [];
  next_seq = suc sp.next_seq;
}

unfoldable pub enqueue_new : Arrival → Spool → Enqueued
enqueue_new a sp =
    if is_full a sp
    then commit_at a overflow none sp
    else commit_at a (new_status a) (some sp.next_seq) (insert_row a sp)

unfoldable pub enqueue_found : Arrival → Option Row → Spool → Enqueued
enqueue_found a none sp = enqueue_new a sp
enqueue_found a (some existing) sp =
    if same_identity a existing
    then commit_at a duplicate (some existing.seq) sp
    else err identity_collision

unfoldable pub enqueue : Arrival → Spool → Enqueued
enqueue a sp =
    if valid_request_id (codes a.request_id)
    then enqueue_found a (find (clashes a) sp.rows) sp
    else err invalid_request_id
