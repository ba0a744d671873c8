-- ===== src/Gateway/SettledExamples.antt =====
-- A dispatch at a row that is claimed, while an update arrives, another worker claims, and the
-- heartbeat renews the lease; `handle_update` raises.
use herdres.Prelude.{List, [], arith, false, none, refl, some, subst, true, ◌∷◌, ◌≡◌}
use herdres.Gateway.Dispatch.{DispatchConfig, dispatch}
use herdres.Gateway.Envelope.{raises}
use herdres.Gateway.Settled.{IsAnswered, dispatch-settled_row}
use herdres.Identity.{valid_request_id}
use herdres.Json.Ascii.{ascii_casing}
use herdres.Lanes.Calls.{Call, claims_head, enqueues, renews, run, step}
use herdres.Lanes.Claim.{
  claim, claim_row, expire_holds, expire_leases, item_of, next_claimable, sweep, take_lease,
}
use herdres.Lanes.History.{history-IsValid}
use herdres.Lanes.Holders.{row_at}
use herdres.Lanes.Quiet.{AllQuiet, IsLeased}
use herdres.Lanes.Rows.{Row, Spool}
use herdres.Lanes.Spool.{
  Arrival, advance_cursor, answered, commit_at, cursor_of, empty, enqueue, enqueue_found,
  enqueue_new, insert_row, inserted_row, is_full, upsert_cursor,
}
use herdres.Lanes.Valid.{IsValid}
use herdres.Safe.Ascii.{ascii}

abbrev arrival1 : Arrival
arrival1 = record {
  request_id = "hri1_AAAAAAAAAAAAAAAAAAAAAAAAAAAAAAAAAAAAAAAAAAA";
  receiver_kind = "manager";
  update_id = 7;
  lane_key = "topic 5";
  kind = "message";
  update_json = "{}";
  route_json = "{}";
  first_seen_at = 1000;
  deadline_at = 600000;
  depth_limit = 2;
  already_done = false;
}

abbrev arrival2 : Arrival
arrival2 = record arrival1 {
  request_id = "hri1_BAAAAAAAAAAAAAAAAAAAAAAAAAAAAAAAAAAAAAAAAAA";
  update_id = 8;
  lane_key = "topic 6";
}

abbrev row1 : Row
row1 = take_lease "w" 121000 1000 none (inserted_row arrival1 1)

abbrev spool1 : Spool
spool1 = record {
  rows = row1 ∷ [];
  next_seq = 2;
  cursors = record { receiver = "manager"; next_update_id = 8; moved_at = 1000 } ∷ [];
}

spool1_made : run empty (enqueues arrival1 ∷ claims_head "w" 1000 120000 ∷ []) ≡ spool1
unfolding run step enqueue enqueue_found enqueue_new is_full commit_at answered advance_cursor
    upsert_cursor cursor_of insert_row valid_request_id claim claim_row sweep expire_leases
    expire_holds next_claimable
spool1_made = refl

spool1-IsValid : IsValid spool1
spool1-IsValid =
    subst IsValid spool1_made
      (history-IsValid (enqueues arrival1 ∷ claims_head "w" 1000 120000 ∷ []))

abbrev config1 : DispatchConfig
config1 = record { backoff = 2000; lease = 120000; hold = 30000 }

abbrev meanwhile1 : List Call
meanwhile1 =
    enqueues arrival2
    ∷ claims_head "v" 2000 120000
    ∷ renews 1 "w" 120000 60000
    ∷ claims_head "v" 150000 120000
    ∷ []

row1_leased : IsLeased 1 "w" 121000 row1 row1
row1_leased = record {
  number = refl;
  in_work = refl;
  by_owner = refl;
  ends = refl;
  same_attempts = refl;
  same_deadline = refl;
}

quiet1 : AllQuiet 1 "w" 122000 meanwhile1
quiet1 = (tt, (omega arith, (tt, (omega arith, tt))))

dispatch-settled_row_example :
    (s : Row) × (row_at 1
        (dispatch config1
          (item_of "w" 121000 row1)
          "w"
          true
          2000
          meanwhile1
          raises
          170000
          spool1).rows
      ≡ some s)
    × IsAnswered config1 true 2000 170000 raises row1 s
dispatch-settled_row_example =
    dispatch-settled_row config1 (item_of "w" 121000 row1) "w" true 2000 meanwhile1 raises 170000
      121000 spool1 row1 spool1-IsValid refl row1_leased quiet1
