-- ===== src/Lanes/Examples.antt =====
-- The theorems of this component at concrete inputs, and tests of its operations.
use herdres.Prelude.{
  All, [], arith, codes, false, max, none, refl, some, subst, true, ◌<◌, ◌∷◌, ◌≡◌, ◌≤◌,
}
use herdres.Identity.{valid_request_id}
use herdres.Lanes.Calls.{after_enqueue, claims_head, enqueues, reclaims, run, step}
use herdres.Lanes.Claim.{
  claim, claim_row, expire_holds, expire_leases, item_of, next_claimable, sweep, take_lease,
}
use herdres.Lanes.Depth.{depth-enqueue, enqueue-overflow}
use herdres.Lanes.Head.{IsHead, IsIdle, claim-IsHead, claim-none}
use herdres.Lanes.History.{history-IsValid}
use herdres.Lanes.Holders.{not_held_unchanged}
use herdres.Lanes.Key.{lane_key, lane_key-injective}
use herdres.Lanes.Leases.{
  blocked_row, claim_notification, mark_blocked, mark_done, move_notification, renew_lease, retry,
  update_one,
}
use herdres.Lanes.Replay.{enqueue-enqueue}
use herdres.Lanes.Rows.{LaneItem, Row, Spool}
use herdres.Lanes.Settled.{passes, run-state_at, spent, state_at}
use herdres.Lanes.Spool.{
  Arrival, EnqueueResult, advance_cursor, answered, commit_at, cursor_of, depth, duplicate, empty,
  enqueue, enqueue_found, enqueue_new, enqueued, insert_row, inserted_row, is_full, ok, overflow,
  upsert_cursor,
}
use herdres.Lanes.Valid.{IsValid}
use herdres.Safe.Ascii.{ascii}

abbrev arrival : Arrival
arrival = record {
  request_id = "hri1_AAAAAAAAAAAAAAAAAAAAAAAAAAAAAAAAAAAAAAAAAAA";
  receiver_kind = "manager";
  update_id = 7;
  lane_key = "topic 5";
  kind = "message";
  update_json = "{}";
  route_json = "{}";
  first_seen_at = 1000;
  deadline_at = 60000;
  depth_limit = 2;
  already_done = false;
}

abbrev second : Arrival
second = record arrival {
  request_id = "hri1_BAAAAAAAAAAAAAAAAAAAAAAAAAAAAAAAAAAAAAAAAAA";
  update_id = 8;
}

abbrev waiting : Spool
waiting = record {
  rows = inserted_row arrival 1 ∷ inserted_row second 2 ∷ [];
  next_seq = 3;
  cursors = record { receiver = "manager"; next_update_id = 9; moved_at = 1000 } ∷ [];
}

enqueue_waiting : run empty (enqueues arrival ∷ enqueues second ∷ []) ≡ waiting
unfolding run step enqueue enqueue_found enqueue_new is_full commit_at answered advance_cursor
    upsert_cursor cursor_of insert_row valid_request_id
enqueue_waiting = refl

waiting-IsValid : IsValid waiting
waiting-IsValid =
    subst IsValid enqueue_waiting (history-IsValid (enqueues arrival ∷ enqueues second ∷ []))

abbrev item : LaneItem
item = item_of "worker" 121000 (inserted_row arrival 1)

claim_waiting : (claim "worker" 1000 120000 waiting).1 ≡ some item
unfolding claim sweep expire_leases expire_holds next_claimable claim_row
claim_waiting = refl

claim-IsHead_example : IsHead 1000 "worker" (claim "worker" 1000 120000 waiting).0.rows item
claim-IsHead_example = claim-IsHead "worker" 1000 120000 waiting-IsValid claim_waiting

claim_early : (claim "worker" 999 120000 waiting).1 ≡ none
unfolding claim sweep expire_leases expire_holds next_claimable claim_row
claim_early = refl

claim-none_example :
    All
      (IsIdle 999 (claim "worker" 999 120000 waiting).0.rows)
      (claim "worker" 999 120000 waiting).0.rows
claim-none_example = claim-none "worker" 999 120000 waiting-IsValid claim_early

history-IsValid_example : IsValid (run empty (enqueues arrival ∷ claims_head "worker" 1000 5 ∷ []))
history-IsValid_example = history-IsValid (enqueues arrival ∷ claims_head "worker" 1000 5 ∷ [])

-- The first row held after a delivery in doubt, the second still waiting.
abbrev held : Spool
held = record waiting {
  rows =
      blocked_row 2000 15000 (take_lease "worker" 121000 1000 none (inserted_row arrival 1))
      ∷ inserted_row second 2
      ∷ [];
}

held_spent : state_at (passes spent) 1 held.rows ≡ true
unfolding state_at
held_spent = refl

run-state_at_example :
    state_at (passes spent) 1 (run held (claims_head "other" 90000 5 ∷ reclaims 90001 ∷ [])).rows
    ≡ true
run-state_at_example =
    run-state_at spent 1 (claims_head "other" 90000 5 ∷ reclaims 90001 ∷ []) held held_spent

-- Only once the hold has ended does the next row of the lane become claimable.
claim_behind_hold :
    ((claim "worker" 16999 5 held).1 ≡ none)
    × ((claim "worker" 17000 5 held).1 ≡ some (item_of "worker" 17100 (inserted_row second 2)))
unfolding claim sweep expire_leases expire_holds next_claimable claim_row
claim_behind_hold = (refl, refl)

abbrev first_result : EnqueueResult
first_result = record { status = enqueued; next_update_id = 8; seq = some 1 }

abbrev one_row : Spool
one_row = record {
  rows = inserted_row arrival 1 ∷ [];
  next_seq = 2;
  cursors = record { receiver = "manager"; next_update_id = 8; moved_at = 1000 } ∷ [];
}

enqueue_first : enqueue arrival empty ≡ ok first_result one_row
unfolding enqueue enqueue_found enqueue_new is_full commit_at answered advance_cursor upsert_cursor
    cursor_of insert_row valid_request_id
enqueue_first = refl

enqueue-enqueue_example :
    (later : Spool) × (enqueue arrival one_row
      ≡ ok (record { status = duplicate; next_update_id = 8; seq = some 1 }) later)
    × (later.rows ≡ one_row.rows)
enqueue-enqueue_example = enqueue-enqueue arrival empty one_row first_result 1 enqueue_first refl

abbrev third : Arrival
third = record arrival {
  request_id = "hri1_CAAAAAAAAAAAAAAAAAAAAAAAAAAAAAAAAAAAAAAAAAA";
  update_id = 9;
}

abbrev overfull : Spool
overfull = record waiting {
  cursors = record { receiver = "manager"; next_update_id = 10; moved_at = 1000 } ∷ [];
}

abbrev turned_away : EnqueueResult
turned_away = record { status = overflow; next_update_id = 10; seq = none }

enqueue-third : enqueue third waiting ≡ ok turned_away overfull
unfolding enqueue enqueue_found enqueue_new is_full commit_at answered advance_cursor upsert_cursor
    cursor_of insert_row valid_request_id
enqueue-third = refl

enqueue-overflow_example :
    (third.already_done ≡ false)
    × (third.depth_limit ≤ depth third.lane_key waiting.rows)
    × (overfull.rows ≡ waiting.rows)
    × (cursor_of third.receiver_kind overfull.cursors ≡ some turned_away.next_update_id)
    × (third.update_id < turned_away.next_update_id)
enqueue-overflow_example = enqueue-overflow third waiting overfull turned_away enqueue-third refl

abbrev leased_row : Row
leased_row = take_lease "worker" 121000 1000 none (inserted_row arrival 1)

abbrev leased_spool : Spool
leased_spool = record waiting { rows = leased_row ∷ inserted_row second 2 ∷ [] }

not_held_unchanged_example :
    (mark_done 1 "thief" 2000 none leased_spool ≡ (leased_spool, false))
    × (mark_blocked 1 "thief" 2000 9 leased_spool ≡ (leased_spool, false))
    × (renew_lease 1 "thief" 9 2000 leased_spool ≡ (leased_spool, false))
    × (retry 1 "thief" 9 2000 leased_spool ≡ (leased_spool, false))
not_held_unchanged_example =
    not_held_unchanged leased_spool 1 "thief" 2000 9 none
      ((λ h. cc (h.2)), ((λ h. absurd (omega (arith, h.0))), tt))

claim_notification_first : (claim_notification 1 1500 waiting).1 ≡ true
unfolding claim_notification move_notification update_one
claim_notification_first = refl

lane_key_spelling : lane_key (codes "manager") (codes "5\n\"") ≡ codes "[\"manager\",\"5\\n\\\"\"]"
unfolding lane_key
lane_key_spelling = refl

lane_key-injective_example : (codes "a" ≡ codes "a") × (codes "1" ≡ codes "1")
lane_key-injective_example = lane_key-injective (codes "a") (codes "a") (codes "1") (codes "1") refl

depth-enqueue_example :
    depth "topic 5" (after_enqueue waiting (enqueue third waiting)).rows
    ≤ max (depth "topic 5" waiting.rows) 2
depth-enqueue_example = depth-enqueue third waiting "topic 5"
