-- ===== src/Gateway/PollExamples.antt =====
-- The loop over the updates at a batch of three, whose second one fails.
use herdres.Prelude.{All, [], arith, false, none, refl, some, ℕ, ◌∷◌, ◌≡◌}
use herdres.Gateway.Poll.{Update, ingest, passes_over, poll_updates}
use herdres.Gateway.Polled.{AtMost}
use herdres.Gateway.Unread.{Below, poll_updates-unread}
use herdres.Gateway.Wire.{some_same}
use herdres.Json.Ascii.{ascii_casing}
use herdres.Lanes.Leases.{initialize_cursor}
use herdres.Lanes.Spool.{advance_cursor, cursor_of, empty, upsert_cursor}
use herdres.Safe.Ascii.{ascii}

abbrev seen7 : Update
seen7 = record {
  update_number = some 7;
  previewed = some passes_over;
  seen_at = 1000;
  callback_raises = false;
}

abbrev failed8 : Update
failed8 = record {
  update_number = some 8;
  previewed = none;
  seen_at = 1000;
  callback_raises = false;
}

abbrev seen9 : Update
seen9 = record {
  update_number = some 9;
  previewed = some passes_over;
  seen_at = 1000;
  callback_raises = false;
}

polled0 : poll_updates "manager" (seen7 ∷ failed8 ∷ seen9 ∷ []) empty none ≡ (
  record {
    rows = [];
    next_seq = 1;
    cursors = record { receiver = "manager"; next_update_id = 8; moved_at = 1000 } ∷ [];
  },
  some 8,
)
unfolding poll_updates ingest initialize_cursor advance_cursor upsert_cursor cursor_of
polled0 = refl

below8 : All (Below 8) (seen7 ∷ [])
below8 = ((λ k e. let q = some_same e in omega arith), tt)

failed0 : ingest "manager" failed8 (poll_updates "manager" (seen7 ∷ []) empty none).0 ≡ none
unfolding ingest
failed0 = refl

start0 : AtMost 8 "manager" empty
unfolding cursor_of
start0 c e = absurd (none_some c e)
  where
    none_some : (x : ℕ) → ¬ (none ≡ some x)
    none_some x h = cc h

poll_updates-unread_example :
    (poll_updates "manager" (seen7 ∷ failed8 ∷ seen9 ∷ []) empty none
      ≡ poll_updates "manager" (seen7 ∷ []) empty none)
    × AtMost 8 "manager" (poll_updates "manager" (seen7 ∷ failed8 ∷ seen9 ∷ []) empty none).0
poll_updates-unread_example =
    poll_updates-unread "manager" (seen7 ∷ []) failed8 (seen9 ∷ []) 8 empty none below8 start0
      failed0
