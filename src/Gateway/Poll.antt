-- ===== src/Gateway/Poll.antt =====
-- `_poll_once_lanes`: the loop over the updates of one answer of Telegram.
use herdres.Prelude.{Bool, List, Option, String, [], false, none, some, true, ℕ, ◌&&◌, ◌+◌, ◌∷◌}
use herdres.Lanes.Leases.{initialize_cursor}
use herdres.Lanes.Rows.{Spool}
use herdres.Lanes.Spool.{Arrival, Enqueued, enqueue, err, ok}

-- What `_preview_lane_update` says of an update; the receiver and the number of an arrival are the
-- loop's.
pub data Preview : Type 0 where
  is_invalid passes_over : Preview
  spools : Arrival → Preview

-- An update: its number, if it has a valid one, the preview, if it does not raise, when it is seen,
-- and whether what follows its enqueueing raises: `on_enqueue`, or the notice of an overflow.
pub record Update : Type 0 where
  pub update_number : Option ℕ
  pub previewed : Option Preview
  pub seen_at : ℕ
  pub callback_raises : Bool

-- The spool and the cursor behind an update that is taken in; `none` breaks the loop.
abbrev pub from_enqueue : Enqueued → Option (Spool × Option ℕ)
from_enqueue (ok result sp) = some (sp, some result.next_update_id)
from_enqueue (err e) = none

abbrev pub ingest_previewed : String → ℕ → ℕ → Spool → Option Preview → Option (Spool × Option ℕ)
ingest_previewed kind now n sp none = none
ingest_previewed kind now n sp (some is_invalid) = none
ingest_previewed kind now n sp (some passes_over) = some (initialize_cursor kind (n + 1) now sp)
ingest_previewed kind now n sp (some (spools a)) =
    from_enqueue (enqueue (record a { receiver_kind = kind; update_id = n }) sp)

abbrev pub ingest_numbered : String → Update → Spool → Option ℕ → Option (Spool × Option ℕ)
ingest_numbered kind u sp none = none
ingest_numbered kind u sp (some n) = ingest_previewed kind u.seen_at n sp u.previewed

unfoldable pub ingest : String → Update → Spool → Option (Spool × Option ℕ)
unfolding enqueue initialize_cursor
ingest kind u sp = ingest_numbered kind u sp u.update_number

abbrev pub is_spooled : Option Preview → Bool
is_spooled (some (spools a)) = true
is_spooled _ = false

-- Whether the loop breaks behind an update that is taken in.
abbrev pub breaks_behind : Update → Bool
breaks_behind u = is_spooled u.previewed && u.callback_raises

-- `break`, or the rest of the loop.
abbrev pub continued :
    (Spool → Option ℕ → Spool × Option ℕ)
    → Bool
    → Spool
    → Option ℕ
    → Option (Spool × Option ℕ)
    → Spool × Option ℕ
continued rest breaks sp mirror none = (sp, mirror)
continued rest true sp mirror (some (sp', next)) = (sp', next)
continued rest false sp mirror (some (sp', next)) = rest sp' next

-- The spool, and the last cursor, which is mirrored to the rollback file.
unfoldable pub poll_updates : String → List Update → Spool → Option ℕ → Spool × Option ℕ
unfolding ingest
poll_updates kind [] sp mirror = (sp, mirror)
poll_updates kind (u ∷ updates) sp mirror =
    continued (poll_updates kind updates) (breaks_behind u) sp mirror (ingest kind u sp)
