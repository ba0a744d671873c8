-- ===== src/Lanes/Depth.antt =====
-- About the depth of a lane and the `overflow` answer of `enqueue`.
use text.Mathlib.TextPositions.{eq_refl}
use herdres.Prelude.{
  Bool-cases, List, String, [], ap, arith, eq_iff, false, if◌then◌else◌, inl, inr, max, nat_eq,
  refl, some, string_eq, subst, text_eq, true, ◌&&◌, ◌++◌, ◌+◌, ◌<◌, ◌==◌, ◌∷◌, ◌≡◌, ◌≤◌,
}
use herdres.Lanes.Calls.{after_enqueue}
use herdres.Lanes.Enqueued.{cursor_of-upsert_cursor, le-raised}
use herdres.Lanes.Ingest.{enqueue_cases}
use herdres.Lanes.Rows.{Row, Spool, is_open}
use herdres.Lanes.Spool.{
  Arrival, EnqueueResult, Enqueued, advance_cursor, cursor_of, depth, enqueue, err, insert_row,
  inserted_row, is_full, ok, overflow,
}

depth-append :
    (key : String) (rows : List Row) (r : Row)
    → depth key (rows ++ r ∷ [])
      ≡ depth key rows + (if (r.lane_key == key) && is_open r then 1 else 0)
depth-append key [] r = ground arith
depth-append key (x ∷ rows) r = ground (arith, depth-append key rows r)

inserted_depth :
    (a : Arrival) (sp : Spool) (key : String)
    → is_full a sp ≡ false
    → depth key (sp.rows ++ inserted_row a sp.next_seq ∷ []) ≤ max (depth key sp.rows) a.depth_limit
unfolding is_full
inserted_depth a sp key h = elim (Bool-cases (a.lane_key == key)) [
  | inl e ↦
      let q : a.lane_key ≡ key = (eq_iff a.lane_key key).0 e in
      ground (
        arith,
        depth-append key sp.rows (inserted_row a sp.next_seq),
        ap (λ (t : String). depth t sp.rows) q,
      )
  | inr e ↦ ground (arith, depth-append key sp.rows (inserted_row a sp.next_seq))
]

-- Whatever is enqueued, a lane holds at most as many open rows as before, or as the limit that the
-- caller gives for the lane of the new row.
pub depth-enqueue :
    (a : Arrival) (sp : Spool) (key : String)
    → depth key (after_enqueue sp (enqueue a sp)).rows ≤ max (depth key sp.rows) a.depth_limit
unfolding advance_cursor insert_row
depth-enqueue a sp key =
    enqueue_cases (λ e. depth key (after_enqueue sp e).rows ≤ max (depth key sp.rows) a.depth_limit)
      a sp
      (record {
        invalid = λ h. omega arith;
        collision = λ r e h. omega arith;
        again = λ r e h. omega arith;
        full = λ e h. omega arith;
        inserted = λ e h. inserted_depth a sp key h;
      })

abbrev TurnsAway : Arrival → Spool → Enqueued → Type 0
TurnsAway a sp (err e) = Unit
TurnsAway a sp (ok res sp') =
    res.status ≡ overflow
    → (a.already_done ≡ false)
      × (a.depth_limit ≤ depth a.lane_key sp.rows)
      × (sp'.rows ≡ sp.rows)
      × (cursor_of a.receiver_kind sp'.cursors ≡ some res.next_update_id)
      × (a.update_id < res.next_update_id)

full_lane :
    (a : Arrival) (sp : Spool)
    → is_full a sp ≡ true
    → (a.already_done ≡ false) × (a.depth_limit ≤ depth a.lane_key sp.rows)
unfolding is_full
full_lane a sp h = ground arith

enqueue-TurnsAway : (a : Arrival) (sp : Spool) → TurnsAway a sp (enqueue a sp)
unfolding advance_cursor
enqueue-TurnsAway a sp = enqueue_cases (TurnsAway a sp) a sp (record {
  invalid = λ h. tt;
  collision = λ r e h. tt;
  again = λ r e h s. cc;
  full = λ e h s.
      let f = full_lane a sp h in
      (
        f.0,
        f.1,
        refl,
        rw
            (
              cursor_of-upsert_cursor a.receiver_kind a.receiver_kind (a.update_id + 1)
                  a.first_seen_at sp.cursors,
              eq_refl a.receiver_kind,
            )
            refl,
        omega (arith, le-raised (a.update_id + 1) (cursor_of a.receiver_kind sp.cursors)),
      );
  inserted = λ e h s. ground arith;
})

-- An update is turned away only if it is not already handled and its lane is full; then no row
-- changes, and the stored cursor of its receiver, which is the one that is returned, has passed it:
-- Telegram will not send it again.
pub enqueue-overflow :
    (a : Arrival) (sp sp' : Spool) (res : EnqueueResult)
    → enqueue a sp ≡ ok res sp'
    → res.status ≡ overflow
    → (a.already_done ≡ false)
      × (a.depth_limit ≤ depth a.lane_key sp.rows)
      × (sp'.rows ≡ sp.rows)
      × (cursor_of a.receiver_kind sp'.cursors ≡ some res.next_update_id)
      × (a.update_id < res.next_update_id)
enqueue-overflow a sp sp' res e s = (subst (TurnsAway a sp) e (enqueue-TurnsAway a sp)) s
