-- ===== src/Gateway/Unread.antt =====
-- About the cursor that `_poll_once_lanes` leaves.
use herdres.Prelude.{
  All, All-map, List, Option, String, [], none, refl, some, subst, sym, ℕ, ◌++◌, ◌<◌, ◌∷◌, ◌≡◌,
}
use herdres.Gateway.Poll.{
  Preview, Update, from_enqueue, ingest, ingest_numbered, ingest_previewed, is_invalid, passes_over,
  poll_updates, spools,
}
use herdres.Gateway.Polled.{
  AtMost, AtMost-advance_cursor, ingest-step, poll_updates-keeps, poll_updates-stops,
}
use herdres.Gateway.Wire.{some_same}
use herdres.Lanes.History.{step-IsValid}
use herdres.Lanes.Ingest.{enqueue_cases}
use herdres.Lanes.Leases.{initialize_cursor}
use herdres.Lanes.Rows.{Spool}
use herdres.Lanes.Spool.{Arrival, enqueue, insert_row}
use herdres.Lanes.Valid.{IsValid}

AtMost-enqueue :
    (n : ℕ) (a : Arrival) (sp : Spool)
    → a.update_id < n
    → AtMost n a.receiver_kind sp
    → (m : Spool × Option ℕ) → from_enqueue (enqueue a sp) ≡ some m
    → AtMost n a.receiver_kind m.0
unfolding insert_row
AtMost-enqueue n a sp l h =
    let moved = λ (x : Spool) (k : AtMost n a.receiver_kind x).
      AtMost-advance_cursor n a.update_id a.first_seen_at a.receiver_kind x l k in
    enqueue_cases
      (λ r. (m : Spool × Option ℕ) → from_enqueue r ≡ some m → AtMost n a.receiver_kind m.0) a sp
      (record {
        invalid = λ e m q. cc;
        collision = λ r e f m q. cc;
        again = λ r e f m q.
            subst (λ (x : Spool × Option ℕ). AtMost n a.receiver_kind x.0) (some_same q)
              (moved sp h);
        full = λ e f m q.
            subst (λ (x : Spool × Option ℕ). AtMost n a.receiver_kind x.0) (some_same q)
              (moved sp h);
        inserted = λ e f m q.
            subst (λ (x : Spool × Option ℕ). AtMost n a.receiver_kind x.0) (some_same q)
              (moved (insert_row a sp) h);
      })

AtMost-previewed :
    (n k now : ℕ) (kind : String) (v : Option Preview) (sp : Spool)
    → k < n
    → AtMost n kind sp
    → (m : Spool × Option ℕ) → ingest_previewed kind now k sp v ≡ some m
    → AtMost n kind m.0
unfolding initialize_cursor
AtMost-previewed n k now kind none sp l a m e = cc
AtMost-previewed n k now kind (some is_invalid) sp l a m e = cc
AtMost-previewed n k now kind (some passes_over) sp l a m e =
    subst (λ (x : Spool × Option ℕ). AtMost n kind x.0) (some_same e)
      (AtMost-advance_cursor n k now kind sp l a)
AtMost-previewed n k now kind (some (spools b)) sp l a m e =
    AtMost-enqueue n (record b { receiver_kind = kind; update_id = k }) sp l a m e

-- The numbers of the updates are below `n`.
abbrev pub Below : ℕ → Update → Type 0
Below n u = (k : ℕ) → u.update_number ≡ some k → k < n

AtMost-ingest :
    (n : ℕ) (kind : String) (u : Update)
    → Below n u
    → (sp : Spool) → AtMost n kind sp
    → (m : Spool × Option ℕ) → ingest kind u sp ≡ some m
    → AtMost n kind m.0
unfolding ingest
AtMost-ingest n kind u l sp a m e = numbered u.update_number refl e
  where
    numbered :
        (i : Option ℕ)
        → u.update_number ≡ i
        → ingest_numbered kind u sp i ≡ some m
        → AtMost n kind m.0
    numbered none q e = cc
    numbered (some k) q e = AtMost-previewed n k u.seen_at kind u.previewed sp (l k q) a m e

-- If an update with number `n` is not taken in, and the updates before it have smaller numbers, and
-- the cursor has not passed `n` before, then the loop stops at it: nothing behind it is looked at,
-- and the cursor has not passed `n`, so that Telegram sends it again.
pub poll_updates-unread :
    (kind : String) (front : List Update) (u : Update) (back : List Update) (n : ℕ) (sp : Spool)
    (mirror : Option ℕ)
    → All (Below n) front
    → AtMost n kind sp
    → ingest kind u (poll_updates kind front sp mirror).0 ≡ none
    → (poll_updates kind (front ++ u ∷ back) sp mirror ≡ poll_updates kind front sp mirror)
      × AtMost n kind (poll_updates kind (front ++ u ∷ back) sp mirror).0
poll_updates-unread kind front u back n sp mirror b a e =
    let stops = poll_updates-stops kind front u back sp mirror e in
    (
      stops,
      subst (λ (x : Spool × Option ℕ). AtMost n kind x.0) (sym stops)
          (poll_updates-keeps (AtMost n kind) kind front
            (All-map (Below n) _ (λ v l. AtMost-ingest n kind v l) front b) sp mirror a),
    )

-- The loop keeps the invariant of the spool, wherever it ends.
pub poll_updates-IsValid :
    (kind : String) (updates : List Update) (sp : Spool) (mirror : Option ℕ)
    → IsValid sp
    → IsValid (poll_updates kind updates sp mirror).0
poll_updates-IsValid kind updates sp mirror v =
    poll_updates-keeps IsValid kind updates (each updates) sp mirror v
  where
    each :
        (us : List Update)
        → All
            (λ u.
              (sp : Spool)
              → IsValid sp
              → (m : Spool × Option ℕ) → ingest kind u sp ≡ some m
              → IsValid m.0)
            us
    each [] = tt
    each (u ∷ us) = (
      λ sp v m e.
          let (c, q) = ingest-step kind u sp m e in subst IsValid (sym q) (step-IsValid c v),
      each us,
    )
