-- ===== src/Gateway/Polled.antt =====
-- About the loop of `_poll_once_lanes`.
use text.Mathlib.TextPositions.{eq_refl}
use herdres.Prelude.{
  All, Bool, List, Option, Option-cases, String, [], ap, arith, false, inl, inr, none, refl, some,
  sym, true, ℕ, ◌++◌, ◌+◌, ◌<◌, ◌∙◌, ◌∷◌, ◌≡◌, ◌≤◌,
}
use herdres.Gateway.Poll.{
  Preview, Update, breaks_behind, continued, from_enqueue, ingest, ingest_numbered,
  ingest_previewed, is_invalid, passes_over, poll_updates, spools,
}
use herdres.Gateway.Wire.{some_same}
use herdres.Lanes.Calls.{Call, after_enqueue, enqueues, moves_cursor, step}
use herdres.Lanes.Enqueued.{cursor_of-upsert_cursor, raised}
use herdres.Lanes.Rows.{Spool}
use herdres.Lanes.Spool.{
  Arrival, Enqueued, advance_cursor, cursor_of, enqueue, err, ok, upsert_cursor,
}

-- A property of the spool that every update keeps that is taken in.
pub poll_updates-keeps :
    (P : Spool → Type 0) (kind : String) (updates : List Update)
    → All
        (λ u. (sp : Spool) → P sp → (m : Spool × Option ℕ) → ingest kind u sp ≡ some m → P m.0)
        updates
    → (sp : Spool) (mirror : Option ℕ) → P sp
    → P (poll_updates kind updates sp mirror).0
unfolding poll_updates
poll_updates-keeps P kind [] a sp mirror p = p
poll_updates-keeps P kind (u ∷ updates) a sp mirror p =
    kept (λ sp' next q. poll_updates-keeps P kind updates a.1 sp' next q) (breaks_behind u)
      (ingest kind u sp) refl
  where
    kept :
        ((sp' : Spool) (next : Option ℕ) → P sp' → P (poll_updates kind updates sp' next).0)
        → (breaks : Bool) (m : Option (Spool × Option ℕ)) → ingest kind u sp ≡ m
        → P (continued (poll_updates kind updates) breaks sp mirror m).0
    kept rest breaks none e = p
    kept rest true (some (sp', next)) e = a.0 sp p (sp', next) e
    kept rest false (some (sp', next)) e = rest sp' next (a.0 sp p (sp', next) e)

-- What is ingested is a call of the spool.
pub ingest-step :
    (kind : String) (u : Update) (sp : Spool) (m : Spool × Option ℕ)
    → ingest kind u sp ≡ some m
    → (c : Call) × (m.0 ≡ step sp c)
unfolding ingest step
ingest-step kind u sp m e = numbered u.update_number e
  where
    enqueued_step :
        (a : Arrival) (r : Enqueued)
        → enqueue a sp ≡ r
        → from_enqueue r ≡ some m
        → m.0 ≡ after_enqueue sp (enqueue a sp)
    enqueued_step a (ok result sp') q e =
        sym (ap (λ (x : Spool × Option ℕ). x.0) (some_same e)) ∙ sym (ap (after_enqueue sp) q)
    enqueued_step a (err x) q e = cc

    previewed :
        (n : ℕ) (v : Option Preview)
        → ingest_previewed kind u.seen_at n sp v ≡ some m
        → (c : Call) × (m.0 ≡ step sp c)
    previewed n none e = cc
    previewed n (some is_invalid) e = cc
    previewed n (some passes_over) e = (
      moves_cursor kind (n + 1) u.seen_at,
      sym (ap (λ (x : Spool × Option ℕ). x.0) (some_same e)),
    )
    previewed n (some (spools a)) e = (
      enqueues (record a { receiver_kind = kind; update_id = n }),
      enqueued_step (record a { receiver_kind = kind; update_id = n }) _ refl e,
    )

    numbered :
        (n : Option ℕ) → ingest_numbered kind u sp n ≡ some m → (c : Call) × (m.0 ≡ step sp c)
    numbered none e = cc
    numbered (some n) e = previewed n u.previewed e

-- An update that is not taken in ends the loop: what stands behind it is not looked at.
pub poll_updates-stops :
    (kind : String) (front : List Update) (u : Update) (back : List Update) (sp : Spool)
    (mirror : Option ℕ)
    → ingest kind u (poll_updates kind front sp mirror).0 ≡ none
    → poll_updates kind (front ++ u ∷ back) sp mirror ≡ poll_updates kind front sp mirror
unfolding poll_updates
poll_updates-stops kind [] u back sp mirror e =
    ap (continued (poll_updates kind back) (breaks_behind u) sp mirror) e
poll_updates-stops kind (v ∷ front) u back sp mirror e =
    behind (λ sp' next h. poll_updates-stops kind front u back sp' next h) (breaks_behind v)
      (ingest kind v sp) e
  where
    behind :
        ((sp' : Spool) (next : Option ℕ)
          → ingest kind u (poll_updates kind front sp' next).0 ≡ none
          → poll_updates kind (front ++ u ∷ back) sp' next ≡ poll_updates kind front sp' next)
        → (breaks : Bool) (m : Option (Spool × Option ℕ))
        → ingest kind u (continued (poll_updates kind front) breaks sp mirror m).0 ≡ none
        → continued (poll_updates kind (front ++ u ∷ back)) breaks sp mirror m
          ≡ continued (poll_updates kind front) breaks sp mirror m
    behind rest breaks none h = refl
    behind rest true (some (sp', next)) h = refl
    behind rest false (some (sp', next)) h = rest sp' next h

-- The cursor of a receiver has not passed a number.
abbrev pub AtMost : ℕ → String → Spool → Type 0
AtMost n kind sp = (c : ℕ) → cursor_of kind sp.cursors ≡ some c → c ≤ n

pub AtMost-advance_cursor :
    (n k now : ℕ) (kind : String) (sp : Spool)
    → k < n
    → AtMost n kind sp
    → AtMost n kind (advance_cursor kind (k + 1) now sp)
unfolding advance_cursor
AtMost-advance_cursor n k now kind sp l a c e =
    let q : cursor_of kind (upsert_cursor kind (k + 1) now sp.cursors)
        ≡ some (raised (k + 1) (cursor_of kind sp.cursors)) =
      rw (cursor_of-upsert_cursor kind kind (k + 1) now sp.cursors, eq_refl kind) refl in
    let same : raised (k + 1) (cursor_of kind sp.cursors) ≡ c = some_same (sym q ∙ e) in
    elim (Option-cases (cursor_of kind sp.cursors)) [
      | inl h ↦ let t = rw h at same in omega arith
      | inr (old, h) ↦ let t = rw h at same in let b = a old h in omega arith
    ]
