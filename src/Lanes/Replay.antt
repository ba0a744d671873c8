-- ===== src/Lanes/Replay.antt =====
-- Telegram may deliver an update twice: what the second `enqueue` of it does.
use text.Mathlib.TextPositions.{eq_refl}
use herdres.Prelude.{
  Bool, List, Option, [], arith, codes, find, max, none, refl, some, subst, true, ℕ, ◌++◌, ◌+◌, ◌∷◌,
  ◌≡◌,
}
use herdres.Identity.{valid_request_id}
use herdres.Lanes.Enqueued.{commit_at_lem, commits, cursor_of-upsert_cursor, raised, read_back}
use herdres.Lanes.Ingest.{enqueue_cases}
use herdres.Lanes.Rows.{Row, Spool}
use herdres.Lanes.Spool.{
  Arrival, EnqueueResult, EnqueueStatus, Enqueued, advance_cursor, clashes, cursor_of, duplicate,
  enqueue, enqueue_found, err, insert_row, inserted_row, new_status, ok, same_identity,
}

find-append_none :
    (p : Row → Bool) (rows : List Row) (r : Row)
    → find p rows ≡ none
    → p r ≡ true
    → find p (rows ++ r ∷ []) ≡ some r
find-append_none p [] r e h = rw h
find-append_none p (x ∷ rows) r e h = ground (arith, find-append_none p rows r)

same_identity-inserted : (a : Arrival) (seq : ℕ) → same_identity a (inserted_row a seq) ≡ true
same_identity-inserted a seq = ground (arith, eq_refl a.request_id, eq_refl a.receiver_kind)

clashes-inserted : (a : Arrival) (seq : ℕ) → clashes a (inserted_row a seq) ≡ true
clashes-inserted a seq = ground (arith, eq_refl a.request_id)

-- The cursor that was just written is read back again.
read_back-commits :
    (a : Arrival) (sp sp' : Spool)
    → sp'.cursors ≡ sp.cursors
    → read_back a (commits a sp') ≡ read_back a sp
unfolding advance_cursor
read_back-commits a sp sp' e =
    rw
      (
        e,
        cursor_of-upsert_cursor a.receiver_kind a.receiver_kind (a.update_id + 1) a.first_seen_at
            sp.cursors,
        eq_refl a.receiver_kind,
      )
      (max-raised (a.update_id + 1) (cursor_of a.receiver_kind sp.cursors))
  where
    max-raised : (n : ℕ) (o : Option ℕ) → max (raised n o) n ≡ raised n o
    max-raised n none = omega arith
    max-raised n (some old) = omega arith

-- A second `enqueue` where the row is already there.
enqueue_present :
    (a : Arrival) (sp : Spool) (r : Row)
    → valid_request_id (codes a.request_id) ≡ true
    → find (clashes a) sp.rows ≡ some r
    → same_identity a r ≡ true
    → enqueue a sp
      ≡ ok
          (record { status = duplicate; next_update_id = read_back a sp; seq = some r.seq })
          (commits a sp)
unfolding enqueue enqueue_found
enqueue_present a sp r good e same = rw (good, e, same, commit_at_lem a duplicate (some r.seq) sp)

-- What the first answer says of the second.
abbrev Repeats : Arrival → Enqueued → Type 0
Repeats a (err e) = Unit
Repeats a (ok res sp) =
    (n : ℕ)
    → res.seq ≡ some n
    → (later : Spool) × (enqueue a sp
        ≡ ok (record { status = duplicate; next_update_id = res.next_update_id; seq = some n })
            later)
      × (later.rows ≡ sp.rows)

Repeats-present :
    (a : Arrival) (sp sp' : Spool) (status : EnqueueStatus) (r : Row)
    → valid_request_id (codes a.request_id) ≡ true
    → sp'.cursors ≡ sp.cursors
    → find (clashes a) sp'.rows ≡ some r
    → same_identity a r ≡ true
    → Repeats a (
        ok
          (record { status = status; next_update_id = read_back a sp; seq = some r.seq })
          (commits a sp'))
Repeats-present a sp sp' status r good cs e same n h = (
  commits a (commits a sp'),
  rw (
    enqueue_present a (commits a sp') r good (unfold advance_cursor in e) same,
    read_back-commits a sp sp' cs,
    h,
  ),
  unfold advance_cursor in refl,
)

enqueue-Repeats :
    (a : Arrival) (sp : Spool)
    → valid_request_id (codes a.request_id) ≡ true
    → Repeats a (enqueue a sp)
unfolding insert_row
enqueue-Repeats a sp good = enqueue_cases (Repeats a) a sp (record {
  invalid = λ h. tt;
  collision = λ r e h. tt;
  again = λ r e same. Repeats-present a sp sp duplicate r good refl e same;
  full = λ e h n q. cc;
  inserted = λ e h.
      Repeats-present a sp (insert_row a sp) (new_status a) (inserted_row a sp.next_seq) good refl
        (find-append_none (clashes a) sp.rows (inserted_row a sp.next_seq) e
          (clashes-inserted a sp.next_seq))
        (same_identity-inserted a sp.next_seq);
})

enqueue-ok_valid :
    (a : Arrival) (sp sp' : Spool) (res : EnqueueResult)
    → enqueue a sp ≡ ok res sp'
    → valid_request_id (codes a.request_id) ≡ true
unfolding enqueue
enqueue-ok_valid a sp sp' res e = ground arith

-- Enqueueing an update again, after an answer that names its row, finds that row: the answer is
-- `duplicate` with the same number and the same cursor, and the rows are unchanged.
pub enqueue-enqueue :
    (a : Arrival) (sp sp' : Spool) (res : EnqueueResult) (n : ℕ)
    → enqueue a sp ≡ ok res sp'
    → res.seq ≡ some n
    → (later : Spool) × (enqueue a sp'
        ≡ ok
            (record { status = duplicate; next_update_id = res.next_update_id; seq = some n })
            later)
      × (later.rows ≡ sp'.rows)
enqueue-enqueue a sp sp' res n e s =
    (subst (Repeats a) e (enqueue-Repeats a sp (enqueue-ok_valid a sp sp' res e))) n s
