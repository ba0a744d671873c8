-- ===== src/Lanes/Enqueued.antt =====
-- About every branch of `enqueue`, the invariant, and the cursors.
use text.Mathlib.TextPositions.{eq_refl}
use herdres.Prelude.{
  All, All-append, All-map, AllPairs, Bool-cases, List, Option, String, [], arith, eq_iff, false,
  find, find-none, if◌then◌else◌, inl, inr, max, nat_eq, none, some, string_eq, suc, ℕ, ◌++◌, ◌+◌,
  ◌==◌, ◌∷◌, ◌≡◌, ◌≤◌,
}
use herdres.Lanes.Rewrites.{Covers, IsBehind, IsKept}
use herdres.Lanes.Rows.{Cursor, Row, Spool}
use herdres.Lanes.Spool.{
  Arrival, EnqueueStatus, advance_cursor, answered, clashes, commit_at, cursor_of, insert_row,
  inserted_row, ok, upsert_cursor,
}
use herdres.Lanes.Valid.{IsValid}

-- What an upsert leaves of an old cursor.
abbrev pub raised : ℕ → Option ℕ → ℕ
raised next none = next
raised next (some old) = max old next

-- The read after the write finds the larger of the two, and no other receiver's cursor changes.
pub cursor_of-upsert_cursor :
    (kind other : String) (next now : ℕ) (cs : List Cursor)
    → cursor_of other (upsert_cursor kind next now cs)
      ≡ (if kind == other then some (raised next (cursor_of kind cs)) else cursor_of other cs)
unfolding cursor_of upsert_cursor
cursor_of-upsert_cursor kind other next now [] = ground arith
cursor_of-upsert_cursor kind other next now (c ∷ cs) = ground (
  arith,
  eq_iff kind other,
  eq_iff c.receiver kind,
  eq_iff c.receiver other,
  cursor_of-upsert_cursor kind other next now cs,
)

pub le-raised : (next : ℕ) (o : Option ℕ) → next ≤ raised next o
le-raised next none = omega arith
le-raised next (some old) = omega arith

pub Covers-upsert_cursor_self :
    (kind : String) (next now : ℕ) (cs : List Cursor)
    → Covers next kind (upsert_cursor kind next now cs)
Covers-upsert_cursor_self kind next now cs = record {
  cursor = raised next (cursor_of kind cs);
  known = rw (cursor_of-upsert_cursor kind kind next now cs, eq_refl kind);
  reached = le-raised next (cursor_of kind cs);
}

pub Covers-upsert_cursor :
    (n : ℕ) (kind other : String) (next now : ℕ) (cs : List Cursor)
    → Covers n other cs
    → Covers n other (upsert_cursor kind next now cs)
Covers-upsert_cursor n kind other next now cs c = elim (Bool-cases (kind == other)) [
  | inl e ↦
      let q : kind ≡ other = (eq_iff kind other).0 e in
      let k : cursor_of kind cs ≡ some c.cursor = rw q c.known in
      record {
        cursor = max c.cursor next;
        known = rw (cursor_of-upsert_cursor kind other next now cs, e, k);
        reached = omega (arith, c.reached);
      }
  | inr e ↦ record {
    cursor = c.cursor;
    known = rw (cursor_of-upsert_cursor kind other next now cs, e) c.known;
    reached = c.reached;
  }
]

-- The table that a branch of `enqueue` leaves, its cursor moved.
All-IsKept-upsert_cursor :
    (kind : String) (n now next : ℕ) (cs : List Cursor) (rows : List Row)
    → All (IsKept next cs) rows
    → All (IsKept next (upsert_cursor kind n now cs)) rows
All-IsKept-upsert_cursor kind n now next cs rows =
    All-map (IsKept next cs) (IsKept next (upsert_cursor kind n now cs))
      (λ r k. record {
        numbered = k.numbered;
        lease = k.lease;
        covered = Covers-upsert_cursor (r.update_id + 1) kind r.receiver_kind n now cs k.covered;
      })
      rows

pub advance_cursor-IsValid :
    (kind : String) (n now : ℕ) {sp : Spool} → IsValid sp → IsValid (advance_cursor kind n now sp)
unfolding advance_cursor
advance_cursor-IsValid kind n now {sp} v = record {
  ordered = v.ordered;
  kept = All-IsKept-upsert_cursor kind n now sp.next_seq sp.cursors sp.rows v.kept;
}

-- The new row has a number of its own and, as nothing clashed, an identity of its own.
inserted-IsBehind :
    (a : Arrival) (next : ℕ) (cs : List Cursor) (r : Row)
    → IsKept next cs r
    → clashes a r ≡ false
    → IsBehind r (inserted_row a next)
inserted-IsBehind a next cs r k h = ground (arith, k.numbered)

All-IsBehind-inserted :
    (a : Arrival) (next : ℕ) (cs : List Cursor) (rows : List Row)
    → AllPairs IsBehind rows
    → All (IsKept next cs) rows
    → All (λ r. clashes a r ≡ false) rows
    → AllPairs IsBehind (rows ++ inserted_row a next ∷ [])
All-IsBehind-inserted a next cs [] v k h = (tt, tt)
All-IsBehind-inserted a next cs (r ∷ rows) v k h = (
  All-append (IsBehind r) rows (inserted_row a next ∷ []) v.0
      (inserted-IsBehind a next cs r k.0 h.0, tt),
  All-IsBehind-inserted a next cs rows v.1 k.1 h.1,
)

abbrev pub commits : Arrival → Spool → Spool
commits a sp = advance_cursor a.receiver_kind (a.update_id + 1) a.first_seen_at sp

-- The value that `_advance_cursor_tx` reads back.
abbrev pub read_back : Arrival → Spool → ℕ
read_back a sp = raised (a.update_id + 1) (cursor_of a.receiver_kind sp.cursors)

pub commit_at_lem :
    (a : Arrival) (status : EnqueueStatus) (seq : Option ℕ) (sp : Spool)
    → commit_at a status seq sp
      ≡ ok (record { status = status; next_update_id = read_back a sp; seq = seq }) (commits a sp)
unfolding commit_at advance_cursor answered
commit_at_lem a status seq sp = rw (
  cursor_of-upsert_cursor a.receiver_kind a.receiver_kind (a.update_id + 1) a.first_seen_at
      sp.cursors,
  eq_refl a.receiver_kind,
)

IsKept-suc : {next : ℕ} {cs : List Cursor} (r : Row) → IsKept next cs r → IsKept (suc next) cs r
IsKept-suc r k = record {
  numbered = omega (arith, k.numbered);
  lease = k.lease;
  covered = k.covered;
}

inserted-IsKept :
    (a : Arrival) (next : ℕ) (cs : List Cursor)
    → IsKept
        (suc next)
        (upsert_cursor a.receiver_kind (a.update_id + 1) a.first_seen_at cs)
        (inserted_row a next)
inserted-IsKept a next cs = record {
  numbered = omega arith;
  lease = ground arith;
  covered = Covers-upsert_cursor_self a.receiver_kind (a.update_id + 1) a.first_seen_at cs;
}

pub insert_row-IsValid :
    (a : Arrival) {sp : Spool}
    → IsValid sp
    → find (clashes a) sp.rows ≡ none
    → IsValid (commits a (insert_row a sp))
unfolding insert_row advance_cursor
insert_row-IsValid a {sp} v e = record {
  ordered =
      All-IsBehind-inserted a sp.next_seq sp.cursors sp.rows v.ordered v.kept
        (find-none (clashes a) sp.rows e);
  kept =
      All-append _ sp.rows (inserted_row a sp.next_seq ∷ [])
        (All-IsKept-upsert_cursor a.receiver_kind (a.update_id + 1) a.first_seen_at
          (suc sp.next_seq) sp.cursors sp.rows (All-map _ _ IsKept-suc sp.rows v.kept))
        (inserted-IsKept a sp.next_seq sp.cursors, tt);
}
