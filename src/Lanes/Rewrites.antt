-- ===== src/Lanes/Rewrites.antt =====
-- Statements that rewrite rows in place: what such a rewriting keeps of a table, for every row.
use herdres.Prelude.{
  All, AllPairs, Bool, List, String, [], arith, false, if◌then◌else◌, is_some, nat_eq, some,
  string_eq, true, update_where, ℕ, ◌&&◌, ◌+◌, ◌<◌, ◌==◌, ◌||◌, ◌∷◌, ◌≡◌, ◌≤◌,
}
use herdres.Lanes.Rows.{Cursor, Row, is_done, is_open, is_pending, is_processing, same_lane}
use herdres.Lanes.Spool.{cursor_of}

-- The row is not being delivered: it waits, or it is over.
abbrev pub is_idle : Row → Bool
is_idle r = is_pending r.state || is_done r.state

-- The columns that no statement changes.
pub record SameOrigin (r s : Row) : Type 0 where
  pub seq : r.seq ≡ s.seq
  pub request_id : r.request_id ≡ s.request_id
  pub receiver_kind : r.receiver_kind ≡ s.receiver_kind
  pub update_id : r.update_id ≡ s.update_id
  pub lane_key : r.lane_key ≡ s.lane_key

-- A row has a lease just while it is processing.
pub record HasLease (r : Row) : Type 0 where
  pub owner : is_some r.lease_owner ≡ is_processing r.state
  pub until : is_some r.lease_until ≡ is_processing r.state

-- A rewriting that keeps the identity of a row, and its lease in step with its state.
pub record IsTidy (r s : Row) : Type 0 where
  pub origin : SameOrigin r s
  pub leases : HasLease r → HasLease s

-- One that, besides, starts no delivery and reopens nothing.
pub record IsGentle (r s : Row) : Type 0 where
  pub tidy : IsTidy r s
  pub opens : is_open s ≡ true → is_open r ≡ true
  pub idles : is_idle r ≡ true → is_idle s ≡ true

-- `s` stands behind `r`: it has another identity, and while `r` is open in its lane `s` is idle.
pub record IsBehind (r s : Row) : Type 0 where
  pub later : r.seq < s.seq
  pub other_request : (r.request_id == s.request_id) ≡ false
  pub other_update : ((r.receiver_kind == s.receiver_kind) && (r.update_id == s.update_id)) ≡ false
  pub waits : is_open r ≡ true → same_lane r s ≡ true → is_idle s ≡ true

-- The cursor of receiver `kind` is at least `n`.
pub record Covers (n : ℕ) (kind : String) (cursors : List Cursor) : Type 0 where
  pub cursor : ℕ
  pub known : cursor_of kind cursors ≡ some cursor
  pub reached : n ≤ cursor

-- What holds of each row by itself: its number is given, it has a lease while it is processing, and
-- the cursor of its receiver has passed its update.
pub record IsKept (next : ℕ) (cursors : List Cursor) (r : Row) : Type 0 where
  pub numbered : r.seq < next
  pub lease : HasLease r
  pub covered : Covers (r.update_id + 1) r.receiver_kind cursors

pub IsBehind-IsGentle :
    {r r' s s' : Row} → IsGentle r r' → IsGentle s s' → IsBehind r s → IsBehind r' s'
IsBehind-IsGentle {r} {r'} {s} {s'} g h b = record {
  later = omega (arith, b.later, g.tidy.origin.seq, h.tidy.origin.seq);
  other_request = rw (← g.tidy.origin.request_id, ← h.tidy.origin.request_id) b.other_request;
  other_update =
      rw
        (
          ← g.tidy.origin.receiver_kind,
          ← h.tidy.origin.receiver_kind,
          ← g.tidy.origin.update_id,
          ← h.tidy.origin.update_id,
        )
        b.other_update;
  waits =
      λ o l. h.idles (b.waits (g.opens o) (rw (g.tidy.origin.lane_key, h.tidy.origin.lane_key) l));
}

pub IsKept-IsTidy :
    {next : ℕ} {cursors : List Cursor} {r r' : Row}
    → IsTidy r r'
    → IsKept next cursors r
    → IsKept next cursors r'
IsKept-IsTidy t k = record {
  numbered = omega (arith, k.numbered, t.origin.seq);
  lease = t.leases k.lease;
  covered = rw (← t.origin.receiver_kind, ← t.origin.update_id) k.covered;
}

module _ (p : Row → Bool) (f : Row → Row) where
  abbrev pub rewritten : Row → Row
  rewritten r = if p r then f r else r

  pub All-IsKept-update_where :
      ((r : Row) → IsTidy r (rewritten r))
      → (next : ℕ) (cursors : List Cursor) (rows : List Row) → All (IsKept next cursors) rows
      → All (IsKept next cursors) (update_where p f rows)
  All-IsKept-update_where tidy next cursors [] a = tt
  All-IsKept-update_where tidy next cursors (r ∷ rows) a =
      (IsKept-IsTidy (tidy r) a.0, All-IsKept-update_where tidy next cursors rows a.1)

  module _ (gentle : (r : Row) → IsGentle r (rewritten r)) where
    All-IsBehind-update_where :
        {r r' : Row} (rows : List Row)
        → IsGentle r r'
        → All (IsBehind r) rows
        → All (IsBehind r') (update_where p f rows)
    All-IsBehind-update_where [] g a = tt
    All-IsBehind-update_where (s ∷ rows) g a =
        (IsBehind-IsGentle g (gentle s) a.0, All-IsBehind-update_where rows g a.1)

    pub AllPairs-IsBehind-update_where :
        (rows : List Row) → AllPairs IsBehind rows → AllPairs IsBehind (update_where p f rows)
    AllPairs-IsBehind-update_where [] a = tt
    AllPairs-IsBehind-update_where (r ∷ rows) a =
        (All-IsBehind-update_where rows (gentle r) a.0, AllPairs-IsBehind-update_where rows a.1)
