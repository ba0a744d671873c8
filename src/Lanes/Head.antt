-- ===== src/Lanes/Head.antt =====
-- About the row that `claim` leases, and when it leases none.
use herdres.Prelude.{
  All, Bool-cases, List, Option, String, [], all, ap, arith, count, false, find-none, inl, inr, leb,
  leb→le, ltb, nat_beq_iff, nat_eq, none, refl, some, string_eq, text_eq, true, update_where, ℕ,
  ◌&&◌, ◌<◌, ◌==◌, ◌∷◌, ◌≡◌, ◌≤◌,
}
use herdres.Lanes.Claim.{
  claim, claim_row, claims, end_hold, expire_holds, expire_leases, hold_due, is_claimable,
  is_obstructed, item_of, lease_end, lease_lapsed, next_claimable, release_lease, sweep, take_lease,
}
use herdres.Lanes.Claimed.{sweep-IsValid}
use herdres.Lanes.Holders.{row_at, row_at-update_where}
use herdres.Lanes.Picked.{next_claimable-IsPicked}
use herdres.Lanes.Rewrites.{rewritten}
use herdres.Lanes.Rows.{
  LaneItem, Row, Spool, blocked, done, is_open, is_pending, pending, processing, retry_clock,
  same_lane,
}
use herdres.Lanes.Valid.{IsValid}

-- Everything before `seq` in the lane is over.
abbrev pub OverBefore : String → ℕ → Row → Type 0
OverBefore key seq r = (r.lane_key == key) ≡ true → r.seq < seq → r.state ≡ done

over_before :
    (now : ℕ) (owner : String) (until : ℕ) (clock : Option ℕ) (c r : Row)
    → (same_lane r c && is_open r && ltb r.seq c.seq) ≡ false
    → OverBefore c.lane_key c.seq (rewritten (claims c.seq) (take_lease owner until now clock) r)
over_before now owner until clock c r h = ground arith

All-OverBefore :
    (now : ℕ) (owner : String) (until : ℕ) (clock : Option ℕ) (c : Row) (rows : List Row)
    → All (λ r. (same_lane r c && is_open r && ltb r.seq c.seq) ≡ false) rows
    → All
        (OverBefore c.lane_key c.seq)
        (update_where (claims c.seq) (take_lease owner until now clock) rows)
All-OverBefore now owner until clock c [] a = tt
All-OverBefore now owner until clock c (r ∷ rows) a =
    (over_before now owner until clock c r a.0, All-OverBefore now owner until clock c rows a.1)

-- The row of an item is leased, in the table, as the item says.
pub record IsLeasedRow (rows : List Row) (item : LaneItem) : Type 0 where
  pub row : Row
  pub stored : row_at item.seq rows ≡ some row
  pub in_work : row.state ≡ processing
  pub by_owner : row.lease_owner ≡ some item.lease_owner
  pub until : row.lease_until ≡ some item.lease_until
  pub of_request : row.request_id ≡ item.request_id

row_at_unique :
    (r : Row) (rows : List Row)
    → All (λ p. p.seq ≡ r.seq → p ≡ r) rows
    → count (claims r.seq) rows ≡ 1
    → row_at r.seq rows ≡ some r
row_at_unique r [] a h = absurd (omega arith)
row_at_unique r (x ∷ rows) a h = elim (Bool-cases (x.seq == r.seq)) [
  | inl e ↦ rw e (ap some (a.0 ((nat_beq_iff x.seq r.seq).0 e)))
  | inr e ↦ rw e (row_at_unique r rows a.1 (rw e at h))
]

IsLeasedRow-take_lease :
    (owner : String) (until now : ℕ) (r : Row) (rows : List Row)
    → is_pending r.state ≡ true
    → row_at r.seq rows ≡ some r
    → IsLeasedRow
        (update_where (claims r.seq) (take_lease owner until now (retry_clock r)) rows)
        (item_of owner until r)
IsLeasedRow-take_lease owner until now r rows w e =
    let held : claims r.seq r ≡ true = ground arith in
    record {
      row = take_lease owner until now (retry_clock r) r;
      stored =
          rw
            (
              row_at-update_where r.seq (claims r.seq) (take_lease owner until now (retry_clock r))
                  (λ t. refl) rows e,
              held,
            )
            refl;
      in_work = refl;
      by_owner = refl;
      until = refl;
      of_request = refl;
    }

-- What a dispatcher may rely on when it is handed an item.
pub record IsHead (now : ℕ) (owner : String) (rows : List Row) (item : LaneItem) : Type 0 where
  pub due : item.next_attempt_at ≤ now
  pub held_by : item.lease_owner ≡ owner
  pub held_until : now < item.lease_until
  pub leased_row : IsLeasedRow rows item
  pub over : All (OverBefore item.lane_key item.seq) rows

claim_row-IsHead :
    (owner : String) (now lease : ℕ) (sp swept : Spool) (o : Option Row) {item : LaneItem}
    → IsValid swept
    → next_claimable now swept.rows ≡ o
    → (claim_row owner now lease sp swept o).1 ≡ some item
    → IsHead now owner (claim_row owner now lease sp swept o).0.rows item
unfolding claim_row
claim_row-IsHead owner now lease sp swept none v e h = cc
claim_row-IsHead owner now lease sp swept (some r) {item} v e h =
    let k = next_claimable-IsPicked now swept.rows v.ordered e in
    let q : item_of owner (lease_end now lease) r ≡ item = cc (rw k.counted at h) in
    rw (k.counted, ← q)
      (record {
        due = leb→le _ _ k.due;
        held_by = refl;
        held_until = omega arith;
        leased_row =
            IsLeasedRow-take_lease owner (lease_end now lease) now r swept.rows k.waiting
              (row_at_unique r swept.rows k.unique k.counted);
        over =
            All-OverBefore now owner (lease_end now lease) (retry_clock r) r swept.rows
              k.unobstructed;
      })

-- On a valid spool, an item that `claim` returns is due, its row stands in the table as processing,
-- leased to the caller until the time that the item says, which is after this moment, and every
-- earlier row of its lane is done: the lane is strictly first in, first out.
pub claim-IsHead :
    (owner : String) (now lease : ℕ) {sp : Spool} {item : LaneItem}
    → IsValid sp
    → (claim owner now lease sp).1 ≡ some item
    → IsHead now owner (claim owner now lease sp).0.rows item
unfolding claim
claim-IsHead owner now lease {sp} v h =
    claim_row-IsHead owner now lease sp (sweep now sp) _ (sweep-IsValid now v) refl h

leb_of_le : (a b : ℕ) → a ≤ b → leb a b ≡ true
leb_of_le a b h = ground arith

-- A row that gives a dispatcher nothing to do: it holds no lapsed lease and no hold that is over,
-- and if it waits and is due, then not everything before it in its lane is over.
pub record IsIdle (now : ℕ) (rows : List Row) (r : Row) : Type 0 where
  pub no_lapsed : (t : ℕ) → r.state ≡ processing → r.lease_until ≡ some t → now < t
  pub no_spent : r.state ≡ blocked → now < r.next_attempt_at
  pub no_head :
      r.state ≡ pending → r.next_attempt_at ≤ now → ¬ All (OverBefore r.lane_key r.seq) rows

not_obstructed :
    (r : Row) (rows : List Row)
    → All (OverBefore r.lane_key r.seq) rows
    → is_obstructed rows r ≡ false
not_obstructed r [] a = refl
not_obstructed r (p ∷ rows) a = elim (Bool-cases (same_lane p r && is_open p && ltb p.seq r.seq)) [
  | inl h ↦ absurd (open_done p (a.0 (ground arith) (ground arith)) (ground arith))
  | inr h ↦ rw h (not_obstructed r rows a.1)
]
  where
    open_done : (p : Row) → p.state ≡ done → is_open p ≡ true → ⊥
    open_done p e h = cc (rw e at h)

abbrev swept_row : ℕ → Row → Row
swept_row now r =
    rewritten (hold_due now) (end_hold now) (rewritten (lease_lapsed now) (release_lease now) r)

swept_lapsed :
    (now : ℕ) (r : Row) (t : ℕ)
    → (swept_row now r).state ≡ processing
    → (swept_row now r).lease_until ≡ some t
    → now < t
swept_lapsed now r t e u = ground (arith, e, u)

swept_spent :
    (now : ℕ) (r : Row)
    → (swept_row now r).state ≡ blocked
    → now < (swept_row now r).next_attempt_at
swept_spent now r e = ground (arith, e)

All-swept :
    (Q : Row → Type 0) (now : ℕ)
    → ((r : Row) → Q (swept_row now r))
    → (rows : List Row)
    → All Q (
        update_where
          (hold_due now)
          (end_hold now)
          (update_where (lease_lapsed now) (release_lease now) rows))
All-swept Q now q [] = tt
All-swept Q now q (r ∷ rows) = (q r, All-swept Q now q rows)

-- What the sweeps leave to `next_claimable`, row by row.
abbrev Swept : ℕ → Row → Type 0
Swept now r =
    ((t : ℕ) → r.state ≡ processing → r.lease_until ≡ some t → now < t)
    × (r.state ≡ blocked → now < r.next_attempt_at)

IsIdle-Swept :
    (now : ℕ) (all rows : List Row)
    → All (Swept now) rows
    → All (λ r. is_claimable now all r ≡ false) rows
    → All (IsIdle now all) rows
IsIdle-Swept now all [] a b = tt
IsIdle-Swept now all (r ∷ rows) a b = (
  record {
    no_lapsed = a.0.0;
    no_spent = a.0.1;
    no_head = λ e d o. no_claim (not_obstructed r all o) e d b.0;
  },
  IsIdle-Swept now all rows a.1 b.1,
)
  where
    no_claim :
        is_obstructed all r ≡ false
        → r.state ≡ pending
        → r.next_attempt_at ≤ now
        → is_claimable now all r ≡ false
        → ⊥
    no_claim u e d h = cc (rw (e, u, leb_of_le r.next_attempt_at now d) at h)

claim_row-none :
    (owner : String) (now lease : ℕ) (sp swept : Spool) (o : Option Row)
    → IsValid swept
    → All (Swept now) swept.rows
    → next_claimable now swept.rows ≡ o
    → (claim_row owner now lease sp swept o).1 ≡ none
    → All
        (IsIdle now (claim_row owner now lease sp swept o).0.rows)
        (claim_row owner now lease sp swept o).0.rows
unfolding claim_row next_claimable
claim_row-none owner now lease sp swept none v a e h =
    IsIdle-Swept now swept.rows swept.rows a (find-none _ swept.rows e)
claim_row-none owner now lease sp swept (some r) v a e h =
    let k = next_claimable-IsPicked now swept.rows v.ordered e in cc (rw k.counted at h)

-- On a valid spool, `claim` returns nothing only if it leaves a spool in which no lease has lapsed,
-- no hold is over, and every row that is pending and due has an earlier row in its lane that is not
-- done.
pub claim-none :
    (owner : String) (now lease : ℕ) {sp : Spool}
    → IsValid sp
    → (claim owner now lease sp).1 ≡ none
    → All (IsIdle now (claim owner now lease sp).0.rows) (claim owner now lease sp).0.rows
unfolding claim sweep expire_holds expire_leases
claim-none owner now lease {sp} v h =
    claim_row-none owner now lease sp (sweep now sp) _ (sweep-IsValid now v)
      (All-swept (Swept now) now (λ r. (swept_lapsed now r, swept_spent now r)) sp.rows) refl h
