-- ===== src/Lanes/Claimed.antt =====
-- About `claim`, the order of the spool and the invariant.
use herdres.Prelude.{
  All, AllPairs, Bool-cases, List, Option, String, [], arith, count, false, inl, inr, ltb,
  nat_beq_iff, nat_eq, none, refl, some, string_eq, true, update_where, ℕ, ◌&&◌, ◌==◌, ◌∷◌, ◌≡◌,
}
use herdres.Lanes.Claim.{
  claim, claim_row, claims, item_of, lease_end, next_claimable, sweep, take_lease,
}
use herdres.Lanes.Picked.{IsPicked, next_claimable-IsPicked}
use herdres.Lanes.Rewrites.{All-IsKept-update_where, IsBehind, IsTidy, is_idle, rewritten}
use herdres.Lanes.Rows.{Row, Spool, is_open, retry_clock, same_lane}
use herdres.Lanes.Valid.{IsValid, expire_holds-IsValid, expire_leases-IsValid}

module _ (now : ℕ) (owner : String) (until : ℕ) (clock : Option ℕ) (c : Row) where
  leased : Row → Row
  leased = rewritten (claims c.seq) (take_lease owner until now clock)

  leased-IsTidy : (r : Row) → IsTidy r (leased r)
  unfolding leased
  leased-IsTidy r = ground arith

  leased-waits :
      (r s : Row)
      → IsBehind r s
      → (same_lane r c && is_open r && ltb r.seq c.seq) ≡ false
      → (s.seq ≡ c.seq → s ≡ c)
      → is_open (leased r) ≡ true
      → same_lane r s ≡ true
      → is_idle (leased s) ≡ true
  unfolding leased
  leased-waits r s b h u o l = elim (Bool-cases (s.seq == c.seq)) [
    | inl e ↦
        let q : s ≡ c = u ((nat_beq_iff s.seq c.seq).0 e) in
        let l' : same_lane r c ≡ true = rw q at l in ground (arith, b.later, l')
    | inr e ↦ ground (arith, b.waits)
  ]

  leased-IsBehind :
      (r s : Row)
      → IsBehind r s
      → (same_lane r c && is_open r && ltb r.seq c.seq) ≡ false
      → (s.seq ≡ c.seq → s ≡ c)
      → IsBehind (leased r) (leased s)
  leased-IsBehind r s b h u = record {
    later = omega (arith, b.later, g.origin.seq, k.origin.seq);
    other_request = rw (← g.origin.request_id, ← k.origin.request_id) b.other_request;
    other_update =
        rw
          (
            ← g.origin.receiver_kind,
            ← k.origin.receiver_kind,
            ← g.origin.update_id,
            ← k.origin.update_id,
          )
          b.other_update;
    waits = λ o l. leased-waits r s b h u o (rw (g.origin.lane_key, k.origin.lane_key) l);
  }
    where
      g : IsTidy r (leased r)
      g = leased-IsTidy r

      k : IsTidy s (leased s)
      k = leased-IsTidy s

  All-IsBehind-leased :
      (r : Row) (rows : List Row)
      → All (IsBehind r) rows
      → (same_lane r c && is_open r && ltb r.seq c.seq) ≡ false
      → All (λ s. s.seq ≡ c.seq → s ≡ c) rows
      → All
          (IsBehind (leased r))
          (update_where (claims c.seq) (take_lease owner until now clock) rows)
  unfolding leased
  All-IsBehind-leased r [] a h u = tt
  All-IsBehind-leased r (s ∷ rows) a h u =
      (leased-IsBehind r s a.0 h u.0, All-IsBehind-leased r rows a.1 h u.1)

  AllPairs-IsBehind-leased :
      (rows : List Row)
      → AllPairs IsBehind rows
      → All (λ p. (same_lane p c && is_open p && ltb p.seq c.seq) ≡ false) rows
      → All (λ s. s.seq ≡ c.seq → s ≡ c) rows
      → AllPairs IsBehind (update_where (claims c.seq) (take_lease owner until now clock) rows)
  unfolding leased
  AllPairs-IsBehind-leased [] a h u = tt
  AllPairs-IsBehind-leased (r ∷ rows) a h u =
      (All-IsBehind-leased r rows a.0 h.0 u.1, AllPairs-IsBehind-leased rows a.1 h.1 u.1)

  pub leased-IsValid :
      {sp : Spool}
      → IsValid sp
      → IsPicked now sp.rows c
      → IsValid (record sp {
        rows = update_where (claims c.seq) (take_lease owner until now clock) sp.rows;
      })
  unfolding leased
  leased-IsValid {sp} v k = record {
    ordered = AllPairs-IsBehind-leased sp.rows v.ordered k.unobstructed k.unique;
    kept =
        All-IsKept-update_where (claims c.seq) (take_lease owner until now clock) leased-IsTidy
          sp.next_seq sp.cursors sp.rows v.kept;
  }

pub sweep-IsValid : (now : ℕ) {sp : Spool} → IsValid sp → IsValid (sweep now sp)
unfolding sweep
sweep-IsValid now v = expire_holds-IsValid (expire_leases-IsValid v now) now

-- The rollback of `claim` never happens: what it returns is decided by `next_claimable`.
pub claim_row-some :
    (owner : String) (now lease : ℕ) (sp swept : Spool) (r : Row)
    → count (claims r.seq) swept.rows ≡ 1
    → claim_row owner now lease sp swept (some r) ≡ (
      record swept {
        rows =
            update_where
              (claims r.seq)
              (take_lease owner (lease_end now lease) now (retry_clock r))
              swept.rows;
      },
      some (item_of owner (lease_end now lease) r),
    )
unfolding claim_row
claim_row-some owner now lease sp swept r h = rw h

claim_row-IsValid :
    (owner : String) (now lease : ℕ) (sp swept : Spool) (o : Option Row)
    → IsValid swept
    → next_claimable now swept.rows ≡ o
    → IsValid (claim_row owner now lease sp swept o).0
unfolding claim_row
claim_row-IsValid owner now lease sp swept none v e = v
claim_row-IsValid owner now lease sp swept (some r) v e =
    let k = next_claimable-IsPicked now swept.rows v.ordered e in
    rw k.counted (leased-IsValid now owner (lease_end now lease) (retry_clock r) r v k)

pub claim-IsValid :
    (owner : String) (now lease : ℕ) {sp : Spool}
    → IsValid sp
    → IsValid (claim owner now lease sp).0
unfolding claim
claim-IsValid owner now lease {sp} v =
    claim_row-IsValid owner now lease sp (sweep now sp) _ (sweep-IsValid now v) refl
