-- ===== src/Lanes/Quiet.antt =====
-- A lease while the other threads and processes, and its own heartbeat, work on the spool.
use herdres.Prelude.{
  All, All-map, AllPairs, Bool, Bool-cases, List, String, [], ap, arith, count, eq_iff, false,
  holds, if◌then◌else◌, inl, inr, leb, max, nat_beq_iff, nat_eq, refl, some, string_eq, subst, sym,
  text_eq, true, update_where, ℕ, ◌&&◌, ◌++◌, ◌+◌, ◌<◌, ◌==◌, ◌∙◌, ◌∷◌, ◌≡◌,
}
use herdres.Lanes.Calls.{Call, blocks, claims_head, finishes, reclaims, renews, retries}
use herdres.Lanes.Claim.{lease_lapsed}
use herdres.Lanes.Holders.{row_at, row_at-update_where}
use herdres.Lanes.Leases.{leased_by}
use herdres.Lanes.Rewrites.{IsBehind, rewritten}
use herdres.Lanes.Rows.{Row, is_blocked, is_pending, is_processing, processing}

-- When the lease of row `n` ends behind a call.
abbrev pub end_after : ℕ → String → ℕ → Call → ℕ
end_after n owner until (renews seq who lease now) =
    if (seq == n) && (who == owner) then now + max 100 lease else until
end_after n owner until _ = until

-- The calls that others may make while `owner` holds row `n` until `until`, and the heartbeat of
-- `owner`: a claim comes before the lease ends, the spool is not opened anew, and nobody else
-- settles the row in the name of `owner`.
abbrev pub IsQuiet : ℕ → String → ℕ → Call → Type 0
IsQuiet n owner until (claims_head who now lease) = now < until
IsQuiet n owner until (reclaims now) = ⊥
IsQuiet n owner until (finishes seq who now notify) = ((seq == n) && (who == owner)) ≡ false
IsQuiet n owner until (blocks seq who now span) = ((seq == n) && (who == owner)) ≡ false
IsQuiet n owner until (retries seq who backoff now) = ((seq == n) && (who == owner)) ≡ false
IsQuiet n owner until _ = Unit

abbrev pub AllQuiet : ℕ → String → ℕ → List Call → Type 0
AllQuiet n owner until [] = Unit
AllQuiet n owner until (c ∷ cs) =
    IsQuiet n owner until c × AllQuiet n owner (end_after n owner until c) cs

-- A row that is leased until `until`, and is `base` as to its attempts and its deadline.
pub record IsLeased (n : ℕ) (owner : String) (until : ℕ) (base r : Row) : Type 0 where
  pub number : (r.seq == n) ≡ true
  pub in_work : r.state ≡ processing
  pub by_owner : r.lease_owner ≡ some owner
  pub ends : r.lease_until ≡ some until
  pub same_attempts : r.attempts ≡ base.attempts
  pub same_deadline : r.deadline_at ≡ base.deadline_at

pub record KeepsLease (n : ℕ) (owner : String) (until : ℕ) (base : Row) (rows : List Row)
    : Type 0 where
  pub row : Row
  pub stored : row_at n rows ≡ some row
  pub leased : IsLeased n owner until base row

-- An UPDATE leaves the lease, if it passes over the row, or moves its end.
pub KeepsLease-update_where :
    (n : ℕ) (owner : String) (until later : ℕ) (base : Row) (p : Row → Bool) (f : Row → Row)
    → ((r : Row) → (f r).seq ≡ r.seq)
    → ((r : Row) → IsLeased n owner until base r → IsLeased n owner later base (rewritten p f r))
    → (rows : List Row) → KeepsLease n owner until base rows
    → KeepsLease n owner later base (update_where p f rows)
KeepsLease-update_where n owner until later base p f keeps moves rows h = record {
  row = rewritten p f h.row;
  stored = row_at-update_where n p f keeps rows h.stored;
  leased = moves h.row h.leased;
}

pub KeepsLease-passed :
    (n : ℕ) (owner : String) (until : ℕ) (base : Row) (p : Row → Bool) (f : Row → Row)
    → ((r : Row) → (f r).seq ≡ r.seq)
    → ((r : Row) → IsLeased n owner until base r → p r ≡ false)
    → (rows : List Row) → KeepsLease n owner until base rows
    → KeepsLease n owner until base (update_where p f rows)
KeepsLease-passed n owner until base p f keeps other rows h =
    KeepsLease-update_where n owner until until base p f keeps
      (λ r l. subst (IsLeased n owner until base) (sym (passed r (other r l))) l) rows h
  where
    passed : (r : Row) → p r ≡ false → rewritten p f r ≡ r
    passed r e = rw e refl

pub row_at-append :
    (n : ℕ) (rows : List Row) (x : Row) {r : Row}
    → row_at n rows ≡ some r
    → row_at n (rows ++ x ∷ []) ≡ some r
row_at-append n [] x e = cc
row_at-append n (y ∷ rows) x e = elim (Bool-cases (y.seq == n)) [
  | inl h ↦ rw h (rw h at e)
  | inr h ↦ rw h (row_at-append n rows x (rw h at e))
]

pub not_pending :
    (n : ℕ) (owner : String) (until : ℕ) (base r : Row)
    → IsLeased n owner until base r
    → is_pending r.state ≡ false
not_pending n owner until base r l = ap is_pending l.in_work

pub not_blocked :
    (n : ℕ) (owner : String) (until : ℕ) (base r : Row)
    → IsLeased n owner until base r
    → is_blocked r.state ≡ false
not_blocked n owner until base r l = ap is_blocked l.in_work

pub not_lapsed :
    (n : ℕ) (owner : String) (until now : ℕ) (base r : Row)
    → now < until
    → IsLeased n owner until base r
    → lease_lapsed now r ≡ false
not_lapsed n owner until now base r h l =
    let e : holds (λ u. leb u now) r.lease_until ≡ leb until now =
      ap (holds (λ u. leb u now)) l.ends in
    ground (arith, e)

-- Who settles another row, or as another, does not meet it.
pub not_theirs :
    (n seq : ℕ) (owner who : String) (until : ℕ) (base r : Row)
    → ((seq == n) && (who == owner)) ≡ false
    → IsLeased n owner until base r
    → leased_by seq who r ≡ false
not_theirs n seq owner who until base r h l =
    let q : r.seq ≡ n = (nat_beq_iff r.seq n).0 l.number in
    let e : holds (λ o. o == who) r.lease_owner ≡ (owner == who) =
      ap (holds (λ o. o == who)) l.by_owner in
    ground (arith, q, e, eq_iff owner who, eq_iff who owner, h)

pub theirs :
    (n seq : ℕ) (owner who : String) (until : ℕ) (base r : Row)
    → ((seq == n) && (who == owner)) ≡ true
    → IsLeased n owner until base r
    → leased_by seq who r ≡ true
theirs n seq owner who until base r h l =
    let q : r.seq ≡ n = (nat_beq_iff r.seq n).0 l.number in
    let e : holds (λ o. o == who) r.lease_owner ≡ (owner == who) =
      ap (holds (λ o. o == who)) l.by_owner in
    let w : is_processing r.state ≡ true = ap is_processing l.in_work in
    ground (arith, q, e, w, eq_iff owner who, eq_iff who owner, h)

-- Only one row is leased under a number.
later_not_leased :
    (n : ℕ) (owner : String) (rows : List Row)
    → All (λ s. n < s.seq) rows
    → count (leased_by n owner) rows ≡ 0
later_not_leased n owner [] a = refl
later_not_leased n owner (x ∷ rows) a = ground (arith, later_not_leased n owner rows a.1)

pub count_leased :
    (n : ℕ) (owner : String) (rows : List Row)
    → AllPairs IsBehind rows
    → {r : Row} → row_at n rows ≡ some r
    → leased_by n owner r ≡ true
    → count (leased_by n owner) rows ≡ 1
count_leased n owner [] v e h = cc
count_leased n owner (x ∷ rows) v {r} e h = elim (Bool-cases (x.seq == n)) [
  | inl k ↦
      let q : x ≡ r = cc (rw k at e) in
      let m : leased_by n owner x ≡ true = ap (leased_by n owner) q ∙ h in
      let i : x.seq ≡ n = (nat_beq_iff x.seq n).0 k in
      rw
        (
          m,
          later_not_leased n owner rows
              (All-map (IsBehind x) _ (λ s b. omega (arith, b.later, i)) rows v.0),
        )
        refl
  | inr k ↦
      let m : leased_by n owner x ≡ false = ground (arith, k) in
      rw (m, count_leased n owner rows v.1 (rw k at e) h) refl
]
