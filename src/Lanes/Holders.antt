-- ===== src/Lanes/Holders.antt =====
-- A dispatcher's last word on a lease: who may speak it, and what it leaves.
use text.Mathlib.TextPositions.{eq_refl}
use herdres.Prelude.{
  All, All-map, Bool, Bool-cases, List, Option, String, [], ap, arith, count, eq_iff, false, find,
  holds, inl, inr, is_some, nat_eq, none, not-true, refl, some, string_eq, text_eq, true,
  update_where, ℕ, ◌+◌, ◌==◌, ◌∷◌, ◌≡◌, ◌≤◌,
}
use herdres.Lanes.Leases.{
  blocked_row, claim_notification, finished_row, leased_by, mark_blocked, mark_done,
  move_notification, notified_as, notified_row, renew_lease, renewed_row, retry, update_one,
}
use herdres.Lanes.Rewrites.{rewritten}
use herdres.Lanes.Rows.{LaneState, Row, Spool, blocked, is_processing, processing}

-- The first row with number `seq`.
abbrev pub row_at : ℕ → List Row → Option Row
row_at seq = find (λ r. r.seq == seq)

rewritten-seq :
    (p : Row → Bool) (f : Row → Row)
    → ((r : Row) → (f r).seq ≡ r.seq)
    → (r : Row) → (rewritten p f r).seq ≡ r.seq
rewritten-seq p f keeps r = ground (arith, keeps r)

pub row_at-update_where :
    (seq : ℕ) (p : Row → Bool) (f : Row → Row)
    → ((r : Row) → (f r).seq ≡ r.seq)
    → (rows : List Row) → {r : Row} → row_at seq rows ≡ some r
    → row_at seq (update_where p f rows) ≡ some (rewritten p f r)
row_at-update_where seq p f keeps [] e = cc
row_at-update_where seq p f keeps (x ∷ rows) {r} e = elim (Bool-cases (x.seq == seq)) [
  | inl h ↦
      let q : x ≡ r = cc (rw h at e) in
      rw (rewritten-seq p f keeps x, h) (ap (λ (t : Row). some (rewritten p f t)) q)
  | inr h ↦ rw (rewritten-seq p f keeps x, h) (row_at-update_where seq p f keeps rows (rw h at e))
]

pub row_at-find :
    (seq : ℕ) (p : Row → Bool) (rows : List Row)
    → {r : Row} → row_at seq rows ≡ some r
    → p r ≡ true
    → is_some (find p rows) ≡ true
row_at-find seq p [] e h = cc
row_at-find seq p (x ∷ rows) {r} e h = elim (Bool-cases (p x)) [
  | inl t ↦ rw t
  | inr t ↦ elim (Bool-cases (x.seq == seq)) [
    | inl k ↦ let q : x ≡ r = cc (rw k at e) in cc (t, h, ap p q)
    | inr k ↦ rw t (row_at-find seq p rows (rw k at e) h)
  ]
]

-- Statements that require a lease leave alone every row that the caller does not hold.
not_held :
    (n : ℕ) (owner : String) (f : Row → Row) (rows : List Row)
    → All (λ r. leased_by n owner r ≡ false) rows
    → update_where (leased_by n owner) f rows ≡ rows
not_held n owner f [] a = refl
not_held n owner f (r ∷ rows) a = rw (a.0, not_held n owner f rows a.1)

count_not_held : (p : Row → Bool) (rows : List Row) → All (λ r. p r ≡ false) rows → count p rows ≡ 0
count_not_held p [] a = refl
count_not_held p (r ∷ rows) a = rw (a.0, count_not_held p rows a.1)

find_not_held :
    (p : Row → Bool) (rows : List Row) → All (λ r. p r ≡ false) rows → find p rows ≡ none
find_not_held p [] a = refl
find_not_held p (r ∷ rows) a = rw (a.0, find_not_held p rows a.1)

-- Whether `owner` holds the lease of row `n`.
abbrev pub Holds : ℕ → String → Row → Type 0
Holds n owner r = (r.seq ≡ n) × (r.state ≡ processing) × (r.lease_owner ≡ some owner)

is_processing-eq : (s : LaneState) → is_processing s ≡ true → s ≡ processing
is_processing-eq s h = ground (arith, h)

holds-owner :
    (o : Option String) (owner : String) → holds (λ x. x == owner) o ≡ true → o ≡ some owner
holds-owner none owner h = cc
holds-owner (some x) owner h = ap some ((eq_iff x owner).0 h)

leased_by-Holds : (n : ℕ) (owner : String) (r : Row) → leased_by n owner r ≡ true → Holds n owner r
leased_by-Holds n owner r h = (
  ground arith,
  is_processing-eq r.state (ground arith),
  holds-owner r.lease_owner owner (ground arith),
)

not_leased :
    (n : ℕ) (owner : String) (rows : List Row)
    → All (λ r. ¬ Holds n owner r) rows
    → All (λ r. leased_by n owner r ≡ false) rows
not_leased n owner rows a =
    All-map (λ r. ¬ Holds n owner r) _
      (λ r k. not-true (leased_by n owner r) (λ h. k (leased_by-Holds n owner r h))) rows a

-- If no row with the number `n` is processing and leased to the caller, then `mark_done`,
-- `mark_blocked`, `renew_lease` and `retry` by that caller leave the spool as it is and answer
-- `False`.
pub not_held_unchanged :
    (sp : Spool) (n : ℕ) (owner : String) (now span : ℕ) (notify : Option String)
    → All (λ r. ¬ Holds n owner r) sp.rows
    → (mark_done n owner now notify sp ≡ (sp, false))
      × (mark_blocked n owner now span sp ≡ (sp, false))
      × (renew_lease n owner span now sp ≡ (sp, false))
      × (retry n owner span now sp ≡ (sp, false))
unfolding mark_done mark_blocked renew_lease retry update_one
not_held_unchanged sp n owner now span notify k =
    let a = not_leased n owner sp.rows k in
    let same = λ (f : Row → Row). not_held n owner f sp.rows a in
    let counted = count_not_held (leased_by n owner) sp.rows a in
    let missing = find_not_held (leased_by n owner) sp.rows a in
    (
      rw (same (finished_row now notify), counted),
      rw (same (blocked_row now span), counted),
      rw (same (renewed_row span now), counted),
      rw missing,
    )

-- `mark_blocked` by the holder holds the row until the end of the hold or its deadline, and lets
-- the lease go.
pub mark_blocked_lem :
    (sp : Spool) (r : Row) (owner : String) (now span : ℕ)
    → row_at r.seq sp.rows ≡ some r
    → r.state ≡ processing
    → r.lease_owner ≡ some owner
    → let sp' = (mark_blocked r.seq owner now span sp).0 in
      (s : Row) × (row_at r.seq sp'.rows ≡ some s)
      × (s.state ≡ blocked)
      × (s.lease_owner ≡ none)
      × (s.attempts ≡ r.attempts)
      × (s.next_attempt_at ≤ now + span)
      × (s.next_attempt_at ≤ r.deadline_at)
unfolding mark_blocked update_one
mark_blocked_lem sp r owner now span e p o =
    let held : leased_by r.seq owner r ≡ true = ground (arith, eq_refl owner) in
    (
      blocked_row now span r,
      rw (
        row_at-update_where r.seq (leased_by r.seq owner) (blocked_row now span) (λ t. refl) sp.rows
            e,
        held,
      ),
      refl,
      refl,
      refl,
      omega arith,
      omega arith,
    )

count_notified :
    (n now : ℕ) (rows : List Row)
    → count
        (notified_as "pending" n)
        (update_where (notified_as "pending" n) (notified_row "claimed" now) rows)
      ≡ 0
count_notified n now [] = refl
count_notified n now (r ∷ rows) = elim (Bool-cases (notified_as "pending" n r)) [
  | inl h ↦ rw h (ground (arith, count_notified n now rows))
  | inr h ↦ rw (h, h) (count_notified n now rows)
]

-- The one permitted notification of a row is claimed once: a second claim of it fails.
pub claim_notification-claim_notification :
    (n now later : ℕ) (sp : Spool)
    → (claim_notification n later (claim_notification n now sp).0).1 ≡ false
unfolding claim_notification move_notification update_one
claim_notification-claim_notification n now later sp = rw (count_notified n now sp.rows)
