-- ===== src/Lanes/Picked.antt =====
-- The row that `next_claimable` picks.
use herdres.Prelude.{
  All, All-any, All-find, All-map, AllPairs, Bool, Bool-cases, List, [], ap, arith, count, false,
  find, find_lem, inl, inr, leb, ltb, refl, some, true, ℕ, ◌&&◌, ◌<◌, ◌∷◌, ◌≡◌,
}
use herdres.Lanes.Claim.{claims, is_claimable, next_claimable}
use herdres.Lanes.Rewrites.{IsBehind}
use herdres.Lanes.Rows.{Row, is_open, is_pending, same_lane}

-- What `next_claimable` tells of the row `r` that it picks from `rows`.
pub record IsPicked (now : ℕ) (rows : List Row) (r : Row) : Type 0 where
  pub waiting : is_pending r.state ≡ true
  pub due : leb r.next_attempt_at now ≡ true
  pub unobstructed : All (λ p. (same_lane p r && is_open p && ltb p.seq r.seq) ≡ false) rows
  pub unique : All (λ p. p.seq ≡ r.seq → p ≡ r) rows
  pub counted : count (claims r.seq) rows ≡ 1

unique_later :
    {r : Row} (x : Row) (rows : List Row)
    → x.seq < r.seq
    → All (λ p. p.seq ≡ r.seq → p ≡ r) rows
    → All (λ p. p.seq ≡ r.seq → p ≡ r) (x ∷ rows)
unique_later x rows h a = ((λ e. absurd (omega arith)), a)

find_unique :
    (p : Row → Bool) (rows : List Row) {r : Row}
    → AllPairs IsBehind rows
    → find p rows ≡ some r
    → All (λ s. s.seq ≡ r.seq → s ≡ r) rows
find_unique p [] v e = tt
find_unique p (x ∷ rows) {r} v e = elim (Bool-cases (p x)) [
  | inl h ↦
      let q : x ≡ r = cc (rw h at e) in
      (
        (λ _. q),
        All-map (IsBehind x) _ (λ s b i. absurd (omega (arith, b.later, ap (λ (t : Row). t.seq) q)))
            rows v.0,
      )
  | inr h ↦
      unique_later x rows (All-find (IsBehind x) p rows v.0 (rw h at e)).later
        (find_unique p rows v.1 (rw h at e))
]

count_none : (seq : ℕ) (rows : List Row) → All (λ s. seq < s.seq) rows → count (claims seq) rows ≡ 0
count_none seq [] a = refl
count_none seq (x ∷ rows) a = ground (arith, count_none seq rows a.1)

find-count :
    (p : Row → Bool) (rows : List Row) {r : Row}
    → AllPairs IsBehind rows
    → find p rows ≡ some r
    → is_pending r.state ≡ true
    → count (claims r.seq) rows ≡ 1
find-count p [] v e w = cc
find-count p (x ∷ rows) {r} v e w = elim (Bool-cases (p x)) [
  | inl h ↦
      let q : x ≡ r = cc (rw h at e) in
      ground (
        arith,
        q,
        count_none r.seq rows (
            All-map (IsBehind x) _ (λ s b. omega (arith, b.later, ap (λ (t : Row). t.seq) q)) rows
              v.0),
      )
  | inr h ↦ ground (
    arith,
    (All-find (IsBehind x) p rows v.0 (rw h at e)).later,
    find-count p rows v.1 (rw h at e) w,
  )
]

pub next_claimable-IsPicked :
    (now : ℕ) (rows : List Row) {r : Row}
    → AllPairs IsBehind rows
    → next_claimable now rows ≡ some r
    → IsPicked now rows r
unfolding next_claimable
next_claimable-IsPicked now rows {r} v e =
    let ok : is_claimable now rows r ≡ true = find_lem (is_claimable now rows) rows e in
    record {
      waiting = ground arith;
      due = ground arith;
      unobstructed = All-any _ rows (ground arith);
      unique = find_unique (is_claimable now rows) rows v e;
      counted = find-count (is_claimable now rows) rows v e (ground arith);
    }
