-- ===== src/Lanes/Backoff.antt =====
-- `retry`: how long a row waits before its next attempt.
use native.Mathlib.Nat.{pow-suc}
use native.Mathlib.Decide.{dec_lt}
use text.Mathlib.TextPositions.{eq_refl}
use herdres.Prelude.{
  String, arith, is_some, min, none, refl, some, suc, true, zero, ℕ, ◌*◌, ◌+◌, ◌-◌, ◌^◌, ◌≡◌, ◌≤◌,
}
use herdres.Lanes.Holders.{row_at, row_at-find, row_at-update_where}
use herdres.Lanes.Leases.{leased_by, retry, retry_delay, retry_row}
use herdres.Lanes.Rows.{Row, Spool, pending, processing}

pow_le_suc : (k : ℕ) → 2 ^ k ≤ 2 ^ suc k
pow_le_suc k = rw (pow-suc 2 k) (omega arith)

pow_min_mono : (n : ℕ) → 2 ^ min (n - 1) 16 ≤ 2 ^ min (n + 1 - 1) 16
pow_min_mono zero = omega arith
pow_min_mono (suc n) = elim (dec_lt n 16) [
  | yes h ↦
      let a : min (suc n - 1) 16 ≡ n = omega arith in
      let b : min (suc n + 1 - 1) 16 ≡ suc n = omega arith in rw (a, b) (pow_le_suc n)
  | no h ↦
      let a : min (suc n - 1) 16 ≡ 16 = omega arith in
      let b : min (suc n + 1 - 1) 16 ≡ 16 = omega arith in rw (a, b) (omega arith)
]

mul_mono : (c a b : ℕ) → a ≤ b → c * a ≤ c * b
mul_mono c a b h = grind arith

-- The wait before attempt number `attempts + 1`: it doubles from `backoff` and stops at five
-- minutes.
pub retry_delay_bounds :
    (backoff attempts : ℕ)
    → (retry_delay backoff 1 ≡ min 300000 backoff)
      × (retry_delay backoff attempts ≤ 300000)
      × (retry_delay backoff attempts ≤ retry_delay backoff (attempts + 1))
unfolding retry_delay
retry_delay_bounds backoff attempts =
    (omega arith, omega arith, omega (arith, mul_mono backoff _ _ (pow_min_mono attempts)))

-- After a retry by its holder a row is pending and free, one attempt further, due after the wait or
-- at its deadline, whichever is sooner, and its retry clock runs.
pub retry_lem :
    (sp : Spool) (r : Row) (owner : String) (backoff now : ℕ)
    → row_at r.seq sp.rows ≡ some r
    → r.state ≡ processing
    → r.lease_owner ≡ some owner
    → let sp' = (retry r.seq owner backoff now sp).0 in
      (s : Row) × (row_at r.seq sp'.rows ≡ some s)
      × (s.state ≡ pending)
      × (s.lease_owner ≡ none)
      × (s.attempts ≡ r.attempts + 1)
      × (s.next_attempt_at ≡ min (now + retry_delay backoff (r.attempts + 1)) r.deadline_at)
      × (is_some s.retry_obstructed_since ≡ true)
unfolding retry retry_row
retry_lem sp r owner backoff now e p o =
    let held : leased_by r.seq owner r ≡ true = ground (arith, eq_refl owner) in
    let found = row_at-find r.seq (leased_by r.seq owner) sp.rows e held in
    let after =
      row_at-update_where r.seq (leased_by r.seq owner) (retry_row backoff now) (λ t. refl) sp.rows
        e in
    (retry_row backoff now r, rw (found, after, held), refl, refl, refl, refl, ground arith)
