-- ===== src/Outbox/Acknowledged.antt =====
-- About what `drain_outbox` reports to Tendwire.
use herdres.Prelude.{
  All, All-map, Bool, Bool-cases, List, Text, [], ap, false, if◌then◌else◌, inl, inr, leb, refl,
  same_text_refl, subst, take, true, ℕ, ◌++◌, ◌||◌, ◌∷◌, ◌≡◌,
}
use herdres.Json.Values.{one_of}
use herdres.Outbox.Drain.{
  Notice, Outbox, Report, Sent, ack_counted, after_attempt, attempt, called, delivery, drain_notice,
  drain_notices, drain_outbox, fresh, is_deferred, tombstoned, was_sent, with_report,
}
use herdres.Outbox.Once.{accepted_ids, attempt-accepted_ids, one_of-skip}

abbrev is_failure : Report → Bool
is_failure Report.failure = true
is_failure _ = false

abbrev pub IsBacked : List Text → Text × Report → Type 0
IsBacked seen p = (is_failure p.1 || one_of p.0 seen) ≡ true

-- What is known is what Telegram has accepted and the ledger; nothing else is acknowledged.
abbrev Backed : List Text → Outbox → Type 0
Backed ledger o =
    (o.delivered_set ≡ accepted_ids o.sends ++ ledger) × All (IsBacked o.delivered_set) o.reports

IsBacked-skip :
    (i : Text) (seen : List Text) (p : Text × Report) → IsBacked seen p → IsBacked (i ∷ seen) p
IsBacked-skip i seen (j, Report.failure) h = refl
IsBacked-skip i seen (j, Report.delivered) h = one_of-skip j i seen h
IsBacked-skip i seen (j, Report.duplicate) h = one_of-skip j i seen h

IsBacked-with_report :
    (n : Notice) (r : Report) (o : Outbox)
    → IsBacked o.delivered_set (n.identity, r)
    → All (IsBacked o.delivered_set) o.reports
    → All (IsBacked o.delivered_set) (with_report false n r o)
IsBacked-with_report n r o h a = elim (Bool-cases n.has_ref) [
  | inl e ↦ rw (with_report, e) (h, a)
  | inr e ↦ rw (with_report, e) a
]

Backed-ack_counted :
    (ledger : List Text) (n : Notice) (r : Report) (o : Outbox) (b : Bool)
    → IsBacked o.delivered_set (n.identity, r)
    → Backed ledger o
    → Backed ledger (ack_counted false n r o b)
Backed-ack_counted ledger n r o true h k = (k.0, IsBacked-with_report n r o h k.1)
Backed-ack_counted ledger n r o false h k = (k.0, IsBacked-with_report n r o h k.1)

-- `w` is what was accepted before.
Backed-after_attempt :
    (ledger w : List Text) (n : Notice) (o : Outbox) (sent : Sent)
    → o.delivered_set ≡ w ++ ledger
    → All (IsBacked o.delivered_set) o.reports
    → accepted_ids o.sends ≡ (if was_sent sent then n.identity ∷ w else w)
    → Backed ledger (after_attempt false n o sent)
Backed-after_attempt ledger w n o sent k r e = elim (Bool-cases (was_sent sent)) [
  | inl a ↦
      let q : accepted_ids o.sends ≡ n.identity ∷ w = rw a at e in
      rw (Backed, after_attempt, a)
        (Backed-ack_counted ledger n Report.delivered (delivery n o) (is_deferred false n)
          (rw (same_text_refl n.identity) refl)
          (
            rw q (ap (λ xs. n.identity ∷ xs) k),
            All-map (IsBacked o.delivered_set) (IsBacked (n.identity ∷ o.delivered_set))
                (IsBacked-skip n.identity o.delivered_set) o.reports r,
          ))
  | inr a ↦
      let q : accepted_ids o.sends ≡ w = rw a at e in
      rw (Backed, after_attempt, a) (rw q k, IsBacked-with_report n Report.failure o refl r)
]

Backed-drain_notice :
    (ledger : List Text) (limit : ℕ) (threaded : Bool) (n : Notice) (o : Outbox)
    → Backed ledger o
    → Backed ledger (drain_notice limit false threaded n o)
Backed-drain_notice ledger limit threaded n o k =
    elim (Bool-cases (one_of n.identity o.delivered_set)) [
      | inl e ↦
          rw (Backed, drain_notice, e)
            (Backed-ack_counted ledger n Report.duplicate o (is_deferred false n) e k)
      | inr e ↦
          let m = attempt limit false threaded n o.physical_writes in
          rw (Backed, drain_notice, e)
            (Backed-after_attempt ledger (accepted_ids o.sends) n
              (called m (tombstoned false threaded n o)) m.sent k.0 k.1
              (attempt-accepted_ids limit false threaded n o.physical_writes o.sends))
    ]

Backed-drain_notices :
    (ledger : List Text) (limit : ℕ) (threaded : Bool) (notices : List Notice) (o : Outbox)
    → Backed ledger o
    → Backed ledger (drain_notices limit false threaded notices o)
unfolding drain_notices
Backed-drain_notices ledger limit threaded [] o k = k
Backed-drain_notices ledger limit threaded (n ∷ notices) o k =
    elim (Bool-cases (leb limit o.physical_writes)) [
      | inl e ↦ rw (Backed, drain_notices, e) k
      | inr e ↦
          rw (Backed, drain_notices, e)
            (Backed-drain_notices ledger limit threaded notices
              (drain_notice limit false threaded n o)
              (Backed-drain_notice ledger limit threaded n o k))
    ]

-- A drain that is not a dry run acknowledges a notice to Tendwire only if Telegram has answered a
-- call of `send_message` for it with success in this drain, or the ledger held it before; every
-- other report is of a failure.
pub drain_outbox-acknowledged :
    (limit : ℕ) (threaded : Bool) (notices : List Notice) (ledger : List Text)
    (recent : List Notice)
    → All
        (IsBacked
          (accepted_ids (drain_outbox limit false threaded notices ledger recent).sends ++ ledger))
        (drain_outbox limit false threaded notices ledger recent).reports
unfolding drain_outbox
drain_outbox-acknowledged limit threaded notices ledger recent = elim (Bool-cases (leb limit 0)) [
  | inl e ↦ rw e tt
  | inr e ↦
      let k =
        Backed-drain_notices ledger limit threaded (take limit notices) (fresh ledger recent)
          (refl, tt) in
      let o = drain_notices limit false threaded (take limit notices) (fresh ledger recent) in
      rw e (subst (λ seen. All (IsBacked seen) o.reports) k.0 k.1)
]
