-- ===== src/Outbox/Bounded.antt =====
-- About the writes of `drain_outbox`.
use herdres.Prelude.{
  Bool, Bool-cases, List, Text, [], ap, arith, false, inl, inr, leb, length, length-append,
  length-drop, ltb, not, refl, suc, take, true, ℕ, ◌&&◌, ◌+◌, ◌-◌, ◌<◌, ◌∙◌, ◌∷◌, ◌≡◌, ◌≤◌,
}
use herdres.Json.Values.{one_of}
use herdres.Outbox.Drain.{
  Notice, Outbox, Report, Sent, ack_counted, after_attempt, attempt, called, delivery, drain_notice,
  drain_notices, drain_outbox, fresh, is_deferred, is_topic_missing, tombstoned, was_sent,
}

-- The writes are counted, and keep to the budget.
abbrev IsBounded : ℕ → Outbox → Type 0
IsBounded limit o = (o.physical_writes ≤ limit) × (length o.sends ≡ o.physical_writes)

attempt-bound :
    (limit : ℕ) (dry_run threaded : Bool) (n : Notice) (writes : ℕ)
    → writes < limit
    → ((attempt limit dry_run threaded n writes).writes ≤ limit)
      × (length (attempt limit dry_run threaded n writes).calls + writes
          ≡ (attempt limit dry_run threaded n writes).writes)
attempt-bound limit true threaded n writes h = (omega arith, omega arith)
attempt-bound limit false threaded n writes h =
    elim (Bool-cases (
      not (was_sent n.first_write)
      && threaded
      && is_topic_missing n.first_write
      && ltb (suc writes) limit)) [
        | inl e ↦ rw (attempt, e) (ground arith, omega arith)
        | inr e ↦ rw (attempt, e) (omega arith, omega arith)
      ]

IsBounded-ack_counted :
    (limit : ℕ) (dry_run : Bool) (n : Notice) (r : Report) (o : Outbox) (b : Bool)
    → IsBounded limit o
    → IsBounded limit (ack_counted dry_run n r o b)
IsBounded-ack_counted limit dry_run n r o true h = h
IsBounded-ack_counted limit dry_run n r o false h = h

IsBounded-after_attempt :
    (limit : ℕ) (dry_run : Bool) (n : Notice) (o : Outbox) (sent : Sent)
    → IsBounded limit o
    → IsBounded limit (after_attempt dry_run n o sent)
IsBounded-after_attempt limit dry_run n o sent h = elim (Bool-cases (was_sent sent)) [
  | inl e ↦
      rw (IsBounded, after_attempt, e)
        (IsBounded-ack_counted limit dry_run n Report.delivered (delivery n o)
          (is_deferred dry_run n) h)
  | inr e ↦ rw (IsBounded, after_attempt, e) h
]

drain_notice-bound :
    (limit : ℕ) (dry_run threaded : Bool) (n : Notice) (o : Outbox)
    → o.physical_writes < limit
    → IsBounded limit o
    → IsBounded limit (drain_notice limit dry_run threaded n o)
drain_notice-bound limit dry_run threaded n o h k =
    elim (Bool-cases (one_of n.identity o.delivered_set)) [
      | inl e ↦
          rw (IsBounded, drain_notice, e)
            (IsBounded-ack_counted limit dry_run n Report.duplicate o (is_deferred dry_run n) k)
      | inr e ↦
          let m = attempt limit dry_run threaded n o.physical_writes in
          let b = attempt-bound limit dry_run threaded n o.physical_writes h in
          rw (IsBounded, drain_notice, e)
            (IsBounded-after_attempt limit dry_run n (called m (tombstoned dry_run threaded n o))
              m.sent (b.0, length-append m.calls o.sends ∙ ap (λ x. length m.calls + x) k.1 ∙ b.1))
    ]

drain_notices-bound :
    (limit : ℕ) (dry_run threaded : Bool) (notices : List Notice) (o : Outbox)
    → IsBounded limit o
    → IsBounded limit (drain_notices limit dry_run threaded notices o)
unfolding drain_notices
drain_notices-bound limit dry_run threaded [] o h = h
drain_notices-bound limit dry_run threaded (n ∷ notices) o h =
    elim (Bool-cases (leb limit o.physical_writes)) [
      | inl e ↦ rw (IsBounded, drain_notices, e) h
      | inr e ↦
          rw (IsBounded, drain_notices, e)
            (drain_notices-bound limit dry_run threaded notices
              (drain_notice limit dry_run threaded n o)
              (drain_notice-bound limit dry_run threaded n o (ground arith) h))
    ]

-- A drain that has a budget calls `send_message` `limit` times at most, the second write of a notice
-- whose topic is missing included, and counts the calls rightly; it leaves a ledger of 200
-- identities at most.
pub drain_outbox-bound :
    (limit : ℕ) (dry_run threaded : Bool) (notices : List Notice) (ledger : List Text)
    (recent : List Notice)
    → 0 < limit
    → ((drain_outbox limit dry_run threaded notices ledger recent).physical_writes ≤ limit)
      × (length (drain_outbox limit dry_run threaded notices ledger recent).sends
          ≡ (drain_outbox limit dry_run threaded notices ledger recent).physical_writes)
      × (length (drain_outbox limit dry_run threaded notices ledger recent).ledger ≤ 200)
unfolding drain_outbox
drain_outbox-bound limit dry_run threaded notices ledger recent p =
    let e : leb limit 0 ≡ false = ground arith in
    let o = drain_notices limit dry_run threaded (take limit notices) (fresh ledger recent) in
    let b =
      drain_notices-bound limit dry_run threaded (take limit notices) (fresh ledger recent)
        (omega arith, refl) in
    rw e (
      b.0,
      b.1,
      (let l = length-drop (length o.ledger - 200) o.ledger (omega arith) in omega arith),
    )
