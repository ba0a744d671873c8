-- ===== src/Outbox/Once.antt =====
-- About the notices that `drain_outbox` delivers.
use herdres.Prelude.{
  All, All-map, AllPairs, Bool, Bool-cases, List, Text, [], ap, arith, false, if◌then◌else◌, inl,
  inr, leb, ltb, not, not-true, refl, same_text_refl, suc, take, true, ℕ, ◌&&◌, ◌++◌, ◌∙◌, ◌∷◌, ◌≡◌,
}
use herdres.Json.Values.{one_of}
use herdres.Outbox.Drain.{
  Notice, Outbox, Report, Sent, ack_counted, after_attempt, attempt, called, delivery, drain_notice,
  drain_notices, drain_outbox, fresh, is_deferred, is_topic_missing, tombstoned, was_sent,
}

-- No identity is written twice, nor one that the ledger had; all that are written are known.
record IsOnce (ledger written seen : List Text) : Type 0 where
  distinct : AllPairs (λ i j. ¬ (i ≡ j)) written
  unseen : All (λ i. one_of i ledger ≡ false) written
  remembered : All (λ i. one_of i seen ≡ true) written
  carried : (i : Text) → one_of i ledger ≡ true → one_of i seen ≡ true

pub one_of-skip : (i j : Text) (xs : List Text) → one_of i xs ≡ true → one_of i (j ∷ xs) ≡ true
one_of-skip i j xs h = ground (arith, h)

not_among :
    (i : Text) (seen written : List Text)
    → one_of i seen ≡ false
    → All (λ j. one_of j seen ≡ true) written
    → All (λ j. ¬ (i ≡ j)) written
not_among i seen written h a =
    All-map (λ j. one_of j seen ≡ true) (λ j. ¬ (i ≡ j))
      (λ j k e. cc (h, k, ap (λ x. one_of x seen) e)) written a

IsOnce-write :
    (i : Text) (ledger written seen : List Text)
    → one_of i seen ≡ false
    → IsOnce ledger written seen
    → IsOnce ledger (i ∷ written) (i ∷ seen)
IsOnce-write i ledger written seen h o = record {
  distinct = (not_among i seen written h o.remembered, o.distinct);
  unseen = (not-true (one_of i ledger) (λ k. cc (o.carried i k, h)), o.unseen);
  remembered = (
    rw (same_text_refl i) refl,
    All-map (λ j. one_of j seen ≡ true) (λ j. one_of j (i ∷ seen) ≡ true)
        (λ j k. one_of-skip j i seen k) written o.remembered,
  );
  carried = λ j k. one_of-skip j i seen (o.carried j k);
}

IsOnce-skip :
    (i : Text) (ledger written seen : List Text)
    → IsOnce ledger written seen
    → IsOnce ledger written (i ∷ seen)
IsOnce-skip i ledger written seen o = record {
  distinct = o.distinct;
  unseen = o.unseen;
  remembered =
      All-map (λ j. one_of j seen ≡ true) (λ j. one_of j (i ∷ seen) ≡ true)
        (λ j k. one_of-skip j i seen k) written o.remembered;
  carried = λ j k. one_of-skip j i seen (o.carried j k);
}

-- The identities of the calls of `send_message` that Telegram answered with success.
abbrev pub accepted_ids : List (Text × Sent) → List Text
accepted_ids [] = []
accepted_ids ((i, Sent.accepted) ∷ calls) = i ∷ accepted_ids calls
accepted_ids ((i, Sent.topic_missing) ∷ calls) = accepted_ids calls
accepted_ids ((i, Sent.rejected) ∷ calls) = accepted_ids calls

-- `was_sent` reads the answer.
accepted_ids-cons :
    (i : Text) (sent : Sent) (calls : List (Text × Sent))
    → accepted_ids ((i, sent) ∷ calls)
      ≡ (if was_sent sent then i ∷ accepted_ids calls else accepted_ids calls)
accepted_ids-cons i Sent.accepted calls = refl
accepted_ids-cons i Sent.topic_missing calls = refl
accepted_ids-cons i Sent.rejected calls = refl

-- What an attempt adds to them: the notice, if its last answer is a success.
pub attempt-accepted_ids :
    (limit : ℕ) (dry_run threaded : Bool) (n : Notice) (writes : ℕ) (calls : List (Text × Sent))
    → accepted_ids ((attempt limit dry_run threaded n writes).calls ++ calls) ≡ (
        if not dry_run && was_sent (attempt limit dry_run threaded n writes).sent
        then n.identity ∷ accepted_ids calls
        else accepted_ids calls)
attempt-accepted_ids limit true threaded n writes calls = refl
attempt-accepted_ids limit false threaded n writes calls =
    elim (Bool-cases (
      not (was_sent n.first_write)
      && threaded
      && is_topic_missing n.first_write
      && ltb (suc writes) limit)) [
        | inl e ↦
            let f : was_sent n.first_write ≡ false = ground arith in
            rw (attempt, e)
              (accepted_ids-cons n.identity n.second_write ((n.identity, n.first_write) ∷ calls)
                ∙ ap (λ (xs : List Text). if was_sent n.second_write then n.identity ∷ xs else xs)
                    (accepted_ids-cons n.identity n.first_write calls ∙ unsent n.first_write f))
        | inr e ↦ rw (attempt, e) (accepted_ids-cons n.identity n.first_write calls)
      ]
  where
    unsent :
        (sent : Sent)
        → was_sent sent ≡ false
        → (if was_sent sent then n.identity ∷ accepted_ids calls else accepted_ids calls)
          ≡ accepted_ids calls
    unsent sent f = rw f refl

abbrev Once : List Text → Outbox → Type 0
Once ledger o = IsOnce ledger (accepted_ids o.sends) o.delivered_set

Once-ack_counted :
    (ledger : List Text) (dry_run : Bool) (n : Notice) (r : Report) (o : Outbox) (b : Bool)
    → Once ledger o
    → Once ledger (ack_counted dry_run n r o b)
Once-ack_counted ledger dry_run n r o true h = h
Once-ack_counted ledger dry_run n r o false h = h

-- `w` is what was accepted before.
Once-after_attempt :
    (ledger w : List Text) (dry_run : Bool) (n : Notice) (o : Outbox) (sent : Sent)
    → one_of n.identity o.delivered_set ≡ false
    → IsOnce ledger w o.delivered_set
    → accepted_ids o.sends ≡ (if not dry_run && was_sent sent then n.identity ∷ w else w)
    → Once ledger (after_attempt dry_run n o sent)
Once-after_attempt ledger w dry_run n o sent h k e = elim (Bool-cases (was_sent sent)) [
  | inl a ↦
      rw (Once, after_attempt, a)
        (Once-ack_counted ledger dry_run n Report.delivered (delivery n o) (is_deferred dry_run n)
          (delivered dry_run (rw a at e)))
  | inr a ↦
      let q : accepted_ids o.sends ≡ w = e ∙ unsent dry_run (was_sent sent) a in
      rw (Once, after_attempt, a) (rw q k)
]
  where
    unsent : (d a : Bool) → a ≡ false → (if not d && a then n.identity ∷ w else w) ≡ w
    unsent true a q = refl
    unsent false a q = rw q refl

    delivered :
        (d : Bool)
        → accepted_ids o.sends ≡ (if not d && true then n.identity ∷ w else w)
        → Once ledger (delivery n o)
    delivered true q = rw (Once, q) (IsOnce-skip n.identity ledger w o.delivered_set k)
    delivered false q = rw (Once, q) (IsOnce-write n.identity ledger w o.delivered_set h k)

Once-drain_notice :
    (ledger : List Text) (limit : ℕ) (dry_run threaded : Bool) (n : Notice) (o : Outbox)
    → Once ledger o
    → Once ledger (drain_notice limit dry_run threaded n o)
Once-drain_notice ledger limit dry_run threaded n o k =
    elim (Bool-cases (one_of n.identity o.delivered_set)) [
      | inl e ↦
          rw (Once, drain_notice, e)
            (Once-ack_counted ledger dry_run n Report.duplicate o (is_deferred dry_run n) k)
      | inr e ↦
          let m = attempt limit dry_run threaded n o.physical_writes in
          rw (Once, drain_notice, e)
            (Once-after_attempt ledger (accepted_ids o.sends) dry_run n
              (called m (tombstoned dry_run threaded n o)) m.sent e k
              (attempt-accepted_ids limit dry_run threaded n o.physical_writes o.sends))
    ]

Once-drain_notices :
    (ledger : List Text) (limit : ℕ) (dry_run threaded : Bool) (notices : List Notice) (o : Outbox)
    → Once ledger o
    → Once ledger (drain_notices limit dry_run threaded notices o)
unfolding drain_notices
Once-drain_notices ledger limit dry_run threaded [] o k = k
Once-drain_notices ledger limit dry_run threaded (n ∷ notices) o k =
    elim (Bool-cases (leb limit o.physical_writes)) [
      | inl e ↦ rw (Once, drain_notices, e) k
      | inr e ↦
          rw (Once, drain_notices, e)
            (Once-drain_notices ledger limit dry_run threaded notices
              (drain_notice limit dry_run threaded n o)
              (Once-drain_notice ledger limit dry_run threaded n o k))
    ]

-- Telegram accepts a notice once: the identities of the calls of `send_message` that it answered
-- with success in a drain differ from each other, and none of them stood in the ledger before.
pub drain_outbox-once :
    (limit : ℕ) (dry_run threaded : Bool) (notices : List Notice) (ledger : List Text)
    (recent : List Notice)
    → AllPairs
        (λ i j. ¬ (i ≡ j))
        (accepted_ids (drain_outbox limit dry_run threaded notices ledger recent).sends)
      × All
          (λ i. one_of i ledger ≡ false)
          (accepted_ids (drain_outbox limit dry_run threaded notices ledger recent).sends)
unfolding drain_outbox
drain_outbox-once limit dry_run threaded notices ledger recent = elim (Bool-cases (leb limit 0)) [
  | inl e ↦ rw e (tt, tt)
  | inr e ↦
      let start : Once ledger (fresh ledger recent) = record {
        distinct = tt;
        unseen = tt;
        remembered = tt;
        carried = λ i h. h;
      } in
      let k =
        Once-drain_notices ledger limit dry_run threaded (take limit notices) (fresh ledger recent)
          start in
      rw e (k.distinct, k.unseen)
]
