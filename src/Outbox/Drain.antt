-- ===== src/Outbox/Drain.antt =====
-- `drain_outbox`. What Telegram and Tendwire answer stands in the notice.
use herdres.Prelude.{
  Bool, List, Text, [], drop, false, if◌then◌else◌, leb, length, ltb, not, suc, take, true, ℕ, ◌&&◌,
  ◌++◌, ◌-◌, ◌||◌, ◌∷◌,
}
use herdres.Json.Values.{one_of}

-- An answer of `send_message`; an error may say that the topic is missing.
pub data Sent : Type 0 where
  accepted topic_missing rejected : Sent

-- What `connector_ack` (with `duplicate` or `telegram: delivered`) and `connector_fail` report.
pub data Report : Type 0 where
  duplicate delivered failure : Report

pub record Notice : Type 0 where
  pub has_ref : Bool
  pub identity : Text
  -- The answers of the write to the thread and of the second one, and whether Tendwire acknowledges.
  pub first_write : Sent
  pub second_write : Sent
  pub acknowledged : Bool

-- The result, the ledger of delivered identities, the set of those that are known, the audit of
-- failures, whose entries stand as their notices, and what this drain does outside, the last call
-- first: each call of `send_message` with its answer, the reports to Tendwire, and whether the
-- state is told that the topic is dead.
pub record Outbox : Type 0 where
  pub physical_writes : ℕ
  pub delivered_count : ℕ
  pub acked : ℕ
  pub failed : ℕ
  pub deferred : ℕ
  pub ledger : List Text
  pub delivered_set : List Text
  pub sends : List (Text × Sent)
  pub recent : List Notice
  pub reports : List (Text × Report)
  pub dead_topic : Bool

-- `delivered[-200:]`
abbrev pub last_200 : List Text → List Text
last_200 xs = drop (length xs - 200) xs

-- `recent[-50:]`
abbrev pub last_50 : List Notice → List Notice
last_50 xs = drop (length xs - 50) xs

-- `checkpoint_delivery`
abbrev pub checkpointed : Text → List Text → List Text
checkpointed i ledger = if one_of i ledger then ledger else last_200 (ledger ++ i ∷ [])

-- `sent.get("ok")`
abbrev pub was_sent : Sent → Bool
was_sent Sent.accepted = true
was_sent _ = false

abbrev pub is_topic_missing : Sent → Bool
is_topic_missing Sent.topic_missing = true
is_topic_missing _ = false

-- The last answer `sent`, the count of writes behind it, and the calls of `send_message`.
pub record Attempt : Type 0 where
  pub sent : Sent
  pub writes : ℕ
  pub calls : List (Text × Sent)

abbrev pub first_attempt : Notice → ℕ → Attempt
first_attempt n writes = record {
  sent = n.first_write;
  writes = suc writes;
  calls = (n.identity, n.first_write) ∷ [];
}

abbrev pub second_attempt : Notice → Attempt → Attempt
second_attempt n m = record {
  sent = n.second_write;
  writes = suc m.writes;
  calls = (n.identity, n.second_write) ∷ m.calls;
}

abbrev pub attempt : ℕ → Bool → Bool → Notice → ℕ → Attempt
attempt limit true threaded n writes = record { sent = Sent.accepted; writes = writes; calls = [] }
attempt limit false threaded n writes =
    if not (was_sent n.first_write)
      && threaded
      && is_topic_missing n.first_write
      && ltb (suc writes) limit
    then second_attempt n (first_attempt n writes)
    else first_attempt n writes

-- Whether the notice stays with Tendwire, because it does not acknowledge.
abbrev pub is_deferred : Bool → Notice → Bool
is_deferred dry_run n = n.has_ref && not dry_run && not n.acknowledged

abbrev pub with_report : Bool → Notice → Report → Outbox → List (Text × Report)
with_report dry_run n r o =
    if n.has_ref && not dry_run then (n.identity, r) ∷ o.reports else o.reports

abbrev pub ack_counted : Bool → Notice → Report → Outbox → Bool → Outbox
ack_counted dry_run n r o true = record o {
  deferred = suc o.deferred;
  reports = with_report dry_run n r o;
}
ack_counted dry_run n r o false = record o {
  acked = suc o.acked;
  reports = with_report dry_run n r o;
}

-- `tombstone_dead_topic` is called before the second write.
abbrev pub tombstoned : Bool → Bool → Notice → Outbox → Outbox
tombstoned dry_run threaded n o = record o {
  dead_topic = o.dead_topic || (not dry_run && threaded && is_topic_missing n.first_write);
}

abbrev pub called : Attempt → Outbox → Outbox
called m o = record o { physical_writes = m.writes; sends = m.calls ++ o.sends }

abbrev pub delivery : Notice → Outbox → Outbox
delivery n o = record o {
  delivered_count = suc o.delivered_count;
  ledger = checkpointed n.identity o.ledger;
  delivered_set = n.identity ∷ o.delivered_set;
}

abbrev pub failing : Bool → Notice → Outbox → Outbox
failing dry_run n o = record o {
  failed = suc o.failed;
  recent = last_50 (o.recent ++ n ∷ []);
  reports = with_report dry_run n Report.failure o;
}

abbrev pub after_attempt : Bool → Notice → Outbox → Sent → Outbox
after_attempt dry_run n o sent =
    if was_sent sent
    then ack_counted dry_run n Report.delivered (delivery n o) (is_deferred dry_run n)
    else failing dry_run n o

abbrev pub attempted : Bool → Bool → Notice → Outbox → Attempt → Outbox
attempted dry_run threaded n o m =
    after_attempt dry_run n (called m (tombstoned dry_run threaded n o)) m.sent

abbrev pub drain_notice : ℕ → Bool → Bool → Notice → Outbox → Outbox
drain_notice limit dry_run threaded n o =
    if one_of n.identity o.delivered_set
    then ack_counted dry_run n Report.duplicate o (is_deferred dry_run n)
    else attempted dry_run threaded n o (attempt limit dry_run threaded n o.physical_writes)

unfoldable pub drain_notices : ℕ → Bool → Bool → List Notice → Outbox → Outbox
drain_notices limit dry_run threaded [] o = o
drain_notices limit dry_run threaded (n ∷ notices) o = elim (leb limit o.physical_writes) [
  | true ↦ o
  | false ↦ drain_notices limit dry_run threaded notices (drain_notice limit dry_run threaded n o)
]

abbrev pub fresh : List Text → List Notice → Outbox
fresh ledger recent = record {
  physical_writes = 0;
  delivered_count = 0;
  acked = 0;
  failed = 0;
  deferred = 0;
  ledger = ledger;
  delivered_set = ledger;
  sends = [];
  recent = recent;
  reports = [];
  dead_topic = false;
}

abbrev pub trimmed_ledger : Outbox → Outbox
trimmed_ledger o = record o { ledger = last_200 o.ledger }

-- From the ledger of the store, its recent failures and the notices that were polled. Without a budget, nothing is
-- polled.
unfoldable pub drain_outbox : ℕ → Bool → Bool → List Notice → List Text → List Notice → Outbox
unfolding drain_notices
drain_outbox limit dry_run threaded notices ledger recent =
    if leb limit 0
    then fresh ledger recent
    else trimmed_ledger
        (drain_notices limit dry_run threaded (take limit notices) (fresh ledger recent))
