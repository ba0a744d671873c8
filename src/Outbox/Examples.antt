-- ===== src/Outbox/Examples.antt =====
-- A drain with a budget of three writes: a notice whose topic is missing, the same notice again, one
-- that is rejected, and one for which no budget is left.
use herdres.Prelude.{
  All, AllPairs, List, [], arith, codes, false, length, refl, true, ◌++◌, ◌∷◌, ◌≡◌, ◌≤◌,
}
use herdres.Json.Values.{one_of}
use herdres.Outbox.Acknowledged.{IsBacked, drain_outbox-acknowledged}
use herdres.Outbox.Bounded.{drain_outbox-bound}
use herdres.Outbox.Drain.{Notice, Report, Sent, drain_notices, drain_outbox}
use herdres.Outbox.Once.{accepted_ids, drain_outbox-once}
use herdres.Safe.Ascii.{ascii}

abbrev moved : Notice
moved = record {
  has_ref = true;
  identity = codes "a1";
  first_write = Sent.topic_missing;
  second_write = Sent.accepted;
  acknowledged = false;
}

abbrev refused : Notice
refused = record {
  has_ref = true;
  identity = codes "b2";
  first_write = Sent.rejected;
  second_write = Sent.accepted;
  acknowledged = true;
}

abbrev late : Notice
late = record {
  has_ref = false;
  identity = codes "c3";
  first_write = Sent.accepted;
  second_write = Sent.accepted;
  acknowledged = true;
}

abbrev notices : List Notice
notices = moved ∷ moved ∷ refused ∷ []

drained : drain_outbox 3 false true notices (codes "z9" ∷ []) [] ≡ record {
  physical_writes = 3;
  delivered_count = 1;
  acked = 0;
  failed = 1;
  deferred = 2;
  ledger = codes "z9" ∷ codes "a1" ∷ [];
  delivered_set = codes "a1" ∷ codes "z9" ∷ [];
  sends =
      (codes "b2", Sent.rejected)
      ∷ (codes "a1", Sent.accepted)
      ∷ (codes "a1", Sent.topic_missing)
      ∷ [];
  recent = refused ∷ [];
  reports =
      (codes "b2", Report.failure)
      ∷ (codes "a1", Report.duplicate)
      ∷ (codes "a1", Report.delivered)
      ∷ [];
  dead_topic = true;
}
unfolding drain_outbox drain_notices
drained = refl

-- The budget ends before the notices.
stopped : accepted_ids (drain_outbox 2 false true (moved ∷ late ∷ []) [] []).sends ≡ codes "a1" ∷ []
unfolding drain_outbox drain_notices
stopped = refl

drain_outbox-bound_example :
    ((drain_outbox 3 false true notices (codes "z9" ∷ []) []).physical_writes ≤ 3)
    × (length (drain_outbox 3 false true notices (codes "z9" ∷ []) []).sends
        ≡ (drain_outbox 3 false true notices (codes "z9" ∷ []) []).physical_writes)
    × (length (drain_outbox 3 false true notices (codes "z9" ∷ []) []).ledger ≤ 200)
drain_outbox-bound_example =
    drain_outbox-bound 3 false true notices (codes "z9" ∷ []) [] (omega arith)

drain_outbox-once_example :
    AllPairs
      (λ i j. ¬ (i ≡ j))
      (accepted_ids (drain_outbox 3 false true notices (codes "z9" ∷ []) []).sends)
    × All
        (λ i. one_of i (codes "z9" ∷ []) ≡ false)
        (accepted_ids (drain_outbox 3 false true notices (codes "z9" ∷ []) []).sends)
drain_outbox-once_example = drain_outbox-once 3 false true notices (codes "z9" ∷ []) []

drain_outbox-acknowledged_example :
    All
      (IsBacked (
        (accepted_ids (drain_outbox 3 false true notices (codes "z9" ∷ []) []).sends)
        ++ codes "z9" ∷ []))
      (drain_outbox 3 false true notices (codes "z9" ∷ []) []).reports
drain_outbox-acknowledged_example = drain_outbox-acknowledged 3 true notices (codes "z9" ∷ []) []
