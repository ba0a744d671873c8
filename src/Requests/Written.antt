-- ===== src/Requests/Written.antt =====
-- About `attach_submission_receipt` and `_valid_record`.
use herdres.Prelude.{
  Bool, Bool-cases, Option, Text, ap, arith, coalesce, false, if◌then◌else◌, inl, inr, is_some,
  nat_beq_iff, nat_eq, none, not, refl, same_text-eq, some, string_eq, sym, text_eq, true, ℕ, ◌&&◌,
  ◌==◌, ◌∙◌, ◌≡◌, ◌≤◌,
}
use herdres.Requests.Evidence.{
  attach_submission_receipt, receipt_allowed, receipt_changed, receipt_linked, receipt_written,
  same_option, same_time, submission_index,
}
use herdres.Requests.Parts.{valid_record_of_parts, valid_record_parts, valid_submission_later}
use herdres.Requests.Receipts.{finish_later, may_age}
use herdres.Requests.Record.{
  CommandCodec, is_linked, valid_attention, valid_finish, valid_in_state, valid_json,
  valid_quarantined, valid_record, valid_resolving, valid_retryable, valid_submission,
  valid_terminal, valid_times,
}
use herdres.Requests.Submitted.{stamped-valid_receipt, stamped_at}
use herdres.Requests.Types.{Request, RequestState, SubmissionState}
use herdres.Safe.{Unicode}

same_option-eq : (a b : Option Text) → same_option a b ≡ true → a ≡ b
same_option-eq none none h = refl
same_option-eq none (some b) h = cc
same_option-eq (some a) none h = cc
same_option-eq (some a) (some b) h = ap some (same_text-eq a b h)

same_time-eq : (a b : Option ℕ) → same_time a b ≡ true → a ≡ b
same_time-eq none none h = refl
same_time-eq none (some b) h = cc
same_time-eq (some a) none h = cc
same_time-eq (some a) (some b) h = ap some (ground arith)

-- The state that an index belongs to.
abbrev state_of : ℕ → Option SubmissionState
state_of n =
    if n == 1
    then some SubmissionState.pending_observation
    else if n == 2
    then some SubmissionState.observed
    else if n == 3
    then some SubmissionState.complete
    else if n == 4
    then some SubmissionState.linked
    else none

state_of-submission_index : (a : Option SubmissionState) → state_of (submission_index a) ≡ a
state_of-submission_index none = refl
state_of-submission_index (some SubmissionState.pending_observation) = refl
state_of-submission_index (some SubmissionState.observed) = refl
state_of-submission_index (some SubmissionState.complete) = refl
state_of-submission_index (some SubmissionState.linked) = refl

submission_index-injective :
    (a b : Option SubmissionState) → submission_index a ≡ submission_index b → a ≡ b
submission_index-injective a b h =
    sym (state_of-submission_index a) ∙ ap state_of h ∙ state_of-submission_index b

module _ ⦃u : Unicode⦄ ⦃codec : CommandCodec⦄ where
  -- The fields of a receipt that did not change.
  record Unchanged (r s : Request) : Type 0 where
    id_same : r.submission_id ≡ s.submission_id
    state_same : r.submission_state ≡ s.submission_state
    turn_same : r.turn_id ≡ s.turn_id
    submitted_same : r.submitted_at ≡ s.submitted_at
    linked_same : r.linked_at ≡ s.linked_at

  split_five :
      (a b c d e : Bool)
      → not (a && b && c && d && e) ≡ false
      → (a ≡ true) × (b ≡ true) × (c ≡ true) × (d ≡ true) × (e ≡ true)
  split_five a b c d e h = ground arith

  unchanged_lem : (r s : Request) → receipt_changed r s ≡ false → Unchanged r s
  unchanged_lem r s h =
      let (a, b, c, d, e) = split_five _ _ _ _ _ h in
      record {
        id_same = same_option-eq _ _ a;
        state_same = submission_index-injective _ _ ((nat_beq_iff _ _).0 b);
        turn_same = same_option-eq _ _ c;
        submitted_same = same_time-eq _ _ d;
        linked_same = same_time-eq _ _ e;
      }

  stamped-in_state :
      (st : RequestState) (r : Request) (id i : Text) (state : SubmissionState) (turn : Option Text)
      (now : ℕ)
      → may_age st ≡ true
      → r.updated_at ≤ now
      → valid_in_state st r id ≡ true
      → valid_in_state st (stamped_at r i state turn now) id ≡ true
  unfolding valid_retryable valid_terminal
  stamped-in_state RequestState.resolving r id i state turn now a n h = cc
  stamped-in_state RequestState.quarantined r id i state turn now a n h = cc
  stamped-in_state RequestState.retryable r id i state turn now a n h = h
  stamped-in_state RequestState.terminal r id i state turn now a n h =
      ground (arith, finish_later r (stamped_at r i state turn now) id n refl refl)

  stamped-valid :
      (r : Request) (id i : Text) (state : SubmissionState) (turn : Option Text) (now : ℕ)
      → may_age r.state ≡ true
      → r.updated_at ≤ now
      → receipt_allowed r i turn ≡ true
      → (is_linked (some state) && not (is_some (coalesce turn r.turn_id))) ≡ false
      → valid_record r id ≡ true
      → valid_record (stamped_at r i state turn now) id ≡ true
  unfolding valid_times valid_submission valid_json valid_attention
  stamped-valid r id i state turn now m n a l v =
      let p = valid_record_parts r id v in
      let times : valid_times r ≡ true = p.times in
      valid_record_of_parts _ id (record {
        same_id = p.same_id;
        times = ground arith;
        persisted = p.persisted;
        reason = p.reason;
        action = p.action;
        witness = p.witness;
        submission = stamped-valid_receipt r i state turn now (ground arith) n a l p.submission;
        json = p.json;
        attention = p.attention;
        in_state = stamped-in_state r.state r id i state turn now m n p.in_state;
      })

  unchanged-in_state :
      (st : RequestState) (r : Request) (id i : Text) (state : SubmissionState) (turn : Option Text)
      (now : ℕ)
      → valid_in_state st r id ≡ true
      → valid_in_state st (receipt_linked (receipt_written r i state turn now) now) id ≡ true
  unfolding valid_resolving valid_retryable valid_terminal valid_quarantined valid_finish
  unchanged-in_state RequestState.resolving r id i state turn now h = h
  unchanged-in_state RequestState.quarantined r id i state turn now h = h
  unchanged-in_state RequestState.retryable r id i state turn now h = h
  unchanged-in_state RequestState.terminal r id i state turn now h = h

  Unchanged-valid :
      (r : Request) (id i : Text) (state : SubmissionState) (turn : Option Text) (now : ℕ)
      → Unchanged r (receipt_linked (receipt_written r i state turn now) now)
      → valid_record r id ≡ true
      → valid_record (receipt_linked (receipt_written r i state turn now) now) id ≡ true
  unfolding valid_times valid_json valid_attention
  Unchanged-valid r id i state turn now w v =
      let p = valid_record_parts r id v in
      valid_record_of_parts _ id (record {
        same_id = p.same_id;
        times = p.times;
        persisted = p.persisted;
        reason = p.reason;
        action = p.action;
        witness = p.witness;
        submission =
            valid_submission_later r _ refl (omega arith) (sym w.id_same) (sym w.state_same)
              (sym w.turn_same) refl (sym w.submitted_same) (sym w.linked_same) p.submission;
        json = p.json;
        attention = p.attention;
        in_state = unchanged-in_state r.state r id i state turn now p.in_state;
      })

  -- Whatever `attach_submission_receipt` answers, it leaves a valid record valid that is retryable
  -- or terminal, if the clock does not go back, and if the state `linked` comes with a turn or the
  -- record has one.
  pub attach_submission_receipt-valid :
      (r : Request) (id i : Text) (state : SubmissionState) (turn : Option Text) (now : ℕ)
      → may_age r.state ≡ true
      → r.updated_at ≤ now
      → (is_linked (some state) && not (is_some (coalesce turn r.turn_id))) ≡ false
      → valid_record r id ≡ true
      → valid_record (attach_submission_receipt r i state turn now).1 id ≡ true
  unfolding attach_submission_receipt
  attach_submission_receipt-valid r id i state turn now m n l v =
      elim (Bool-cases (receipt_allowed r i turn)) [
        | inr a ↦ rw a v
        | inl a ↦
            let s = receipt_linked (receipt_written r i state turn now) now in
            elim (Bool-cases (receipt_changed r s)) [
              | inl c ↦ rw (a, l, c) (stamped-valid r id i state turn now m n a l v)
              | inr c ↦ rw (a, l, c) (Unchanged-valid r id i state turn now (unchanged_lem r s c) v)
            ]
      ]
