-- ===== src/Requests/Evidence.antt =====
-- What is attached to a record beside its outcome: the owner of its target, the receipt of its
-- submission, and the witness that may permit a replay.
use herdres.Prelude.{
  Bool, Option, Text, coalesce, codes, false, if◌then◌else◌, is_some, nat_eq, none, not, some,
  string_eq, text_eq, true, ℕ, ◌&&◌, ◌==◌,
}
use herdres.Requests.Child.{is_empty}
use herdres.Requests.Record.{
  CommandCodec, fits, ink_or_none, is_linked, is_not_received, is_unknown, is_verdict,
  nonempty_fits, valid_owner, valid_owner?, valid_witness,
}
use herdres.Requests.Types.{
  Comparison, DedupWitness, Disposition, Outcome, Raises, Request, SubmissionState, TargetOwner,
  comparison_index, disposition_index, returns, value_error,
}
use herdres.Safe.{Unicode, has_ink}

abbrev pub same_option : Option Text → Option Text → Bool
same_option none none = true
same_option (some a) (some b) = a == b
same_option _ _ = false

abbrev pub same_time : Option ℕ → Option ℕ → Bool
same_time none none = true
same_time (some a) (some b) = a == b
same_time _ _ = false

abbrev pub submission_index : Option SubmissionState → ℕ
submission_index none = 0
submission_index (some SubmissionState.pending_observation) = 1
submission_index (some SubmissionState.observed) = 2
submission_index (some SubmissionState.complete) = 3
submission_index (some SubmissionState.linked) = 4

abbrev pub same_owner : TargetOwner → TargetOwner → Bool
same_owner a b = a.stable_key == b.stable_key && a.stable_key_version == b.stable_key_version

-- `current is not None and current != new`
abbrev pub conflicts : Option Text → Option Text → Bool
conflicts (some a) (some b) = not (a == b)
conflicts _ _ = false

module _ ⦃u : Unicode⦄ ⦃codec : CommandCodec⦄ where
  abbrev pub owned_record : TargetOwner → ℕ → Request → Request
  owned_record owner now r = record r { target_owner = some owner; updated_at = now }

  abbrev pub attach_owner_over :
      TargetOwner → ℕ → Request → Option TargetOwner → Raises Bool × Request
  attach_owner_over owner now r none = (returns true, owned_record owner now r)
  attach_owner_over owner now r (some current) =
      if same_owner current owner then (returns false, r) else (value_error, r)

  unfoldable pub attach_target_owner : Request → TargetOwner → ℕ → Raises Bool × Request
  attach_target_owner r owner now =
      if valid_owner owner then attach_owner_over owner now r r.target_owner else (value_error, r)

  -- The first checks of `attach_submission_receipt`.
  abbrev pub receipt_allowed : Request → Text → Option Text → Bool
  receipt_allowed r id turn =
      has_ink id
      && fits id
      && ink_or_none turn
      && is_some r.target_owner
      && valid_owner? r.target_owner
      && not (conflicts r.submission_id (some id))
      && not (conflicts r.turn_id turn)

  -- The fields that are written before the last check.
  abbrev pub receipt_written : Request → Text → SubmissionState → Option Text → ℕ → Request
  receipt_written r id state turn now = record r {
    submission_id = some id;
    submission_state = some state;
    turn_id = coalesce turn r.turn_id;
    submitted_at = coalesce r.submitted_at (some now);
  }

  abbrev pub receipt_linked : Request → ℕ → Request
  receipt_linked r now = record r {
    linked_at = if is_some r.turn_id then coalesce r.linked_at (some now) else r.linked_at;
  }

  -- `before != after`
  abbrev pub receipt_changed : Request → Request → Bool
  receipt_changed r s = not (
      same_option r.submission_id s.submission_id
      && submission_index r.submission_state == submission_index s.submission_state
      && same_option r.turn_id s.turn_id
      && same_time r.submitted_at s.submitted_at
      && same_time r.linked_at s.linked_at)

  abbrev pub receipt_stamped : Request → Request → ℕ → Raises Bool × Request
  receipt_stamped r s now =
      if receipt_changed r s
      then (returns true, record s { updated_at = now })
      else (returns false, s)

  unfoldable pub attach_submission_receipt :
      Request → Text → SubmissionState → Option Text → ℕ → Raises Bool × Request
  attach_submission_receipt r id state turn now =
      let written = receipt_written r id state turn now in
      if receipt_allowed r id turn
      then (if is_linked (some state) && not (is_some written.turn_id)
          then (value_error, written)
          else receipt_stamped r (receipt_linked written now) now)
      else (value_error, r)

  abbrev pub compare_composer : Text → Option Text → Comparison
  compare_composer prompt none = Comparison.unreadable
  compare_composer prompt (some c) = if c == prompt then Comparison.match else Comparison.different

  -- A readable composer has a fingerprint, and only it has one.
  abbrev pub composer_allowed : Bool → Option Text → Bool
  composer_allowed true none = false
  composer_allowed true (some c) = not (is_empty c) && fits c
  composer_allowed false c = not (is_some c)

  abbrev pub is_different : Comparison → Bool
  is_different Comparison.different = true
  is_different _ = false

  abbrev pub is_unreadable : Comparison → Bool
  is_unreadable Comparison.unreadable = true
  is_unreadable _ = false

  abbrev pub new_witness :
      Request → Text → Option Text → Disposition → Option Text → ℕ → DedupWitness
  new_witness r prompt composer verdict generation now = record {
    prompt_fingerprint = prompt;
    composer_fingerprint = composer;
    comparison = compare_composer prompt composer;
    provider_verdict = verdict;
    owner_generation = generation;
    observed_at = now;
    automatic_replay_authorized =
        is_not_received verdict
        && is_different (compare_composer prompt composer)
        && not (is_unknown r.terminal_outcome);
  }

  abbrev pub same_witness : Option DedupWitness → DedupWitness → Bool
  same_witness none w = false
  same_witness (some v) w =
      v.prompt_fingerprint == w.prompt_fingerprint
      && same_option v.composer_fingerprint w.composer_fingerprint
      && comparison_index v.comparison == comparison_index w.comparison
      && disposition_index (some v.provider_verdict) == disposition_index (some w.provider_verdict)
      && same_option v.owner_generation w.owner_generation
      && v.observed_at == w.observed_at
      && (if v.automatic_replay_authorized
          then w.automatic_replay_authorized
          else not w.automatic_replay_authorized)

  -- An unreadable composer calls the operator.
  abbrev pub witnessed_record : DedupWitness → ℕ → Request → Request
  witnessed_record w now r =
      if is_unreadable w.comparison
      then record r {
        dedup_witness = some w;
        updated_at = now;
        operator_attention_required = true;
        blocked_reason = some (codes "composer could not be read");
        next_action = some (codes "inspect the pane before any replay");
      }
      else record r { dedup_witness = some w; updated_at = now }

  unfoldable pub record_dedup_witness :
      Request
      → Text
      → Option Text
      → (readable : Bool) → Disposition
      → Option Text
      → ℕ
      → Raises Bool × Request
  record_dedup_witness r prompt composer readable verdict generation now =
      let w = new_witness r prompt composer verdict generation now in
      if not (is_empty prompt)
        && fits prompt
        && is_verdict verdict
        && nonempty_fits generation
        && composer_allowed readable composer
        && valid_witness w
      then (if same_witness r.dedup_witness w
          then (returns false, r)
          else (returns true, witnessed_record w now r))
      else (value_error, r)

  abbrev pub witness_permits : Option DedupWitness → Bool
  witness_permits none = false
  witness_permits (some w) =
      is_not_received w.provider_verdict
      && is_different w.comparison
      && w.automatic_replay_authorized

  abbrev pub is_not_delivered : Option Outcome → Bool
  is_not_delivered (some Outcome.not_delivered) = true
  is_not_delivered _ = false

  unfoldable pub automatic_replay_authorized : Request → Bool
  automatic_replay_authorized r =
      not (is_unknown r.terminal_outcome)
      && is_not_delivered r.terminal_outcome
      && witness_permits r.dedup_witness
