-- ===== src/Requests/Legacy.antt =====
-- About `mark_retryable`, and the reduction of `mark_terminal`.
use herdres.Prelude.{
  Option, Text, [], arith, codes, false, is_some, none, refl, some, true, ℕ, ◌≡◌, ◌≤◌,
}
use herdres.Requests.Envelope.{normalize-is_persisted}
use herdres.Requests.Lifecycle.{mark_retryable, mark_terminal, retryable_record}
use herdres.Requests.Outcomes.{record_terminal_outcome-valid}
use herdres.Requests.Parts.{valid_record_of_parts, valid_record_parts, valid_submission_later}
use herdres.Requests.Record.{
  CommandCodec, authorizes, valid_attention, valid_json, valid_record, valid_retryable, valid_times,
}
use herdres.Requests.Stable.{plain-IsStable}
use herdres.Requests.Types.{Disposition, Outcome, Request, RequestPhase, is_retryable, normalize}
use herdres.Safe.{Unicode}

module _ ⦃u : Unicode⦄ ⦃codec : CommandCodec⦄ where
  normalize-is_retryable : (d : Option Disposition) → is_retryable d ≡ true → normalize d ≡ d
  normalize-is_retryable none h = refl
  normalize-is_retryable (some d) h =
      elim d as (λ d. is_retryable (some d) ≡ true → normalize (some d) ≡ some d) [
        | Disposition.terminal_accepted ↦ λ h. cc
        | _ ↦ λ h. refl
      ]
        h

  retryable-valid :
      (r : Request) (id : Text) (d : Option Disposition) (now : ℕ)
      → r.updated_at ≤ now
      → is_retryable d ≡ true
      → is_some r.request_json ≡ true
      → valid_record r id ≡ true
      → valid_record (retryable_record d now r) id ≡ true
  unfolding valid_times valid_json valid_attention valid_retryable
  retryable-valid r id d now n a j v =
      let p = valid_record_parts r id v in
      let times : valid_times r ≡ true = p.times in
      let e = normalize-is_retryable d a in
      valid_record_of_parts _ id (record {
        same_id = p.same_id;
        times = ground arith;
        persisted = normalize-is_persisted d;
        reason = refl;
        action = refl;
        witness = p.witness;
        submission = valid_submission_later r _ refl n refl refl refl refl refl refl p.submission;
        json = p.json;
        attention = refl;
        in_state = rw (j, e, a) refl;
      })

  -- Whatever `mark_retryable` answers, it leaves a valid record valid, if the clock does not go back.
  pub mark_retryable-valid :
      (r : Request) (id : Text) (d : Option Disposition) (now : ℕ)
      → r.updated_at ≤ now
      → valid_record r id ≡ true
      → valid_record (mark_retryable r d now).1 id ≡ true
  unfolding mark_retryable
  mark_retryable-valid r id d now n v = ground (arith, retryable-valid r id d now n)

  -- Whatever `mark_terminal` answers, it leaves a valid record valid, if the clock does not go back
  -- and the record has no evidence that permits a replay.
  pub mark_terminal-valid :
      (r : Request) (id : Text) (d : Disposition) (now : ℕ)
      → r.updated_at ≤ now
      → authorizes r.dedup_witness ≡ false
      → valid_record r id ≡ true
      → valid_record (mark_terminal r d now).1 id ≡ true
  unfolding mark_terminal
  mark_terminal-valid r id d now n w v =
      elim d as (λ d. valid_record (mark_terminal r d now).1 id ≡ true) [
        | Disposition.terminal_accepted ↦
            record_terminal_outcome-valid r id (some Disposition.written_to_pty)
              RequestPhase.accepted_unverified Outcome.delivery_unknown now []
              (codes "transport accepted but submission was not verified")
              (codes "inspect the composer before any replay") true n
              (plain-IsStable _ refl (omega arith)) (plain-IsStable _ refl (omega arith))
              (plain-IsStable _ refl (omega arith)) refl w v
        | Disposition.terminal_rejected ↦
            record_terminal_outcome-valid r id (some Disposition.terminal_rejected)
              RequestPhase.terminal Outcome.not_delivered now []
              (codes "provider rejected the instruction")
              (codes "review the rejection before requesting a retry") true n
              (plain-IsStable _ refl (omega arith)) (plain-IsStable _ refl (omega arith))
              (plain-IsStable _ refl (omega arith)) refl refl v
        | _ ↦ v
      ]
