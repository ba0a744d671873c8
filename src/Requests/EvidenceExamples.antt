-- ===== src/Requests/EvidenceExamples.antt =====
-- The theorems on owners, receipts and witnesses at concrete requests.
use herdres.Prelude.{[], arith, codes, false, none, refl, some, subst, true, ◌↔◌, ◌≡◌}
use herdres.Identity.{strip_prefix, valid_request_id}
use herdres.Requests.Child.{child_of, child_result}
use herdres.Requests.Evidence.{
  attach_submission_receipt, attach_target_owner, automatic_replay_authorized, new_witness,
  owned_record, receipt_allowed, record_dedup_witness, witnessed_record,
}
use herdres.Requests.Evidenced.{attach_target_owner-stale}
use herdres.Requests.Legacy.{mark_terminal-valid}
use herdres.Requests.Lifecycle.{
  mark_terminal, outcome_child, quarantine_request, record_terminal_outcome, terminal_record,
}
use herdres.Requests.Linked.{attach_submission_receipt-linked}
use herdres.Requests.Record.{valid_owner, valid_record, valid_witness}
use herdres.Requests.Replays.{
  Evidence, record_dedup_witness-permits, record_dedup_witness-unreadable, stored_flag,
}
use herdres.Requests.SampleExamples.{
  attached0, attached_valid, id0, opened0, owner0, owner_valid, plain_codec,
}
use herdres.Requests.Types.{
  Checkpoint, DedupWitness, Disposition, Outcome, Request, RequestPhase, SubmissionState, returns,
  value_error,
}
use herdres.Safe.{has_ink}
use herdres.Safe.Ascii.{ascii, ascii_digit, ascii_space, ascii_word}

attach_target_owner-stale_example :
    valid_record (attach_target_owner opened0 owner0 1001).1 id0 ≡ false
attach_target_owner-stale_example =
    attach_target_owner-stale opened0 id0 owner0 1001 refl refl owner_valid (omega arith)

abbrev owned : Request
owned = owned_record owner0 2000 attached0

receipt_passes : receipt_allowed owned (codes "sub-1") none ≡ true
unfolding has_ink ascii_space ascii_word ascii_digit valid_owner strip_prefix
receipt_passes = refl

attach_submission_receipt-linked_example :
    ((attach_submission_receipt owned (codes "sub-1") SubmissionState.linked none 2100).0
      ≡ value_error)
    × (valid_record
          (quarantine_request
            (attach_submission_receipt owned (codes "sub-1") SubmissionState.linked none 2100).1
            (codes "invalid Tendwire submission receipt")
            2100
            none
            []
            true).1
          id0
        ≡ false)
attach_submission_receipt-linked_example =
    attach_submission_receipt-linked owned id0 (codes "sub-1")
      (codes "invalid Tendwire submission receipt") 2100 none [] true refl receipt_passes

-- A composer that shows other text, and a prompt that the provider says it did not receive.
abbrev refused : Request
refused = record attached0 { terminal_outcome = some Outcome.not_delivered }

abbrev evidence : DedupWitness
evidence =
    new_witness refused (codes "aa") (some (codes "bb")) Disposition.agent_prompt_not_received none
      3000

refused_witnessed :
    record_dedup_witness refused
      (codes "aa")
      (some (codes "bb"))
      true
      Disposition.agent_prompt_not_received
      none
      3000
    ≡ (returns true, witnessed_record evidence 3000 refused)
unfolding record_dedup_witness valid_witness
refused_witnessed = refl

replay_permitted : automatic_replay_authorized (witnessed_record evidence 3000 refused) ≡ true
unfolding automatic_replay_authorized
replay_permitted = refl

record_dedup_witness-permits_example :
    (stored_flag (witnessed_record evidence 3000 refused).dedup_witness ≡ true ↔ (
      ¬ (refused.terminal_outcome ≡ some Outcome.delivery_unknown)
      × Evidence (codes "aa") (some (codes "bb")) true Disposition.agent_prompt_not_received))
    × (automatic_replay_authorized (witnessed_record evidence 3000 refused) ≡ true ↔ (
        (refused.terminal_outcome ≡ some Outcome.not_delivered)
        × Evidence (codes "aa") (some (codes "bb")) true Disposition.agent_prompt_not_received))
record_dedup_witness-permits_example =
    record_dedup_witness-permits refused (codes "aa") (some (codes "bb")) true
      Disposition.agent_prompt_not_received none 3000 (witnessed_record evidence 3000 refused)
      refused_witnessed

abbrev unread_evidence : DedupWitness
unread_evidence = new_witness attached0 (codes "aa") none Disposition.written_to_pty none 3000

unread_witnessed :
    record_dedup_witness attached0 (codes "aa") none false Disposition.written_to_pty none 3000
    ≡ (returns true, witnessed_record unread_evidence 3000 attached0)
unfolding record_dedup_witness valid_witness
unread_witnessed = refl

record_dedup_witness-unreadable_example :
    valid_record (witnessed_record unread_evidence 3000 attached0) id0 ≡ false
record_dedup_witness-unreadable_example =
    record_dedup_witness-unreadable attached0 id0 (codes "aa") none Disposition.written_to_pty none
      3000 (witnessed_record unread_evidence 3000 attached0) refl unread_witnessed

-- The provider rejected the command.
abbrev rejected : Request
rejected =
    terminal_record (some Disposition.terminal_rejected) RequestPhase.terminal Outcome.not_delivered
      2000 (codes "provider rejected the instruction")
      (codes "review the rejection before requesting a retry") attached0
      (child_of id0 Checkpoint.hold (some Disposition.terminal_rejected) RequestPhase.terminal
        (some Outcome.not_delivered) [] true)

rejected_made : (mark_terminal attached0 Disposition.terminal_rejected 2000).1 ≡ rejected
unfolding mark_terminal record_terminal_outcome outcome_child child_result valid_request_id
rejected_made = refl

rejected_valid : valid_record rejected id0 ≡ true
rejected_valid =
    subst (λ r. valid_record r id0 ≡ true) rejected_made
      (mark_terminal-valid attached0 id0 Disposition.terminal_rejected 2000 (omega arith) refl
        attached_valid)
