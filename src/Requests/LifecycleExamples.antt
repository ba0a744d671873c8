-- ===== src/Requests/LifecycleExamples.antt =====
-- The theorems on envelopes and transitions at concrete requests.
use herdres.Prelude.{[], arith, codes, none, refl, some, true, ◌≡◌}
use herdres.Identity.{valid_request_id}
use herdres.Requests.Child.{child_of, child_result}
use herdres.Requests.Envelope.{Meaning, child_result-advance}
use herdres.Requests.Finished.{quarantine_request-valid}
use herdres.Requests.Lifecycle.{quarantine_request, record_terminal_outcome}
use herdres.Requests.Outcomes.{record_terminal_outcome-valid}
use herdres.Requests.Record.{valid_record}
use herdres.Requests.SampleExamples.{attached0, attached_valid, id0, plain_codec}
use herdres.Requests.Stable.{IsStable, plain-IsStable}
use herdres.Requests.Types.{Checkpoint, Child, Disposition, Outcome, RequestPhase, returns}
use herdres.Safe.Ascii.{ascii}

deadline-IsStable : IsStable (codes "request deadline reached")
deadline-IsStable = plain-IsStable _ refl (omega arith)

empty-IsStable : IsStable []
empty-IsStable = plain-IsStable [] refl (omega arith)

quarantine_request-valid_example :
    valid_record
      (quarantine_request attached0 (codes "request deadline reached") 4600 none [] true).1
      id0
    ≡ true
quarantine_request-valid_example =
    quarantine_request-valid attached0 id0 (codes "request deadline reached") 4600 none [] true
      (omega arith) deadline-IsStable empty-IsStable refl refl attached_valid

record_terminal_outcome-valid_example :
    valid_record
      (record_terminal_outcome attached0
        (some Disposition.submitted)
        RequestPhase.terminal
        Outcome.delivered
        2000
        []
        []
        []
        true).1
      id0
    ≡ true
record_terminal_outcome-valid_example =
    record_terminal_outcome-valid attached0 id0 (some Disposition.submitted) RequestPhase.terminal
      Outcome.delivered 2000 [] [] [] true (omega arith) empty-IsStable empty-IsStable
      empty-IsStable refl refl attached_valid

abbrev advance_child : Child
advance_child =
    child_of id0 Checkpoint.advance (some Disposition.submitted) RequestPhase.terminal
      (some Outcome.delivered) (codes "sent") true

advance_child_made :
    child_result id0 Checkpoint.advance
      (some Disposition.submitted)
      RequestPhase.terminal
      (some Outcome.delivered)
      (codes "sent")
      true
    ≡ returns advance_child
unfolding child_result valid_request_id
advance_child_made = refl

child_result-advance_example :
    Meaning advance_child.checkpoint advance_child.transport advance_child.phase
      advance_child.outcome
child_result-advance_example =
    child_result-advance id0 Checkpoint.advance (some Disposition.submitted) RequestPhase.terminal
      (some Outcome.delivered) (codes "sent") true advance_child advance_child_made
