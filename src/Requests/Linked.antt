-- ===== src/Requests/Linked.antt =====
-- About `attach_submission_receipt` with the state `linked` and no turn, and the handler of its
-- error, which quarantines the record.
use herdres.Prelude.{
  Bool, Option, Text, ap, arith, false, is_some, none, not-true, refl, some, true, ℕ, ◌≡◌,
}
use herdres.Requests.Evidence.{attach_submission_receipt, receipt_allowed, receipt_written}
use herdres.Requests.Lifecycle.{quarantine_child, quarantine_request, quarantined_record}
use herdres.Requests.Parts.{valid_record_parts}
use herdres.Requests.Raised.{write-kept}
use herdres.Requests.Record.{CommandCodec, is_linked, valid_receipt, valid_record, valid_submission}
use herdres.Requests.Types.{Disposition, Request, SubmissionState, normalize, value_error}
use herdres.Safe.{Unicode}

module _ ⦃u : Unicode⦄ ⦃codec : CommandCodec⦄ where
  abbrev pub HalfLinked : Request → Text → Type 0
  HalfLinked r i =
      (r.submission_id ≡ some i)
      × (r.submission_state ≡ some SubmissionState.linked)
      × (r.turn_id ≡ none)

  no_turn :
      (r : Request) (i : Text)
      → r.submission_state ≡ some SubmissionState.linked
      → r.turn_id ≡ none
      → valid_receipt r (some i) ≡ false
  no_turn r i b c = not-true _ (λ v. ground (arith, ap is_linked b, ap is_some c, v))

  HalfLinked-invalid : (r : Request) (id i : Text) → HalfLinked r i → valid_record r id ≡ false
  unfolding valid_submission
  HalfLinked-invalid r id i h = not-true (valid_record r id) (λ v.
      let e : valid_receipt r r.submission_id ≡ true = (valid_record_parts r id v).submission in
      cc (no_turn r i h.1 h.2, h.0, e))

  HalfLinked-written :
      (r : Request) (i : Text) (now : ℕ)
      → r.turn_id ≡ none
      → receipt_allowed r i none ≡ true
      → attach_submission_receipt r i SubmissionState.linked none now
        ≡ (value_error, receipt_written r i SubmissionState.linked none now)
  unfolding attach_submission_receipt
  HalfLinked-written r i now t a = rw (a, t) refl

  HalfLinked-quarantine_request :
      (r : Request) (i reason : Text) (now : ℕ) (d : Option Disposition) (reply : Text)
      (handled : Bool)
      → HalfLinked r i
      → HalfLinked (quarantine_request r reason now d reply handled).1 i
  unfolding quarantine_request
  HalfLinked-quarantine_request r i reason now d reply handled h =
      write-kept (λ x. HalfLinked x i) r (quarantine_child r.request_id d reply handled)
        (quarantined_record reason now (normalize d) r) h (λ c e. h)

  -- A receipt that says `linked` without a turn, for a record that has none, raises `ValueError`, and
  -- the record that `quarantine_request` then leaves is not valid.
  pub attach_submission_receipt-linked :
      (r : Request) (id i reason : Text) (now : ℕ) (d : Option Disposition) (reply : Text)
      (handled : Bool)
      → r.turn_id ≡ none
      → receipt_allowed r i none ≡ true
      → ((attach_submission_receipt r i SubmissionState.linked none now).0 ≡ value_error)
        × (valid_record
              (quarantine_request
                (attach_submission_receipt r i SubmissionState.linked none now).1
                reason
                now
                d
                reply
                handled).1
              id
            ≡ false)
  attach_submission_receipt-linked r id i reason now d reply handled t a =
      let w = receipt_written r i SubmissionState.linked none now in
      rw (HalfLinked-written r i now t a) (
        refl,
        HalfLinked-invalid _ id i
            (HalfLinked-quarantine_request w i reason now d reply handled (refl, refl, t)),
      )
