-- ===== src/Requests/Finished.antt =====
-- About `quarantine_request` and `_valid_record`.
use herdres.Prelude.{
  Bool, Option, Text, and-true, arith, false, inl, is_some, leb_refl, nat_beq_refl, none, not, refl,
  same_text-eq, some, true, ℕ, ◌&&◌, ◌||◌, ◌≡◌, ◌≤◌, ◌⊎◌,
}
use herdres.Requests.Child.{child_result, fixed_reply, is_empty}
use herdres.Requests.Envelope.{
  child_result-returns, child_result-valid_child, normalize-is_persisted, normalize-normalize,
}
use herdres.Requests.Lifecycle.{
  default_reason, is_quarantine_disposition, or_else, quarantine_child, quarantine_outcome,
  quarantine_request, quarantined_record,
}
use herdres.Requests.Parts.{valid_record_of_parts, valid_record_parts, valid_submission_later}
use herdres.Requests.Raised.{check-returns, write-kept}
use herdres.Requests.Record.{
  CommandCodec, agrees, authorizes, is_unknown, valid_attention, valid_finish, valid_json,
  valid_quarantined, valid_record, valid_times,
}
use herdres.Requests.Stable.{IsStable, fixed_or_none-default, fixed_or_none-reason}
use herdres.Requests.Types.{
  Checkpoint, Child, Disposition, Outcome, Request, RequestPhase, disposition_index,
  is_hold_outcome, is_persisted, normalize, outcome_index, phase_index, returns,
}
use herdres.Safe.{Unicode}

quarantine_outcome-holds :
    (t : Option Disposition) → is_hold_outcome (some (quarantine_outcome t)) ≡ true
quarantine_outcome-holds none = refl
quarantine_outcome-holds (some t) =
    elim t as (λ d. is_hold_outcome (some (quarantine_outcome (some d))) ≡ true) [
      | Disposition.terminal_uncertain ↦ refl
      | _ ↦ refl
    ]

module _ ⦃u : Unicode⦄ ⦃codec : CommandCodec⦄ where
  -- A disposition that `quarantine_request` takes needs a command, as `_valid_record` demands.
  quarantined-valid :
      (r : Request) (id reason : Text) (now : ℕ) (t : Option Disposition) (c : Child)
      → r.updated_at ≤ now
      → IsStable reason
      → (is_some r.request_json || not (is_some t)) ≡ true
      → is_persisted t ≡ true
      → (is_unknown (some (quarantine_outcome t)) && authorizes r.dedup_witness) ≡ false
      → agrees (quarantined_record reason now t r c) id (some c) ≡ true
      → valid_record r id ≡ true
      → valid_record (quarantined_record reason now t r c) id ≡ true
  unfolding valid_times valid_json valid_attention valid_finish valid_quarantined
  quarantined-valid r id reason now t c n s j q w a v =
      let p = valid_record_parts r id v in
      let times : valid_times r ≡ true = p.times in
      let note = fixed_or_none-reason reason (quarantine_outcome t) s in
      let written =
        and-true
          (not (is_empty (or_else (fixed_reply reason) (default_reason (quarantine_outcome t))))) _
          note in
      valid_record_of_parts _ id (record {
        same_id = p.same_id;
        times = ground arith;
        persisted = q;
        reason = note;
        action = fixed_or_none-default (quarantine_outcome t);
        witness = p.witness;
        submission = valid_submission_later r _ refl n refl refl refl refl refl refl p.submission;
        json = p.json;
        attention = rw (w, quarantine_outcome-holds t) refl;
        in_state = rw (a, written.0, leb_refl now, nat_beq_refl now, j) refl;
      })

  -- The envelope of a call agrees with the record that it is written to.
  pub agrees-child_of :
      (r : Request) (id : Text) (cp : Checkpoint) (t : Option Disposition) (p : RequestPhase)
      (o : Option Outcome) (reply : Text) (handled : Bool) (c : Child)
      → r.transport ≡ normalize t
      → r.phase ≡ p
      → r.terminal_outcome ≡ o
      → (cp ≡ Checkpoint.hold) ⊎ ((cp ≡ Checkpoint.advance) × (handled ≡ true))
      → IsStable reply
      → child_result id cp (normalize t) p o reply handled ≡ returns c
      → agrees r id (some c) ≡ true
  agrees-child_of r id cp t p o reply handled c a b d k s h =
      let v = child_result-valid_child id cp (normalize t) p o reply handled c k s h in
      let (i, j, e) = child_result-returns id cp (normalize t) p o reply handled c h in
      rw
        (
          v,
          a,
          b,
          d,
          e,
          normalize-normalize t,
          nat_beq_refl (disposition_index (normalize t)),
          nat_beq_refl (phase_index p),
          nat_beq_refl (outcome_index o),
        )
        refl

  is_some-normalize : (t : Option Disposition) → is_some (normalize t) ≡ is_some t
  is_some-normalize none = refl
  is_some-normalize (some t) = elim t as (λ d. is_some (normalize (some d)) ≡ true) [
    | Disposition.terminal_accepted ↦ refl
    | _ ↦ refl
  ]

  unknown_quarantine :
      (d : Option Disposition) (b : Bool)
      → is_quarantine_disposition d ≡ true
      → (is_some d && b) ≡ false
      → (is_unknown (some (quarantine_outcome (normalize d))) && b) ≡ false
  unknown_quarantine none b q h = refl
  unknown_quarantine (some d) b q h = rw h (ground arith)

  written-valid :
      (r : Request) (id reason : Text) (now : ℕ) (d : Option Disposition) (reply : Text)
      (handled : Bool)
      → r.updated_at ≤ now
      → IsStable reason
      → IsStable reply
      → (is_some r.request_json || not (is_some d)) ≡ true
      → (is_some d && authorizes r.dedup_witness) ≡ false
      → valid_record r id ≡ true
      → (c : Child) → quarantine_child r.request_id d reply handled ≡ returns c
      → valid_record (quarantined_record reason now (normalize d) r c) id ≡ true
  unfolding quarantine_child
  written-valid r id reason now d reply handled n s t j w v c h =
      let (q, k) = check-returns (is_quarantine_disposition d) _ c h in
      let same = same_text-eq r.request_id id (valid_record_parts r id v).same_id in
      let k' : child_result id Checkpoint.hold (normalize d) RequestPhase.terminal
            (some (quarantine_outcome (normalize d))) reply handled
          ≡ returns c =
        rw same at k in
      quarantined-valid r id reason now (normalize d) c n s (rw (is_some-normalize d) j)
        (normalize-is_persisted d) (unknown_quarantine d (authorizes r.dedup_witness) q w)
        (agrees-child_of (quarantined_record reason now (normalize d) r c) id Checkpoint.hold d
          RequestPhase.terminal (some (quarantine_outcome (normalize d))) reply handled c refl refl
          refl (inl refl) t k')
        v

  -- Whatever `quarantine_request` answers, it leaves a valid record valid, if the clock does not go
  -- back, its texts are stable, and the disposition, where it has one, is of a record with a command
  -- and without evidence that permits a replay.
  pub quarantine_request-valid :
      (r : Request) (id reason : Text) (now : ℕ) (d : Option Disposition) (reply : Text)
      (handled : Bool)
      → r.updated_at ≤ now
      → IsStable reason
      → IsStable reply
      → (is_some r.request_json || not (is_some d)) ≡ true
      → (is_some d && authorizes r.dedup_witness) ≡ false
      → valid_record r id ≡ true
      → valid_record (quarantine_request r reason now d reply handled).1 id ≡ true
  unfolding quarantine_request
  quarantine_request-valid r id reason now d reply handled n s t j w v =
      write-kept (λ x. valid_record x id ≡ true) r (quarantine_child r.request_id d reply handled)
        (quarantined_record reason now (normalize d) r) v
        (written-valid r id reason now d reply handled n s t j w v)
