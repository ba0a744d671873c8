-- ===== src/Requests/Outcomes.antt =====
-- About `record_terminal_outcome` and `_valid_record`.
use herdres.Prelude.{
  Bool, Option, Text, [], ap, arith, false, if◌then◌else◌, inl, inr, is_some, leb_refl, not, refl,
  same_text-eq, some, true, ℕ, ◌&&◌, ◌||◌, ◌∷◌, ◌≡◌, ◌≤◌, ◌⊎◌,
}
use herdres.Requests.Child.{child_result, fixed_reply, is_delivered, is_empty}
use herdres.Requests.Envelope.{normalize-is_persisted}
use herdres.Requests.Finished.{agrees-child_of}
use herdres.Requests.Lifecycle.{
  default_action, default_reason, or_else, or_none, outcome_checkpoint, outcome_child, outcome_note,
  record_terminal_outcome, terminal_record,
}
use herdres.Requests.Parts.{valid_record_of_parts, valid_record_parts, valid_submission_later}
use herdres.Requests.Raised.{check-returns, write-kept}
use herdres.Requests.Record.{
  CommandCodec, agrees, authorizes, fixed_or_none, is_unknown, valid_attention, valid_finish,
  valid_json, valid_record, valid_terminal, valid_times,
}
use herdres.Requests.Stable.{
  IsStable, fixed_or_none-action, fixed_or_none-or_none, fixed_or_none-reason, fixed_reply_plain,
}
use herdres.Requests.Types.{
  Checkpoint, Child, Disposition, Outcome, Request, RequestPhase, is_hold_outcome, is_persisted,
  normalize, outcome_phase, outcome_transport, returns,
}
use herdres.Safe.{Unicode}

module _ ⦃u : Unicode⦄ ⦃codec : CommandCodec⦄ where
  note-reason :
      (o : Outcome) (text : Text)
      → IsStable text
      → fixed_or_none (outcome_note o text (default_reason o)) ≡ true
  note-reason Outcome.delivered text s = refl
  note-reason Outcome.not_delivered text s =
      fixed_or_none-or_none (or_else (fixed_reply text) (default_reason Outcome.not_delivered))
        (fixed_or_none-reason text Outcome.not_delivered s)
  note-reason Outcome.delivery_unknown text s =
      fixed_or_none-or_none (or_else (fixed_reply text) (default_reason Outcome.delivery_unknown))
        (fixed_or_none-reason text Outcome.delivery_unknown s)

  note-action :
      (o : Outcome) (text : Text)
      → IsStable text
      → fixed_or_none (outcome_note o text (default_action o)) ≡ true
  note-action Outcome.delivered text s = refl
  note-action Outcome.not_delivered text s =
      fixed_or_none-or_none (or_else (fixed_reply text) (default_action Outcome.not_delivered))
        (fixed_or_none-action text Outcome.not_delivered s)
  note-action Outcome.delivery_unknown text s =
      fixed_or_none-or_none (or_else (fixed_reply text) (default_action Outcome.delivery_unknown))
        (fixed_or_none-action text Outcome.delivery_unknown s)

  or_else-is_some : (t d : Text) → is_empty d ≡ false → is_some (or_none (or_else t d)) ≡ true
  or_else-is_some [] [] h = cc
  or_else-is_some [] (c ∷ d) h = refl
  or_else-is_some (c ∷ t) d h = refl

  attention-outcome :
      (o : Outcome) (reason action : Text)
      → (if is_hold_outcome (some o)
          then is_hold_outcome (some o)
            && is_some (outcome_note o reason (default_reason o))
            && is_some (outcome_note o action (default_action o))
          else not (is_hold_outcome (some o)))
        ≡ true
  attention-outcome Outcome.delivered reason action = refl
  attention-outcome Outcome.not_delivered reason action =
      rw
        (
          or_else-is_some (fixed_reply reason) (default_reason Outcome.not_delivered) refl,
          or_else-is_some (fixed_reply action) (default_action Outcome.not_delivered) refl,
        )
        refl
  attention-outcome Outcome.delivery_unknown reason action =
      rw
        (
          or_else-is_some (fixed_reply reason) (default_reason Outcome.delivery_unknown) refl,
          or_else-is_some (fixed_reply action) (default_action Outcome.delivery_unknown) refl,
        )
        refl

  finished-valid :
      (r : Request) (id reason action : Text) (now : ℕ) (t : Option Disposition) (p : RequestPhase)
      (o : Outcome) (c : Child)
      → r.updated_at ≤ now
      → IsStable reason
      → IsStable action
      → is_some r.request_json ≡ true
      → is_persisted t ≡ true
      → (is_unknown (some o) && authorizes r.dedup_witness) ≡ false
      → agrees (terminal_record t p o now reason action r c) id (some c) ≡ true
      → valid_record r id ≡ true
      → valid_record (terminal_record t p o now reason action r c) id ≡ true
  unfolding valid_times valid_json valid_attention valid_finish valid_terminal
  finished-valid r id reason action now t p o c n s k j q w a v =
      let d = valid_record_parts r id v in
      let times : valid_times r ≡ true = d.times in
      valid_record_of_parts _ id (record {
        same_id = d.same_id;
        times = ground arith;
        persisted = q;
        reason = note-reason o reason s;
        action = note-action o action k;
        witness = d.witness;
        submission = valid_submission_later r _ refl n refl refl refl refl refl refl d.submission;
        json = d.json;
        attention = rw w (attention-outcome o reason action);
        in_state = rw (a, j, leb_refl now) refl;
      })

  outcome_checkpoint-final :
      (o : Outcome) (handled : Bool)
      → (is_hold_outcome (some o) || handled) ≡ true
      → (outcome_checkpoint o ≡ Checkpoint.hold)
        ⊎ ((outcome_checkpoint o ≡ Checkpoint.advance) × (handled ≡ true))
  outcome_checkpoint-final Outcome.delivered handled h = inr (refl, h)
  outcome_checkpoint-final Outcome.not_delivered handled h = inl refl
  outcome_checkpoint-final Outcome.delivery_unknown handled h = inl refl

  IsStable-or_empty : (b : Bool) (t : Text) → IsStable t → IsStable (if b then t else [])
  IsStable-or_empty true t s = s
  IsStable-or_empty false t s = ap fixed_reply (fixed_reply_plain [] refl (omega arith))

  written-finished :
      (r : Request) (id : Text) (d : Option Disposition) (p : RequestPhase) (o : Outcome) (now : ℕ)
      (reply reason action : Text) (handled : Bool)
      → r.updated_at ≤ now
      → IsStable reply
      → IsStable reason
      → IsStable action
      → (is_hold_outcome (some o) || handled) ≡ true
      → (is_unknown (some o) && authorizes r.dedup_witness) ≡ false
      → valid_record r id ≡ true
      → (c : Child) → outcome_child r d p o reply handled ≡ returns c
      → valid_record (terminal_record (normalize d) p o now reason action r c) id ≡ true
  unfolding outcome_child
  written-finished r id d p o now reply reason action handled n s t a f w v c h =
      let (x, h1) = check-returns (outcome_transport o (normalize d)) _ c h in
      let (j, h2) = check-returns (is_some r.request_json) _ c h1 in
      let (y, h3) = check-returns (outcome_phase o p) _ c h2 in
      let same = same_text-eq r.request_id id (valid_record_parts r id v).same_id in
      let k : child_result id (outcome_checkpoint o) (normalize d) p (some o)
            (if is_delivered (some o) then reply else []) handled
          ≡ returns c =
        rw same at h3 in
      finished-valid r id reason action now (normalize d) p o c n t a j (normalize-is_persisted d) w
        (agrees-child_of (terminal_record (normalize d) p o now reason action r c) id
          (outcome_checkpoint o) d p (some o) (if is_delivered (some o) then reply else []) handled
          c refl refl refl (outcome_checkpoint-final o handled f)
          (IsStable-or_empty (is_delivered (some o)) reply s) k)
        v

  -- Whatever `record_terminal_outcome` answers, it leaves a valid record valid, if the clock does not
  -- go back, its texts are stable, a delivery is handled, and no outcome that is unknown meets
  -- evidence that permits a replay.
  pub record_terminal_outcome-valid :
      (r : Request) (id : Text) (d : Option Disposition) (p : RequestPhase) (o : Outcome) (now : ℕ)
      (reply reason action : Text) (handled : Bool)
      → r.updated_at ≤ now
      → IsStable reply
      → IsStable reason
      → IsStable action
      → (is_hold_outcome (some o) || handled) ≡ true
      → (is_unknown (some o) && authorizes r.dedup_witness) ≡ false
      → valid_record r id ≡ true
      → valid_record (record_terminal_outcome r d p o now reply reason action handled).1 id ≡ true
  unfolding record_terminal_outcome
  record_terminal_outcome-valid r id d p o now reply reason action handled n s t a f w v =
      write-kept (λ x. valid_record x id ≡ true) r (outcome_child r d p o reply handled)
        (terminal_record (normalize d) p o now reason action r) v
        (written-finished r id d p o now reply reason action handled n s t a f w v)
