-- ===== src/Gateway/Written.antt =====
-- About an envelope that the child writes and the gateway reads.
use herdres.Prelude.{
  Bool, Option, Text, [], ap, arith, none, refl, same_text_of_eq, same_text_refl, some, true, ◌≡◌,
}
use herdres.Gateway.Command.{checkpoint_for_command_result, checkpoint_in, envelope}
use herdres.Gateway.Envelope.{
  is_submitted, read_word_or_null, reads, response_allowed, validated_child_response,
}
use herdres.Gateway.Words.{
  read_checkpoint, read_disposition, read_outcome, read_phase, write_checkpoint, write_disposition,
  write_or_null, write_outcome, write_phase,
}
use herdres.Json.Values.{Json}
use herdres.Requests.Child.{
  child_allowed, child_of, child_reply, child_result, fixed_reply, held_transport, is_delivered,
}
use herdres.Requests.Envelope.{child_result-returns, fixed_reply-is_empty, normalize-is_persisted}
use herdres.Requests.Stable.{IsStable, plain-IsStable}
use herdres.Requests.Types.{
  Checkpoint, Child, Disposition, Outcome, RequestPhase, is_persisted, normalize, outcome_transport,
  returns,
}
use herdres.Safe.{Unicode, sanitize_text}

read-checkpoint : (c : Checkpoint) → read_checkpoint (write_checkpoint c) ≡ some c
read-checkpoint c = elim c as (λ c. read_checkpoint (write_checkpoint c) ≡ some c) [
  | Checkpoint.retry ↦ refl
  | Checkpoint.hold ↦ refl
  | Checkpoint.advance ↦ refl
]

read-phase : (p : RequestPhase) → read_phase (write_phase p) ≡ some p
read-phase p = elim p as (λ p. read_phase (write_phase p) ≡ some p) [
  | RequestPhase.resolving ↦ refl
  | RequestPhase.ready ↦ refl
  | RequestPhase.retryable ↦ refl
  | RequestPhase.retry_authorized ↦ refl
  | RequestPhase.accepted_unverified ↦ refl
  | RequestPhase.queued ↦ refl
  | RequestPhase.terminal ↦ refl
]

read-outcome :
    (o : Option Outcome) → read_word_or_null read_outcome (write_or_null write_outcome o) ≡ reads o
read-outcome none = refl
read-outcome (some Outcome.delivered) = refl
read-outcome (some Outcome.not_delivered) = refl
read-outcome (some Outcome.delivery_unknown) = refl

read-disposition :
    (t : Option Disposition)
    → is_persisted t ≡ true
    → read_word_or_null read_disposition (write_or_null write_disposition t) ≡ reads t
read-disposition none h = refl
read-disposition (some d) h =
    elim d
        as (λ d.
          is_persisted (some d) ≡ true
          → read_word_or_null read_disposition (write_or_null write_disposition (some d))
            ≡ reads (some d)) [
              | Disposition.no_receipt ↦ λ h. refl
              | Disposition.in_progress ↦ λ h. refl
              | Disposition.terminal_accepted ↦ λ h. cc
              | Disposition.terminal_rejected ↦ λ h. refl
              | Disposition.terminal_uncertain ↦ λ h. refl
              | Disposition.written_to_pty ↦ λ h. refl
              | Disposition.submitted ↦ λ h. refl
              | Disposition.agent_prompt_not_received ↦ λ h. refl
              | Disposition.agent_prompt_unsubmitted ↦ λ h. refl
              | Disposition.agent_prompt_stalled ↦ λ h. refl
              | Disposition.agent_input_pending ↦ λ h. refl
            ]
      h

module _ ⦃u : Unicode⦄ where
  -- An envelope with a reply that sanitizing leaves alone is read back, if its checkpoint allows it.
  validated-envelope :
      (c : Child)
      → is_persisted c.transport ≡ true
      → sanitize_text c.reply 160 ≡ c.reply
      → response_allowed c c.checkpoint ≡ true
      → validated_child_response (Json.object (envelope c)) c.request_id ≡ reads c
  unfolding validated_child_response
  validated-envelope c p s r =
      rw
        (
          same_text_refl c.request_id,
          read-checkpoint c.checkpoint,
          read-disposition c.transport p,
          read-phase c.phase,
          read-outcome c.outcome,
          same_text_of_eq (sanitize_text c.reply 160) c.reply s,
          r,
        )
        refl

  delivered-is_submitted :
      (o : Option Outcome) (t : Option Disposition)
      → is_delivered o ≡ true
      → held_transport o t ≡ true
      → is_submitted t ≡ true
  delivered-is_submitted none t h k = cc
  delivered-is_submitted (some Outcome.not_delivered) t h k = cc
  delivered-is_submitted (some Outcome.delivery_unknown) t h k = cc
  delivered-is_submitted (some Outcome.delivered) none h k = cc
  delivered-is_submitted (some Outcome.delivered) (some d) h k =
      elim d
          as (λ d.
            outcome_transport Outcome.delivered (some d) ≡ true → is_submitted (some d) ≡ true) [
              | Disposition.submitted ↦ λ k. refl
              | _ ↦ λ k. cc
            ]
        k

  -- What `child_result` allows, the gateway allows.
  child_allowed-allowed :
      (id : Text) (cp : Checkpoint) (t : Option Disposition) (p : RequestPhase) (o : Option Outcome)
      (reply : Text) (handled : Bool)
      → (cp ≡ Checkpoint.advance → handled ≡ true)
      → child_allowed handled cp (normalize t) p o reply ≡ true
      → response_allowed (child_of id cp t p o reply handled) cp ≡ true
  child_allowed-allowed id Checkpoint.retry t p o reply handled k h =
      let e = fixed_reply-is_empty [] refl in ground (arith, e)
  child_allowed-allowed id Checkpoint.advance t p o reply handled k h =
      let s = delivered-is_submitted o (normalize t) in let l = k refl in ground (arith, s, l)
  child_allowed-allowed id Checkpoint.hold t p o reply handled k h =
      let e = fixed_reply-is_empty reply in ground (arith, e)

  stable-sanitized :
      (cp : Checkpoint) (reply : Text)
      → IsStable reply
      → sanitize_text (fixed_reply (child_reply cp reply)) 160 ≡ fixed_reply (child_reply cp reply)
  unfolding fixed_reply
  stable-sanitized Checkpoint.retry reply s = plain-IsStable [] refl (omega arith)
  stable-sanitized Checkpoint.hold reply s = s
  stable-sanitized Checkpoint.advance reply s = s

  -- Every envelope that `child_result` builds is read back by the gateway as it is, and the gateway
  -- takes its checkpoint, if its reply is stable under sanitizing and, where it advances, it is
  -- handled.
  pub child_result-validated_child_response :
      (id : Text) (cp : Checkpoint) (t : Option Disposition) (p : RequestPhase) (o : Option Outcome)
      (reply : Text) (handled : Bool) (c : Child)
      → (cp ≡ Checkpoint.advance → handled ≡ true)
      → IsStable reply
      → child_result id cp t p o reply handled ≡ returns c
      → (validated_child_response (Json.object (envelope c)) id ≡ reads c)
        × (checkpoint_for_command_result c id ≡ reads cp)
  unfolding checkpoint_for_command_result
  child_result-validated_child_response id cp t p o reply handled c k s h =
      let (v, a, e) = child_result-returns id cp t p o reply handled c h in
      let d = child_of id cp t p o reply handled in
      let back : validated_child_response (Json.object (envelope d)) id ≡ reads d =
        validated-envelope d (normalize-is_persisted t) (stable-sanitized cp reply s)
          (child_allowed-allowed id cp t p o reply handled k a) in
      rw e (back, ap checkpoint_in back)
