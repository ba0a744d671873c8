-- ===== src/Requests/Envelope.antt =====
-- About `child_result`, and `_valid_child` on what it gives.
use herdres.Prelude.{
  Bool, Option, Text, [], arith, inl, inr, is_some, none, not, refl, same_text_refl, some, sym,
  true, ◌&&◌, ◌||◌, ◌↔◌, ◌∷◌, ◌≡◌, ◌⊎◌,
}
use herdres.Identity.{valid_request_id}
use herdres.Requests.Child.{
  child_allowed, child_of, child_result, fixed_reply, held_phase, held_transport, is_delivered,
  is_empty, valid_child,
}
use herdres.Requests.Raised.{check-returns, returns-injective}
use herdres.Requests.Stable.{IsStable, fixed_reply_plain}
use herdres.Requests.Types.{
  Checkpoint, Child, Disposition, Outcome, RequestPhase, is_hold_outcome, is_persisted, normalize,
  outcome_phase, outcome_transport, returns,
}
use herdres.Safe.{Unicode}

pub normalize-is_persisted : (t : Option Disposition) → is_persisted (normalize t) ≡ true
normalize-is_persisted none = refl
normalize-is_persisted (some t) = elim t as (λ d. is_persisted (normalize (some d)) ≡ true) [
  | Disposition.terminal_accepted ↦ refl
  | _ ↦ refl
]

pub normalize-normalize : (t : Option Disposition) → normalize (normalize t) ≡ normalize t
normalize-normalize none = refl
normalize-normalize (some t) =
    elim t as (λ d. normalize (normalize (some d)) ≡ normalize (some d)) [
      | Disposition.terminal_accepted ↦ refl
      | _ ↦ refl
    ]

delivered-is_some :
    (o : Option Outcome) (b : Bool) → (is_delivered o && b) ≡ true → is_some o ≡ true
delivered-is_some none b h = cc
delivered-is_some (some o) b h = refl

hold_outcome-is_some :
    (o : Option Outcome) (b : Bool) → (is_hold_outcome o && b) ≡ true → is_some o ≡ true
hold_outcome-is_some none b h = cc
hold_outcome-is_some (some o) b h = refl

terminal_only :
    (p : RequestPhase) → outcome_phase Outcome.delivered p ≡ true → p ≡ RequestPhase.terminal
terminal_only RequestPhase.terminal h = refl
terminal_only RequestPhase.resolving h = cc
terminal_only RequestPhase.ready h = cc
terminal_only RequestPhase.retryable h = cc
terminal_only RequestPhase.retry_authorized h = cc
terminal_only RequestPhase.accepted_unverified h = cc
terminal_only RequestPhase.queued h = cc

submitted_only :
    (t : Option Disposition)
    → outcome_transport Outcome.delivered t ≡ true
    → t ≡ some Disposition.submitted
submitted_only none h = cc
submitted_only (some d) h =
    elim d
        as (λ d.
          outcome_transport Outcome.delivered (some d) ≡ true
          → (some d) ≡ some Disposition.submitted) [
            | Disposition.submitted ↦ λ h. refl
            | _ ↦ λ h. cc
          ]
      h

abbrev pub Meaning : Checkpoint → Option Disposition → RequestPhase → Option Outcome → Type 0
Meaning cp t p o =
    ((cp ≡ Checkpoint.advance) ↔ (o ≡ some Outcome.delivered))
    × (cp ≡ Checkpoint.advance → (t ≡ some Disposition.submitted) × (p ≡ RequestPhase.terminal))
    × ((cp ≡ Checkpoint.retry) ↔ (o ≡ none))

allowed-Meaning :
    (handled : Bool) (cp : Checkpoint) (t : Option Disposition) (p : RequestPhase)
    (o : Option Outcome) (reply : Text)
    → child_allowed handled cp t p o reply ≡ true
    → Meaning cp t p o
allowed-Meaning handled Checkpoint.retry t p none reply h = ground arith
allowed-Meaning handled Checkpoint.retry t p (some o) reply h = ground arith
allowed-Meaning handled Checkpoint.advance t p none reply h = cc
allowed-Meaning handled Checkpoint.advance t p (some Outcome.delivered) reply h =
    ground (arith, terminal_only p, submitted_only t)
allowed-Meaning handled Checkpoint.advance t p (some Outcome.not_delivered) reply h = cc
allowed-Meaning handled Checkpoint.advance t p (some Outcome.delivery_unknown) reply h = cc
allowed-Meaning handled Checkpoint.hold t p none reply h = cc
allowed-Meaning handled Checkpoint.hold t p (some Outcome.delivered) reply h = cc
allowed-Meaning handled Checkpoint.hold t p (some Outcome.not_delivered) reply h = ground arith
allowed-Meaning handled Checkpoint.hold t p (some Outcome.delivery_unknown) reply h = ground arith

module _ ⦃u : Unicode⦄ where
  pub fixed_reply-is_empty : (t : Text) → is_empty t ≡ true → is_empty (fixed_reply t) ≡ true
  fixed_reply-is_empty [] h = rw (fixed_reply_plain [] refl (omega arith)) refl
  fixed_reply-is_empty (c ∷ cs) h = cc

  pub child_result-returns :
      (id : Text) (cp : Checkpoint) (t : Option Disposition) (p : RequestPhase) (o : Option Outcome)
      (reply : Text) (handled : Bool) (c : Child)
      → child_result id cp t p o reply handled ≡ returns c
      → (valid_request_id id ≡ true)
        × (child_allowed handled cp (normalize t) p o reply ≡ true)
        × (c ≡ child_of id cp t p o reply handled)
  unfolding child_result
  child_result-returns id cp t p o reply handled c h =
      let (a, k) = check-returns (valid_request_id id) _ c h in
      let (b, e) = check-returns (child_allowed handled cp (normalize t) p o reply) _ c k in
      (a, b, sym (returns-injective _ c e))

  advance-valid_child :
      (id : Text) (t : Option Disposition) (p : RequestPhase) (o : Option Outcome) (reply : Text)
      → IsStable reply
      → child_allowed true Checkpoint.advance (normalize t) p o reply ≡ true
      → valid_child (child_of id Checkpoint.advance t p o reply true) id ≡ true
  unfolding valid_child
  advance-valid_child id t p o reply s h =
      rw (same_text_refl id, normalize-is_persisted t, s, same_text_refl (fixed_reply reply))
        (ground (arith, delivered-is_some o (held_phase o p && held_transport o (normalize t))))

  hold-valid_child :
      (id : Text) (t : Option Disposition) (p : RequestPhase) (o : Option Outcome) (reply : Text)
      (handled : Bool)
      → IsStable reply
      → child_allowed handled Checkpoint.hold (normalize t) p o reply ≡ true
      → valid_child (child_of id Checkpoint.hold t p o reply handled) id ≡ true
  unfolding valid_child
  hold-valid_child id t p o reply handled s h =
      rw (same_text_refl id, normalize-is_persisted t, s, same_text_refl (fixed_reply reply))
        (ground (
          arith,
          fixed_reply-is_empty reply,
          hold_outcome-is_some o (
              held_transport o (normalize t)
              && held_phase o p
              && (handled || (not (is_some (normalize t)) && is_empty reply))),
        ))

  -- An envelope that `child_result` gives with a final checkpoint passes `_valid_child`, if its reply
  -- is stable and, where it advances, it is handled.
  pub child_result-valid_child :
      (id : Text) (cp : Checkpoint) (t : Option Disposition) (p : RequestPhase) (o : Option Outcome)
      (reply : Text) (handled : Bool) (c : Child)
      → (cp ≡ Checkpoint.hold) ⊎ ((cp ≡ Checkpoint.advance) × (handled ≡ true))
      → IsStable reply
      → child_result id cp t p o reply handled ≡ returns c
      → valid_child c id ≡ true
  child_result-valid_child id cp t p o reply handled c k s h =
      let (v, a, e) = child_result-returns id cp t p o reply handled c h in
      elim k [
        | inl q ↦ let a' = rw q at a in rw (e, q) (hold-valid_child id t p o reply handled s a')
        | inr q ↦ let a' = rw q.0 at a in rw (e, q.0, q.1) (advance-valid_child id t p o reply s a')
      ]

  -- Only a verified delivery advances the checkpoint of the receiver, and a retry says nothing final.
  pub child_result-advance :
      (id : Text) (cp : Checkpoint) (t : Option Disposition) (p : RequestPhase) (o : Option Outcome)
      (reply : Text) (handled : Bool) (c : Child)
      → child_result id cp t p o reply handled ≡ returns c
      → Meaning c.checkpoint c.transport c.phase c.outcome
  child_result-advance id cp t p o reply handled c h =
      let (v, a, e) = child_result-returns id cp t p o reply handled c h in
      rw e (allowed-Meaning handled cp (normalize t) p o reply a)
