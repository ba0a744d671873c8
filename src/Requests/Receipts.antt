-- ===== src/Requests/Receipts.antt =====
-- About `attach_target_owner` on a record that is retryable or terminal.
use herdres.Prelude.{
  Bool, Bool-cases, Option, Text, ap, arith, false, holds, inl, inr, is_some, leb, none, refl, some,
  true, ℕ, ◌&&◌, ◌≡◌, ◌≤◌,
}
use herdres.Requests.Evidence.{attach_owner_over, attach_target_owner, owned_record, same_owner}
use herdres.Requests.Parts.{valid_record_of_parts, valid_record_parts}
use herdres.Requests.Record.{
  CommandCodec, agrees, valid_attention, valid_finish, valid_in_state, valid_json, valid_owner,
  valid_receipt, valid_record, valid_retryable, valid_submission, valid_terminal, valid_times,
}
use herdres.Requests.Types.{Request, RequestState, TargetOwner}
use herdres.Safe.{Unicode}

module _ ⦃u : Unicode⦄ ⦃codec : CommandCodec⦄ where
  -- The states in which the time of a record is free to move on.
  abbrev pub may_age : RequestState → Bool
  may_age RequestState.retryable = true
  may_age RequestState.terminal = true
  may_age _ = false

  pub finish_later :
      (r s : Request) (id : Text)
      → r.updated_at ≤ s.updated_at
      → s.terminal_at ≡ r.terminal_at
      → agrees s id s.outcome ≡ agrees r id r.outcome
      → valid_finish r id ≡ true
      → valid_finish s id ≡ true
  unfolding valid_finish
  finish_later r s id n t a h = rw (t, a) (at_later r.terminal_at (agrees r id r.outcome) n h)
    where
      at_later :
          {x y : ℕ} (t : Option ℕ) (b : Bool)
          → x ≤ y
          → (holds (λ t. leb t x) t && b) ≡ true
          → (holds (λ t. leb t y) t && b) ≡ true
      at_later none b n h = h
      at_later (some t) b n h = ground arith

  owned-in_state :
      (st : RequestState) (r : Request) (id : Text) (owner : TargetOwner) (now : ℕ)
      → may_age st ≡ true
      → r.updated_at ≤ now
      → valid_in_state st r id ≡ true
      → valid_in_state st (owned_record owner now r) id ≡ true
  unfolding valid_retryable valid_terminal
  owned-in_state RequestState.resolving r id owner now a n h = cc
  owned-in_state RequestState.quarantined r id owner now a n h = cc
  owned-in_state RequestState.retryable r id owner now a n h = h
  owned-in_state RequestState.terminal r id owner now a n h =
      ground (arith, finish_later r (owned_record owner now r) id n refl refl)

  owned-valid_submission :
      (r : Request) (i : Option Text) (owner : TargetOwner) (now : ℕ)
      → r.target_owner ≡ none
      → valid_owner owner ≡ true
      → valid_receipt r i ≡ true
      → valid_receipt (owned_record owner now r) i ≡ true
  owned-valid_submission r none owner now o w h = rw w (ground arith)
  owned-valid_submission r (some i) owner now o w h = ground (arith, ap is_some o)

  owned-valid :
      (r : Request) (id : Text) (owner : TargetOwner) (now : ℕ)
      → r.target_owner ≡ none
      → valid_owner owner ≡ true
      → may_age r.state ≡ true
      → r.updated_at ≤ now
      → valid_record r id ≡ true
      → valid_record (owned_record owner now r) id ≡ true
  unfolding valid_times valid_submission valid_json valid_attention
  owned-valid r id owner now o w a n v =
      let p = valid_record_parts r id v in
      let times : valid_times r ≡ true = p.times in
      valid_record_of_parts _ id (record {
        same_id = p.same_id;
        times = ground arith;
        persisted = p.persisted;
        reason = p.reason;
        action = p.action;
        witness = p.witness;
        submission = owned-valid_submission r r.submission_id owner now o w p.submission;
        json = p.json;
        attention = p.attention;
        in_state = owned-in_state r.state r id owner now a n p.in_state;
      })

  owner_over-valid :
      (r : Request) (id : Text) (owner : TargetOwner) (now : ℕ) (m : Option TargetOwner)
      → r.target_owner ≡ m
      → valid_owner owner ≡ true
      → may_age r.state ≡ true
      → r.updated_at ≤ now
      → valid_record r id ≡ true
      → valid_record (attach_owner_over owner now r m).1 id ≡ true
  owner_over-valid r id owner now none o w a n v = owned-valid r id owner now o w a n v
  owner_over-valid r id owner now (some c) o w a n v = elim (Bool-cases (same_owner c owner)) [
    | inl e ↦ rw e v
    | inr e ↦ rw e v
  ]

  -- Whatever `attach_target_owner` answers, it leaves a valid record valid that is retryable or
  -- terminal, if the clock does not go back.
  pub attach_target_owner-valid :
      (r : Request) (id : Text) (owner : TargetOwner) (now : ℕ)
      → may_age r.state ≡ true
      → r.updated_at ≤ now
      → valid_record r id ≡ true
      → valid_record (attach_target_owner r owner now).1 id ≡ true
  unfolding attach_target_owner
  attach_target_owner-valid r id owner now a n v = elim (Bool-cases (valid_owner owner)) [
    | inl w ↦ rw w (owner_over-valid r id owner now r.target_owner refl w a n v)
    | inr w ↦ rw w v
  ]
