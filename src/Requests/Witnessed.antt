-- ===== src/Requests/Witnessed.antt =====
-- About `record_dedup_witness` on a terminal record with a held outcome.
use herdres.Prelude.{
  Bool, Bool-cases, Option, Text, and-true, arith, codes, false, if◌then◌else◌, inl, inr, is_some,
  not, refl, some, subst, true, ℕ, ◌&&◌, ◌≡◌, ◌≤◌,
}
use herdres.Requests.Child.{is_empty}
use herdres.Requests.Evidence.{
  composer_allowed, is_unreadable, new_witness, record_dedup_witness, same_witness,
  witnessed_record,
}
use herdres.Requests.Parts.{valid_record_of_parts, valid_record_parts, valid_submission_later}
use herdres.Requests.Receipts.{finish_later}
use herdres.Requests.Record.{
  CommandCodec, authorizes, fits, fixed_or_none, is_unknown, is_verdict, nonempty_fits,
  valid_attention, valid_finish, valid_in_state, valid_json, valid_record, valid_terminal,
  valid_times, valid_witness, valid_witness?,
}
use herdres.Requests.Stable.{fixed_or_none_of, fixed_reply_plain}
use herdres.Requests.Types.{
  DedupWitness, Disposition, Raises, Request, RequestState, is_hold_outcome, returns, value_error,
}
use herdres.Safe.{Unicode}

module _ ⦃u : Unicode⦄ ⦃codec : CommandCodec⦄ where
  unknown_unauthorized :
      (r : Request) (prompt : Text) (composer : Option Text) (verdict : Disposition)
      (gen : Option Text) (now : ℕ)
      → (is_unknown r.terminal_outcome
          && (new_witness r prompt composer verdict gen now).automatic_replay_authorized)
        ≡ false
  unknown_unauthorized r prompt composer verdict gen now = ground arith

  held_attention :
      (r : Request)
      → is_hold_outcome r.terminal_outcome ≡ true
      → valid_attention r ≡ true
      → (r.operator_attention_required ≡ true)
        × (is_some r.blocked_reason ≡ true)
        × (is_some r.next_action ≡ true)
  unfolding valid_attention
  held_attention r h v = ground arith

  abbrev noted : Option DedupWitness → Bool → Option Text → Option Text → ℕ → Request → Request
  noted w o b a now r = record r {
    dedup_witness = w;
    operator_attention_required = o;
    blocked_reason = b;
    next_action = a;
    updated_at = now;
  }

  noted-valid :
      (r : Request) (id : Text) (w : Option DedupWitness) (o : Bool) (b a : Option Text) (now : ℕ)
      → r.state ≡ RequestState.terminal
      → is_hold_outcome r.terminal_outcome ≡ true
      → r.updated_at ≤ now
      → valid_witness? w ≡ true
      → (is_unknown r.terminal_outcome && authorizes w) ≡ false
      → o ≡ true
      → fixed_or_none b ≡ true
      → fixed_or_none a ≡ true
      → is_some b ≡ true
      → is_some a ≡ true
      → valid_record r id ≡ true
      → valid_record (noted w o b a now r) id ≡ true
  unfolding valid_times valid_json valid_attention valid_terminal valid_finish
  noted-valid r id w o b a now st h n x y q f g k l v =
      let p = valid_record_parts r id v in
      let times : valid_times r ≡ true = p.times in
      let fin : (valid_finish r id && valid_terminal r) ≡ true =
        subst (λ z. valid_in_state z r id ≡ true) st p.in_state in
      let parts = and-true (valid_finish r id) (valid_terminal r) fin in
      let t : valid_terminal r ≡ true = parts.1 in
      let later = finish_later r (noted w o b a now r) id n refl refl parts.0 in
      valid_record_of_parts (noted w o b a now r) id (record {
        same_id = p.same_id;
        times = ground arith;
        persisted = p.persisted;
        reason = f;
        action = g;
        witness = x;
        submission = valid_submission_later r _ refl n refl refl refl refl refl refl p.submission;
        json = p.json;
        attention = rw (y, h, q, k, l) refl;
        in_state = rw (st, later) t;
      })

  abbrev either : Bool → Bool → Request → Request → Raises Bool × Request
  either g same r w =
      if g then (if same then (returns false, r) else (returns true, w)) else (value_error, r)

  either_way :
      (a b same : Bool) (r w : Request) (id : Text)
      → valid_record r id ≡ true
      → (b ≡ true → valid_record w id ≡ true)
      → valid_record (either (a && b) same r w).1 id ≡ true
  either_way false b same r w id v k = v
  either_way true false same r w id v k = v
  either_way true true true r w id v k = v
  either_way true true false r w id v k = k refl

  unread_reason : fixed_or_none (some (codes "composer could not be read")) ≡ true
  unread_reason =
      fixed_or_none_of (codes "composer could not be read") refl
        (fixed_reply_plain (codes "composer could not be read") refl (omega arith))

  unread_action : fixed_or_none (some (codes "inspect the pane before any replay")) ≡ true
  unread_action =
      fixed_or_none_of (codes "inspect the pane before any replay") refl
        (fixed_reply_plain (codes "inspect the pane before any replay") refl (omega arith))

  witnessed-valid :
      (r : Request) (id : Text) (w : DedupWitness) (now : ℕ)
      → r.state ≡ RequestState.terminal
      → is_hold_outcome r.terminal_outcome ≡ true
      → r.updated_at ≤ now
      → valid_witness w ≡ true
      → (is_unknown r.terminal_outcome && w.automatic_replay_authorized) ≡ false
      → valid_record r id ≡ true
      → valid_record (witnessed_record w now r) id ≡ true
  witnessed-valid r id w now st h n x y v =
      let p = valid_record_parts r id v in
      let (o, k, l) = held_attention r h p.attention in
      elim (Bool-cases (is_unreadable w.comparison)) [
        | inl e ↦ rw e (
            noted-valid r id (some w) true (some (codes "composer could not be read"))
              (some (codes "inspect the pane before any replay")) now st h n x y refl unread_reason
              unread_action refl refl v)
        | inr e ↦ rw e (
            noted-valid r id (some w) r.operator_attention_required r.blocked_reason r.next_action
              now st h n x y o p.reason p.action k l v)
      ]

  -- Whatever `record_dedup_witness` answers, it leaves a valid record valid that is terminal with a
  -- held outcome, if the clock does not go back.
  pub record_dedup_witness-valid :
      (r : Request) (id prompt : Text) (composer : Option Text) (readable : Bool)
      (verdict : Disposition) (gen : Option Text) (now : ℕ)
      → r.state ≡ RequestState.terminal
      → is_hold_outcome r.terminal_outcome ≡ true
      → r.updated_at ≤ now
      → valid_record r id ≡ true
      → valid_record (record_dedup_witness r prompt composer readable verdict gen now).1 id ≡ true
  unfolding record_dedup_witness
  record_dedup_witness-valid r id prompt composer readable verdict gen now st h n v =
      let w = new_witness r prompt composer verdict gen now in
      either_way
        (not (is_empty prompt)
          && fits prompt
          && is_verdict verdict
          && nonempty_fits gen
          && composer_allowed readable composer)
        (valid_witness w) (same_witness r.dedup_witness w) r (witnessed_record w now r) id v
        (λ x.
          witnessed-valid r id w now st h n x
            (unknown_unauthorized r prompt composer verdict gen now) v)
