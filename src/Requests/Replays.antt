-- ===== src/Requests/Replays.antt =====
-- About `record_dedup_witness` and `automatic_replay_authorized`.
use herdres.Prelude.{
  Bool, Bool-cases, Option, Text, ap, arith, false, if◌then◌else◌, inl, inr, nat_eq, none, not,
  not-true, refl, same_text-eq, same_text_of_eq, some, string_eq, sym, text_eq, true, ℕ, ◌&&◌, ◌==◌,
  ◌↔◌, ◌∙◌, ◌≡◌,
}
use herdres.Requests.Child.{is_empty}
use herdres.Requests.Evidence.{
  automatic_replay_authorized, compare_composer, composer_allowed, is_different, is_not_delivered,
  is_unreadable, new_witness, record_dedup_witness, same_witness, witness_permits, witnessed_record,
}
use herdres.Requests.Parts.{valid_record_parts}
use herdres.Requests.Record.{
  CommandCodec, fits, is_not_received, is_unknown, is_verdict, nonempty_fits, valid_attention,
  valid_record, valid_witness,
}
use herdres.Requests.Types.{
  Comparison, DedupWitness, Disposition, Outcome, Raises, Request, is_hold_outcome, returns,
  value_error,
}
use herdres.Safe.{Unicode}

module _ ⦃u : Unicode⦄ ⦃codec : CommandCodec⦄ where
  is_not_received-eq :
      (d : Disposition) → is_not_received d ≡ true → d ≡ Disposition.agent_prompt_not_received
  is_not_received-eq d h =
      elim d as (λ d. is_not_received d ≡ true → d ≡ Disposition.agent_prompt_not_received) [
        | Disposition.agent_prompt_not_received ↦ λ h. refl
        | _ ↦ λ h. cc
      ]
        h

  is_not_delivered-eq :
      (o : Option Outcome) → is_not_delivered o ≡ true → o ≡ some Outcome.not_delivered
  is_not_delivered-eq none h = cc
  is_not_delivered-eq (some Outcome.delivered) h = cc
  is_not_delivered-eq (some Outcome.not_delivered) h = refl
  is_not_delivered-eq (some Outcome.delivery_unknown) h = cc

  compare-different :
      (prompt : Text) (composer : Option Text)
      → is_different (compare_composer prompt composer) ≡ true
      → (c : Text) × (composer ≡ some c) × ¬ (c ≡ prompt)
  compare-different prompt none h = cc
  compare-different prompt (some c) h = elim (Bool-cases (c == prompt)) [
    | inl e ↦ cc (rw e at h)
    | inr e ↦ (c, refl, λ q. cc (e, same_text_of_eq c prompt q))
  ]

  abbrev answer_of : Bool → Bool → Request → Request → Raises Bool × Request
  answer_of g same r w =
      if g then (if same then (returns false, r) else (returns true, w)) else (value_error, r)

  answered_true :
      (g same : Bool) (r w s : Request)
      → answer_of g same r w ≡ (returns true, s)
      → (g ≡ true) × (s ≡ w)
  answered_true true true r w s h = cc (ap (λ p. p.0) h)
  answered_true true false r w s h = (refl, sym (ap (λ p. p.1) h))
  answered_true false same r w s h = cc (ap (λ p. p.0) h)

  -- A call that answers `True` passed the checks and wrote its witness.
  pub recorded_lem :
      (r : Request) (prompt : Text) (composer : Option Text) (readable : Bool)
      (verdict : Disposition) (gen : Option Text) (now : ℕ) (s : Request)
      → record_dedup_witness r prompt composer readable verdict gen now ≡ (returns true, s)
      → (composer_allowed readable composer ≡ true)
        × (s ≡ witnessed_record (new_witness r prompt composer verdict gen now) now r)
  unfolding record_dedup_witness
  recorded_lem r prompt composer readable verdict gen now s h =
      let w = new_witness r prompt composer verdict gen now in
      let (g, e) =
        answered_true
          (not (is_empty prompt)
            && fits prompt
            && is_verdict verdict
            && nonempty_fits gen
            && composer_allowed readable composer
            && valid_witness w)
          (same_witness r.dedup_witness w) r (witnessed_record w now r) s h in
      (ground arith, e)

  -- The provider says that the prompt was not received, and the composer was read and shows another
  -- text than the prompt.
  pub record Evidence (prompt : Text) (composer : Option Text) (readable : Bool)
      (verdict : Disposition) : Type 0 where
    pub read : readable ≡ true
    pub unreceived : verdict ≡ Disposition.agent_prompt_not_received
    pub elsewhere : (c : Text) × (composer ≡ some c) × ¬ (c ≡ prompt)

  Evidence-intro :
      (prompt : Text) (composer : Option Text) (readable : Bool) (verdict : Disposition)
      → composer_allowed readable composer ≡ true
      → is_not_received verdict ≡ true
      → is_different (compare_composer prompt composer) ≡ true
      → Evidence prompt composer readable verdict
  Evidence-intro prompt composer readable verdict a b c =
      let d = compare-different prompt composer c in
      record {
        read = was_read readable composer a d.0 d.1;
        unreceived = is_not_received-eq verdict b;
        elsewhere = d;
      }
    where
      was_read :
          (readable : Bool) (composer : Option Text)
          → composer_allowed readable composer ≡ true
          → (c : Text) → composer ≡ some c
          → readable ≡ true
      was_read true composer a c e = refl
      was_read false none a c e = cc
      was_read false (some d) a c e = cc

  compare-other :
      (prompt : Text) (composer : Option Text) (c : Text)
      → composer ≡ some c
      → ¬ (c ≡ prompt)
      → is_different (compare_composer prompt composer) ≡ true
  compare-other prompt none c e h = cc
  compare-other prompt (some d) c e h = elim (Bool-cases (d == prompt)) [
    | inl q ↦ let k : d ≡ c = cc e in absurd (h (sym k ∙ same_text-eq d prompt q))
    | inr q ↦ rw q refl
  ]

  split_three :
      (a b c d e : Bool) → (a && b && (c && d && e)) ≡ true → (b ≡ true) × (c ≡ true) × (d ≡ true)
  split_three a b c d e h = ground arith

  authorized-witnessed :
      (r : Request) (w : DedupWitness) (now : ℕ)
      → automatic_replay_authorized (witnessed_record w now r) ≡ (
          not (is_unknown r.terminal_outcome)
          && is_not_delivered r.terminal_outcome
          && witness_permits (some w))
  unfolding automatic_replay_authorized
  authorized-witnessed r w now = elim (Bool-cases (is_unreadable w.comparison)) [
    | inl e ↦ rw e refl
    | inr e ↦ rw e refl
  ]

  -- The flag of the witness that is stored.
  abbrev pub stored_flag : Option DedupWitness → Bool
  stored_flag none = false
  stored_flag (some w) = w.automatic_replay_authorized

  stored_flag-witnessed :
      (r : Request) (w : DedupWitness) (now : ℕ)
      → stored_flag (witnessed_record w now r).dedup_witness ≡ w.automatic_replay_authorized
  stored_flag-witnessed r w now = elim (Bool-cases (is_unreadable w.comparison)) [
    | inl e ↦ rw e refl
    | inr e ↦ rw e refl
  ]

  is_unknown-eq : (o : Option Outcome) → is_unknown o ≡ true → o ≡ some Outcome.delivery_unknown
  is_unknown-eq none h = cc
  is_unknown-eq (some Outcome.delivered) h = cc
  is_unknown-eq (some Outcome.not_delivered) h = cc
  is_unknown-eq (some Outcome.delivery_unknown) h = refl

  known_outcome :
      (o : Option Outcome) → ¬ (o ≡ some Outcome.delivery_unknown) → is_unknown o ≡ false
  known_outcome o h = not-true (is_unknown o) (λ k. h (is_unknown-eq o k))

  -- If `record_dedup_witness` answers `True`, then the witness that it stores authorizes a replay
  -- just when the delivery is not unknown, the provider says that the prompt was not received, and
  -- the composer was read and shows another text than the prompt; and
  -- `automatic_replay_authorized` of the record is true just when that evidence is there and the
  -- outcome is `not_delivered`.
  pub record_dedup_witness-permits :
      (r : Request) (prompt : Text) (composer : Option Text) (readable : Bool)
      (verdict : Disposition) (gen : Option Text) (now : ℕ) (s : Request)
      → record_dedup_witness r prompt composer readable verdict gen now ≡ (returns true, s)
      → (stored_flag s.dedup_witness ≡ true ↔ (
          ¬ (r.terminal_outcome ≡ some Outcome.delivery_unknown)
          × Evidence prompt composer readable verdict))
        × (automatic_replay_authorized s ≡ true ↔ (
            (r.terminal_outcome ≡ some Outcome.not_delivered)
            × Evidence prompt composer readable verdict))
  record_dedup_witness-permits r prompt composer readable verdict gen now s h =
      let (c, e) = recorded_lem r prompt composer readable verdict gen now s h in
      let w = new_witness r prompt composer verdict gen now in
      rw (e, stored_flag-witnessed r w now, authorized-witnessed r w now)
        (
          (
            λ k. (
              λ q. cc (ap is_unknown q, flag_known k),
              Evidence-intro prompt composer readable verdict c (ground arith) (ground arith),
            ),
            λ k.
                all_three (is_not_received verdict)
                  (is_different (compare_composer prompt composer)) (is_unknown r.terminal_outcome)
                  (ap is_not_received k.1.unreceived)
                  (compare-other prompt composer k.1.elsewhere.0 k.1.elsewhere.1 k.1.elsewhere.2)
                  (known_outcome r.terminal_outcome k.0),
          ),
          (
            λ k. (
              is_not_delivered-eq r.terminal_outcome (ground arith),
              Evidence-intro prompt composer readable verdict c (ground arith) (ground arith),
            ),
            λ k.
                permitted (is_not_received verdict)
                  (is_different (compare_composer prompt composer)) (is_unknown r.terminal_outcome)
                  (is_not_delivered r.terminal_outcome) (ap is_not_received k.1.unreceived)
                  (compare-other prompt composer k.1.elsewhere.0 k.1.elsewhere.1 k.1.elsewhere.2)
                  (ap is_unknown k.0) (ap is_not_delivered k.0),
          ),
        )
    where
      flag_known :
          (is_not_received verdict
              && is_different (compare_composer prompt composer)
              && not (is_unknown r.terminal_outcome))
            ≡ true
          → is_unknown r.terminal_outcome ≡ false
      flag_known k = ground arith

      all_three : (a b u : Bool) → a ≡ true → b ≡ true → u ≡ false → (a && b && not u) ≡ true
      all_three a b u p q t = ground arith

      permitted :
          (a b u d : Bool)
          → a ≡ true
          → b ≡ true
          → u ≡ false
          → d ≡ true
          → (not u && d && (a && b && (a && b && not u))) ≡ true
      permitted a b u d p q t v = ground arith

  attended :
      (r : Request)
      → is_hold_outcome r.terminal_outcome ≡ false
      → r.operator_attention_required ≡ true
      → valid_attention r ≡ false
  unfolding valid_attention
  attended r o h = rw (o, h) (ground arith)

  attended-invalid :
      (r : Request) (id : Text)
      → is_hold_outcome r.terminal_outcome ≡ false
      → r.operator_attention_required ≡ true
      → valid_record r id ≡ false
  attended-invalid r id o h =
      not-true (valid_record r id) (λ v. cc (attended r o h, (valid_record_parts r id v).attention))

  witnessed_unreadable :
      (r : Request) (w : DedupWitness) (now : ℕ)
      → is_unreadable w.comparison ≡ true
      → ((witnessed_record w now r).terminal_outcome ≡ r.terminal_outcome)
        × ((witnessed_record w now r).operator_attention_required ≡ true)
  witnessed_unreadable r w now h = rw h (refl, refl)

  unread :
      (composer : Option Text) (prompt : Text)
      → composer_allowed false composer ≡ true
      → compare_composer prompt composer ≡ Comparison.unreadable
  unread none prompt h = refl
  unread (some c) prompt h = cc

  -- An unreadable composer calls the operator to a record that awaits none: where the record has no
  -- held outcome, `_valid_record` rejects what `record_dedup_witness` leaves.
  pub record_dedup_witness-unreadable :
      (r : Request) (id prompt : Text) (composer : Option Text) (verdict : Disposition)
      (gen : Option Text) (now : ℕ) (s : Request)
      → is_hold_outcome r.terminal_outcome ≡ false
      → record_dedup_witness r prompt composer false verdict gen now ≡ (returns true, s)
      → valid_record s id ≡ false
  record_dedup_witness-unreadable r id prompt composer verdict gen now s o h =
      let (c, e) = recorded_lem r prompt composer false verdict gen now s h in
      let w = new_witness r prompt composer verdict gen now in
      let (t, a) = witnessed_unreadable r w now (ap is_unreadable (unread composer prompt c)) in
      rw e (attended-invalid (witnessed_record w now r) id (rw t o) a)
