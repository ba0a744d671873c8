-- ===== src/Requests/Kept.antt =====
-- About what the transitions of a record leave alone.
use herdres.Prelude.{
  Bool, Bool-cases, Option, Text, false, holds, inl, inr, is_some, nat_eq, none, not, refl, some,
  string_eq, subst, sym, text_eq, true, ℕ, ◌&&◌, ◌==◌, ◌∙◌, ◌≡◌, ◌⊎◌,
}
use herdres.Identity.{valid_request_id}
use herdres.Requests.Child.{is_empty}
use herdres.Requests.Evidence.{
  attach_owner_over, attach_submission_receipt, attach_target_owner, composer_allowed,
  is_unreadable, new_witness, receipt_allowed, receipt_changed, receipt_linked, receipt_written,
  record_dedup_witness, same_owner, same_witness, witnessed_record,
}
use herdres.Requests.History.{
  Life, Step, attaches, concludes, delays, here, owns, quarantines, reduces, refreshes, submits,
  then_step, witnesses,
}
use herdres.Requests.Lifecycle.{
  attach_over, attach_request_json, is_resolving, mark_retryable, mark_terminal, outcome_child,
  quarantine_child, quarantine_request, quarantined_record, record_terminal_outcome,
  terminal_record, write,
}
use herdres.Requests.Raised.{write-kept}
use herdres.Requests.Record.{
  CommandCodec, fits, is_verdict, nonempty_fits, valid_owner, valid_witness, without,
}
use herdres.Requests.Refresh.{refresh_cases}
use herdres.Requests.Types.{
  DedupWitness, Disposition, Outcome, Raises, Request, RequestPhase, TargetOwner, is_retryable,
  normalize,
}
use herdres.Safe.{Unicode}

module _ ⦃u : Unicode⦄ ⦃codec : CommandCodec⦄ where
  -- The command stands, or it has been refreshed, once: a stale target was removed from it.
  abbrev pub KeepsCommand : Request → Request → Text → Type 0
  KeepsCommand r s json =
      ((s.request_json ≡ some json) × (s.stale_target_refreshed ≡ r.stale_target_refreshed))
      ⊎ ((k : Text) × (codec.without_fingerprint json ≡ without k)
          × (s.request_json ≡ some k)
          × (r.stale_target_refreshed ≡ false)
          × (s.stale_target_refreshed ≡ true))

  -- What no transition changes, once it is there.
  pub record Keeps (r s : Request) : Type 0 where
    pub same_request : s.request_id ≡ r.request_id
    pub same_start : s.created_at ≡ r.created_at
    pub same_deadline : s.deadline_at ≡ r.deadline_at
    pub same_retention : s.retain_until ≡ r.retain_until
    pub same_command : (json : Text) → r.request_json ≡ some json → KeepsCommand r s json
    pub same_owner_of : (o : TargetOwner) → r.target_owner ≡ some o → s.target_owner ≡ some o

  Keeps-same :
      (r s : Request)
      → s.request_id ≡ r.request_id
      → s.created_at ≡ r.created_at
      → s.deadline_at ≡ r.deadline_at
      → s.retain_until ≡ r.retain_until
      → s.request_json ≡ r.request_json
      → s.stale_target_refreshed ≡ r.stale_target_refreshed
      → s.target_owner ≡ r.target_owner
      → Keeps r s
  Keeps-same r s a b c d e g f = record {
    same_request = a;
    same_start = b;
    same_deadline = c;
    same_retention = d;
    same_command = λ j k. inl (e ∙ k, g);
    same_owner_of = λ o k. f ∙ k;
  }

  Keeps-itself : (r : Request) → Keeps r r
  Keeps-itself r = Keeps-same r r refl refl refl refl refl refl refl

  Keeps-attach_over :
      (r : Request) (json : Text) (now : ℕ) (m : Option Text)
      → r.request_json ≡ m
      → Keeps r (attach_over json now r m).1
  Keeps-attach_over r json now (some current) e = elim (Bool-cases (current == json)) [
    | inl h ↦ rw h (Keeps-itself r)
    | inr h ↦ rw h (Keeps-itself r)
  ]
  Keeps-attach_over r json now none e = elim (Bool-cases (is_resolving r.state)) [
    | inl h ↦ rw h (record {
      same_request = refl;
      same_start = refl;
      same_deadline = refl;
      same_retention = refl;
      same_command = λ j k. cc (sym e ∙ k);
      same_owner_of = λ o k. k;
    })
    | inr h ↦ rw h (Keeps-itself r)
  ]

  Keeps-attach_owner_over :
      (r : Request) (owner : TargetOwner) (now : ℕ) (m : Option TargetOwner)
      → r.target_owner ≡ m
      → Keeps r (attach_owner_over owner now r m).1
  Keeps-attach_owner_over r owner now (some current) e =
      elim (Bool-cases (same_owner current owner)) [
        | inl h ↦ rw h (Keeps-itself r)
        | inr h ↦ rw h (Keeps-itself r)
      ]
  Keeps-attach_owner_over r owner now none e = record {
    same_request = refl;
    same_start = refl;
    same_deadline = refl;
    same_retention = refl;
    same_command = λ j k. inl (k, refl);
    same_owner_of = λ o k. cc (sym e ∙ k);
  }

  -- The fields of which `Keeps` speaks are the same.
  Keeps-write :
      {A : Type 0} (r : Request) (m : Raises A) (f : A → Request)
      → ((a : A) → Keeps r (f a))
      → Keeps r (write r m f).1
  Keeps-write r m f k = write-kept (Keeps r) r m f (Keeps-itself r) (λ a e. k a)

  Keeps-record_terminal_outcome :
      (r : Request) (d : Option Disposition) (p : RequestPhase) (o : Outcome) (now : ℕ)
      (reply reason action : Text) (handled : Bool)
      → Keeps r (record_terminal_outcome r d p o now reply reason action handled).1
  unfolding record_terminal_outcome
  Keeps-record_terminal_outcome r d p o now reply reason action handled =
      Keeps-write r (outcome_child r d p o reply handled)
        (terminal_record (normalize d) p o now reason action r)
        (λ a. Keeps-same r _ refl refl refl refl refl refl refl)

  Keeps-mark_terminal :
      (r : Request) (d : Disposition) (now : ℕ) → Keeps r (mark_terminal r d now).1
  unfolding mark_terminal
  Keeps-mark_terminal r d now = elim d as (λ d. Keeps r (mark_terminal r d now).1) [
    | Disposition.terminal_accepted ↦ Keeps-record_terminal_outcome r _ _ _ now _ _ _ _
    | Disposition.terminal_rejected ↦ Keeps-record_terminal_outcome r _ _ _ now _ _ _ _
    | _ ↦ Keeps-itself r
  ]

  Keeps-witnessed_record :
      (r : Request) (w : DedupWitness) (now : ℕ) → Keeps r (witnessed_record w now r)
  Keeps-witnessed_record r w now = elim (Bool-cases (is_unreadable w.comparison)) [
    | inl h ↦ rw h (Keeps-same r _ refl refl refl refl refl refl refl)
    | inr h ↦ rw h (Keeps-same r _ refl refl refl refl refl refl refl)
  ]

  Keeps-record_dedup_witness :
      (r : Request) (prompt : Text) (composer : Option Text) (readable : Bool)
      (verdict : Disposition) (gen : Option Text) (now : ℕ)
      → Keeps r (record_dedup_witness r prompt composer readable verdict gen now).1
  unfolding record_dedup_witness
  Keeps-record_dedup_witness r prompt composer readable verdict gen now =
      let w = new_witness r prompt composer verdict gen now in
      elim (Bool-cases (
        not (is_empty prompt)
        && fits prompt
        && is_verdict verdict
        && nonempty_fits gen
        && composer_allowed readable composer
        && valid_witness w)) [
          | inl g ↦ elim (Bool-cases (same_witness r.dedup_witness w)) [
            | inl h ↦ rw (g, h) (Keeps-itself r)
            | inr h ↦ rw (g, h) (Keeps-witnessed_record r w now)
          ]
          | inr g ↦ rw g (Keeps-itself r)
        ]

  Step-Keeps : {r s : Request} → Step r s → Keeps r s
  unfolding attach_request_json mark_retryable quarantine_request attach_target_owner
      attach_submission_receipt
  Step-Keeps (attaches {r} json now n) =
      elim (Bool-cases (
        valid_request_id r.request_id
        && holds (λ id. id == r.request_id) (codec.request_id_from_json json))) [
          | inl h ↦ rw h (Keeps-attach_over r json now r.request_json refl)
          | inr h ↦ rw h (Keeps-itself r)
        ]
  Step-Keeps (delays {r} d now n) = elim (Bool-cases (is_retryable d && is_some r.request_json)) [
    | inl h ↦ rw h (Keeps-same r _ refl refl refl refl refl refl refl)
    | inr h ↦ rw h (Keeps-itself r)
  ]
  Step-Keeps (reduces {r} d now n w) = Keeps-mark_terminal r d now
  Step-Keeps (concludes {r} d p o now reply reason action handled n a b c f w) =
      Keeps-record_terminal_outcome r d p o now reply reason action handled
  Step-Keeps (quarantines {r} reason now d reply handled n a b j w) =
      Keeps-write r (quarantine_child r.request_id d reply handled)
        (quarantined_record reason now (normalize d) r)
        (λ a. Keeps-same r _ refl refl refl refl refl refl refl)
  Step-Keeps (owns {r} owner now a n) = elim (Bool-cases (valid_owner owner)) [
    | inl h ↦ rw h (Keeps-attach_owner_over r owner now r.target_owner refl)
    | inr h ↦ rw h (Keeps-itself r)
  ]
  Step-Keeps (submits {r} i state turn now a n l) =
      let s = receipt_linked (receipt_written r i state turn now) now in
      elim (Bool-cases (receipt_allowed r i turn)) [
        | inr h ↦ rw h (Keeps-itself r)
        | inl h ↦ elim (Bool-cases (receipt_changed r s)) [
          | inl c ↦ rw (h, l, c) (Keeps-same r _ refl refl refl refl refl refl refl)
          | inr c ↦ rw (h, l, c) (Keeps-same r _ refl refl refl refl refl refl refl)
        ]
      ]
  Step-Keeps (witnesses {r} prompt composer readable verdict gen now t h n) =
      Keeps-record_dedup_witness r prompt composer readable verdict gen now
  Step-Keeps (refreshes {r} now t n) = refresh_cases (Keeps r) r now (Keeps-itself r) (λ j k s e f.
      record {
        same_request = refl;
        same_start = refl;
        same_deadline = refl;
        same_retention = refl;
        same_command = λ i h.
            let q : i ≡ j = cc (sym h ∙ e) in
            inr (
              k,
              subst (λ (x : Text). codec.without_fingerprint x ≡ without k) (sym q) f,
              refl,
              s,
              refl,
            );
        same_owner_of = λ o h. h;
      })

  KeepsCommand-KeepsCommand :
      (r s t : Request) (json : Text)
      → ((j : Text) → s.request_json ≡ some j → KeepsCommand s t j)
      → KeepsCommand r s json
      → KeepsCommand r t json
  KeepsCommand-KeepsCommand r s t json f (inl (e, g)) = elim (f json e) [
    | inl (a, b) ↦ inl (a, b ∙ g)
    | inr (k, a, b, c, d) ↦ inr (k, a, b, sym g ∙ c, d)
  ]
  KeepsCommand-KeepsCommand r s t json f (inr (k, a, b, c, d)) = elim (f k b) [
    | inl (e, g) ↦ inr (k, a, e, c, g ∙ d)
    | inr (l, e, g, h, i) ↦ cc (sym h ∙ d)
  ]

  Keeps-Keeps : {r s t : Request} → Keeps r s → Keeps s t → Keeps r t
  Keeps-Keeps {r} {s} {t} a b = record {
    same_request = b.same_request ∙ a.same_request;
    same_start = b.same_start ∙ a.same_start;
    same_deadline = b.same_deadline ∙ a.same_deadline;
    same_retention = b.same_retention ∙ a.same_retention;
    same_command = λ j k. KeepsCommand-KeepsCommand r s t j b.same_command (a.same_command j k);
    same_owner_of = λ o k. b.same_owner_of o (a.same_owner_of o k);
  }

  -- A sequence of transitions, under the conditions that `Life-valid` names, keeps the identity of a
  -- record, its start, its deadline and the end of its retention; the target owner is never
  -- replaced, once it is there, nor the command, but for one removal of the fingerprint of a stale
  -- target, after which it is never replaced again.
  pub Life-Keeps : {r s : Request} → Life r s → Keeps r s
  Life-Keeps {r} here = Keeps-itself r
  Life-Keeps (then_step l t) = Keeps-Keeps (Life-Keeps l) (Step-Keeps t)
