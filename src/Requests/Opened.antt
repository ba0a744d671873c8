-- ===== src/Requests/Opened.antt =====
-- About `_new_record`, `attach_request_json` and `_valid_record`.
use herdres.Prelude.{
  Bool-cases, Option, Text, arith, false, holds, inl, inr, ltb, nat_eq, none, refl, same_text-eq,
  same_text_refl, some, string_eq, sym, text_eq, true, ℕ, ◌&&◌, ◌<◌, ◌==◌, ◌≡◌, ◌≤◌,
}
use herdres.Identity.{valid_request_id}
use herdres.Requests.Lifecycle.{
  attach_over, attach_request_json, attached_record, is_resolving, new_record, opened_record,
}
use herdres.Requests.Parts.{
  IsValidRecord, valid_record_of_parts, valid_record_parts, valid_submission_later,
}
use herdres.Requests.Raised.{check-returns, returns-injective}
use herdres.Requests.Record.{
  CommandCodec, valid_attention, valid_in_state, valid_json, valid_record, valid_resolving,
  valid_retryable, valid_submission, valid_times,
}
use herdres.Requests.Types.{Request, RequestState, returns}
use herdres.Safe.{Unicode}

module _ ⦃u : Unicode⦄ ⦃codec : CommandCodec⦄ where
  opened_record-parts :
      (id : Text) (now horizon retention : ℕ)
      → 0 < horizon
      → horizon < retention
      → IsValidRecord (opened_record id now horizon retention) id
  unfolding valid_times valid_submission valid_json valid_attention valid_resolving
  opened_record-parts id now horizon retention p q = record {
    same_id = same_text_refl id;
    times = ground arith;
    persisted = refl;
    reason = refl;
    action = refl;
    witness = refl;
    submission = refl;
    json = refl;
    attention = refl;
    in_state = ground arith;
  }

  pub returned-opened :
      (id : Text) (now horizon retention : ℕ) (r : Request)
      → new_record id now horizon retention ≡ returns r
      → (r ≡ opened_record id now horizon retention) × (0 < horizon) × (horizon < retention)
  unfolding new_record
  returned-opened id now horizon retention r h =
      let (a, k) =
        check-returns (ltb 0 horizon && ltb 0 retention && ltb horizon retention) _ r h in
      let (b, e) = check-returns (valid_request_id id) _ r k in
      (sym (returns-injective _ r e), ground arith, ground arith)

  -- A record that `new_record` returns is valid.
  pub new_record-valid :
      (id : Text) (now horizon retention : ℕ) (r : Request)
      → new_record id now horizon retention ≡ returns r
      → valid_record r id ≡ true
  new_record-valid id now horizon retention r h =
      let (e, p, q) = returned-opened id now horizon retention r h in
      rw e (valid_record_of_parts _ id (opened_record-parts id now horizon retention p q))

  resolving_unrefreshed :
      (r : Request) → valid_resolving r ≡ true → r.stale_target_refreshed ≡ false
  unfolding valid_resolving
  resolving_unrefreshed r h = ground arith

  resolving_unattended :
      (r : Request)
      → valid_resolving r ≡ true
      → (r.terminal_outcome ≡ none) × (r.operator_attention_required ≡ false)
  unfolding valid_resolving
  resolving_unattended r h = ground arith

  resolving-retryable :
      (r : Request) (json : Text) (now : ℕ)
      → valid_resolving r ≡ true
      → valid_retryable (attached_record json now r) ≡ true
  unfolding valid_resolving valid_retryable
  resolving-retryable r json now h = ground arith

  attach_over-valid :
      (r : Request) (id json : Text) (now : ℕ)
      → valid_resolving r ≡ true
      → holds (λ i. i == r.request_id) (codec.request_id_from_json json) ≡ true
      → r.updated_at ≤ now
      → valid_record r id ≡ true
      → valid_record (attached_record json now r) id ≡ true
  unfolding valid_times valid_json valid_attention
  attach_over-valid r id json now f h n v =
      let p = valid_record_parts r id v in
      let e : r.request_id ≡ id = same_text-eq r.request_id id p.same_id in
      let t : valid_times r ≡ true = p.times in
      let g = resolving_unrefreshed r f in
      let k = resolving_unattended r f in
      let h' : holds (λ i. i == id) (codec.request_id_from_json json) ≡ true = rw e at h in
      valid_record_of_parts _ id (record {
        same_id = p.same_id;
        times = ground arith;
        persisted = p.persisted;
        reason = p.reason;
        action = p.action;
        witness = p.witness;
        submission = valid_submission_later r _ refl n refl refl refl refl refl refl p.submission;
        json = rw (g, h') refl;
        attention = rw (k.0, k.1) refl;
        in_state = resolving-retryable r json now f;
      })

  is_resolving-valid :
      (st : RequestState) (r : Request) (id : Text)
      → is_resolving st ≡ true
      → valid_in_state st r id ≡ true
      → valid_resolving r ≡ true
  is_resolving-valid RequestState.resolving r id e h = h
  is_resolving-valid RequestState.retryable r id e h = cc
  is_resolving-valid RequestState.terminal r id e h = cc
  is_resolving-valid RequestState.quarantined r id e h = cc

  attach_any-valid :
      (r : Request) (id json : Text) (now : ℕ) (m : Option Text)
      → holds (λ i. i == r.request_id) (codec.request_id_from_json json) ≡ true
      → r.updated_at ≤ now
      → valid_record r id ≡ true
      → valid_record (attach_over json now r m).1 id ≡ true
  attach_any-valid r id json now (some c) h n v = ground arith
  attach_any-valid r id json now none h n v = elim (Bool-cases (is_resolving r.state)) [
    | inl e ↦ rw e (
        attach_over-valid r id json now
          (is_resolving-valid r.state r id e (valid_record_parts r id v).in_state) h n v)
    | inr e ↦ rw e v
  ]

  -- Whatever `attach_request_json` answers, it leaves a valid record valid.
  pub attach_request_json-valid :
      (r : Request) (id json : Text) (now : ℕ)
      → r.updated_at ≤ now
      → valid_record r id ≡ true
      → valid_record (attach_request_json r json now).1 id ≡ true
  unfolding attach_request_json
  attach_request_json-valid r id json now n v =
      ground (arith, attach_any-valid r id json now r.request_json)

  -- The command of a record never changes once it stands there.
  pub attach_request_json-immutable :
      (r : Request) (json other : Text) (now : ℕ)
      → r.request_json ≡ some json
      → (attach_request_json r other now).1 ≡ r
  unfolding attach_request_json
  attach_request_json-immutable r json other now h = ground (arith, h)
