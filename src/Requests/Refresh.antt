-- ===== src/Requests/Refresh.antt =====
-- `stale_target_refresh_json`, the only rewrite of a command, and its validity.
use herdres.Prelude.{
  Bool, Option, Text, arith, false, holds, if◌then◌else◌, is_some, nat_eq, none, not, refl, some,
  string_eq, text_eq, true, ℕ, ◌&&◌, ◌==◌, ◌||◌, ◌≡◌, ◌≤◌,
}
use herdres.Requests.Parts.{valid_record_of_parts, valid_record_parts, valid_submission_later}
use herdres.Requests.Record.{
  CommandCodec, Refreshed, json_matches, not_canonical, nothing_stale, unfinished, valid_attention,
  valid_json, valid_record, valid_retryable, valid_times, without,
}
use herdres.Requests.Types.{
  Disposition, Raises, Request, RequestPhase, RequestState, returns, value_error,
}
use herdres.Safe.{Unicode}

module _ ⦃u : Unicode⦄ ⦃codec : CommandCodec⦄ where
  abbrev pub refreshed_record : Text → ℕ → Request → Request
  refreshed_record json now r = record r {
    request_json = some json;
    stale_target_refreshed = true;
    updated_at = now;
    transport = some Disposition.no_receipt;
    phase = RequestPhase.retryable;
  }

  abbrev pub refresh_over : ℕ → Request → Refreshed → Raises (Option Text) × Request
  refresh_over now r nothing_stale = (returns none, r)
  refresh_over now r not_canonical = (value_error, r)
  refresh_over now r (without json) = (returns (some json), refreshed_record json now r)

  abbrev pub refresh_command : ℕ → Request → Option Text → Raises (Option Text) × Request
  refresh_command now r none = (returns none, r)
  refresh_command now r (some json) = refresh_over now r (codec.without_fingerprint json)

  unfoldable pub stale_target_refresh_json : Request → ℕ → Raises (Option Text) × Request
  stale_target_refresh_json r now =
      if r.stale_target_refreshed then (returns none, r) else refresh_command now r r.request_json

  -- Whatever is shown of a record that is kept, and of the refreshed one where there is one, holds
  -- of what the rewrite leaves.
  pub refresh_cases :
      (P : Request → Type 0) (r : Request) (now : ℕ)
      → P r
      → ((j k : Text)
          → r.stale_target_refreshed ≡ false
          → r.request_json ≡ some j
          → codec.without_fingerprint j ≡ without k
          → P (refreshed_record k now r))
      → P (stale_target_refresh_json r now).1
  unfolding stale_target_refresh_json
  refresh_cases P r now p q = flagged r.stale_target_refreshed refl
    where
      over :
          (j : Text)
          → ((k : Text) → codec.without_fingerprint j ≡ without k → P (refreshed_record k now r))
          → (f : Refreshed) → codec.without_fingerprint j ≡ f
          → P (refresh_over now r f).1
      over j t nothing_stale e = p
      over j t not_canonical e = p
      over j t (without k) e = t k e

      command :
          (m : Option Text)
          → r.request_json ≡ m
          → ((j k : Text)
              → r.request_json ≡ some j
              → codec.without_fingerprint j ≡ without k
              → P (refreshed_record k now r))
          → P (refresh_command now r m).1
      command none e t = p
      command (some j) e t = over j (λ k b. t j k e b) (codec.without_fingerprint j) refl

      flagged :
          (b : Bool)
          → r.stale_target_refreshed ≡ b
          → P (if b then (returns none, r) else refresh_command now r r.request_json).1
      flagged true s = p
      flagged false s = command r.request_json refl (λ j k a b. q j k s a b)

  matched :
      (m : Option Text) (j id : Text)
      → m ≡ some j
      → (b : Bool) → (json_matches m id && b) ≡ true
      → json_matches (some j) id ≡ true
  matched m j id e b h = let k : json_matches m id ≡ true = ground arith in rw e at k

  same_match :
      (j k id : Text)
      → codec.without_fingerprint j ≡ without k
      → json_matches (some j) id ≡ true
      → json_matches (some k) id ≡ true
  same_match j k id f h = found (codec.request_id_from_json j) refl h
    where
      found :
          (m : Option Text)
          → codec.request_id_from_json j ≡ m
          → holds (λ i. i == id) m ≡ true
          → json_matches (some k) id ≡ true
      found none e h = cc
      found (some i) e h = rw (codec.keeps_identity j k i f e) h

  refreshed-valid :
      (r : Request) (id j k : Text) (now : ℕ)
      → r.state ≡ RequestState.retryable
      → r.updated_at ≤ now
      → r.request_json ≡ some j
      → codec.without_fingerprint j ≡ without k
      → valid_record r id ≡ true
      → valid_record (refreshed_record k now r) id ≡ true
  unfolding valid_times valid_json valid_attention valid_retryable
  refreshed-valid r id j k now s n e f v =
      let p = valid_record_parts r id v in
      let times : valid_times r ≡ true = p.times in
      let old : valid_json r id ≡ true = p.json in
      let i : json_matches (some j) id ≡ true =
        matched r.request_json j id e (not r.stale_target_refreshed || is_some r.request_json)
          old in
      let kept : valid_retryable r ≡ true = rw s at p.in_state in
      let rest : unfinished r ≡ true = ground arith in
      valid_record_of_parts _ id (record {
        same_id = p.same_id;
        times = ground arith;
        persisted = refl;
        reason = p.reason;
        action = p.action;
        witness = p.witness;
        submission = valid_submission_later r _ refl n refl refl refl refl refl refl p.submission;
        json = rw (same_match j k id f i) refl;
        attention = p.attention;
        in_state = rw (s, rest) refl;
      })

  -- Whatever `stale_target_refresh_json` answers, it leaves a valid record valid, if the clock does
  -- not go back and the record is retryable.
  pub stale_target_refresh_json-valid :
      (r : Request) (id : Text) (now : ℕ)
      → r.state ≡ RequestState.retryable
      → r.updated_at ≤ now
      → valid_record r id ≡ true
      → valid_record (stale_target_refresh_json r now).1 id ≡ true
  stale_target_refresh_json-valid r id now s n v =
      refresh_cases (λ t. valid_record t id ≡ true) r now v
        (λ j k a e f. refreshed-valid r id j k now s n e f v)
