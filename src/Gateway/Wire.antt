-- ===== src/Gateway/Wire.antt =====
-- About the envelope between the child and the gateway.
use herdres.Prelude.{
  Bool-cases, Option, Text, [], and-true, ap, codes, false, inl, inr, nat_eq, none, refl, some,
  string_eq, subst, text_eq, true, ◌==◌, ◌∙◌, ◌≡◌,
}
use herdres.Gateway.Command.{
  ChildRun, came_back, child_answer, no_result, or_private_retry, private_retry_child_result,
  run_herdres_command,
}
use herdres.Gateway.Envelope.{
  Reading, checked_child, child_fields, demands, is_submitted, raises, read_bool, read_text,
  read_word, read_word_or_null, reads, refuses, response_allowed, validated_child_response,
  validated_members, ◌>>=◌,
}
use herdres.Gateway.Words.{read_checkpoint, read_disposition, read_outcome, read_phase}
use herdres.Identity.{valid_request_id}
use herdres.Json.Values.{Json, Members, equals_text, exact_keys, get, is_integer}
use herdres.Requests.Child.{is_delivered}
use herdres.Requests.Types.{Checkpoint, Child, Disposition, Outcome}
use herdres.Safe.{Unicode, sanitize_text}

-- What holds of an envelope, if one is read.
data Reads {A : Type 0} (P : A → Type 0) : Reading A → Type 0 where
  none_refuses : Reads P refuses
  none_raises : Reads P raises
  holds_of : {a : A} → P a → Reads P (reads a)

Reads-bind :
    {A B : Type 0} {P : B → Type 0} (m : Reading A) {f : A → Reading B}
    → ((a : A) → Reads P (f a))
    → Reads P (m >>= f)
Reads-bind refuses h = none_refuses
Reads-bind raises h = none_raises
Reads-bind (reads a) h = h a

abbrev pub Allowed : Text → Child → Type 0
Allowed request_id c = (c.request_id ≡ request_id) × (response_allowed c c.checkpoint ≡ true)

Allowed-checked_child :
    (request_id : Text) (c : Child)
    → c.request_id ≡ request_id
    → Reads (Allowed request_id) (checked_child c)
Allowed-checked_child request_id c e = elim (Bool-cases (response_allowed c c.checkpoint)) [
  | inl h ↦ rw h (holds_of (e, h))
  | inr h ↦ rw h none_refuses
]

module _ ⦃u : Unicode⦄ where
  Allowed-validated_members :
      (v : Members) (request_id : Text)
      → Reads (Allowed request_id) (validated_members v request_id)
  Allowed-validated_members v request_id = Reads-bind (demands (exact_keys child_fields v)) λ _.
      Reads-bind (demands (is_integer 2 (get (codes "schema_version") v))) λ _.
        Reads-bind (read_bool (get (codes "handled") v)) λ handled.
          Reads-bind (demands (equals_text request_id (get (codes "request_id") v))) λ _.
            Reads-bind (read_word read_checkpoint (get (codes "checkpoint") v)) λ checkpoint.
              Reads-bind
                (read_word_or_null read_disposition (get (codes "transport_disposition") v))
                λ transport.
                  Reads-bind (read_word read_phase (get (codes "request_phase") v)) λ phase.
                    Reads-bind (read_word_or_null read_outcome (get (codes "terminal_outcome") v))
                      λ outcome. Reads-bind (read_text (get (codes "reply") v)) λ reply.
                        Reads-bind (demands (sanitize_text reply 160 == reply)) λ _.
                          Allowed-checked_child request_id
                            (record {
                              handled = handled;
                              request_id = request_id;
                              checkpoint = checkpoint;
                              transport = transport;
                              phase = phase;
                              outcome = outcome;
                              reply = reply;
                            })
                            refl

abbrev read_or_none : {A : Type 0} → Reading A → Option A
read_or_none (reads a) = some a
read_or_none _ = none

pub some_same : {A : Type 0} {x y : A} → some x ≡ some y → x ≡ y
some_same h = cc

pub read_same : {A : Type 0} {x y : A} → reads x ≡ reads y → x ≡ y
read_same h = some_same (ap read_or_none h)

Reads-reads :
    {A : Type 0} (P : A → Type 0) (m : Reading A) → Reads P m → (a : A) → m ≡ reads a → P a
Reads-reads P refuses r a e = cc
Reads-reads P raises r a e = cc
Reads-reads P (reads b) (holds_of p) a e = subst P (read_same e) p

is_submitted-eq : (t : Option Disposition) → is_submitted t ≡ true → t ≡ some Disposition.submitted
is_submitted-eq none h = cc
is_submitted-eq (some d) h =
    elim d as (λ d. is_submitted (some d) ≡ true → some d ≡ some Disposition.submitted) [
      | Disposition.submitted ↦ λ h. refl
      | _ ↦ λ h. cc
    ]
      h

is_delivered-eq : (o : Option Outcome) → is_delivered o ≡ true → o ≡ some Outcome.delivered
is_delivered-eq none h = cc
is_delivered-eq (some Outcome.delivered) h = refl
is_delivered-eq (some Outcome.not_delivered) h = cc
is_delivered-eq (some Outcome.delivery_unknown) h = cc

-- What an envelope says that advances.
abbrev pub IsDelivery : Child → Type 0
IsDelivery c = (c.outcome ≡ some Outcome.delivered) × (c.transport ≡ some Disposition.submitted)

pub allowed-IsDelivery : (c : Child) → response_allowed c Checkpoint.advance ≡ true → IsDelivery c
allowed-IsDelivery c h =
    let (a, d) = and-true _ _ h in
    let (b, e) = and-true _ _ a in
    (is_delivered-eq c.outcome (and-true _ _ b).0, is_submitted-eq c.transport e)

module _ ⦃u : Unicode⦄ where
  pub validated-Allowed :
      (data_read : Json) (request_id : Text) (c : Child)
      → validated_child_response data_read request_id ≡ reads c
      → Allowed request_id c
  unfolding validated_child_response
  validated-Allowed data_read request_id c h =
      elim data_read
          as (λ j. validated_child_response j request_id ≡ reads c → Allowed request_id c) [
            | Json.object v ↦ λ h.
                Reads-reads (Allowed request_id) (validated_members v request_id)
                  (Allowed-validated_members v request_id) c h
            | _ ↦ λ h. cc
          ]
        h

  -- An answer that advances the checkpoint.
  abbrev pub Delivered : Text → ChildRun → Child → Type 0
  Delivered request_id child c =
      IsDelivery c
      × (c.request_id ≡ request_id)
      × ((j : Json) × (child ≡ came_back true (some j))
          × (validated_child_response j request_id ≡ reads c))

  retry-no_advance :
      (id : Text) (c : Child)
      → reads (private_retry_child_result id) ≡ reads c
      → ¬ (c.checkpoint ≡ Checkpoint.advance)
  retry-no_advance id c e a =
      let k : Checkpoint.retry ≡ Checkpoint.advance =
        ap (λ (x : Child). x.checkpoint) (read_same e) ∙ a in
      cc k

  child_answer-advance :
      (id : Text) (child : ChildRun) (c : Child)
      → child_answer id child ≡ reads c
      → c.checkpoint ≡ Checkpoint.advance
      → Delivered id child c
  child_answer-advance id no_result c e a = absurd (retry-no_advance id c e a)
  child_answer-advance id (came_back false output) c e a = absurd (retry-no_advance id c e a)
  child_answer-advance id (came_back true none) c e a = absurd (retry-no_advance id c e a)
  child_answer-advance id (came_back true (some j)) c e a =
      read_case (validated_child_response j id) refl e
    where
      read_case :
          (m : Reading Child)
          → validated_child_response j id ≡ m
          → or_private_retry id m ≡ reads c
          → Delivered id (came_back true (some j)) c
      read_case refuses q e = absurd (retry-no_advance id c e a)
      read_case raises q e = cc
      read_case (reads d) q e =
          let r = q ∙ e in
          let (same, fine) = validated-Allowed j id c r in
          (
            allowed-IsDelivery c (subst (λ k. response_allowed c k ≡ true) a fine),
            same,
            (j, refl, r),
          )

  -- A result of `run_herdres_command` advances the checkpoint only if the child came back with
  -- success and an output that is an envelope of this very request, of a delivery that was
  -- submitted.
  pub run_herdres_command-advance :
      (payload : Json) (child : ChildRun) (c : Child)
      → run_herdres_command payload child ≡ reads c
      → c.checkpoint ≡ Checkpoint.advance
      → (id : Text) × (payload ≡ Json.string id)
        × (valid_request_id id ≡ true)
        × Delivered id child c
  unfolding run_herdres_command
  run_herdres_command-advance payload child c e a =
      elim payload
          as (λ j.
            run_herdres_command j child ≡ reads c
            → (id : Text) × (j ≡ Json.string id)
              × (valid_request_id id ≡ true)
              × Delivered id child c) [
                | Json.string id ↦ λ e. elim (Bool-cases (valid_request_id id)) [
                  | inl v ↦ (id, refl, v, child_answer-advance id child c (rw v at e) a)
                  | inr v ↦ absurd (retry-no_advance [] c (rw v at e) a)
                ]
                | _ ↦ λ e. absurd (retry-no_advance [] c e a)
              ]
        e
