-- ===== src/Gateway/Envelope.antt =====
-- `_validated_child_response`.
use herdres.Prelude.{
  Bool, List, Option, Text, [], codes, false, if◌then◌else◌, is_some, nat_eq, none, not, some,
  string_eq, text_eq, true, ◌&&◌, ◌==◌, ◌||◌, ◌∷◌,
}
use herdres.Gateway.Words.{read_checkpoint, read_disposition, read_outcome, read_phase}
use herdres.Json.Values.{Json, Members, equals_text, exact_keys, get, is_integer}
use herdres.Requests.Child.{held_phase, held_transport, is_delivered, is_empty}
use herdres.Requests.Types.{Checkpoint, Child, Disposition, is_hold_outcome, is_retryable}
use herdres.Safe.{Unicode, sanitize_text}

-- What the validator makes of a value: `None`, the envelope, or a `TypeError`, where a list or a
-- dictionary is looked for in a set.
pub data Reading {ℓ} (A : Type ℓ) : Type ℓ where
  refuses raises : Reading A
  reads : A → Reading A

infixl 5 ◌>>=◌ ◌>>◌
abbrev pub ◌>>=◌ {ℓ κ} : {A : Type ℓ} {B : Type κ} → Reading A → (A → Reading B) → Reading B
refuses >>= f = refuses
raises >>= f = raises
reads a >>= f = f a

abbrev pub ◌>>◌ {ℓ} : {B : Type ℓ} → Reading (Unit {0}) → Reading B → Reading B
m >> n = m >>= λ _. n

abbrev pub demands : Bool → Reading (Unit {0})
demands true = reads tt
demands false = refuses

abbrev pub known {ℓ} : {A : Type ℓ} → Option A → Reading A
known none = refuses
known (some a) = reads a

-- `value not in words`
abbrev pub read_word {ℓ} : {A : Type ℓ} → (Text → Option A) → Json → Reading A
read_word read (Json.string t) = known (read t)
read_word read (Json.array vs) = raises
read_word read (Json.object ms) = raises
read_word read _ = refuses

-- The same, where `None` is a word.
abbrev pub read_word_or_null {ℓ} : {A : Type ℓ} → (Text → Option A) → Json → Reading (Option A)
read_word_or_null read Json.null = reads none
read_word_or_null read j = do a ← read_word read j; reads (some a)

abbrev pub read_bool : Json → Reading Bool
read_bool (Json.boolean b) = reads b
read_bool _ = refuses

abbrev pub read_text : Json → Reading Text
read_text (Json.string t) = reads t
read_text _ = refuses

-- _CHILD_RESPONSE_FIELDS
abbrev pub child_fields : List Text
child_fields =
    codes "schema_version"
    ∷ codes "handled"
    ∷ codes "request_id"
    ∷ codes "checkpoint"
    ∷ codes "transport_disposition"
    ∷ codes "request_phase"
    ∷ codes "terminal_outcome"
    ∷ codes "reply"
    ∷ []

abbrev pub is_submitted : Option Disposition → Bool
is_submitted (some Disposition.submitted) = true
is_submitted _ = false

-- The tests of each checkpoint.
abbrev pub response_allowed : Child → Checkpoint → Bool
response_allowed c Checkpoint.retry =
    is_retryable c.transport && not (is_some c.outcome) && is_empty c.reply
response_allowed c Checkpoint.advance =
    is_delivered c.outcome
    && held_phase c.outcome c.phase
    && is_submitted c.transport
    && (c.handled || (not (is_some c.transport) && is_empty c.reply))
response_allowed c Checkpoint.hold =
    is_hold_outcome c.outcome
    && held_transport c.outcome c.transport
    && held_phase c.outcome c.phase
    && (c.handled || (not (is_some c.transport) && is_empty c.reply))

abbrev pub checked_child : Child → Reading Child
checked_child c = if response_allowed c c.checkpoint then reads c else refuses

module _ ⦃u : Unicode⦄ where
  abbrev pub validated_members : Members → Text → Reading Child
  validated_members v request_id = do
    demands (exact_keys child_fields v)
    demands (is_integer 2 (get (codes "schema_version") v))
    handled ← read_bool (get (codes "handled") v)
    demands (equals_text request_id (get (codes "request_id") v))
    checkpoint ← read_word read_checkpoint (get (codes "checkpoint") v)
    transport ← read_word_or_null read_disposition (get (codes "transport_disposition") v)
    phase ← read_word read_phase (get (codes "request_phase") v)
    outcome ← read_word_or_null read_outcome (get (codes "terminal_outcome") v)
    reply ← read_text (get (codes "reply") v)
    demands (sanitize_text reply 160 == reply)
    checked_child (record {
      handled = handled;
      request_id = request_id;
      checkpoint = checkpoint;
      transport = transport;
      phase = phase;
      outcome = outcome;
      reply = reply;
    })

  unfoldable pub validated_child_response : Json → Text → Reading Child
  validated_child_response (Json.object v) request_id = validated_members v request_id
  validated_child_response _ request_id = refuses
