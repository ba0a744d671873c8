-- ===== src/Client/Commands.antt =====
-- `_exact_send_command_request`, `_exact_decision_command_request` and
-- `_exact_public_command_request`.
use herdres.Prelude.{Bool, List, Text, [], codes, false, if◌then◌else◌, not, true, ◌&&◌, ◌||◌, ◌∷◌}
use herdres.Identity.{valid_request_id}
use herdres.Json.Same.{same_json}
use herdres.Json.Values.{
  Items, Json, Members, equals_text, exact_keys, get, has_key, is_boolean, is_integer, item, member,
  no_items, no_members, nonempty_string,
}
use herdres.Safe.{Unicode, has_ink}

-- _SEND_COMMAND_REQUEST_FIELDS
abbrev pub send_fields : List Text
send_fields =
    codes "schema_version"
    ∷ codes "action"
    ∷ codes "request_id"
    ∷ codes "dry_run"
    ∷ codes "target"
    ∷ codes "instruction"
    ∷ []

abbrev pub send_v3_fields : List Text
send_v3_fields = codes "response_schema_version" ∷ send_fields

abbrev pub decision_fields : List Text
decision_fields =
    codes "schema_version"
    ∷ codes "action"
    ∷ codes "request_id"
    ∷ codes "dry_run"
    ∷ codes "target"
    ∷ codes "params"
    ∷ []

-- _COMMAND_TARGET_SHAPES
abbrev pub target_shape : Members → Bool
target_shape ms =
    exact_keys (codes "worker_id" ∷ []) ms
    || exact_keys (codes "worker_id" ∷ codes "worker_fingerprint" ∷ []) ms
    || exact_keys (codes "space_id" ∷ []) ms
    || exact_keys (codes "name" ∷ []) ms
    || exact_keys (codes "name" ∷ codes "space_id" ∷ []) ms

abbrev pub valid_id_of : Json → Bool
valid_id_of (Json.string t) = valid_request_id t
valid_id_of _ = false

module _ ⦃u : Unicode⦄ where
  -- `isinstance(value, str) and value.strip()`
  abbrev pub inked_string : Json → Bool
  inked_string (Json.string t) = has_ink t
  inked_string _ = false

  abbrev pub all_inked : Members → Bool
  all_inked no_members = true
  all_inked (member k v ms) = inked_string v && all_inked ms

  abbrev pub inked_items : Items → Bool
  inked_items no_items = true
  inked_items (item v vs) = inked_string v && inked_items vs

  abbrev pub in_items : Json → Items → Bool
  in_items v no_items = false
  in_items v (item w ws) = same_json v w || in_items v ws

  -- `len(set(refs)) == len(refs)`
  abbrev pub distinct_items : Items → Bool
  distinct_items no_items = true
  distinct_items (item v vs) = not (in_items v vs) && distinct_items vs

  abbrev pub sends_text : Json → Bool
  sends_text (Json.object ms) =
      exact_keys (codes "text" ∷ []) ms && nonempty_string (get (codes "text") ms)
  sends_text _ = false

  abbrev pub valid_target : Json → Bool
  valid_target (Json.object ms) = target_shape ms && all_inked ms
  valid_target _ = false

  unfoldable pub exact_send_command_request : Members → Bool
  unfolding has_ink valid_request_id
  exact_send_command_request r =
      (exact_keys send_fields r || exact_keys send_v3_fields r)
      && is_integer 1 (get (codes "schema_version") r)
      && equals_text (codes "send_instruction") (get (codes "action") r)
      && is_boolean false (get (codes "dry_run") r)
      && (not (has_key (codes "response_schema_version") r)
          || is_integer 3 (get (codes "response_schema_version") r))
      && valid_id_of (get (codes "request_id") r)
      && valid_target (get (codes "target") r)
      && sends_text (get (codes "instruction") r)

  abbrev pub valid_refs : Json → Bool
  valid_refs (Json.array vs) = inked_items vs && distinct_items vs
  valid_refs _ = false

  abbrev pub valid_selection : Json → Bool
  valid_selection (Json.object ms) =
      if exact_keys (codes "text" ∷ []) ms
      then inked_string (get (codes "text") ms)
      else exact_keys (codes "option_refs" ∷ []) ms && valid_refs (get (codes "option_refs") ms)
  valid_selection _ = false

  abbrev pub valid_params : Json → Bool
  valid_params (Json.object ms) =
      exact_keys (codes "decision_ref" ∷ codes "selection" ∷ []) ms
      && inked_string (get (codes "decision_ref") ms)
      && valid_selection (get (codes "selection") ms)
  valid_params _ = false

  abbrev pub worker_target : Json → Bool
  worker_target (Json.object ms) =
      exact_keys (codes "worker_id" ∷ []) ms && inked_string (get (codes "worker_id") ms)
  worker_target _ = false

  unfoldable pub exact_decision_command_request : Members → Bool
  unfolding has_ink valid_request_id same_json
  exact_decision_command_request r =
      exact_keys decision_fields r
      && is_integer 1 (get (codes "schema_version") r)
      && equals_text (codes "answer_decision") (get (codes "action") r)
      && is_boolean false (get (codes "dry_run") r)
      && valid_id_of (get (codes "request_id") r)
      && worker_target (get (codes "target") r)
      && valid_params (get (codes "params") r)

  -- `request.get("action") == "answer_decision"`
  abbrev pub is_decision : Members → Bool
  is_decision r = equals_text (codes "answer_decision") (get (codes "action") r)

  unfoldable pub exact_public_command_request : Members → Bool
  exact_public_command_request r =
      if is_decision r then exact_decision_command_request r else exact_send_command_request r
