-- ===== src/Requests/StoreExamples.antt =====
-- The theorems on the store at a store of one request.
use herdres.Prelude.{
  List, Text, [], all, arith, codes, false, none, refl, some, sym, true, ◌∷◌, ◌≡◌, ◌≤◌,
}
use herdres.Identity.{strip_prefix, valid_request_id}
use herdres.Requests.Cached.{preflight_request-preflight_request}
use herdres.Requests.Child.{child_of, child_result}
use herdres.Requests.Framed.{preflight_request-other}
use herdres.Requests.Lifecycle.{quarantine_child, quarantine_request, quarantined_record}
use herdres.Requests.Preflight.{IsPreflight, preflight_request-IsPreflight}
use herdres.Requests.Pruned.{IsPruned, prune_requests_lem}
use herdres.Requests.Record.{
  valid_attention, valid_json, valid_record, valid_retryable, valid_submission, valid_times,
}
use herdres.Requests.Returned.{Returns, preflight_request-Returns}
use herdres.Requests.SampleExamples.{attached0, attached_valid, id0, plain_codec}
use herdres.Requests.Shell.{lookup_in}
use herdres.Requests.Store.{
  Entry, cached_terminal_outcome, ensure_request_shell, lookup, preflight_request, prune_requests,
  quarantine_reply, retained, valid_entry,
}
use herdres.Requests.Stored.{some_value}
use herdres.Requests.Types.{Checkpoint, Child, Outcome, Request, RequestPhase, returns}
use herdres.Safe.Ascii.{ascii}

abbrev one : List Entry
one = record { key = id0; value = attached0 } ∷ []

id0_valid : valid_request_id id0 ≡ true
unfolding valid_request_id
id0_valid = refl

one_valid : all valid_entry one ≡ true
one_valid = rw (id0_valid, attached_valid) refl

one_earlier : (r : Request) → lookup id0 one ≡ some r → r.updated_at ≤ 5000
one_earlier r h = rw (sym (some_value attached0 r h)) (omega arith)

preflight_request-IsPreflight_example :
    IsPreflight 5000 id0 (preflight_request (some one) id0 5000 3600 86400)
preflight_request-IsPreflight_example =
    preflight_request-IsPreflight (some one) id0 5000 3600 86400 one_valid one_earlier

preflight_request-Returns_example : Returns (preflight_request (some one) id0 5000 3600 86400).0
preflight_request-Returns_example =
    preflight_request-Returns (some one) id0 5000 3600 86400 one_valid one_earlier id0_valid
      (omega arith) (omega arith)

abbrev expired_child : Child
expired_child =
    child_of id0 Checkpoint.hold none RequestPhase.terminal (some Outcome.not_delivered)
      quarantine_reply true

abbrev expired : Request
expired = quarantined_record (codes "request deadline reached") 5000 none attached0 expired_child

-- The deadline of the request was 4600.
expired_made : preflight_request (some one) id0 5000 3600 86400 ≡ (
  returns (expired, some expired_child, true),
  some (record { key = id0; value = expired } ∷ []),
)
unfolding preflight_request ensure_request_shell quarantine_request quarantine_child child_result
    valid_record valid_times valid_submission valid_json strip_prefix valid_attention
    valid_retryable valid_request_id
expired_made = refl

preflight_request-preflight_request_example :
    (cached_terminal_outcome (some (record { key = id0; value = expired } ∷ [])) id0
      ≡ returns (some expired_child))
    × (preflight_request (some (record { key = id0; value = expired } ∷ [])) id0 9000 3600 86400 ≡ (
      returns (expired, some expired_child, false),
      some (record { key = id0; value = expired } ∷ []),
    ))
preflight_request-preflight_request_example =
    preflight_request-preflight_request (some one)
      (some (record { key = id0; value = expired } ∷ [])) id0 5000 9000 3600 86400 expired
      expired_child true one_valid one_earlier id0_valid expired_made

prune_requests_lem_example : IsPruned one 90000 (prune_requests (some one) 90000)
prune_requests_lem_example = prune_requests_lem one 90000 one_valid

-- It was to be retained until 87400.
one_pruned : retained 90000 one ≡ []
one_pruned = refl

abbrev id1 : Text
id1 = codes "hri1_AAAAAAAAAAAAAAAAAAAAAAAAAAAAAAAAAAAAAAAAAAE"

preflight_request-other_example :
    lookup_in id0 (preflight_request (some one) id1 5000 3600 86400).1 ≡ lookup_in id0 (some one)
preflight_request-other_example = preflight_request-other (some one) id1 id0 5000 3600 86400 refl
