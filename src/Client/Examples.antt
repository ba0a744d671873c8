-- ===== src/Client/Examples.antt =====
-- The client at one command to one worker.
use herdres.Prelude.{Text, codes, false, refl, some, true, ◌↔◌, ◌≡◌}
use herdres.Client.Answered.{Answered, command_json-answers}
use herdres.Client.Answers.{validated_command_response}
use herdres.Client.Commands.{exact_public_command_request, exact_send_command_request}
use herdres.Client.Process.{
  answers, command_json, finished, invalid_request, lost, not_started, subprocess_failed,
}
use herdres.Client.Unsent.{command_json-unsent}
use herdres.Client.Verdicts.{Verdict}
use herdres.Identity.{strip_prefix, valid_request_id}
use herdres.Json.Ascii.{ascii_casing}
use herdres.Json.Prune.{is_forbidden, public_prune}
use herdres.Json.Same.{same_json}
use herdres.Json.Values.{Json, Members, member, no_items, no_members}
use herdres.Safe.{has_ink, printable, redact, sanitize_text, secret_length, token_end}
use herdres.Safe.Ascii.{ascii, ascii_digit, ascii_space, ascii_word}

abbrev id1 : Text
id1 = codes "hri1_AAAAAAAAAAAAAAAAAAAAAAAAAAAAAAAAAAAAAAAAAAA"

abbrev worker1 : Json
worker1 = Json.object (member (codes "worker_id") (Json.string (codes "w1")) no_members)

abbrev command1 : Members
command1 = member (codes "schema_version") (Json.integer false 1) (
    member (codes "action") (Json.string (codes "send_instruction")) (
      member (codes "request_id") (Json.string id1) (
        member (codes "dry_run") (Json.boolean false) (
          member (codes "target") worker1 (
            member (codes "instruction")
              (Json.object (member (codes "text") (Json.string (codes "go")) no_members))
              no_members)))))

command1_exact : exact_public_command_request command1 ≡ true
unfolding exact_public_command_request exact_send_command_request has_ink valid_request_id
    strip_prefix ascii_space
command1_exact = refl

abbrev answer_to : Json → Members
answer_to disposition = member (codes "schema_version") (Json.integer false 2) (
    member (codes "action") (Json.string (codes "send_instruction")) (
      member (codes "request_id") (Json.string id1) (
        member (codes "ok") (Json.boolean false) (
          member (codes "dry_run") (Json.boolean false) (
            member (codes "status") (Json.string (codes "pending")) (
              member (codes "disposition") disposition (
                member (codes "result") Json.null (
                  member (codes "error")
                    (Json.object (member (codes "message") (Json.string (codes "wait")) no_members))
                    (member (codes "warnings") (Json.array no_items) no_members)))))))))

abbrev pending1 : Members
pending1 = answer_to (Json.string (codes "in_progress"))

pending1_validated : validated_command_response pending1 command1 ≡ Verdict.accepted
unfolding validated_command_response same_json public_prune is_forbidden sanitize_text redact
    secret_length token_end printable ascii_word ascii_digit
pending1_validated = refl

pending1_answered :
    command_json (some (Json.object command1)) (finished false 1 pending1) ≡ answers pending1
unfolding command_json exact_public_command_request exact_send_command_request has_ink
    valid_request_id strip_prefix ascii_space validated_command_response same_json public_prune
    is_forbidden sanitize_text redact secret_length token_end printable ascii_word ascii_digit
pending1_answered = refl

command_json-answers_example :
    (request : Members) × (some (Json.object command1) ≡ some (Json.object request))
    × (exact_public_command_request request ≡ true)
    × Answered (Json.object request) (finished false 1 pending1) pending1
command_json-answers_example =
    command_json-answers (some (Json.object command1)) (finished false 1 pending1) pending1
      pending1_answered

command_json-unsent_example :
    (command_json (some (Json.object command1)) lost ≡ invalid_request
      ↔ (exact_public_command_request command1 ≡ false))
    × (command_json (some (Json.object command1)) lost ≡ subprocess_failed
        ↔ ((exact_public_command_request command1 ≡ true) × (lost ≡ not_started)))
command_json-unsent_example = command_json-unsent command1 lost

-- A disposition that is a list is looked for in a set.
listed : validated_command_response (answer_to (Json.array no_items)) command1 ≡ Verdict.type_error
unfolding validated_command_response same_json
listed = refl
