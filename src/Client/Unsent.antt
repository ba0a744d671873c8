-- ===== src/Client/Unsent.antt =====
-- About `command_json`, where the command is not sent.
use herdres.Prelude.{Bool, Bool-cases, false, inl, inr, refl, some, true, ℕ, ◌↔◌, ◌≡◌}
use herdres.Client.Commands.{exact_public_command_request}
use herdres.Client.Process.{
  ChildProcess, checked_answer, code_agrees, command_json, finished, invalid_request, lost,
  not_started, process_answer, subprocess_failed, validated_response,
}
use herdres.Client.Verdicts.{Verdict}
use herdres.Json.Prune.{Casing}
use herdres.Json.Values.{Json, Members}
use herdres.Safe.{Unicode}

module _ ⦃u : Unicode⦄ ⦃casing : Casing⦄ where
  process_answer-not_started :
      (request : Members) (process : ChildProcess)
      → process_answer request process ≡ subprocess_failed
      → process ≡ not_started
  process_answer-not_started request not_started h = refl
  process_answer-not_started request lost h = cc
  process_answer-not_started request (finished negative code r) h =
      checked_answer-sent negative code r (validated_response r request) h
    where
      checked_answer-sent :
          (negative : Bool) (code : ℕ) (r : Members) (v : Verdict)
          → checked_answer negative code r v ≡ subprocess_failed
          → finished negative code r ≡ not_started
      checked_answer-sent negative code r Verdict.refused h = cc
      checked_answer-sent negative code r Verdict.type_error h = cc
      checked_answer-sent negative code r Verdict.accepted h =
          elim (Bool-cases (code_agrees negative code r)) [
            | inl k ↦ cc (rw k at h)
            | inr k ↦ cc (rw k at h)
          ]

  process_answer-valid :
      (request : Members) (process : ChildProcess)
      → ¬ (process_answer request process ≡ invalid_request)
  process_answer-valid request not_started h = cc
  process_answer-valid request lost h = cc
  process_answer-valid request (finished negative code r) h =
      checked_answer-valid negative code r (validated_response r request) h
    where
      checked_answer-valid :
          (negative : Bool) (code : ℕ) (r : Members) (v : Verdict)
          → ¬ (checked_answer negative code r v ≡ invalid_request)
      checked_answer-valid negative code r Verdict.refused h = cc
      checked_answer-valid negative code r Verdict.type_error h = cc
      checked_answer-valid negative code r Verdict.accepted h =
          elim (Bool-cases (code_agrees negative code r)) [
            | inl k ↦ cc (rw k at h)
            | inr k ↦ cc (rw k at h)
          ]

  -- A dictionary is answered as a command that was not sent just when it is no exact public command,
  -- or the child was not started; whatever else is lost or refused is not answered so.
  pub command_json-unsent :
      (request : Members) (process : ChildProcess)
      → (command_json (some (Json.object request)) process ≡ invalid_request
          ↔ (exact_public_command_request request ≡ false))
        × (command_json (some (Json.object request)) process ≡ subprocess_failed
            ↔ ((exact_public_command_request request ≡ true) × (process ≡ not_started)))
  unfolding command_json
  command_json-unsent request process = elim (Bool-cases (exact_public_command_request request)) [
    | inl e ↦ rw e (
      (λ h. absurd (process_answer-valid request process h), λ h. cc),
      (λ h. (refl, process_answer-not_started request process h), λ h. rw h.1 refl),
    )
    | inr e ↦ rw e ((λ h. refl, λ h. refl), (λ h. cc, λ h. cc (h.0)))
  ]
