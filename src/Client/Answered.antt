-- ===== src/Client/Answered.antt =====
-- About `command_json`.
use herdres.Prelude.{
  Bool, Bool-cases, Option, Text, and-true, ap, arith, codes, false, inl, inr, nat_beq_iff, nat_eq,
  none, refl, some, string_eq, subst, sym, text_eq, true, ℕ, ◌&&◌, ◌==◌, ◌||◌, ◌∙◌, ◌≡◌, ◌⊎◌,
}
use herdres.Client.Answers.{
  command_body, command_dispositions, command_head, command_tail, decision_body, decision_head,
  decision_tail, disposition_of, is_bool, is_public, shared_head, validated_command_response,
  validated_decision_response,
}
use herdres.Client.Commands.{exact_public_command_request, is_decision}
use herdres.Client.Decided.{decision_tail-Tail}
use herdres.Client.Process.{
  ChildProcess, CommandAnswer, checked_answer, answers, code_agrees, command_json, finished, lost,
  not_started, process_answer, validated_response,
}
use herdres.Client.Sound.{
  IsAnswer, Tail, command_tail-Tail, demand-accepted, is_boolean-eq, member_of-accepted,
}
use herdres.Client.Verdicts.{Verdict, demand, member_of}
use herdres.Json.Clean.{IsClean, public_prune-IsClean}
use herdres.Json.Prune.{Casing, public_prune}
use herdres.Json.Same.{same_json_lem}
use herdres.Json.Values.{Json, Members, get, is_boolean, members_of, no_members}
use herdres.Safe.{Unicode}

module _ ⦃u : Unicode⦄ ⦃casing : Casing⦄ where
  head_parts :
      (action : Text) (r request : Members)
      → shared_head action r request ≡ true
      → (get (codes "request_id") r ≡ get (codes "request_id") request)
        × (is_bool (get (codes "ok") r) ≡ true)
  head_parts action r request h =
      let (a, s) = and-true _ _ h in
      let (b, o) = and-true _ _ a in
      let (c, d) = and-true _ _ b in (same_json_lem _ _ (and-true _ _ c).0, o)

  public_parts :
      (r : Members)
      → is_public r ≡ true
      → (public_prune (Json.object r) ≡ Json.object r) × IsClean (Json.object r)
  public_parts r h =
      let e = same_json_lem (public_prune (Json.object r)) (Json.object r) h in
      (e, subst IsClean e (public_prune-IsClean (Json.object r)))

  of_parts :
      (r request : Members)
      → get (codes "request_id") r ≡ get (codes "request_id") request
      → is_public r ≡ true
      → Tail r request
      → IsAnswer r request
  of_parts r request e p t =
      let (f, c) = public_parts r p in
      record { echoes = e; clean = c; fixed = f; truth = t.0; worker = t.1 }

  pub validated_command_response-IsAnswer :
      (r request : Members)
      → validated_command_response r request ≡ Verdict.accepted
      → IsAnswer r request
  unfolding validated_command_response
  validated_command_response-IsAnswer r request h =
      let (a, b) =
        demand-accepted (command_head r request)
          (member_of command_dispositions (disposition_of r)
            (demand (command_body r) (command_tail r request)))
          h in
      let (c, d) =
        demand-accepted (command_body r) (command_tail r request)
          (member_of-accepted command_dispositions (disposition_of r) _ b) in
      of_parts r request (head_parts (codes "send_instruction") r request (and-true _ _ a).1).0
        (and-true _ _ c).1 (command_tail-Tail r request d)

  pub validated_decision_response-IsAnswer :
      (r request : Members)
      → validated_decision_response r request ≡ Verdict.accepted
      → IsAnswer r request
  unfolding validated_decision_response
  validated_decision_response-IsAnswer r request h =
      let (a, b) =
        demand-accepted (decision_head r request)
          (member_of command_dispositions (disposition_of r)
            (demand (decision_body r) (decision_tail r request)))
          h in
      let (c, d) =
        demand-accepted (decision_body r) (decision_tail r request)
          (member_of-accepted command_dispositions (disposition_of r) _ b) in
      let (e, o) = head_parts (codes "answer_decision") r request (and-true _ _ a).1 in
      of_parts r request e (and-true _ _ c).1 (decision_tail-Tail r request o d)

  validated_response-IsAnswer :
      (r request : Members) → validated_response r request ≡ Verdict.accepted → IsAnswer r request
  validated_response-IsAnswer r request h = elim (Bool-cases (is_decision request)) [
    | inl e ↦ validated_decision_response-IsAnswer r request (rw e at h)
    | inr e ↦ validated_command_response-IsAnswer r request (rw e at h)
  ]

  -- What is known of an answer that `command_json` gives.
  abbrev pub Answered : Json → ChildProcess → Members → Type 0
  Answered request process s =
      IsAnswer s (members_of request)
      × (((get (codes "ok") s ≡ Json.boolean true) × (process ≡ finished false 0 s))
          ⊎ ((get (codes "ok") s ≡ Json.boolean false) × (process ≡ finished false 1 s)))

  code_agrees-truth :
      (negative : Bool) (code : ℕ) (r : Members)
      → code_agrees negative code r ≡ true
      → ((get (codes "ok") r ≡ Json.boolean true) × (finished negative code r ≡ finished false 0 r))
        ⊎ ((get (codes "ok") r ≡ Json.boolean false)
            × (finished negative code r ≡ finished false 1 r))
  code_agrees-truth true code r h = cc
  code_agrees-truth false code r h = elim (Bool-cases (code == 0)) [
    | inl e ↦
        let z = (nat_beq_iff code 0).0 e in
        let k =
          in_code (is_boolean true (get (codes "ok") r)) (is_boolean false (get (codes "ok") r))
            code z h in
        inl (is_boolean-eq true (get (codes "ok") r) k, ap (λ c. finished false c r) z)
    | inr e ↦
        let (o, f) = and-true _ _ (rw e at h) in
        inr (
          is_boolean-eq false (get (codes "ok") r) f,
          ap (λ c. finished false c r) ((nat_beq_iff code 1).0 o),
        )
  ]
    where
      in_code :
          (a b : Bool) (code : ℕ)
          → code ≡ 0
          → (((code == 0) && a) || ((code == 1) && b)) ≡ true
          → a ≡ true
      in_code a b code z h = ground (arith, z)

  abbrev members_in : CommandAnswer → Members
  members_in (answers s) = s
  members_in _ = no_members

  checked_answer-answers :
      (negative : Bool) (code : ℕ) (r request s : Members) (v : Verdict)
      → validated_response r request ≡ v
      → checked_answer negative code r v ≡ answers s
      → Answered (Json.object request) (finished negative code r) s
  checked_answer-answers negative code r request s Verdict.refused e h = cc
  checked_answer-answers negative code r request s Verdict.type_error e h = cc
  checked_answer-answers negative code r request s Verdict.accepted e h =
      elim (Bool-cases (code_agrees negative code r)) [
        | inl k ↦
            let a = validated_response-IsAnswer r request e in
            let same : r ≡ s = ap members_of (sym a.fixed) ∙ ap members_in (rw k at h) in
            subst (λ t. Answered (Json.object request) (finished negative code r) t) same
              (a, code_agrees-truth negative code r k)
        | inr k ↦ cc (rw k at h)
      ]

  process_answer-answers :
      (request s : Members) (process : ChildProcess)
      → process_answer request process ≡ answers s
      → Answered (Json.object request) process s
  process_answer-answers request s not_started h = cc
  process_answer-answers request s lost h = cc
  process_answer-answers request s (finished negative code r) h =
      checked_answer-answers negative code r request s (validated_response r request) refl h

  -- An answer is given only to an exact public command, by a child that ran to its end with it. It
  -- echoes the identity of the command; no dictionary in it has a forbidden key, at any depth; it
  -- is affirmative just when its disposition is `terminal_accepted`, and just when the child
  -- returned 0, else the child returned 1; and one that is affirmative names the worker that was
  -- asked for, if one was.
  pub command_json-answers :
      (m : Option Json) (process : ChildProcess) (s : Members)
      → command_json m process ≡ answers s
      → (request : Members) × (m ≡ some (Json.object request))
        × (exact_public_command_request request ≡ true)
        × Answered (Json.object request) process s
  unfolding command_json
  command_json-answers none process s h = cc
  command_json-answers (some j) process s h =
      elim j
          as (λ j.
            command_json (some j) process ≡ answers s
            → (request : Members) × (some j ≡ some (Json.object request))
              × (exact_public_command_request request ≡ true)
              × Answered (Json.object request) process s) [
                | Json.object request ↦ λ h.
                    elim (Bool-cases (exact_public_command_request request)) [
                      | inl e ↦
                          (request, refl, e, process_answer-answers request s process (rw e at h))
                      | inr e ↦ cc (rw e at h)
                    ]
                | _ ↦ λ h. cc
              ]
        h
