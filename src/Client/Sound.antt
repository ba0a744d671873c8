-- ===== src/Client/Sound.antt =====
-- About the two validators: what an answer satisfies that they accept.
use herdres.Prelude.{
  Bool, Bool-cases, List, Text, and-true, ap, arith, codes, false, inl, inr, refl, same_text-eq,
  same_text_refl, subst, sym, true, ◌∙◌, ◌≡◌, ◌⊎◌,
}
use herdres.Client.Answers.{affirmed, command_tail, declined, disposition_of, is_third}
use herdres.Client.Commands.{inked_string, worker_target}
use herdres.Client.Results.{result_fits, same_worker, turn_states, valid_accepted_command_result}
use herdres.Client.Verdicts.{Verdict, demand, member_of}
use herdres.Json.Clean.{IsClean}
use herdres.Json.Prune.{Casing, public_prune}
use herdres.Json.Values.{Json, Members, equals_text, get, is_boolean, members_of, one_of}
use herdres.Safe.{Unicode}

pub demand-accepted :
    (b : Bool) (v : Verdict) → demand b v ≡ Verdict.accepted → (b ≡ true) × (v ≡ Verdict.accepted)
demand-accepted true v h = (refl, h)
demand-accepted false v h = cc

pub member_of-accepted :
    (texts : List Text) (j : Json) (v : Verdict)
    → member_of texts j v ≡ Verdict.accepted
    → v ≡ Verdict.accepted
member_of-accepted texts j v h =
    elim j as (λ j. member_of texts j v ≡ Verdict.accepted → v ≡ Verdict.accepted) [
      | Json.array vs ↦ λ h. cc
      | Json.object ms ↦ λ h. cc
      | Json.string t ↦ λ h. (demand-accepted (one_of t texts) v h).1
      | _ ↦ λ h. cc
    ]
      h

pub equals_text-eq : (t : Text) (j : Json) → equals_text t j ≡ true → j ≡ Json.string t
equals_text-eq t j h =
    elim j as (λ j. equals_text t j ≡ true → j ≡ Json.string t) [
      | Json.string s ↦ λ h. ap Json.string (same_text-eq s t h)
      | _ ↦ λ h. cc
    ]
      h

pub is_boolean-eq : (b : Bool) (j : Json) → is_boolean b j ≡ true → j ≡ Json.boolean b
is_boolean-eq true j h =
    elim j as (λ j. is_boolean true j ≡ true → j ≡ Json.boolean true) [
      | Json.boolean c ↦ λ h. ap Json.boolean h
      | _ ↦ λ h. cc
    ]
      h
is_boolean-eq false j h =
    elim j as (λ j. is_boolean false j ≡ true → j ≡ Json.boolean false) [
      | Json.boolean c ↦ λ h. ap Json.boolean (ground arith)
      | _ ↦ λ h. cc
    ]
      h

abbrev pub worker_of : Json → Json
worker_of j = get (codes "worker_id") (members_of (get (codes "target") (members_of j)))

module _ ⦃u : Unicode⦄ ⦃casing : Casing⦄ where
  -- An answer to a request.
  pub record IsAnswer (r request : Members) : Type 0 where
    pub echoes : get (codes "request_id") r ≡ get (codes "request_id") request
    pub clean : IsClean (Json.object r)
    pub fixed : public_prune (Json.object r) ≡ Json.object r
    pub truth :
        ((get (codes "ok") r ≡ Json.boolean true)
          × (disposition_of r ≡ Json.string (codes "terminal_accepted")))
        ⊎ ((get (codes "ok") r ≡ Json.boolean false)
            × ¬ (disposition_of r ≡ Json.string (codes "terminal_accepted")))
    pub worker :
        (w : Text)
        → get (codes "ok") r ≡ Json.boolean true
        → get (codes "worker_id") (members_of (get (codes "target") request)) ≡ Json.string w
        → worker_of (get (codes "result") r) ≡ Json.string w

  abbrev pub Tail : Members → Members → Type 0
  Tail r request =
      (((get (codes "ok") r ≡ Json.boolean true)
          × (disposition_of r ≡ Json.string (codes "terminal_accepted")))
        ⊎ ((get (codes "ok") r ≡ Json.boolean false)
            × ¬ (disposition_of r ≡ Json.string (codes "terminal_accepted"))))
      × ((w : Text)
          → get (codes "ok") r ≡ Json.boolean true
          → get (codes "worker_id") (members_of (get (codes "target") request)) ≡ Json.string w
          → worker_of (get (codes "result") r) ≡ Json.string w)

  same_worker-eq :
      (j asked : Json) (w : Text)
      → same_worker j asked ≡ true
      → inked_string j ≡ true
      → asked ≡ Json.string w
      → j ≡ Json.string w
  same_worker-eq j asked w s i e =
      elim j as (λ j. same_worker j asked ≡ true → inked_string j ≡ true → j ≡ Json.string w) [
        | Json.string v ↦ λ s i.
            let s' : same_worker (Json.string v) (Json.string w) ≡ true =
              subst (λ a. same_worker (Json.string v) a ≡ true) e s in
            ap Json.string (same_text-eq v w s')
        | _ ↦ λ s i. cc
      ]
        s i

  named_worker :
      (v3 : Bool) (request r : Members)
      → result_fits v3 request r ≡ true
      → (worker_target (get (codes "target") r) ≡ true)
        × (same_worker
              (get (codes "worker_id") (members_of (get (codes "target") r)))
              (get (codes "worker_id") (members_of (get (codes "target") request)))
            ≡ true)
  named_worker v3 request r h =
      let (a, i) = and-true _ _ h in
      let (b, t) = and-true _ _ a in
      let (c, d) = and-true _ _ b in let (e, s) = and-true _ _ c in ((and-true _ _ e).1, s)

  affirmed-ok : (r : Members) → affirmed r ≡ true → get (codes "ok") r ≡ Json.boolean true
  affirmed-ok r h = is_boolean-eq true (get (codes "ok") r) (and-true _ _ (and-true _ _ h).0).1

  declined-ok : (r : Members) → declined r ≡ true → get (codes "ok") r ≡ Json.boolean false
  declined-ok r h = is_boolean-eq false (get (codes "ok") r) (and-true _ _ (and-true _ _ h).0).0

  other_text : (t : Text) (j : Json) → equals_text t j ≡ false → ¬ (j ≡ Json.string t)
  other_text t j h e = cc (subst (λ k. equals_text t k ≡ true) (sym e) (same_text_refl t), h)

  worker_target-inked :
      (j : Json)
      → worker_target j ≡ true
      → inked_string (get (codes "worker_id") (members_of j)) ≡ true
  worker_target-inked j h =
      elim j
          as (λ j.
            worker_target j ≡ true → inked_string (get (codes "worker_id") (members_of j)) ≡ true) [
              | Json.object ms ↦ λ h. (and-true _ _ h).1
              | _ ↦ λ h. cc
            ]
        h

  result_worker :
      (v3 : Bool) (request : Members) (j : Json) (w : Text)
      → valid_accepted_command_result v3 request j ≡ Verdict.accepted
      → get (codes "worker_id") (members_of (get (codes "target") request)) ≡ Json.string w
      → worker_of j ≡ Json.string w
  unfolding valid_accepted_command_result
  result_worker v3 request j w h e =
      elim j
          as (λ j.
            valid_accepted_command_result v3 request j ≡ Verdict.accepted
            → worker_of j ≡ Json.string w) [
              | Json.object r ↦ λ h.
                  let (a, b) =
                    named_worker v3 request r
                      (demand-accepted (result_fits v3 request r)
                        (member_of turn_states (get (codes "observed_turn_state") r)
                          Verdict.accepted)
                        h).0 in
                  same_worker-eq (get (codes "worker_id") (members_of (get (codes "target") r)))
                    (get (codes "worker_id") (members_of (get (codes "target") request))) w b
                    (worker_target-inked (get (codes "target") r) a) e
              | _ ↦ λ h. cc
            ]
        h

  pub command_tail-Tail :
      (r request : Members) → command_tail r request ≡ Verdict.accepted → Tail r request
  command_tail-Tail r request h =
      elim (Bool-cases (equals_text (codes "terminal_accepted") (disposition_of r))) [
        | inl e ↦
            let (a, b) =
              demand-accepted (affirmed r)
                (valid_accepted_command_result (is_third r) request (get (codes "result") r))
                (rw e at h) in
            let ok = affirmed-ok r a in
            (
              inl (ok, equals_text-eq _ (disposition_of r) e),
              λ w o q. result_worker (is_third r) request (get (codes "result") r) w b q,
            )
        | inr e ↦
            let ok = declined-ok r (demand-accepted (declined r) Verdict.accepted (rw e at h)).0 in
            (inr (ok, other_text _ (disposition_of r) e), λ w o q. cc (sym ok ∙ o))
      ]
