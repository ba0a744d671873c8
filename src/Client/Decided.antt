-- ===== src/Client/Decided.antt =====
-- About `_validated_decision_response`.
use herdres.Prelude.{
  Bool-cases, List, Text, [], and-true, ap, codes, false, inl, inr, refl, subst, sym, true, ◌∙◌,
  ◌∷◌, ◌≡◌,
}
use herdres.Client.Answers.{
  affirmed_decision, decided, decision_tail, declined_decision, disposition_of, is_bool, status_of,
  undecided,
}
use herdres.Client.Sound.{Tail, demand-accepted, equals_text-eq, is_boolean-eq, worker_of}
use herdres.Client.Verdicts.{Verdict, string_among}
use herdres.Json.Prune.{Casing}
use herdres.Json.Same.{same_json_lem}
use herdres.Json.Values.{Json, Members, equals_text, get, is_boolean, members_of, one_of}
use herdres.Safe.{Unicode}

is_bool-false : (j : Json) → is_bool j ≡ true → is_boolean true j ≡ false → j ≡ Json.boolean false
is_bool-false j h k =
    elim j as (λ j. is_bool j ≡ true → is_boolean true j ≡ false → j ≡ Json.boolean false) [
      | Json.boolean b ↦ λ h k. ap Json.boolean k
      | _ ↦ λ h k. cc
    ]
      h k

among_others :
    (texts : List Text) (t : Text) (j : Json)
    → one_of t texts ≡ false
    → string_among texts j ≡ true
    → ¬ (j ≡ Json.string t)
among_others texts t j n h e = cc (subst (λ k. string_among texts k ≡ true) e h, n)

module _ ⦃u : Unicode⦄ ⦃casing : Casing⦄ where
  decided-worker :
      (request : Members) (j : Json)
      → decided request j ≡ true
      → worker_of j ≡ get (codes "worker_id") (members_of (get (codes "target") request))
  decided-worker request j h =
      elim j
          as (λ j.
            decided request j ≡ true
            → worker_of j ≡ get (codes "worker_id") (members_of (get (codes "target") request))) [
              | Json.object r ↦ λ h.
                  let (a, i) = and-true _ _ h in
                  let (b, t) = and-true _ _ a in
                  let (c, d) = and-true _ _ b in
                  let (e, s) = and-true _ _ c in
                  let (f, g) = and-true _ _ e in
                  let (k, l) = and-true _ _ f in
                  same_json_lem (get (codes "worker_id") (members_of (get (codes "target") r)))
                    (get (codes "worker_id") (members_of (get (codes "target") request)))
                    (and-true _ _ k).1
              | _ ↦ λ h. cc
            ]
        h

  undecided-other :
      (r : Members)
      → undecided r ≡ true
      → ¬ (disposition_of r ≡ Json.string (codes "terminal_accepted"))
  undecided-other r h = elim (Bool-cases (equals_text (codes "answer_in_progress") (status_of r))) [
    | inl e ↦
        among_others (codes "no_receipt" ∷ codes "in_progress" ∷ []) _ (disposition_of r) refl
          (rw e at h)
    | inr e ↦
        let h' = rw e at h in
        among_others (codes "no_receipt" ∷ codes "terminal_rejected" ∷ []) _ (disposition_of r) refl
          (and-true _ _ h').1
  ]

  pub decision_tail-Tail :
      (r request : Members)
      → is_bool (get (codes "ok") r) ≡ true
      → decision_tail r request ≡ Verdict.accepted
      → Tail r request
  decision_tail-Tail r request k h = elim (Bool-cases (is_boolean true (get (codes "ok") r))) [
    | inl e ↦
        let a = (demand-accepted (affirmed_decision r request) Verdict.accepted (rw e at h)).0 in
        let (b, d) = and-true _ _ a in
        let (c, n) = and-true _ _ b in
        (
          inl (
            is_boolean-eq true (get (codes "ok") r) e,
            equals_text-eq _ (disposition_of r) (and-true _ _ c).1,
          ),
          λ w o q. decided-worker request (get (codes "result") r) d ∙ q,
        )
    | inr e ↦
        let a = (demand-accepted (declined_decision r) Verdict.accepted (rw e at h)).0 in
        let ok = is_bool-false (get (codes "ok") r) k e in
        (inr (ok, undecided-other r (and-true _ _ a).1), λ w o q. cc (sym ok ∙ o))
  ]
