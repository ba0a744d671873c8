-- ===== src/Requests/Stable.antt =====
-- Texts that `_fixed_reply` leaves alone when it sees its own result again, as `_valid_record` tests.
use herdres.Prelude.{
  All, Bool, Text, [], all, and-true, ap, arith, false, length, nat_eq, not, refl, same_text_of_eq,
  some, string_eq, sym, text_eq, true, ℕ, ◌&&◌, ◌==◌, ◌∷◌, ◌≡◌, ◌≤◌,
}
use herdres.Requests.Child.{fixed_reply, is_empty}
use herdres.Requests.Lifecycle.{default_action, default_reason, or_else, or_none}
use herdres.Requests.Record.{CommandCodec, fixed_or_none}
use herdres.Requests.Types.{Outcome}
use herdres.Safe.{Unicode, is_printable}
use herdres.Safe.Sanitized.{IsPrintable, NoKeyColon, sanitize_text_kept}

reason_nonempty : (o : Outcome) → is_empty (default_reason o) ≡ false
reason_nonempty Outcome.delivered = refl
reason_nonempty Outcome.not_delivered = refl
reason_nonempty Outcome.delivery_unknown = refl

action_nonempty : (o : Outcome) → is_empty (default_action o) ≡ false
action_nonempty Outcome.delivered = refl
action_nonempty Outcome.not_delivered = refl
action_nonempty Outcome.delivery_unknown = refl

module _ ⦃u : Unicode⦄ where
  abbrev pub IsStable : Text → Type 0
  IsStable t = fixed_reply (fixed_reply t) ≡ fixed_reply t

  abbrev pub is_plain : ℕ → Bool
  is_plain c = is_printable c && not (c == b':')

  plain-NoKeyColon : (cs : Text) → all is_plain cs ≡ true → NoKeyColon cs
  plain-NoKeyColon [] h = tt
  plain-NoKeyColon (c ∷ []) h = tt
  plain-NoKeyColon (c ∷ d ∷ cs) h =
      let p = and-true (is_plain c) (all is_plain (d ∷ cs)) h in
      (ground arith, plain-NoKeyColon (d ∷ cs) p.1)

  plain-IsPrintable : (cs : Text) → all is_plain cs ≡ true → All IsPrintable cs
  plain-IsPrintable [] h = tt
  plain-IsPrintable (c ∷ cs) h =
      let p = and-true (is_plain c) (all is_plain cs) h in (ground arith, plain-IsPrintable cs p.1)

  pub fixed_reply_plain : (t : Text) → all is_plain t ≡ true → length t ≤ 160 → fixed_reply t ≡ t
  unfolding fixed_reply
  fixed_reply_plain t h n =
      sanitize_text_kept t 160 (plain-NoKeyColon t h) (plain-IsPrintable t h) n

  pub plain-IsStable : (t : Text) → all is_plain t ≡ true → length t ≤ 160 → IsStable t
  plain-IsStable t h n = ap fixed_reply (fixed_reply_plain t h n)

  pub default_reason_stable : (o : Outcome) → fixed_reply (default_reason o) ≡ default_reason o
  default_reason_stable Outcome.delivered = fixed_reply_plain _ refl (omega arith)
  default_reason_stable Outcome.not_delivered = fixed_reply_plain _ refl (omega arith)
  default_reason_stable Outcome.delivery_unknown = fixed_reply_plain _ refl (omega arith)

  pub default_action_stable : (o : Outcome) → fixed_reply (default_action o) ≡ default_action o
  default_action_stable Outcome.delivered = fixed_reply_plain _ refl (omega arith)
  default_action_stable Outcome.not_delivered = fixed_reply_plain _ refl (omega arith)
  default_action_stable Outcome.delivery_unknown = fixed_reply_plain _ refl (omega arith)

  module _ ⦃codec : CommandCodec⦄ where
    pub fixed_or_none_of :
        (t : Text) → is_empty t ≡ false → fixed_reply t ≡ t → fixed_or_none (some t) ≡ true
    fixed_or_none_of t n e = rw n (same_text_of_eq t (fixed_reply t) (sym e))

    pub fixed_or_none-default : (o : Outcome) → fixed_or_none (some (default_action o)) ≡ true
    fixed_or_none-default o =
        fixed_or_none_of (default_action o) (action_nonempty o) (default_action_stable o)

    note_fixed :
        (t d : Text)
        → fixed_reply t ≡ t
        → is_empty d ≡ false
        → fixed_reply d ≡ d
        → fixed_or_none (some (or_else t d)) ≡ true
    note_fixed [] d e n f = fixed_or_none_of d n f
    note_fixed (c ∷ cs) d e n f = fixed_or_none_of (c ∷ cs) refl e

    pub fixed_or_none-reason :
        (t : Text) (o : Outcome)
        → IsStable t
        → fixed_or_none (some (or_else (fixed_reply t) (default_reason o))) ≡ true
    fixed_or_none-reason t o s =
        note_fixed (fixed_reply t) (default_reason o) s (reason_nonempty o)
          (default_reason_stable o)

    pub fixed_or_none-action :
        (t : Text) (o : Outcome)
        → IsStable t
        → fixed_or_none (some (or_else (fixed_reply t) (default_action o))) ≡ true
    fixed_or_none-action t o s =
        note_fixed (fixed_reply t) (default_action o) s (action_nonempty o)
          (default_action_stable o)

    pub fixed_or_none-or_none :
        (t : Text) → fixed_or_none (some t) ≡ true → fixed_or_none (or_none t) ≡ true
    fixed_or_none-or_none [] h = refl
    fixed_or_none-or_none (c ∷ cs) h = h
