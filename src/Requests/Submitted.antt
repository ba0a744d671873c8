-- ===== src/Requests/Submitted.antt =====
-- About `attach_submission_receipt` on a record that is retryable or terminal.
use herdres.Prelude.{
  Bool, Option, Text, and-true, ap, arith, coalesce, false, if◌then◌else◌, is_some, leb, leb→le,
  none, not, refl, some, subst, true, ℕ, ◌&&◌, ◌||◌, ◌≡◌, ◌≤◌,
}
use herdres.Requests.Evidence.{receipt_allowed, receipt_linked, receipt_written}
use herdres.Requests.Record.{
  CommandCodec, fits, ink_or_none, is_linked, submitted_in_time, valid_link, valid_owner?,
  valid_receipt,
}
use herdres.Requests.Types.{Request, SubmissionState}
use herdres.Safe.{Unicode, has_ink}

absent : {A : Type 0} (o : Option A) → is_some o ≡ false → o ≡ none
absent none h = refl
absent (some a) h = cc

module _ ⦃u : Unicode⦄ ⦃codec : CommandCodec⦄ where
  -- The times of a receipt that is written on a record without one.
  first_time :
      (now : ℕ) (turn : Option Text)
      → valid_link turn (if is_some turn then some now else none) now now ≡ true
  first_time now none = refl
  first_time now (some t) = ground arith

  -- The times of a receipt that is written on a record that has one.
  next_time :
      (turn old : Option Text) (l : Option ℕ) (since updated now : ℕ)
      → since ≤ updated
      → updated ≤ now
      → valid_link old l since updated ≡ true
      → valid_link
          (coalesce turn old)
          (if is_some (coalesce turn old) then coalesce l (some now) else l)
          since
          now
        ≡ true
  next_time none none l since updated now a b h = h
  next_time none (some t) none since updated now a b h = cc
  next_time none (some t) (some l) since updated now a b h = ground arith
  next_time (some t) none none since updated now a b h = ground arith
  next_time (some t) none (some l) since updated now a b h = cc
  next_time (some t) (some o) none since updated now a b h = cc
  next_time (some t) (some o) (some l) since updated now a b h = ground arith

  abbrev pub stamped_at : Request → Text → SubmissionState → Option Text → ℕ → Request
  stamped_at r id state turn now =
      record (receipt_linked (receipt_written r id state turn now) now) { updated_at = now }

  in_none :
      (r : Request)
      → valid_receipt r none ≡ true
      → ((is_some r.turn_id ≡ false) × (is_some r.linked_at ≡ false))
        × (is_some r.submitted_at ≡ false)
  in_none r h = ground arith

  in_some :
      (r : Request) (i : Text)
      → valid_receipt r (some i) ≡ true
      → submitted_in_time r r.submitted_at ≡ true
  in_some r i h = (and-true _ _ h).1

  stamped_again :
      (r : Request) (i : Text) (state : SubmissionState) (turn : Option Text) (now : ℕ)
      (m : Option ℕ)
      → r.created_at ≤ r.updated_at
      → r.updated_at ≤ now
      → submitted_in_time r m ≡ true
      → submitted_in_time (stamped_at r i state turn now) (coalesce m (some now)) ≡ true
  stamped_again r i state turn now none c d h = cc
  stamped_again r i state turn now (some m) c d h =
      let (p, q) =
        and-true (leb r.created_at m && leb m r.updated_at)
          (valid_link r.turn_id r.linked_at m r.updated_at) h in
      let (e, f) = and-true (leb r.created_at m) (leb m r.updated_at) p in
      let k = next_time turn r.turn_id r.linked_at m r.updated_at now (leb→le _ _ f) d q in
      ground (arith, k)

  stamped_in_time :
      (r : Request) (i : Text) (state : SubmissionState) (turn : Option Text) (now : ℕ)
      (old : Option Text) (m : Option ℕ)
      → r.submission_id ≡ old
      → r.submitted_at ≡ m
      → r.created_at ≤ r.updated_at
      → r.updated_at ≤ now
      → valid_receipt r old ≡ true
      → submitted_in_time (stamped_at r i state turn now) (coalesce m (some now)) ≡ true
  stamped_in_time r i state turn now none (some m) a b c d h = cc (ap is_some b, (in_none r h).1)
  stamped_in_time r i state turn now none none a b c d h =
      let t = (in_none r h).0 in
      rw (absent r.turn_id t.0, absent r.linked_at t.1)
        (ground (arith, first_time now (coalesce turn none)))
  stamped_in_time r i state turn now (some o) m a b c d h =
      stamped_again r i state turn now m c d
        (subst (λ z. submitted_in_time r z ≡ true) b (in_some r o h))

  in_receipt :
      (r : Request) (m : Option Text)
      → r.submission_id ≡ m
      → valid_receipt r m ≡ true
      → ink_or_none r.turn_id ≡ true
  in_receipt r none e h = rw (absent r.turn_id (in_none r h).0.0) refl
  in_receipt r (some i) e h = ground arith

  ink_coalesce :
      (a b : Option Text)
      → ink_or_none a ≡ true
      → ink_or_none b ≡ true
      → ink_or_none (coalesce a b) ≡ true
  ink_coalesce none b h k = k
  ink_coalesce (some a) b h k = h

  -- What the first checks of `attach_submission_receipt` give.
  record Allowed (r : Request) (i : Text) (turn : Option Text) : Type 0 where
    ink : has_ink i ≡ true
    short : fits i ≡ true
    turn_ink : ink_or_none turn ≡ true
    owned : is_some r.target_owner ≡ true
    owner : valid_owner? r.target_owner ≡ true

  allowed :
      (r : Request) (i : Text) (turn : Option Text)
      → receipt_allowed r i turn ≡ true
      → Allowed r i turn
  allowed r i turn h = record {
    ink = ground arith;
    short = ground arith;
    turn_ink = ground arith;
    owned = ground arith;
    owner = ground arith;
  }

  pub stamped-valid_receipt :
      (r : Request) (i : Text) (state : SubmissionState) (turn : Option Text) (now : ℕ)
      → r.created_at ≤ r.updated_at
      → r.updated_at ≤ now
      → receipt_allowed r i turn ≡ true
      → (is_linked (some state) && not (is_some (coalesce turn r.turn_id))) ≡ false
      → valid_receipt r r.submission_id ≡ true
      → valid_receipt (stamped_at r i state turn now) (some i) ≡ true
  stamped-valid_receipt r i state turn now c d a l h =
      let w = allowed r i turn a in
      let k = stamped_in_time r i state turn now r.submission_id r.submitted_at refl refl c d h in
      let j = ink_coalesce turn r.turn_id w.turn_ink (in_receipt r r.submission_id refl h) in
      rw (w.ink, w.short, w.owned, w.owner, j, k) (unlinked _ _ l)
    where
      unlinked : (a b : Bool) → (a && not b) ≡ false → ((not a || b) && true) ≡ true
      unlinked a b h = ground arith
