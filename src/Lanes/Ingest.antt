-- ===== src/Lanes/Ingest.antt =====
-- The outcomes of `enqueue`: each with what holds of the spool when it comes about.
use herdres.Prelude.{
  Bool-cases, Option, codes, false, find, inl, inr, none, refl, some, true, ◌+◌, ◌≡◌, ◌≢◌,
}
use herdres.Identity.{valid_request_id}
use herdres.Lanes.Calls.{after_enqueue}
use herdres.Lanes.Enqueued.{
  advance_cursor-IsValid, commit_at_lem, commits, insert_row-IsValid, read_back,
}
use herdres.Lanes.Rows.{Row, Spool}
use herdres.Lanes.Spool.{
  Arrival, Enqueued, clashes, cursor_commit_failed, duplicate, enqueue, enqueue_found, enqueue_new,
  err, identity_collision, insert_row, invalid_request_id, is_full, new_status, ok, overflow,
  same_identity,
}
use herdres.Lanes.Valid.{IsValid}

module _ {ℓ} (P : Enqueued → Type ℓ) (a : Arrival) (sp : Spool) where
  -- What a claim about the result has to show for each outcome.
  pub record Outcomes : Type ℓ where
    pub invalid : valid_request_id (codes a.request_id) ≡ false → P (err invalid_request_id)
    pub collision :
        (r : Row)
        → find (clashes a) sp.rows ≡ some r
        → same_identity a r ≡ false
        → P (err identity_collision)
    pub again :
        (r : Row)
        → find (clashes a) sp.rows ≡ some r
        → same_identity a r ≡ true
        → P (
            ok
              (record { status = duplicate; next_update_id = read_back a sp; seq = some r.seq })
              (commits a sp))
    pub full :
        find (clashes a) sp.rows ≡ none
        → is_full a sp ≡ true
        → P (
            ok
              (record { status = overflow; next_update_id = read_back a sp; seq = none })
              (commits a sp))
    pub inserted :
        find (clashes a) sp.rows ≡ none
        → is_full a sp ≡ false
        → P (
            ok
              (record {
                status = new_status a;
                next_update_id = read_back a sp;
                seq = some sp.next_seq;
              })
              (commits a (insert_row a sp)))

  enqueue_new_cases : Outcomes → find (clashes a) sp.rows ≡ none → P (enqueue_new a sp)
  unfolding enqueue_new insert_row
  enqueue_new_cases o e = elim (Bool-cases (is_full a sp)) [
    | inl h ↦ rw (h, commit_at_lem a overflow none sp) (o.full e h)
    | inr h ↦
        rw (h, commit_at_lem a (new_status a) (some sp.next_seq) (insert_row a sp)) (o.inserted e h)
  ]

  enqueue_found_cases :
      Outcomes
      → (found : Option Row) → find (clashes a) sp.rows ≡ found
      → P (enqueue_found a found sp)
  unfolding enqueue_found
  enqueue_found_cases o none e = enqueue_new_cases o e
  enqueue_found_cases o (some r) e = elim (Bool-cases (same_identity a r)) [
    | inl same ↦ rw (same, commit_at_lem a duplicate (some r.seq) sp) (o.again r e same)
    | inr other ↦ rw other (o.collision r e other)
  ]

  pub enqueue_cases : Outcomes → P (enqueue a sp)
  unfolding enqueue
  enqueue_cases o = elim (Bool-cases (valid_request_id (codes a.request_id))) [
    | inl good ↦ rw good (enqueue_found_cases o (find (clashes a) sp.rows) refl)
    | inr bad ↦ rw bad (o.invalid bad)
  ]

-- Whatever comes in, the spool stays valid.
pub enqueue-IsValid :
    (a : Arrival) {sp : Spool} → IsValid sp → IsValid (after_enqueue sp (enqueue a sp))
enqueue-IsValid a {sp} v =
    let moved = advance_cursor-IsValid a.receiver_kind (a.update_id + 1) a.first_seen_at v in
    enqueue_cases (λ e. IsValid (after_enqueue sp e)) a sp
      (record {
        invalid = λ h. v;
        collision = λ r e h. v;
        again = λ r e h. moved;
        full = λ e h. moved;
        inserted = λ e h. insert_row-IsValid a v e;
      })

-- The cursor is never lost: `enqueue` fails only for an identity.
pub enqueue-ne-lost : (a : Arrival) (sp : Spool) → enqueue a sp ≢ err cursor_commit_failed
enqueue-ne-lost a sp =
    enqueue_cases (λ e. e ≢ err cursor_commit_failed) a sp
      (record {
        invalid = λ h q. cc;
        collision = λ r e h q. cc;
        again = λ r e h q. cc;
        full = λ e h q. cc;
        inserted = λ e h q. cc;
      })
