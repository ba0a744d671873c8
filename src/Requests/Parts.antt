-- ===== src/Requests/Parts.antt =====
-- The parts of `_valid_record`, so that a proof can take and give them one by one.
use herdres.Prelude.{
  Bool, Option, Text, arith, nat_eq, none, some, string_eq, text_eq, true, ℕ, ◌&&◌, ◌==◌, ◌≡◌, ◌≤◌,
}
use herdres.Requests.Record.{
  CommandCodec, fixed_or_none, submitted_in_time, valid_attention, valid_in_state, valid_json,
  valid_link, valid_receipt, valid_record, valid_submission, valid_times, valid_witness?,
}
use herdres.Requests.Types.{Request, is_persisted}
use herdres.Safe.{Unicode}

split_ten :
    (a b c d e f g h i j : Bool)
    → (a && b && c && d && e && f && g && h && i && j) ≡ true
    → (a ≡ true)
      × (b ≡ true)
      × (c ≡ true)
      × (d ≡ true)
      × (e ≡ true)
      × (f ≡ true)
      × (g ≡ true)
      × (h ≡ true)
      × (i ≡ true)
      × (j ≡ true)
split_ten a b c d e f g h i j p = ground arith

module _ ⦃u : Unicode⦄ ⦃codec : CommandCodec⦄ where
  pub record IsValidRecord (r : Request) (request_id : Text) : Type 0 where
    pub same_id : (r.request_id == request_id) ≡ true
    pub times : valid_times r ≡ true
    pub persisted : is_persisted r.transport ≡ true
    pub reason : fixed_or_none r.blocked_reason ≡ true
    pub action : fixed_or_none r.next_action ≡ true
    pub witness : valid_witness? r.dedup_witness ≡ true
    pub submission : valid_submission r ≡ true
    pub json : valid_json r request_id ≡ true
    pub attention : valid_attention r ≡ true
    pub in_state : valid_in_state r.state r request_id ≡ true

  pub valid_record_parts :
      (r : Request) (request_id : Text)
      → valid_record r request_id ≡ true
      → IsValidRecord r request_id
  unfolding valid_record
  valid_record_parts r request_id h =
      let (a, b, c, d, e, f, g, k, l, m) =
        split_ten (r.request_id == request_id) (valid_times r) (is_persisted r.transport)
          (fixed_or_none r.blocked_reason) (fixed_or_none r.next_action)
          (valid_witness? r.dedup_witness) (valid_submission r) (valid_json r request_id)
          (valid_attention r) (valid_in_state r.state r request_id) h in
      record {
        same_id = a;
        times = b;
        persisted = c;
        reason = d;
        action = e;
        witness = f;
        submission = g;
        json = k;
        attention = l;
        in_state = m;
      }

  pub valid_record_of_parts :
      (r : Request) (request_id : Text)
      → IsValidRecord r request_id
      → valid_record r request_id ≡ true
  unfolding valid_record
  valid_record_of_parts r request_id p =
      rw
        (
          p.same_id, p.times, p.persisted, p.reason, p.action, p.witness, p.submission, p.json,
          p.attention,
        )
        p.in_state

  link_later :
      (t : Option Text) (l : Option ℕ) (since updated later : ℕ)
      → updated ≤ later
      → valid_link t l since updated ≡ true
      → valid_link t l since later ≡ true
  link_later none l since updated later u h = h
  link_later (some t) none since updated later u h = h
  link_later (some t) (some l) since updated later u h = ground arith

  time_later :
      (r s : Request) (m : Option ℕ)
      → s.created_at ≡ r.created_at
      → r.updated_at ≤ s.updated_at
      → s.turn_id ≡ r.turn_id
      → s.linked_at ≡ r.linked_at
      → submitted_in_time r m ≡ true
      → submitted_in_time s m ≡ true
  time_later r s none c q t l h = h
  time_later r s (some m) c q t l h =
      rw (c, t, l) (ground (arith, link_later r.turn_id r.linked_at m r.updated_at s.updated_at q))

  receipt_later :
      (r s : Request) (i : Option Text)
      → s.created_at ≡ r.created_at
      → r.updated_at ≤ s.updated_at
      → s.submission_state ≡ r.submission_state
      → s.turn_id ≡ r.turn_id
      → s.target_owner ≡ r.target_owner
      → s.submitted_at ≡ r.submitted_at
      → s.linked_at ≡ r.linked_at
      → valid_receipt r i ≡ true
      → valid_receipt s i ≡ true
  receipt_later r s none c q b t o p l h = rw (b, t, o, p, l) h
  receipt_later r s (some i) c q b t o p l h =
      rw (b, t, o) (ground (arith, time_later r s r.submitted_at c q t l))

  -- A receipt stays valid when the record is written at a later time.
  pub valid_submission_later :
      (r s : Request)
      → s.created_at ≡ r.created_at
      → r.updated_at ≤ s.updated_at
      → s.submission_id ≡ r.submission_id
      → s.submission_state ≡ r.submission_state
      → s.turn_id ≡ r.turn_id
      → s.target_owner ≡ r.target_owner
      → s.submitted_at ≡ r.submitted_at
      → s.linked_at ≡ r.linked_at
      → valid_submission r ≡ true
      → valid_submission s ≡ true
  unfolding valid_submission
  valid_submission_later r s c q a b t o p l h =
      rw a (receipt_later r s r.submission_id c q b t o p l h)
