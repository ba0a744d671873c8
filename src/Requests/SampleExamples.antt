-- ===== src/Requests/SampleExamples.antt =====
-- A request at the first steps of its life, for tests. The command of a test is `send` and its
-- identity.
use herdres.Prelude.{Option, Text, ap, arith, codes, none, refl, some, subst, sym, true, ◌++◌, ◌≡◌}
use herdres.Identity.{strip_prefix, valid_request_id}
use herdres.Requests.Lifecycle.{attach_request_json, attached_record, new_record, opened_record}
use herdres.Requests.Opened.{attach_request_json-valid, new_record-valid}
use herdres.Requests.Record.{
  CommandCodec, Refreshed, nothing_stale, valid_owner, valid_record, without,
}
use herdres.Requests.Types.{Request, TargetOwner, returns}
use herdres.Safe.Ascii.{ascii}

-- A command with a stale target is `pick` and its identity.
abbrev pub plain_identity : Text → Option Text
plain_identity j = elim (strip_prefix (codes "pick ") j) [
  | none ↦ strip_prefix (codes "send ") j
  | some t ↦ some t
]

abbrev pub plain_refresh : Text → Refreshed
plain_refresh j = elim (strip_prefix (codes "pick ") j) [
  | none ↦ nothing_stale
  | some t ↦ without (codes "send " ++ t)
]

pub plain_same :
    (j k i : Text)
    → plain_refresh j ≡ without k
    → plain_identity j ≡ some i
    → plain_identity k ≡ some i
unfolding strip_prefix
plain_same j k i = stripped (strip_prefix (codes "pick ") j)
  where
    stripped :
        (m : Option Text)
        → (elim m as (λ _. Refreshed) [
          | none ↦ nothing_stale
          | some t ↦ without (codes "send " ++ t)
        ])
          ≡ without k
        → (elim m as (λ _. Option Text) [ none ↦ strip_prefix (codes "send ") j | some t ↦ some t ])
          ≡ some i
        → plain_identity k ≡ some i
    stripped none e h = cc
    stripped (some t) e h =
        let q : k ≡ codes "send " ++ t = cc e in
        let r : t ≡ i = cc h in subst (λ (x : Text). plain_identity x ≡ some i) (sym q) (ap some r)

instance abbrev pub plain_codec : CommandCodec
plain_codec = record {
  request_id_from_json = plain_identity;
  without_fingerprint = plain_refresh;
  keeps_identity = plain_same;
}

abbrev pub id0 : Text
id0 = codes "hri1_AAAAAAAAAAAAAAAAAAAAAAAAAAAAAAAAAAAAAAAAAAA"

abbrev pub command0 : Text
command0 = codes "send hri1_AAAAAAAAAAAAAAAAAAAAAAAAAAAAAAAAAAAAAAAAAAA"

abbrev pub opened0 : Request
opened0 = opened_record id0 1000 3600 86400

pub opened_made : new_record id0 1000 3600 86400 ≡ returns opened0
unfolding new_record valid_request_id
opened_made = refl

pub opened_valid : valid_record opened0 id0 ≡ true
opened_valid = new_record-valid id0 1000 3600 86400 opened0 opened_made

abbrev pub attached0 : Request
attached0 = attached_record command0 1500 opened0

pub attached_made : attach_request_json opened0 command0 1500 ≡ (returns true, attached0)
unfolding attach_request_json valid_request_id strip_prefix
attached_made = refl

pub attached_valid : valid_record attached0 id0 ≡ true
attached_valid =
    subst (λ p. valid_record p.1 id0 ≡ true) attached_made
      (attach_request_json-valid opened0 id0 command0 1500 (omega arith) opened_valid)

abbrev pub owner0 : TargetOwner
owner0 = record {
  stable_key = codes "wsk1_0123456789abcdef0123456789abcdef0123456789abcdef0123456789abcdef";
  stable_key_version = 1;
}

pub owner_valid : valid_owner owner0 ≡ true
unfolding valid_owner strip_prefix
owner_valid = refl
