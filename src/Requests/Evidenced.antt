-- ===== src/Requests/Evidenced.antt =====
-- About `attach_target_owner` on a record that waits for its command.
use herdres.Prelude.{Text, arith, false, none, not-true, subst, true, ℕ, ◌<◌, ◌≡◌}
use herdres.Requests.Evidence.{attach_target_owner, owned_record}
use herdres.Requests.Parts.{valid_record_parts}
use herdres.Requests.Record.{
  CommandCodec, valid_in_state, valid_owner, valid_record, valid_resolving,
}
use herdres.Requests.Types.{Request, RequestState, TargetOwner}
use herdres.Safe.{Unicode}

module _ ⦃u : Unicode⦄ ⦃codec : CommandCodec⦄ where
  -- A record of a later time is no longer a valid first sight.
  resolving-stale : (r : Request) → r.created_at < r.updated_at → valid_resolving r ≡ false
  unfolding valid_resolving
  resolving-stale r h = not-true _ (λ v. ground arith)

  valid-in_resolving :
      (r : Request) (id : Text)
      → r.state ≡ RequestState.resolving
      → valid_record r id ≡ true
      → valid_resolving r ≡ true
  valid-in_resolving r id s v =
      subst (λ st. valid_in_state st r id ≡ true) s (valid_record_parts r id v).in_state

  -- The owner of the target, attached to a record that waits for its command at a later time than it
  -- was made, leaves a record that `_valid_record` rejects.
  pub attach_target_owner-stale :
      (r : Request) (id : Text) (owner : TargetOwner) (now : ℕ)
      → r.state ≡ RequestState.resolving
      → r.target_owner ≡ none
      → valid_owner owner ≡ true
      → r.created_at < now
      → valid_record (attach_target_owner r owner now).1 id ≡ false
  unfolding attach_target_owner
  attach_target_owner-stale r id owner now st o w h =
      rw (w, o)
        (not-true _ λ v. cc (
          valid-in_resolving (owned_record owner now r) id st v,
          resolving-stale (owned_record owner now r) h,
        ))
