-- ===== src/Gateway/Delivered.antt =====
-- About a dispatch with the checkpoint of `handle_message`.
use herdres.Prelude.{Bool, List, Option, String, Text, false, refl, some, subst, true, ℕ, ◌≡◌}
use herdres.Gateway.Command.{ChildRun, checkpoint_for_command_result, checkpoint_in, envelope}
use herdres.Gateway.Dispatch.{
  DispatchConfig, checkpoint_of, command_result, dispatch, handle_message, replied,
}
use herdres.Gateway.Envelope.{
  Reading, raises, reads, refuses, response_allowed, validated_child_response,
}
use herdres.Gateway.Settles.{IsUnfinished, dispatch-done}
use herdres.Gateway.Wire.{IsDelivery, allowed-IsDelivery, read_same, validated-Allowed}
use herdres.Json.Values.{Json}
use herdres.Lanes.Calls.{Call}
use herdres.Lanes.Rows.{LaneItem, Spool, is_done}
use herdres.Lanes.Settled.{state_at}
use herdres.Requests.Types.{Checkpoint, Child}
use herdres.Safe.{Unicode}

module _ ⦃u : Unicode⦄ where
  -- What the command of a request has said, if the checkpoint advances: its result reads as the
  -- envelope of a delivery.
  abbrev pub SaysDelivered : Text → Option Child → ChildRun → Type 0
  SaysDelivered id cached child =
      (c : Child) × (d : Child) × (command_result id cached child ≡ reads c)
      × (validated_child_response (Json.object (envelope c)) id ≡ reads d)
      × (d.request_id ≡ id)
      × IsDelivery d

  checkpoint_in-advance :
      (id : Text) (c : Child) (m : Reading Child)
      → validated_child_response (Json.object (envelope c)) id ≡ m
      → checkpoint_in m ≡ reads Checkpoint.advance
      → (d : Child) × (validated_child_response (Json.object (envelope c)) id ≡ reads d)
        × (d.request_id ≡ id)
        × IsDelivery d
  checkpoint_in-advance id c refuses e h = cc (read_same h)
  checkpoint_in-advance id c raises e h = cc
  checkpoint_in-advance id c (reads d) e h =
      let (same, fine) = validated-Allowed (Json.object (envelope c)) id d e in
      (
        d,
        e,
        same,
        allowed-IsDelivery d (subst (λ k. response_allowed d k ≡ true) (read_same h) fine),
      )

  checkpoint_of-advance :
      (id : Text) (cached : Option Child) (child : ChildRun) (m : Reading Child)
      → command_result id cached child ≡ m
      → checkpoint_of id m ≡ reads Checkpoint.advance
      → SaysDelivered id cached child
  unfolding checkpoint_for_command_result
  checkpoint_of-advance id cached child refuses e h = cc
  checkpoint_of-advance id cached child raises e h = cc
  checkpoint_of-advance id cached child (reads c) e h =
      let (d, r, same, l) = checkpoint_in-advance id c _ refl h in (c, d, e, r, same, l)

  replied-advance :
      (b : Bool) (m : Reading Checkpoint)
      → replied b m ≡ reads Checkpoint.advance
      → m ≡ reads Checkpoint.advance
  replied-advance true (reads Checkpoint.advance) h = refl
  replied-advance false (reads Checkpoint.advance) h = refl
  replied-advance b (reads Checkpoint.hold) h = h
  replied-advance b (reads Checkpoint.retry) h = h
  replied-advance b refuses h = h
  replied-advance b raises h = h

  handle_message-advance :
      (id : Text) (cached : Option Child) (child : ChildRun) (reply_raises : Bool)
      → handle_message (some id) cached child reply_raises ≡ reads Checkpoint.advance
      → SaysDelivered id cached child
  unfolding handle_message
  handle_message-advance id cached child reply_raises h =
      checkpoint_of-advance id cached child _ refl (replied-advance reply_raises _ h)

  -- If a dispatch of a message with an identity finishes a row, which was not done before nor by
  -- what the others did meanwhile, then the cached or the new result of the command reads as the
  -- envelope of this request that says `delivered` and `submitted`.
  pub dispatch-delivered :
      (cfg : DispatchConfig) (leased : LaneItem) (owner : String) (has_token : Bool) (start_at : ℕ)
      (between : List Call) (id : Text) (cached : Option Child) (child : ChildRun)
      (reply_raises : Bool) (end_at seq : ℕ) (sp : Spool)
      → IsUnfinished cfg leased owner start_at between seq sp
      → state_at is_done seq
          (dispatch cfg leased owner has_token start_at between
            (handle_message (some id) cached child reply_raises)
            end_at
            sp).rows
        ≡ true
      → SaysDelivered id cached child
  dispatch-delivered cfg leased owner has_token start_at between id cached child reply_raises end_at
        seq sp v k =
      handle_message-advance id cached child reply_raises
        (dispatch-done cfg leased owner has_token start_at between
          (handle_message (some id) cached child reply_raises) end_at seq sp v k).2
