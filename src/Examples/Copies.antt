-- ===== src/Examples/Copies.antt =====
-- Alice writes and deletes a document that bob watches, and bob reads in between.
use sodp.Base.{
  ℕ, ◌≡◌, refl, str_eq, true, none, some, [], ◌∷◌, Option, List, if◌then◌else◌, Bool-cases, inl,
  inr, ◌⊎◌, ◌==◌,
}
use sodp.Base.Dict
use sodp.Base.IdMap
use sodp.Json
use sodp.Json.{Value, null, str, obj, field, end, WellFormed}
use sodp.Delta.{DeltaOp, add, remove, diff, diff_at}
use sodp.Delta.Apply.{SafeKeys}
use sodp.Frame.{Bytes, Frame}
use sodp.Session
use sodp.Fanout
use sodp.Fanout.{Subscriber, FanoutBus, WriteHandle, subscribers}
use sodp.State
use sodp.State.CatchUp.{value_of}
use sodp.Server
use sodp.Server.{Config}
use sodp.Server.Call
use sodp.Server.Following.{follow}
use sodp.Server.Tracked.{Watches}
use sodp.Server.Watched.{View, Happening, call, taken, happen_all, CanHappen, happen_all-follow}
use sodp.Examples.Values.{idle, handles, new_doc, new_doc-WellFormed, new_doc-SafeKeys}
use sodp.Examples.Calls.{config, connection, set_frame}

abbrev bob : Subscriber
bob = record { session_id = "bob"; stream_id = 12; write = 2 }

-- No schema and no ACL.
abbrev open_config : Config
open_config = record config { acl = none; schema = none }

-- A decoder that knows the two deltas of the run.
abbrev decode_version : ℕ → Option (List DeltaOp)
decode_version n =
    if n == 1 then some (add "/" new_doc ∷ []) else if n == 2 then some (remove "/" ∷ []) else none

abbrev decode : Bytes → Option (List DeltaOp)
decode (n ∷ []) = decode_version n
decode _ = none

abbrev delete_frame : Frame
delete_frame = record {
  frame_type = 6;
  stream_id = 0;
  seq = 0;
  body = obj (
      field "args" (obj (field "state" (str "doc") end)) (field "method" (str "state.delete") end));
}

abbrev bob_bus : FanoutBus
bob_bus = record { subscriptions = ("doc", bob ∷ []) ∷ [] }

-- Bob has no document yet, and his queue is empty.
abbrev view : View
view = record {
  server = record { state = State.new; fanout = bob_bus; handles = handles; cluster = none };
  copy = null;
}

abbrev happenings : List Happening
happenings =
    call connection.session 1 0 (set_frame "doc")
    ∷ taken 1
    ∷ call connection.session 1 0 delete_frame
    ∷ []

bob-Watches : Watches decode "doc" 2 bob bob_bus
unfolding Dict.get
bob-Watches = record {
  streams = λ k. elim (Bool-cases (str_eq "doc" k)) [
    | inl same ↦ rw same refl
    | inr other ↦ rw other refl
  ];
  own = λ k. elim (Bool-cases (str_eq "doc" k)) [
    | inl same ↦ rw same ((λ e. refl), tt)
    | inr other ↦ rw other tt
  ];
}

null-SafeKeys : SafeKeys null
unfolding SafeKeys
null-SafeKeys = tt

happenings-CanHappen : CanHappen open_config decode "doc" 2 bob view happenings
unfolding CanHappen Server.Call.handle_call Server.Call.dispatch Server.Call.state_set
    Server.Call.store_value Server.Call.state_delete Server.write_state Server.reply_version
    Server.publish State.get State.apply State.delete State.persist Dict.get Dict.insert Dict.remove
    IdMap.get IdMap.insert diff diff_at Json.get Session.new Session.allow_optional
    Session.watch_stream_id Fanout.send Fanout.broadcast_encoded
happenings-CanHappen = (
  (refl, refl, record { safe = (new_doc-WellFormed, new_doc-SafeKeys); reads = refl }),
  ((refl, refl, record { safe = (unfold WellFormed in tt, null-SafeKeys); reads = refl }), tt),
)

nothing_yet : follow decode 12 null [] ≡ value_of (State.get State.new "doc")
unfolding follow State.get Dict.get
nothing_yet = refl

abbrev after : View
after = happen_all open_config decode "doc" 2 bob view happenings

happen_all-follow_example :
    (h : WriteHandle) × (IdMap.get after.server.handles 2 ≡ some h)
    × ((h.cancelled ≡ true)
        ⊎ (follow decode 12 after.copy h.outbound ≡ value_of (State.get after.server.state "doc")))
happen_all-follow_example =
    happen_all-follow open_config decode "doc" 2 bob view idle happenings (unfold IdMap.get in refl)
      bob-Watches nothing_yet (unfold WellFormed State.get Dict.get in tt, null_safe)
      happenings-CanHappen
  where
    null_safe : SafeKeys (value_of (State.get State.new "doc"))
    null_safe = unfold SafeKeys State.get Dict.get in tt
