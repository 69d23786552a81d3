-- ===== src/Examples/Watchers.antt =====
-- Alice sets a document that bob watches.
use sodp.Base.{str_eq, false, refl, some, none, [], ◌∷◌, Option, List, arith}
use sodp.Base.{All, true, sym, none-ne-some}
use sodp.Json.{obj, field, end, str, get}
use sodp.Frame.{Frame}
use sodp.Session.{WatchEntry, watch_stream_id}
use sodp.Fanout.{is_other, subscribers}
use sodp.Server.Watch.{keys_of, handle_unwatch}
use sodp.Server.Unwatching.{IsWatched, handle_unwatch-Quiet}
use sodp.Base.Dict
use sodp.Base.IdMap
use sodp.Json.{null, WellFormed}
use sodp.Delta.{DeltaOp}
use sodp.Delta.Apply.{SafeKeys}
use sodp.Frame.{Bytes}
use sodp.Session
use sodp.Fanout.{Subscriber}
use sodp.State
use sodp.State.CatchUp.{value_of}
use sodp.Server.{Connection}
use sodp.Server.Call.{store_value, nothing}
use sodp.Server.Watching.{IsWatching}
use sodp.Server.Following.{Follows, store_value-Follows}
use sodp.Base.{◌≡◌}
use sodp.Frame.{OutboundMsg, frame}
use sodp.Server.Following.{follow}
use sodp.Server.Snapshot.{CanWatch, snapshot, writing, subscribe_key-Follows}
use sodp.Examples.Values.{idle, old_doc, old_doc-WellFormed, old_doc-SafeKeys}
use sodp.Examples.Calls.{config, connection, set_frame}

abbrev bob : Subscriber
bob = record { session_id = "bob"; stream_id = 12; write = 2 }

abbrev at_work : Connection
at_work = record connection { fanout = record { subscriptions = ("doc", bob ∷ []) ∷ [] } }

-- A decoder that knows the one delta of this example.
abbrev decode : Bytes → Option (List DeltaOp)
decode b = some (State.ops_for none old_doc)

bob-IsWatching : IsWatching at_work "doc" 2 idle bob
unfolding IdMap.get Dict.get Session.new
bob-IsWatching = record {
  found = refl;
  open_handle = refl;
  room = omega arith;
  other = refl;
  alone = refl;
}

null-WellFormed : WellFormed (value_of (State.get State.new "doc"))
unfolding WellFormed State.get Dict.get
null-WellFormed = tt

null-SafeKeys : SafeKeys (value_of (State.get State.new "doc"))
unfolding SafeKeys State.get Dict.get
null-SafeKeys = tt

store_value-Follows_example :
    Follows decode "doc" 2 idle bob at_work
      (store_value config at_work (set_frame "doc") "call" "doc" old_doc nothing)
unfolding Dict.get
store_value-Follows_example =
    store_value-Follows config decode at_work "doc" 2 idle bob bob-IsWatching old_doc
      (set_frame "doc") "call" (record { ops_back = refl }) null-WellFormed old_doc-WellFormed
      null-SafeKeys old_doc-SafeKeys

-- Bob's connection before he watches anything; alice writes through the handle 1.
abbrev bob_connection : Connection
bob_connection = record connection {
  fanout = record { subscriptions = [] };
  session = Session.new "bob" 0 none none;
  handle = 2;
}

bob-CanWatch : CanWatch bob_connection "doc" idle
unfolding IdMap.get Dict.get
bob-CanWatch = record { found = refl; open_handle = refl; room = omega arith; fresh = refl }

two_sessions : str_eq bob_connection.session.id connection.session.id ≡ false
unfolding Session.new
two_sessions = refl

subscribe_key-Follows_example :
    (msgs : List OutboundMsg) × (IdMap.get
        (store_value config
          (writing bob_connection "doc" none idle bob-CanWatch connection.session 1 refl
            two_sessions)
          (set_frame "doc")
          "call"
          "doc"
          old_doc
          nothing).handles
        2
      ≡ some (record idle { outbound = frame (snapshot bob_connection "doc" none) ∷ msgs }))
    × (follow decode 10 null msgs
        ≡ value_of (
            State.get
              (store_value config
                (writing bob_connection "doc" none idle bob-CanWatch connection.session 1 refl
                  two_sessions)
                (set_frame "doc")
                "call"
                "doc"
                old_doc
                nothing).state
              "doc"))
unfolding Dict.get Session.new State.get
subscribe_key-Follows_example =
    subscribe_key-Follows bob_connection "doc" none idle bob-CanWatch connection.session 1 refl
      two_sessions config decode old_doc (set_frame "doc") "call" (record { ops_back = refl })
      null-WellFormed old_doc-WellFormed null-SafeKeys old_doc-SafeKeys

-- Bob has watched the document twice, and ends both watches with one UNWATCH.
abbrev entry : WatchEntry
entry = record { state_key = "doc"; params = none; last_seq = 0 }

abbrev twice : Connection
twice = record bob_connection {
  session = record (Session.new "bob" 0 none none) { watches = (10, entry) ∷ (11, entry) ∷ [] };
  fanout = record {
    subscriptions =
        (
          "doc",
          record { session_id = "bob"; stream_id = 10; write = 2 }
              ∷ record { session_id = "bob"; stream_id = 11; write = 2 }
              ∷ [],
        )
        ∷ [];
  };
}

abbrev unwatch_frame : Frame
unwatch_frame = record {
  frame_type = 13;
  stream_id = 0;
  seq = 0;
  body = obj (field "state" (str "doc") end);
}

twice-IsWatched : IsWatched twice "doc"
unfolding IdMap.get Session.new watch_stream_id
twice-IsWatched = record {
  unique = (refl, (refl, tt));
  quiet = λ e. absurd (none-ne-some _ (sym e));
}

names_doc : keys_of unwatch_frame.body ≡ some ("doc" ∷ [])
unfolding get keys_of
names_doc = refl

handle_unwatch-Quiet_example :
    All
      (λ s. is_other twice.session.id s ≡ true)
      (subscribers (handle_unwatch unwatch_frame twice).fanout "doc")
handle_unwatch-Quiet_example =
    handle_unwatch-Quiet unwatch_frame twice ("doc" ∷ []) "doc" names_doc refl twice-IsWatched
