-- ===== src/Examples/Sessions.antt =====
-- A connection to a server that asks for tokens: alice authenticates, watches and goes.
use sodp.Base.{
  All, ℕ, String, ◌≡◌, ◌↔◌, refl, none, some, Option, List, [], ◌∷◌, ◌++◌, true, false, ◌==◌,
  if◌then◌else◌, arith,
}
use sodp.Json.{str, obj, field, end, get, get_field}
use sodp.Frame.{Bytes, Frame, error}
use sodp.Base.IdMap
use sodp.Session
use sodp.Session.{Session}
use sodp.Fanout.{subscribers, is_other}
use sodp.Server.Reading.{IsReadable}
use sodp.Server.Handshake.{
  Claims, JwtConfig, hs256, Crates, valid, invalid, validate_jwt, Inbound, binary, ping, closed,
  authenticated, auth_handshake,
}
use sodp.Server.Handshake.Admission.{Admits, auth_handshake_iff}
use sodp.Server.Lifecycle.{
  Settings, Shared, shared_of, connected, Event, message, ping_tick, shutdown, elsewhere,
  make_handle, establish, event_loop, handle_connection,
}
use sodp.Server.Lifecycle.Sessions.{
  IsAdmitted, event_loop-IsReadable, event_loop-IsAdmitted, handle_connection-refused,
  handle_connection-departs,
}
use sodp.Server.Lifecycle.Zombies.{event_loop_unanswered}
use sodp.Examples.Calls.{config, connection, watch_frame}

abbrev alice : Claims
alice = record { sub = "alice"; exp = 1_000; extra = end }

abbrev auth_frame : Frame
auth_frame = record {
  frame_type = 11;
  stream_id = 0;
  seq = 0;
  body = obj (field "token" (str "good") end);
}

-- One byte stands for a frame, and "good" for a signed token.
abbrev decode : Bytes → Option Frame
decode (b ∷ []) = if b == 11 then some auth_frame else if b == 2 then some (watch_frame 2) else none
decode _ = none

abbrev crates : Crates
crates = record {
  encode = λ f. some (f.frame_type ∷ []);
  decode = decode;
  rsa_pem_error = λ pem. none;
  decode_token = λ validation secret token. elim token [
    | String.[] ↦ invalid "empty"
    | String.◌∷◌ c s ↦ if validation.leeway == 0 then valid alice else invalid "skew"
  ];
}

abbrev jwt : JwtConfig
jwt = hs256 "secret"

abbrev settings : Settings
settings = record {
  jwt_config = some jwt;
  max_frame_bytes = 100;
  ws_ping_interval = 30;
  rate_writes_per_sec = none;
  rate_watches_per_sec = none;
  backpressure_limit = 8;
}

abbrev shared : Shared
shared = shared_of connection

-- Alice pings, authenticates, and has one more message under way.
abbrev opening : List Inbound
opening = ping [] ∷ binary (11 ∷ []) ∷ closed ∷ []

-- She watches a document, another connection does something, a ping goes unanswered.
abbrev events : List Event
events =
    message 5 (binary (2 ∷ []))
    ∷ elsewhere shared
    ∷ ping_tick
    ∷ message 6 (binary (7 ∷ []))
    ∷ ping_tick
    ∷ shutdown
    ∷ []

abbrev fresh : Session
fresh = Session.new "uuid" 0 none none

abbrev session : Session
session = record fresh { sub = some "alice"; claims = obj end }

alice_established : establish crates settings fresh settings.jwt_config opening ≡ some session
unfolding auth_handshake validate_jwt get_field get Session.new error
alice_established = refl

auth_handshake_iff_example :
    ((auth_handshake crates 100 jwt opening).1 ≡ authenticated alice (closed ∷ []))
    ↔ Admits crates 100 jwt opening alice (closed ∷ [])
auth_handshake_iff_example = auth_handshake_iff crates 100 jwt opening alice (closed ∷ [])

-- The shared state with the handle of the connection.
abbrev started : Shared
started = record shared {
  handles =
      IdMap.insert shared.handles 3
        (record { capacity = 8; outbound = []; closed = false; cancelled = false });
}

handle_made : make_handle settings shared 3 ≡ some started
handle_made = refl

event_loop-IsReadable_example :
    IsReadable config
      (event_loop config crates settings (connected started session 3) false events).session
event_loop-IsReadable_example =
    event_loop-IsReadable config crates settings "uuid" 0 3 opening events started session
      alice_established

event_loop-IsAdmitted_example :
    IsAdmitted crates settings fresh opening
      (event_loop config crates settings (connected started session 3) false events).session
      jwt
event_loop-IsAdmitted_example =
    event_loop-IsAdmitted config crates settings "uuid" 0 3 opening events started session
      alice_established jwt refl

-- A client that sends a watch before its token.
none_watch_admitted :
    (claims : Claims) (rest : List Inbound)
    → ¬ Admits crates 100 jwt (binary (2 ∷ []) ∷ []) claims rest
none_watch_admitted claims rest (Admits.auth c t v e) = ground (arith, c.decoded, t)
none_watch_admitted claims rest (Admits.keep_alive c t e a) = ground (arith, c.decoded, t)

handle_connection-refused_example :
    handle_connection config crates settings shared "uuid" 0 3 (binary (2 ∷ []) ∷ []) events
    ≡ shared
handle_connection-refused_example =
    handle_connection-refused config crates settings shared "uuid" 0 3 (binary (2 ∷ []) ∷ []) events
      jwt refl none_watch_admitted

handle_connection-departs_example :
    All
      (λ s. is_other "uuid" s ≡ true)
      (subscribers
        (handle_connection config crates settings shared "uuid" 0 3 opening events).fanout
        "public.doc")
unfolding sodp.Base.Dict.get
handle_connection-departs_example =
    handle_connection-departs config crates settings shared "uuid" 0 3 opening events "public.doc"
      (unfold subscribers in tt)

event_loop_unanswered_example :
    event_loop config crates settings connection false
      (ping_tick ∷ (message 5 (binary (2 ∷ [])) ∷ []) ++ ping_tick ∷ shutdown ∷ [])
    ≡ event_loop config crates settings connection false
        (ping_tick ∷ (message 5 (binary (2 ∷ [])) ∷ []) ++ ping_tick ∷ [])
event_loop_unanswered_example =
    event_loop_unanswered config crates settings connection false (message 5 (binary (2 ∷ [])) ∷ [])
      (shutdown ∷ []) (refl, tt)
