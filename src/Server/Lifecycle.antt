-- ===== src/Server/Lifecycle.antt =====
-- src/server.rs: a connection from its HELLO to its end. The loop's `select!` is the list of what
-- wakes it, in order; the steps of other connections come between as `elsewhere`.
pub mod Loop
pub mod Sessions
pub mod Zombies
use sodp.Base.{
  ◌≡◌, refl, ◌⊎◌, inl, inr, ℕ, zero, ◌*◌, ◌-◌, String, Bool, true, false, Option, none, some, List,
  [], ◌∷◌, ltb, length, ◌==◌, if◌then◌else◌,
}
use sodp.Base.IdMap
use sodp.Json.{Value, null, bool, obj}
use sodp.Frame.{Bytes, Frame, frame, ping, pong, error, hello, json, number}
use sodp.Session
use sodp.Session.{Session}
use sodp.Fanout.{FanoutBus, Handles, WriteHandle}
use sodp.State.{StateStore}
use sodp.Server.{Config, Connection, SyncMsg, send_msg}
use sodp.Server.Frames.{handle_frame, end_session}
use sodp.Server.Handshake.{
  Claims, JwtConfig, Crates, Inbound, binary, closed, other, Outcome, authenticated, refused,
  auth_handshake,
}

-- The fields of `SodpServer` that a connection reads, besides those of `Config`.
pub record Settings : Type 0 where
  pub jwt_config : Option JwtConfig
  pub max_frame_bytes : ℕ
  pub ws_ping_interval : ℕ
  pub rate_writes_per_sec : Option ℕ
  pub rate_watches_per_sec : Option ℕ
  pub backpressure_limit : ℕ

-- What the connections share.
pub record Shared : Type 0 where
  pub state : StateStore
  pub fanout : FanoutBus
  pub handles : Handles
  pub cluster : Option (List SyncMsg)

abbrev pub shared_of : Connection → Shared
shared_of c = record {
  state = c.state;
  fanout = c.fanout;
  handles = c.handles;
  cluster = c.cluster;
}

abbrev pub connected : Shared → Session → ℕ → Connection
connected sh session handle = record {
  state = sh.state;
  fanout = sh.fanout;
  handles = sh.handles;
  cluster = sh.cluster;
  session = session;
  handle = handle;
}

-- What wakes the loop; a message comes with the time of its arrival. `elsewhere sh` is no event of
-- the loop: other connections have left the shared state as `sh`.
pub data Event : Type 0 where
  message : ℕ → Inbound → Event
  shutdown : Event
  token_expired : Event
  ping_tick : Event
  slow_cancelled : Event
  elsewhere : Shared → Event

-- The connection after an event, and whether the loop goes on, with its flag `awaiting_pong`.
pub data Flow : Type 0 where
  go : Connection → Bool → Flow
  stop : Connection → Flow

abbrev limit_of : Option ℕ → Value
limit_of none = null
limit_of (some n) = number n

abbrev pub is_some {ℓ} : {A : Type ℓ} → Option A → Bool
is_some none = false
is_some (some a) = true

-- The session as the handshake leaves it; none where the connection ends there.
abbrev pub admit : Session → Outcome → Option Session
admit session (authenticated claims rest) =
    some (record session { sub = some claims.sub; claims = obj claims.extra })
admit session (refused reason) = none

module _ (settings : Settings) where
  abbrev pub capabilities : Value
  capabilities = json (
      ("rate_limit_writes", limit_of settings.rate_writes_per_sec)
      ∷ ("rate_limit_watches", limit_of settings.rate_watches_per_sec)
      ∷ ("multi_watch", bool true)
      ∷ ("params", bool true)
      ∷ ("resume", bool true)
      ∷ ("backpressure_limit", number settings.backpressure_limit)
      ∷ [])

  -- `WriteMode::make_handle` with a fresh number for the handle; `mpsc::channel` panics at a capacity
  -- of zero, here `none`.
  abbrev pub make_handle : Shared → ℕ → Option Shared
  make_handle sh id =
      if settings.backpressure_limit == 0
      then none
      else some (record sh {
        handles = IdMap.insert sh.handles id (record {
          capacity = settings.backpressure_limit;
          outbound = [];
          closed = false;
          cancelled = false;
        });
      })

module _ (crates : Crates) (settings : Settings) where
  abbrev pub establish : Session → Option JwtConfig → List Inbound → Option Session
  establish session none ms = some session
  establish session (some config) ms =
      admit session (auth_handshake crates settings.max_frame_bytes config ms).1

pub Flow-cases :
    (f : Flow)
    → ((c : Connection) × (awaiting_pong : Bool) × (f ≡ go c awaiting_pong))
      ⊎ ((c : Connection) × (f ≡ stop c))
Flow-cases (go c awaiting_pong) = inl (c, awaiting_pong, refl)
Flow-cases (stop c) = inr (c, refl)

module _ (cfg : Config) (crates : Crates) (settings : Settings) where
  abbrev pub on_decoded : ℕ → Connection → Bool → Option Frame → Flow
  on_decoded now c awaiting_pong none = go c awaiting_pong
  on_decoded now c awaiting_pong (some f) = go (handle_frame cfg now f c) awaiting_pong

  unfoldable pub on_message : ℕ → Connection → Bool → Inbound → Flow
  on_message now c awaiting_pong (binary bytes) =
      if ltb settings.max_frame_bytes (length bytes)
      then stop (send_msg c (frame (error 0 0 413 "frame too large")))
      else on_decoded now c awaiting_pong (crates.decode bytes)
  on_message now c awaiting_pong (Inbound.ping payload) =
      go (send_msg c (pong payload)) awaiting_pong
  on_message now c awaiting_pong Inbound.pong = go c false
  on_message now c awaiting_pong closed = stop c
  on_message now c awaiting_pong other = go c awaiting_pong

  unfoldable pub on_event : Connection → Bool → Event → Flow
  unfolding on_message
  on_event c awaiting_pong (message now m) = on_message now c awaiting_pong m
  on_event c awaiting_pong shutdown = stop c
  on_event c awaiting_pong token_expired = stop (send_msg c (frame (error 0 0 401 "token expired")))
  on_event c awaiting_pong ping_tick = if awaiting_pong then stop c else go (send_msg c ping) true
  on_event c awaiting_pong slow_cancelled = stop c
  on_event c awaiting_pong (elsewhere sh) = go (connected sh c.session c.handle) awaiting_pong

  -- The loop until it breaks; where the events run out, so does the stream of messages.
  unfoldable pub event_loop : Connection → Bool → List Event → Connection
  event_loop c awaiting_pong [] = c
  event_loop c awaiting_pong (e ∷ rest) = elim (on_event c awaiting_pong e) [
    | go c' awaiting_pong' ↦ event_loop c' awaiting_pong' rest
    | stop c' ↦ c'
  ]

  -- After the handshake, with the handle made: the loop, and the end of the session.
  unfoldable pub run_session : Shared → ℕ → Session → List Event → Connection
  unfolding event_loop
  run_session sh id session events =
      end_session cfg (event_loop (connected sh session id) false events)

  -- The whole: `ms` are the messages up to the end of the handshake, `events` what comes after it.
  -- A panic ends the task of the connection. The fresh UUID, the time and the number of the handle are arguments.
  unfoldable pub handle_connection : Shared → String → ℕ → ℕ → List Inbound → List Event → Shared
  unfolding run_session
  handle_connection sh uuid now id ms events =
      elim (crates.encode (hello (is_some settings.jwt_config) (capabilities settings))) [
        | none ↦ sh
        | some b ↦
            elim (establish crates settings
              (Session.new uuid now settings.rate_writes_per_sec settings.rate_watches_per_sec)
              settings.jwt_config ms) [
                | none ↦ sh
                | some session ↦ elim (make_handle settings sh id) [
                  | none ↦ sh
                  | some started ↦ shared_of (run_session started id session events)
                ]
              ]
      ]
