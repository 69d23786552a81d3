-- ===== src/Server.antt =====
-- src/server.rs: the state that the handlers share, and what they all do: reply, subscribe,
-- publish. A handler takes the connection and returns it changed.
pub mod Watch
pub mod Call
pub mod Frames
pub mod Watching
pub mod Following
pub mod Effects
pub mod Tracking
pub mod Tracked
pub mod Others
pub mod Calling
pub mod Copies
pub mod Watched
pub mod Snapshot
pub mod Startup
pub mod Listener
pub mod Launch
pub mod Handshake
pub mod Lifecycle
pub mod Stores
pub mod Safety
pub mod Reading
pub mod Departure
pub mod Unwatching
pub mod Identity
pub mod Streams
use sodp.Base.{
  ℕ, String, Bool, true, false, Option, none, some, List, [], ◌∷◌, ◌++◌, is_empty, if◌then◌else◌,
}
use sodp.Json.{Value, pos_int, num, null}
use sodp.Frame.{
  Bytes, Frame, OutboundMsg, frame, bytes, delta_bytes, state_init, result_ok, error, json, number,
}
use sodp.Delta.{DeltaOp}
use sodp.Session
use sodp.Session.{Session, next_seq, watch_stream_id, allocate_stream, add_watch}
use sodp.Fanout.{FanoutBus, Handles, send, subscribe, broadcast_encoded}
use sodp.Log.{Codec}
use sodp.State
use sodp.State.{StateEntry, StateStore, apply}
use sodp.Acl.{AclRegistry, can_read, can_write}
use sodp.Schema.{SchemaRegistry, Validation, ok, validate}

-- The parts of `SodpServer` that do not change, and the encoders of other crates.
pub record Config : Type 0 where
  pub schema : Option SchemaRegistry
  pub acl : Option AclRegistry
  pub codec : Codec
  pub encode_delta_body : ℕ → List DeltaOp → Bytes

-- What is handed to the cluster's background tasks.
pub data SyncMsg : Type 0 where
  sync : String → ℕ → Value → Bytes → SyncMsg
  sync_delete : String → Bytes → SyncMsg

-- `cluster` is none on a single node, and else all that was handed over so far.
pub record Connection : Type 0 where
  pub state : StateStore
  pub fanout : FanoutBus
  pub handles : Handles
  pub cluster : Option (List SyncMsg)
  pub session : Session
  pub handle : ℕ

unfoldable pub send_msg : Connection → OutboundMsg → Connection
send_msg c msg = record c { handles = (send c.handles c.handle msg).0 }

-- A reply takes the next sequence number of the session.
unfoldable pub reply : Connection → (ℕ → Frame) → Connection
unfolding send_msg
reply c make =
    let (s, seq) = next_seq c.session in send_msg (record c { session = s }) (frame (make seq))

unfoldable pub reply_error : Connection → ℕ → ℕ → String → Connection
unfolding reply
reply_error c stream_id code message = reply c (λ seq. error stream_id seq code message)

unfoldable pub reply_version : Connection → ℕ → String → ℕ → Connection
unfolding reply
reply_version c stream_id call_id version =
    reply c
      (λ seq. result_ok stream_id seq call_id (some (json (("version", number version) ∷ []))))

abbrev pub may_read : Config → Session → String → Bool
may_read cfg s key = elim cfg.acl [ none ↦ true | some acl ↦ can_read acl key s.sub s.claims ]

abbrev pub may_write : Config → Session → String → Bool
may_write cfg s key = elim cfg.acl [ none ↦ true | some acl ↦ can_write acl key s.sub s.claims ]

abbrev pub check_schema : Config → String → Value → Validation
check_schema cfg key value = elim cfg.schema [ none ↦ ok | some schema ↦ validate schema key value ]

abbrev pub hand_over : Option (List SyncMsg) → SyncMsg → Option (List SyncMsg)
hand_over none msg = none
hand_over (some msgs) msg = some (msgs ++ msg ∷ [])

-- Fan a delta out to the other sessions, deliver it to this one if it watches the key, and hand
-- it to the cluster.
unfoldable pub publish : Connection → String → Bytes → SyncMsg → Connection
publish c key body_mp msg =
    let (bus, handles) = broadcast_encoded c.fanout c.handles key body_mp (some c.session.id) in
    let c' = record c { fanout = bus; handles = handles; cluster = hand_over c.cluster msg } in
    elim (watch_stream_id c.session key) [
      | none ↦ c'
      | some stream_id ↦ send_msg c' (bytes (delta_bytes stream_id 0 body_mp))
    ]

-- Store a value and publish the change, if there is one; the version of the write.
unfoldable pub write_state : Config → Connection → String → Value → Connection × ℕ
write_state cfg c key value =
    let (st, version, ops) = apply cfg.codec c.state key value in
    let c' = record c { state = st } in
    let body_mp = cfg.encode_delta_body version ops in
    (if is_empty ops then c' else publish c' key body_mp (sync key version value body_mp), version)

abbrev pub value_or : Value → Option StateEntry → Value
value_or d none = d
value_or d (some e) = e.value

abbrev pub version_or_zero : Option StateEntry → ℕ
version_or_zero none = 0
version_or_zero (some e) = e.version

abbrev pub is_there : Option StateEntry → Bool
is_there none = false
is_there (some e) = true

-- The STATE_INIT of a key on a stream.
unfoldable pub send_state_init : Connection → ℕ → String → Option Value → Connection
send_state_init c stream_id key params =
    let found = State.get c.state key in
    reply c (λ seq.
      state_init stream_id seq key (version_or_zero found) (value_or null found) (is_there found)
        params)

-- A new stream of the session, subscribed to the key.
unfoldable pub open_stream : Connection → String → Option Value → Connection × ℕ
open_stream c key params =
    let (s, stream_id) = allocate_stream c.session in
    (
      record c {
        session = add_watch s stream_id key params;
        fanout =
            subscribe c.fanout key
              (record { session_id = s.id; stream_id = stream_id; write = c.handle });
      },
      stream_id,
    )

unfoldable pub subscribe_key : Connection → String → Option Value → Connection
unfolding open_stream send_state_init
subscribe_key c key params =
    let (c', stream_id) = open_stream c key params in send_state_init c' stream_id key params
