-- ===== src/Server/Frames.antt =====
-- src/server.rs: the dispatch on a frame's type, and the end of a session.
use sodp.Base.{ℕ, none, some, List, [], ◌∷◌, ◌==◌, is_empty, if◌then◌else◌}
use sodp.Json.{get_field}
use sodp.Frame.{
  Frame, frame, heartbeat, watch_type, resume_type, unwatch_type, call_type, ack_type,
  heartbeat_type,
}
use sodp.Session.{PresenceEntry, ack_stream}
use sodp.Fanout.{broadcast_encoded, remove_session}
use sodp.Paths.{json_remove_in}
use sodp.State
use sodp.State.{apply}
use sodp.Server.{Config, Connection, sync, send_msg, hand_over}
use sodp.Server.Watch.{handle_watch, handle_resume, handle_unwatch, as_u64_or_zero}
use sodp.Server.Call.{handle_call}

unfoldable pub handle_frame : Config → ℕ → Frame → Connection → Connection
handle_frame cfg now f c =
    if f.frame_type == watch_type
    then handle_watch cfg now f c
    else if f.frame_type == resume_type
    then handle_resume cfg now f c
    else if f.frame_type == unwatch_type
    then handle_unwatch f c
    else if f.frame_type == call_type
    then handle_call cfg now f c
    else if f.frame_type == ack_type
    then record c {
      session = ack_stream c.session f.stream_id (as_u64_or_zero (get_field f.body "seq"));
    }
    else if f.frame_type == heartbeat_type
    then send_msg c (frame heartbeat)
    else c

-- One owned path that is removed from its state; all watchers of the key hear of it.
unfoldable pub remove_presence : Config → Connection → PresenceEntry → Connection
remove_presence cfg c e = elim (State.get c.state e.state_key) [
  | none ↦ c
  | some current ↦
      (let updated = json_remove_in current.value e.path in
        let (st, version, ops) = apply cfg.codec c.state e.state_key updated in
        let c' = record c { state = st } in
        let body_mp = cfg.encode_delta_body version ops in
        let (bus, handles) = broadcast_encoded c.fanout c.handles e.state_key body_mp none in
        if is_empty ops then c' else record c' {
          fanout = bus;
          handles = handles;
          cluster = hand_over c.cluster (sync e.state_key version updated body_mp);
        })
]

unfoldable pub remove_presences : Config → Connection → List PresenceEntry → Connection
remove_presences cfg c [] = c
remove_presences cfg c (e ∷ rest) = remove_presences cfg (remove_presence cfg c e) rest

-- What is left of `handle_connection` after its loop.
unfoldable pub end_session : Config → Connection → Connection
unfolding remove_presences
end_session cfg c =
    let c' = remove_presences cfg c c.session.presence in
    record c' { fanout = remove_session c'.fanout c.session.id }
