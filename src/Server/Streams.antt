-- ===== src/Server/Streams.antt =====
-- What the handlers do to a session: a rule for any predicate on it.
use sodp.Base.{
  ℕ, String, ◌≡◌, refl, true, Option, List, [], ◌∷◌, Bool-cases, Option-cases, inl, inr, ltb, ◌==◌,
  if◌then◌else◌,
}
use sodp.Json.{Value, get_field, as_str}
use sodp.Frame.{
  Frame, bytes, delta_bytes, watch_type, resume_type, unwatch_type, call_type, ack_type,
  heartbeat_type,
}
use sodp.Session.{
  Session, add_watch, allocate_stream, remove_watch, ack_stream, next_seq, watch_stream_id,
}
use sodp.State.{Delta, deltas_since}
use sodp.Server.{
  Config, Connection, may_read, reply_error, subscribe_key, open_stream, send_state_init, send_msg,
  reply,
}
use sodp.Server.Watch.{
  take_watch_slot, watch_keys, handle_watch, unwatch_keys, handle_unwatch, replay_deltas,
  resume_key, handle_resume, keys_of, as_u64_or_zero, unwatch_key,
}
use sodp.Server.Frames.{handle_frame}
use sodp.Server.Identity.{IsSame, session-handle_call}

-- The stream that `open_stream` adds.
abbrev pub opened : Session → String → Option Value → Session
opened s key params = let (s', id) = allocate_stream s in add_watch s' id key params

-- What a predicate on sessions must stand: changes of the numbering, the limiters and the presence,
-- a stream on a key that may be read, the end of a stream, an ACK.
pub record IsKept (cfg : Config) (P : Session → Type 0) : Type 0 where
  pub same : (s t : Session) → IsSame s t → P s → P t
  pub open_readable :
      (s : Session) (key : String) (params : Option Value)
      → may_read cfg s key ≡ true
      → P s
      → P (opened s key params)
  pub remove : (s : Session) (id : ℕ) → P s → P (remove_watch s id).0
  pub ack : (s : Session) (id seq : ℕ) → P s → P (ack_stream s id seq)

module _ (cfg : Config) (P : Session → Type 0) (k : IsKept cfg P) where
  reply_error-keeps :
      (c : Connection) (stream_id code : ℕ) (m : String)
      → P c.session
      → P (reply_error c stream_id code m).session
  unfolding reply_error next_seq
  reply_error-keeps c stream_id code m =
      k.same _ _ (record { id = refl; sub = refl; claims = refl; watches = refl })

  send_state_init-keeps :
      (c : Connection) (stream_id : ℕ) (key : String) (params : Option Value)
      → P c.session
      → P (send_state_init c stream_id key params).session
  unfolding send_state_init reply next_seq
  send_state_init-keeps c stream_id key params =
      k.same _ _ (record { id = refl; sub = refl; claims = refl; watches = refl })

  subscribe_key-keeps :
      (c : Connection) (key : String) (params : Option Value)
      → may_read cfg c.session key ≡ true
      → P c.session
      → P (subscribe_key c key params).session
  unfolding subscribe_key open_stream
  subscribe_key-keeps c key params granted p =
      let (c', id) = open_stream c key params in
      send_state_init-keeps c' id key params (k.open_readable c.session key params granted p)

  watch_keys-keeps :
      (c : Connection) (params : Option Value) (keys : List String)
      → P c.session
      → P (watch_keys cfg c params keys).session
  unfolding watch_keys
  watch_keys-keeps c params [] p = p
  watch_keys-keeps c params (key ∷ rest) p = elim (Bool-cases (may_read cfg c.session key)) [
    | inl granted ↦
        rw (granted, watch_keys)
          (watch_keys-keeps (subscribe_key c key params) params rest
            (subscribe_key-keeps c key params granted p))
    | inr denied ↦
        rw (denied, watch_keys) (watch_keys-keeps _ params rest (reply_error-keeps c 0 403 _ p))
  ]

  replay_deltas-keeps :
      (c : Connection) (stream_id : ℕ) (missed : List Delta)
      → P c.session
      → P (replay_deltas cfg c stream_id missed).session
  unfolding replay_deltas next_seq send_msg
  replay_deltas-keeps c stream_id [] p = p
  replay_deltas-keeps c stream_id (d ∷ rest) p =
      let (s, seq) = next_seq c.session in
      let wire = delta_bytes stream_id seq (cfg.encode_delta_body d.0 d.1) in
      replay_deltas-keeps (send_msg (record c { session = s }) (bytes wire)) stream_id rest
        (k.same _ _ (record { id = refl; sub = refl; claims = refl; watches = refl }) p)

  resume_key-keeps :
      (c : Connection) (key : String) (since : ℕ) (params : Option Value)
      → may_read cfg c.session key ≡ true
      → P c.session
      → P (resume_key cfg c key since params).session
  unfolding open_stream
  resume_key-keeps c key since params granted p =
      let (c', id) = open_stream c key params in
      let missed = if ltb 0 since then deltas_since c'.state key since else [] in
      send_state_init-keeps (replay_deltas cfg c' id missed) id key params
        (replay_deltas-keeps c' id missed (k.open_readable c.session key params granted p))

  take_watch_slot-keeps :
      (now : ℕ) (c : Connection) → P c.session → P (take_watch_slot now c).0.session
  take_watch_slot-keeps now c =
      k.same _ _ (record { id = refl; sub = refl; claims = refl; watches = refl })

  pub handle_watch-keeps :
      (now : ℕ) (f : Frame) (c : Connection) → P c.session → P (handle_watch cfg now f c).session
  unfolding handle_watch
  handle_watch-keeps now f c p =
      let p' = take_watch_slot-keeps now c p in
      elim (Bool-cases (take_watch_slot now c).1) [
        | inr refused ↦ rw refused (reply_error-keeps _ f.stream_id 429 _ p')
        | inl passed ↦ rw passed (elim (Option-cases (keys_of f.body)) [
          | inl e ↦ rw e (reply_error-keeps _ f.stream_id 400 _ p')
          | inr (keys, e) ↦ rw e (watch_keys-keeps _ (get_field f.body "params") keys p')
        ])
      ]

  pub handle_resume-keeps :
      (now : ℕ) (f : Frame) (c : Connection) → P c.session → P (handle_resume cfg now f c).session
  unfolding handle_resume
  handle_resume-keeps now f c p =
      let p' = take_watch_slot-keeps now c p in
      let c' = (take_watch_slot now c).0 in
      elim (Bool-cases (take_watch_slot now c).1) [
        | inr refused ↦ rw refused (reply_error-keeps _ f.stream_id 429 _ p')
        | inl passed ↦ rw passed (elim (Option-cases (as_str (get_field f.body "state"))) [
          | inl e ↦ rw e (reply_error-keeps _ f.stream_id 400 _ p')
          | inr (key, e) ↦ rw e (elim (Bool-cases (may_read cfg c'.session key)) [
            | inr denied ↦ rw denied (reply_error-keeps _ f.stream_id 403 _ p')
            | inl granted ↦ rw granted (
                resume_key-keeps c' key (as_u64_or_zero (get_field f.body "since_version"))
                  (get_field f.body "params") granted p')
          ])
        ])
      ]

  unwatch_key-keeps : (c : Connection) (key : String) → P c.session → P (unwatch_key c key).session
  unwatch_key-keeps c key p = elim (Option-cases (watch_stream_id c.session key)) [
    | inl e ↦ rw (e, unwatch_key) p
    | inr (id, e) ↦ rw (e, unwatch_key) (k.remove c.session id p)
  ]

  unwatch_keys-keeps :
      (c : Connection) (keys : List String) → P c.session → P (unwatch_keys c keys).session
  unfolding unwatch_keys
  unwatch_keys-keeps c [] p = p
  unwatch_keys-keeps c (key ∷ rest) p =
      unwatch_keys-keeps (unwatch_key c key) rest (unwatch_key-keeps c key p)

  handle_unwatch-keeps : (f : Frame) (c : Connection) → P c.session → P (handle_unwatch f c).session
  unfolding handle_unwatch
  handle_unwatch-keeps f c p = elim (Option-cases (keys_of f.body)) [
    | inl e ↦ rw (e, handle_unwatch) p
    | inr (keys, e) ↦ rw (e, handle_unwatch) (unwatch_keys-keeps c keys p)
  ]

  pub handle_frame-keeps :
      (now : ℕ) (f : Frame) (c : Connection) → P c.session → P (handle_frame cfg now f c).session
  unfolding handle_frame send_msg
  handle_frame-keeps now f c p = elim (Bool-cases (f.frame_type == watch_type)) [
    | inl e ↦ rw e (handle_watch-keeps now f c p)
    | inr n1 ↦ rw n1 (elim (Bool-cases (f.frame_type == resume_type)) [
      | inl e ↦ rw e (handle_resume-keeps now f c p)
      | inr n2 ↦ rw n2 (elim (Bool-cases (f.frame_type == unwatch_type)) [
        | inl e ↦ rw e (handle_unwatch-keeps f c p)
        | inr n3 ↦ rw n3 (elim (Bool-cases (f.frame_type == call_type)) [
          | inl e ↦ rw e (k.same _ _ (session-handle_call cfg now f c) p)
          | inr n4 ↦ rw n4 (elim (Bool-cases (f.frame_type == ack_type)) [
            | inl e ↦ rw e (k.ack c.session f.stream_id _ p)
            | inr n5 ↦ rw n5 (elim (Bool-cases (f.frame_type == heartbeat_type)) [
              | inl e ↦ rw e p
              | inr n6 ↦ rw n6 p
            ])
          ])
        ])
      ])
    ])
  ]
