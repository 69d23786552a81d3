-- ===== src/Server/Following.antt =====
-- A write as its watchers see it: what a write puts in their queues leads to the stored value.
use sodp.Base.{
  ℕ, ◌≡◌, refl, sym, ap, ◌∙◌, subst, String, true, false, Option, some, none, List, [], ◌∷◌,
  is_empty, ◌==◌, ==_iff, if◌then◌else◌, append-nil, inl, inr,
}
use sodp.Base.Dict
use sodp.Base.IdMap
use sodp.Json.{Value, WellFormed}
use sodp.Delta.{DeltaOp}
use sodp.Delta.Apply.{apply_ops, SafeKeys}
use sodp.Frame.{
  Frame, Bytes, result_ok, error, json, number, OutboundMsg, arc_delta, frame, bytes, ping, pong,
}
use sodp.Fanout.{WriteHandle, Subscriber}
use sodp.Fanout.Delivery.{queued, get-send_other}
use sodp.State
use sodp.State.{StateStore, ops_for, next_version, apply}
use sodp.State.Writes.{get-apply_self}
use sodp.State.CatchUp.{value_of, ops_for-apply}
use sodp.Server.{
  Config, Connection, SyncMsg, publish, write_state, send_msg, reply, reply_error, reply_version,
  check_schema,
}
use sodp.Server.Call.{store_value, nothing}
use sodp.Server.Stores.{validation-cases}
use sodp.Server.Watching.{IsWatching, get-publish, state-publish, handle-write_state}

-- A client's copy of a key: it applies the ops of each DELTA on its stream, and passes over the rest.
unfoldable pub follow : (Bytes → Option (List DeltaOp)) → ℕ → Value → List OutboundMsg → Value
follow decode stream_id x [] = x
follow decode stream_id x (arc_delta id body_mp ∷ msgs) = elim (id == stream_id) [
  | true ↦ elim (decode body_mp) [
    | some ops ↦ follow decode stream_id (apply_ops x ops) msgs
    | none ↦ follow decode stream_id x msgs
  ]
  | false ↦ follow decode stream_id x msgs
]
follow decode stream_id x (frame f ∷ msgs) = follow decode stream_id x msgs
follow decode stream_id x (bytes b ∷ msgs) = follow decode stream_id x msgs
follow decode stream_id x (ping ∷ msgs) = follow decode stream_id x msgs
follow decode stream_id x (pong b ∷ msgs) = follow decode stream_id x msgs

follow_one :
    (decode : Bytes → Option (List DeltaOp)) (id : ℕ) (x : Value) (body_mp : Bytes)
    (ops : List DeltaOp)
    → decode body_mp ≡ some ops
    → follow decode id x (arc_delta id body_mp ∷ []) ≡ apply_ops x ops
unfolding follow
follow_one decode id x body_mp ops e = rw ((==_iff id id).1 refl, follow) (rw (e, follow) refl)

-- rmp_serde reads the body of a delta back.
pub record Decodes (cfg : Config) (decode : Bytes → Option (List DeltaOp)) (version : ℕ)
    (ops : List DeltaOp) : Type 0 where
  pub ops_back : decode (cfg.encode_delta_body version ops) ≡ some ops

-- The messages that a write adds to a queue, and where they lead a client.
pub record Follows (decode : Bytes → Option (List DeltaOp)) (key : String) (id : ℕ)
    (h : WriteHandle) (s : Subscriber) (before after : Connection) : Type 0 where
  pub msgs : List OutboundMsg
  pub queue : IdMap.get after.handles id ≡ some (queued h msgs)
  pub leads :
      follow decode s.stream_id (value_of (State.get before.state key)) msgs
      ≡ value_of (State.get after.state key)

module _ (cfg : Config) (decode : Bytes → Option (List DeltaOp)) (c : Connection) (key : String)
    (id : ℕ) (h : WriteHandle) (s : Subscriber) (w : IsWatching c key id h s) (value : Value) where
  abbrev before : Value
  before = value_of (State.get c.state key)

  -- The end of a write: nothing is sent where there are no ops.
  finished-Follows :
      (st : StateStore) (version : ℕ) (ops : List DeltaOp) (msg : SyncMsg)
      → Decodes cfg decode version ops
      → apply_ops before ops ≡ value_of (State.get st key)
      → Follows decode key id h s c (
          if is_empty ops
          then record c { state = st }
          else publish (record c { state = st }) key (cfg.encode_delta_body version ops) msg)
  unfolding apply_ops follow
  finished-Follows st version [] msg d there = record {
    msgs = [];
    queue = w.found ∙ ap (λ l. some (record h { outbound = l })) (sym (append-nil h.outbound));
    leads = there;
  }
  finished-Follows st version (op ∷ ops) msg d there = record {
    msgs = arc_delta s.stream_id (cfg.encode_delta_body version (op ∷ ops)) ∷ [];
    queue =
        get-publish (record c { state = st }) key id h s
          (record {
            found = w.found;
            open_handle = w.open_handle;
            room = w.room;
            other = w.other;
            alone = w.alone;
          })
          (cfg.encode_delta_body version (op ∷ ops)) msg;
    leads =
        follow_one decode s.stream_id before (cfg.encode_delta_body version (op ∷ ops)) (op ∷ ops)
          d.ops_back
        ∙ there
        ∙ sym (
            ap (λ t. value_of (State.get t key))
              (state-publish (record c { state = st }) key
                (cfg.encode_delta_body version (op ∷ ops)) msg));
  }

  ops-apply : (apply cfg.codec c.state key value).2 ≡ ops_for (Dict.get c.state.entries key) value
  unfolding apply
  ops-apply = refl

  Decodes-apply :
      Decodes cfg decode (next_version c.state) (ops_for (Dict.get c.state.entries key) value)
      → Decodes cfg decode
          (apply cfg.codec c.state key value).1
          (apply cfg.codec c.state key value).2
  unfolding apply
  Decodes-apply d = d

  -- After a write of a key by one session, the queue of a watcher in another session holds, after
  -- what was there, the messages that lead its copy of the key from the value before the write to
  -- the stored value, if it had room and both values are well formed with keys that a path can name.
  pub write_state-Follows :
      Decodes cfg decode (next_version c.state) (ops_for (Dict.get c.state.entries key) value)
      → WellFormed (value_of (State.get c.state key))
      → WellFormed value
      → SafeKeys (value_of (State.get c.state key))
      → SafeKeys value
      → Follows decode key id h s c (write_state cfg c key value).0
  unfolding State.get write_state
  write_state-Follows d wo wn so sn =
      finished-Follows (apply cfg.codec c.state key value).0 _ (apply cfg.codec c.state key value).2
        _ (Decodes-apply d)
        (ap (apply_ops before) ops-apply
          ∙ ops_for-apply (Dict.get c.state.entries key) value wo wn so sn
          ∙ sym (ap value_of (get-apply_self cfg.codec c.state key value)))

  -- A reply goes to the writer's own handle.
  reply-Follows :
      (c' : Connection) (make : ℕ → Frame)
      → c'.handle ≡ c.handle
      → Follows decode key id h s c c'
      → Follows decode key id h s c (reply c' make)
  unfolding reply send_msg
  reply-Follows c' make same f = record {
    msgs = f.msgs;
    queue =
        get-send_other _ c'.handle id _ (subst (λ n. (n == id) ≡ false) (sym same) w.other)
        ∙ f.queue;
    leads = f.leads;
  }

  unchanged-Follows : Follows decode key id h s c c
  unfolding follow
  unchanged-Follows = record {
    msgs = [];
    queue = w.found ∙ ap (λ l. some (record h { outbound = l })) (sym (append-nil h.outbound));
    leads = refl;
  }

  -- When a session stores a value under a key, by `state.set`, `state.patch` or `state.set_in`,
  -- whether the schema lets it or not, the messages that this adds to the queue of a watcher in
  -- another session lead its copy of the key from the stored value before to the stored value
  -- after, if the queue had room for one, rmp_serde reads a delta's body back, and both values are
  -- well formed with keys that a path can name.
  pub store_value-Follows :
      (f : Frame) (call_id : String)
      → Decodes cfg decode (next_version c.state) (ops_for (Dict.get c.state.entries key) value)
      → WellFormed (value_of (State.get c.state key))
      → WellFormed value
      → SafeKeys (value_of (State.get c.state key))
      → SafeKeys value
      → Follows decode key id h s c (store_value cfg c f call_id key value nothing)
  unfolding store_value reply_error reply_version
  store_value-Follows f call_id d wo wn so sn =
      elim (validation-cases (check_schema cfg key value)) [
        | inl passed ↦
            rw (passed, store_value)
              (reply-Follows (write_state cfg c key value).0
                (λ seq.
                  result_ok f.stream_id seq call_id
                    (some (json (("version", number (write_state cfg c key value).1) ∷ []))))
                (handle-write_state cfg c key value) (write_state-Follows d wo wn so sn))
        | inr (m, failed) ↦
            rw (failed, store_value)
              (reply-Follows c (λ seq. error f.stream_id seq 422 m) refl unchanged-Follows)
      ]
