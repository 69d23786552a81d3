-- ===== src/Server/Snapshot.antt =====
-- WATCH and then a write: the snapshot that a client gets and the delta after it fit together.
use sodp.Base.{
  ℕ, ◌+◌, ◌%◌, ◌^◌, ◌≤◌, ◌≡◌, refl, ap, ◌∙◌, String, Bool, true, false, not, Option, some, none,
  List, [], ◌∷◌, ◌++◌, arith, length, length-append, append_assoc, retain, ◌==◌, ==_iff, str_eq,
  eq_refl,
}
use sodp.Base.Dict
use sodp.Base.Dict.{get-insert}
use sodp.Base.IdMap
use sodp.Json.{Value, null, WellFormed}
use sodp.Delta.{DeltaOp}
use sodp.Delta.Apply.{SafeKeys}
use sodp.Frame.{Frame, Bytes, OutboundMsg, frame, state_init}
use sodp.Session.{Session, next_seq, allocate_stream, add_watch}
use sodp.Fanout.{WriteHandle, Subscriber, FanoutBus, subscribe, subscribers, is_included, or_empty}
use sodp.Fanout.Delivery.{queued, get-send_self}
use sodp.State
use sodp.State.{StateEntry, ops_for, next_version}
use sodp.State.CatchUp.{value_of}
use sodp.Server.{
  Config, Connection, send_msg, reply, send_state_init, open_stream, subscribe_key, version_or_zero,
  is_there, value_or,
}
use sodp.Server.Call.{store_value, nothing}
use sodp.Server.Lifecycle.{shared_of, connected}
use sodp.Server.Watching.{IsWatching}
use sodp.Server.Following.{follow, Decodes, store_value-Follows}

subscribers-subscribe :
    (bus : FanoutBus) (key : String) (s : Subscriber)
    → subscribers (subscribe bus key s) key ≡ subscribers bus key ++ s ∷ []
unfolding subscribe
subscribers-subscribe bus key s =
    ap or_empty (get-insert bus.subscriptions key key (subscribers bus key ++ s ∷ []))
    ∙ (rw (eq_refl key) refl)

retain_last :
    (p q : Subscriber → Bool) (subs : List Subscriber) (s : Subscriber)
    → retain p subs ≡ []
    → p s ≡ true
    → q s ≡ true
    → retain p (retain q (subs ++ s ∷ [])) ≡ s ∷ []
retain_last p q [] s h ps qs = ground arith
retain_last p q (t ∷ subs) s h ps qs = ground (arith, retain_last p q subs s)

-- The STATE_INIT that a connection sends for a key on its next stream.
abbrev pub snapshot : Connection → String → Option Value → Frame
snapshot c key params =
    let found = State.get c.state key in
    state_init c.session.next_stream_id ((c.session.seq_counter + 1) % 2 ^ 64) key
      (version_or_zero found) (value_of found) (is_there found) params

-- The client's queue is open with room for two messages, and none of it watches the key yet.
pub record CanWatch (c : Connection) (key : String) (h : WriteHandle) : Type 0 where
  pub found : IdMap.get c.handles c.handle ≡ some h
  pub open_handle : h.closed ≡ false
  pub room : length h.outbound + 2 ≤ h.capacity
  pub fresh : retain (λ t. t.write == c.handle) (subscribers c.fanout key) ≡ []

value_or-value_of : (o : Option StateEntry) → value_or null o ≡ value_of o
value_or-value_of none = refl
value_or-value_of (some e) = refl

module _ (c : Connection) (key : String) (params : Option Value) (h : WriteHandle)
    (w : CanWatch c key h) where
  -- The subscription that WATCH makes.
  abbrev pub subscriber : Subscriber
  subscriber = record {
    session_id = c.session.id;
    stream_id = c.session.next_stream_id;
    write = c.handle;
  }

  abbrev watched : Connection
  watched = subscribe_key c key params

  with_snapshot : WriteHandle
  with_snapshot = queued h (frame (snapshot c key params) ∷ [])

  queue-subscribe_key : IdMap.get watched.handles c.handle ≡ some with_snapshot
  unfolding subscribe_key open_stream send_state_init reply send_msg next_seq allocate_stream
      add_watch with_snapshot
  queue-subscribe_key =
      get-send_self c.handles c.handle h _ w.found w.open_handle (omega (arith, w.room))
      ∙ ap
          (λ v. some (
            queued h (
              frame (
                state_init c.session.next_stream_id ((c.session.seq_counter + 1) % 2 ^ 64) key
                  (version_or_zero (State.get c.state key)) v (is_there (State.get c.state key))
                  params)
              ∷ [])))
          (value_or-value_of (State.get c.state key))

  subscribers-subscribe_key :
      subscribers watched.fanout key ≡ subscribers c.fanout key ++ subscriber ∷ []
  unfolding subscribe_key open_stream send_state_init reply send_msg next_seq allocate_stream
      add_watch
  subscribers-subscribe_key = subscribers-subscribe c.fanout key subscriber

  state-subscribe_key : watched.state ≡ c.state
  unfolding subscribe_key open_stream send_state_init reply send_msg next_seq allocate_stream
      add_watch
  state-subscribe_key = refl

  module _ (writer : Session) (handle : ℕ) (distinct : (handle == c.handle) ≡ false)
      (other : str_eq c.session.id writer.id ≡ false) where
    abbrev pub writing : Connection
    writing = connected (shared_of watched) writer handle

    only_subscriber :
        retain
          (λ t. t.write == c.handle)
          (retain (is_included (some writer.id)) (subscribers writing.fanout key))
        ≡ subscriber ∷ []
    only_subscriber =
        ap (λ l. retain (λ t. t.write == c.handle) (retain (is_included (some writer.id)) l))
          subscribers-subscribe_key
        ∙ retain_last (λ t. t.write == c.handle) (is_included (some writer.id))
            (subscribers c.fanout key) subscriber w.fresh ((==_iff c.handle c.handle).1 refl)
            (ap not other)

    watched-IsWatching : IsWatching writing key c.handle with_snapshot subscriber
    unfolding with_snapshot
    watched-IsWatching = record {
      found = queue-subscribe_key;
      open_handle = w.open_handle;
      room = omega (arith, w.room, length-append h.outbound (frame (snapshot c key params) ∷ []));
      other = distinct;
      alone = only_subscriber;
    }

    -- When a client subscribes to a key, and then another session stores a value there, whether the
    -- schema lets it or not, the client's queue has gained the STATE_INIT of the value at the time
    -- and then messages that lead this value to the one that is stored in the end, if the queue had
    -- room for two and no stream on the key, rmp_serde reads a delta's body back, and both values
    -- are well formed with keys that a path can name.
    pub subscribe_key-Follows :
        (cfg : Config) (decode : Bytes → Option (List DeltaOp)) (value : Value) (f : Frame)
        (call_id : String)
        → Decodes cfg decode (next_version c.state) (ops_for (Dict.get c.state.entries key) value)
        → WellFormed (value_of (State.get c.state key))
        → WellFormed value
        → SafeKeys (value_of (State.get c.state key))
        → SafeKeys value
        → let after = store_value cfg writing f call_id key value nothing in
          (msgs : List OutboundMsg) × (IdMap.get after.handles c.handle
            ≡ some (record h { outbound = h.outbound ++ frame (snapshot c key params) ∷ msgs }))
          × (follow decode c.session.next_stream_id (value_of (State.get c.state key)) msgs
              ≡ value_of (State.get after.state key))
    unfolding subscribe_key open_stream send_state_init reply send_msg next_seq allocate_stream
        add_watch with_snapshot
    subscribe_key-Follows cfg decode value f call_id d wo wn so sn =
        let r =
          store_value-Follows cfg decode writing key c.handle with_snapshot subscriber
            watched-IsWatching value f call_id d wo wn so sn in
        (
          r.msgs,
          r.queue
              ∙ ap (λ l. some (record h { outbound = l }))
                  (append_assoc h.outbound (frame (snapshot c key params) ∷ []) r.msgs),
          r.leads,
        )
