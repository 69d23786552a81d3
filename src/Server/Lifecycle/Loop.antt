-- ===== src/Server/Lifecycle/Loop.antt =====
-- The event loop keeps what the handlers keep: the rule, and the identity of a session by it.
use sodp.Base.{
  ℕ, String, ◌≡◌, ◌∙◌, subst, true, false, Bool, Option, List, [], ◌∷◌, Bool-cases, Option-cases,
  inl, inr, ltb, length,
}
use sodp.Base.IdMap
use sodp.Json.{Value}
use sodp.Session.{Session, add_watch, allocate_stream, remove_watch, ack_stream}
use sodp.Server.{Config, Connection, send_msg}
use sodp.Server.Streams.{IsKept, handle_frame-keeps}
use sodp.Server.Handshake.{Crates, Inbound, binary, ping, pong, closed, other}
use sodp.Server.Lifecycle.{
  Settings, Event, message, shutdown, token_expired, ping_tick, slow_cancelled, elsewhere, Flow,
  Flow-cases, go, stop, on_message, on_event, event_loop,
}

-- A predicate on sessions that the handlers keep is kept by the whole loop.
module _ (cfg : Config) (crates : Crates) (settings : Settings) where
  module _ (P : Session → Type 0) (k : IsKept cfg P) where
    abbrev After : Flow → Type 0
    After (go c awaiting_pong) = P c.session
    After (stop c) = P c.session

    on_message-keeps :
        (now : ℕ) (c : Connection) (awaiting_pong : Bool) (m : Inbound)
        → P c.session
        → After (on_message cfg crates settings now c awaiting_pong m)
    unfolding on_message send_msg
    on_message-keeps now c aw (binary bytes) p =
        elim (Bool-cases (ltb settings.max_frame_bytes (length bytes))) [
          | inl large ↦ rw large p
          | inr fits ↦ rw fits (elim (Option-cases (crates.decode bytes)) [
            | inl bad ↦ rw bad p
            | inr (f, good) ↦ rw good (handle_frame-keeps cfg P k now f c p)
          ])
        ]
    on_message-keeps now c aw (ping payload) p = p
    on_message-keeps now c aw pong p = p
    on_message-keeps now c aw closed p = p
    on_message-keeps now c aw other p = p

    on_event-keeps :
        (c : Connection) (awaiting_pong : Bool) (e : Event)
        → P c.session
        → After (on_event cfg crates settings c awaiting_pong e)
    unfolding on_event send_msg
    on_event-keeps c aw (message now m) p = on_message-keeps now c aw m p
    on_event-keeps c aw shutdown p = p
    on_event-keeps c aw token_expired p = p
    on_event-keeps c true ping_tick p = p
    on_event-keeps c false ping_tick p = p
    on_event-keeps c aw slow_cancelled p = p
    on_event-keeps c aw (elsewhere sh) p = p

    pub event_loop-keeps :
        (c : Connection) (awaiting_pong : Bool) (events : List Event)
        → P c.session
        → P (event_loop cfg crates settings c awaiting_pong events).session
    unfolding event_loop
    event_loop-keeps c aw [] p = p
    event_loop-keeps c aw (e ∷ rest) p =
        let after = on_event-keeps c aw e p in
        elim (Flow-cases (on_event cfg crates settings c aw e)) [
          | inl (c', aw', flow) ↦
              rw (flow, event_loop) (event_loop-keeps c' aw' rest (subst After flow after))
          | inr (c', flow) ↦ rw (flow, event_loop) (subst After flow after)
        ]

-- The session is of this connection and this user.
pub record IsOf (id : String) (sub : Option String) (claims : Value) (s : Session) : Type 0 where
  pub same_id : s.id ≡ id
  pub same_sub : s.sub ≡ sub
  pub same_claims : s.claims ≡ claims

module _ (cfg : Config) (id : String) (sub : Option String) (claims : Value) where
  IsOf-ack_stream :
      (s : Session) (acked seq : ℕ)
      → IsOf id sub claims s
      → IsOf id sub claims (ack_stream s acked seq)
  unfolding ack_stream
  IsOf-ack_stream s acked seq o = elim (Option-cases (IdMap.get s.watches acked)) [
    | inl e ↦ rw (e, ack_stream) o
    | inr (w, e) ↦
        rw (e, ack_stream)
          (record { same_id = o.same_id; same_sub = o.same_sub; same_claims = o.same_claims })
  ]

  pub IsOf-IsKept : IsKept cfg (IsOf id sub claims)
  unfolding remove_watch add_watch allocate_stream
  IsOf-IsKept = record {
    same = λ s t e o. record {
      same_id = e.id ∙ o.same_id;
      same_sub = e.sub ∙ o.same_sub;
      same_claims = e.claims ∙ o.same_claims;
    };
    open_readable = λ s key params granted o. record {
      same_id = o.same_id;
      same_sub = o.same_sub;
      same_claims = o.same_claims;
    };
    remove = λ s gone o. record {
      same_id = o.same_id;
      same_sub = o.same_sub;
      same_claims = o.same_claims;
    };
    ack = IsOf-ack_stream;
  }
