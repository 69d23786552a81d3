-- ===== src/Server/Lifecycle/Zombies.antt =====
-- The ping that finds dead connections.
use sodp.Base.{
  ℕ, ◌≡◌, refl, subst, true, false, Bool, List, [], ◌∷◌, ◌++◌, Bool-cases, Option-cases, inl, inr,
  ltb, length, All,
}
use sodp.Server.{Config, Connection}
use sodp.Server.Handshake.{Crates, binary, ping, pong, closed, other}
use sodp.Server.Lifecycle.{
  Settings, Event, message, shutdown, token_expired, ping_tick, slow_cancelled, elsewhere, Flow,
  Flow-cases, go, stop, on_message, on_event, event_loop,
}

abbrev pub is_pong : Event → Bool
is_pong (message now pong) = true
is_pong _ = false

module _ (cfg : Config) (crates : Crates) (settings : Settings) where
  -- The flag stays up, if the loop goes on.
  abbrev Waits : Flow → Type 0
  Waits (go c awaiting_pong) = awaiting_pong ≡ true
  Waits (stop c) = Unit

  on_binary-Waits :
      (now : ℕ) (c : Connection) (bytes : List ℕ)
      → Waits (on_message cfg crates settings now c true (binary bytes))
  unfolding on_message
  on_binary-Waits now c bytes = elim (Bool-cases (ltb settings.max_frame_bytes (length bytes))) [
    | inl large ↦ rw large tt
    | inr fits ↦ rw fits (elim (Option-cases (crates.decode bytes)) [
      | inl bad ↦ rw bad refl
      | inr (f, good) ↦ rw good refl
    ])
  ]

  on_event-Waits :
      (c : Connection) (e : Event)
      → is_pong e ≡ false
      → Waits (on_event cfg crates settings c true e)
  unfolding on_event on_message
  on_event-Waits c (message now (binary bytes)) h = on_binary-Waits now c bytes
  on_event-Waits c (message now (ping payload)) h = refl
  on_event-Waits c (message now pong) h = cc
  on_event-Waits c (message now closed) h = tt
  on_event-Waits c (message now other) h = refl
  on_event-Waits c shutdown h = tt
  on_event-Waits c token_expired h = tt
  on_event-Waits c ping_tick h = tt
  on_event-Waits c slow_cancelled h = tt
  on_event-Waits c (elsewhere sh) h = refl

  ends_at_tick :
      (c : Connection) (events rest : List Event)
      → All (λ e. is_pong e ≡ false) events
      → event_loop cfg crates settings c true (events ++ ping_tick ∷ rest)
        ≡ event_loop cfg crates settings c true (events ++ ping_tick ∷ [])
  unfolding event_loop on_event
  ends_at_tick c [] rest h = refl
  ends_at_tick c (e ∷ events) rest h =
      let waits = on_event-Waits c e h.0 in
      elim (Flow-cases (on_event cfg crates settings c true e)) [
        | inr (c', flow) ↦ rw (flow, event_loop)
        | inl (c', aw', flow) ↦
            let up : aw' ≡ true = subst Waits flow waits in
            rw (flow, event_loop) (rw up (ends_at_tick c' events rest h.1))
      ]

  -- A client that answers no ping is dropped: from one tick of the ping timer on, if no pong comes
  -- before the next tick, the loop has ended by that tick, and nothing that comes later is handled.
  pub event_loop_unanswered :
      (c : Connection) (awaiting_pong : Bool) (events rest : List Event)
      → All (λ e. is_pong e ≡ false) events
      → event_loop cfg crates settings c awaiting_pong (ping_tick ∷ events ++ ping_tick ∷ rest)
        ≡ event_loop cfg crates settings c awaiting_pong (ping_tick ∷ events ++ ping_tick ∷ [])
  unfolding event_loop on_event
  event_loop_unanswered c true events rest h = refl
  event_loop_unanswered c false events rest h = ends_at_tick _ events rest h
