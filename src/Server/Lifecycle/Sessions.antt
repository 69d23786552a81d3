-- ===== src/Server/Lifecycle/Sessions.antt =====
-- What holds of a session from its handshake to its end, whatever the client sends and whatever
-- other connections do meanwhile.
use sodp.Base.{
  ℕ, String, ◌≡◌, refl, sym, ap, ◌∙◌, subst, true, false, Option, some, none, List, Option-cases,
  inl, inr, some-injective, none-ne-some, All,
}
use sodp.Base.IdMap
use sodp.Json.{obj}
use sodp.Frame.{Bytes, hello}
use sodp.Session
use sodp.Session.{Session, add_watch, allocate_stream, remove_watch, ack_stream}
use sodp.Fanout.{subscribers, is_other}
use sodp.Server.{Config}
use sodp.Server.Reading.{IsReadable, IsReadable-IsKept}
use sodp.Server.Departure.{end_session-departs}
use sodp.Server.Handshake.{Claims, JwtConfig, Crates, Inbound, Outcome, authenticated, refused}
use sodp.Server.Handshake.Admission.{Admits, auth_handshake_iff}
use sodp.Server.Lifecycle.{
  Settings, Shared, connected, Event, event_loop, admit, establish, make_handle, run_session,
  handle_connection, is_some, capabilities,
}
use sodp.Server.Lifecycle.Loop.{event_loop-keeps, IsOf, IsOf-IsKept}

-- The session that a handshake leaves: the fresh one, or the one of the user that it admitted.
outcome-cases :
    (session : Session) (o : Outcome) (s : Session)
    → admit session o ≡ some s
    → (claims : Claims) × (rest : List Inbound) × (o ≡ authenticated claims rest)
      × (s ≡ record session { sub = some claims.sub; claims = obj claims.extra })
outcome-cases session (authenticated claims rest) s h =
    (claims, rest, refl, sym (some-injective _ _ h))
outcome-cases session (refused reason) s h = absurd (none-ne-some _ h)

module _ (crates : Crates) (settings : Settings) (fresh : Session) (ms : List Inbound)
    (s : Session) where
  -- The messages let the user of the session in, by a valid token.
  abbrev pub IsAdmitted : JwtConfig → Type 0
  IsAdmitted config =
      (claims : Claims) × (rest : List Inbound) × Admits crates settings.max_frame_bytes config ms
        claims rest
      × (s.sub ≡ some claims.sub)
      × (s.claims ≡ obj claims.extra)

  establish-IsAdmitted :
      (config : JwtConfig)
      → establish crates settings fresh (some config) ms ≡ some s
      → IsAdmitted config
  establish-IsAdmitted config h =
      let (claims, rest, o, e) = outcome-cases fresh _ s h in
      (
        claims,
        rest,
        (auth_handshake_iff crates settings.max_frame_bytes config ms claims rest).0 o,
        ap (λ t. t.sub) e,
        ap (λ t. t.claims) e,
      )

  establish-unchanged :
      (jwt : Option JwtConfig)
      → establish crates settings fresh jwt ms ≡ some s
      → (s.id ≡ fresh.id) × (s.watches ≡ fresh.watches)
  establish-unchanged none h =
      let e = sym (some-injective _ _ h) in (ap (λ t. t.id) e, ap (λ t. t.watches) e)
  establish-unchanged (some config) h =
      let (claims, rest, o, e) = outcome-cases fresh _ s h in
      (ap (λ t. t.id) e, ap (λ t. t.watches) e)

module _ (cfg : Config) (crates : Crates) (settings : Settings) where
  module _ (uuid : String) (now handle : ℕ) (ms : List Inbound) (events : List Event) where
    abbrev fresh : Session
    fresh = Session.new uuid now settings.rate_writes_per_sec settings.rate_watches_per_sec

    -- The loop starts in any shared state.
    module _ (started : Shared) (session : Session)
        (established : establish crates settings fresh settings.jwt_config ms ≡ some session) where
      abbrev in_loop : Session
      in_loop =
          (event_loop cfg crates settings (connected started session handle) false events).session

      -- Whatever a client sends after its handshake, and whatever other connections do, each stream
      -- of its session is on a key that the session may read, at every moment of its loop.
      pub event_loop-IsReadable : IsReadable cfg in_loop
      unfolding Session.new IdMap.get
      event_loop-IsReadable =
          let unchanged =
            establish-unchanged crates settings fresh ms session settings.jwt_config established in
          event_loop-keeps cfg crates settings (IsReadable cfg) (IsReadable-IsKept cfg) _ false
            events
            (record {
              on_stream = λ id w h.
                  absurd (none-ne-some _ (subst (λ m. IdMap.get m id ≡ some w) unchanged.1 h));
            })

      -- Where the server asks for tokens, the user and the claims of a session are, at every moment
      -- of its loop, those of a valid token in an AUTH frame, before which the client sent nothing
      -- but keep-alives.
      pub event_loop-IsAdmitted :
          (config : JwtConfig)
          → settings.jwt_config ≡ some config
          → IsAdmitted crates settings fresh ms in_loop config
      event_loop-IsAdmitted config e =
          let (claims, rest, a, b, c) =
            establish-IsAdmitted crates settings fresh ms session config
              (subst (λ j. establish crates settings fresh j ms ≡ some session) e established) in
          let o =
            event_loop-keeps cfg crates settings (IsOf session.id session.sub session.claims)
              (IsOf-IsKept cfg session.id session.sub session.claims)
              (connected started session handle) false events
              (record { same_id = refl; same_sub = refl; same_claims = refl }) in
          (claims, rest, a, o.same_sub ∙ b, o.same_claims ∙ c)

      id-in_loop : in_loop.id ≡ uuid
      unfolding Session.new
      id-in_loop =
          (event_loop-keeps cfg crates settings (IsOf session.id session.sub session.claims)
            (IsOf-IsKept cfg session.id session.sub session.claims)
            (connected started session handle) false events
            (record { same_id = refl; same_sub = refl; same_claims = refl })).same_id
          ∙ (establish-unchanged crates settings fresh ms session settings.jwt_config established).0

  module _ (sh : Shared) (uuid : String) (now handle : ℕ) (ms : List Inbound)
      (events : List Event) where
    abbrev hello_bytes : Option Bytes
    hello_bytes = crates.encode (hello (is_some settings.jwt_config) (capabilities settings))

    abbrev logged_in : Option Session
    logged_in = establish crates settings (fresh uuid now handle ms events) settings.jwt_config ms

    not_established :
        (config : JwtConfig)
        → settings.jwt_config ≡ some config
        → ((claims : Claims) (rest : List Inbound)
            → ¬ Admits crates settings.max_frame_bytes config ms claims rest)
        → logged_in ≡ none
    not_established config e no_way = elim (Option-cases logged_in) [
      | inl n ↦ n
      | inr (session, h) ↦
          let (claims, rest, a, b, c) =
            establish-IsAdmitted crates settings (fresh uuid now handle ms events) ms session config
              (subst
                (λ j.
                  establish crates settings (fresh uuid now handle ms events) j ms ≡ some session)
                e h) in
          absurd (no_way claims rest a)
    ]

    -- A connection whose client is not let in leaves the store, the bus, the queues and what goes
    -- to the cluster exactly as they were.
    pub handle_connection-refused :
        (config : JwtConfig)
        → settings.jwt_config ≡ some config
        → ((claims : Claims) (rest : List Inbound)
            → ¬ Admits crates settings.max_frame_bytes config ms claims rest)
        → handle_connection cfg crates settings sh uuid now handle ms events ≡ sh
    unfolding handle_connection
    handle_connection-refused config e no_way = elim (Option-cases hello_bytes) [
      | inl h ↦ rw (h, handle_connection)
      | inr (b, h) ↦
          rw (h, handle_connection) (rw (not_established config e no_way, handle_connection))
    ]

    ends :
        (key : String) (started : Shared) (session : Session)
        → logged_in ≡ some session
        → All
            (λ s. is_other uuid s ≡ true)
            (subscribers (run_session cfg crates settings started handle session events).fanout key)
    unfolding run_session
    ends key started session e =
        subst
          (λ id.
            All (λ s. is_other id s ≡ true)
              (subscribers (run_session cfg crates settings started handle session events).fanout
                key))
          (id-in_loop uuid now handle ms events started session e)
          (end_session-departs cfg
            (event_loop cfg crates settings (connected started session handle) false events) key)

    -- When a connection has ended, however it did, the bus has no subscriber of its session, if it
    -- had none of the fresh UUID before.
    pub handle_connection-departs :
        (key : String)
        → All (λ s. is_other uuid s ≡ true) (subscribers sh.fanout key)
        → All
            (λ s. is_other uuid s ≡ true)
            (subscribers
              (handle_connection cfg crates settings sh uuid now handle ms events).fanout
              key)
    unfolding handle_connection run_session
    handle_connection-departs key before = elim (Option-cases hello_bytes) [
      | inl h ↦ rw (h, handle_connection) before
      | inr (b, h) ↦ elim (Option-cases logged_in) [
        | inl n ↦ rw (h, handle_connection) (rw (n, handle_connection) before)
        | inr (session, e) ↦ elim (Option-cases (make_handle settings sh handle)) [
          | inl panic ↦
              rw (h, handle_connection)
                (rw (e, handle_connection) (rw (panic, handle_connection) before))
          | inr (started, made) ↦
              rw (h, handle_connection)
                (rw (e, handle_connection)
                  (rw (made, handle_connection) (ends key started session e)))
        ]
      ]
    ]
