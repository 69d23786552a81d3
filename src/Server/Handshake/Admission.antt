-- ===== src/Server/Handshake/Admission.antt =====
-- Who gets through the handshake.
use sodp.Base.{
  ℕ, String, ◌≡◌, ◌↔◌, ◌⊎◌, ◌≤◌, refl, subst, Option, none, some, List, [], ◌∷◌, arith, ltb, length,
  ◌==◌, ==_iff, Bool-cases, Option-cases, inl, inr,
}
use sodp.Json.{get_field}
use sodp.Frame.{Bytes, Frame, heartbeat, auth_ok, auth_type, heartbeat_type}
use sodp.Server.Handshake.{
  Claims, JwtConfig, Crates, Validated, valid, invalid, validate_jwt, Inbound, binary, ping, pong,
  closed, other, Outcome, authenticated, refused, send_then, on_frame, token_of, auth_handshake,
}

module _ (crates : Crates) (max_frame_bytes : ℕ) (config : JwtConfig) where
  open crates use {encode, decode}

  -- The bytes of a frame that is not too large.
  pub record Carries (bytes : Bytes) (f : Frame) : Type 0 where
    pub fits : length bytes ≤ max_frame_bytes
    pub decoded : decode bytes ≡ some f

  -- `Admits ms claims rest`: of the messages `ms`, the first that is no keep-alive is an AUTH frame
  -- whose token is valid for the claims, and `rest` comes after it.
  pub data Admits : List Inbound → Claims → List Inbound → Type 0 where
    auth :
        {bytes b : Bytes} {f : Frame} {ms : List Inbound} {claims : Claims}
        → Carries bytes f
        → f.frame_type ≡ auth_type
        → validate_jwt crates (token_of (get_field f.body "token")) config ≡ valid claims
        → encode (auth_ok claims.sub) ≡ some b
        → Admits (binary bytes ∷ ms) claims ms
    keep_alive :
        {bytes b : Bytes} {f : Frame} {ms rest : List Inbound} {claims : Claims}
        → Carries bytes f
        → f.frame_type ≡ heartbeat_type
        → encode heartbeat ≡ some b
        → Admits ms claims rest
        → Admits (binary bytes ∷ ms) claims rest
    pinged :
        {payload b : Bytes} {ms rest : List Inbound} {claims : Claims}
        → encode heartbeat ≡ some b
        → Admits ms claims rest
        → Admits (ping payload ∷ ms) claims rest
    ponged :
        {ms rest : List Inbound} {claims : Claims}
        → Admits ms claims rest
        → Admits (pong ∷ ms) claims rest
    ignored :
        {ms rest : List Inbound} {claims : Claims}
        → Admits ms claims rest
        → Admits (other ∷ ms) claims rest

  abbrev outcome : List Inbound → Outcome
  outcome ms = (auth_handshake crates max_frame_bytes config ms).1

  complete :
      {ms : List Inbound} {claims : Claims} {rest : List Inbound}
      → Admits ms claims rest
      → outcome ms ≡ authenticated claims rest
  unfolding auth_handshake
  complete (auth c t v e) = ground (arith, c.fits, c.decoded)
  complete (keep_alive c t e a) = ground (arith, c.fits, c.decoded, complete a)
  complete (pinged e a) = ground (arith, complete a)
  complete (ponged a) = complete a
  complete (ignored a) = complete a

  -- A reply that is sent leaves the outcome to what comes after it.
  sent_before :
      {claims : Claims} {rest : List Inbound} (e : Option Bytes) (next : List Bytes × Outcome)
      → (send_then e next).1 ≡ authenticated claims rest
      → (b : Bytes) × (e ≡ some b) × (next.1 ≡ authenticated claims rest)
  sent_before none next h = ground arith
  sent_before (some b) next h = (b, refl, h)

  validated-cases :
      (v : Validated) → ((c : Claims) × (v ≡ valid c)) ⊎ ((e : String) × (v ≡ invalid e))
  validated-cases (valid c) = inl (c, refl)
  validated-cases (invalid e) = inr (e, refl)

  refused_after :
      {claims : Claims} {rest : List Inbound} (e : Option Bytes) (reason : String)
      → (send_then e ([], refused reason)).1 ≡ authenticated claims rest
      → ⊥
  refused_after none reason h = ground arith
  refused_after (some b) reason h = ground arith

  -- A frame of the handshake, by its type; `admit` is what the messages after it admit.
  sound_frame :
      (bytes : Bytes) (f : Frame) (ms : List Inbound) {claims : Claims} {rest : List Inbound}
      → Carries bytes f
      → (outcome ms ≡ authenticated claims rest → Admits ms claims rest)
      → (on_frame crates max_frame_bytes config f ms
          (auth_handshake crates max_frame_bytes config ms)).1
        ≡ authenticated claims rest
      → Admits (binary bytes ∷ ms) claims rest
  sound_frame bytes f ms {claims} {rest} c admit h =
      elim (Bool-cases (f.frame_type == heartbeat_type)) [
        | inl beat ↦
            let (b, e, k) = sent_before _ _ (rw beat at h) in
            keep_alive c ((==_iff f.frame_type heartbeat_type).0 beat) e (admit k)
        | inr no_beat ↦ elim (Bool-cases (f.frame_type == auth_type)) [
          | inr no_auth ↦ absurd (refused_after _ _ (rw no_auth at (rw no_beat at h)))
          | inl is_auth ↦
              elim (validated-cases
                (validate_jwt crates (token_of (get_field f.body "token")) config)) [
                  | inr (e, v) ↦
                      absurd (refused_after _ _ (rw v at (rw is_auth at (rw no_beat at h))))
                  | inl (claims', v) ↦
                      let (b, e, k) =
                        sent_before (encode (auth_ok claims'.sub)) ([], authenticated claims' ms)
                          (rw v at (rw is_auth at (rw no_beat at h))) in
                      let same : claims' ≡ claims = cc in
                      let after : ms ≡ rest = cc in
                      subst (λ r. Admits (binary bytes ∷ ms) claims r) after
                        (subst (λ d. Admits (binary bytes ∷ ms) d ms) same
                          (auth c ((==_iff f.frame_type auth_type).0 is_auth) v e))
                ]
        ]
      ]

  sound_bytes :
      (bytes : Bytes) (ms : List Inbound) {claims : Claims} {rest : List Inbound}
      → (outcome ms ≡ authenticated claims rest → Admits ms claims rest)
      → outcome (binary bytes ∷ ms) ≡ authenticated claims rest
      → Admits (binary bytes ∷ ms) claims rest
  unfolding auth_handshake
  sound_bytes bytes ms admit h = elim (Bool-cases (ltb max_frame_bytes (length bytes))) [
    | inl large ↦ absurd (refused_after _ _ (rw (large, outcome, auth_handshake) at h))
    | inr fits ↦ elim (Option-cases (decode bytes)) [
      | inl bad ↦ absurd (refused_after _ _ (rw bad at (rw (fits, outcome, auth_handshake) at h)))
      | inr (f, good) ↦
          sound_frame bytes f ms (record { fits = ground (arith, fits); decoded = good }) admit
            (rw good at (rw (fits, outcome, auth_handshake) at h))
    ]
  ]

  sound :
      (ms : List Inbound) {claims : Claims} {rest : List Inbound}
      → outcome ms ≡ authenticated claims rest
      → Admits ms claims rest
  unfolding auth_handshake
  sound [] h = ground arith
  sound (binary bytes ∷ ms) h = sound_bytes bytes ms (sound ms) h
  sound (ping payload ∷ ms) h = let (b, e, k) = sent_before _ _ h in pinged e (sound ms k)
  sound (pong ∷ ms) h = ponged (sound ms h)
  sound (closed ∷ ms) h = ground arith
  sound (other ∷ ms) h = ignored (sound ms h)

  -- The handshake lets a client in, with the given claims and the given messages left, exactly when
  -- its messages, up to there, are keep-alives that are answered or ignored and then one AUTH frame
  -- whose token is valid for these claims and whose answer can be encoded.
  pub auth_handshake_iff :
      (ms : List Inbound) (claims : Claims) (rest : List Inbound)
      → ((auth_handshake crates max_frame_bytes config ms).1 ≡ authenticated claims rest)
        ↔ Admits ms claims rest
  auth_handshake_iff ms claims rest = (sound ms, complete)
