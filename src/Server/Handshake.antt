-- ===== src/Server/Handshake.antt =====
-- src/server.rs: the JWT handshake before a session's event loop.
pub mod Admission
use sodp.Base.{ℕ, String, Bool, Option, none, some, List, [], ◌∷◌, ltb, length, ◌==◌, if◌then◌else◌}
use sodp.Base.Text.{◌⧺◌}
use sodp.Json.{Value, Fields, str, get_field}
use sodp.Frame.{Bytes, Frame, error, heartbeat, auth_ok, auth_type, heartbeat_type}

-- `Claims`; `extra` holds the fields that are not named.
pub record Claims : Type 0 where
  pub sub : String
  pub exp : ℕ
  pub extra : Fields

pub data JwtConfig : Type 0 where
  hs256 : String → JwtConfig
  rs256 : String → JwtConfig

pub data Algorithm : Type 0 where
  hmac_sha256 rsa_sha256 : Algorithm

-- jsonwebtoken's `Validation`, as far as the server sets it: the algorithm, and the clock skew that
-- is tolerated.
pub record Validation : Type 0 where
  pub algorithm : Algorithm
  pub leeway : ℕ

-- A token's claims, or the text of an error.
pub data Validated : Type 0 where
  valid : Claims → Validated
  invalid : String → Validated

-- What the handshake takes from other crates: `Frame::encode` and `Frame::decode` by rmp_serde,
-- `DecodingKey::from_rsa_pem`, of which the text of an error, and jsonwebtoken's `decode`.
pub record Crates : Type 0 where
  pub encode : Frame → Option Bytes
  pub decode : Bytes → Option Frame
  pub rsa_pem_error : String → Option String
  pub decode_token : Validation → String → String → Validated

abbrev with_context : String → Validated → Validated
with_context text (valid claims) = valid claims
with_context text (invalid e) = invalid (text ⧺ e)

-- `Validation::new(algo)` with `leeway = 0`
abbrev pub validation_of : Algorithm → Validation
validation_of algorithm = record { algorithm = algorithm; leeway = 0 }

unfoldable pub validate_jwt : Crates → String → JwtConfig → Validated
validate_jwt crates token (hs256 secret) =
    with_context "JWT error: " (crates.decode_token (validation_of hmac_sha256) secret token)
validate_jwt crates token (rs256 public_key_pem) = elim (crates.rsa_pem_error public_key_pem) [
  | some e ↦ invalid ("RS256 key error: " ⧺ e)
  | none ↦
      with_context "JWT error: "
        (crates.decode_token (validation_of rsa_sha256) public_key_pem token)
]

-- What a WebSocket gives: `closed` is a close frame, an error or the end of the stream, `other` a
-- text frame or a raw one.
pub data Inbound : Type 0 where
  binary : Bytes → Inbound
  ping : Bytes → Inbound
  pong : Inbound
  closed : Inbound
  other : Inbound

-- The claims and the messages that are left, or the text of the error.
pub data Outcome : Type 0 where
  authenticated : Claims → List Inbound → Outcome
  refused : String → Outcome

-- Send a frame, then go on; an encoding error ends the handshake. Writes to the socket succeed.
abbrev pub send_then : Option Bytes → List Bytes × Outcome → List Bytes × Outcome
send_then none next = ([], refused "encode error")
send_then (some b) (sent, outcome) = (b ∷ sent, outcome)

-- `frame.body.get("token").and_then(|v| v.as_str()).unwrap_or("")`
abbrev pub token_of : Option Value → String
token_of (some (str s)) = s
token_of _ = ""

module _ (crates : Crates) (max_frame_bytes : ℕ) (config : JwtConfig) where
  open crates use {encode, decode}

  abbrev pub refuse : ℕ → String → String → List Bytes × Outcome
  refuse code message reason = send_then (encode (error 0 0 code message)) ([], refused reason)

  abbrev pub on_token : Validated → List Inbound → List Bytes × Outcome
  on_token (valid claims) rest =
      send_then (encode (auth_ok claims.sub)) ([], authenticated claims rest)
  on_token (invalid e) rest = let msg = "auth failed: " ⧺ e in refuse 401 msg msg

  -- `later` is what the handshake does with the messages that follow.
  abbrev pub on_frame : Frame → List Inbound → List Bytes × Outcome → List Bytes × Outcome
  on_frame f rest later =
      if f.frame_type == heartbeat_type
      then send_then (encode heartbeat) later
      else if f.frame_type == auth_type
      then on_token (validate_jwt crates (token_of (get_field f.body "token")) config) rest
      else refuse 401 "auth required" "auth required — unexpected frame before AUTH"

  abbrev pub on_decoded : Option Frame → List Inbound → List Bytes × Outcome → List Bytes × Outcome
  on_decoded none rest later = refuse 401 "bad frame during auth" "decode error"
  on_decoded (some f) rest later = on_frame f rest later

  unfoldable pub auth_handshake : List Inbound → List Bytes × Outcome
  auth_handshake [] = ([], refused "connection closed before auth")
  auth_handshake (binary bytes ∷ rest) =
      let later = auth_handshake rest in
      if ltb max_frame_bytes (length bytes)
      then refuse 413 "frame too large" "frame too large during auth"
      else on_decoded (decode bytes) rest later
  auth_handshake (ping payload ∷ rest) = send_then (encode heartbeat) (auth_handshake rest)
  auth_handshake (pong ∷ rest) = auth_handshake rest
  auth_handshake (closed ∷ rest) = ([], refused "connection closed before auth")
  auth_handshake (other ∷ rest) = auth_handshake rest
