-- ===== src/Frame.antt =====
-- src/frame.rs: frames, their constructors, and the wire bytes of a DELTA.
pub mod Wire
use sodp.Base.{
  ℕ, zero, suc, ◌*◌, ◌/◌, ◌%◌, ◌^◌, String, Bool, true, Option, none, some, List, [], ◌∷◌, ◌++◌,
  leb, if◌then◌else◌,
}
use sodp.Json.{Value, Fields, Number, pos_int, null, bool, num, str, obj, end, insert}

abbrev pub Bytes : Type 0
Bytes = List ℕ

-- `frame::types`
abbrev pub hello_type : ℕ
hello_type = 0x01

abbrev pub watch_type : ℕ
watch_type = 0x02

abbrev pub state_init_type : ℕ
state_init_type = 0x03

abbrev pub delta_type : ℕ
delta_type = 0x04

abbrev pub call_type : ℕ
call_type = 0x05

abbrev pub result_type : ℕ
result_type = 0x06

abbrev pub error_type : ℕ
error_type = 0x07

abbrev pub ack_type : ℕ
ack_type = 0x08

abbrev pub heartbeat_type : ℕ
heartbeat_type = 0x09

abbrev pub resume_type : ℕ
resume_type = 0x0A

abbrev pub auth_type : ℕ
auth_type = 0x0B

abbrev pub auth_ok_type : ℕ
auth_ok_type = 0x0C

abbrev pub unwatch_type : ℕ
unwatch_type = 0x0D

pub record Frame : Type 0 where
  pub frame_type : ℕ
  pub stream_id : ℕ
  pub seq : ℕ
  pub body : Value

pub data OutboundMsg : Type 0 where
  frame : Frame → OutboundMsg
  bytes : Bytes → OutboundMsg
  arc_delta : ℕ → Bytes → OutboundMsg
  ping : OutboundMsg
  pong : Bytes → OutboundMsg

-- `json!({ … })`
abbrev pub fields_of : List (String × Value) → Fields
fields_of [] = end
fields_of ((k, v) ∷ rest) = insert (fields_of rest) k v

abbrev pub json : List (String × Value) → Value
json kvs = obj (fields_of kvs)

abbrev pub number : ℕ → Value
number n = num (pos_int n)

abbrev pub or_null : Option Value → Value
or_null none = null
or_null (some v) = v

unfoldable pub hello : Bool → Value → Frame
hello auth capabilities = record {
  frame_type = hello_type;
  stream_id = 0;
  seq = 0;
  body = json (
      ("version", str "0.1")
      ∷ ("server", str "SODP-RS")
      ∷ ("auth", bool auth)
      ∷ ("capabilities", capabilities)
      ∷ []);
}

unfoldable pub auth_ok : String → Frame
auth_ok sub = record {
  frame_type = auth_ok_type;
  stream_id = 0;
  seq = 0;
  body = json (("sub", str sub) ∷ []);
}

abbrev state_init_body : String → ℕ → Value → Bool → Fields
state_init_body state_key version value initialized = fields_of (
    ("state", str state_key)
    ∷ ("version", number version)
    ∷ ("value", value)
    ∷ ("initialized", bool initialized)
    ∷ [])

abbrev with_params : Fields → Option Value → Value
with_params body none = obj body
with_params body (some p) = obj (insert body "params" p)

unfoldable pub state_init : ℕ → ℕ → String → ℕ → Value → Bool → Option Value → Frame
state_init stream_id seq state_key version value initialized params = record {
  frame_type = state_init_type;
  stream_id = stream_id;
  seq = seq;
  body = with_params (state_init_body state_key version value initialized) params;
}

unfoldable pub delta : ℕ → ℕ → ℕ → Value → Frame
delta stream_id seq version ops = record {
  frame_type = delta_type;
  stream_id = stream_id;
  seq = seq;
  body = json (("version", number version) ∷ ("ops", ops) ∷ []);
}

unfoldable pub result_ok : ℕ → ℕ → String → Option Value → Frame
result_ok stream_id seq call_id value = record {
  frame_type = result_type;
  stream_id = stream_id;
  seq = seq;
  body = json (("call_id", str call_id) ∷ ("success", bool true) ∷ ("data", or_null value) ∷ []);
}

unfoldable pub error : ℕ → ℕ → ℕ → String → Frame
error stream_id seq code message = record {
  frame_type = error_type;
  stream_id = stream_id;
  seq = seq;
  body = json (("code", number code) ∷ ("message", str message) ∷ []);
}

unfoldable pub heartbeat : Frame
heartbeat = record { frame_type = heartbeat_type; stream_id = 0; seq = 0; body = null }

-- `(v >> k) as u8`
abbrev byte_at : ℕ → ℕ → ℕ
byte_at v k = (v / 2 ^ k) % 256

-- `for i in (0..n).rev() { buf.push((v >> (i * 8)) as u8) }`
unfoldable pub push_bytes : ℕ → ℕ → Bytes
push_bytes zero v = []
push_bytes (suc i) v = byte_at v (i * 8) ∷ push_bytes i v

unfoldable pub write_uint : ℕ → Bytes
unfolding push_bytes
write_uint v =
    if leb v 0x7f
    then v % 256 ∷ []
    else if leb v 0xff
    then 0xcc ∷ v % 256 ∷ []
    else if leb v 0xffff
    then 0xcd ∷ byte_at v 8 ∷ v % 256 ∷ []
    else if leb v 0xffff_ffff
    then 0xce ∷ byte_at v 24 ∷ byte_at v 16 ∷ byte_at v 8 ∷ v % 256 ∷ []
    else 0xcf ∷ push_bytes 8 v

unfoldable pub delta_bytes : ℕ → ℕ → Bytes → Bytes
delta_bytes stream_id seq body_mp =
    0x94 ∷ delta_type ∷ (write_uint stream_id ++ (write_uint seq ++ body_mp))
