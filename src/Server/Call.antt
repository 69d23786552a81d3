-- ===== src/Server/Call.antt =====
-- src/server.rs: CALL and its methods.
use sodp.Base.{ℕ, String, Bool, true, Option, none, some, str_eq, if◌then◌else◌, not}
use sodp.Base.Text.{◌⧺◌}
use sodp.Json.{Value, obj, end, null, is_object, get_field, as_str, unwrap_or_null}
use sodp.Frame.{Frame}
use sodp.Session.{allow_optional, add_presence}
use sodp.Paths.{SetResult, json_set_in, json_merge}
use sodp.State
use sodp.State.{StateStore, Delta, delete}
use sodp.Schema.{Validation}
use sodp.Server.{
  Config, Connection, sync_delete, reply_error, reply_version, may_write, check_schema, publish,
  write_state, value_or,
}

-- `args.get("state").and_then(|v| v.as_str())`
abbrev pub state_arg : Value → Option String
state_arg args = as_str (get_field args "state")

-- The end of the methods that write a value: the schema's verdict, the write, the reply.
-- `before_reply` is what happens in between.
unfoldable pub store_value :
    Config → Connection → Frame → String → String → Value → (Connection → Connection) → Connection
store_value cfg c f call_id key value before_reply = elim (check_schema cfg key value) [
  | Validation.err msg ↦ reply_error c f.stream_id 422 msg
  | Validation.ok ↦
      (let (c', version) = write_state cfg c key value in
        reply_version (before_reply c') f.stream_id call_id version)
]

abbrev pub nothing : Connection → Connection
nothing c = c

unfoldable pub state_set : Config → Connection → Frame → String → Value → Connection
state_set cfg c f call_id args = elim (state_arg args) [
  | none ↦ reply_error c f.stream_id 400 ("state.set" ⧺ ": missing 'state' key")
  | some key ↦ store_value cfg c f call_id key (unwrap_or_null (get_field args "value")) nothing
]

-- The patch, if it is an object.
abbrev pub object_arg : Option Value → Option Value
object_arg none = none
object_arg (some v) = if is_object v then some v else none

unfoldable pub state_patch : Config → Connection → Frame → String → Value → Connection
state_patch cfg c f call_id args = elim (state_arg args) [
  | none ↦ reply_error c f.stream_id 400 "state.patch: missing 'state' key"
  | some key ↦ elim (object_arg (get_field args "patch")) [
    | none ↦ reply_error c f.stream_id 400 "state.patch: 'patch' must be an object"
    | some patch ↦
        store_value cfg c f call_id key
          (json_merge (value_or (obj end) (State.get c.state key)) patch) nothing
  ]
]

-- `state.set_in` and `state.presence` up to the write: `name` is the method's name.
unfoldable pub set_in_then :
    String
    → (String → String → Connection → Connection)
    → Config
    → Connection
    → Frame
    → String
    → Value
    → Connection
set_in_then name before_reply cfg c f call_id args = elim (state_arg args) [
  | none ↦ reply_error c f.stream_id 400 (name ⧺ ": missing 'state' key")
  | some key ↦ elim (as_str (get_field args "path")) [
    | none ↦ reply_error c f.stream_id 400 (name ⧺ ": missing 'path' key")
    | some path ↦
        elim (json_set_in (value_or null (State.get c.state key)) path
          (unwrap_or_null (get_field args "value"))) [
            | SetResult.err msg ↦ reply_error c f.stream_id 400 msg
            | SetResult.ok updated ↦ store_value cfg c f call_id key updated (before_reply key path)
          ]
  ]
]

unfoldable pub state_set_in : Config → Connection → Frame → String → Value → Connection
unfolding set_in_then
state_set_in = set_in_then "state.set_in" (λ key path. nothing)

abbrev pub register_presence : String → String → Connection → Connection
register_presence key path c = record c { session = add_presence c.session key path }

unfoldable pub state_presence : Config → Connection → Frame → String → Value → Connection
unfolding set_in_then
state_presence = set_in_then "state.presence" register_presence

-- The version of a delete is 0 where the key was absent.
unfoldable pub publish_deleted :
    Config → Connection → Frame → String → String → StateStore × Option Delta → Connection
publish_deleted cfg c f call_id key (st, none) =
    reply_version (record c { state = st }) f.stream_id call_id 0
publish_deleted cfg c f call_id key (st, some (version, ops)) =
    let body_mp = cfg.encode_delta_body version ops in
    reply_version (publish (record c { state = st }) key body_mp (sync_delete key body_mp))
      f.stream_id call_id version

unfoldable pub state_delete : Config → Connection → Frame → String → Value → Connection
unfolding publish_deleted
state_delete cfg c f call_id args = elim (state_arg args) [
  | none ↦ reply_error c f.stream_id 400 "state.delete: missing 'state' key"
  | some key ↦ publish_deleted cfg c f call_id key (delete cfg.codec c.state key)
]

unfoldable pub dispatch : Config → Connection → Frame → String → Value → String → Connection
dispatch cfg c f call_id args method =
    if str_eq method "state.set"
    then state_set cfg c f call_id args
    else if str_eq method "state.patch"
    then state_patch cfg c f call_id args
    else if str_eq method "state.set_in"
    then state_set_in cfg c f call_id args
    else if str_eq method "state.delete"
    then state_delete cfg c f call_id args
    else if str_eq method "state.presence"
    then state_presence cfg c f call_id args
    else reply_error c f.stream_id 404 ("unknown method: " ⧺ method)

abbrev pub take_write_slot : ℕ → Connection → Connection × Bool
take_write_slot now c =
    let (limiter, passed) = allow_optional now c.session.write_limiter in
    (record c { session = record c.session { write_limiter = limiter } }, passed)

abbrev text_or : String → Option String → String
text_or d none = d
text_or d (some s) = s

-- A call whose arguments name no key passes here; its method then finds no key either.
abbrev pub may_call : Config → Connection → Value → Bool
may_call cfg c args = elim (state_arg args) [ none ↦ true | some key ↦ may_write cfg c.session key ]

unfoldable pub handle_call : Config → ℕ → Frame → Connection → Connection
handle_call cfg now f c =
    let call_id = text_or "unknown" (as_str (get_field f.body "call_id")) in
    let args = unwrap_or_null (get_field f.body "args") in
    elim (as_str (get_field f.body "method")) [
      | none ↦ reply_error c f.stream_id 400 "CALL: missing 'method'"
      | some method ↦
          (let (c', passed) = take_write_slot now c in
            if not passed
            then reply_error c' f.stream_id 429 "rate limit exceeded"
            else if may_call cfg c' args
            then dispatch cfg c' f call_id args method
            else reply_error c' f.stream_id 403 "forbidden")
    ]
