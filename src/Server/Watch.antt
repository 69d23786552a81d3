-- ===== src/Server/Watch.antt =====
-- src/server.rs: WATCH, UNWATCH and RESUME.
use sodp.Base.{ℕ, String, Bool, Option, none, some, List, [], ◌∷◌, ltb, if◌then◌else◌, not}
use sodp.Base.Text.{◌⧺◌}
use sodp.Json.{Value, Items, nil, cons, pos_int, num, str, arr, get_field, as_str}
use sodp.Frame.{Frame, bytes, delta_bytes}
use sodp.Session.{allow_optional, watch_stream_id, remove_watch}
use sodp.Fanout.{unsubscribe}
use sodp.State.{Delta, deltas_since}
use sodp.Session
use sodp.Server.{
  Config, Connection, send_msg, reply_error, may_read, open_stream, send_state_init, subscribe_key,
}

-- `filter_map(|v| v.as_str())`
unfoldable pub texts : Items → List String
texts nil = []
texts (cons (str s) rest) = s ∷ texts rest
texts (cons _ rest) = texts rest

abbrev single_key : Option Value → Option (List String)
single_key (some (str k)) = some (k ∷ [])
single_key _ = none

-- The keys of a frame: the array `states` comes before the text `state`.
abbrev states_or : Option Value → Option Value → Option (List String)
states_or (some (arr items)) state = some (texts items)
states_or _ state = single_key state

unfoldable pub keys_of : Value → Option (List String)
unfolding texts
keys_of body = states_or (get_field body "states") (get_field body "state")

-- One request of the watch limiter.
abbrev pub take_watch_slot : ℕ → Connection → Connection × Bool
take_watch_slot now c =
    let (limiter, passed) = allow_optional now c.session.watch_limiter in
    (record c { session = record c.session { watch_limiter = limiter } }, passed)

unfoldable pub watch_keys : Config → Connection → Option Value → List String → Connection
watch_keys cfg c params [] = c
watch_keys cfg c params (key ∷ rest) =
    watch_keys cfg
      (if may_read cfg c.session key
        then subscribe_key c key params
        else reply_error c 0 403 ("forbidden: " ⧺ key))
      params rest

unfoldable pub handle_watch : Config → ℕ → Frame → Connection → Connection
unfolding watch_keys
handle_watch cfg now f c =
    let (c', passed) = take_watch_slot now c in
    if not passed
    then reply_error c' f.stream_id 429 "rate limit exceeded"
    else elim (keys_of f.body) [
      | none ↦ reply_error c' f.stream_id 400 "WATCH: missing 'state' or 'states' key"
      | some keys ↦ watch_keys cfg c' (get_field f.body "params") keys
    ]

abbrev pub unwatch_key : Connection → String → Connection
unwatch_key c key = elim (watch_stream_id c.session key) [
  | none ↦ c
  | some stream_id ↦ record c {
    session = (remove_watch c.session stream_id).0;
    fanout = unsubscribe c.fanout key c.session.id;
  }
]

unfoldable pub unwatch_keys : Connection → List String → Connection
unwatch_keys c [] = c
unwatch_keys c (key ∷ rest) = unwatch_keys (unwatch_key c key) rest

unfoldable pub handle_unwatch : Frame → Connection → Connection
unfolding unwatch_keys
handle_unwatch f c = elim (keys_of f.body) [ none ↦ c | some keys ↦ unwatch_keys c keys ]

-- `v.as_u64()`, or 0
abbrev pub as_u64_or_zero : Option Value → ℕ
as_u64_or_zero (some (num (pos_int n))) = n
as_u64_or_zero _ = 0

-- Every delta that the client missed, each under its own sequence number.
unfoldable pub replay_deltas : Config → Connection → ℕ → List Delta → Connection
replay_deltas cfg c stream_id [] = c
replay_deltas cfg c stream_id ((version, ops) ∷ rest) =
    let (s, seq) = Session.next_seq c.session in
    let body_mp = cfg.encode_delta_body version ops in
    replay_deltas cfg
      (send_msg (record c { session = s }) (bytes (delta_bytes stream_id seq body_mp))) stream_id
      rest

abbrev pub resume_key : Config → Connection → String → ℕ → Option Value → Connection
resume_key cfg c key since_version params =
    let (c', stream_id) = open_stream c key params in
    let missed = if ltb 0 since_version then deltas_since c'.state key since_version else [] in
    send_state_init (replay_deltas cfg c' stream_id missed) stream_id key params

unfoldable pub handle_resume : Config → ℕ → Frame → Connection → Connection
unfolding replay_deltas
handle_resume cfg now f c =
    let (c', passed) = take_watch_slot now c in
    if not passed
    then reply_error c' f.stream_id 429 "rate limit exceeded"
    else elim (as_str (get_field f.body "state")) [
      | none ↦ reply_error c' f.stream_id 400 "RESUME: missing 'state' key"
      | some key ↦
          if may_read cfg c'.session key
          then resume_key cfg c' key (as_u64_or_zero (get_field f.body "since_version"))
              (get_field f.body "params")
          else reply_error c' f.stream_id 403 "forbidden"
    ]
