-- ===== src/Cluster.antt =====
-- src/cluster.rs: what a node tells Redis, what it does with the messages of other nodes, and what
-- it loads at its start. Redis itself is outside: a task gives the commands that it issues.
pub mod Replication
use sodp.Base.{
  ℕ, String, Bool, true, false, Option, none, some, List, [], ◌∷◌, ◌++◌, str_eq, ◌==◌,
  if◌then◌else◌,
}
use sodp.Base.Text.{◌⧺◌}
use Prim.Native.Char.{code}
use sodp.Json.{Value}
use sodp.Frame.{Bytes}
use sodp.Fanout.{FanoutBus, Handles, broadcast_encoded}
use sodp.Server.{SyncMsg, sync, sync_delete}

-- rmp_serde on `(version, value)` and on `(node_id, body_mp)`, and `String::from_utf8`.
pub record Codecs : Type 0 where
  pub encode_entry : ℕ × Value → Option Bytes
  pub decode_entry : Bytes → Option (ℕ × Value)
  pub encode_message : String × Bytes → Option Bytes
  pub decode_message : Bytes → Option (String × Bytes)
  pub from_utf8 : Bytes → Option String

-- The commands that change `sodp:state`, and `PUBLISH`.
pub data Command : Type 0 where
  hset : String → Bytes → Command
  hdel : String → Command
  publish_to : String → Bytes → Command

abbrev pub channel_prefix : String
channel_prefix = "sodp:delta:"

abbrev pub published : String → Option Bytes → List Command
published channel none = []
published channel (some msg) = publish_to channel msg ∷ []

-- `key = channel.strip_prefix(prefix)`
unfoldable pub strip_prefix : String → String → Option String
strip_prefix s String.[] = some s
strip_prefix String.[] (String.◌∷◌ d prefix) = none
strip_prefix (String.◌∷◌ c s) (String.◌∷◌ d prefix) =
    let rest = strip_prefix s prefix in if code c == code d then rest else none

abbrev pub or_channel : String → Option String → String
or_channel channel none = channel
or_channel channel (some key) = key

-- What the subscriber's `select!` wakes up to; a channel or payload that cannot be read is none.
pub data Notice : Type 0 where
  message : Option String → Option Bytes → Notice
  stream_ended : Notice
  shutdown : Notice

-- The entries of `hgetall` that decode.
abbrev pub kept_entry :
    Option String → Option (ℕ × Value) → List (String × ℕ × Value) → List (String × ℕ × Value)
kept_entry none entry out = out
kept_entry (some key) none out = out
kept_entry (some key) (some (version, value)) out = (key, version, value) ∷ out

module _ (codecs : Codecs) where
  open codecs use {encode_entry, decode_entry, encode_message, decode_message, from_utf8}

  unfoldable pub load_state : List (Bytes × Bytes) → List (String × ℕ × Value)
  load_state [] = []
  load_state ((k_bytes, v_bytes) ∷ raw) =
      kept_entry (from_utf8 k_bytes) (decode_entry v_bytes) (load_state raw)

  module _ (node_id : String) where
    abbrev pub publish_body : String → Bytes → List Command
    publish_body key body_mp = published (channel_prefix ⧺ key) (encode_message (node_id, body_mp))

    -- The task that `sync` or `sync_delete` spawns. A command that fails is logged and not
    -- repeated, and the task goes on.
    unfoldable pub sync_task : SyncMsg → List Command
    sync_task (sync key version value body_mp) = elim (encode_entry (version, value)) [
      | none ↦ []
      | some encoded ↦ hset key encoded ∷ publish_body key body_mp
    ]
    sync_task (sync_delete key body_mp) = hdel key ∷ publish_body key body_mp

    abbrev pub on_message :
        String → Option (String × Bytes) → FanoutBus → Handles → FanoutBus × Handles
    on_message key none fanout hs = (fanout, hs)
    on_message key (some (sender_id, body_mp)) fanout hs =
        if str_eq sender_id node_id
        then (fanout, hs)
        else broadcast_encoded fanout hs key body_mp none

    unfoldable pub handle_pubsub_message :
        Option String → Option Bytes → FanoutBus → Handles → FanoutBus × Handles
    unfolding strip_prefix
    handle_pubsub_message none payload fanout hs = (fanout, hs)
    handle_pubsub_message (some channel) none fanout hs = (fanout, hs)
    handle_pubsub_message (some channel) (some payload) fanout hs =
        on_message (or_channel channel (strip_prefix channel channel_prefix))
          (decode_message payload) fanout hs

    unfoldable pub run_subscriber_loop : List Notice → FanoutBus → Handles → FanoutBus × Handles
    unfolding handle_pubsub_message
    run_subscriber_loop [] fanout hs = (fanout, hs)
    run_subscriber_loop (stream_ended ∷ notices) fanout hs = (fanout, hs)
    run_subscriber_loop (shutdown ∷ notices) fanout hs = (fanout, hs)
    run_subscriber_loop (message channel payload ∷ notices) fanout hs =
        let (fanout', hs') = handle_pubsub_message channel payload fanout hs in
        run_subscriber_loop notices fanout' hs'
