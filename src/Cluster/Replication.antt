-- ===== src/Cluster/Replication.antt =====
-- A change that one node hands over reaches the watchers at every other node.
use sodp.Base.{
  String, ◌≡◌, refl, ◌∙◌, Bool, inl, inr, Bool-cases, if◌then◌else◌, none, some, List, [], ◌∷◌,
  ◌++◌, str_eq, All,
}
use sodp.Base.Text.{◌⧺◌}
use sodp.Frame.{Bytes}
use sodp.Fanout.{FanoutBus, Handles, broadcast_encoded}
use sodp.Server.{SyncMsg, sync, sync_delete}
use sodp.Cluster.{
  Codecs, Command, hset, hdel, publish_to, channel_prefix, Notice, message, sync_task,
  handle_pubsub_message, run_subscriber_loop,
}

abbrev pub key_of : SyncMsg → String
key_of (sync key version value body_mp) = key
key_of (sync_delete key body_mp) = key

abbrev pub body_of : SyncMsg → Bytes
body_of (sync key version value body_mp) = body_mp
body_of (sync_delete key body_mp) = body_mp

-- What the subscribers of every node get to see of some commands.
abbrev pub notices_of : List Command → List Notice
notices_of [] = []
notices_of (hset key encoded ∷ commands) = notices_of commands
notices_of (hdel key ∷ commands) = notices_of commands
notices_of (publish_to channel msg ∷ commands) =
    message (some channel) (some msg) ∷ notices_of commands

-- The broadcasts of some changes, one after the other.
abbrev pub broadcast_all : List SyncMsg → FanoutBus → Handles → FanoutBus × Handles
broadcast_all [] fanout hs = (fanout, hs)
broadcast_all (msg ∷ rest) fanout hs =
    let (fanout', hs') = broadcast_encoded fanout hs (key_of msg) (body_of msg) none in
    broadcast_all rest fanout' hs'

module _ (codecs : Codecs) where
  open codecs use {encode_entry, encode_message, decode_message}

  -- The commands of some changes, each with the node that it was made at.
  abbrev pub commands_of : List (String × SyncMsg) → List Command
  commands_of [] = []
  commands_of ((origin, msg) ∷ rest) = sync_task codecs origin msg ++ commands_of rest

  abbrev pub IsEncodable : SyncMsg → Type 0
  IsEncodable (sync key version value body_mp) =
      (b : Bytes) × (encode_entry (version, value) ≡ some b)
  IsEncodable (sync_delete key body_mp) = Unit

  -- rmp_serde encodes the change, and reads its own message back.
  pub record Encodes (change : String × SyncMsg) : Type 0 where
    pub entry : IsEncodable change.1
    pub msg : Bytes
    pub encoded : encode_message (change.0, body_of change.1) ≡ some msg
    pub decoded : decode_message msg ≡ some (change.0, body_of change.1)

  notices_of-sync_task :
      (origin : String) (msg : SyncMsg) (rest : List Command)
      → (e : Encodes (origin, msg))
      → notices_of (sync_task codecs origin msg ++ rest)
        ≡ message (some (channel_prefix ⧺ key_of msg)) (some e.msg) ∷ notices_of rest
  unfolding sync_task
  notices_of-sync_task origin (sync key version value body_mp) rest e =
      rw (e.entry.1, notices_of, sync_task) (rw (e.encoded, notices_of) refl)
  notices_of-sync_task origin (sync_delete key body_mp) rest e =
      rw (e.encoded, notices_of, sync_task) refl

  module _ (node_id : String) where
    -- The changes that were made at other nodes.
    abbrev pub from_others : List (String × SyncMsg) → List SyncMsg
    from_others [] = []
    from_others ((origin, msg) ∷ rest) =
        if str_eq origin node_id then from_others rest else msg ∷ from_others rest

    message_handled :
        (origin : String) (msg : SyncMsg) (rest : List Notice) (fanout : FanoutBus) (hs : Handles)
        → (e : Encodes (origin, msg)) → (b : Bool) → str_eq origin node_id ≡ b
        → run_subscriber_loop codecs node_id
            (message (some (channel_prefix ⧺ key_of msg)) (some e.msg) ∷ rest)
            fanout
            hs
          ≡ (let (fanout', hs') =
                if b
                then (fanout, hs)
                else broadcast_encoded fanout hs (key_of msg) (body_of msg) none in
              run_subscriber_loop codecs node_id rest fanout' hs')
    unfolding run_subscriber_loop handle_pubsub_message
    message_handled origin msg rest fanout hs e b same = rw e.decoded (rw same refl)

    -- Of the changes of all nodes, in the order in which Redis publishes their messages, the loop of
    -- a node broadcasts to its own watchers exactly the bodies of those that other nodes made, each
    -- under its key and in this order, if rmp_serde encodes them and reads its messages back.
    pub run_subscriber_loop-replicates :
        (changes : List (String × SyncMsg)) (fanout : FanoutBus) (hs : Handles)
        → All Encodes changes
        → run_subscriber_loop codecs node_id (notices_of (commands_of changes)) fanout hs
          ≡ broadcast_all (from_others changes) fanout hs
    unfolding run_subscriber_loop
    run_subscriber_loop-replicates [] fanout hs all = refl
    run_subscriber_loop-replicates ((origin, msg) ∷ rest) fanout hs all =
        rw (notices_of-sync_task origin msg (commands_of rest) all.0) (
          message_handled origin msg (notices_of (commands_of rest)) fanout hs all.0 _ refl
          ∙ (elim (Bool-cases (str_eq origin node_id)) [
            | inl own ↦ rw own (run_subscriber_loop-replicates rest fanout hs all.1)
            | inr other ↦ rw other (run_subscriber_loop-replicates rest _ _ all.1)
          ]))
