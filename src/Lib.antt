-- ===== src/Lib.antt =====
-- The SODP server: JSON values under string keys, which clients read, watch and change over
-- frames, and whose changes reach the watchers as structural deltas.
--
-- The parts, and the files that model them:
-- - Json: the values of serde_json that the server keeps. A map is a list of fields in the order
--   of its keys. A number is a natural, a negative integer or the bits of a float.
-- - Paths: `json_set_in`, `json_remove_in` and `json_merge` of src/server.rs, on path segments.
-- - Delta: src/delta.rs, `diff` with its two loops over the fields of two objects. Its children
--   read the paths back and apply the ops.
-- - Packed: the derived serialisation of the ops of src/delta.rs, as MessagePack arrays. An op
--   without a value is an array of two, which does not read as an op.
-- - Frame: src/frame.rs, the frames and the bytes that `delta_bytes` writes.
-- - Session: src/session.rs, the watches, presence paths, counters and rate limiters of one
--   connection. A time is a number of nanoseconds that the caller gives.
-- - Fanout: src/fanout.rs and `send` of src/write_pool.rs. A write handle is known by a number;
--   behind it stands a bounded queue, which a broadcast fills.
-- - WritePool: src/write_pool.rs in pool mode, one handle with the threads that send to it and the
--   workers that drain it, as a step relation: every interleaving of their atomic operations, where a
--   load may give an older value. Task is the write task of the task mode.
-- - Log: src/log.rs, the segmented log over the contents of its directory. Its children see the
--   directory as a list of segments, and follow this list through `append`, `compact` and `open`.
-- - State: src/state.rs, the entries, the global version, the deltas kept for RESUME and the
--   persistent log, by `apply`, `delete`, `load_entries` and `open`. Resume is what a client makes of
--   the deltas; Newest to Persistence compare the store with the newest entries of its log, over
--   writes and restarts, and Undeleted over a delete.
-- - Acl: src/acl.rs, the first rule that matches a key, and its permission against the claims.
-- - Schema: src/schema.rs, the validation of a value by the schema of its key.
-- - Server: the handlers of src/server.rs. A `Connection` is the shared state (store, bus, queues,
--   what was handed to the cluster) with one session; a handler takes it and returns it changed.
--   A CALL passes the limiter, then the ACL, then the schema; `apply` stores the value; `publish`
--   sends the delta to the other sessions, to this one if it watches the key, and to the cluster.
--   Handshake is `auth_handshake` over the messages of the socket. Lifecycle is `handle_connection`:
--   HELLO, the handshake, the event loop over the events that wake it, and the end of the session.
--   Between two events other connections may leave the shared state as they like. Startup reads the
--   environment, a function from names to texts, and builds the server; Listener is `listen`, the
--   steps of the accept loop and of the tasks that it spawns on the counter of connections. Launch is
--   the part of src/main.rs that picks the server and loads the state from Redis.
--   Watching is what a write adds to a watcher's queue, Following what a client makes of the deltas
--   that it gets, and Snapshot what it has from the STATE_INIT on.
--   Effects is a rule for what a CALL does to a connection; Tracking to Watched follow the copy of a
--   watcher over the CALLs of other sessions, where its queue may overflow. Departure and Unwatching
--   are what the end of a session and an UNWATCH leave on the bus.
-- - Cluster: src/cluster.rs, the commands that the tasks of `sync` and `sync_delete` issue to Redis,
--   the subscriber that broadcasts what other nodes publish, and the state loaded at the start.
-- - Middleware: sodp-middleware/src/rate.rs, a second limiter, which counts refused requests too,
--   and sodp-middleware/src/acl.rs, rules whose patterns are globs. A panic is an outcome there.
-- - Examples: concrete documents, stores and frames.
-- - Base: the names and lemmas that the others share.
--
-- Bounds and fuel. Versions and sequence numbers wrap at 2^64, stream ids at 2^32. The loop over a
-- log file runs on the length of the file: a record takes four bytes at least. A key keeps 1000
-- deltas, a segment 100000 entries.
--
-- Parameters. What `rmp_serde` does with the arrays of a log entry is a `Codec`; that it reads what
-- it wrote, in fewer than 4 GiB, is `Writes`. The theorems on restarts take only entries whose ops
-- all have a value (`IsPlain`): an entry with a REMOVE op is not read back, and a delete or a write
-- that drops a field does not outlast a restart, nor does what its segment holds after it. The encoder
-- of a delta's body is a field of `Config`. What the handshake takes from rmp_serde and
-- jsonwebtoken are the functions of `Crates`, what the cluster takes from rmp_serde those of
-- `Codecs`. What a client reads a delta's body with is an argument of `follow`, and `Decodes`
-- says that it gives the ops back. The environment, the files and the fresh UUID are arguments.
--
-- Not modelled: sockets, metrics and tracing; Redis itself, whose commands are only listed; the
-- health and metrics servers of src/main.rs, src/bin and the benches; the reading and parsing of
-- ACL and schema files. Reads and writes of the file system and writes to the socket succeed,
-- except in the write pool and the write task. The event loop and the listener take what wakes
-- them as a list or as steps, so that timers have no durations. A panic of a connection's task is
-- the end of the connection. Operations of the store are
-- single steps: two writers are not interleaved. A crash cuts off the record of an append; one in
-- the middle of a rotation or a compaction is left out. Maps that hash their keys are lists here, in the order of insertion.
pub mod Base
pub mod Json
pub mod Paths
pub mod Delta
pub mod Packed
pub mod Frame
pub mod Session
pub mod Fanout
pub mod WritePool
pub mod Log
pub mod State
pub mod Acl
pub mod Schema
pub mod Server
pub mod Cluster
pub mod Middleware
pub mod Examples
