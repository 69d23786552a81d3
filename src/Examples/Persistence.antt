-- ===== src/Examples/Persistence.antt =====
-- A persistent store that is written, cut off by a crash, opened again and written again.
use sodp.Base.{
  ℕ, ◌+◌, ◌*◌, ◌≡◌, ◌≤◌, refl, Option, none, some, List, [], ◌∷◌, ◌==◌, arith, is_empty, length,
  if◌then◌else◌,
}
use sodp.Base.Dict
use sodp.Base.IdMap
use sodp.Json.{Value, null, WellFormed}
use sodp.Frame.{Bytes}
use sodp.Delta.{DeltaOp, add, remove, removed_keys, diff, diff_at}
use sodp.Packed.{serialize_op, deserialize_ops, deserialize_op, deserialize_option, IsPlainOp}
use sodp.Log
use sodp.Log.{LogEntry, Packed, serialize, Codec, SegmentedLog}
use sodp.Log.Opening
use sodp.State
use sodp.Json
use sodp.Log.Recovery.{Writes}
use sodp.State.{StateEntry, get, delete, open_store, ops_for}
use sodp.State.Resume.{removal}
use sodp.State.Changes.{entry_for}
use sodp.State.Undeleted.{delete_undone}
use sodp.State.CatchUp.{value_of}
use sodp.State.Persistence.{
  Event, set, restart, step, run, CanRun, Writable, run-map_after, run-few_files,
}
use sodp.Examples.Values.{
  old_doc, longer_doc, old_doc-WellFormed, longer_doc-WellFormed, old_doc-SafeKeys,
  longer_doc-SafeKeys,
}

abbrev doc_entry : ℕ → List DeltaOp → Value → LogEntry
doc_entry version ops value = record { version = version; key = "doc"; ops = ops; value = value }

-- A codec that knows the entries of the run, two writes and two snapshots, and that of a delete.
abbrev decode_byte : ℕ → Option LogEntry
decode_byte n =
    if n == 2
    then some (doc_entry 1 (add "/" old_doc ∷ []) old_doc)
    else if n == 3
    then some (doc_entry 1 [] old_doc)
    else if n == 4
    then some (doc_entry 2 (diff old_doc longer_doc) longer_doc)
    else if n == 5
    then some (doc_entry 2 [] longer_doc)
    else if n == 6
    then some (doc_entry 3 (remove "/" ∷ []) null)
    else none

abbrev decode : Bytes → Option Packed
decode (n ∷ []) = elim (decode_byte n) [ none ↦ none | some e ↦ some (serialize e) ]
decode _ = none

abbrev codec : Codec
codec = record {
  write = λ p. some ((2 * p.version + (if is_empty p.ops then 1 else 0)) ∷ []);
  read = decode;
}

abbrev events : List Event
events = set "doc" old_doc ∷ restart (1 ∷ 0 ∷ 0 ∷ []) ∷ set "doc" longer_doc ∷ []

-- The bytes of an entry, where it is one that the codec knows.
known :
    (e : LogEntry) (n : ℕ)
    → codec.write (serialize e) ≡ some (n ∷ [])
    → codec.read (n ∷ []) ≡ some (serialize e)
    → Writable codec e
known e n t d = (n ∷ [], record { written = t; read_back = d; fits = omega arith })

events-CanRun : CanRun codec (open_store codec []) events
unfolding CanRun open_store Log.open_log Log.list_segments Log.replay_all Log.append Log.write_entry
    Log.read_entry Log.needs_compact Log.compact Opening.crash Dict.get Dict.insert Dict.remove
    IdMap.get IdMap.insert State.apply State.delete State.persist diff diff_at Json.get
    Json.Value-discrete Log.to_vec Log.from_slice Log.serialize Log.deserialize serialize_op
    deserialize_ops deserialize_op deserialize_option IsPlainOp removed_keys Json.contains_key
events-CanRun = (
  (
    (old_doc-WellFormed, old_doc-SafeKeys),
    ((_, refl, refl), tt),
    (known _ 2 refl refl, (known _ 3 refl refl, tt)),
  ),
  (
    (8 ∷ [], 3, omega arith, omega arith, refl),
    (
      (
        (longer_doc-WellFormed, longer_doc-SafeKeys),
        ((_, refl, refl), ((_, refl, refl), tt)),
        (known _ 4 refl refl, (known _ 5 refl refl, tt)),
      ),
      tt,
    ),
  ),
)

run-map_after_example : value_of (get (run codec (open_store codec []) events) "doc") ≡ longer_doc
run-map_after_example = run-map_after codec events (omega arith) events-CanRun "doc"

-- The two records of the run in one segment.
abbrev plog : SegmentedLog
plog = record {
  files = (0, 1 ∷ 0 ∷ 0 ∷ 0 ∷ 2 ∷ 1 ∷ 0 ∷ 0 ∷ 0 ∷ 4 ∷ []) ∷ [];
  current_seg = 0;
  writer = 0;
  entry_count = 2;
  segment_count = 1;
}

run-plog : (run codec (open_store codec []) events).plog ≡ some plog
unfolding run open_store Log.open_log Log.list_segments Log.replay_all Log.append Log.write_entry
    Log.read_entry Log.needs_compact Log.compact Opening.crash Dict.get Dict.insert Dict.remove
    IdMap.get IdMap.insert State.apply State.delete State.persist diff diff_at Json.get
    Json.Value-discrete Log.to_vec Log.from_slice Log.serialize Log.deserialize serialize_op
    deserialize_ops deserialize_op deserialize_option
run-plog = refl

run-few_files_example : length plog.files ≤ 3
run-few_files_example = run-few_files codec events plog (omega arith) events-CanRun run-plog

abbrev stored : StateEntry
stored = record { version = 2; value = longer_doc }

run-stored : get (run codec (open_store codec []) events) "doc" ≡ some stored
unfolding get run open_store Log.open_log Log.list_segments Log.replay_all Log.append
    Log.write_entry Log.read_entry Log.needs_compact Log.compact Opening.crash Dict.get Dict.insert
    Dict.remove IdMap.get IdMap.insert State.apply State.delete State.persist diff diff_at Json.get
    Json.Value-discrete Log.to_vec Log.from_slice Log.serialize Log.deserialize serialize_op
    deserialize_ops deserialize_op deserialize_option
run-stored = refl

run-Writes :
    Writes codec (entry_for (run codec (open_store codec []) events) (removal "doc")) (6 ∷ [])
unfolding run open_store Log.open_log Log.list_segments Log.replay_all Log.append Log.write_entry
    Log.read_entry Log.needs_compact Log.compact Opening.crash Dict.get Dict.insert Dict.remove
    IdMap.get IdMap.insert State.apply State.delete State.persist diff diff_at Json.get
    Json.Value-discrete Log.to_vec Log.from_slice Log.serialize Log.deserialize serialize_op
    deserialize_ops deserialize_op deserialize_option
run-Writes = record { written = refl; read_back = refl; fits = omega arith }

-- After the delete a record follows that would decode.
delete_undone_example :
    let st = run codec (open_store codec []) events in
    value_of (get (step codec (delete codec st "doc").0 (restart (1 ∷ 0 ∷ 0 ∷ 0 ∷ 5 ∷ []))) "doc")
    ≡ value_of (get st "doc")
delete_undone_example =
    delete_undone codec events plog "doc" stored (6 ∷ []) (1 ∷ 0 ∷ 0 ∷ 0 ∷ 5 ∷ []) (omega arith)
      events-CanRun run-plog (omega arith) run-stored run-Writes "doc"
