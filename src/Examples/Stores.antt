-- ===== src/Examples/Stores.antt =====
-- A store that a client leaves and comes back to, and log files that a crash has cut.
use sodp.Base.{
  inl, All, ℕ, ◌≡◌, refl, none, some, List, [], ◌∷◌, ◌++◌, true, arith, ◌==◌, if◌then◌else◌,
}
use sodp.Base.Dict
use sodp.Base.IdMap
use sodp.Frame.{Bytes}
use sodp.Delta.{remove}
use sodp.Json.{null}
use sodp.Packed.{serialize_op, HasRemoval}
use sodp.Log.{serialize, LogEntry, Codec, SegmentedLog, append, replay_segment}
use sodp.Log.Recovery.{Writes, Writes-Encodes, Encodes, record_of, records, replay_segment-torn}
use sodp.Log.Removal.{replay_segment-removal}
use sodp.Log.Replaying.{append-replay_segment}
use sodp.State
use sodp.State.{StateStore, StateEntry, deltas_since, get, log_append}
use sodp.State.Dated.{new-IsDated}
use sodp.State.CatchUp.{apply_deltas, value_of}
use sodp.State.Resume.{Change, write, removal, IsSafeChange, change_all, resume_catches_up}
use sodp.Examples.Values.{
  old_doc, new_doc, old_doc-WellFormed, new_doc-WellFormed, old_doc-SafeKeys, new_doc-SafeKeys,
}

abbrev entry : LogEntry
entry = record { version = 1; key = "doc"; ops = []; value = old_doc }

-- A codec that knows one entry.
abbrev pub codec : Codec
codec = record { write = λ p. some (7 ∷ 8 ∷ []); read = λ b. some (serialize entry) }

-- The key is written, and then another one; the client got the value at version 1.
abbrev earlier : List Change
earlier = write "doc" old_doc ∷ write "other" old_doc ∷ []

abbrev store : StateStore
store = change_all codec State.new earlier

abbrev received : StateEntry
received = record { version = 1; value = old_doc }

abbrev changes : List Change
changes = write "doc" new_doc ∷ write "other" old_doc ∷ removal "doc" ∷ write "doc" new_doc ∷ []

changes-IsSafeChange : All IsSafeChange changes
changes-IsSafeChange = (
  (new_doc-WellFormed, new_doc-SafeKeys),
  ((old_doc-WellFormed, old_doc-SafeKeys), (tt, ((new_doc-WellFormed, new_doc-SafeKeys), tt))),
)

resume_catches_up_example :
    apply_deltas old_doc (deltas_since (change_all codec store changes) "doc" 1)
    ≡ value_of (get (change_all codec store changes) "doc")
unfolding change_all get Dict.get Dict.insert State.apply State.persist log_append
resume_catches_up_example =
    resume_catches_up codec "doc" State.new earlier changes received 1 (new-IsDated "doc")
      (omega arith) refl (inl refl) (old_doc-WellFormed, old_doc-SafeKeys) changes-IsSafeChange
      (omega arith)

entry-Writes : Writes codec entry (7 ∷ 8 ∷ [])
entry-Writes = record { written = refl; read_back = refl; fits = omega arith }

entry-Encodes : Encodes codec entry (7 ∷ 8 ∷ [])
entry-Encodes = Writes-Encodes codec entry (7 ∷ 8 ∷ []) tt entry-Writes

abbrev one_record : List (LogEntry × Bytes)
one_record = (entry, 7 ∷ 8 ∷ []) ∷ []

-- A whole record of six bytes, and five bytes of another.
replay_segment-torn_example :
    replay_segment codec (2 ∷ 0 ∷ 0 ∷ 0 ∷ 7 ∷ 8 ∷ 2 ∷ 0 ∷ 0 ∷ 0 ∷ 7 ∷ [])
    ≡ (entry ∷ [], 2 ∷ 0 ∷ 0 ∷ 0 ∷ 7 ∷ 8 ∷ [])
replay_segment-torn_example =
    replay_segment-torn codec one_record (7 ∷ 8 ∷ []) 5 (entry-Encodes, tt) (omega arith)
      (omega arith)

-- A codec that knows one more entry, that of a delete.
abbrev removal_entry : LogEntry
removal_entry = record { version = 2; key = "doc"; ops = remove "/" ∷ []; value = null }

abbrev both : Codec
both = record {
  write = λ p. some ((if p.version == 1 then 7 else 9) ∷ 8 ∷ []);
  read = λ b. elim b [
    | [] ↦ none
    | n ∷ rest ↦ some (if n == 7 then serialize entry else serialize removal_entry)
  ];
}

removal-Writes : Writes both removal_entry (9 ∷ 8 ∷ [])
unfolding serialize serialize_op
removal-Writes = record { written = refl; read_back = refl; fits = omega arith }

both-Encodes : Encodes both entry (7 ∷ 8 ∷ [])
unfolding serialize
both-Encodes =
    Writes-Encodes both entry (7 ∷ 8 ∷ []) tt
      (record { written = refl; read_back = refl; fits = omega arith })

-- A record, that of the delete, and one more that would decode.
replay_segment-removal_example :
    replay_segment both (2 ∷ 0 ∷ 0 ∷ 0 ∷ 7 ∷ 8 ∷ 2 ∷ 0 ∷ 0 ∷ 0 ∷ 9 ∷ 8 ∷ 2 ∷ 0 ∷ 0 ∷ 0 ∷ 7 ∷ 8 ∷ [])
    ≡ (entry ∷ [], 2 ∷ 0 ∷ 0 ∷ 0 ∷ 7 ∷ 8 ∷ [])
unfolding HasRemoval
replay_segment-removal_example =
    replay_segment-removal both one_record removal_entry (9 ∷ 8 ∷ []) (2 ∷ 0 ∷ 0 ∷ 0 ∷ 7 ∷ 8 ∷ [])
      (both-Encodes, tt) (inl refl) removal-Writes

abbrev log : SegmentedLog
log = record {
  files = (1, records codec one_record) ∷ [];
  current_seg = 1;
  writer = 1;
  entry_count = 1;
  segment_count = 1;
}

append-replay_segment_example :
    let (log', done) = append codec log entry in
    let file' = records codec one_record ++ record_of codec (7 ∷ 8 ∷ []) in
    (done ≡ true)
    × ((seg : ℕ)
        → IdMap.get log'.files seg ≡ (if 1 == seg then some file' else IdMap.get log.files seg))
    × (replay_segment codec file' ≡ (entry ∷ entry ∷ [], file'))
append-replay_segment_example =
    append-replay_segment codec log one_record entry (7 ∷ 8 ∷ []) (unfold IdMap.get in refl)
      (omega arith) (entry-Encodes, tt) tt entry-Writes
