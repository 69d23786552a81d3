-- ===== src/State/Undeleted.antt =====
-- A delete of a persistent store, and the store that is opened after it.
use sodp.Base.{
  ◌+◌, ◌<◌, ◌^◌, ◌≤◌, ◌≡◌, refl, ap, sym, ◌∙◌, subst, String, true, false, some, some-injective,
  List, [], ◌++◌, arith, inl, inr, length, append_assoc,
}
use sodp.Base.IdMap
use sodp.Base.IdMap.{get-insert, insert-insert}
use sodp.Frame.{Bytes}
use sodp.Packed.{HasRemoval}
use sodp.Log.{
  LogEntry, Codec, SegmentedLog, file_of, needs_compact, max_entries_per_segment,
  max_segments_before_compact, append, to_vec,
}
use sodp.Log.Recovery.{Writes, record_of, records}
use sodp.Log.Removal.{read_entry-removal}
use sodp.Log.Replaying.{append_lem}
use sodp.Log.Segments.{Torn}
use sodp.Log.Opening.{crash, writer_file}
use sodp.State.{StateEntry, StateStore, get, persist, delete, open_store}
use sodp.State.CatchUp.{value_of}
use sodp.State.Resume.{removal}
use sodp.State.Durable.{values_of, IsDurable}
use sodp.State.Changes.{entry_for}
use sodp.State.Restarts.{reopened-IsDurable}
use sodp.State.Persistence.{Event, restart, step, run, CanRun, run_empty-IsMap}

module _ (codec : Codec) (plog : SegmentedLog) (file : Bytes) (e : LogEntry) (payload : Bytes)
    (open_file : IdMap.get plog.files plog.writer ≡ some file)
    (room : plog.entry_count < max_entries_per_segment)
    (few : plog.segment_count ≤ max_segments_before_compact) (w : Writes codec e payload) where
  abbrev appended : SegmentedLog
  appended = record plog {
    files = IdMap.insert plog.files plog.writer (file ++ record_of codec payload);
    entry_count = plog.entry_count + 1;
  }

  append-appended : append codec plog e ≡ (appended, true)
  append-appended = append_lem codec plog file e payload open_file (unfold to_vec in w.written) room

  persist-appended :
      (st : StateStore) → st.plog ≡ some plog → (persist codec st e).plog ≡ some appended
  unfolding persist needs_compact
  persist-appended st p =
      let small : needs_compact appended ≡ false = ground arith in
      rw (p, persist) (rw append-appended (rw (small, persist) refl))

  file-appended : IdMap.get appended.files plog.writer ≡ some (file ++ record_of codec payload)
  file-appended =
      rw (get-insert plog.files plog.writer plog.writer (file ++ record_of codec payload))
        (ground arith)

  file_of-appended : file_of codec appended ≡ file ++ record_of codec payload
  file_of-appended = rw (file-appended, file_of) refl

  file_of-plog : file_of codec plog ≡ file
  file_of-plog = rw (open_file, file_of) refl

  -- Bytes after the record are bytes after the file.
  crash-appended :
      (later : Bytes)
      → crash codec appended later ≡ crash codec plog (record_of codec payload ++ later)
  unfolding crash
  crash-appended later =
      let with_record = file ++ record_of codec payload in
      let put = IdMap.insert plog.files plog.writer in
      ap (λ b. IdMap.insert appended.files plog.writer (b ++ later)) file_of-appended
      ∙ (insert-insert plog.files plog.writer with_record (with_record ++ later)
          ∙ (ap put (append_assoc file (record_of codec payload) later)
              ∙ sym (ap (λ b. put (b ++ (record_of codec payload ++ later))) file_of-plog)))

module _ (codec : Codec) (st : StateStore) (d : IsDurable codec st) (k : String) (e : StateEntry)
    (payload : Bytes) (found : get st k ≡ some e)
    (room : d.plog.entry_count < max_entries_per_segment)
    (w : Writes codec (entry_for st (removal k)) payload) where
  abbrev file : Bytes
  file = records codec d.logs.es

  abbrev deleted : SegmentedLog
  deleted =
      appended codec d.plog file (entry_for st (removal k)) payload
        (writer_file codec d.plog d.logs.old d.logs.es d.logs.is) room d.logs.few w

  plog-delete : (delete codec st k).0.plog ≡ some deleted
  unfolding delete get
  plog-delete =
      rw (found, delete)
        (persist-appended codec d.plog file (entry_for st (removal k)) payload
          (writer_file codec d.plog d.logs.old d.logs.es d.logs.is) room d.logs.few w _ d.persists)

  removal-Torn : (later : Bytes) → Torn codec (record_of codec payload ++ later)
  removal-Torn later = inr (
      read_entry-removal codec (entry_for st (removal k)) payload later
        (unfold HasRemoval in inl refl) w)

  delete-restart :
      (later : Bytes) (key : String)
      → values_of (step codec (delete codec st k).0 (restart later)) key ≡ values_of st key
  delete-restart later key =
      let opens : step codec (delete codec st k).0 (restart later)
          ≡ open_store codec (crash codec deleted later) =
        rw (plog-delete, step) refl in
      let same =
        crash-appended codec d.plog file (entry_for st (removal k)) payload
          (writer_file codec d.plog d.logs.old d.logs.es d.logs.is) room d.logs.few w later in
      ap (λ s. values_of s key) (opens ∙ ap (open_store codec) same)
      ∙ (reopened-IsDurable codec st d (record_of codec payload ++ later) (removal-Torn later)).1
          key

-- A delete does not outlast a restart: after a run of writes and restarts (that logs no REMOVE op),
-- deleting a key that is there and opening the store again, whatever was appended to the segment
-- after the record of the delete, every key has the value that it had before the delete. The
-- conditions of the run are those of `run-map_after`; the segment is not full, so that the record goes there, and `rmp_serde` writes the entry of the delete in fewer
-- than 4 GiB and reads back the arrays that it wrote.
pub delete_undone :
    (codec : Codec) (evs : List Event) (plog : SegmentedLog) (k : String) (e : StateEntry)
    (payload later : Bytes)
    → length evs < 2 ^ 64
    → CanRun codec (open_store codec []) evs
    → (run codec (open_store codec []) evs).plog ≡ some plog
    → plog.entry_count < max_entries_per_segment
    → get (run codec (open_store codec []) evs) k ≡ some e
    → Writes codec (entry_for (run codec (open_store codec []) evs) (removal k)) payload
    → (key : String)
    → let st = run codec (open_store codec []) evs in
      value_of (get (step codec (delete codec st k).0 (restart later)) key) ≡ value_of (get st key)
delete_undone codec evs plog k e payload later g c is room found w key =
    let d = (run_empty-IsMap codec evs g c).durable in
    let same : d.plog ≡ plog = some-injective d.plog plog (sym d.persists ∙ is) in
    delete-restart codec (run codec (open_store codec []) evs) d k e payload found
      (subst (λ p. p.entry_count < max_entries_per_segment) (sym same) room) w later key
