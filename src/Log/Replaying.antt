-- ===== src/Log/Replaying.antt =====
-- What a segment replays to after one more `append`.
use sodp.Base.{
  ℕ, ◌+◌, subst, All-append, ◌<◌, ◌≡◌, refl, ap, ◌∙◌, true, some, List, [], ◌∷◌, ◌++◌, arith,
  append-nil, ◌==◌, if◌then◌else◌,
}
use sodp.Base.IdMap
use sodp.Base.IdMap.{get-insert}
use sodp.Frame.{Bytes}
use sodp.Log.{
  to_vec, LogEntry, Codec, write_entry, replay_segment, SegmentedLog, max_entries_per_segment,
  append,
}
use sodp.Log.Recovery.{
  Encodes, Writes, IsPlain, Writes-Encodes, Encoded, record_of, records, entries,
  replay_segment_whole, records-append, entries-append,
}

module _ (codec : Codec) where
  replay-snoc :
      (es : List (LogEntry × Bytes)) (e : LogEntry) (payload : Bytes)
      → Encoded codec es
      → Encodes codec e payload
      → replay_segment codec (records codec es ++ record_of codec payload)
        ≡ (entries codec es ++ e ∷ [], records codec es ++ record_of codec payload)
  replay-snoc es e payload h k =
      let r = (e, payload) ∷ [] in
      let bytes =
        records-append codec es r
        ∙ ap (λ b. records codec es ++ b) (append-nil (record_of codec payload)) in
      subst (λ b. replay_segment codec b ≡ (entries codec es ++ e ∷ [], b)) bytes
        (replay_segment_whole codec (es ++ r) (All-append _ es r h (k, tt))
          ∙ ap (λ l. (l, records codec (es ++ r))) (entries-append codec es r))

  pub append_lem :
      (log : SegmentedLog) (file : Bytes) (e : LogEntry) (payload : Bytes)
      → IdMap.get log.files log.writer ≡ some file
      → to_vec codec e ≡ some payload
      → log.entry_count < max_entries_per_segment
      → append codec log e ≡ (
        record log {
          files = IdMap.insert log.files log.writer (file ++ record_of codec payload);
          entry_count = log.entry_count + 1;
        },
        true,
      )
  unfolding append write_entry
  append_lem log file e payload f t c = ground arith

  -- `append` of an entry whose ops all have a value that is not null, where the segment that the
  -- writer has open is not full and holds whole records that decode: it succeeds, no other segment
  -- changes, and this one then replays to its earlier entries and the new one. `rmp_serde` writes the entry in fewer than
  -- 4 GiB and reads what it wrote.
  pub append-replay_segment :
      (log : SegmentedLog) (es : List (LogEntry × Bytes)) (e : LogEntry) (payload : Bytes)
      → IdMap.get log.files log.writer ≡ some (records codec es)
      → log.entry_count < max_entries_per_segment
      → Encoded codec es
      → IsPlain codec e
      → Writes codec e payload
      → let (log', done) = append codec log e in
        let file' = records codec es ++ record_of codec payload in
        (done ≡ true)
        × ((seg : ℕ)
            → IdMap.get log'.files seg
              ≡ (if log.writer == seg then some file' else IdMap.get log.files seg))
        × (replay_segment codec file' ≡ (entries codec es ++ e ∷ [], file'))
  append-replay_segment log es e payload f c h plain w =
      let k = Writes-Encodes codec e payload plain w in
      rw (append_lem log (records codec es) e payload f k.encodes c) (
        refl,
        (λ seg. get-insert log.files log.writer seg (records codec es ++ record_of codec payload)),
        replay-snoc es e payload h k,
      )
