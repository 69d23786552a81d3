-- ===== src/Log/Compaction.antt =====
-- `compact` leaves a log that holds exactly the entries of the snapshot.
use sodp.Base.{
  ℕ, suc, ◌+◌, ◌≤◌, ◌<◌, ◌≡◌, refl, ap, ◌∙◌, none, List, [], ◌∷◌, ◌++◌, arith, append-nil, All,
  true,
}
use sodp.Base.IdMap
use sodp.Base.IdMap.{IdMap}
use sodp.Frame.{Bytes}
use sodp.Log.{
  LogEntry, Codec, SegmentedLog, write_entry, write_all, list_segments, remove_segments,
  switch_over, compact,
}
use sodp.Log.Recovery.{records, Encoded, entries, Encodes}
use sodp.Log.Segments.{
  Segments, numbers, Rises, Below, files_of, contents, get-files_of_above, insert-files_of_above,
  list_segments-files_of,
}
use sodp.Log.Opening.{IsLog, written_to}
use sodp.Log.Appending.{Below-snoc, files_of-snoc}

-- The encoding of an entry, where it has one.
abbrev pub Encodable : Codec → LogEntry → Type 0
Encodable codec e = (payload : Bytes) × Encodes codec e payload

abbrev encoded_as :
    (codec : Codec) (es : List LogEntry) → All (Encodable codec) es → List (LogEntry × Bytes)
encoded_as codec [] h = []
encoded_as codec (e ∷ es) h = (e, h.0.0) ∷ encoded_as codec es h.1

module _ (codec : Codec) where
  Encoded-encoded_as :
      (es : List LogEntry) (h : All (Encodable codec) es) → Encoded codec (encoded_as codec es h)
  Encoded-encoded_as [] h = tt
  Encoded-encoded_as (e ∷ es) h = (h.0.1, Encoded-encoded_as es h.1)

  entries-encoded_as :
      (es : List LogEntry) (h : All (Encodable codec) es)
      → entries codec (encoded_as codec es h) ≡ es
  entries-encoded_as [] h = refl
  entries-encoded_as (e ∷ es) h = ap (λ l. e ∷ l) (entries-encoded_as es h.1)

  write_all-encoded_as :
      (es : List LogEntry) (h : All (Encodable codec) es)
      → write_all codec es ≡ (records codec (encoded_as codec es h), true)
  unfolding write_all write_entry
  write_all-encoded_as [] h = refl
  write_all-encoded_as (e ∷ es) h =
      rw (h.0.1.encodes, write_all) (rw (write_all-encoded_as es h.1) refl)

  -- No file has the number `n`.
  remove_absent :
      (files : IdMap Bytes) (n : ℕ) → IdMap.get files n ≡ none → IdMap.remove files n ≡ files
  unfolding IdMap.get IdMap.remove
  remove_absent [] n h = refl
  remove_absent ((m, b) ∷ files) n h = ground (arith, remove_absent files n)

  remove_head :
      (n : ℕ) (b : Bytes) (files : IdMap Bytes)
      → IdMap.get files n ≡ none
      → IdMap.remove ((n, b) ∷ files) n ≡ files
  unfolding IdMap.remove
  remove_head n b files h = ground (arith, remove_absent files n h)

  get_absent :
      (n m : ℕ) (segs : Segments) (rest : IdMap Bytes)
      → Rises n segs
      → m < n
      → IdMap.get rest m ≡ none
      → IdMap.get (files_of codec segs ++ rest) m ≡ none
  unfolding IdMap.get
  get_absent n m [] rest r l h = h
  get_absent n m ((k, es) ∷ segs) rest r l h =
      ground (arith, r.0, get_absent (suc k) m segs rest r.1 (omega (arith, r.0)) h)

  -- `remove_file` of every old segment leaves the rest.
  remove_segments-files_of :
      (n : ℕ) (segs : Segments) (cur : ℕ) (file : Bytes) (rest : IdMap Bytes)
      → Rises n segs
      → Below cur segs
      → ((m : ℕ) → m ≤ cur → IdMap.get rest m ≡ none)
      → remove_segments (files_of codec segs ++ (cur, file) ∷ rest) (numbers segs ++ cur ∷ [])
        ≡ rest
  unfolding remove_segments
  remove_segments-files_of n [] cur file rest r b h =
      rw (remove_head cur file rest (h cur (omega arith))) refl
  remove_segments-files_of n ((k, es) ∷ segs) cur file rest r b h =
      let later : IdMap.get ((cur, file) ∷ rest) k ≡ none =
        unfold IdMap.get in ground (arith, b.0, h k (omega (arith, b.0))) in
      rw
        (
          remove_head k (records codec es) (files_of codec segs ++ (cur, file) ∷ rest)
              (get_absent (suc k) k segs ((cur, file) ∷ rest) r.1 (omega arith) later),
          remove_segments,
        )
        (remove_segments-files_of (suc k) segs cur file rest r.1 b.1 h)

module _ (codec : Codec) (log : SegmentedLog) (old : Segments) (es : List (LogEntry × Bytes))
    (is : IsLog codec log old es) (snapshot : List LogEntry)
    (encodable : All (Encodable codec) snapshot) where
  abbrev snap : ℕ
  snap = log.current_seg + 1

  abbrev taken : List (LogEntry × Bytes)
  taken = encoded_as codec snapshot encodable

  -- With the snapshot's segment, before the switch to the fresh one.
  abbrev with_snapshot : SegmentedLog
  with_snapshot = record log {
    files = IdMap.insert log.files snap (records codec taken);
    current_seg = snap;
  }

  abbrev compacted : SegmentedLog
  compacted = record {
    files = (snap, records codec taken) ∷ (snap + 1, []) ∷ [];
    current_seg = snap + 1;
    writer = snap + 1;
    entry_count = 0;
    segment_count = 2;
  }

  abbrev all_old : Segments
  all_old = old ++ (log.current_seg, es) ∷ []

  all_old-Below : Below snap all_old
  all_old-Below = Below-snoc old log.current_seg es is.below

  files-with_snapshot :
      with_snapshot.files ≡ files_of codec all_old ++ (snap, records codec taken) ∷ []
  files-with_snapshot =
      rw (is.files, files_of-snoc codec log.current_seg es old ((snap, records codec taken) ∷ []))
        (insert-files_of_above codec log.current_seg (records codec es) old snap
          (records codec taken) is.below (omega arith))

  list_segments-log : list_segments log.files ≡ numbers old ++ log.current_seg ∷ []
  list_segments-log =
      rw is.files
        (list_segments-files_of codec 0 old log.current_seg (records codec es) is.rises is.below)

  left_over :
      remove_segments (IdMap.insert with_snapshot.files (snap + 1) []) (list_segments log.files)
      ≡ compacted.files
  left_over =
      rw
        (
          list_segments-log,
          files-with_snapshot,
          insert-files_of_above codec snap (records codec taken) all_old (snap + 1) [] all_old-Below
              (omega arith),
          files_of-snoc codec log.current_seg es old compacted.files,
        )
        (remove_segments-files_of codec 0 old log.current_seg (records codec es) compacted.files
          is.rises is.below (λ m l. unfold IdMap.get in ground arith))

  compact-compacted : compact codec log snapshot ≡ (compacted, true)
  unfolding compact
  compact-compacted =
      let free : IdMap.get log.files snap ≡ none = rw is.files (
        get-files_of_above codec log.current_seg (records codec es) old snap is.below
          (omega arith)) in
      let fresh : IdMap.get with_snapshot.files (snap + 1) ≡ none = rw files-with_snapshot (
        get-files_of_above codec snap (records codec taken) all_old (snap + 1) all_old-Below
          (omega arith)) in
      rw (free, compact)
        (rw (write_all-encoded_as codec snapshot encodable)
          (rw (fresh, switch_over) (ap (λ f. (record compacted { files = f }, true)) left_over)))

  compacted-IsLog : IsLog codec compacted ((snap, taken) ∷ []) []
  compacted-IsLog = record {
    files = refl;
    writer = refl;
    rises = (omega arith, tt);
    below = (omega arith, tt);
    encoded = tt;
    old_encoded = (Encoded-encoded_as codec snapshot encodable, tt);
    entry_count = refl;
    segment_count = refl;
  }

  written_to-compacted : written_to codec ((snap, taken) ∷ []) [] ≡ snapshot
  written_to-compacted =
      append-nil (contents codec ((snap, taken) ∷ []))
      ∙ (append-nil (entries codec taken) ∙ entries-encoded_as codec snapshot encodable)

  -- `compact` of entries that encode: the log then holds the snapshot and nothing else.
  pub compact-IsLog :
      (segs : Segments) × IsLog codec (compact codec log snapshot).0 segs []
      × (written_to codec segs [] ≡ snapshot)
      × ((compact codec log snapshot).0.segment_count ≡ 2)
  compact-IsLog =
      rw compact-compacted ((snap, taken) ∷ [], compacted-IsLog, written_to-compacted, refl)
