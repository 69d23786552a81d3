-- ===== src/Log/Opening.antt =====
-- `SegmentedLog::open` on the files that a log has left, the last of them perhaps torn by a crash.
use sodp.Base.{
  ℕ, suc, ◌+◌, ◌≡◌, refl, ap, ◌∙◌, some, List, [], ◌∷◌, ◌++◌, arith, length, append-nil,
  length-append,
}
use sodp.Base.IdMap
use sodp.Base.IdMap.{IdMap}
use sodp.Frame.{Bytes}
use sodp.Log.{
  LogEntry, Codec, SegmentedLog, replay_segment, replay_all, list_segments, last_or, last_entries,
  create, file_of, open_log,
}
use sodp.Log.Recovery.{records, Encoded, entries, replay_segment-records}
use sodp.Log.Segments.{
  Segments, numbers, Rises, Below, files_of, contents, AllEncoded, Torn, list_segments-files_of,
  get-files_of, insert-files_of, replay_all-step, replay_all-Has, Has-files_of,
}

-- The log's files are the segments `old` and the current one, which holds `es`.
pub record IsLog (codec : Codec) (log : SegmentedLog) (old : Segments)
    (es : List (LogEntry × Bytes)) : Type 0 where
  pub files : log.files ≡ files_of codec old ++ (log.current_seg, records codec es) ∷ []
  pub rises : Rises 0 old
  pub writer : log.writer ≡ log.current_seg
  pub below : Below log.current_seg old
  pub encoded : Encoded codec es
  pub old_encoded : AllEncoded codec old
  pub entry_count : log.entry_count ≡ length es
  pub segment_count : log.segment_count ≡ length old + 1

-- All entries of the log, in the order in which they were written.
abbrev pub written_to : Codec → Segments → List (LogEntry × Bytes) → List LogEntry
written_to codec old es = contents codec old ++ entries codec es

length-entries :
    (codec : Codec) (es : List (LogEntry × Bytes)) → length (entries codec es) ≡ length es
length-entries codec [] = refl
length-entries codec (r ∷ es) = ap suc (length-entries codec es)

pub length-files :
    (codec : Codec) (log : SegmentedLog) (old : Segments) (es : List (LogEntry × Bytes))
    → IsLog codec log old es
    → length log.files ≡ log.segment_count
length-files codec log old es is = rw is.files (
    omega (
      arith,
      length-append (files_of codec old) ((log.current_seg, records codec es) ∷ []),
      length-files_of old,
      is.segment_count,
    ))
  where
    length-files_of : (segs : Segments) → length (files_of codec segs) ≡ length segs
    length-files_of [] = refl
    length-files_of (s ∷ segs) = ap suc (length-files_of segs)

last_or-snoc : (d n : ℕ) (l : List ℕ) → last_or d (l ++ n ∷ []) ≡ n
last_or-snoc d n [] = refl
last_or-snoc d n (m ∷ l) = last_or-snoc m n l

length-numbers : (segs : Segments) (cur : ℕ) → length (numbers segs ++ cur ∷ []) ≡ length segs + 1
length-numbers [] cur = omega arith
length-numbers ((n, es) ∷ segs) cur = omega (arith, length-numbers segs cur)

last_entries-snoc :
    (codec : Codec) (files : IdMap Bytes) (l : List ℕ) (cur : ℕ) (file : Bytes)
    → IdMap.get files cur ≡ some file
    → last_entries codec files (l ++ cur ∷ []) ≡ (replay_segment codec file).0
last_entries-snoc codec files [] cur file h = rw (h, last_entries) refl
last_entries-snoc codec files (n ∷ l) cur file h = rw (last_or-snoc n cur l, h, last_entries) refl

module _ (codec : Codec) (cur : ℕ) (es : List (LogEntry × Bytes)) (tail : Bytes)
    (encoded : Encoded codec es) (torn : Torn codec tail) where
  abbrev healed : Segments → IdMap Bytes
  healed old = files_of codec old ++ (cur, records codec es) ∷ []

  abbrev cut_off : Segments → IdMap Bytes
  cut_off old = files_of codec old ++ (cur, records codec es ++ tail) ∷ []

  module _ (old : Segments) (rises : Rises 0 old) (below : Below cur old)
      (old_encoded : AllEncoded codec old) where
    replay_all-torn :
        replay_all codec (cut_off old) (numbers old ++ cur ∷ [])
        ≡ (healed old, written_to codec old es)
    replay_all-torn =
        rw
          (
            replay_all-Has codec (cut_off old) old (cur ∷ []) old_encoded
                (Has-files_of codec 0 old cur (records codec es ++ tail) rises),
            replay_all-step codec (cut_off old) cur [] (records codec es ++ tail) (records codec es)
                (entries codec es) (get-files_of codec cur (records codec es ++ tail) old below)
                (replay_segment-records codec es tail encoded torn),
            insert-files_of codec cur (records codec es ++ tail) old (records codec es) below,
          )
          (unfold replay_all in
            ap (λ l. (healed old, contents codec old ++ l)) (append-nil (entries codec es)))

    last_entries-cut_off :
        last_entries codec (cut_off old) (numbers old ++ cur ∷ []) ≡ entries codec es
    last_entries-cut_off =
        last_entries-snoc codec (cut_off old) (numbers old) cur (records codec es ++ tail)
          (get-files_of codec cur (records codec es ++ tail) old below)
        ∙ ap (λ p. p.0) (replay_segment-records codec es tail encoded torn)

    abbrev opened : SegmentedLog
    opened = record {
      files = healed old;
      current_seg = cur;
      writer = cur;
      entry_count = length (entries codec es);
      segment_count = length old + 1;
    }

    open_log-torn : open_log codec (cut_off old) ≡ (opened, written_to codec old es)
    unfolding open_log
    open_log-torn =
        rw
          (
            list_segments-files_of codec 0 old cur (records codec es ++ tail) rises below,
            replay_all-torn,
            last_or-snoc 0 cur (numbers old),
            last_entries-cut_off,
            length-numbers old cur,
          )
          (rw (get-files_of codec cur (records codec es) old below, create)
            (ap (λ n. (record opened { segment_count = n }, written_to codec old es))
              (omega arith)))

-- The directory that a crash leaves in the middle of an append, with `tail` after the last record.
unfoldable pub crash : Codec → SegmentedLog → Bytes → IdMap Bytes
crash codec log tail = IdMap.insert log.files log.writer (file_of codec log ++ tail)

module _ (codec : Codec) (log : SegmentedLog) (old : Segments) (es : List (LogEntry × Bytes))
    (is : IsLog codec log old es) where
  pub current_file : IdMap.get log.files log.current_seg ≡ some (records codec es)
  current_file = rw is.files (get-files_of codec log.current_seg (records codec es) old is.below)

  pub writer_file : IdMap.get log.files log.writer ≡ some (records codec es)
  writer_file = rw is.writer current_file

  crash-cut_off :
      (tail : Bytes)
      → crash codec log tail
        ≡ files_of codec old ++ (log.current_seg, records codec es ++ tail) ∷ []
  unfolding crash
  crash-cut_off tail =
      rw (is.writer, current_file, file_of)
        (rw is.files (
          insert-files_of codec log.current_seg (records codec es) old (records codec es ++ tail)
            is.below))

  pub open_log-crash :
      (tail : Bytes)
      → Torn codec tail
      → IsLog codec (open_log codec (crash codec log tail)).0 old es
        × ((open_log codec (crash codec log tail)).1 ≡ written_to codec old es)
  open_log-crash tail torn =
      rw
        (
          crash-cut_off tail,
          open_log-torn codec log.current_seg es tail is.encoded torn old is.rises is.below
              is.old_encoded,
        )
        (
          record {
            files = refl;
            writer = refl;
            rises = is.rises;
            below = is.below;
            encoded = is.encoded;
            old_encoded = is.old_encoded;
            entry_count = length-entries codec es;
            segment_count = refl;
          },
          refl,
        )

-- An empty directory.
pub open_log-empty :
    (codec : Codec) → IsLog codec (open_log codec []).0 [] [] × ((open_log codec []).1 ≡ [])
unfolding open_log list_segments replay_all IdMap.get IdMap.insert
open_log-empty codec = (
  record {
    files = refl;
    writer = refl;
    rises = tt;
    below = tt;
    encoded = tt;
    old_encoded = tt;
    entry_count = refl;
    segment_count = refl;
  },
  refl,
)
