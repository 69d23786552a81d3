-- ===== src/Log/Appending.antt =====
-- `append` to a log adds its entry at the end, with and without a rotation to a new segment.
use sodp.Base.{
  ℕ, suc, ◌+◌, ◌≤◌, ◌≡◌, refl, ap, ◌∙◌, subst, none, List, [], ◌∷◌, ◌++◌, arith, append_assoc,
  append-nil, All-append, true, Bool-cases, leb, inl, inr, length-append,
}
use sodp.Base.IdMap
use sodp.Base.IdMap.{IdMap}
use sodp.Frame.{Bytes}
use sodp.Log.{
  LogEntry, Codec, SegmentedLog, max_entries_per_segment, write_entry, rotate, write_current,
  append,
}
use sodp.Log.Recovery.{
  records, Encoded, entries, Encodes, record_of, records-append, entries-append,
}
use sodp.Log.Segments.{
  Segments, Rises, Below, files_of, contents, AllEncoded, get-files_of_above, insert-files_of,
  insert-files_of_above,
}
use sodp.Log.Opening.{IsLog, written_to, writer_file}

Rises-snoc :
    (n : ℕ) (segs : Segments) (m : ℕ) (es : List (LogEntry × Bytes))
    → Rises n segs
    → Below m segs
    → n ≤ m
    → Rises n (segs ++ (m, es) ∷ [])
Rises-snoc n [] m es r b l = (l, tt)
Rises-snoc n ((k, fs) ∷ segs) m es r b l =
    (r.0, Rises-snoc (suc k) segs m es r.1 b.1 (omega (arith, b.0)))

pub Below-snoc :
    (segs : Segments) (m : ℕ) (es : List (LogEntry × Bytes))
    → Below m segs
    → Below (m + 1) (segs ++ (m, es) ∷ [])
Below-snoc [] m es b = (omega arith, tt)
Below-snoc ((k, fs) ∷ segs) m es b = (omega (arith, b.0), Below-snoc segs m es b.1)

module _ (codec : Codec) (m : ℕ) (es : List (LogEntry × Bytes)) where
  pub files_of-snoc :
      (segs : Segments) (rest : IdMap Bytes)
      → files_of codec (segs ++ (m, es) ∷ []) ++ rest
        ≡ files_of codec segs ++ (m, records codec es) ∷ rest
  files_of-snoc [] rest = refl
  files_of-snoc ((k, fs) ∷ segs) rest =
      ap (λ l. (k, records codec fs) ∷ l) (files_of-snoc segs rest)

  contents-snoc :
      (segs : Segments) (rest : List LogEntry)
      → contents codec (segs ++ (m, es) ∷ []) ++ rest
        ≡ (contents codec segs ++ entries codec es) ++ rest
  contents-snoc [] rest = ap (λ l. l ++ rest) (append-nil (entries codec es))
  contents-snoc ((k, fs) ∷ segs) rest =
      rw
        (
          append_assoc (entries codec fs) (contents codec segs) (entries codec es),
          append_assoc (entries codec fs) (contents codec segs ++ entries codec es) rest,
          append_assoc (entries codec fs) (contents codec (segs ++ (m, es) ∷ [])) rest,
        )
        (ap (λ l. entries codec fs ++ l) (contents-snoc segs rest))

  AllEncoded-snoc :
      (segs : Segments)
      → AllEncoded codec segs
      → Encoded codec es
      → AllEncoded codec (segs ++ (m, es) ∷ [])
  AllEncoded-snoc [] a e = (e, tt)
  AllEncoded-snoc ((k, fs) ∷ segs) a e = (a.0, AllEncoded-snoc segs a.1 e)

-- A log that has `e` at its end, and otherwise the entries that it had.
pub record Appended (codec : Codec) (log : SegmentedLog) (before : List LogEntry) (e : LogEntry)
    : Type 0 where
  pub old : Segments
  pub es : List (LogEntry × Bytes)
  pub is : IsLog codec log old es
  pub written : written_to codec old es ≡ before ++ e ∷ []

module _ (codec : Codec) (log : SegmentedLog) (old : Segments) (es : List (LogEntry × Bytes))
    (is : IsLog codec log old es) (e : LogEntry) (payload : Bytes)
    (encodes : Encodes codec e payload) where
  abbrev one : List (LogEntry × Bytes)
  one = (e, payload) ∷ []

  abbrev appended : SegmentedLog
  appended = record log {
    files = IdMap.insert log.files log.writer (records codec es ++ record_of codec payload);
    entry_count = log.entry_count + 1;
  }

  write_current-IsLog : write_current codec log e ≡ (appended, true)
  unfolding write_current write_entry
  write_current-IsLog =
      let file = writer_file codec log old es is in let bytes = encodes.encodes in ground arith

  records-snoc : records codec (es ++ one) ≡ records codec es ++ record_of codec payload
  records-snoc =
      records-append codec es one
      ∙ ap (λ b. records codec es ++ b) (append-nil (record_of codec payload))

  appended-Appended : Appended codec appended (written_to codec old es) e
  appended-Appended = record {
    old = old;
    es = es ++ one;
    is = record {
      files =
          rw (is.writer, is.files, records-snoc)
            (insert-files_of codec log.current_seg (records codec es) old
              (records codec es ++ record_of codec payload) is.below);
      writer = is.writer;
      rises = is.rises;
      below = is.below;
      encoded = All-append _ es one is.encoded (encodes, tt);
      old_encoded = is.old_encoded;
      entry_count = omega (arith, is.entry_count, length-append es one);
      segment_count = is.segment_count;
    };
    written =
        rw
          (
            entries-append codec es one,
            append_assoc (contents codec old) (entries codec es) (e ∷ []),
          )
          refl;
  }

module _ (codec : Codec) (log : SegmentedLog) (old : Segments) (es : List (LogEntry × Bytes))
    (is : IsLog codec log old es) where
  abbrev rotated : SegmentedLog
  rotated = record {
    files = IdMap.insert log.files (log.current_seg + 1) [];
    current_seg = log.current_seg + 1;
    writer = log.current_seg + 1;
    entry_count = 0;
    segment_count = log.segment_count + 1;
  }

  rotate-IsLog : rotate codec log ≡ (rotated, true)
  unfolding rotate
  rotate-IsLog =
      let next : IdMap.get log.files (log.current_seg + 1) ≡ none = rw is.files (
        get-files_of_above codec log.current_seg (records codec es) old (log.current_seg + 1)
          is.below (omega arith)) in
      rw (next, rotate) refl

  rotated-IsLog : IsLog codec rotated (old ++ (log.current_seg, es) ∷ []) []
  rotated-IsLog = record {
    files =
        rw (is.files, files_of-snoc codec log.current_seg es old ((log.current_seg + 1, []) ∷ []))
          (insert-files_of_above codec log.current_seg (records codec es) old (log.current_seg + 1)
            [] is.below (omega arith));
    writer = refl;
    rises = Rises-snoc 0 old log.current_seg es is.rises is.below (omega arith);
    below = Below-snoc old log.current_seg es is.below;
    encoded = tt;
    old_encoded = AllEncoded-snoc codec log.current_seg es old is.old_encoded is.encoded;
    entry_count = refl;
    segment_count = omega (arith, is.segment_count, length-append old ((log.current_seg, es) ∷ []));
  }

  -- `append` of an entry that encodes, whether or not it rotates.
  pub append-Appended :
      (e : LogEntry) (payload : Bytes)
      → Encodes codec e payload
      → Appended codec (append codec log e).0 (written_to codec old es) e
        × ((append codec log e).0.segment_count ≤ log.segment_count + 1)
  unfolding append
  append-Appended e payload h = elim (Bool-cases (leb max_entries_per_segment log.entry_count)) [
    | inr room ↦
        rw (room, append)
          (rw (write_current-IsLog codec log old es is e payload h)
            (appended-Appended codec log old es is e payload h, omega arith))
    | inl full ↦
        rw (full, append)
          (rw (rotate-IsLog, append)
            (rw
              (write_current-IsLog codec rotated (old ++ (log.current_seg, es) ∷ []) []
                rotated-IsLog e payload h)
              (
                subst
                    (λ l.
                      Appended codec
                        (appended codec rotated (old ++ (log.current_seg, es) ∷ []) [] rotated-IsLog
                          e payload h)
                        l e)
                    (contents-snoc codec log.current_seg es old [] ∙ append-nil _)
                    (appended-Appended codec rotated (old ++ (log.current_seg, es) ∷ []) []
                      rotated-IsLog e payload h),
                omega arith,
              )))
  ]
