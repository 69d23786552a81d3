-- ===== src/Log/Segments.antt =====
-- The segment files of a log as one list of entries: what `open` reads from a directory.
use sodp.Base.{
  ℕ, suc, ◌≤◌, ◌<◌, ◌≡◌, refl, ap, none, some, List, [], ◌∷◌, ◌++◌, arith, ◌⊎◌, append_assoc,
}
use sodp.Base.IdMap
use sodp.Base.IdMap.{IdMap}
use sodp.Frame.{Bytes}
use sodp.Log.{
  LogEntry, Codec, end_of_file, bad_record, read_entry, replay_segment, replay_all, insert_sorted,
  list_segments,
}
use sodp.Log.Recovery.{records, Encoded, entries, replay_segment_whole}

-- A segment: its number, its entries and their encodings.
abbrev pub Segments : Type 0
Segments = IdMap (List (LogEntry × Bytes))

abbrev pub numbers : Segments → List ℕ
numbers [] = []
numbers ((n, es) ∷ segs) = n ∷ numbers segs

-- The numbers rise, and none is less than `n`.
abbrev pub Rises : ℕ → Segments → Type 0
Rises n [] = Unit
Rises n ((m, es) ∷ segs) = (n ≤ m) × Rises (suc m) segs

-- Every number is less than `n`.
abbrev pub Below : ℕ → Segments → Type 0
Below n [] = Unit
Below n ((m, es) ∷ segs) = (m < n) × Below n segs

module _ (codec : Codec) where
  abbrev pub files_of : Segments → IdMap Bytes
  files_of [] = []
  files_of ((n, es) ∷ segs) = (n, records codec es) ∷ files_of segs

  abbrev pub contents : Segments → List LogEntry
  contents [] = []
  contents ((n, es) ∷ segs) = entries codec es ++ contents segs

  abbrev pub AllEncoded : Segments → Type 0
  AllEncoded [] = Unit
  AllEncoded ((n, es) ∷ segs) = Encoded codec es × AllEncoded segs

  -- What a crash may leave at the end of a file: bytes that start with no record.
  abbrev pub Torn : Bytes → Type 0
  Torn tail = (read_entry codec tail ≡ end_of_file) ⊎ (read_entry codec tail ≡ bad_record)

  pub list_segments-files_of :
      (n : ℕ) (segs : Segments) (cur : ℕ) (file : Bytes)
      → Rises n segs
      → Below cur segs
      → list_segments (files_of segs ++ (cur, file) ∷ []) ≡ numbers segs ++ cur ∷ []
  unfolding list_segments insert_sorted
  list_segments-files_of n [] cur file r b = refl
  list_segments-files_of n ((m, es) ∷ []) cur file r b = ground arith
  list_segments-files_of n ((m, es) ∷ (k, fs) ∷ segs) cur file r b =
      rw (list_segments-files_of (suc m) ((k, fs) ∷ segs) cur file r.1 b.1) (ground (arith, r.1.0))

  module _ (cur : ℕ) (file : Bytes) where
    pub get-files_of :
        (segs : Segments)
        → Below cur segs
        → IdMap.get (files_of segs ++ (cur, file) ∷ []) cur ≡ some file
    unfolding IdMap.get
    get-files_of [] b = ground arith
    get-files_of ((m, es) ∷ segs) b = ground (arith, b.0, get-files_of segs b.1)

    pub get-files_of_above :
        (segs : Segments) (j : ℕ)
        → Below cur segs
        → cur < j
        → IdMap.get (files_of segs ++ (cur, file) ∷ []) j ≡ none
    unfolding IdMap.get
    get-files_of_above [] j b l = ground arith
    get-files_of_above ((m, es) ∷ segs) j b l = ground (arith, b.0, get-files_of_above segs j b.1 l)

    pub insert-files_of :
        (segs : Segments) (file' : Bytes)
        → Below cur segs
        → IdMap.insert (files_of segs ++ (cur, file) ∷ []) cur file'
          ≡ files_of segs ++ (cur, file') ∷ []
    unfolding IdMap.insert
    insert-files_of [] file' b = ground arith
    insert-files_of ((m, es) ∷ segs) file' b = ground (arith, b.0, insert-files_of segs file' b.1)

    pub insert-files_of_above :
        (segs : Segments) (j : ℕ) (file' : Bytes)
        → Below cur segs
        → cur < j
        → IdMap.insert (files_of segs ++ (cur, file) ∷ []) j file'
          ≡ files_of segs ++ (cur, file) ∷ (j, file') ∷ []
    unfolding IdMap.insert
    insert-files_of_above [] j file' b l = ground arith
    insert-files_of_above ((m, es) ∷ segs) j file' b l =
        ground (arith, b.0, insert-files_of_above segs j file' b.1 l)

  -- The files hold these segments.
  abbrev Has : IdMap Bytes → Segments → Type 0
  Has files [] = Unit
  Has files ((n, es) ∷ segs) = (IdMap.get files n ≡ some (records codec es)) × Has files segs

  -- What comes before in the directory, and the current segment, hide nothing.
  Has-cons :
      (n : ℕ) (file : Bytes) (files : IdMap Bytes) (segs : Segments)
      → Rises (suc n) segs
      → Has files segs
      → Has ((n, file) ∷ files) segs
  unfolding IdMap.get
  Has-cons n file files [] r h = tt
  Has-cons n file files ((m, es) ∷ segs) r h = (
    ground (arith, r.0, h.0),
    Has-cons n file files segs (Rises-mono (suc n) (suc m) segs (omega (arith, r.0)) r.1) h.1,
  )
    where
      Rises-mono : (a b : ℕ) (ss : Segments) → a ≤ b → Rises b ss → Rises a ss
      Rises-mono a b [] l s = tt
      Rises-mono a b ((c, fs) ∷ ss) l s = (omega (arith, s.0), s.1)

  pub Has-files_of :
      (n : ℕ) (segs : Segments) (cur : ℕ) (file : Bytes)
      → Rises n segs
      → Has (files_of segs ++ (cur, file) ∷ []) segs
  Has-files_of n [] cur file r = tt
  Has-files_of n ((m, es) ∷ segs) cur file r = (
    unfold IdMap.get in ground arith,
    Has-cons m (records codec es) (files_of segs ++ (cur, file) ∷ []) segs r.1
        (Has-files_of (suc m) segs cur file r.1),
  )

  insert_same :
      (files : IdMap Bytes) (n : ℕ) (file : Bytes)
      → IdMap.get files n ≡ some file
      → IdMap.insert files n file ≡ files
  unfolding IdMap.get IdMap.insert
  insert_same [] n file h = ground arith
  insert_same ((m, b) ∷ files) n file h = ground (arith, insert_same files n file)

  pub replay_all-step :
      (files : IdMap Bytes) (n : ℕ) (segs : List ℕ) (file valid : Bytes) (es : List LogEntry)
      → IdMap.get files n ≡ some file
      → replay_segment codec file ≡ (es, valid)
      → replay_all codec files (n ∷ segs) ≡ (
        (replay_all codec (IdMap.insert files n valid) segs).0,
        es ++ (replay_all codec (IdMap.insert files n valid) segs).1,
      )
  unfolding replay_all
  replay_all-step files n segs file valid es h t =
      rw (h, replay_all)
        (ap
          (λ p. (
            (replay_all codec (IdMap.insert files n p.1) segs).0,
            p.0 ++ (replay_all codec (IdMap.insert files n p.1) segs).1,
          ))
          t)

  -- Whole segments are read and left as they are.
  pub replay_all-Has :
      (files : IdMap Bytes) (segs : Segments) (more : List ℕ)
      → AllEncoded segs
      → Has files segs
      → replay_all codec files (numbers segs ++ more)
        ≡ ((replay_all codec files more).0, contents segs ++ (replay_all codec files more).1)
  replay_all-Has files [] more e h = refl
  replay_all-Has files ((n, es) ∷ segs) more e h =
      rw
        (
          replay_all-step files n (numbers segs ++ more) (records codec es) (records codec es)
              (entries codec es) h.0 (replay_segment_whole codec es e.0),
          insert_same files n (records codec es) h.0,
          replay_all-Has files segs more e.1 h.1,
          append_assoc (entries codec es) (contents segs) (replay_all codec files more).1,
        )
        refl
