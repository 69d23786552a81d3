-- ===== src/State/Durable.antt =====
-- A persistent store and its log: the log's newest entries are the store's values.
use sodp.Base.{
  ℕ, ◌≤◌, ◌<◌, ◌≡◌, refl, ap, ◌∙◌, String, Bool, true, false, Option, some, List, [], ◌∷◌, ◌++◌,
  arith, All, All-append, All-mono, Bool-cases, inl, inr, str_eq, if◌then◌else◌,
}
use sodp.Base.Dict.{Dict, IsUnique}
use sodp.Json.{Value, WellFormed}
use sodp.Frame.{Bytes}
use sodp.Delta.Apply.{SafeKeys}
use sodp.Log
use sodp.Log.{LogEntry, Codec, SegmentedLog, needs_compact, compact, max_segments_before_compact}
use sodp.Log.Segments.{Segments}
use sodp.Log.Opening.{IsLog, written_to}
use sodp.Log.Appending.{Appended, append-Appended}
use sodp.Log.Compaction.{Encodable, compact-IsLog}
use sodp.State.{StateEntry, StateStore, get, snapshot_of, compact_plog, persist}
use sodp.State.CatchUp.{value_of}
use sodp.State.Newest.{entry_of, newest, newest-snoc, VersionsTo}
use sodp.State.Sorting.{newest-snapshot_of}

-- No version above `n`, and a value whose keys a path can name.
abbrev pub IsSafeEntry : ℕ → StateEntry → Type 0
IsSafeEntry n e = (e.version ≤ n) × WellFormed e.value × SafeKeys e.value

-- The entries of a store, each key once.
pub record IsSound (n : ℕ) (entries : Dict StateEntry) : Type 0 where
  pub safe : All (λ e. IsSafeEntry n e.1) entries
  pub unique : IsUnique entries

-- What the log of a store says: `written` is in it, the newest entry of each key has the value that
-- `values` gives, and there are three segments at most.
pub record Logs (codec : Codec) (plog : SegmentedLog) (n : ℕ) (values : String → Value)
    : Type 0 where
  pub old : Segments
  pub es : List (LogEntry × Bytes)
  pub is : IsLog codec plog old es
  pub few : plog.segment_count ≤ max_segments_before_compact
  pub safe : All (λ e. IsSafeEntry n (entry_of e)) (written_to codec old es)
  pub agrees : (key : String) → value_of (newest key (written_to codec old es)) ≡ values key

abbrev pub values_of : StateStore → String → Value
values_of st key = value_of (get st key)

pub record IsDurable (codec : Codec) (st : StateStore) : Type 0 where
  pub plog : SegmentedLog
  pub persists : st.plog ≡ some plog
  pub logs : Logs codec plog st.global_version (values_of st)
  pub sound : IsSound st.global_version st.entries

pub IsSafeEntry-mono : (m n : ℕ) → m ≤ n → (e : StateEntry) → IsSafeEntry m e → IsSafeEntry n e
IsSafeEntry-mono m n l e s = (omega (arith, s.0), s.1, s.2)

All-snapshot_of :
    (n : ℕ) (entries : Dict StateEntry)
    → All (λ e. IsSafeEntry n e.1) entries
    → All (λ e. IsSafeEntry n (entry_of e)) (snapshot_of entries)
All-snapshot_of n [] h = tt
All-snapshot_of n (e ∷ entries) h = (h.0, All-snapshot_of n entries h.1)

-- A compaction of a log keeps the values of the store.
compact-Logs :
    (codec : Codec) (plog : SegmentedLog) (old : Segments) (es : List (LogEntry × Bytes))
    (st : StateStore)
    → IsLog codec plog old es
    → IsSound st.global_version st.entries
    → All (Encodable codec) (snapshot_of st.entries)
    → Logs codec (compact codec plog (snapshot_of st.entries)).0 st.global_version (values_of st)
unfolding get
compact-Logs codec plog old es st is sound encodable =
    let (segs, is', written, two) =
      compact-IsLog codec plog old es is (snapshot_of st.entries) encodable in
    record {
      old = segs;
      es = [];
      is = is';
      few = omega (arith, two);
      safe = rw written (All-snapshot_of st.global_version st.entries sound.safe);
      agrees = λ key. rw (written, newest-snapshot_of key st.entries sound.unique) refl;
    }

pub value_of-if :
    (b : Bool) (e : StateEntry) (o : Option StateEntry)
    → value_of (if b then some e else o) ≡ (if b then e.value else value_of o)
value_of-if true e o = refl
value_of-if false e o = refl

module _ (codec : Codec) (st : StateStore) (plog : SegmentedLog) (n : ℕ) (before : String → Value)
    (logs : Logs codec plog n before) (e : LogEntry) (newer : n < e.version)
    (safe : IsSafeEntry st.global_version (entry_of e))
    (agrees : (key : String)
      → (if str_eq e.key key then e.value else before key) ≡ values_of st key) where
  abbrev all : List LogEntry
  all = written_to codec logs.old logs.es

  all-VersionsTo : VersionsTo n all
  all-VersionsTo =
      All-mono (λ f. IsSafeEntry n (entry_of f)) (λ f. f.version ≤ n) all (λ f s. s.0) logs.safe

  all-safe : All (λ f. IsSafeEntry st.global_version (entry_of f)) (all ++ e ∷ [])
  all-safe =
      All-append _ all (e ∷ [])
        (All-mono _ _ all
          (λ f. IsSafeEntry-mono n st.global_version (omega (arith, safe.0)) (entry_of f))
          logs.safe)
        (safe, tt)

  newest-value : (key : String) → value_of (newest key (all ++ e ∷ [])) ≡ values_of st key
  newest-value key =
      ap value_of (newest-snoc key n all e all-VersionsTo newer)
      ∙ (value_of-if (str_eq e.key key) (entry_of e) (newest key all)
          ∙ (ap (λ v. if str_eq e.key key then e.value else v) (logs.agrees key) ∙ agrees key))

  -- One more entry in the log.
  append-Logs :
      (plog' : SegmentedLog)
      → Appended codec plog' all e
      → plog'.segment_count ≤ max_segments_before_compact
      → Logs codec plog' st.global_version (values_of st)
  append-Logs plog' a few = record {
    old = a.old;
    es = a.es;
    is = a.is;
    few = few;
    safe = rw a.written all-safe;
    agrees = λ key. rw a.written (newest-value key);
  }

  abbrev plog' : SegmentedLog
  plog' = (Log.append codec plog e).0

  -- `persist` of the entry of a change that the store has made.
  pub persist-IsDurable :
      st.plog ≡ some plog
      → IsSound st.global_version st.entries
      → Encodable codec e
      → All (Encodable codec) (snapshot_of st.entries)
      → IsDurable codec (persist codec st e)
  unfolding persist compact_plog needs_compact get
  persist-IsDurable p sound encodable snapshot =
      let a = (append-Appended codec plog logs.old logs.es logs.is e encodable.0 encodable.1).0 in
      rw (p, persist)
        (elim (Bool-cases (needs_compact plog')) [
          | inl full ↦
              rw (full, persist)
                (record {
                  plog = (compact codec plog' (snapshot_of st.entries)).0;
                  persists = refl;
                  logs = compact-Logs codec plog' a.old a.es st a.is sound snapshot;
                  sound = sound;
                })
          | inr few ↦
              rw (few, persist)
                (record {
                  plog = plog';
                  persists = refl;
                  logs = append-Logs plog' a (ground arith);
                  sound = sound;
                })
        ])
