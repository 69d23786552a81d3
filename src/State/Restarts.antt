-- ===== src/State/Restarts.antt =====
-- A store that is opened again, after it was closed or after a crash in the middle of an append.
use sodp.Base.{
  ℕ, ◌≤◌, ◌<◌, ◌^◌, ◌≡◌, refl, ap, sym, ◌∙◌, String, List, [], arith, All, All-mono, All-zip,
  length, take,
}
use sodp.Base.IdMap.{IdMap}
use sodp.Json.{null}
use sodp.Frame.{Bytes}
use sodp.Log.{LogEntry, Codec, max_segments_before_compact, open_log}
use sodp.Log.Recovery.{record_of, read_entry-torn}
use sodp.Log.Segments.{Torn, Segments}
use sodp.Log.Opening.{IsLog, written_to, crash, open_log-crash, open_log-empty}
use sodp.State.{StateStore, get, sort_by_version, last_version, open_store}
use sodp.State.CatchUp.{value_of}
use sodp.State.Newest.{entry_of, newest, VersionsTo}
use sodp.State.Sorting.{
  All-sort_by_version, All-of_sort_by_version, sort_by_version-IsSorted, last_version-above,
  last_version-VersionsTo, get-restore_sorted, restore-IsUnique, restore-All,
}
use sodp.State.Durable.{IsSafeEntry, values_of, IsDurable}

-- The first bytes of a record, fewer than it has, also none.
abbrev pub IsCutOff : Codec → Bytes → Type 0
IsCutOff codec tail =
    (payload : Bytes) × (n : ℕ) × (length payload < 2 ^ 32)
    × (n < length (record_of codec payload))
    × (tail ≡ take n (record_of codec payload))

pub IsCutOff-Torn : (codec : Codec) (tail : Bytes) → IsCutOff codec tail → Torn codec tail
IsCutOff-Torn codec tail (payload, n, fits, short, is) =
    rw is (read_entry-torn codec n payload fits short)

module _ (codec : Codec) (files : IdMap Bytes) (old : Segments) (es : List (LogEntry × Bytes))
    (n : ℕ) where
  abbrev all : List LogEntry
  all = written_to codec old es

  abbrev sorted : List LogEntry
  sorted = sort_by_version all

  abbrev counter : ℕ
  counter = last_version 0 sorted

  module _ (opens : IsLog codec (open_log codec files).0 old es)
      (reads : (open_log codec files).1 ≡ all)
      (safe : All (λ e. IsSafeEntry n (entry_of e)) all) where
    all-VersionsTo : VersionsTo counter all
    all-VersionsTo =
        All-of_sort_by_version _ all
          (last_version-above 0 sorted
            (All-mono (λ e. IsSafeEntry n (entry_of e)) (λ e. 0 ≤ e.version) sorted
              (λ e s. omega arith) (All-sort_by_version _ all safe))
            (sort_by_version-IsSorted all)).0

    safe_again : All (λ e. IsSafeEntry counter (entry_of e)) all
    safe_again =
        All-mono _ _ all (λ e s. (s.0, s.1.1, s.1.2))
          (All-zip (λ e. e.version ≤ counter) (λ e. IsSafeEntry n (entry_of e)) all all-VersionsTo
            safe)

    values_of-open_store :
        (key : String) → values_of (open_store codec files) key ≡ value_of (newest key all)
    unfolding open_store get
    values_of-open_store key = rw reads (ap value_of (get-restore_sorted key all))

    -- The store is durable again, and its counter is not above what it was.
    open_store-IsDurable :
        (open_log codec files).0.segment_count ≤ max_segments_before_compact
        → IsDurable codec (open_store codec files)
    unfolding open_store
    open_store-IsDurable few = record {
      plog = (open_log codec files).0;
      persists = refl;
      logs = record {
        old = old;
        es = es;
        is = opens;
        few = few;
        safe = rw reads safe_again;
        agrees = λ key. sym (values_of-open_store key);
      };
      sound = rw reads (record {
        safe =
            restore-All (IsSafeEntry counter) [] [] sorted tt
              (All-sort_by_version _ all safe_again);
        unique = restore-IsUnique [] [] sorted tt;
      });
    }

    global_version-open_store : (open_store codec files).global_version ≤ n
    unfolding open_store
    global_version-open_store = rw reads (
        last_version-VersionsTo 0 n sorted (omega arith)
          (All-sort_by_version _ all (All-mono _ _ all (λ e s. s.0) safe)))

-- `open` of an empty directory.
pub open_store_empty :
    (codec : Codec)
    → IsDurable codec (open_store codec [])
      × ((key : String) → values_of (open_store codec []) key ≡ null)
      × ((open_store codec []).global_version ≤ 0)
unfolding newest
open_store_empty codec =
    let (is, reads) = open_log-empty codec in
    (
      open_store-IsDurable codec [] [] [] 0 is reads tt (omega (arith, is.segment_count)),
      values_of-open_store codec [] [] [] 0 is reads tt,
      global_version-open_store codec [] [] [] 0 is reads tt,
    )

-- `open` of what is left where the current segment ends in bytes that are no entry.
module _ (codec : Codec) (st : StateStore) (d : IsDurable codec st) (tail : Bytes)
    (torn : Torn codec tail) where
  abbrev reopened : StateStore
  reopened = open_store codec (crash codec d.plog tail)

  pub reopened-IsDurable :
      IsDurable codec reopened
      × ((key : String) → values_of reopened key ≡ values_of st key)
      × (reopened.global_version ≤ st.global_version)
  reopened-IsDurable =
      let logs = d.logs in
      let (is, reads) = open_log-crash codec d.plog logs.old logs.es logs.is tail torn in
      let files = crash codec d.plog tail in
      let n = st.global_version in
      (
        open_store-IsDurable codec files logs.old logs.es n is reads logs.safe
            (omega (arith, is.segment_count, logs.is.segment_count, logs.few)),
        (λ key.
            values_of-open_store codec files logs.old logs.es n is reads logs.safe key
            ∙ logs.agrees key),
        global_version-open_store codec files logs.old logs.es n is reads logs.safe,
      )
