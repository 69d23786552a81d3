-- ===== src/State.antt =====
-- src/state.rs: the versioned store, its log of deltas for RESUME, and the persistent log. Each
-- operation is one step: two writers at once are not interleaved.
pub mod DeltaLog
pub mod Writes
pub mod Deletes
pub mod CatchUp
pub mod Loading
pub mod Dated
pub mod Resume
pub mod Newest
pub mod Sorting
pub mod Durable
pub mod Changes
pub mod Restarts
pub mod Persistence
pub mod Undeleted
use sodp.Base.{
  ℕ, zero, suc, ◌+◌, ◌-◌, ◌%◌, ◌^◌, String, Bool, true, false, Option, none, some, List, [], ◌∷◌,
  ◌++◌, ltb, leb, length, drop, retain, is_empty, max, map, if◌then◌else◌,
}
use sodp.Base.Dict
use sodp.Base.Dict.{Dict}
use sodp.Base.IdMap.{IdMap}
use sodp.Json.{Value, null}
use sodp.Frame.{Bytes}
use sodp.Delta.{DeltaOp, diff, add, remove}
use sodp.Log
use sodp.Log.{LogEntry, Codec, SegmentedLog, needs_compact, compact, open_log}

pub record StateEntry : Type 0 where
  pub version : ℕ
  pub value : Value

-- A delta as the log keeps it: its version and its ops.
abbrev pub Delta : Type 0
Delta = ℕ × List DeltaOp

abbrev pub max_delta_log_entries_per_key : ℕ
max_delta_log_entries_per_key = 1_000

abbrev pub DeltaLog : Type 0
DeltaLog = Dict (List Delta)

abbrev pub deltas_of : DeltaLog → String → List Delta
deltas_of log key = elim (Dict.get log key) [ none ↦ [] | some l ↦ l ]

-- The oldest entries over the cap are drained.
abbrev pub evict : List Delta → List Delta
evict l =
    if ltb max_delta_log_entries_per_key (length l)
    then drop (length l - max_delta_log_entries_per_key) l
    else l

unfoldable pub log_append : DeltaLog → String → ℕ → List DeltaOp → DeltaLog
log_append log key version ops =
    Dict.insert log key (evict (deltas_of log key ++ (version, ops) ∷ []))

unfoldable pub log_since : DeltaLog → String → ℕ → List Delta
log_since log key since_version = retain (λ d. ltb since_version d.0) (deltas_of log key)

pub record StateStore : Type 0 where
  pub entries : Dict StateEntry
  pub global_version : ℕ
  pub log : DeltaLog
  pub plog : Option SegmentedLog

-- `StateStore::new`
abbrev pub new : StateStore
new = record { entries = []; global_version = 0; log = []; plog = none }

unfoldable pub get : StateStore → String → Option StateEntry
get st key = Dict.get st.entries key

unfoldable pub key_count : StateStore → ℕ
key_count st = length st.entries

unfoldable pub deltas_since : StateStore → String → ℕ → List Delta
deltas_since st key since_version = log_since st.log key since_version

unfoldable pub current_version : StateStore → ℕ
current_version st = st.global_version

-- `fetch_add(1) + 1`, which wraps.
abbrev pub next_version : StateStore → ℕ
next_version st = (st.global_version + 1) % 2 ^ 64

-- One entry without ops for each live key.
abbrev pub snapshot_of : Dict StateEntry → List LogEntry
snapshot_of entries =
    map (λ e. record { version = e.1.version; key = e.0; ops = []; value = e.1.value }) entries

abbrev pub ops_for : Option StateEntry → Value → List DeltaOp
ops_for none new_value = add "/" new_value ∷ []
ops_for (some existing) new_value = diff existing.value new_value

module _ (codec : Codec) where
  -- A failed append or compaction is logged and otherwise ignored.
  unfoldable pub compact_plog : StateStore → StateStore
  compact_plog st = elim st.plog [
    | none ↦ st
    | some plog ↦ record st { plog = some (compact codec plog (snapshot_of st.entries)).0 }
  ]

  unfoldable pub persist : StateStore → LogEntry → StateStore
  unfolding compact_plog
  persist st e = elim st.plog [
    | none ↦ st
    | some plog ↦
        (let plog' = (Log.append codec plog e).0 in
          let st' = record st { plog = some plog' } in
          if needs_compact plog' then compact_plog st' else st')
  ]

  abbrev pub logged : StateStore → String → ℕ → List DeltaOp → Value → StateStore
  logged st key version ops value =
      persist (record st { log = log_append st.log key version ops })
        (record { version = version; key = key; ops = ops; value = value })

  unfoldable pub apply : StateStore → String → Value → StateStore × ℕ × List DeltaOp
  apply st key new_value =
      let version = next_version st in
      let ops = ops_for (Dict.get st.entries key) new_value in
      let st' = record st {
        entries = Dict.insert st.entries key (record { version = version; value = new_value });
        global_version = version;
      } in
      (if is_empty ops then st' else logged st' key version ops new_value, version, ops)

  unfoldable pub delete : StateStore → String → StateStore × Option Delta
  delete st key = elim (Dict.get st.entries key) [
    | none ↦ (st, none)
    | some e ↦
        (let version = next_version st in
          let ops = remove "/" ∷ [] in
          let st' = record st { entries = Dict.remove st.entries key; global_version = version } in
          (logged st' key version ops null, some (version, ops)))
  ]

abbrev version_of : Option StateEntry → ℕ
version_of none = 0
version_of (some e) = e.version

-- The loop of `load_entries`, and the greatest version that it met.
unfoldable pub load_loop : Dict StateEntry → ℕ → List (String × ℕ × Value) → Dict StateEntry × ℕ
load_loop entries max_version [] = (entries, max_version)
load_loop entries max_version ((key, version, value) ∷ rest) =
    load_loop
      (if ltb (version_of (Dict.get entries key)) version
        then Dict.insert entries key (record { version = version; value = value })
        else entries)
      (max max_version version) rest

unfoldable pub load_entries : StateStore → List (String × ℕ × Value) → StateStore
unfolding load_loop
load_entries st loaded =
    let (entries, max_version) = load_loop st.entries 0 loaded in
    record st { entries = entries; global_version = max st.global_version max_version }

-- `sort_unstable_by_key(|e| e.version)`, here as a stable insertion sort.
unfoldable pub insert_by_version : LogEntry → List LogEntry → List LogEntry
insert_by_version e [] = e ∷ []
insert_by_version e (f ∷ l) =
    if leb e.version f.version then e ∷ f ∷ l else f ∷ insert_by_version e l

unfoldable pub sort_by_version : List LogEntry → List LogEntry
unfolding insert_by_version
sort_by_version [] = []
sort_by_version (e ∷ l) = insert_by_version e (sort_by_version l)

abbrev pub last_version : ℕ → List LogEntry → ℕ
last_version v [] = v
last_version v (e ∷ l) = last_version e.version l

-- The loop of `StateStore::open`.
unfoldable pub restore : Dict StateEntry → DeltaLog → List LogEntry → Dict StateEntry × DeltaLog
restore entries delta_log [] = (entries, delta_log)
restore entries delta_log (e ∷ rest) =
    restore (Dict.insert entries e.key (record { version = e.version; value = e.value }))
      (if is_empty e.ops then delta_log else log_append delta_log e.key e.version e.ops) rest

unfoldable pub open_store : Codec → IdMap Bytes → StateStore
unfolding sort_by_version restore
open_store codec files =
    let (plog, all_entries) = open_log codec files in
    let sorted = sort_by_version all_entries in
    let (entries, delta_log) = restore [] [] sorted in
    record {
      entries = entries;
      global_version = last_version 0 sorted;
      log = delta_log;
      plog = some plog;
    }
