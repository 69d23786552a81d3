-- ===== src/State/Persistence.antt =====
-- A persistent store is a map, through writes and restarts, as long as nothing with a REMOVE op is
-- logged.
use sodp.Base.{
  ◌+◌, ◌≤◌, ◌<◌, ◌^◌, ◌≡◌, refl, ap, sym, ◌∙◌, subst, String, none, some, some-injective, List, [],
  ◌∷◌, arith, All, length, str_eq, if◌then◌else◌,
}
use sodp.Base.Dict.{Dict}
use sodp.Json.{Value, null, WellFormed}
use sodp.Delta.Apply.{SafeKeys}
use sodp.Log.Recovery.{Writes, IsPlain, Writes-Encodes}
use sodp.Frame.{Bytes}
use sodp.Log.{LogEntry, Codec, SegmentedLog}
use sodp.Log.Opening.{length-files, crash}
use sodp.Log.Compaction.{Encodable}
use sodp.State.{apply, StateEntry, StateStore, new, get, snapshot_of, open_store}
use sodp.State.CatchUp.{value_of}
use sodp.State.Writes.{global_version-apply}
use sodp.State.Resume.{write, Change}
use sodp.State.Durable.{values_of, IsDurable}
use sodp.State.Changes.{
  entries_after, entry_for, key_of, value_for, after, values_of-change_one, change_one-IsDurable,
}
use sodp.State.Restarts.{IsCutOff, IsCutOff-Torn, open_store_empty, reopened-IsDurable}

pub data Event : Type 0 where
  set : String → Value → Event
  -- The process stops, `tail` at the end of the current segment, and the store is opened again.
  restart : Bytes → Event

abbrev pub step : Codec → StateStore → Event → StateStore
step codec st (set k v) = (apply codec st k v).0
step codec st (restart tail) = elim st.plog [
  | none ↦ new
  | some plog ↦ open_store codec (crash codec plog tail)
]

unfoldable pub run : Codec → StateStore → List Event → StateStore
run codec st [] = st
run codec st (ev ∷ evs) = run codec (step codec st ev) evs

-- The same for a map: a restart changes nothing.
abbrev pub map_after : (String → Value) → List Event → String → Value
map_after values [] = values
map_after values (set k v ∷ evs) = map_after (after values (write k v)) evs
map_after values (restart tail ∷ evs) = map_after values evs

-- What `rmp_serde` writes for an entry, and reads back.
abbrev pub Writable : Codec → LogEntry → Type 0
Writable codec e = (payload : Bytes) × Writes codec e payload

-- The entries of a write: the one to log, and the snapshot that a compaction then writes.
abbrev pub logged_by : StateStore → String → Value → List LogEntry
logged_by st k v = entry_for st (write k v) ∷ snapshot_of (entries_after st (write k v))

-- What a run relies on: the values are well formed with keys that a path can name; each op that a
-- write logs has a value, and not null, so that there is no REMOVE op; `rmp_serde` reads the entries
-- that it wrote, in fewer than 4 GiB each; and a crash cuts off one record.
unfoldable pub CanRun : Codec → StateStore → List Event → Type 0
CanRun codec st [] = Unit
CanRun codec st (set k v ∷ evs) =
    ((WellFormed v × SafeKeys v)
      × IsPlain codec (entry_for st (write k v))
      × All (Writable codec) (logged_by st k v))
    × CanRun codec (apply codec st k v).0 evs
CanRun codec st (restart tail ∷ evs) =
    IsCutOff codec tail × CanRun codec (step codec st (restart tail)) evs

module _ (codec : Codec) where
  -- The entries of a snapshot have no ops.
  snapshot-Encodable :
      (entries : Dict StateEntry)
      → All (Writable codec) (snapshot_of entries)
      → All (Encodable codec) (snapshot_of entries)
  snapshot-Encodable [] h = tt
  snapshot-Encodable (e ∷ es) h =
      ((h.0.0, Writes-Encodes codec _ h.0.0 tt h.0.1), snapshot-Encodable es h.1)

  logged_by-Encodable :
      (st : StateStore) (k : String) (v : Value)
      → IsPlain codec (entry_for st (write k v))
      → All (Writable codec) (logged_by st k v)
      → All (Encodable codec) (logged_by st k v)
  logged_by-Encodable st k v plain h = (
    (h.0.0, Writes-Encodes codec (entry_for st (write k v)) h.0.0 plain h.0.1),
    snapshot-Encodable (entries_after st (write k v)) h.1,
  )

-- The store is durable and has the values of the map.
pub record IsMap (codec : Codec) (st : StateStore) (values : String → Value) : Type 0 where
  pub durable : IsDurable codec st
  pub same : (key : String) → values_of st key ≡ values key

after_same :
    (a b : String → Value) (ch : Change)
    → ((key : String) → a key ≡ b key)
    → (key : String) → after a ch key ≡ after b ch key
after_same a b ch h key = ap (λ v. if str_eq (key_of ch) key then value_for ch else v) (h key)

restart-IsMap :
    (codec : Codec) (st : StateStore) (values : String → Value) (tail : Bytes)
    → IsMap codec st values
    → IsCutOff codec tail
    → IsMap codec (step codec st (restart tail)) values
      × ((step codec st (restart tail)).global_version ≤ st.global_version)
restart-IsMap codec st values tail m torn =
    let d = m.durable in
    let (again, kept, counter) =
      reopened-IsDurable codec st d tail (IsCutOff-Torn codec tail torn) in
    let opens : step codec st (restart tail) ≡ open_store codec (crash codec d.plog tail) =
      rw d.persists refl in
    rw opens (record { durable = again; same = λ key. kept key ∙ m.same key }, counter)

IsMap-run :
    (codec : Codec) (st : StateStore) (values : String → Value) (evs : List Event)
    → IsMap codec st values
    → st.global_version + length evs < 2 ^ 64
    → CanRun codec st evs
    → IsMap codec (run codec st evs) (map_after values evs)
unfolding run CanRun
IsMap-run codec st values [] m g c = m
IsMap-run codec st values (set k v ∷ evs) m g c =
    let ch = write k v in
    let encodable = logged_by-Encodable codec st k v c.0.1 c.0.2 in
    IsMap-run codec (apply codec st k v).0 (after values ch) evs
      (record {
        durable = change_one-IsDurable codec st m.durable (omega arith) ch c.0.0 encodable;
        same = λ key.
            values_of-change_one codec st ch key ∙ after_same (values_of st) values ch m.same key;
      })
      (rw (global_version-apply codec st k v) (omega arith)) c.1
IsMap-run codec st values (restart tail ∷ evs) m g c =
    let (again, counter) = restart-IsMap codec st values tail m c.0 in
    IsMap-run codec (step codec st (restart tail)) values evs again (omega (arith, counter)) c.1

-- From an empty directory.
pub run_empty-IsMap :
    (codec : Codec) (evs : List Event)
    → length evs < 2 ^ 64
    → CanRun codec (open_store codec []) evs
    → IsMap codec (run codec (open_store codec []) evs) (map_after (λ key. null) evs)
run_empty-IsMap codec evs g c =
    let (durable, same, counter) = open_store_empty codec in
    IsMap-run codec (open_store codec []) (λ key. null) evs
      (record { durable = durable; same = same }) (omega (arith, counter)) c

-- A store opened on an empty directory is a map, as long as no REMOVE op is logged: after any writes
-- and restarts, also where a crash cut off the record of a further append, the value under each key
-- is the one last written, and null where there is none. Rotations and compactions of the log on the
-- way change nothing. There are fewer than 2^64 events; values are well formed with keys that a path
-- can name; each op that a write logs has a value that is not null, so that a write drops no field
-- of the value before it and nothing is deleted; and `rmp_serde` reads what it wrote of the entries
-- logged or to be put in a snapshot, in fewer than 4 GiB each.
pub run-map_after :
    (codec : Codec) (evs : List Event)
    → length evs < 2 ^ 64
    → CanRun codec (open_store codec []) evs
    → (key : String)
    → value_of (get (run codec (open_store codec []) evs) key) ≡ map_after (λ k. null) evs key
run-map_after codec evs g c = (run_empty-IsMap codec evs g c).same

-- In a run of writes and restarts from an empty directory, under the same conditions (no REMOVE op
-- is logged), the log's directory never holds more than three files after an event.
pub run-few_files :
    (codec : Codec) (evs : List Event) (plog : SegmentedLog)
    → length evs < 2 ^ 64
    → CanRun codec (open_store codec []) evs
    → (run codec (open_store codec []) evs).plog ≡ some plog
    → length plog.files ≤ 3
run-few_files codec evs plog g c is =
    let d = (run_empty-IsMap codec evs g c).durable in
    let same : d.plog ≡ plog = some-injective d.plog plog (sym d.persists ∙ is) in
    subst (λ p. length p.files ≤ 3) same
      (omega (arith, length-files codec d.plog d.logs.old d.logs.es d.logs.is, d.logs.few))
