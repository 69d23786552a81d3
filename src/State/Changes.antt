-- ===== src/State/Changes.antt =====
-- One write and one delete of a persistent store.
use sodp.Base.{
  ◌+◌, ◌<◌, ◌^◌, ◌≡◌, refl, ap, sym, ◌∙◌, subst, String, Bool, true, false, Option, none, List, [],
  ◌∷◌, arith, All, All-mono, Bool-cases, Option-cases, inl, inr, str_eq, eq_iff, is_empty,
  if◌then◌else◌,
}
use sodp.State.Writes.{get-apply, get-delete}
use sodp.Base.Dict
use sodp.Base.Dict.{
  Dict, IsUnique, get-insert, get-remove, insert-IsUnique, remove-IsUnique, All-insert, All-remove,
  All-get,
}
use sodp.Json.{Value, null, WellFormed}
use sodp.Delta.{DeltaOp, remove}
use sodp.Delta.Apply.{SafeKeys}
use sodp.Log.{LogEntry, Codec}
use sodp.Log.Compaction.{Encodable}
use sodp.State.{
  StateEntry, StateStore, DeltaLog, persist, get, next_version, ops_for, snapshot_of, apply, delete,
}
use sodp.State.CatchUp.{value_of, ops_for-apply, apply_ops_empty, delete_absent}
use sodp.State.Resume.{Change, write, removal, change_one, IsSafeChange}
use sodp.State.Newest.{entry_of}
use sodp.State.Durable.{
  IsSafeEntry, IsSound, values_of, IsDurable, IsSafeEntry-mono, value_of-if, persist-IsDurable,
}

-- The entries of a store after a change.
abbrev pub entries_after : StateStore → Change → Dict StateEntry
entries_after st (write k v) =
    Dict.insert st.entries k (record { version = next_version st; value = v })
entries_after st (removal k) = Dict.remove st.entries k

abbrev pub key_of : Change → String
key_of (write k v) = k
key_of (removal k) = k

-- A deleted key counts as null.
abbrev pub value_for : Change → Value
value_for (write k v) = v
value_for (removal k) = null

abbrev pub ops_of_change : StateStore → Change → List DeltaOp
ops_of_change st (write k v) = ops_for (Dict.get st.entries k) v
ops_of_change st (removal k) = remove "/" ∷ []

-- The entry that a change logs.
abbrev pub entry_for : StateStore → Change → LogEntry
entry_for st ch = record {
  version = next_version st;
  key = key_of ch;
  ops = ops_of_change st ch;
  value = value_for ch;
}

-- What the values are after a change: a map.
abbrev pub after : (String → Value) → Change → String → Value
after values ch = λ key. if str_eq (key_of ch) key then value_for ch else values key

value_of-removed :
    (b : Bool) (o : Option StateEntry)
    → value_of (if b then none else o) ≡ (if b then null else value_of o)
value_of-removed true o = refl
value_of-removed false o = refl

values-change :
    (st : StateStore) (ch : Change) (key : String)
    → value_of (Dict.get (entries_after st ch) key) ≡ after (values_of st) ch key
unfolding get
values-change st (write k v) key =
    ap value_of (get-insert st.entries k key (record { version = next_version st; value = v }))
    ∙ value_of-if (str_eq k key) _ (Dict.get st.entries key)
values-change st (removal k) key =
    ap value_of (get-remove st.entries k key)
    ∙ value_of-removed (str_eq k key) (Dict.get st.entries key)

module _ (st : StateStore) (sound : IsSound st.global_version st.entries)
    (room : st.global_version + 1 < 2 ^ 64) where
  stored_safe : (k : String) → WellFormed (value_of (get st k)) × SafeKeys (value_of (get st k))
  unfolding get SafeKeys
  stored_safe k = elim (Option-cases (Dict.get st.entries k)) [
    | inl absent ↦ rw absent (unfold WellFormed in tt, tt)
    | inr (e, found) ↦
        let s = All-get (IsSafeEntry st.global_version) st.entries k e sound.safe found in
        rw found (s.1, s.2)
  ]

  safe_later : All (λ e. IsSafeEntry (next_version st) e.1) st.entries
  safe_later =
      All-mono _ _ st.entries
        (λ e. IsSafeEntry-mono st.global_version (next_version st) (omega arith) e.1) sound.safe

  pub entries_after-IsSound :
      (ch : Change) → IsSafeChange ch → IsSound (next_version st) (entries_after st ch)
  entries_after-IsSound (write k v) s = record {
    safe = All-insert _ st.entries k _ (omega arith, s.0, s.1) safe_later;
    unique = insert-IsUnique st.entries k _ sound.unique;
  }
  entries_after-IsSound (removal k) s = record {
    safe = All-remove _ st.entries k safe_later;
    unique = remove-IsUnique st.entries k sound.unique;
  }

value_for_safe :
    (ch : Change) → IsSafeChange ch → WellFormed (value_for ch) × SafeKeys (value_for ch)
unfolding SafeKeys
value_for_safe (write k v) s = s
value_for_safe (removal k) s = (unfold WellFormed in tt, tt)

-- What `change_one` makes of the values.
pub values_of-change_one :
    (codec : Codec) (st : StateStore) (ch : Change) (key : String)
    → values_of (change_one codec st ch) key ≡ after (values_of st) ch key
values_of-change_one codec st (write k v) key =
    ap value_of (get-apply codec st k v key) ∙ value_of-if (str_eq k key) _ (get st key)
values_of-change_one codec st (removal k) key =
    ap value_of (get-delete codec st k key) ∙ value_of-removed (str_eq k key) (get st key)

module _ (codec : Codec) (st : StateStore) (d : IsDurable codec st)
    (room : st.global_version + 1 < 2 ^ 64) where
  -- The store with its entries changed, and the change not yet logged.
  abbrev entered : Change → StateStore
  entered ch = record st { entries = entries_after st ch; global_version = next_version st }

  -- The change is logged.
  logged-IsDurable :
      (ch : Change) (log : DeltaLog)
      → IsSafeChange ch
      → All (Encodable codec) (entry_for st ch ∷ snapshot_of (entries_after st ch))
      → IsDurable codec (persist codec (record (entered ch) { log = log }) (entry_for st ch))
  unfolding get
  logged-IsDurable ch log safe encodable =
      persist-IsDurable codec (record (entered ch) { log = log }) d.plog st.global_version
        (values_of st) d.logs (entry_for st ch) (omega arith)
        (let s = value_for_safe ch safe in (omega arith, s.0, s.1))
        (λ key. sym (values-change st ch key)) d.persists
        (entries_after-IsSound st d.sound room ch safe) encodable.0 encodable.1

  -- Without ops the value is the one that is stored.
  no_change :
      (k : String) (v : Value)
      → IsSafeChange (write k v)
      → is_empty (ops_for (Dict.get st.entries k) v) ≡ true
      → (key : String) → values_of st key ≡ after (values_of st) (write k v) key
  unfolding get
  no_change k v safe same key = elim (Bool-cases (str_eq k key)) [
    | inr other ↦ rw other refl
    | inl this ↦
        let now = stored_safe st d.sound room k in
        rw this (
          subst (λ j. values_of st j ≡ v) ((eq_iff k key).0 this)
            (sym (apply_ops_empty (values_of st k) (ops_for (Dict.get st.entries k) v) same)
              ∙ ops_for-apply (Dict.get st.entries k) v now.0 safe.0 now.1 safe.1))
  ]

  -- A write that changes nothing is not logged.
  unchanged-IsDurable :
      (k : String) (v : Value)
      → IsSafeChange (write k v)
      → is_empty (ops_for (Dict.get st.entries k) v) ≡ true
      → IsDurable codec (entered (write k v))
  unfolding get
  unchanged-IsDurable k v safe same = record {
    plog = d.plog;
    persists = d.persists;
    logs = record {
      old = d.logs.old;
      es = d.logs.es;
      is = d.logs.is;
      few = d.logs.few;
      safe =
          All-mono _ _ _
            (λ e. IsSafeEntry-mono st.global_version (next_version st) (omega arith) (entry_of e))
            d.logs.safe;
      agrees = λ key.
          d.logs.agrees key
          ∙ (no_change k v safe same key ∙ sym (values-change st (write k v) key));
    };
    sound = entries_after-IsSound st d.sound room (write k v) safe;
  }

  pub change_one-IsDurable :
      (ch : Change)
      → IsSafeChange ch
      → All (Encodable codec) (entry_for st ch ∷ snapshot_of (entries_after st ch))
      → IsDurable codec (change_one codec st ch)
  unfolding apply delete
  change_one-IsDurable (write k v) safe encodable =
      elim (Bool-cases (is_empty (ops_for (Dict.get st.entries k) v))) [
        | inl same ↦ rw (same, change_one, apply) (unchanged-IsDurable k v safe same)
        | inr changed ↦
            rw (changed, change_one, apply) (logged-IsDurable (write k v) _ safe encodable)
      ]
  change_one-IsDurable (removal k) safe encodable = elim (Option-cases (Dict.get st.entries k)) [
    | inl absent ↦ rw (delete_absent codec st k absent) d
    | inr (e, found) ↦
        rw (found, change_one, delete) (logged-IsDurable (removal k) _ safe encodable)
  ]
