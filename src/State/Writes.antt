-- ===== src/State/Writes.antt =====
-- What one `apply` changes: the entry of its key, the version, and the log of its key.
use sodp.Base.{
  ℕ, ◌+◌, ◌≤◌, ◌<◌, ◌≡◌, refl, String, Bool, true, false, none, some, List, [], ◌∷◌, ◌++◌, arith,
  Option-cases, inl, inr, length, is_empty, eq_iff, eq_refl, str_eq, if◌then◌else◌,
}
use sodp.Base.Dict
use sodp.Base.Dict.{get-insert, get-remove}
use sodp.Json.{Value}
use sodp.Delta.{DeltaOp}
use sodp.Log.{LogEntry, Codec}
use sodp.State.{
  StateStore, deltas_of, log_append, max_delta_log_entries_per_key, get, deltas_since, next_version,
  persist, ops_for, logged, apply, delete,
}
use sodp.State.DeltaLog.{length-log_append, log_since-log_append, log_since-log_append_ne}

module _ (codec : Codec) (st : StateStore) (e : LogEntry) where
  pub entries-persist : (persist codec st e).entries ≡ st.entries
  unfolding persist
  entries-persist = ground arith

  pub log-persist : (persist codec st e).log ≡ st.log
  unfolding persist
  log-persist = ground arith

  pub global_version-persist : (persist codec st e).global_version ≡ st.global_version
  unfolding persist
  global_version-persist = ground arith

-- The last step of `apply`: a write that changed nothing is not logged.
module _ (codec : Codec) (st : StateStore) (k : String) (version : ℕ) (ops : List DeltaOp)
    (new : Value) where
  abbrev finished : Bool → StateStore
  finished unchanged = if unchanged then st else logged codec st k version ops new

  abbrev record_to_log : StateStore
  record_to_log = record st { log = log_append st.log k version ops }

  abbrev new_entry : LogEntry
  new_entry = record { version = version; key = k; ops = ops; value = new }

  entries-finished : (b : Bool) → (finished b).entries ≡ st.entries
  entries-finished true = refl
  entries-finished false = entries-persist codec record_to_log new_entry

  global_version-finished : (b : Bool) → (finished b).global_version ≡ st.global_version
  global_version-finished true = refl
  global_version-finished false = global_version-persist codec record_to_log new_entry

  log-finished :
      (b : Bool) → (finished b).log ≡ (if b then st.log else log_append st.log k version ops)
  log-finished true = refl
  log-finished false = log-persist codec record_to_log new_entry

-- The log and the value of a key after one write, with the persistent log out of the way.
module _ (codec : Codec) (st : StateStore) (k : String) (new : Value) where
  abbrev pub written : StateStore
  written = (apply codec st k new).0

  abbrev pub ops_of : List DeltaOp
  ops_of = ops_for (Dict.get st.entries k) new

  abbrev entered : StateStore
  entered = record st {
    entries = Dict.insert st.entries k (record { version = next_version st; value = new });
    global_version = next_version st;
  }

  pub get-apply :
      (key : String)
      → get written key ≡ (
          if str_eq k key
          then some (record { version = next_version st; value = new })
          else get st key)
  unfolding get apply
  get-apply key =
      rw (entries-finished codec entered k (next_version st) ops_of new (is_empty ops_of))
        (get-insert st.entries k key (record { version = next_version st; value = new }))

  pub get-apply_self : get written k ≡ some (record { version = next_version st; value = new })
  get-apply_self = rw (get-apply k, eq_refl k)

  pub global_version-apply : written.global_version ≡ next_version st
  unfolding apply
  global_version-apply =
      global_version-finished codec entered k (next_version st) ops_of new (is_empty ops_of)

  pub log-apply :
      written.log
      ≡ (if is_empty ops_of then st.log else log_append st.log k (next_version st) ops_of)
  unfolding apply
  log-apply = log-finished codec entered k (next_version st) ops_of new (is_empty ops_of)

  -- The deltas of another key are not touched.
  pub deltas_since-apply_ne :
      (key : String) (since : ℕ)
      → str_eq k key ≡ false
      → deltas_since written key since ≡ deltas_since st key since
  unfolding deltas_since
  deltas_since-apply_ne key since h =
      rw log-apply
        (ground (arith, log_since-log_append_ne st.log k key (next_version st) ops_of since h))

  pub deltas_since-apply :
      (since : ℕ)
      → length (deltas_of st.log k) < max_delta_log_entries_per_key
      → since < next_version st
      → deltas_since written k since ≡ (
          if is_empty ops_of
          then deltas_since st k since
          else deltas_since st k since ++ (next_version st, ops_of) ∷ [])
  unfolding deltas_since
  deltas_since-apply since room newer =
      rw log-apply
        (ground (arith, log_since-log_append st.log k (next_version st) ops_of since room newer))

  grows :
      (key : String) (unchanged : Bool)
      → length (
          deltas_of
            (if unchanged then st.log else log_append st.log k (next_version st) ops_of)
            key)
        ≤ length (deltas_of st.log key) + 1
  grows key true = omega arith
  grows key false = length-log_append st.log k key (next_version st) ops_of

  -- Writes of other keys do not move the log of a key; a write of the key adds at most one delta.
  pub length-deltas_of-apply :
      (key : String) → length (deltas_of written.log key) ≤ length (deltas_of st.log key) + 1
  length-deltas_of-apply key = rw log-apply (grows key (is_empty ops_of))

-- What `delete` leaves under each key.
pub get-delete :
    (codec : Codec) (st : StateStore) (k key : String)
    → get (delete codec st k).0 key ≡ (if str_eq k key then none else get st key)
unfolding get delete
get-delete codec st k key = elim (Option-cases (Dict.get st.entries k)) [
  | inl e ↦ rw (e, delete) (ground (arith, eq_iff k key))
  | inr (old, e) ↦ rw (e, delete) (rw entries-persist (get-remove st.entries k key))
]
