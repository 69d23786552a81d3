-- ===== src/State/Deletes.antt =====
-- What one `delete` of a stored key changes: the entry of its key, the version, and the log of its
-- key.
use sodp.Base.{ℕ, ◌+◌, ◌≤◌, ◌<◌, ◌≡◌, String, false, some, List, [], ◌∷◌, ◌++◌, length, str_eq}
use sodp.Base.Dict
use sodp.Json.{null}
use sodp.Delta.{DeltaOp, remove}
use sodp.Log.{Codec, LogEntry}
use sodp.State.{
  StateEntry, StateStore, deltas_of, log_append, max_delta_log_entries_per_key, deltas_since,
  next_version, delete,
}
use sodp.State.DeltaLog.{length-log_append, log_since-log_append, log_since-log_append_ne}
use sodp.State.Writes.{log-persist, global_version-persist}

abbrev pub removal_ops : List DeltaOp
removal_ops = remove "/" ∷ []

module _ (codec : Codec) (st : StateStore) (k : String) (e : StateEntry)
    (found : Dict.get st.entries k ≡ some e) where
  abbrev entered : StateStore
  entered = record st {
    entries = Dict.remove st.entries k;
    global_version = next_version st;
    log = log_append st.log k (next_version st) removal_ops;
  }

  abbrev new_entry : LogEntry
  new_entry = record { version = next_version st; key = k; ops = removal_ops; value = null }

  pub log-delete : (delete codec st k).0.log ≡ log_append st.log k (next_version st) removal_ops
  unfolding delete
  log-delete = rw (found, delete) (log-persist codec entered new_entry)

  pub global_version-delete : (delete codec st k).0.global_version ≡ next_version st
  unfolding delete
  global_version-delete = rw (found, delete) (global_version-persist codec entered new_entry)

  pub deltas_since-delete_ne :
      (key : String) (since : ℕ)
      → str_eq k key ≡ false
      → deltas_since (delete codec st k).0 key since ≡ deltas_since st key since
  unfolding deltas_since
  deltas_since-delete_ne key since h =
      rw log-delete (log_since-log_append_ne st.log k key (next_version st) removal_ops since h)

  pub deltas_since-delete :
      (since : ℕ)
      → length (deltas_of st.log k) < max_delta_log_entries_per_key
      → since < next_version st
      → deltas_since (delete codec st k).0 k since
        ≡ deltas_since st k since ++ (next_version st, removal_ops) ∷ []
  unfolding deltas_since
  deltas_since-delete since room newer =
      rw log-delete (log_since-log_append st.log k (next_version st) removal_ops since room newer)

  pub length-deltas_of-delete :
      (key : String)
      → length (deltas_of (delete codec st k).0.log key) ≤ length (deltas_of st.log key) + 1
  length-deltas_of-delete key =
      rw log-delete (length-log_append st.log k key (next_version st) removal_ops)
