-- ===== src/State/Resume.antt =====
-- RESUME: the deltas since a client's version lead from its value to the current one.
use sodp.Base.{
  ℕ, ◌+◌, ◌^◌, ◌≤◌, ◌<◌, ◌≡◌, ◌⊎◌, some, String, List, [], ◌∷◌, arith, All, inl, inr, length,
  Option-cases,
}
use sodp.Base.Dict
use sodp.Base.Dict.{get-insert}
use sodp.Json.{Value, WellFormed}
use sodp.Delta.Apply.{SafeKeys}
use sodp.Log.{Codec}
use sodp.State.{
  StateEntry, StateStore, deltas_of, log_since, max_delta_log_entries_per_key, get, deltas_since,
  apply, delete,
}
use sodp.State.DeltaLog.{since_latest}
use sodp.State.Dated.{IsDated, apply-IsDated, delete-IsDated}
use sodp.State.Deletes.{global_version-delete, length-deltas_of-delete}
use sodp.State.Writes.{global_version-apply, length-deltas_of-apply}
use sodp.State.CatchUp.{
  apply_deltas, value_of, CanResume, delete_absent, CanResume-apply, CanResume-delete,
}

-- What other clients may do to the store meanwhile.
pub data Change : Type 0 where
  write : String → Value → Change
  removal : String → Change

abbrev pub change_one : Codec → StateStore → Change → StateStore
change_one codec st (write k v) = (apply codec st k v).0
change_one codec st (removal k) = (delete codec st k).0

unfoldable pub change_all : Codec → StateStore → List Change → StateStore
change_all codec st [] = st
change_all codec st (ch ∷ chs) = change_all codec (change_one codec st ch) chs

abbrev pub IsSafeChange : Change → Type 0
IsSafeChange (write k v) = WellFormed v × SafeKeys v
IsSafeChange (removal k) = Unit

pub version-delete :
    (codec : Codec) (st : StateStore) (k : String)
    → st.global_version + 1 < 2 ^ 64
    → (delete codec st k).0.global_version ≤ st.global_version + 1
version-delete codec st k g = elim (Option-cases (Dict.get st.entries k)) [
  | inl absent ↦ rw (delete_absent codec st k absent) (omega arith)
  | inr (e, found) ↦ rw (global_version-delete codec st k e found) (omega arith)
]

length-deltas_of-delete_any :
    (codec : Codec) (st : StateStore) (k key : String)
    → length (deltas_of (delete codec st k).0.log key) ≤ length (deltas_of st.log key) + 1
length-deltas_of-delete_any codec st k key = elim (Option-cases (Dict.get st.entries k)) [
  | inl absent ↦ rw (delete_absent codec st k absent) (omega arith)
  | inr (e, found) ↦ length-deltas_of-delete codec st k e found key
]

CanResume-change_all :
    (codec : Codec) (key : String) (x : Value) (since : ℕ) (st : StateStore) (chs : List Change)
    → CanResume key x since st
    → All IsSafeChange chs
    → st.global_version + length chs < 2 ^ 64
    → length (deltas_of st.log key) + length chs ≤ max_delta_log_entries_per_key
    → CanResume key x since (change_all codec st chs)
unfolding change_all
CanResume-change_all codec key x since st [] c s g room = c
CanResume-change_all codec key x since st (write k v ∷ chs) c s g room =
    CanResume-change_all codec key x since (apply codec st k v).0 chs
      (CanResume-apply codec key x since st k v c s.0.0 s.0.1 (omega arith) (omega arith)) s.1
      (rw (global_version-apply codec st k v) (omega arith))
      (omega (arith, length-deltas_of-apply codec st k v key))
CanResume-change_all codec key x since st (removal k ∷ chs) c s g room =
    CanResume-change_all codec key x since (delete codec st k).0 chs
      (CanResume-delete codec key x since st k c (omega arith) (omega arith)) s.1
      (omega (arith, version-delete codec st k (omega arith)))
      (omega (arith, length-deltas_of-delete_any codec st k key))

change_all-IsDated :
    (codec : Codec) (key : String) (st : StateStore) (chs : List Change)
    → IsDated key st
    → st.global_version + length chs < 2 ^ 64
    → IsDated key (change_all codec st chs)
      × ((change_all codec st chs).global_version ≤ st.global_version + length chs)
unfolding change_all
change_all-IsDated codec key st [] d g = (d, omega arith)
change_all-IsDated codec key st (write k v ∷ chs) d g =
    let counts = global_version-apply codec st k v in
    let (later, bound) =
      change_all-IsDated codec key (apply codec st k v).0 chs
        (apply-IsDated codec key st d (omega arith) k v) (rw counts (omega arith)) in
    (later, omega (arith, bound, counts))
change_all-IsDated codec key st (removal k ∷ chs) d g =
    let counts = version-delete codec st k (omega arith) in
    let (later, bound) =
      change_all-IsDated codec key (delete codec st k).0 chs
        (delete-IsDated codec key st d (omega arith) k) (omega (arith, counts)) in
    (later, omega (arith, bound, counts))

-- The version that a client has of a key, from the last STATE_INIT or DELTA of the key that it got:
-- the version of the stored entry, or an older one after which no delta of the key was logged (a
-- write that changes nothing gives the entry a new version, and logs and sends no delta).
abbrev pub IsLastReceived : StateStore → String → StateEntry → ℕ → Type 0
IsLastReceived st key e since =
    (since ≡ e.version) ⊎ ((since ≤ e.version) × All (λ d. d.0 ≤ since) (deltas_of st.log key))

-- A client that has the current value of a key, and disconnects, catches up by RESUME whatever is
-- written or deleted meanwhile, under any keys: the deltas that the store gives for the version that
-- the client last received for the key turn its value into the current one, where a key that is not
-- there counts as null. That version is in general older than the store's counter: `before` are the
-- changes since the store was in order (a new one is), `meanwhile` those that the client misses. The
-- key's logged deltas and the missed changes together do not pass the cap of 1000, the version
-- counter does not reach 2^64, and the stored and written values are well formed with keys that a
-- path can name.
pub resume_catches_up :
    (codec : Codec) (key : String) (start : StateStore) (before meanwhile : List Change)
    (e : StateEntry) (since : ℕ)
    → IsDated key start
    → start.global_version + length before + length meanwhile < 2 ^ 64
    → get (change_all codec start before) key ≡ some e
    → IsLastReceived (change_all codec start before) key e since
    → WellFormed e.value × SafeKeys e.value
    → All IsSafeChange meanwhile
    → length (deltas_of (change_all codec start before).log key) + length meanwhile
      ≤ max_delta_log_entries_per_key
    → let now = change_all codec (change_all codec start before) meanwhile in
      apply_deltas e.value (deltas_since now key since) ≡ value_of (get now key)
unfolding apply_deltas deltas_since log_since
resume_catches_up codec key start before meanwhile e since dated g has last stored s room =
    let st = change_all codec start before in
    let (d, bound) = change_all-IsDated codec key start before dated (omega arith) in
    let (old, upto) = d.of_entry e has in
    let received : (since ≤ e.version) × All (λ d. d.0 ≤ since) (deltas_of st.log key) = elim last [
      | inl same ↦ rw same (omega arith, upto)
      | inr older ↦ older
    ] in
    (CanResume-change_all codec key e.value since st meanwhile
      (record {
        caught_up = rw (has, since_latest (deltas_of st.log key) since received.1);
        not_ahead = omega (arith, received, old);
        stored = rw has stored;
      })
      s (omega (arith, bound)) room).caught_up
