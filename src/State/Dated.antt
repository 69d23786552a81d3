-- ===== src/State/Dated.antt =====
-- How the versions of a key relate: its stored entry, its logged deltas and the counter.
use sodp.Base.{
  ℕ, ◌+◌, ◌^◌, ◌≤◌, ◌<◌, ◌≡◌, sym, subst, String, false, some, some-injective, none-ne-some, List,
  [], ◌∷◌, arith, All, Bool-cases, inl, inr, is_empty, str_eq, Option-cases,
}
use sodp.Base.Dict
use sodp.Json.{Value}
use sodp.Log.{Codec}
use sodp.State.{
  StateEntry, StateStore, Delta, new, deltas_of, log_append, get, next_version, apply, delete,
}
use sodp.State.DeltaLog.{All-log_append, deltas_of-log_append}
use sodp.State.Deletes.{removal_ops, global_version-delete, log-delete}
use sodp.State.Writes.{get-delete, get-apply, global_version-apply, log-apply, ops_of}
use sodp.State.CatchUp.{delete_absent}

-- No delta logged for the key is newer than its stored entry, and nothing is newer than the counter.
pub record IsDated (key : String) (st : StateStore) : Type 0 where
  pub of_entry :
      (e : StateEntry)
      → get st key ≡ some e
      → (e.version ≤ st.global_version) × All (λ d. d.0 ≤ e.version) (deltas_of st.log key)
  pub of_deltas : All (λ d. d.0 ≤ st.global_version) (deltas_of st.log key)

pub new-IsDated : (key : String) → IsDated key new
unfolding get Dict.get
new-IsDated key = record { of_entry = λ e h. absurd (none-ne-some _ h); of_deltas = tt }

versions_later : (l : List Delta) (n m : ℕ) → n ≤ m → All (λ d. d.0 ≤ n) l → All (λ d. d.0 ≤ m) l
versions_later [] n m h a = tt
versions_later (d ∷ l) n m h a = (omega (arith, a.0), versions_later l n m h a.1)

module _ (codec : Codec) (key : String) (st : StateStore) (d : IsDated key st)
    (g : st.global_version + 1 < 2 ^ 64) where
  counts : next_version st ≡ st.global_version + 1
  counts = omega arith

  grown : All (λ d. d.0 ≤ next_version st) (deltas_of st.log key)
  grown =
      versions_later (deltas_of st.log key) st.global_version (next_version st) (omega arith)
        d.of_deltas

  module _ (k : String) (v : Value) where
    of_deltas-apply : All (λ d. d.0 ≤ next_version st) (deltas_of (apply codec st k v).0.log key)
    of_deltas-apply =
        rw (log-apply codec st k v) (elim (Bool-cases (is_empty (ops_of codec st k v))) [
          | inl e ↦ rw e grown
          | inr e ↦ rw e (
              All-log_append (λ d. d.0 ≤ next_version st) st.log k key (next_version st)
                (ops_of codec st k v) grown (omega arith))
        ])

    of_deltas-apply_ne :
        (n : ℕ)
        → str_eq k key ≡ false
        → All (λ d. d.0 ≤ n) (deltas_of st.log key)
        → All (λ d. d.0 ≤ n) (deltas_of (apply codec st k v).0.log key)
    of_deltas-apply_ne n other a =
        rw (log-apply codec st k v) (elim (Bool-cases (is_empty (ops_of codec st k v))) [
          | inl e ↦ rw e a
          | inr e ↦
              rw
                (
                  e,
                  deltas_of-log_append st.log k key (next_version st) (ops_of codec st k v),
                  other,
                )
                a
        ])

    pub apply-IsDated : IsDated key (apply codec st k v).0
    apply-IsDated = record {
      of_entry = λ e h. elim (Bool-cases (str_eq k key)) [
        | inl same ↦
            let stored = rw (get-apply codec st k v key, same) at h in
            rw (sym (some-injective _ _ stored), global_version-apply codec st k v)
              (omega arith, of_deltas-apply)
        | inr other ↦
            let kept = rw (get-apply codec st k v key, other) at h in
            let (old, a) = d.of_entry e kept in
            rw (global_version-apply codec st k v)
              (omega (arith, old), of_deltas-apply_ne e.version other a)
      ];
      of_deltas = rw (global_version-apply codec st k v) of_deltas-apply;
    }

  module _ (k : String) (old : StateEntry) (found : Dict.get st.entries k ≡ some old) where
    log-deleted : (delete codec st k).0.log ≡ log_append st.log k (next_version st) removal_ops
    log-deleted = log-delete codec st k old found

    delete_found-IsDated : IsDated key (delete codec st k).0
    delete_found-IsDated = record {
      of_entry = λ e h. elim (Bool-cases (str_eq k key)) [
        | inl same ↦ absurd (none-ne-some _ (rw (get-delete codec st k key, same) at h))
        | inr other ↦
            let kept = rw (get-delete codec st k key, other) at h in
            let (before, a) = d.of_entry e kept in
            rw
              (
                global_version-delete codec st k old found,
                log-deleted,
                deltas_of-log_append st.log k key (next_version st) removal_ops,
                other,
              )
              (omega (arith, before), a)
      ];
      of_deltas =
          rw (global_version-delete codec st k old found, log-deleted)
            (All-log_append (λ d. d.0 ≤ next_version st) st.log k key (next_version st) removal_ops
              grown (omega arith));
    }

  pub delete-IsDated : (k : String) → IsDated key (delete codec st k).0
  delete-IsDated k = elim (Option-cases (Dict.get st.entries k)) [
    | inl absent ↦ subst (IsDated key) (sym (delete_absent codec st k absent)) d
    | inr (old, found) ↦ delete_found-IsDated k old found
  ]
