-- ===== src/State/DeltaLog.antt =====
-- What the per-key log of deltas keeps.
use sodp.Base.{
  zero, suc, drop, All-append, subst, sym, Bool-cases, inl, inr, ℕ, ◌-◌, ◌≤◌, ◌<◌, ◌≡◌, refl,
  String, List, [], ◌∷◌, ◌++◌, arith, false, All, ltb, lt→ltb, eq_refl, eq_iff, ◌+◌, length, retain,
  retain-append, length-append, length-drop, str_eq, if◌then◌else◌,
}
use sodp.Base.Dict.{get-insert}
use sodp.Delta.{DeltaOp}
use sodp.State.{
  Delta, DeltaLog, deltas_of, evict, log_append, log_since, max_delta_log_entries_per_key,
}

-- Appending to one key evicts only there.
pub deltas_of-log_append :
    (log : DeltaLog) (key other : String) (version : ℕ) (ops : List DeltaOp)
    → deltas_of (log_append log key version ops) other ≡ (
        if str_eq key other
        then evict (deltas_of log key ++ (version, ops) ∷ [])
        else deltas_of log other)
unfolding log_append
deltas_of-log_append log key other version ops =
    ground (arith, get-insert log key other (evict (deltas_of log key ++ (version, ops) ∷ [])))

-- The log of a key never grows past the cap.
pub length-evict : (l : List Delta) → length (evict l) ≤ max_delta_log_entries_per_key
length-evict l = ground (arith, length-drop (length l - max_delta_log_entries_per_key) l)

pub length-evict-le : (l : List Delta) → length (evict l) ≤ length l
length-evict-le l = ground (arith, length-drop (length l - max_delta_log_entries_per_key) l)

pub evict_small : (l : List Delta) → length l ≤ max_delta_log_entries_per_key → evict l ≡ l
evict_small l h = ground arith

-- While the log of a key has room, RESUME sees one more delta: the one appended, if it is newer
-- than the client's version.
pub log_since-log_append :
    (log : DeltaLog) (key : String) (version : ℕ) (ops : List DeltaOp) (since : ℕ)
    → length (deltas_of log key) < max_delta_log_entries_per_key
    → since < version
    → log_since (log_append log key version ops) key since
      ≡ log_since log key since ++ (version, ops) ∷ []
unfolding log_since
log_since-log_append log key version ops since room newer =
    let l = deltas_of log key in
    let new = (version, ops) ∷ [] in
    let fits : length (l ++ new) ≤ max_delta_log_entries_per_key =
      omega (arith, length-append l new) in
    rw (
      deltas_of-log_append log key key version ops,
      eq_refl key,
      evict_small (l ++ new) fits,
      retain-append (λ d. ltb since d.0) l new,
      lt→ltb since version newer,
    )

pub log_since-log_append_ne :
    (log : DeltaLog) (key other : String) (version : ℕ) (ops : List DeltaOp) (since : ℕ)
    → str_eq key other ≡ false
    → log_since (log_append log key version ops) other since ≡ log_since log other since
unfolding log_since
log_since-log_append_ne log key other version ops since h =
    rw (deltas_of-log_append log key other version ops, h)

-- A client at a version that no delta passes misses none.
pub since_latest :
    (l : List Delta) (since : ℕ) → All (λ d. d.0 ≤ since) l → retain (λ d. ltb since d.0) l ≡ []
since_latest [] since h = refl
since_latest (d ∷ l) since h = ground (arith, since_latest l since h.1)

-- One more delta at most, in the log of any key.
pub length-log_append :
    (log : DeltaLog) (k key : String) (version : ℕ) (ops : List DeltaOp)
    → length (deltas_of (log_append log k version ops) key) ≤ length (deltas_of log key) + 1
length-log_append log k key version ops =
    let l = deltas_of log k in
    let one : List Delta = (version, ops) ∷ [] in
    rw (deltas_of-log_append log k key version ops)
      (ground (arith, eq_iff k key, length-evict-le (l ++ one), length-append l one))

module _ {ℓ} (P : Delta → Type ℓ) where
  All-drop : (n : ℕ) (l : List Delta) → All P l → All P (drop n l)
  All-drop zero l h = h
  All-drop (suc n) [] h = tt
  All-drop (suc n) (d ∷ l) h = All-drop n l h.1

  All-evict : (l : List Delta) → All P l → All P (evict l)
  All-evict l h = ground (arith, All-drop (length l - max_delta_log_entries_per_key) l h)

  -- What holds of the deltas of a key and of the one appended, holds of those that are kept.
  pub All-log_append :
      (log : DeltaLog) (k key : String) (version : ℕ) (ops : List DeltaOp)
      → All P (deltas_of log key)
      → P (version, ops)
      → All P (deltas_of (log_append log k version ops) key)
  All-log_append log k key version ops h p =
      rw (deltas_of-log_append log k key version ops) (elim (Bool-cases (str_eq k key)) [
        | inl same ↦ rw same (
            All-evict (deltas_of log k ++ (version, ops) ∷ []) (
              All-append P (deltas_of log k) ((version, ops) ∷ [])
                (subst (λ j. All P (deltas_of log j)) (sym ((eq_iff k key).0 same)) h) (p, tt)))
        | inr other ↦ rw other h
      ])
