-- ===== src/Server/Others.antt =====
-- The deltas of a write and of a delete, to a copy of one key.
use sodp.Base.{
  ◌≡◌, refl, sym, ap, ◌∙◌, subst, String, true, Option, some, none, List, arith, is_empty, inl, inr,
  Bool-cases, str_eq, eq_iff, eq_refl,
}
use sodp.Json.{Value, WellFormed}
use sodp.Delta.{DeltaOp}
use sodp.Delta.Apply.{apply_ops, SafeKeys}
use sodp.Frame.{Bytes}
use sodp.State
use sodp.State.{StateStore, StateEntry, next_version, ops_for, apply, delete}
use sodp.State.Deletes.{removal_ops}
use sodp.State.Writes.{get-apply, get-apply_self, get-delete}
use sodp.State.CatchUp.{value_of, ops_for-apply, apply_ops_empty, apply_ops-removal}
use sodp.Server.{Config}
use sodp.Server.Tracked.{DeltaOf, of_key, elsewhere}

abbrev pub IsSafe : StateStore → String → Type 0
IsSafe st key = WellFormed (value_of (State.get st key)) × SafeKeys (value_of (State.get st key))

-- The ops of the change from one entry of a key to the next.
abbrev pub ops_between : Option StateEntry → Option StateEntry → List DeltaOp
ops_between old none = removal_ops
ops_between old (some e) = ops_for old e.value

-- A change of the store after which the key has a value that is well formed with keys that a path
-- can name, and of which rmp_serde reads the delta back.
pub record IsReadBack (cfg : Config) (decode : Bytes → Option (List DeltaOp)) (key : String)
    (st st' : StateStore) : Type 0 where
  pub safe : IsSafe st' key
  pub reads :
      let ops = ops_between (State.get st key) (State.get st' key) in
      decode (cfg.encode_delta_body (next_version st) ops) ≡ some ops

module _ (cfg : Config) (decode : Bytes → Option (List DeltaOp)) (key : String) (st : StateStore)
    (safe : IsSafe st key) where
  abbrev before : Value
  before = value_of (State.get st key)

  abbrev body_of : List DeltaOp → Bytes
  body_of ops = cfg.encode_delta_body (next_version st) ops

  module _ (value : Value) where
    written_value : value_of (State.get (apply cfg.codec st key value).0 key) ≡ value
    written_value = ap value_of (get-apply_self cfg.codec st key value)

    -- The value that the write stores.
    value_safe : IsSafe (apply cfg.codec st key value).0 key → WellFormed value × SafeKeys value
    value_safe s = (subst WellFormed written_value s.0, subst SafeKeys written_value s.1)

    write_leads :
        IsSafe (apply cfg.codec st key value).0 key
        → apply_ops before (ops_for (State.get st key) value) ≡ value
    write_leads s =
        let v = value_safe s in ops_for-apply (State.get st key) value safe.0 v.0 safe.1 v.1

    write-DeltaOf :
        IsReadBack cfg decode key st (apply cfg.codec st key value).0
        → DeltaOf decode key key
            (body_of (ops_for (State.get st key) value))
            before
            (value_of (State.get (apply cfg.codec st key value).0 key))
    write-DeltaOf r =
        of_key (ops_for (State.get st key) value) (eq_refl key)
          (subst
            (λ o.
              decode (body_of (ops_between (State.get st key) o))
              ≡ some (ops_between (State.get st key) o))
            (get-apply_self cfg.codec st key value) r.reads)
          (write_leads r.safe ∙ sym written_value)

  -- A write of any key.
  pub write_any-DeltaOf :
      (k : String) (value : Value)
      → IsReadBack cfg decode key st (apply cfg.codec st k value).0
      → DeltaOf decode key k
          (body_of (ops_for (State.get st k) value))
          before
          (value_of (State.get (apply cfg.codec st k value).0 key))
  write_any-DeltaOf k value r = elim (Bool-cases (str_eq k key)) [
    | inr other ↦
        elsewhere (ground (arith, eq_iff k key, eq_iff key k))
          (ap value_of (get-apply cfg.codec st k value key) ∙ rw other refl)
    | inl same ↦
        subst
          (λ j.
            IsReadBack cfg decode key st (apply cfg.codec st j value).0
            → DeltaOf decode key j (body_of (ops_for (State.get st j) value)) before
                (value_of (State.get (apply cfg.codec st j value).0 key)))
          (sym ((eq_iff k key).0 same)) (write-DeltaOf value) r
  ]

  -- A write without ops leaves the value of the key as it was.
  pub unchanged_value :
      (k : String) (value : Value)
      → IsSafe (apply cfg.codec st k value).0 key
      → is_empty (ops_for (State.get st k) value) ≡ true
      → value_of (State.get (apply cfg.codec st k value).0 key) ≡ before
  unchanged_value k value s none_there = elim (Bool-cases (str_eq k key)) [
    | inr other ↦ ap value_of (get-apply cfg.codec st k value key) ∙ rw other refl
    | inl same ↦
        subst
          (λ j.
            IsSafe (apply cfg.codec st j value).0 key
            → is_empty (ops_for (State.get st j) value) ≡ true
            → value_of (State.get (apply cfg.codec st j value).0 key) ≡ before)
          (sym ((eq_iff k key).0 same))
          (λ s' e.
            written_value value
            ∙ (sym (write_leads value s')
                ∙ apply_ops_empty before (ops_for (State.get st key) value) e))
          s none_there
  ]

  -- A delete of any key that is there.
  pub delete-DeltaOf :
      (k : String)
      → IsReadBack cfg decode key st (delete cfg.codec st k).0
      → DeltaOf decode key k
          (body_of removal_ops)
          before
          (value_of (State.get (delete cfg.codec st k).0 key))
  delete-DeltaOf k r = elim (Bool-cases (str_eq k key)) [
    | inr other ↦
        elsewhere (ground (arith, eq_iff k key, eq_iff key k))
          (ap value_of (get-delete cfg.codec st k key) ∙ rw other refl)
    | inl same ↦
        let gone : State.get (delete cfg.codec st k).0 key ≡ none =
          get-delete cfg.codec st k key ∙ rw same refl in
        of_key removal_ops (ground (arith, eq_iff k key, eq_iff key k))
          (subst
            (λ o.
              decode (body_of (ops_between (State.get st key) o))
              ≡ some (ops_between (State.get st key) o))
            gone r.reads)
          (apply_ops-removal before ∙ sym (ap value_of gone))
  ]
