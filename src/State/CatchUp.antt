-- ===== src/State/CatchUp.antt =====
-- A client that can catch up stays able to, over one write and over one delete.
use sodp.Base.{
  ℕ, ◌+◌, ◌^◌, ◌≤◌, ◌<◌, ◌≡◌, refl, ap, sym, ◌∙◌, subst, String, Bool, true, false, Option, none,
  some, List, [], ◌∷◌, ◌++◌, arith, Bool-cases, inl, inr, length, is_empty, eq_iff, str_eq,
  if◌then◌else◌, eq_refl, Option-cases,
}
use sodp.Base.Dict
use sodp.Base.Dict.{get-insert}
use sodp.Json.{Value, null, WellFormed}
use sodp.Delta.{DeltaOp}
use sodp.Delta.Apply.{apply_ops, SafeKeys}
use sodp.Delta.RoundTrip.{diff-apply}
use sodp.Paths.{json_set_in, json_remove_in}
use sodp.Log.{Codec}
use sodp.State.{
  StateEntry, StateStore, Delta, deltas_of, max_delta_log_entries_per_key, get, deltas_since,
  next_version, ops_for, apply, delete,
}
use sodp.State.Deletes.{
  removal_ops, global_version-delete, deltas_since-delete, deltas_since-delete_ne,
}
use sodp.State.Writes.{
  get-delete, get-apply, get-apply_self, global_version-apply, deltas_since-apply,
  deltas_since-apply_ne,
}

-- What a client does with the deltas of a RESUME.
unfoldable pub apply_deltas : Value → List Delta → Value
apply_deltas x [] = x
apply_deltas x (d ∷ ds) = apply_deltas (apply_ops x d.1) ds

apply_deltas-append :
    (x : Value) (ds es : List Delta)
    → apply_deltas x (ds ++ es) ≡ apply_deltas (apply_deltas x ds) es
unfolding apply_deltas
apply_deltas-append x [] es = refl
apply_deltas-append x (d ∷ ds) es = apply_deltas-append (apply_ops x d.1) ds es

-- The value that STATE_INIT gives for a key: null where there is none.
abbrev pub value_of : Option StateEntry → Value
value_of none = null
value_of (some e) = e.value

-- A client that had the value `x` of `key` at version `since` can still catch up.
pub record CanResume (key : String) (x : Value) (since : ℕ) (st : StateStore) : Type 0 where
  pub caught_up : apply_deltas x (deltas_since st key since) ≡ value_of (get st key)
  pub not_ahead : since ≤ st.global_version
  pub stored : WellFormed (value_of (get st key)) × SafeKeys (value_of (get st key))

-- The ops that `apply` computes lead from the stored value to the new one.
pub ops_for-apply :
    (old : Option StateEntry) (new : Value)
    → WellFormed (value_of old)
    → WellFormed new
    → SafeKeys (value_of old)
    → SafeKeys new
    → apply_ops (value_of old) (ops_for old new) ≡ new
ops_for-apply none new wo wn so sn = unfold apply_ops json_set_in in refl
ops_for-apply (some e) new wo wn so sn = diff-apply e.value new wo wn so sn

pub apply_ops_empty : (v : Value) (ops : List DeltaOp) → is_empty ops ≡ true → apply_ops v ops ≡ v
unfolding apply_ops
apply_ops_empty v [] h = refl
apply_ops_empty v (d ∷ ds) h = ground arith

-- A write of the client's own key.
CanResume-apply_self :
    (codec : Codec) (x : Value) (since : ℕ) (st : StateStore) (k : String) (new : Value)
    → CanResume k x since st
    → WellFormed new
    → SafeKeys new
    → st.global_version + 1 < 2 ^ 64
    → length (deltas_of st.log k) < max_delta_log_entries_per_key
    → CanResume k x since (apply codec st k new).0
unfolding get apply_deltas
CanResume-apply_self codec x since st k new c wn sn g room =
    let newer : since < next_version st = omega (arith, c.not_ahead) in
    let now = get-apply_self codec st k new in
    record {
      caught_up =
          rw (now, deltas_since-apply codec st k new since room newer) (caught (is_empty ops) refl);
      not_ahead = rw (global_version-apply codec st k new) (omega (arith, c.not_ahead));
      stored = rw now (wn, sn);
    }
  where
    ops : List DeltaOp
    ops = ops_for (Dict.get st.entries k) new

    leads : apply_ops (value_of (Dict.get st.entries k)) ops ≡ new
    leads = ops_for-apply (Dict.get st.entries k) new c.stored.0 wn c.stored.1 sn

    caught :
        (b : Bool)
        → is_empty ops ≡ b
        → apply_deltas x (
            if b
            then deltas_since st k since
            else deltas_since st k since ++ (next_version st, ops) ∷ [])
          ≡ new
    caught true e =
        c.caught_up ∙ (sym (apply_ops_empty (value_of (Dict.get st.entries k)) ops e) ∙ leads)
    caught false e =
        apply_deltas-append x (deltas_since st k since) ((next_version st, ops) ∷ [])
        ∙ (ap (λ v. apply_ops v ops) c.caught_up ∙ leads)

-- One write keeps a client able to catch up.
pub CanResume-apply :
    (codec : Codec) (key : String) (x : Value) (since : ℕ) (st : StateStore) (k : String)
    (new : Value)
    → CanResume key x since st
    → WellFormed new
    → SafeKeys new
    → st.global_version + 1 < 2 ^ 64
    → length (deltas_of st.log key) < max_delta_log_entries_per_key
    → CanResume key x since (apply codec st k new).0
CanResume-apply codec key x since st k new c wn sn g room = elim (Bool-cases (str_eq k key)) [
  | inl same ↦
      let e = (eq_iff k key).0 same in
      subst (λ j. CanResume j x since (apply codec st k new).0) e
        (CanResume-apply_self codec x since st k new (subst (λ j. CanResume j x since st) (sym e) c)
          wn sn g
          (subst (λ j. length (deltas_of st.log j) < max_delta_log_entries_per_key) (sym e) room))
  | inr other ↦ record {
    caught_up =
        rw
          (
            deltas_since-apply_ne codec st k new key since other,
            get-apply codec st k new key,
            other,
          )
          c.caught_up;
    not_ahead = rw (global_version-apply codec st k new) (omega (arith, c.not_ahead));
    stored = rw (get-apply codec st k new key, other) c.stored;
  }
]

-- The op of a delete leads to null.
pub apply_ops-removal : (v : Value) → apply_ops v removal_ops ≡ null
unfolding apply_ops json_remove_in
apply_ops-removal v = refl

-- A delete of the client's own key, where it is stored.
CanResume-delete_self :
    (codec : Codec) (x : Value) (since : ℕ) (st : StateStore) (k : String) (e : StateEntry)
    → Dict.get st.entries k ≡ some e
    → CanResume k x since st
    → st.global_version + 1 < 2 ^ 64
    → length (deltas_of st.log k) < max_delta_log_entries_per_key
    → CanResume k x since (delete codec st k).0
unfolding apply_deltas
CanResume-delete_self codec x since st k e found c g room =
    let newer : since < next_version st = omega (arith, c.not_ahead) in
    let gone = get-delete codec st k k in
    let past = deltas_since st k since in
    record {
      caught_up =
          rw (gone, eq_refl k, deltas_since-delete codec st k e found since room newer)
            (apply_deltas-append x past ((next_version st, removal_ops) ∷ [])
              ∙ apply_ops-removal (apply_deltas x past));
      not_ahead = rw (global_version-delete codec st k e found) (omega (arith, c.not_ahead));
      stored = rw (gone, eq_refl k) (unfold WellFormed SafeKeys in (tt, tt));
    }

pub delete_absent :
    (codec : Codec) (st : StateStore) (k : String)
    → Dict.get st.entries k ≡ none
    → (delete codec st k).0 ≡ st
unfolding delete
delete_absent codec st k e = rw (e, delete)

-- One delete keeps a client able to catch up.
pub CanResume-delete :
    (codec : Codec) (key : String) (x : Value) (since : ℕ) (st : StateStore) (k : String)
    → CanResume key x since st
    → st.global_version + 1 < 2 ^ 64
    → length (deltas_of st.log key) < max_delta_log_entries_per_key
    → CanResume key x since (delete codec st k).0
CanResume-delete codec key x since st k c g room = elim (Option-cases (Dict.get st.entries k)) [
  | inl absent ↦ subst (CanResume key x since) (sym (delete_absent codec st k absent)) c
  | inr (e, found) ↦ elim (Bool-cases (str_eq k key)) [
    | inl same ↦
        let eq = (eq_iff k key).0 same in
        subst (λ j. CanResume j x since (delete codec st k).0) eq
          (CanResume-delete_self codec x since st k e found
            (subst (λ j. CanResume j x since st) (sym eq) c) g
            (subst (λ j. length (deltas_of st.log j) < max_delta_log_entries_per_key) (sym eq)
              room))
    | inr other ↦ record {
      caught_up =
          rw
            (
              deltas_since-delete_ne codec st k e found key since other,
              get-delete codec st k key,
              other,
            )
            c.caught_up;
      not_ahead = rw (global_version-delete codec st k e found) (omega (arith, c.not_ahead));
      stored = rw (get-delete codec st k key, other) c.stored;
    }
  ]
]
