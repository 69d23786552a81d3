-- ===== src/Server/Stores.antt =====
-- What the handlers do to the store: a rule for any predicate on it.
use sodp.Base.{
  ℕ, String, ◌≡◌, refl, sym, subst, Bool, true, false, Option, none, some, List, arith, str_eq,
  Bool-cases, Option-cases, inl, inr, is_empty, if◌then◌else◌, ◌⊎◌,
}
use sodp.Json.{Value, obj, end, null, get_field, as_str, unwrap_or_null}
use sodp.Frame.{Bytes, Frame}
use sodp.Paths.{SetResult, json_set_in, json_merge}
use sodp.State.{StateStore, Delta, apply, delete}
use sodp.State
use sodp.Schema.{Validation}
use sodp.Server.{
  Config, Connection, SyncMsg, send_msg, reply_error, reply_version, publish, write_state,
  may_write, check_schema, value_or,
}
use sodp.Server.Call.{
  state_arg, store_value, state_set, state_patch, state_set_in, set_in_then, state_presence,
  state_delete, publish_deleted, dispatch, handle_call, may_call, object_arg, nothing,
  register_presence, take_write_slot,
}

pub state-reply_error :
    (c : Connection) (stream_id code : ℕ) (m : String)
    → (reply_error c stream_id code m).state ≡ c.state
unfolding reply_error
state-reply_error c stream_id code m = refl

state-reply_version :
    (c : Connection) (stream_id : ℕ) (call_id : String) (version : ℕ)
    → (reply_version c stream_id call_id version).state ≡ c.state
unfolding reply_version
state-reply_version c stream_id call_id version = refl

state-publish :
    (c : Connection) (key : String) (body : Bytes) (msg : SyncMsg)
    → (publish c key body msg).state ≡ c.state
unfolding publish send_msg
state-publish c key body msg = ground arith

pub state-write_state :
    (cfg : Config) (c : Connection) (key : String) (value : Value)
    → (write_state cfg c key value).0.state ≡ (apply cfg.codec c.state key value).0
unfolding write_state
state-write_state cfg c key value =
    let (st, version, ops) = apply cfg.codec c.state key value in
    choose (is_empty ops) st version ops
  where
    choose :
        (b : Bool) (st : StateStore) (version : ℕ) (ops : List _)
        → (if b
            then record c { state = st }
            else publish
                (record c { state = st })
                key
                (cfg.encode_delta_body version ops)
                (SyncMsg.sync key version value (cfg.encode_delta_body version ops))).state
          ≡ st
    choose true st version ops = refl
    choose false st version ops = state-publish (record c { state = st }) key _ _

pub validation-cases :
    (v : Validation) → (v ≡ Validation.ok) ⊎ ((m : String) × (v ≡ Validation.err m))
validation-cases Validation.ok = inl refl
validation-cases (Validation.err m) = inr (m, refl)

pub set_result-cases :
    (r : SetResult) → ((v : Value) × (r ≡ SetResult.ok v)) ⊎ ((m : String) × (r ≡ SetResult.err m))
set_result-cases (SetResult.ok v) = inl (v, refl)
set_result-cases (SetResult.err m) = inr (m, refl)

state-publish_deleted :
    (cfg : Config) (c : Connection) (f : Frame) (call_id key : String)
    (deleted : StateStore × Option Delta)
    → (publish_deleted cfg c f call_id key deleted).state ≡ deleted.0
unfolding publish_deleted
state-publish_deleted cfg c f call_id key (st, none) =
    state-reply_version (record c { state = st }) f.stream_id call_id 0
state-publish_deleted cfg c f call_id key (st, some (version, ops)) =
    rw state-reply_version (state-publish (record c { state = st }) key _ _)

-- A predicate on stores that holds before a CALL, and after each write that the call may make,
-- holds after it.
module _ (P : StateStore → Type 0) (cfg : Config) (f : Frame) (call_id : String) where
  store_value-keeps :
      (c : Connection) (key : String) (value : Value) (before_reply : Connection → Connection)
      → ((c' : Connection) → (before_reply c').state ≡ c'.state)
      → P c.state
      → (check_schema cfg key value ≡ Validation.ok → P (apply cfg.codec c.state key value).0)
      → P (store_value cfg c f call_id key value before_reply).state
  unfolding reply_error
  store_value-keeps c key value before_reply same before after =
      elim (validation-cases (check_schema cfg key value)) [
        | inr (m, e) ↦ unfold store_value in rw (e, store_value) before
        | inl e ↦
            let (c', version) = write_state cfg c key value in
            unfold store_value in
            rw
              (
                e,
                store_value,
                state-reply_version (before_reply c') f.stream_id call_id version,
                same c',
                state-write_state cfg c key value,
              )
              (after e)
      ]

  -- What a call may do to the store: write a value of its key that the schema takes, or delete it.
  module _ (c : Connection) (args : Value) (before : P c.state)
      (after_write : (key : String) (value : Value)
        → state_arg args ≡ some key
        → check_schema cfg key value ≡ Validation.ok
        → P (apply cfg.codec c.state key value).0)
      (after_delete : (key : String)
        → state_arg args ≡ some key
        → P (delete cfg.codec c.state key).0) where
    state_set-keeps : P (state_set cfg c f call_id args).state
    unfolding state_set reply_error
    state_set-keeps = elim (Option-cases (state_arg args)) [
      | inl e ↦ rw (e, state_set) before
      | inr (key, e) ↦
          let value = unwrap_or_null (get_field args "value") in
          rw (e, state_set)
            (store_value-keeps c key value nothing (λ c'. refl) before (after_write key value e))
    ]

    state_patch-keeps : P (state_patch cfg c f call_id args).state
    unfolding state_patch reply_error
    state_patch-keeps = elim (Option-cases (state_arg args)) [
      | inl e ↦ rw (e, state_patch) before
      | inr (key, e) ↦ elim (Option-cases (object_arg (get_field args "patch"))) [
        | inl e' ↦ rw (e, state_patch) (rw (e', state_patch) before)
        | inr (patch, e') ↦
            let value = json_merge (value_or (obj end) (State.get c.state key)) patch in
            rw (e, state_patch)
              (rw (e', state_patch)
                (store_value-keeps c key value nothing (λ c'. refl) before
                  (after_write key value e)))
      ]
    ]

    set_in-keeps :
        (name : String) (before_reply : String → String → Connection → Connection)
        → ((key path : String) (c' : Connection) → (before_reply key path c').state ≡ c'.state)
        → P (set_in_then name before_reply cfg c f call_id args).state
    unfolding set_in_then reply_error
    set_in-keeps name before_reply same = elim (Option-cases (state_arg args)) [
      | inl e ↦ rw (e, set_in_then) before
      | inr (key, e) ↦ elim (Option-cases (as_str (get_field args "path"))) [
        | inl e' ↦ rw (e, set_in_then) (rw (e', set_in_then) before)
        | inr (path, e') ↦
            let current = value_or null (State.get c.state key) in
            elim (set_result-cases
              (json_set_in current path (unwrap_or_null (get_field args "value")))) [
                | inr (m, r) ↦
                    rw (e, set_in_then) (rw (e', set_in_then) (rw (r, set_in_then) before))
                | inl (updated, r) ↦
                    rw (e, set_in_then)
                      (rw (e', set_in_then)
                        (rw (r, set_in_then)
                          (store_value-keeps c key updated (before_reply key path) (same key path)
                            before (after_write key updated e))))
              ]
      ]
    ]

    state_delete-keeps : P (state_delete cfg c f call_id args).state
    unfolding state_delete reply_error
    state_delete-keeps = elim (Option-cases (state_arg args)) [
      | inl e ↦ rw (e, state_delete) before
      | inr (key, e) ↦
          let deleted = delete cfg.codec c.state key in
          rw (e, state_delete)
            (subst P (sym (state-publish_deleted cfg c f call_id key deleted)) (after_delete key e))
    ]

    dispatch-keeps : (method : String) → P (dispatch cfg c f call_id args method).state
    unfolding dispatch reply_error state_set_in state_presence
    dispatch-keeps method = elim (Bool-cases (str_eq method "state.set")) [
      | inl e ↦ rw e state_set-keeps
      | inr n1 ↦ rw n1 (elim (Bool-cases (str_eq method "state.patch")) [
        | inl e ↦ rw e state_patch-keeps
        | inr n2 ↦ rw n2 (elim (Bool-cases (str_eq method "state.set_in")) [
          | inl e ↦ rw e (set_in-keeps "state.set_in" (λ key path. nothing) (λ key path c'. refl))
          | inr n3 ↦ rw n3 (elim (Bool-cases (str_eq method "state.delete")) [
            | inl e ↦ rw e state_delete-keeps
            | inr n4 ↦ rw n4 (elim (Bool-cases (str_eq method "state.presence")) [
              | inl e ↦ rw e (set_in-keeps "state.presence" register_presence (λ key path c'. refl))
              | inr n5 ↦ rw n5 before
            ])
          ])
        ])
      ])
    ]

may_write_of_call :
    (cfg : Config) (c : Connection) (args : Value) (key : String)
    → may_call cfg c args ≡ true
    → state_arg args ≡ some key
    → may_write cfg c.session key ≡ true
may_write_of_call cfg c args key h e = subst (Holds cfg c) e h
  where
    Holds : Config → Connection → Option String → Type 0
    Holds g d k = (elim k [ none ↦ true | some j ↦ may_write g d.session j ]) ≡ true

-- The whole of `handle_call`: every write passes the limiter, the ACL and the schema first.
pub handle_call-keeps :
    (P : StateStore → Type 0) (cfg : Config) (now : ℕ) (f : Frame) (c : Connection)
    → let args = unwrap_or_null (get_field f.body "args") in
      P c.state
      → ((key : String) (value : Value)
          → state_arg args ≡ some key
          → may_write cfg c.session key ≡ true
          → check_schema cfg key value ≡ Validation.ok
          → P (apply cfg.codec c.state key value).0)
      → ((key : String)
          → state_arg args ≡ some key
          → may_write cfg c.session key ≡ true
          → P (delete cfg.codec c.state key).0)
      → P (handle_call cfg now f c).state
unfolding handle_call reply_error
handle_call-keeps P cfg now f c before after_write after_delete =
    elim (Option-cases (as_str (get_field f.body "method"))) [
      | inl e ↦ rw (e, handle_call) before
      | inr (method, e) ↦
          rw (e, handle_call)
            (elim (Bool-cases (take_write_slot now c).1) [
              | inr refused ↦ rw refused before
              | inl passed ↦
                  rw passed
                    (elim (Bool-cases (
                      may_call cfg (take_write_slot now c).0
                        (unwrap_or_null (get_field f.body "args")))) [
                          | inr denied ↦ rw denied before
                          | inl granted ↦ rw granted (
                              let c' = (take_write_slot now c).0 in
                              dispatch-keeps P cfg f _ c' _ before
                                (λ key value k.
                                  after_write key value k
                                    (may_write_of_call cfg c' _ key granted k))
                                (λ key k.
                                  after_delete key k (may_write_of_call cfg c' _ key granted k))
                                method)
                        ])
            ])
    ]
