-- ===== src/Server/Effects.antt =====
-- What a CALL does to a connection: a rule for any two predicates, before and after its one write.
use sodp.Base.{
  ℕ, String, ◌≡◌, refl, sym, subst, [], ◌∷◌, Option, none, some, Bool-cases, Option-cases, inl, inr,
  str_eq,
}
use sodp.Json.{Value, null, get_field, as_str, unwrap_or_null}
use sodp.Frame.{Frame, error, result_ok, json, number}
use sodp.Paths.{json_set_in}
use sodp.Session.{RateLimiter, add_presence}
use sodp.State
use sodp.State.{StateStore, StateEntry, Delta, next_version, delete}
use sodp.State.Deletes.{removal_ops}
use sodp.Log.{Codec}
use sodp.Base.Dict
use sodp.Server.{
  Config, Connection, sync_delete, reply, reply_error, reply_version, publish, write_state,
  check_schema, value_or,
}
use sodp.Server.Call.{
  state_arg, store_value, state_set, state_patch, state_set_in, set_in_then, state_presence,
  state_delete, publish_deleted, dispatch, handle_call, may_call, object_arg, nothing,
  register_presence, take_write_slot,
}
use sodp.Server.Stores.{validation-cases, set_result-cases}

delete-absent :
    (codec : Codec) (st : StateStore) (key : String)
    → Dict.get st.entries key ≡ none
    → delete codec st key ≡ (st, none)
unfolding delete
delete-absent codec st key absent = rw (absent, delete) refl

delete-found :
    (codec : Codec) (st : StateStore) (key : String) (e : StateEntry)
    → Dict.get st.entries key ≡ some e
    → delete codec st key ≡ ((delete codec st key).0, some (next_version st, removal_ops))
unfolding delete
delete-found codec st key e found = rw (found, delete) refl

-- What is needed of `Before` and `After`: a call changes the limiter and then either is answered,
-- or writes or deletes a value and is answered.
pub record Rule (cfg : Config) (Before After : Connection → Type 0) : Type 0 where
  pub slot :
      (c : Connection) (limiter : Option RateLimiter)
      → Before c
      → Before (record c { session = record c.session { write_limiter = limiter } })
  pub unwritten : (c : Connection) → Before c → After c
  pub wrote :
      (c : Connection) (key : String) (value : Value)
      → Before c
      → After (write_state cfg c key value).0
  pub removed :
      (c : Connection) (key : String) (e : StateEntry)
      → Dict.get c.state.entries key ≡ some e
      → Before c
      → let body_mp = cfg.encode_delta_body (next_version c.state) removal_ops in
        After (
          publish
            (record c { state = (delete cfg.codec c.state key).0 })
            key
            body_mp
            (sync_delete key body_mp))
  pub present :
      (c : Connection) (key path : String)
      → After c
      → After (record c { session = add_presence c.session key path })
  pub answered : (c : Connection) (make : ℕ → Frame) → After c → After (reply c make)

module _ (cfg : Config) (Before After : Connection → Type 0) (r : Rule cfg Before After) where
  answer_error :
      (c : Connection) (stream_id code : ℕ) (m : String)
      → After c
      → After (reply_error c stream_id code m)
  unfolding reply_error
  answer_error c stream_id code m = r.answered c (λ seq. error stream_id seq code m)

  answer_version :
      (c : Connection) (stream_id : ℕ) (call_id : String) (version : ℕ)
      → After c
      → After (reply_version c stream_id call_id version)
  unfolding reply_version
  answer_version c stream_id call_id version =
      r.answered c
        (λ seq. result_ok stream_id seq call_id (some (json (("version", number version) ∷ []))))

  module _ (c : Connection) (before : Before c) (f : Frame) (call_id : String) where
    refuse_call : (code : ℕ) (m : String) → After (reply_error c f.stream_id code m)
    refuse_call code m = answer_error c f.stream_id code m (r.unwritten c before)

    store_value-After :
        (key : String) (value : Value) (before_reply : Connection → Connection)
        → ((c' : Connection) → After c' → After (before_reply c'))
        → After (store_value cfg c f call_id key value before_reply)
    unfolding store_value
    store_value-After key value before_reply goes =
        elim (validation-cases (check_schema cfg key value)) [
          | inr (m, e) ↦ rw (e, store_value) (refuse_call 422 m)
          | inl e ↦
              let (c', version) = write_state cfg c key value in
              rw (e, store_value)
                (answer_version (before_reply c') f.stream_id call_id version
                  (goes c' (r.wrote c key value before)))
        ]

    module _ (args : Value) where
      state_set-After : After (state_set cfg c f call_id args)
      unfolding state_set
      state_set-After = elim (Option-cases (state_arg args)) [
        | inl e ↦ rw (e, state_set) (refuse_call 400 _)
        | inr (key, e) ↦ rw (e, state_set) (store_value-After key _ nothing (λ c' a. a))
      ]

      state_patch-After : After (state_patch cfg c f call_id args)
      unfolding state_patch
      state_patch-After = elim (Option-cases (state_arg args)) [
        | inl e ↦ rw (e, state_patch) (refuse_call 400 _)
        | inr (key, e) ↦ elim (Option-cases (object_arg (get_field args "patch"))) [
          | inl e' ↦ rw (e, state_patch) (rw (e', state_patch) (refuse_call 400 _))
          | inr (patch, e') ↦
              rw (e, state_patch)
                (rw (e', state_patch) (store_value-After key _ nothing (λ c' a. a)))
        ]
      ]

      set_in-After :
          (name : String) (before_reply : String → String → Connection → Connection)
          → ((key path : String) (c' : Connection) → After c' → After (before_reply key path c'))
          → After (set_in_then name before_reply cfg c f call_id args)
      unfolding set_in_then
      set_in-After name before_reply goes = elim (Option-cases (state_arg args)) [
        | inl e ↦ rw (e, set_in_then) (refuse_call 400 _)
        | inr (key, e) ↦ elim (Option-cases (as_str (get_field args "path"))) [
          | inl e' ↦ rw (e, set_in_then) (rw (e', set_in_then) (refuse_call 400 _))
          | inr (path, e') ↦
              let current = value_or null (State.get c.state key) in
              elim (set_result-cases
                (json_set_in current path (unwrap_or_null (get_field args "value")))) [
                  | inr (m, s) ↦
                      rw (e, set_in_then)
                        (rw (e', set_in_then) (rw (s, set_in_then) (refuse_call 400 m)))
                  | inl (updated, s) ↦
                      rw (e, set_in_then)
                        (rw (e', set_in_then)
                          (rw (s, set_in_then)
                            (store_value-After key updated (before_reply key path)
                              (goes key path))))
                ]
        ]
      ]

      state_delete-After : After (state_delete cfg c f call_id args)
      unfolding state_delete publish_deleted
      state_delete-After = elim (Option-cases (state_arg args)) [
        | inl no_key ↦ rw (no_key, state_delete) (refuse_call 400 _)
        | inr (key, k) ↦
            let answer : StateStore × Option Delta → Type 0 =
              λ d. After (publish_deleted cfg c f call_id key d) in
            rw (k, state_delete)
              (elim (Option-cases (Dict.get c.state.entries key)) [
                | inl absent ↦
                    subst answer (sym (delete-absent cfg.codec c.state key absent))
                      (answer_version c f.stream_id call_id 0 (r.unwritten c before))
                | inr (e, found) ↦ subst answer (sym (delete-found cfg.codec c.state key e found)) (
                    answer_version _ f.stream_id call_id (next_version c.state)
                      (r.removed c key e found before))
              ])
      ]

      dispatch-After : (method : String) → After (dispatch cfg c f call_id args method)
      unfolding dispatch state_set_in state_presence
      dispatch-After method = elim (Bool-cases (str_eq method "state.set")) [
        | inl e ↦ rw e state_set-After
        | inr n1 ↦ rw n1 (elim (Bool-cases (str_eq method "state.patch")) [
          | inl e ↦ rw e state_patch-After
          | inr n2 ↦ rw n2 (elim (Bool-cases (str_eq method "state.set_in")) [
            | inl e ↦ rw e (set_in-After "state.set_in" (λ key path. nothing) (λ key path c' a. a))
            | inr n3 ↦ rw n3 (elim (Bool-cases (str_eq method "state.delete")) [
              | inl e ↦ rw e state_delete-After
              | inr n4 ↦ rw n4 (elim (Bool-cases (str_eq method "state.presence")) [
                | inl e ↦ rw e (
                    set_in-After "state.presence" register_presence
                      (λ key path c'. r.present c' key path))
                | inr n5 ↦ rw n5 (refuse_call 404 _)
              ])
            ])
          ])
        ])
      ]

  pub handle_call-After :
      (now : ℕ) (f : Frame) (c : Connection) → Before c → After (handle_call cfg now f c)
  unfolding handle_call
  handle_call-After now f c before = elim (Option-cases (as_str (get_field f.body "method"))) [
    | inl e ↦ rw (e, handle_call) (refuse_call c before f "" 400 _)
    | inr (method, e) ↦
        let c' = (take_write_slot now c).0 in
        let before' = r.slot c c'.session.write_limiter before in
        rw (e, handle_call)
          (elim (Bool-cases (take_write_slot now c).1) [
            | inr refused ↦ rw refused (refuse_call c' before' f "" 429 _)
            | inl passed ↦
                rw passed
                  (elim (Bool-cases (may_call cfg c' (unwrap_or_null (get_field f.body "args")))) [
                    | inr denied ↦ rw denied (refuse_call c' before' f "" 403 _)
                    | inl granted ↦ rw granted (dispatch-After c' before' f _ _ method)
                  ])
          ])
  ]
