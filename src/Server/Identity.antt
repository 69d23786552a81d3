-- ===== src/Server/Identity.antt =====
-- What the handlers leave of a session: who it is, and for CALL also what it watches.
use sodp.Base.{
  ℕ, String, ◌≡◌, refl, sym, ◌∙◌, subst, Option, none, some, arith, Bool-cases, Option-cases, inl,
  inr, str_eq,
}
use sodp.Json.{Value, null, get_field, as_str, unwrap_or_null}
use sodp.Frame.{Bytes, Frame}
use sodp.Session.{Session, next_seq, add_presence}
use sodp.State.{StateStore, Delta, apply, delete}
use sodp.Server.{
  Config, Connection, SyncMsg, sync_delete, send_msg, check_schema, value_or, reply_error,
  reply_version, publish, write_state,
}
use sodp.Server.Call.{
  store_value, state_set, state_patch, set_in_then, state_set_in, state_presence, state_delete,
  publish_deleted, dispatch, handle_call, state_arg, nothing, object_arg, register_presence,
  take_write_slot, may_call,
}
use sodp.Server.Stores.{validation-cases, set_result-cases}
use sodp.State
use sodp.Paths.{json_set_in}

-- The same connection of the same user, with the same streams.
pub record IsSame (s t : Session) : Type 0 where
  pub id : t.id ≡ s.id
  pub sub : t.sub ≡ s.sub
  pub claims : t.claims ≡ s.claims
  pub watches : t.watches ≡ s.watches

pub IsSame-refl : (s : Session) → IsSame s s
IsSame-refl s = record { id = refl; sub = refl; claims = refl; watches = refl }

pub IsSame-trans : {s t u : Session} → IsSame s t → IsSame t u → IsSame s u
IsSame-trans p q = record {
  id = q.id ∙ p.id;
  sub = q.sub ∙ p.sub;
  claims = q.claims ∙ p.claims;
  watches = q.watches ∙ p.watches;
}

IsSame-of_eq : {s t : Session} → t ≡ s → IsSame s t
IsSame-of_eq {s} e = subst (IsSame s) (sym e) (IsSame-refl s)

IsSame-add_presence : (s : Session) (key path : String) → IsSame s (add_presence s key path)
unfolding add_presence
IsSame-add_presence s key path = ground arith

session-reply_error :
    (c : Connection) (stream_id code : ℕ) (m : String)
    → IsSame c.session (reply_error c stream_id code m).session
unfolding reply_error next_seq
session-reply_error c stream_id code m = record {
  id = refl;
  sub = refl;
  claims = refl;
  watches = refl;
}

session-reply_version :
    (c : Connection) (stream_id : ℕ) (call_id : String) (version : ℕ)
    → IsSame c.session (reply_version c stream_id call_id version).session
unfolding reply_version next_seq
session-reply_version c stream_id call_id version = record {
  id = refl;
  sub = refl;
  claims = refl;
  watches = refl;
}

session-publish :
    (c : Connection) (key : String) (body : Bytes) (msg : SyncMsg)
    → (publish c key body msg).session ≡ c.session
unfolding publish send_msg
session-publish c key body msg = ground arith

session-write_state :
    (cfg : Config) (c : Connection) (key : String) (value : Value)
    → (write_state cfg c key value).0.session ≡ c.session
unfolding write_state
session-write_state cfg c key value =
    let (st, version, ops) = apply cfg.codec c.state key value in
    ground (
      arith,
      session-publish (record c { state = st }) key (cfg.encode_delta_body version ops)
          (SyncMsg.sync key version value (cfg.encode_delta_body version ops)),
    )

session-publish_deleted :
    (cfg : Config) (c : Connection) (f : Frame) (call_id key : String)
    (deleted : StateStore × Option Delta)
    → IsSame c.session (publish_deleted cfg c f call_id key deleted).session
unfolding publish_deleted
session-publish_deleted cfg c f call_id key (st, none) =
    session-reply_version (record c { state = st }) f.stream_id call_id 0
session-publish_deleted cfg c f call_id key (st, some (version, ops)) =
    let body_mp = cfg.encode_delta_body version ops in
    IsSame-trans
      (IsSame-of_eq
        (session-publish (record c { state = st }) key body_mp (sync_delete key body_mp)))
      (session-reply_version _ f.stream_id call_id version)

module _ (cfg : Config) (c : Connection) (f : Frame) (call_id : String) where
  session-store_value :
      (key : String) (value : Value) (before_reply : Connection → Connection)
      → ((c' : Connection) → IsSame c'.session (before_reply c').session)
      → IsSame c.session (store_value cfg c f call_id key value before_reply).session
  session-store_value key value before_reply same =
      elim (validation-cases (check_schema cfg key value)) [
        | inr (m, e) ↦
            unfold store_value in rw (e, store_value) (session-reply_error c f.stream_id 422 m)
        | inl e ↦
            let (c', version) = write_state cfg c key value in
            unfold store_value in
            rw (e, store_value)
              (IsSame-trans (IsSame-of_eq (session-write_state cfg c key value))
                (IsSame-trans (same c') (session-reply_version _ f.stream_id call_id version)))
      ]

  module _ (args : Value) where
    session-state_set : IsSame c.session (state_set cfg c f call_id args).session
    unfolding state_set
    session-state_set = elim (Option-cases (state_arg args)) [
      | inl e ↦ rw (e, state_set) (session-reply_error c f.stream_id 400 _)
      | inr (key, e) ↦
          rw (e, state_set) (session-store_value key _ nothing (λ c'. IsSame-refl c'.session))
    ]

    session-state_patch : IsSame c.session (state_patch cfg c f call_id args).session
    unfolding state_patch
    session-state_patch = elim (Option-cases (state_arg args)) [
      | inl e ↦ rw (e, state_patch) (session-reply_error c f.stream_id 400 _)
      | inr (key, e) ↦
          rw (e, state_patch)
            (elim (Option-cases (object_arg (get_field args "patch"))) [
              | inl e' ↦ rw (e', state_patch) (session-reply_error c f.stream_id 400 _)
              | inr (patch, e') ↦
                  rw (e', state_patch)
                    (session-store_value key _ nothing (λ c'. IsSame-refl c'.session))
            ])
    ]

    session-set_in :
        (name : String) (before_reply : String → String → Connection → Connection)
        → ((key path : String) (c' : Connection)
            → IsSame c'.session (before_reply key path c').session)
        → IsSame c.session (set_in_then name before_reply cfg c f call_id args).session
    unfolding set_in_then
    session-set_in name before_reply same = elim (Option-cases (state_arg args)) [
      | inl e ↦ rw (e, set_in_then) (session-reply_error c f.stream_id 400 _)
      | inr (key, e) ↦
          rw (e, set_in_then)
            (elim (Option-cases (as_str (get_field args "path"))) [
              | inl e' ↦ rw (e', set_in_then) (session-reply_error c f.stream_id 400 _)
              | inr (path, e') ↦
                  rw (e', set_in_then)
                    (elim (set_result-cases (
                      json_set_in (value_or null (State.get c.state key)) path
                        (unwrap_or_null (get_field args "value")))) [
                          | inr (m, r) ↦
                              rw (r, set_in_then) (session-reply_error c f.stream_id 400 m)
                          | inl (updated, r) ↦
                              rw (r, set_in_then)
                                (session-store_value key updated (before_reply key path)
                                  (same key path))
                        ])
            ])
    ]

    session-state_delete : IsSame c.session (state_delete cfg c f call_id args).session
    unfolding state_delete
    session-state_delete = elim (Option-cases (state_arg args)) [
      | inl e ↦ rw (e, state_delete) (session-reply_error c f.stream_id 400 _)
      | inr (key, e) ↦
          rw (e, state_delete)
            (session-publish_deleted cfg c f call_id key (delete cfg.codec c.state key))
    ]

    session-dispatch :
        (method : String) → IsSame c.session (dispatch cfg c f call_id args method).session
    unfolding dispatch state_set_in state_presence
    session-dispatch method = elim (Bool-cases (str_eq method "state.set")) [
      | inl e ↦ rw e session-state_set
      | inr n1 ↦ rw n1 (elim (Bool-cases (str_eq method "state.patch")) [
        | inl e ↦ rw e session-state_patch
        | inr n2 ↦ rw n2 (elim (Bool-cases (str_eq method "state.set_in")) [
          | inl e ↦ rw e (
              session-set_in "state.set_in" (λ key path. nothing)
                (λ key path c'. IsSame-refl c'.session))
          | inr n3 ↦ rw n3 (elim (Bool-cases (str_eq method "state.delete")) [
            | inl e ↦ rw e session-state_delete
            | inr n4 ↦ rw n4 (elim (Bool-cases (str_eq method "state.presence")) [
              | inl e ↦ rw e (
                  session-set_in "state.presence" register_presence
                    (λ key path c'. IsSame-add_presence c'.session key path))
              | inr n5 ↦ rw n5 (session-reply_error c f.stream_id 404 _)
            ])
          ])
        ])
      ])
    ]

IsSame-take_write_slot :
    (now : ℕ) (c : Connection) → IsSame c.session (take_write_slot now c).0.session
IsSame-take_write_slot now c = record { id = refl; sub = refl; claims = refl; watches = refl }

-- A CALL leaves the session what it was but for its limiter, its numbering and its presence.
pub session-handle_call :
    (cfg : Config) (now : ℕ) (f : Frame) (c : Connection)
    → IsSame c.session (handle_call cfg now f c).session
unfolding handle_call
session-handle_call cfg now f c = elim (Option-cases (as_str (get_field f.body "method"))) [
  | inl e ↦ rw (e, handle_call) (session-reply_error c f.stream_id 400 _)
  | inr (method, e) ↦
      let c' = (take_write_slot now c).0 in
      let slot = IsSame-take_write_slot now c in
      let args = unwrap_or_null (get_field f.body "args") in
      rw (e, handle_call)
        (elim (Bool-cases (take_write_slot now c).1) [
          | inr refused ↦ rw refused (IsSame-trans slot (session-reply_error c' f.stream_id 429 _))
          | inl passed ↦ rw passed (elim (Bool-cases (may_call cfg c' args)) [
            | inr denied ↦ rw denied (IsSame-trans slot (session-reply_error c' f.stream_id 403 _))
            | inl granted ↦ rw granted (IsSame-trans slot (session-dispatch cfg c' f _ args method))
          ])
        ])
]
