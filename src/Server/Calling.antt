-- ===== src/Server/Calling.antt =====
-- A published change and the copy of a watcher, by the connection of another session.
use sodp.Base.{
  ℕ, ◌≡◌, refl, sym, ap, ◌∙◌, subst, String, false, Option, List, is_empty, ◌==◌, inl, inr,
  Bool-cases, str_eq,
}
use sodp.Json.{Value}
use sodp.Delta.{DeltaOp}
use sodp.Frame.{Bytes}
use sodp.Log.{Codec}
use sodp.Fanout.{Subscriber}
use sodp.State
use sodp.State.{StateStore, StateEntry, next_version, ops_for, apply, delete}
use sodp.State.CatchUp.{value_of}
use sodp.Server.{Config, Connection, write_state, publish, SyncMsg}
use sodp.Server.Stores.{state-write_state}
use sodp.Server.Watching.{state-publish}
use sodp.Server.Tracked.{Tracked, tracked, cut_off, DeltaOf, publish-Tracked}
use sodp.Server.Others.{IsSafe, IsReadBack, unchanged_value, write_any-DeltaOf}

-- The CALL of a session that is not the watcher's, over a handle that is not the watcher's.
module _ (cfg : Config) (decode : Bytes → Option (List DeltaOp)) (key : String) (id : ℕ)
    (s : Subscriber) (copy : Value) where
  abbrev pub TrackedAt : Connection → Type 0
  TrackedAt c = Tracked decode key id s copy c.state c.fanout c.handles

  pub record Calling (st : StateStore) (c : Connection) : Type 0 where
    pub same_store : c.state ≡ st
    pub other_session : str_eq s.session_id c.session.id ≡ false
    pub other_handle : (c.handle == id) ≡ false
    pub before_call : TrackedAt c

  pub record Called (st : StateStore) (c : Connection) : Type 0 where
    pub other_handle : (c.handle == id) ≡ false
    pub after_call : IsReadBack cfg decode key st c.state → TrackedAt c

  -- A change that leaves the value as it was, and is not published.
  unpublished-Tracked :
      (st' : StateStore) (c : Connection)
      → value_of (State.get st' key) ≡ value_of (State.get c.state key)
      → TrackedAt c
      → Tracked decode key id s copy st' c.fanout c.handles
  unpublished-Tracked st' c same (cut_off gone) = cut_off gone
  unpublished-Tracked st' c same (tracked h found w leads) = tracked h found w (leads ∙ sym same)

  -- A change that is published.
  pub published-Tracked :
      (st' : StateStore) (c : Connection) (k : String) (body_mp : Bytes) (msg : SyncMsg)
      → DeltaOf decode key k body_mp
          (value_of (State.get c.state key))
          (value_of (State.get st' key))
      → str_eq s.session_id c.session.id ≡ false
      → (c.handle == id) ≡ false
      → TrackedAt c
      → TrackedAt (publish (record c { state = st' }) k body_mp msg)
  published-Tracked st' c k body_mp msg change other_session other_handle t =
      let d = publish (record c { state = st' }) k body_mp msg in
      subst (λ x. Tracked decode key id s copy x d.fanout d.handles)
        (sym (state-publish (record c { state = st' }) k body_mp msg))
        (publish-Tracked decode key id s copy c.state st' k body_mp change c msg other_session
          other_handle t)

  ops-apply :
      (codec : Codec) (st : StateStore) (k : String) (value : Value)
      → (apply codec st k value).2 ≡ ops_for (State.get st k) value
  unfolding apply State.get
  ops-apply codec st k value = refl

  body-apply :
      (st : StateStore) (k : String) (value : Value)
      → cfg.encode_delta_body (apply cfg.codec st k value).1 (apply cfg.codec st k value).2
        ≡ cfg.encode_delta_body (next_version st) (ops_for (State.get st k) value)
  unfolding apply State.get
  body-apply st k value = refl

  pub write_state-Tracked :
      (c : Connection) (k : String) (value : Value)
      → IsSafe c.state key
      → str_eq s.session_id c.session.id ≡ false
      → (c.handle == id) ≡ false
      → TrackedAt c
      → IsReadBack cfg decode key c.state (write_state cfg c k value).0.state
      → TrackedAt (write_state cfg c k value).0
  unfolding write_state
  write_state-Tracked c k value safe other_session other_handle t r =
      let st' = (apply cfg.codec c.state k value).0 in
      let r' = subst (IsReadBack cfg decode key c.state) (state-write_state cfg c k value) r in
      elim (Bool-cases (is_empty (apply cfg.codec c.state k value).2)) [
        | inl nothing_new ↦
            rw (nothing_new, write_state)
              (unpublished-Tracked st' c
                (unchanged_value cfg decode key c.state safe k value r'.safe
                  (ap is_empty (sym (ops-apply cfg.codec c.state k value)) ∙ nothing_new))
                t)
        | inr new ↦
            rw (new, write_state)
              (published-Tracked st' c k _ _
                (subst
                  (λ b.
                    DeltaOf decode key k b (value_of (State.get c.state key))
                      (value_of (State.get st' key)))
                  (sym (body-apply c.state k value))
                  (write_any-DeltaOf cfg decode key c.state safe k value r'))
                other_session other_handle t)
      ]
