-- ===== src/Server/Copies.antt =====
-- A whole CALL of another session and the copy of a watcher.
use sodp.Base.{ℕ, ◌≡◌, refl, sym, subst, String, false, Option, some, List, ◌==◌, str_eq}
use sodp.Base.Dict
use sodp.Json.{Value}
use sodp.Delta.{DeltaOp}
use sodp.Frame.{Bytes, Frame}
use sodp.Fanout.{Subscriber}
use sodp.State.{StateStore, StateEntry, next_version, delete}
use sodp.State.Deletes.{removal_ops}
use sodp.Server.{Config, Connection, reply, send_msg, sync_delete, write_state, publish}
use sodp.Server.Call.{handle_call}
use sodp.Server.Watching.{handle-write_state, handle-publish, state-publish}
use sodp.Server.Effects.{Rule, handle_call-After}
use sodp.Server.Tracked.{send-Tracked}
use sodp.Server.Others.{IsSafe, IsReadBack, delete-DeltaOf}
use sodp.Server.Calling.{TrackedAt, Calling, Called, published-Tracked, write_state-Tracked}

module _ (cfg : Config) (decode : Bytes → Option (List DeltaOp)) (key : String) (id : ℕ)
    (s : Subscriber) (copy : Value) where
  abbrev Before : StateStore → Connection → Type 0
  Before = Calling cfg decode key id s copy

  abbrev After : StateStore → Connection → Type 0
  After = Called cfg decode key id s copy

  reply-After :
      (st : StateStore) (c : Connection) (make : ℕ → Frame) → After st c → After st (reply c make)
  unfolding reply send_msg
  reply-After st c make a = record {
    other_handle = a.other_handle;
    after_call = λ r.
        send-Tracked decode key id s copy c.state c.fanout c.handles c.handle _ a.other_handle
          (a.after_call r);
  }

  wrote-After :
      (st : StateStore)
      → IsSafe st key
      → (c : Connection) (k : String) (value : Value) → Before st c
      → After st (write_state cfg c k value).0
  wrote-After st safe c k value b = record {
    other_handle =
        subst (λ n. (n == id) ≡ false) (sym (handle-write_state cfg c k value)) b.other_handle;
    after_call = λ r.
        write_state-Tracked cfg decode key id s copy c k value
          (subst (λ x. IsSafe x key) (sym b.same_store) safe) b.other_session b.other_handle
          b.before_call
          (subst (λ x. IsReadBack cfg decode key x (write_state cfg c k value).0.state)
            (sym b.same_store) r);
  }

  removed-After :
      (st : StateStore)
      → IsSafe st key
      → (c : Connection) (k : String) (e : StateEntry) → Dict.get c.state.entries k ≡ some e
      → Before st c
      → let body_mp = cfg.encode_delta_body (next_version c.state) removal_ops in
        After st (
          publish
            (record c { state = (delete cfg.codec c.state k).0 })
            k
            body_mp
            (sync_delete k body_mp))
  removed-After st safe c k e found b =
      let st' = (delete cfg.codec c.state k).0 in
      let c' = record c { state = st' } in
      let body_mp = cfg.encode_delta_body (next_version c.state) removal_ops in
      let msg = sync_delete k body_mp in
      record {
        other_handle =
            subst (λ n. (n == id) ≡ false) (sym (handle-publish c' k body_mp msg)) b.other_handle;
        after_call = λ r.
            published-Tracked cfg decode key id s copy st' c k body_mp msg
              (delete-DeltaOf cfg decode key c.state
                (subst (λ x. IsSafe x key) (sym b.same_store) safe) k
                (subst (λ x. IsReadBack cfg decode key x st') (sym b.same_store)
                  (subst (IsReadBack cfg decode key st) (state-publish c' k body_mp msg) r)))
              b.other_session b.other_handle b.before_call;
      }

  pub call-Rule : (st : StateStore) → IsSafe st key → Rule cfg (Before st) (After st)
  call-Rule st safe = record {
    slot = λ c limiter b. record {
      same_store = b.same_store;
      other_session = b.other_session;
      other_handle = b.other_handle;
      before_call = b.before_call;
    };
    unwritten = λ c b. record { other_handle = b.other_handle; after_call = λ r. b.before_call };
    wrote = wrote-After st safe;
    removed = removed-After st safe;
    present = λ c k path a. record { other_handle = a.other_handle; after_call = a.after_call };
    answered = reply-After st;
  }

  pub handle_call-Tracked :
      (now : ℕ) (f : Frame) (c : Connection)
      → IsSafe c.state key
      → str_eq s.session_id c.session.id ≡ false
      → (c.handle == id) ≡ false
      → TrackedAt cfg decode key id s copy c
      → IsReadBack cfg decode key c.state (handle_call cfg now f c).state
      → TrackedAt cfg decode key id s copy (handle_call cfg now f c)
  handle_call-Tracked now f c safe other_session other_handle t r =
      (handle_call-After cfg (Before c.state) (After c.state) (call-Rule c.state safe) now f c
          (record {
            same_store = refl;
            other_session = other_session;
            other_handle = other_handle;
            before_call = t;
          })).after_call
        r
