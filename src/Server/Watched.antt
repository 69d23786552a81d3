-- ===== src/Server/Watched.antt =====
-- A watcher's copy of a key over any run of CALLs of other sessions, while its queue is emptied.
use sodp.Base.{
  ℕ, ◌≡◌, refl, sym, ap, ◌∙◌, subst, String, true, false, Option, some, none, List, [], ◌∷◌, take,
  drop, take-drop, ◌==◌, ==_iff, ◌⊎◌, inl, inr, Option-cases, str_eq,
}
use sodp.Base.IdMap
use sodp.Json.{Value}
use sodp.Delta.{DeltaOp}
use sodp.Frame.{Bytes, Frame}
use sodp.Session.{Session}
use sodp.Fanout.{WriteHandle, Handles, Subscriber}
use sodp.State
use sodp.State.{StateStore, StateEntry, next_version, delete}
use sodp.State.CatchUp.{value_of}
use sodp.Server.{Config}
use sodp.Server.Call.{handle_call}
use sodp.Server.Lifecycle.{Shared, shared_of, connected}
use sodp.Server.Following.{follow}
use sodp.Server.Tracking.{follow-append}
use sodp.Server.Tracked.{Watches, Tracked, tracked, cut_off}
use sodp.Server.Others.{IsSafe, IsReadBack}
use sodp.Server.Copies.{handle_call-Tracked}

-- What happens while a client watches a key: another session sends a CALL, or the client takes the
-- first messages of its queue.
pub data Happening : Type 0 where
  call : Session → ℕ → ℕ → Frame → Happening
  taken : ℕ → Happening

-- The server and the client's copy.
pub record View : Type 0 where
  pub server : Shared
  pub copy : Value

module _ (cfg : Config) (decode : Bytes → Option (List DeltaOp)) (key : String) (id : ℕ)
    (s : Subscriber) where
  abbrev pub called : Shared → Session → ℕ → ℕ → Frame → Shared
  called sh writer handle now f = shared_of (handle_call cfg now f (connected sh writer handle))

  abbrev pub take_messages : ℕ → View → WriteHandle → View
  take_messages n v h = record {
    server = record v.server {
      handles = IdMap.insert v.server.handles id (record h { outbound = drop n h.outbound });
    };
    copy = follow decode s.stream_id v.copy (take n h.outbound);
  }

  abbrev pub happen : View → Happening → View
  happen v (call writer handle now f) = record v { server = called v.server writer handle now f }
  happen v (taken n) = elim (IdMap.get v.server.handles id) [
    | none ↦ v
    | some h ↦ take_messages n v h
  ]

  unfoldable pub happen_all : View → List Happening → View
  happen_all v [] = v
  happen_all v (e ∷ es) = happen_all (happen v e) es

  -- The CALLs are of other sessions, over other handles, and leave values that the delta format can
  -- carry and rmp_serde reads back.
  unfoldable pub CanHappen : View → List Happening → Type 0
  CanHappen v [] = Unit
  CanHappen v (call writer handle now f ∷ es) =
      ((str_eq s.session_id writer.id ≡ false)
        × ((handle == id) ≡ false)
        × IsReadBack cfg decode key v.server.state (called v.server writer handle now f).state)
      × CanHappen (happen v (call writer handle now f)) es
  CanHappen v (taken n ∷ es) = CanHappen (happen v (taken n)) es

  abbrev TrackedView : View → Type 0
  TrackedView v = Tracked decode key id s v.copy v.server.state v.server.fanout v.server.handles

  get-insert_self :
      (hs : Handles) (n : ℕ) (h : WriteHandle) → IdMap.get (IdMap.insert hs n h) n ≡ some h
  get-insert_self hs n h = rw (IdMap.get-insert hs n n h, (==_iff n n).1 refl) refl

  taken-Tracked : (n : ℕ) (v : View) → TrackedView v → TrackedView (happen v (taken n))
  taken-Tracked n v (cut_off (h, found, c)) =
      let h' = record h { outbound = drop n h.outbound } in
      rw (found, happen) (cut_off (h', get-insert_self v.server.handles id h', c))
  taken-Tracked n v (tracked h found w leads) =
      let h' = record h { outbound = drop n h.outbound } in
      rw (found, happen)
        (tracked h' (get-insert_self v.server.handles id h') w (
          sym (follow-append decode s.stream_id v.copy (take n h.outbound) (drop n h.outbound))
          ∙ (ap (follow decode s.stream_id v.copy) (take-drop n h.outbound) ∙ leads)))

  state-taken : (n : ℕ) (v : View) → (happen v (taken n)).server.state ≡ v.server.state
  state-taken n v = elim (Option-cases (IdMap.get v.server.handles id)) [
    | inl none_there ↦ rw (none_there, happen) refl
    | inr (h, found) ↦ rw (found, happen) refl
  ]

  happen_all-Tracked :
      (v : View) (es : List Happening)
      → IsSafe v.server.state key
      → TrackedView v
      → CanHappen v es
      → TrackedView (happen_all v es)
  unfolding happen_all CanHappen
  happen_all-Tracked v [] safe t can = t
  happen_all-Tracked v (call writer handle now f ∷ es) safe t can =
      happen_all-Tracked (happen v (call writer handle now f)) es can.0.2.safe
        (handle_call-Tracked cfg decode key id s v.copy now f (connected v.server writer handle)
          safe can.0.0 can.0.1 t can.0.2)
        can.1
  happen_all-Tracked v (taken n ∷ es) safe t can =
      happen_all-Tracked (happen v (taken n)) es
        (subst (λ x. IsSafe x key) (sym (state-taken n v)) safe) (taken-Tracked n v t) can

  -- A watcher misses nothing: whatever CALLs other sessions send, to whatever keys, and however the
  -- watcher takes the messages from its queue meanwhile, its session has been cancelled, or its copy
  -- of the key becomes the stored value with the messages still in the queue. At the start the copy
  -- does so too; the watcher has one stream on the key, and all streams of its session write to its
  -- handle; each value that the key gets is well formed with keys that a path can name, and
  -- rmp_serde reads the delta of each change back.
  pub happen_all-follow :
      (v : View) (h : WriteHandle) (es : List Happening)
      → IdMap.get v.server.handles id ≡ some h
      → Watches decode key id s v.server.fanout
      → follow decode s.stream_id v.copy h.outbound ≡ value_of (State.get v.server.state key)
      → IsSafe v.server.state key
      → CanHappen v es
      → let after = happen_all v es in
        (h' : WriteHandle) × (IdMap.get after.server.handles id ≡ some h')
        × ((h'.cancelled ≡ true)
            ⊎ (follow decode s.stream_id after.copy h'.outbound
                ≡ value_of (State.get after.server.state key)))
  happen_all-follow v h es found w leads safe can =
      elim (happen_all-Tracked v es safe (tracked h found w leads) can) [
        | cut_off (h', found', c) ↦ (h', found', inl c)
        | tracked h' found' w' leads' ↦ (h', found', inr leads')
      ]
