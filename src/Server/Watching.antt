-- ===== src/Server/Watching.antt =====
-- What a published change does to the queue of a watcher in another session.
use sodp.Base.{
  ℕ, ◌+◌, ◌≤◌, ◌≡◌, refl, ap, ◌∙◌, String, false, some, List, [], ◌∷◌, arith, length, retain, map,
  is_empty, ◌==◌, Bool-cases, Option-cases, inl, inr,
}
use sodp.Base.IdMap
use sodp.Json.{Value}
use sodp.Frame.{Bytes, arc_delta}
use sodp.Session.{watch_stream_id}
use sodp.Fanout.{WriteHandle, Subscriber, is_included, subscribers}
use sodp.Fanout.Delivery.{messages_to, queued, broadcast_encoded-delivers, get-send_other}
use sodp.State.{apply}
use sodp.Server.{Config, Connection, SyncMsg, publish, write_state, send_msg}

-- The handle `id`, not the writer's own, is open, has room for a message and one watcher of the
-- key in another session writes to it.
pub record IsWatching (c : Connection) (key : String) (id : ℕ) (h : WriteHandle) (s : Subscriber)
    : Type 0 where
  pub found : IdMap.get c.handles id ≡ some h
  pub open_handle : h.closed ≡ false
  pub room : length h.outbound + 1 ≤ h.capacity
  pub other : (c.handle == id) ≡ false
  pub alone :
      retain
        (λ t. t.write == id)
        (retain (is_included (some c.session.id)) (subscribers c.fanout key))
      ≡ s ∷ []

messages_to-retain :
    (id : ℕ) (body_mp : Bytes) (subs : List Subscriber)
    → messages_to id body_mp subs
      ≡ map (λ s. arc_delta s.stream_id body_mp) (retain (λ s. s.write == id) subs)
messages_to-retain id body_mp [] = refl
messages_to-retain id body_mp (s ∷ rest) = ground (arith, messages_to-retain id body_mp rest)

module _ (c : Connection) (key : String) (id : ℕ) (h : WriteHandle) (s : Subscriber)
    (w : IsWatching c key id h s) where
  one_message :
      (body_mp : Bytes)
      → messages_to id body_mp (retain (is_included (some c.session.id)) (subscribers c.fanout key))
        ≡ arc_delta s.stream_id body_mp ∷ []
  one_message body_mp =
      messages_to-retain id body_mp _ ∙ ap (λ l. map (λ t. arc_delta t.stream_id body_mp) l) w.alone

  pub get-publish :
      (body_mp : Bytes) (msg : SyncMsg)
      → IdMap.get (publish c key body_mp msg).handles id
        ≡ some (queued h (arc_delta s.stream_id body_mp ∷ []))
  unfolding publish send_msg
  get-publish body_mp msg =
      let delivered =
        broadcast_encoded-delivers c.fanout c.handles key body_mp (some c.session.id) id h w.found
          w.open_handle (rw (one_message body_mp) w.room)
        ∙ ap (λ l. some (queued h l)) (one_message body_mp) in
      elim (Option-cases (watch_stream_id c.session key)) [
        | inl e ↦ rw (e, publish) delivered
        | inr (own, e) ↦ rw (e, publish) (get-send_other _ c.handle id _ w.other ∙ delivered)
      ]

pub state-publish :
    (c : Connection) (key : String) (body_mp : Bytes) (msg : SyncMsg)
    → (publish c key body_mp msg).state ≡ c.state
unfolding publish send_msg
state-publish c key body_mp msg = elim (Option-cases (watch_stream_id c.session key)) [
  | inl e ↦ rw (e, publish) refl
  | inr (own, e) ↦ rw (e, publish) refl
]

pub handle-publish :
    (c : Connection) (key : String) (body_mp : Bytes) (msg : SyncMsg)
    → (publish c key body_mp msg).handle ≡ c.handle
unfolding publish send_msg
handle-publish c key body_mp msg = elim (Option-cases (watch_stream_id c.session key)) [
  | inl e ↦ rw (e, publish) refl
  | inr (own, e) ↦ rw (e, publish) refl
]

pub handle-write_state :
    (cfg : Config) (c : Connection) (key : String) (value : Value)
    → (write_state cfg c key value).0.handle ≡ c.handle
unfolding write_state
handle-write_state cfg c key value =
    elim (Bool-cases (is_empty (apply cfg.codec c.state key value).2)) [
      | inl e ↦ rw (e, write_state)
      | inr e ↦ rw (e, write_state) (handle-publish _ key _ _)
    ]
