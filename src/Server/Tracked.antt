-- ===== src/Server/Tracked.antt =====
-- One published change and the copy of a watcher in another session.
use sodp.Base.{
  ℕ, ◌≡◌, refl, sym, ap, ◌∙◌, subst, String, Bool, true, false, not, Option, some, List, [], ◌∷◌,
  retain, retain_comm, ◌==◌, if◌then◌else◌, inl, inr, Bool-cases, Option-cases, str_eq,
}
use sodp.Base.IdMap
use sodp.Json.{Value}
use sodp.Delta.{DeltaOp}
use sodp.Delta.Apply.{apply_ops}
use sodp.Frame.{Bytes, OutboundMsg}
use sodp.Session.{watch_stream_id}
use sodp.Fanout.{
  WriteHandle, Subscriber, FanoutBus, Handles, subscribers, is_included, send, broadcast_encoded,
}
use sodp.Fanout.Delivery.{messages_to, get-send_other}
use sodp.Fanout.Slow.{
  took, dropped, Cancelled, send-Cancelled, deliver-Cancelled, IsOwn, IsOwn-retain,
}
use sodp.Fanout.Broadcasts.{Kept, broadcast_encoded-Broadcasted}
use sodp.State
use sodp.State.{StateStore}
use sodp.State.CatchUp.{value_of}
use sodp.Server.{Connection, SyncMsg, publish, send_msg}
use sodp.Server.Following.{follow}
use sodp.Server.Tracking.{follow-append, is_stream, follow_elsewhere, follow_stream}

-- What a delta of `k` is to a copy of `key`: its ops are read and applied, or it is of another key.
pub data DeltaOf (decode : Bytes → Option (List DeltaOp)) (key k : String) (body_mp : Bytes)
    (before after : Value) : Type 0 where
  of_key :
      (ops : List DeltaOp)
      → str_eq key k ≡ true
      → decode body_mp ≡ some ops
      → apply_ops before ops ≡ after
      → DeltaOf decode key k body_mp before after
  elsewhere : str_eq key k ≡ false → after ≡ before → DeltaOf decode key k body_mp before after

-- The watcher: its decoder, the key, its handle and its stream on the key.
module _ (decode : Bytes → Option (List DeltaOp)) (key : String) (id : ℕ) (s : Subscriber) where
  abbrev pub only_at : String → List Subscriber
  only_at k = if str_eq key k then s ∷ [] else []

  -- The stream is subscribed to the key, once, and to no other key; the session's subscriptions all
  -- write to the handle.
  pub record Watches (bus : FanoutBus) : Type 0 where
    pub streams : (k : String) → retain (is_stream id s.stream_id) (subscribers bus k) ≡ only_at k
    pub own : (k : String) → IsOwn s.session_id id (subscribers bus k)

  -- With what is in its queue the copy becomes the stored value, or the session is cancelled.
  pub data Tracked (copy : Value) (st : StateStore) (bus : FanoutBus) (hs : Handles) : Type 0 where
    tracked :
        (h : WriteHandle)
        → IdMap.get hs id ≡ some h
        → Watches bus
        → follow decode s.stream_id copy h.outbound ≡ value_of (State.get st key)
        → Tracked copy st bus hs
    cut_off : Cancelled hs id → Tracked copy st bus hs

  retain-only_at :
      (test : Subscriber → Bool) (k : String) → test s ≡ true → retain test (only_at k) ≡ only_at k
  retain-only_at test k t = elim (Bool-cases (str_eq key k)) [
    | inl same ↦ rw same (rw t refl)
    | inr other ↦ rw other refl
  ]

  Watches-Kept :
      (bus bus' : FanoutBus)
      → Watches bus
      → ((k : String) → Kept s.session_id bus bus' k)
      → Watches bus'
  Watches-Kept bus bus' w kept = record {
    streams = λ k.
        ap (retain (is_stream id s.stream_id)) (kept k).retained
        ∙ (retain_comm (is_stream id s.stream_id) (kept k).test (subscribers bus k)
            ∙ (ap (retain (kept k).test) (w.streams k)
                ∙ retain-only_at (kept k).test k ((kept k).spares s refl)));
    own = λ k.
        subst (IsOwn s.session_id id) (sym (kept k).retained)
          (IsOwn-retain s.session_id id (kept k).test (subscribers bus k) (w.own k));
  }

  abbrev pub included : String → FanoutBus → String → List Subscriber
  included writer bus k = retain (is_included (some writer)) (subscribers bus k)

  module _ (writer : String) (other_session : str_eq s.session_id writer ≡ false) (bus : FanoutBus)
      (w : Watches bus) (k : String) (body_mp : Bytes) where
    streams-included : retain (is_stream id s.stream_id) (included writer bus k) ≡ only_at k
    streams-included =
        retain_comm (is_stream id s.stream_id) (is_included (some writer)) (subscribers bus k)
        ∙ (ap (retain (is_included (some writer))) (w.streams k)
            ∙ retain-only_at (is_included (some writer)) k (ap not other_session))

    pub follow_change :
        (before after : Value)
        → DeltaOf decode key k body_mp before after
        → follow decode s.stream_id before (messages_to id body_mp (included writer bus k)) ≡ after
    follow_change before after (of_key ops same e leads) =
        follow_stream decode id s.stream_id body_mp before (included writer bus k) s ops
          (streams-included ∙ rw same refl) e
        ∙ leads
    follow_change before after (elsewhere other kept) =
        follow_elsewhere decode id s.stream_id body_mp before (included writer bus k)
          (streams-included ∙ rw other refl)
        ∙ sym kept

  -- A message to another handle.
  pub send-Tracked :
      (copy : Value) (st : StateStore) (bus : FanoutBus) (hs : Handles) (handle : ℕ)
      (msg : OutboundMsg)
      → (handle == id) ≡ false
      → Tracked copy st bus hs
      → Tracked copy st bus (send hs handle msg).0
  send-Tracked copy st bus hs handle msg other (cut_off c) =
      cut_off (send-Cancelled hs handle id msg c)
  send-Tracked copy st bus hs handle msg other (tracked h found w leads) =
      tracked h (get-send_other hs handle id msg other ∙ found) w leads

  module _ (copy : Value) (st st' : StateStore) (k : String) (body_mp : Bytes)
      (change : DeltaOf decode key k body_mp
        (value_of (State.get st key))
        (value_of (State.get st' key))) where
    broadcast-Tracked :
        (writer : String) (bus : FanoutBus) (hs : Handles)
        → str_eq s.session_id writer ≡ false
        → Tracked copy st bus hs
        → let (bus', hs') = broadcast_encoded bus hs k body_mp (some writer) in
          Tracked copy st' bus' hs'
    broadcast-Tracked writer bus hs other (cut_off c) =
        cut_off
          (unfold broadcast_encoded in deliver-Cancelled hs id body_mp (included writer bus k) c)
    broadcast-Tracked writer bus hs other (tracked h found w leads) =
        let b =
          broadcast_encoded-Broadcasted s.session_id bus hs k body_mp (some writer) id h found
            (w.own k) in
        elim b.sent.took_all [
          | dropped c ↦ cut_off (b.sent.now, b.sent.found, c)
          | took e ↦ elim b.kept [
            | inl c ↦ cut_off (b.sent.now, b.sent.found, c)
            | inr kept ↦ tracked b.sent.now b.sent.found (Watches-Kept bus _ w kept) (
                ap (λ g. follow decode s.stream_id copy g.outbound) e
                ∙ (follow-append decode s.stream_id copy h.outbound _
                    ∙ (ap
                          (λ v.
                            follow decode s.stream_id v
                              (messages_to id body_mp (included writer bus k)))
                          leads
                        ∙ follow_change writer other bus w k body_mp _ _ change)))
          ]
        ]

    -- `publish` by a connection of another session.
    pub publish-Tracked :
        (c : Connection) (msg : SyncMsg)
        → str_eq s.session_id c.session.id ≡ false
        → (c.handle == id) ≡ false
        → Tracked copy st c.fanout c.handles
        → let d = publish (record c { state = st' }) k body_mp msg in
          Tracked copy st' d.fanout d.handles
    unfolding publish send_msg
    publish-Tracked c msg other other_handle t =
        let t' = broadcast-Tracked c.session.id c.fanout c.handles other t in
        elim (Option-cases (watch_stream_id c.session k)) [
          | inl e ↦ rw (e, publish) t'
          | inr (own, e) ↦ rw (e, publish) (send-Tracked copy st' _ _ c.handle _ other_handle t')
        ]
