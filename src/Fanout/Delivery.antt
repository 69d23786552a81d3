-- ===== src/Fanout/Delivery.antt =====
-- src/fanout.rs: which messages a broadcast leaves in the queue of a handle.
use sodp.Base.{
  ℕ, ◌+◌, ◌≤◌, ◌≡◌, refl, sym, ap, ◌∙◌, subst, String, true, false, Option, some, List, [], ◌∷◌,
  ◌++◌, arith, append_assoc, append-nil, length, length-append, retain, ◌==◌, ==_iff, if◌then◌else◌,
  Bool-cases, inl, inr, Option-cases,
}
use sodp.Base.IdMap
use sodp.Base.IdMap.{get-insert}
use sodp.Frame.{Bytes, OutboundMsg, arc_delta}
use sodp.Fanout.{
  WriteHandle, Handles, Subscriber, FanoutBus, subscribers, is_included, try_send, send, deliver,
  broadcast_encoded,
}

-- The messages for the handle `id`, of those that a snapshot's subscribers are to get.
abbrev pub messages_to : ℕ → Bytes → List Subscriber → List OutboundMsg
messages_to id body_mp [] = []
messages_to id body_mp (s ∷ rest) =
    let later = messages_to id body_mp rest in
    if s.write == id then arc_delta s.stream_id body_mp ∷ later else later

abbrev pub queued : WriteHandle → List OutboundMsg → WriteHandle
queued h msgs = record h { outbound = h.outbound ++ msgs }

pub get-send_other :
    (hs : Handles) (other id : ℕ) (msg : OutboundMsg)
    → (other == id) ≡ false
    → IdMap.get (send hs other msg).0 id ≡ IdMap.get hs id
unfolding send
get-send_other hs other id msg ne = elim (Option-cases (IdMap.get hs other)) [
  | inl e ↦ rw (e, send) refl
  | inr (h, e) ↦ rw (e, send) (rw (get-insert hs other id (try_send h msg).0, ne) refl)
]

pub get-send_self :
    (hs : Handles) (id : ℕ) (h : WriteHandle) (msg : OutboundMsg)
    → IdMap.get hs id ≡ some h
    → h.closed ≡ false
    → length h.outbound + 1 ≤ h.capacity
    → IdMap.get (send hs id msg).0 id ≡ some (queued h (msg ∷ []))
unfolding send try_send
get-send_self hs id h msg e open_handle room =
    rw (e, send) (rw (get-insert hs id id (try_send h msg).0) (ground arith))

get-send_same :
    (hs : Handles) (write id : ℕ) (h : WriteHandle) (msg : OutboundMsg)
    → (write == id) ≡ true
    → IdMap.get hs id ≡ some h
    → h.closed ≡ false
    → length h.outbound + 1 ≤ h.capacity
    → IdMap.get (send hs write msg).0 id ≡ some (queued h (msg ∷ []))
get-send_same hs write id h msg same =
    subst
      (λ w.
        IdMap.get hs id ≡ some h
        → h.closed ≡ false
        → length h.outbound + 1 ≤ h.capacity
        → IdMap.get (send hs w msg).0 id ≡ some (queued h (msg ∷ [])))
      (sym ((==_iff write id).0 same)) (get-send_self hs id h msg)

pub queue_twice :
    (h : WriteHandle) (a b : List OutboundMsg) → queued (queued h a) b ≡ queued h (a ++ b)
queue_twice h a b = ap (λ l. record h { outbound = l }) (append_assoc h.outbound a b)

pub messages_to_other :
    (id : ℕ) (body_mp : Bytes) (s : Subscriber) (rest : List Subscriber)
    → (s.write == id) ≡ false
    → messages_to id body_mp (s ∷ rest) ≡ messages_to id body_mp rest
messages_to_other id body_mp s rest e = rw e refl

pub messages_to_self :
    (id : ℕ) (body_mp : Bytes) (s : Subscriber) (rest : List Subscriber)
    → (s.write == id) ≡ true
    → messages_to id body_mp (s ∷ rest)
      ≡ arc_delta s.stream_id body_mp ∷ messages_to id body_mp rest
messages_to_self id body_mp s rest e = rw e refl

get-deliver :
    (hs : Handles) (body_mp : Bytes) (subs : List Subscriber) (id : ℕ) (h : WriteHandle)
    → IdMap.get hs id ≡ some h
    → h.closed ≡ false
    → length h.outbound + length (messages_to id body_mp subs) ≤ h.capacity
    → IdMap.get (deliver hs body_mp subs).0 id ≡ some (queued h (messages_to id body_mp subs))
unfolding deliver
get-deliver hs body_mp [] id h e o room =
    e ∙ ap (λ l. some (record h { outbound = l })) (sym (append-nil h.outbound))
get-deliver hs body_mp (s ∷ rest) id h e o room =
    let msg = arc_delta s.stream_id body_mp in
    let later = messages_to id body_mp rest in
    elim (Bool-cases (s.write == id)) [
      | inr other ↦
          let here = messages_to_other id body_mp s rest other in
          rw here (
            get-deliver (send hs s.write msg).0 body_mp rest id h
              (get-send_other hs s.write id msg other ∙ e) o
              (subst (λ l. length h.outbound + length l ≤ h.capacity) here room))
      | inl same ↦
          let here = messages_to_self id body_mp s rest same in
          let room' = subst (λ l. length h.outbound + length l ≤ h.capacity) here room in
          rw here (
            get-deliver (send hs s.write msg).0 body_mp rest id (queued h (msg ∷ []))
              (get-send_same hs s.write id h msg same e o (omega (arith, room'))) o
              (omega (arith, room', length-append h.outbound (msg ∷ [])))
            ∙ ap some (queue_twice h (msg ∷ []) later))
    ]

-- A broadcast to the watchers of a key puts, in the queue of an open handle that has room for
-- them, one DELTA with the encoded body for each subscriber of the key that writes to this handle
-- and is not of the excluded session, in the order of the subscriptions, after what is queued
-- there, and nothing else.
pub broadcast_encoded-delivers :
    (bus : FanoutBus) (hs : Handles) (key : String) (body_mp : Bytes)
    (exclude_session : Option String) (id : ℕ) (h : WriteHandle)
    → let included = retain (is_included exclude_session) (subscribers bus key) in
      IdMap.get hs id ≡ some h
      → h.closed ≡ false
      → length h.outbound + length (messages_to id body_mp included) ≤ h.capacity
      → IdMap.get (broadcast_encoded bus hs key body_mp exclude_session).1 id
        ≡ some (record h { outbound = h.outbound ++ messages_to id body_mp included })
unfolding broadcast_encoded
broadcast_encoded-delivers bus hs key body_mp ex id h e o room =
    get-deliver hs body_mp (retain (is_included ex) (subscribers bus key)) id h e o room
