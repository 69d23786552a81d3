-- ===== src/Fanout/Slow.antt =====
-- src/fanout.rs: a broadcast reaches a handle whole, or the handle's session is cancelled.
use sodp.Base.{
  ℕ, ◌≡◌, refl, sym, ap, ◌∙◌, subst, String, true, false, Bool, some, List, [], ◌∷◌, ◌++◌, arith,
  append-nil, length, retain, ◌==◌, ==_iff, if◌then◌else◌, not, ◌&&◌, ltb, str_eq, eq_iff,
  Bool-cases, inl, inr, ◌⊎◌,
}
use sodp.Base.IdMap
use sodp.Base.IdMap.{get-insert}
use sodp.Frame.{Bytes, OutboundMsg, arc_delta}
use sodp.Fanout.{WriteHandle, Handles, Subscriber, mem_text, try_send, send, deliver}
use sodp.Fanout.Delivery.{
  messages_to, messages_to_other, messages_to_self, queued, queue_twice, get-send_other,
}

-- The handle took the messages, or its session is cancelled, as it stays.
pub data Took (h : WriteHandle) (msgs : List OutboundMsg) (h' : WriteHandle) : Type 0 where
  took : h' ≡ queued h msgs → Took h msgs h'
  dropped : h'.cancelled ≡ true → Took h msgs h'

Took-nil : (h : WriteHandle) → Took h [] h
Took-nil h = took (ap (λ l. record h { outbound = l }) (sym (append-nil h.outbound)))

Took-trans :
    (h : WriteHandle) (ms : List OutboundMsg) (h' : WriteHandle) (ns : List OutboundMsg)
    (h'' : WriteHandle)
    → Took h ms h'
    → Took h' ns h''
    → (h'.cancelled ≡ true → h''.cancelled ≡ true)
    → Took h (ms ++ ns) h''
Took-trans h ms h' ns h'' (dropped d) q keep = dropped (keep d)
Took-trans h ms h' ns h'' (took p) (dropped d) keep = dropped d
Took-trans h ms h' ns h'' (took p) (took q) keep =
    took (q ∙ (ap (λ g. queued g ns) p ∙ queue_twice h ms ns))

-- What one send does to the handle that it is for.
pub record Sent (hs' : Handles) (id : ℕ) (h : WriteHandle) (msgs : List OutboundMsg) : Type 0 where
  pub now : WriteHandle
  pub found : IdMap.get hs' id ≡ some now
  pub took_all : Took h msgs now
  pub stays_cancelled : h.cancelled ≡ true → now.cancelled ≡ true

try_send-Took : (h : WriteHandle) (msg : OutboundMsg) → Took h (msg ∷ []) (try_send h msg).0
unfolding try_send
try_send-Took h msg = elim (Bool-cases (not h.closed && ltb (length h.outbound) h.capacity)) [
  | inl room ↦ rw (room, try_send) (took refl)
  | inr full ↦ rw (full, try_send) (dropped refl)
]

try_send-cancelled :
    (h : WriteHandle) (msg : OutboundMsg) → h.cancelled ≡ true → (try_send h msg).0.cancelled ≡ true
unfolding try_send
try_send-cancelled h msg c = ground arith

try_send-failed :
    (h : WriteHandle) (msg : OutboundMsg)
    → (try_send h msg).1 ≡ false
    → (try_send h msg).0.cancelled ≡ true
unfolding try_send
try_send-failed h msg f = ground arith

-- A send to the handle itself, which also says whether it took the message.
pub send_self :
    (hs : Handles) (id : ℕ) (h : WriteHandle) (msg : OutboundMsg)
    → IdMap.get hs id ≡ some h
    → (s : Sent (send hs id msg).0 id h (msg ∷ [])) × ((send hs id msg).1 ≡ false
        → s.now.cancelled ≡ true)
unfolding send
send_self hs id h msg e =
    rw (e, send)
      (
        record {
          now = (try_send h msg).0;
          found = rw (get-insert hs id id (try_send h msg).0, (==_iff id id).1 refl) refl;
          took_all = try_send-Took h msg;
          stays_cancelled = try_send-cancelled h msg;
        },
        try_send-failed h msg,
      )

send_same :
    (hs : Handles) (write id : ℕ) (h : WriteHandle) (msg : OutboundMsg)
    → (write == id) ≡ true
    → IdMap.get hs id ≡ some h
    → (s : Sent (send hs write msg).0 id h (msg ∷ [])) × ((send hs write msg).1 ≡ false
        → s.now.cancelled ≡ true)
send_same hs write id h msg same e =
    subst
      (λ w.
        (s : Sent (send hs w msg).0 id h (msg ∷ [])) × ((send hs w msg).1 ≡ false
          → s.now.cancelled ≡ true))
      (sym ((==_iff write id).0 same)) (send_self hs id h msg e)

not_slow-other :
    (b : Bool) (slow : List String) (s session : String)
    → str_eq s session ≡ false
    → mem_text slow session ≡ false
    → mem_text (if b then slow else s ∷ slow) session ≡ false
not_slow-other true slow s session ne h = h
not_slow-other false slow s session ne h = rw (ne, mem_text) h

-- A handle whose session is cancelled.
abbrev pub Cancelled : Handles → ℕ → Type 0
Cancelled hs id = (h : WriteHandle) × (IdMap.get hs id ≡ some h) × (h.cancelled ≡ true)

pub send-Cancelled :
    (hs : Handles) (write id : ℕ) (msg : OutboundMsg)
    → Cancelled hs id
    → Cancelled (send hs write msg).0 id
send-Cancelled hs write id msg (h, found, c) = elim (Bool-cases (write == id)) [
  | inr other ↦ (h, get-send_other hs write id msg other ∙ found, c)
  | inl same ↦
      let sent = (send_same hs write id h msg same found).0 in
      (sent.now, sent.found, sent.stays_cancelled c)
]

pub deliver-Cancelled :
    (hs : Handles) (id : ℕ) (body_mp : Bytes) (subs : List Subscriber)
    → Cancelled hs id
    → Cancelled (deliver hs body_mp subs).0 id
unfolding deliver
deliver-Cancelled hs id body_mp [] c = c
deliver-Cancelled hs id body_mp (s ∷ rest) c =
    let msg = arc_delta s.stream_id body_mp in
    deliver-Cancelled (send hs s.write msg).0 id body_mp rest (send-Cancelled hs s.write id msg c)

-- What a broadcast does to the handle, and that the session of the handle is not among the slow
-- ones where it took its messages.
pub record Delivered (session : String) (hs' : Handles) (slow : List String) (id : ℕ)
    (h : WriteHandle) (msgs : List OutboundMsg) : Type 0 where
  pub sent : Sent hs' id h msgs
  pub not_slow : (sent.now.cancelled ≡ true) ⊎ (mem_text slow session ≡ false)

module _ (session : String) (id : ℕ) where
  -- Every subscriber of the session writes to the handle.
  abbrev pub IsOwn : List Subscriber → Type 0
  IsOwn [] = Unit
  IsOwn (s ∷ rest) = (s.session_id ≡ session → s.write ≡ id) × IsOwn rest

  stranger :
      (s : Subscriber)
      → (s.session_id ≡ session → s.write ≡ id)
      → (s.write == id) ≡ false
      → str_eq s.session_id session ≡ false
  stranger s own other = elim (Bool-cases (str_eq s.session_id session)) [
    | inr ne ↦ ne
    | inl eq ↦ let w = own ((eq_iff s.session_id session).0 eq) in ground arith
  ]

  pub deliver-Delivered :
      (body_mp : Bytes) (hs : Handles) (subs : List Subscriber) (h : WriteHandle)
      → IdMap.get hs id ≡ some h
      → IsOwn subs
      → Delivered session
          (deliver hs body_mp subs).0
          (deliver hs body_mp subs).1
          id
          h
          (messages_to id body_mp subs)
  unfolding deliver
  deliver-Delivered body_mp hs [] h e own = record {
    sent = record { now = h; found = e; took_all = Took-nil h; stays_cancelled = λ c. c };
    not_slow = inr refl;
  }
  deliver-Delivered body_mp hs (s ∷ rest) h e own = elim (Bool-cases (s.write == id)) [
    | inr other ↦
        let msg = arc_delta s.stream_id body_mp in
        let r =
          deliver-Delivered body_mp (send hs s.write msg).0 rest h
            (get-send_other hs s.write id msg other ∙ e) own.1 in
        rw (messages_to_other id body_mp s rest other) (record {
          sent = r.sent;
          not_slow = elim r.not_slow [
            | inl c ↦ inl c
            | inr n ↦ inr (
                not_slow-other (send hs s.write msg).1 _ s.session_id session
                  (stranger s own.0 other) n)
          ];
        })
    | inl same ↦
        let msg = arc_delta s.stream_id body_mp in
        let (first, failed) = send_same hs s.write id h msg same e in
        let r =
          deliver-Delivered body_mp (send hs s.write msg).0 rest first.now first.found own.1 in
        rw (messages_to_self id body_mp s rest same) (record {
          sent = record {
            now = r.sent.now;
            found = r.sent.found;
            took_all =
                Took-trans h (msg ∷ []) first.now (messages_to id body_mp rest) r.sent.now
                  first.took_all r.sent.took_all r.sent.stays_cancelled;
            stays_cancelled = λ c. r.sent.stays_cancelled (first.stays_cancelled c);
          };
          not_slow = elim (Bool-cases (send hs s.write msg).1) [
            | inl done ↦ rw done r.not_slow
            | inr refused ↦ inl (r.sent.stays_cancelled (failed refused))
          ];
        })
  ]

  pub IsOwn-retain :
      (p : Subscriber → Bool) (subs : List Subscriber) → IsOwn subs → IsOwn (retain p subs)
  IsOwn-retain p [] own = tt
  IsOwn-retain p (s ∷ rest) own = elim (Bool-cases (p s)) [
    | inl kept ↦ rw kept (own.0, IsOwn-retain p rest own.1)
    | inr left ↦ rw left (IsOwn-retain p rest own.1)
  ]
