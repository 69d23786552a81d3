-- ===== src/WritePool/Task.antt =====
-- src/write_pool.rs in task mode: the write task of one session.
use sodp.Base.{
  ◌≡◌, refl, sym, ap, ◌∙◌, Bool, true, false, Option, none, some, List, [], ◌∷◌, ◌++◌, append_assoc,
  append-nil, Option-cases, inl, inr, if◌then◌else◌,
}
use sodp.Frame.{Frame, Bytes, OutboundMsg}
use sodp.WritePool.{Message, to_ws_msg}

-- The socket: whether it takes a message or a flush, after the messages that it has taken.
pub record Socket : Type 0 where
  pub feed : List Message → Message → Bool
  pub flush : List Message → Bool

-- What happens before the task looks at its queue again: messages arrive, the session is cancelled,
-- or the last sender is gone.
pub data Round : Type 0 where
  arrive : List OutboundMsg → Round
  cancelled : Round
  senders_gone : Round

-- The end of a turn: on to the next with what is queued, or a break.
pub data Turned : Type 0 where
  goes : List Message → List OutboundMsg → Turned
  breaks : List Message → Turned

module _ (encode : Frame → Option Bytes) (ws : Socket) where
  -- `if let Some(wm) = to_ws_msg(m) && ws.feed(wm).await.is_err()`: what is fed, and whether it went.
  unfoldable pub feed_one : List Message → OutboundMsg → List Message × Bool
  feed_one fed m = elim (to_ws_msg encode m) [
    | none ↦ (fed, true)
    | some wm ↦ if ws.feed fed wm then (fed ++ wm ∷ [], true) else (fed, false)
  ]

  -- The inner loop: a message that fails is lost, and those behind it stay queued.
  unfoldable pub coalesce : List Message → List OutboundMsg → List Message × List OutboundMsg
  unfolding feed_one
  coalesce fed [] = (fed, [])
  coalesce fed (m ∷ queue) =
      let (fed', sent) = feed_one fed m in
      let rest = coalesce fed' queue in if sent then rest else (fed', queue)

  -- One turn of the loop, which waits while the queue is empty.
  unfoldable pub turn : List Message → List OutboundMsg → Turned
  unfolding coalesce
  turn fed [] = goes fed []
  turn fed (m ∷ queue) =
      let (fed', sent) = feed_one fed m in
      let (fed'', left) = coalesce fed' queue in
      if sent then (if ws.flush fed'' then goes fed'' left else breaks fed'') else breaks fed'

  -- The messages that the socket takes until the loop breaks; what is queued when the last sender
  -- is gone is still received.
  unfoldable pub write_task : List Message → List OutboundMsg → List Round → List Message
  unfolding turn
  write_task fed queue [] = fed
  write_task fed queue (cancelled ∷ rounds) = fed
  write_task fed [] (senders_gone ∷ rounds) = fed
  write_task fed (m ∷ queue) (senders_gone ∷ rounds) = elim (turn fed (m ∷ queue)) [
    | goes fed' queue' ↦ write_task fed' queue' rounds
    | breaks fed' ↦ fed'
  ]
  write_task fed queue (arrive msgs ∷ rounds) = elim (turn fed (queue ++ msgs)) [
    | goes fed' queue' ↦ write_task fed' queue' rounds
    | breaks fed' ↦ fed'
  ]

  -- The messages of a queue as the socket gets them, without those that do not encode.
  abbrev pub one_on_wire : Option Message → List Message
  one_on_wire none = []
  one_on_wire (some wm) = wm ∷ []

  pub on_wire : List OutboundMsg → List Message
  on_wire [] = []
  on_wire (m ∷ queue) = one_on_wire (to_ws_msg encode m) ++ on_wire queue

  abbrev pub arrivals : List (List OutboundMsg) → List Round
  arrivals [] = []
  arrivals (msgs ∷ batches) = arrive msgs ∷ arrivals batches

  abbrev pub joined : List (List OutboundMsg) → List OutboundMsg
  joined [] = []
  joined (msgs ∷ batches) = msgs ++ joined batches

  on_wire-append : (a b : List OutboundMsg) → on_wire (a ++ b) ≡ on_wire a ++ on_wire b
  unfolding on_wire
  on_wire-append [] b = refl
  on_wire-append (m ∷ a) b =
      ap (λ l. one_on_wire (to_ws_msg encode m) ++ l) (on_wire-append a b)
      ∙ sym (append_assoc (one_on_wire (to_ws_msg encode m)) (on_wire a) (on_wire b))

  -- A socket that takes everything.
  pub record IsReliable : Type 0 where
    pub fed : (before : List Message) (wm : Message) → ws.feed before wm ≡ true
    pub flushed : (before : List Message) → ws.flush before ≡ true

  module _ (r : IsReliable) where
    feed_one-wire :
        (fed : List Message) (m : OutboundMsg)
        → feed_one fed m ≡ (fed ++ one_on_wire (to_ws_msg encode m), true)
    unfolding feed_one
    feed_one-wire fed m = elim (Option-cases (to_ws_msg encode m)) [
      | inl e ↦ rw (e, feed_one) (ap (λ l. (l, true)) (sym (append-nil fed)))
      | inr (wm, e) ↦ rw (e, feed_one) (rw (r.fed fed wm) refl)
    ]

    coalesce-wire :
        (fed : List Message) (queue : List OutboundMsg)
        → coalesce fed queue ≡ (fed ++ on_wire queue, [])
    unfolding coalesce on_wire
    coalesce-wire fed [] = ap (λ l. (l, [])) (sym (append-nil fed))
    coalesce-wire fed (m ∷ queue) =
        rw (feed_one-wire fed m, coalesce)
          (coalesce-wire (fed ++ one_on_wire (to_ws_msg encode m)) queue
            ∙ ap (λ l. (l, []))
                (append_assoc fed (one_on_wire (to_ws_msg encode m)) (on_wire queue)))

    turn-wire :
        (fed : List Message) (queue : List OutboundMsg)
        → turn fed queue ≡ goes (fed ++ on_wire queue) []
    unfolding turn on_wire
    turn-wire fed [] = ap (λ l. goes l []) (sym (append-nil fed))
    turn-wire fed (m ∷ queue) =
        rw (feed_one-wire fed m, turn)
          (rw (coalesce-wire (fed ++ one_on_wire (to_ws_msg encode m)) queue, turn)
            (rw (r.flushed ((fed ++ one_on_wire (to_ws_msg encode m)) ++ on_wire queue)) (
              ap (λ l. goes l [])
                (append_assoc fed (one_on_wire (to_ws_msg encode m)) (on_wire queue)))))

    -- In task mode, as long as the session is not cancelled and the socket takes everything, the
    -- socket gets every message that arrives, in the order of arrival and once, except those that
    -- do not encode, however the arrivals fall into rounds.
    pub write_task-wire :
        (fed : List Message) (batches : List (List OutboundMsg))
        → write_task fed [] (arrivals batches) ≡ fed ++ on_wire (joined batches)
    unfolding write_task on_wire
    write_task-wire fed [] = sym (append-nil fed)
    write_task-wire fed (msgs ∷ batches) =
        rw (turn-wire fed msgs, write_task)
          (write_task-wire (fed ++ on_wire msgs) batches
            ∙ append_assoc fed (on_wire msgs) (on_wire (joined batches))
            ∙ ap (λ l. fed ++ l) (sym (on_wire-append msgs (joined batches))))
