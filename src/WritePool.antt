-- ===== src/WritePool.antt =====
-- src/write_pool.rs in pool mode: one handle, the threads that send to it and the workers that drain
-- it, as a step relation. A step is one atomic operation or one call on a channel; threads at the
-- same point of the code are counted. A load, also that of a compare-exchange that fails, may give an
-- older value, as its ordering allows: then `stale` counts it.
pub mod Invariant
pub mod Delivery
pub mod Task
use sodp.Base.{
  ℕ, zero, suc, ◌+◌, ◌-◌, ◌<◌, ◌≤◌, ◌≡◌, String, Bool, true, false, Option, none, some, List, [],
  ◌∷◌, ◌++◌, length,
}
use sodp.Frame.{Frame, Bytes, OutboundMsg, frame, bytes, arc_delta, ping, pong, delta_bytes}

-- `tungstenite::Message`, as far as the server sends it.
pub data Message : Type 0 where
  binary : Bytes → Message
  ping_message : Message
  pong_message : Bytes → Message

abbrev encoded : Option Bytes → Option Message
encoded none = none
encoded (some b) = some (binary b)

-- `encode` is `Frame::encode`.
unfoldable pub to_ws_msg : (Frame → Option Bytes) → OutboundMsg → Option Message
to_ws_msg encode (frame f) = encoded (encode f)
to_ws_msg encode (bytes b) = some (binary b)
to_ws_msg encode (arc_delta stream_id body_mp) = some (binary (delta_bytes stream_id 0 body_mp))
to_ws_msg encode ping = some ping_message
to_ws_msg encode (pong payload) = some (pong_message payload)

-- The worker that holds the two locks of the handle: before `try_recv`, before the `fetch_sub` for
-- a message, before `feed`, and after the loop.
pub data Holder : Type 0 where
  unlocked : Holder
  receiving : Holder
  subtracting : OutboundMsg → Holder
  feeding : OutboundMsg → Holder
  flushing : Holder

pub record Handle : Type 0 where
  pub capacity : ℕ
  pub outbound : List OutboundMsg
  pub pending : ℕ
  pub in_pool : Bool
  pub cancelled : Bool
  -- The entries of the handle in the pool's queue.
  pub queued : ℕ
  -- Senders: after `fetch_add`, after a `try_send` that failed, before the compare-exchange of
  -- `pool_enqueue`, and after one that won.
  pub sending : ℕ
  pub undoing : ℕ
  pub enqueuing : ℕ
  pub winning : ℕ
  -- Workers: before the locks, at them, before the store, before the load, and back at
  -- `pool_enqueue`.
  pub waiting : ℕ
  pub holder : Holder
  pub storing : ℕ
  pub checking : ℕ
  pub requeuing : ℕ
  -- What `try_send` took, and what a worker is done with: fed to the socket, failed there, or left
  -- out because it does not encode; in order.
  pub accepted : List OutboundMsg
  pub handled : List OutboundMsg
  -- The loads that gave an older value than the last one stored.
  pub stale : ℕ

abbrev pub idle_handle : ℕ → Handle
idle_handle backpressure = record {
  capacity = backpressure;
  outbound = [];
  pending = 0;
  in_pool = false;
  cancelled = false;
  queued = 0;
  sending = 0;
  undoing = 0;
  enqueuing = 0;
  winning = 0;
  waiting = 0;
  holder = unlocked;
  storing = 0;
  checking = 0;
  requeuing = 0;
  accepted = [];
  handled = [];
  stale = 0;
}

-- `WritePool::new_handle`; `mpsc::channel` panics at a capacity of zero, here `none`.
unfoldable pub new_handle : ℕ → Option Handle
new_handle zero = none
new_handle (suc n) = some (idle_handle (suc n))

-- One step of a sender or a worker. `feed_ok` also stands for a message that `to_ws_msg` gives up;
-- `feed_failed` is an error of the socket, which ends the loop.
pub data Step (h : Handle) : Handle → Type 0 where
  add_pending : Step h (record h { pending = h.pending + 1; sending = h.sending + 1 })
  send_ok :
      (msg : OutboundMsg)
      → 0 < h.sending
      → length h.outbound < h.capacity
      → Step h (record h {
        sending = h.sending - 1;
        outbound = h.outbound ++ msg ∷ [];
        accepted = h.accepted ++ msg ∷ [];
        enqueuing = h.enqueuing + 1;
      })
  send_full :
      0 < h.sending
      → h.capacity ≤ length h.outbound
      → Step h (record h { sending = h.sending - 1; undoing = h.undoing + 1 })
  undo :
      0 < h.undoing
      → Step h (record h { undoing = h.undoing - 1; pending = h.pending - 1; cancelled = true })
  enqueue_win :
      0 < h.enqueuing
      → h.in_pool ≡ false
      → Step h (record h { enqueuing = h.enqueuing - 1; in_pool = true; winning = h.winning + 1 })
  enqueue_lose :
      0 < h.enqueuing → h.in_pool ≡ true → Step h (record h { enqueuing = h.enqueuing - 1 })
  enqueue_lose_stale :
      0 < h.enqueuing
      → h.in_pool ≡ false
      → Step h (record h { enqueuing = h.enqueuing - 1; stale = h.stale + 1 })
  queue_send : 0 < h.winning → Step h (record h { winning = h.winning - 1; queued = h.queued + 1 })
  take_handle : 0 < h.queued → Step h (record h { queued = h.queued - 1; waiting = h.waiting + 1 })
  lock :
      0 < h.waiting
      → h.holder ≡ unlocked
      → Step h (record h { waiting = h.waiting - 1; holder = receiving })
  receive :
      {msg : OutboundMsg} {rest : List OutboundMsg}
      → h.holder ≡ receiving
      → h.outbound ≡ msg ∷ rest
      → Step h (record h { outbound = rest; holder = subtracting msg })
  drained : h.holder ≡ receiving → h.outbound ≡ [] → Step h (record h { holder = flushing })
  subtract :
      {msg : OutboundMsg}
      → h.holder ≡ subtracting msg
      → Step h (record h { pending = h.pending - 1; holder = feeding msg })
  feed_ok :
      {msg : OutboundMsg}
      → h.holder ≡ feeding msg
      → Step h (record h { holder = receiving; handled = h.handled ++ msg ∷ [] })
  feed_failed :
      {msg : OutboundMsg}
      → h.holder ≡ feeding msg
      → Step h (record h { holder = flushing; handled = h.handled ++ msg ∷ [] })
  unlock : h.holder ≡ flushing → Step h (record h { holder = unlocked; storing = h.storing + 1 })
  store_false :
      0 < h.storing
      → Step h (record h { storing = h.storing - 1; in_pool = false; checking = h.checking + 1 })
  load_zero : 0 < h.checking → h.pending ≡ 0 → Step h (record h { checking = h.checking - 1 })
  load_more :
      0 < h.checking
      → 0 < h.pending
      → Step h (record h { checking = h.checking - 1; requeuing = h.requeuing + 1 })
  load_zero_stale :
      0 < h.checking
      → 0 < h.pending
      → Step h (record h { checking = h.checking - 1; stale = h.stale + 1 })
  load_more_stale :
      0 < h.checking
      → h.pending ≡ 0
      → Step h
          (record h { checking = h.checking - 1; requeuing = h.requeuing + 1; stale = h.stale + 1 })
  requeue_win :
      0 < h.requeuing
      → h.in_pool ≡ false
      → Step h (record h { requeuing = h.requeuing - 1; in_pool = true; winning = h.winning + 1 })
  requeue_lose :
      0 < h.requeuing → h.in_pool ≡ true → Step h (record h { requeuing = h.requeuing - 1 })
  requeue_lose_stale :
      0 < h.requeuing
      → h.in_pool ≡ false
      → Step h (record h { requeuing = h.requeuing - 1; stale = h.stale + 1 })

pub data Reach (capacity : ℕ) : Handle → Type 0 where
  start : {h : Handle} → new_handle capacity ≡ some h → Reach capacity h
  later : {h k : Handle} → Reach capacity h → Step h k → Reach capacity k
