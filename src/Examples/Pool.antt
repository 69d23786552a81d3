-- ===== src/Examples/Pool.antt =====
-- One message through the pool, from `send` to the end of the drain, and a write task.
use sodp.Base.{◌⊎◌, ◌<◌, length, ◌≡◌, refl, [], ◌∷◌, arith}
use sodp.Frame.{OutboundMsg, bytes}
use sodp.WritePool.{Handle, idle_handle, new_handle, Step, Reach}
use sodp.Base.{List, Option, none, true, ◌++◌}
use sodp.Frame.{Frame, Bytes, ping}
use sodp.WritePool.Task.{Socket, IsReliable, write_task, arrivals, joined, on_wire, write_task-wire}
use sodp.WritePool.Delivery.{IsQuiet, quiet_delivered, Works, no_stall}

abbrev msg : OutboundMsg
msg = bytes (9 ∷ [])

-- The message is queued; the sender has not yet tried to enqueue the handle.
abbrev accepted : Handle
accepted = record (idle_handle 8) {
  outbound = msg ∷ [];
  pending = 1;
  enqueuing = 1;
  accepted = msg ∷ [];
}

Reach-accepted : Reach 8 accepted
unfolding new_handle
Reach-accepted =
    Reach.later (Reach.later (Reach.start refl) Step.add_pending)
      (Step.send_ok msg (omega arith) (omega arith))

-- A worker has drained the queue, cleared the flag and seen that nothing is pending.
abbrev delivered : Handle
delivered = record (idle_handle 8) { accepted = msg ∷ []; handled = msg ∷ [] }

-- The worker has cleared the flag, and has not yet looked at the count.
abbrev cleared : Handle
cleared = record delivered { checking = 1 }

Reach-cleared : Reach 8 cleared
Reach-cleared =
    let taken =
      Reach.later
        (Reach.later (Reach.later Reach-accepted (Step.enqueue_win (omega arith) refl))
          (Step.queue_send (omega arith)))
        (Step.take_handle (omega arith)) in
    let received =
      Reach.later (Reach.later taken (Step.lock (omega arith) refl))
        (Step.receive {msg = msg} {rest = []} refl refl) in
    let written =
      Reach.later (Reach.later received (Step.subtract {msg = msg} refl))
        (Step.feed_ok {msg = msg} refl) in
    let released = Reach.later (Reach.later written (Step.drained refl refl)) (Step.unlock refl) in
    Reach.later released (Step.store_false (omega arith))

Reach-delivered : Reach 8 delivered
Reach-delivered = Reach.later Reach-cleared (Step.load_zero (omega arith) refl)

-- A second message comes in, its sender still sees the flag that was cleared, and the worker the
-- count from before it: both leave, and the message stays queued with no thread at work.
abbrev stalled : Handle
stalled = record delivered {
  outbound = msg ∷ [];
  pending = 1;
  accepted = msg ∷ msg ∷ [];
  stale = 2;
}

Reach-stalled : Reach 8 stalled
Reach-stalled =
    let sent =
      Reach.later (Reach.later Reach-cleared Step.add_pending)
        (Step.send_ok msg (omega arith) (omega arith)) in
    Reach.later (Reach.later sent (Step.enqueue_lose_stale (omega arith) refl))
      (Step.load_zero_stale (omega arith) (omega arith))

stalled-IsQuiet : IsQuiet stalled
stalled-IsQuiet = record { no_sender = refl; no_token = refl; no_check = refl }

delivered-IsQuiet : IsQuiet delivered
delivered-IsQuiet = record { no_sender = refl; no_token = refl; no_check = refl }

quiet_delivered_example :
    (delivered.handled ++ delivered.outbound ≡ delivered.accepted)
    × (delivered.pending ≡ length delivered.outbound)
    × ((delivered.outbound ≡ []) ⊎ (0 < delivered.stale))
quiet_delivered_example = quiet_delivered 8 delivered Reach-delivered delivered-IsQuiet

no_stall_example : ((k : Handle) × Works accepted k) ⊎ (0 < accepted.stale)
no_stall_example = no_stall 8 accepted Reach-accepted (omega arith)

-- A socket that takes everything, and a frame encoder that fails.
abbrev socket : Socket
socket = record { feed = λ before wm. true; flush = λ before. true }

abbrev no_frames : Frame → Option Bytes
no_frames f = none

socket-IsReliable : IsReliable no_frames socket
socket-IsReliable = record { fed = λ before wm. refl; flushed = λ before. refl }

abbrev batches : List (List OutboundMsg)
batches = (msg ∷ ping ∷ []) ∷ [] ∷ (msg ∷ []) ∷ []

write_task-wire_example :
    write_task no_frames socket [] [] (arrivals no_frames socket batches)
    ≡ [] ++ on_wire no_frames socket (joined no_frames socket batches)
write_task-wire_example = write_task-wire no_frames socket socket-IsReliable [] batches
