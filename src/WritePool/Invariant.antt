-- ===== src/WritePool/Invariant.antt =====
-- What holds of a pooled handle at every step: one token, an honest count, no message forgotten where
-- each load gives the last value.
use sodp.Base.{
  zero, suc, subst, some, some-injective, none-ne-some, ℕ, ◌+◌, ◌<◌, ◌≤◌, ◌≡◌, refl, sym, ◌∙◌, List,
  [], ◌∷◌, ◌++◌, arith, length, length-append, append_assoc, if◌then◌else◌,
}
use sodp.Frame.{OutboundMsg}
use sodp.WritePool.{
  Holder, unlocked, subtracting, feeding, Handle, idle_handle, new_handle, Step, Reach,
}

abbrev pub held : Holder → ℕ
held unlocked = 0
held _ = 1

-- A message that was received and not yet counted off.
abbrev pub uncounted : Holder → ℕ
uncounted (subtracting msg) = 1
uncounted _ = 0

abbrev pub in_hand : Holder → List OutboundMsg
in_hand (subtracting msg) = msg ∷ []
in_hand (feeding msg) = msg ∷ []
in_hand _ = []

abbrev pub tokens : Handle → ℕ
tokens h = h.winning + h.queued + h.waiting + held h.holder + h.storing

pub record IsSound (h : Handle) : Type 0 where
  -- Whoever is to drain the handle, is draining it or has just drained it holds the flag.
  pub one_token : tokens h ≡ (if h.in_pool then 1 else 0)
  pub counted : h.pending ≡ length h.outbound + h.sending + h.undoing + uncounted h.holder
  pub not_forgotten :
      0 < length h.outbound → 0 < tokens h + h.enqueuing + h.checking + h.requeuing + h.stale
  pub bounded : length h.outbound ≤ h.capacity

start-IsSound : (capacity : ℕ) → IsSound (idle_handle capacity)
start-IsSound capacity = record {
  one_token = refl;
  counted = refl;
  not_forgotten = λ h. omega arith;
  bounded = omega arith;
}

-- What holds of an idle handle holds of a new one.
new_handle-elim :
    (P : Handle → Type 0)
    → ((capacity : ℕ) → P (idle_handle capacity))
    → (capacity : ℕ) (h : Handle) → new_handle capacity ≡ some h
    → P h
unfolding new_handle
new_handle-elim P idle zero h e = absurd (none-ne-some _ e)
new_handle-elim P idle (suc n) h e = subst P (some-injective _ _ e) (idle (suc n))

Step-IsSound : {h k : Handle} → Step h k → IsSound h → IsSound k
Step-IsSound Step.add_pending s = ground arith
Step-IsSound {h} (Step.send_ok msg p q) s = ground (arith, length-append h.outbound (msg ∷ []))
Step-IsSound (Step.send_full p q) s = ground arith
Step-IsSound (Step.undo p) s = ground arith
Step-IsSound (Step.enqueue_win p q) s = ground arith
Step-IsSound (Step.enqueue_lose p q) s = ground arith
Step-IsSound (Step.queue_send p) s = ground arith
Step-IsSound (Step.take_handle p) s = ground arith
Step-IsSound (Step.lock p q) s = ground arith
Step-IsSound (Step.receive p q) s = ground arith
Step-IsSound (Step.drained p q) s = ground arith
Step-IsSound (Step.subtract p) s = ground arith
Step-IsSound (Step.feed_ok p) s = ground arith
Step-IsSound (Step.feed_failed p) s = ground arith
Step-IsSound (Step.unlock p) s = ground arith
Step-IsSound (Step.store_false p) s = ground arith
Step-IsSound (Step.enqueue_lose_stale p q) s = ground arith
Step-IsSound (Step.load_zero p q) s = ground arith
Step-IsSound (Step.load_zero_stale p q) s = ground arith
Step-IsSound (Step.load_more_stale p q) s = ground arith
Step-IsSound (Step.requeue_lose_stale p q) s = ground arith
Step-IsSound (Step.load_more p q) s = ground arith
Step-IsSound (Step.requeue_win p q) s = ground arith
Step-IsSound (Step.requeue_lose p q) s = ground arith

pub Reach-IsSound : {capacity : ℕ} {h : Handle} → Reach capacity h → IsSound h
Reach-IsSound {capacity} {h} (Reach.start new) =
    new_handle-elim IsSound start-IsSound capacity h new
Reach-IsSound (Reach.later r st) = Step-IsSound st (Reach-IsSound r)

-- The messages that were accepted are those handled, then the one in hand, then those queued.
abbrev pub IsOrdered : Handle → Type 0
IsOrdered h = h.accepted ≡ h.handled ++ (in_hand h.holder ++ h.outbound)

Step-IsOrdered : {h k : Handle} → Step h k → IsOrdered h → IsOrdered k
Step-IsOrdered Step.add_pending s = s
Step-IsOrdered {h} (Step.send_ok msg p q) s = simp (s, append_assoc)
Step-IsOrdered (Step.send_full p q) s = s
Step-IsOrdered (Step.undo p) s = s
Step-IsOrdered (Step.enqueue_win p q) s = s
Step-IsOrdered (Step.enqueue_lose p q) s = s
Step-IsOrdered (Step.queue_send p) s = s
Step-IsOrdered (Step.take_handle p) s = s
Step-IsOrdered (Step.lock p q) s = rw q at s
Step-IsOrdered (Step.receive p q) s = rw q at (rw p at s)
Step-IsOrdered (Step.drained p q) s = rw p at s
Step-IsOrdered (Step.subtract p) s = rw p at s
Step-IsOrdered {h} (Step.feed_ok {msg} p) s =
    rw p at s ∙ sym (append_assoc h.handled (msg ∷ []) h.outbound)
Step-IsOrdered {h} (Step.feed_failed {msg} p) s =
    rw p at s ∙ sym (append_assoc h.handled (msg ∷ []) h.outbound)
Step-IsOrdered (Step.unlock p) s = rw p at s
Step-IsOrdered (Step.store_false p) s = s
Step-IsOrdered (Step.enqueue_lose_stale p q) s = s
Step-IsOrdered (Step.load_zero p q) s = s
Step-IsOrdered (Step.load_zero_stale p q) s = s
Step-IsOrdered (Step.load_more_stale p q) s = s
Step-IsOrdered (Step.requeue_lose_stale p q) s = s
Step-IsOrdered (Step.load_more p q) s = s
Step-IsOrdered (Step.requeue_win p q) s = s
Step-IsOrdered (Step.requeue_lose p q) s = s

pub Reach-IsOrdered : {capacity : ℕ} {h : Handle} → Reach capacity h → IsOrdered h
Reach-IsOrdered {capacity} {h} (Reach.start new) =
    new_handle-elim IsOrdered (λ n. refl) capacity h new
Reach-IsOrdered (Reach.later r st) = Step-IsOrdered st (Reach-IsOrdered r)
