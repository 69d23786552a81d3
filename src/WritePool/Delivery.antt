-- ===== src/WritePool/Delivery.antt =====
-- Messages that were accepted are handled in order; a wake-up is lost only by a stale load.
use sodp.Base.{
  ℕ, zero, suc, ◌+◌, ◌<◌, ◌≤◌, ◌≡◌, refl, sym, ◌∙◌, Bool-cases, ◌⊎◌, inl, inr, List, [], ◌∷◌, arith,
  ◌++◌, length,
}
use sodp.Frame.{OutboundMsg}
use sodp.WritePool.{
  Holder, unlocked, receiving, subtracting, feeding, flushing, Handle, Step, Reach,
}
use sodp.WritePool.Invariant.{held, uncounted, tokens, in_hand, Reach-IsSound, Reach-IsOrdered}

positive : (n : ℕ) → (0 < n) ⊎ (n ≡ 0)
positive zero = inr refl
positive (suc n) = inl (omega arith)

-- No thread is in the middle of a `send` or a drain, and the pool's queue does not have the handle.
pub record IsQuiet (h : Handle) : Type 0 where
  pub no_sender : h.sending + h.undoing + h.enqueuing ≡ 0
  pub no_token : tokens h ≡ 0
  pub no_check : h.checking + h.requeuing ≡ 0

empty_of : (l : List OutboundMsg) → length l ≡ 0 → l ≡ []
empty_of [] h = refl
empty_of (m ∷ l) h = absurd (omega arith)

unheld : (p : Holder) → held p ≡ 0 → in_hand p ≡ []
unheld unlocked h = refl
unheld receiving h = refl
unheld (subtracting msg) h = absurd (omega arith)
unheld (feeding msg) h = absurd (omega arith)
unheld flushing h = refl

uncounted_free : (p : Holder) → held p ≡ 0 → uncounted p ≡ 0
uncounted_free unlocked h = refl
uncounted_free receiving h = refl
uncounted_free (subtracting msg) h = absurd (omega arith)
uncounted_free (feeding msg) h = refl
uncounted_free flushing h = refl

zero_of : (n m : ℕ) → (0 < n → 0 < m) → m ≡ 0 → n ≡ 0
zero_of zero m f e = refl
zero_of (suc n) m f e = absurd (omega (arith, f (omega arith)))

-- Whenever no thread is at work on a handle, the messages that a worker took for the socket and
-- after them those still queued are exactly those that `send` accepted, in the order of acceptance,
-- and the count of pending messages is the number queued. The queue is empty, unless a load of the
-- run was stale (which the Release and Acquire orderings of the flag and the count allow): then
-- messages may be left in it until the next `send`.
pub quiet_delivered :
    (capacity : ℕ) (h : Handle)
    → Reach capacity h
    → IsQuiet h
    → (h.handled ++ h.outbound ≡ h.accepted)
      × (h.pending ≡ length h.outbound)
      × ((h.outbound ≡ []) ⊎ (0 < h.stale))
quiet_delivered capacity h r q =
    let s = Reach-IsSound r in
    let free : held h.holder ≡ 0 = omega (arith, q.no_token) in
    let hand = unheld h.holder free in
    (
      sym (Reach-IsOrdered r ∙ (rw hand refl)),
      ground (arith, s.counted, q.no_sender, uncounted_free h.holder free),
      elim (positive h.stale) [
        | inl p ↦ inr p
        | inr fresh ↦ inl (
            empty_of h.outbound (
              zero_of (length h.outbound)
                (tokens h + h.enqueuing + h.checking + h.requeuing + h.stale) s.not_forgotten
                (omega (arith, q.no_sender, q.no_token, q.no_check))))
      ],
    )

-- The handle stands in the pool's queue once at most, and of the workers that took it one at most
-- has not yet cleared the flag.
pub one_worker :
    (capacity : ℕ) (h : Handle) → Reach capacity h → h.queued + h.waiting + held h.holder ≤ 1
one_worker capacity h r = ground (arith, (Reach-IsSound r).one_token)

-- A step of a thread at work on the handle: any but the start of a `send`.
pub record Works (h k : Handle) : Type 0 where
  pub step : Step h k
  pub no_start : k.sending ≤ h.sending

abbrev CanWork : Handle → Type 0
CanWork h = (k : Handle) × Works h k

module _ (h : Handle) where
  enqueuing-CanWork : 0 < h.enqueuing → CanWork h
  enqueuing-CanWork p = elim (Bool-cases h.in_pool) [
    | inl e ↦ (_, record { step = Step.enqueue_lose p e; no_start = omega arith })
    | inr e ↦ (_, record { step = Step.enqueue_win p e; no_start = omega arith })
  ]

  requeuing-CanWork : 0 < h.requeuing → CanWork h
  requeuing-CanWork p = elim (Bool-cases h.in_pool) [
    | inl e ↦ (_, record { step = Step.requeue_lose p e; no_start = omega arith })
    | inr e ↦ (_, record { step = Step.requeue_win p e; no_start = omega arith })
  ]

  checking-CanWork : 0 < h.checking → CanWork h
  checking-CanWork p = elim (positive h.pending) [
    | inl more ↦ (_, record { step = Step.load_more p more; no_start = omega arith })
    | inr none_left ↦ (_, record { step = Step.load_zero p none_left; no_start = omega arith })
  ]

  -- The worker that holds the locks, or one that can take them.
  holder-CanWork :
      (p : Holder) (queue : List OutboundMsg)
      → h.holder ≡ p
      → h.outbound ≡ queue
      → 0 < held p + h.waiting
      → CanWork h
  holder-CanWork unlocked queue e f w =
      (_, record { step = Step.lock (omega arith) e; no_start = omega arith })
  holder-CanWork receiving [] e f w =
      (_, record { step = Step.drained e f; no_start = omega arith })
  holder-CanWork receiving (msg ∷ rest) e f w =
      (_, record { step = Step.receive e f; no_start = omega arith })
  holder-CanWork (subtracting msg) queue e f w =
      (_, record { step = Step.subtract e; no_start = omega arith })
  holder-CanWork (feeding msg) queue e f w =
      (_, record { step = Step.feed_ok e; no_start = omega arith })
  holder-CanWork flushing queue e f w = (_, record { step = Step.unlock e; no_start = omega arith })

  token-CanWork : 0 < tokens h → CanWork h
  token-CanWork t = elim (positive h.winning) [
    | inl p ↦ (_, record { step = Step.queue_send p; no_start = omega arith })
    | inr a ↦ elim (positive h.queued) [
      | inl p ↦ (_, record { step = Step.take_handle p; no_start = omega arith })
      | inr b ↦ elim (positive h.storing) [
        | inl p ↦ (_, record { step = Step.store_false p; no_start = omega arith })
        | inr c ↦ holder-CanWork h.holder h.outbound refl refl (omega arith)
      ]
    ]
  ]

-- While a handle has a message queued, some thread that is at work on it can take a step, so that
-- the message does not wait for another `send`, or a load of the run was stale (which the orderings
-- of the flag and the count allow; the wake-up may then be lost).
pub no_stall :
    (capacity : ℕ) (h : Handle)
    → Reach capacity h
    → 0 < length h.outbound
    → ((k : Handle) × Works h k) ⊎ (0 < h.stale)
no_stall capacity h r p = elim (positive h.stale) [
  | inl late ↦ inr late
  | inr fresh ↦ inl (elim (positive h.enqueuing) [
    | inl a ↦ enqueuing-CanWork h a
    | inr a ↦ elim (positive h.requeuing) [
      | inl b ↦ requeuing-CanWork h b
      | inr b ↦ elim (positive h.checking) [
        | inl c ↦ checking-CanWork h c
        | inr c ↦ token-CanWork h (omega (arith, (Reach-IsSound r).not_forgotten p))
      ]
    ]
  ])
]
