-- ===== src/Middleware/Agreement.antt =====
-- The middleware's limiter against the server's.
use sodp.Base.{ℕ, ◌+◌, ◌<◌, ◌≤◌, ◌^◌, ◌≡◌, refl, ap₂, Bool, List, [], ◌∷◌, arith, length, min}
use sodp.Session.{RateLimiter, new_limiter, allow}
use sodp.Middleware.{WindowLimiter, new_window, allow_window}

-- The verdicts on requests at the given times.
pub verdicts : RateLimiter → List ℕ → List Bool
verdicts l [] = []
verdicts l (now ∷ times) = let (l', ok) = allow now l in ok ∷ verdicts l' times

pub window_verdicts : WindowLimiter → List ℕ → List Bool
window_verdicts l [] = []
window_verdicts l (now ∷ times) = let (l', ok) = allow_window now l in ok ∷ window_verdicts l' times

-- The server's count stops at the limit, the middleware's goes on.
record IsSameWindow (l : RateLimiter) (w : WindowLimiter) : Type 0 where
  same_max : l.max_per_sec ≡ w.max_per_sec
  same_window : l.window_start ≡ w.window
  same_count : l.count ≡ min w.count w.max_per_sec

allow-allow_window :
    (now : ℕ) (l : RateLimiter) (w : WindowLimiter)
    → IsSameWindow l w
    → w.count + 1 < 2 ^ 32
    → (allow now l).1 ≡ (allow_window now w).1
unfolding allow allow_window
allow-allow_window now l w s h = ground (arith, s.same_max, s.same_window, s.same_count)

allow-IsSameWindow :
    (now : ℕ) (l : RateLimiter) (w : WindowLimiter)
    → IsSameWindow l w
    → w.count + 1 < 2 ^ 32
    → IsSameWindow (allow now l).0 (allow_window now w).0
unfolding allow allow_window
allow-IsSameWindow now l w s h = record {
  same_max = ground (arith, s.same_max);
  same_window = ground (arith, s.same_max, s.same_window, s.same_count);
  same_count = ground (arith, s.same_max, s.same_window, s.same_count);
}

count-allow_window :
    (now : ℕ) (w : WindowLimiter)
    → w.count + 1 < 2 ^ 32
    → (allow_window now w).0.count ≤ w.count + 1
unfolding allow_window
count-allow_window now w h = ground arith

verdicts-window_verdicts :
    (times : List ℕ) (l : RateLimiter) (w : WindowLimiter)
    → IsSameWindow l w
    → w.count + length times < 2 ^ 32
    → verdicts l times ≡ window_verdicts w times
unfolding verdicts window_verdicts
verdicts-window_verdicts [] l w s h = refl
verdicts-window_verdicts (now ∷ times) l w s h =
    ap₂ (λ b bs. b ∷ bs) (allow-allow_window now l w s (omega arith))
      (verdicts-window_verdicts times (allow now l).0 (allow_window now w).0
        (allow-IsSameWindow now l w s (omega arith))
        (omega (arith, count-allow_window now w (omega arith))))

-- Created at the same moment with the same limit, the server's limiter and the middleware's give
-- the same verdicts on any fewer than 2^32 requests, at any times.
pub limiters_agree :
    (now max_per_sec : ℕ) (times : List ℕ)
    → length times < 2 ^ 32
    → verdicts (new_limiter now max_per_sec) times
      ≡ window_verdicts (new_window now max_per_sec) times
unfolding new_limiter new_window
limiters_agree now max_per_sec times h =
    verdicts-window_verdicts times _ _
      (record { same_max = refl; same_window = refl; same_count = ground arith }) (omega arith)
