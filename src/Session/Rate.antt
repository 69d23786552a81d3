-- ===== src/Session/Rate.antt =====
-- The fixed window of a rate limiter.
use sodp.Base.{
  ℕ, ◌+◌, ◌-◌, ◌≤◌, ◌<◌, ◌≡◌, List, [], ◌∷◌, true, false, arith, if◌then◌else◌, All, Bool-cases,
  inl, inr, min, length, ltb, ltb→lt, ◌*◌,
}
use sodp.Session.{RateLimiter, allow, nanos_per_sec}

pub record IsWithin (l : RateLimiter) : Type 0 where
  pub bounded : l.count ≤ l.max_per_sec

-- The number of requests that pass, of those made at the given times.
unfoldable pub passed : RateLimiter → List ℕ → ℕ
passed l [] = 0
passed l (now ∷ times) = let (l', ok) = allow now l in (if ok then 1 else 0) + passed l' times

pub allow-IsWithin : (now : ℕ) (l : RateLimiter) → IsWithin l → IsWithin (allow now l).0
unfolding allow
allow-IsWithin now l w = ground arith

module _ (now : ℕ) (l : RateLimiter) where
  allow_free :
      now < l.window_start + nanos_per_sec
      → l.count < l.max_per_sec
      → allow now l ≡ (record l { count = l.count + 1 }, true)
  unfolding allow
  allow_free h k = ground arith

  allow_full :
      now < l.window_start + nanos_per_sec → l.max_per_sec ≤ l.count → allow now l ≡ (l, false)
  unfolding allow
  allow_full h k = ground arith

  -- A request after the window opens the next one and takes its first slot.
  allow_next :
      l.window_start + nanos_per_sec ≤ now
      → 0 < l.max_per_sec
      → allow now l ≡ (record l { count = 1; window_start = now }, true)
  unfolding allow
  allow_next h k = ground arith

  allow_none :
      l.window_start + nanos_per_sec ≤ now
      → l.max_per_sec ≡ 0
      → allow now l ≡ (record l { count = 0; window_start = now }, false)
  unfolding allow
  allow_none h k = ground arith

-- Of requests that are all made before the limiter's window ends, as many pass as the window has
-- slots left, or all of them where there are fewer requests, if its count is within the limit.
pub passed_in_window :
    (l : RateLimiter) (times : List ℕ)
    → IsWithin l
    → All (λ t. t < l.window_start + nanos_per_sec) times
    → passed l times ≡ min (length times) (l.max_per_sec - l.count)
unfolding passed
passed_in_window l [] w h = omega arith
passed_in_window l (now ∷ times) w h = elim (Bool-cases (ltb l.count l.max_per_sec)) [
  | inl free ↦
      let l' = record l { count = l.count + 1 } in
      let room : l.count < l.max_per_sec = ground arith in
      rw (allow_free now l h.0 room)
        (omega (arith, room, passed_in_window l' times (record { bounded = room' room }) h.1))
  | inr full ↦
      let over : l.max_per_sec ≤ l.count = ground arith in
      rw (allow_full now l h.0 over) (omega (arith, over, passed_in_window l times w h.1))
]
  where
    room' : l.count < l.max_per_sec → l.count + 1 ≤ l.max_per_sec
    room' r = omega arith

ltb-false : (a b : ℕ) → ltb a b ≡ false → b ≤ a
ltb-false a b h = ground arith

Before-mono :
    (times : List ℕ) (start bound : ℕ)
    → start + nanos_per_sec ≤ bound
    → All (λ t. (start ≤ t) × (t < start + nanos_per_sec)) times
    → All (λ t. t < bound) times
Before-mono [] start bound h a = tt
Before-mono (t ∷ times) start bound h a = (omega arith, Before-mono times start bound h a.1)

-- Of requests that are all made within one second, at any start and in any order, at most twice
-- the limit pass, less what the limiter's window has counted already, if that count is within the
-- limit: the end of one window and the start of the next.
pub passed_in_second :
    (l : RateLimiter) (start : ℕ) (times : List ℕ)
    → IsWithin l
    → All (λ t. (start ≤ t) × (t < start + nanos_per_sec)) times
    → passed l times + l.count ≤ 2 * l.max_per_sec
unfolding passed
passed_in_second l start [] w h = omega arith
passed_in_second l start (now ∷ times) w h =
    let taken : RateLimiter = record l { count = l.count + 1 } in
    let next : RateLimiter = record l { count = 1; window_start = now } in
    let shut : RateLimiter = record l { count = 0; window_start = now } in
    elim (Bool-cases (ltb now (l.window_start + nanos_per_sec))) [
      | inl inside ↦ elim (Bool-cases (ltb l.count l.max_per_sec)) [
        | inl free ↦
            let room = ltb→lt _ _ free in
            rw (allow_free now l (ltb→lt _ _ inside) room) (
              omega
                (arith, passed_in_second taken start times (record { bounded = omega arith }) h.1))
        | inr full ↦
            rw (allow_full now l (ltb→lt _ _ inside) (ltb-false _ _ full))
              (omega (arith, passed_in_second l start times w h.1))
      ]
      | inr outside ↦
          let late = ltb-false _ _ outside in
          elim (Bool-cases (ltb 0 l.max_per_sec)) [
            | inl open_slots ↦
                let pos = ltb→lt _ _ open_slots in
                rw (allow_next now l late pos) (
                  omega (
                    arith,
                    passed_in_window next times (record { bounded = pos })
                        (Before-mono times start (now + nanos_per_sec) (omega arith) h.1),
                  ))
            | inr closed ↦
                let none_left : l.max_per_sec ≡ 0 = omega (arith, ltb-false _ _ closed) in
                rw (allow_none now l late none_left) (
                  omega (
                    arith,
                    passed_in_second shut start times (record { bounded = omega arith }) h.1,
                  ))
          ]
    ]
