-- ===== src/Middleware.antt =====
-- sodp-middleware/src/rate.rs: the limiter of the middleware crate, a window of one second like
-- the server's own, which counts refused requests as well.
pub mod Agreement
pub mod Acl
pub mod Globs
pub mod Rules
use sodp.Base.{ℕ, ◌+◌, ◌%◌, ◌^◌, Bool, leb, if◌then◌else◌}
use sodp.Session.{elapsed_secs}

pub record WindowLimiter : Type 0 where
  pub max_per_sec : ℕ
  pub count : ℕ
  pub window : ℕ

unfoldable pub new_window : ℕ → ℕ → WindowLimiter
new_window now max_per_sec = record { max_per_sec = max_per_sec; count = 0; window = now }

abbrev restarted : ℕ → WindowLimiter → WindowLimiter
restarted now l =
    if leb 1 (elapsed_secs now l.window) then record l { count = 0; window = now } else l

abbrev counted : WindowLimiter → WindowLimiter × Bool
counted l =
    let count = (l.count + 1) % 2 ^ 32 in (record l { count = count }, leb count l.max_per_sec)

-- The count is a u32 that wraps, as in a build without overflow checks.
unfoldable pub allow_window : ℕ → WindowLimiter → WindowLimiter × Bool
allow_window now l = counted (restarted now l)
