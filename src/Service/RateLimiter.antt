-- ===== src/Service/RateLimiter.antt =====
-- The rate limiter of the server (crates/service/src/state.rs, `RateLimiter`). An instant is the
-- number of nanoseconds since the earliest one that the clock can tell; `duration_since` is 0 for an
-- instant that lies later.
pub mod Grants
use jiascheduler.Base.{
  ℕ, ◌*◌, ◌-◌, leb, Bool, true, false, Option, none, some, List, [], ◌∷◌, if◌then◌else◌,
}

pub record RateLimiter : Type 0 where
  pub last_executed : ℕ
  pub interval : ℕ

-- `Duration::from_secs`.
abbrev pub from_secs : ℕ → ℕ
from_secs secs = secs * 1000000000

-- A clock that has not yet run for the interval makes `new` panic.
unfoldable pub new : ℕ → ℕ → Option RateLimiter
new interval_secs now =
    if leb (from_secs interval_secs) now
    then some (record {
      last_executed = now - from_secs interval_secs;
      interval = from_secs interval_secs;
    })
    else none

unfoldable pub can_execute : ℕ → RateLimiter → Bool × RateLimiter
can_execute now self =
    if leb self.interval (now - self.last_executed)
    then (true, record self { last_executed = now })
    else (false, self)

-- The calls that are granted, of calls at these instants.
abbrev pub add_granted : Bool → ℕ → List ℕ → List ℕ
add_granted granted now rest = if granted then now ∷ rest else rest

unfoldable pub granted : List ℕ → RateLimiter → List ℕ
granted [] self = []
granted (now ∷ calls) self =
    let (is_granted, after) = can_execute now self in
    let rest = granted calls after in add_granted is_granted now rest
