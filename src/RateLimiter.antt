-- ===== src/RateLimiter.antt =====
-- src/server/rate-limiter.ts: the sliding-window limiter. The clock that `consume` reads once is an
-- argument; times and limits are natural numbers.
pub mod Window
pub mod Retry
use command_relay.Common.{
  ℕ, ◌+◌, ◌-◌, String, Bool, true, false, Option, none, some, List, [], ◌∷◌, ◌++◌, ltb, leb,
  if◌then◌else◌, string_eq, get_or, head?, length,
}
use command_relay.Common.Assoc.{get, set, delete}

pub record RateLimitDecision : Type 0 where
  pub allowed : Bool
  pub limit : ℕ
  pub window_ms : ℕ
  pub retry_after_ms : ℕ
  pub remaining : ℕ

pub record RateLimiter : Type 0 where
  pub max_events : ℕ
  pub window_ms : ℕ
  pub timestamps : List (String × List ℕ)

unfoldable pub create_rate_limiter : (max_events window_ms : ℕ) → RateLimiter
create_rate_limiter max_events window_ms = record {
  max_events = max_events;
  window_ms = window_ms;
  timestamps = [];
}

-- The `while` loop: drops entries before `now - windowMs` from the front, and stops at the first
-- that is not. The bound is compared as `ts + windowMs < now`, since it may be negative.
unfoldable pub drop_expired : (window_ms now : ℕ) → List ℕ → List ℕ
drop_expired window_ms now [] = []
drop_expired window_ms now (ts ∷ history) =
    let rest = drop_expired window_ms now history in
    if ltb (ts + window_ms) now then rest else ts ∷ history

unfoldable pub history_of : String → RateLimiter → List ℕ
history_of key l = get_or (get key l.timestamps) []

unfoldable pub consume : (key : String) (now : ℕ) → RateLimiter → RateLimiter × RateLimitDecision
consume key now l =
    let history = drop_expired l.window_ms now (history_of key l) in
    if leb l.max_events (length history)
    then (
      record l { timestamps = set key history l.timestamps },
      record {
        allowed = false;
        limit = l.max_events;
        window_ms = l.window_ms;
        retry_after_ms = get_or (head? history) now + l.window_ms - now;
        remaining = 0;
      },
    )
    else (
      record l { timestamps = set key (history ++ now ∷ []) l.timestamps },
      record {
        allowed = true;
        limit = l.max_events;
        window_ms = l.window_ms;
        retry_after_ms = 0;
        remaining = l.max_events - length (history ++ now ∷ []);
      },
    )

unfoldable pub allow : (key : String) (now : ℕ) → RateLimiter → RateLimiter × Bool
allow key now l = let (l', decision) = consume key now l in (l', decision.allowed)

unfoldable pub clear : (key : String) → RateLimiter → RateLimiter
clear key l = record l { timestamps = delete key l.timestamps }
