-- ===== src/RateLimiter/Retry.antt =====
-- What `retryAfterMs` tells a refused client.
use command_relay.Common.{
  ℕ, ◌+◌, ◌≤◌, ◌<◌, true, length, length-append, ◌∙◌, String, false, List, [], ◌∷◌, string_eq,
  eq_iff, get_or, head?, ◌≡◌, refl, arith,
}
use command_relay.RateLimiter.{RateLimiter, create_rate_limiter, drop_expired, history_of, consume}
use command_relay.RateLimiter.Window.{consume-allowed, history_of-consume}

-- Nothing that is in the window now has left it by the end of the wait.
drop-at_retry :
    (w now : ℕ) (h : List ℕ)
    → drop_expired w (get_or (head? (drop_expired w now h)) now + w) (drop_expired w now h)
      ≡ drop_expired w now h
unfolding drop_expired
drop-at_retry w now [] = refl
drop-at_retry w now (ts ∷ h) = ground (arith, drop-at_retry w now h)

head-drop : (w now : ℕ) (h : List ℕ) → now ≤ get_or (head? (drop_expired w now h)) now + w
unfolding drop_expired
head-drop w now [] = omega arith
head-drop w now (ts ∷ h) = ground (arith, head-drop w now h)

length-drop-le : (w now : ℕ) (h : List ℕ) → length (drop_expired w now h) ≤ length h
unfolding drop_expired
length-drop-le w now [] = omega arith
length-drop-le w now (ts ∷ h) = ground (arith, length-drop-le w now h)

-- One millisecond after the wait the oldest entry has left it.
drop-after_head : (w ts : ℕ) (h : List ℕ) → length (drop_expired w (ts + w + 1) (ts ∷ h)) ≤ length h
unfolding drop_expired
drop-after_head w ts h = ground (arith, length-drop-le w (ts + w + 1) h)

drop-after_retry :
    (w now : ℕ) (h : List ℕ)
    → 0 < length (drop_expired w now h)
    → length
        (drop_expired w (get_or (head? (drop_expired w now h)) now + w + 1) (drop_expired w now h))
      < length (drop_expired w now h)
drop-after_retry w now h some_kept = from (drop_expired w now h) some_kept
  where
    from :
        (kept : List ℕ)
        → 0 < length kept
        → length (drop_expired w (get_or (head? kept) now + w + 1) kept) < length kept
    from [] p = absurd (omega arith)
    from (ts ∷ kept) p = omega (arith, drop-after_head w ts kept)

module _ (k : String) (now : ℕ) (l : RateLimiter)
    (refused : (consume k now l).1.allowed ≡ false) where
  retry_after-eq :
      now + (consume k now l).1.retry_after_ms
      ≡ get_or (head? (drop_expired l.window_ms now (history_of k l))) now + l.window_ms
  unfolding consume
  retry_after-eq = ground (arith, head-drop l.window_ms now (history_of k l))

  settings :
      ((consume k now l).0.window_ms ≡ l.window_ms)
      × ((consume k now l).0.max_events ≡ l.max_events)
  unfolding consume
  settings = ground arith

  again :
      (consume k (now + (consume k now l).1.retry_after_ms) (consume k now l).0).1.allowed ≡ false
  again = ground (
    arith,
    settings,
    retry_after-eq,
    history_of-consume k now l k,
    eq_iff k k,
    consume-allowed k now l,
    consume-allowed k (now + (consume k now l).1.retry_after_ms) (consume k now l).0,
    drop-at_retry l.window_ms now (history_of k l),
  )

  later :
      0 < l.max_events
      → length (history_of k l) ≤ l.max_events
      → (consume k (now + (consume k now l).1.retry_after_ms + 1) (consume k now l).0).1.allowed
        ≡ true
  later some_events few = ground (
    arith,
    settings,
    retry_after-eq,
    history_of-consume k now l k,
    eq_iff k k,
    consume-allowed k now l,
    consume-allowed k (now + (consume k now l).1.retry_after_ms + 1) (consume k now l).0,
    drop-after_retry l.window_ms now (history_of k l),
    length-drop-le l.window_ms now (history_of k l),
  )

-- The limiter after a sequence of calls.
unfoldable pub limiter_after : RateLimiter → List (String × ℕ) → RateLimiter
unfolding consume
limiter_after l [] = l
limiter_after l ((key, now) ∷ calls) = limiter_after (consume key now l).0 calls

consume-max_events :
    (k : String) (now : ℕ) (l : RateLimiter) → (consume k now l).0.max_events ≡ l.max_events
unfolding consume
consume-max_events k now l = ground arith

consume-few :
    (k j : String) (now : ℕ) (l : RateLimiter)
    → length (history_of j l) ≤ l.max_events
    → length (history_of j (consume k now l).0) ≤ (consume k now l).0.max_events
consume-few k j now l few = ground (
  arith,
  few,
  consume-max_events k now l,
  consume-allowed k now l,
  history_of-consume k now l j,
  eq_iff k j,
  length-drop-le l.window_ms now (history_of k l),
  length-append (drop_expired l.window_ms now (history_of k l)) (now ∷ []),
)

limiter_after-few :
    (calls : List (String × ℕ)) (l : RateLimiter)
    → ((j : String) → length (history_of j l) ≤ l.max_events)
    → (((j : String)
          → length (history_of j (limiter_after l calls)) ≤ (limiter_after l calls).max_events)
        × ((limiter_after l calls).max_events ≡ l.max_events))
unfolding limiter_after
limiter_after-few [] l few = (few, refl)
limiter_after-few ((key, now) ∷ calls) l few =
    let (rest, same) =
      limiter_after-few calls (consume key now l).0 (λ j. consume-few key j now l (few j)) in
    (rest, same ∙ consume-max_events key now l)

-- A client that a limiter, after any calls, refuses, and that comes back after exactly
-- `retry_after_ms`, is refused again; one millisecond later the oldest entry has left the window,
-- and the client is let through, where the limit is above 0.
pub refused_at_retry :
    (max_events window_ms : ℕ) (calls : List (String × ℕ)) (k : String) (now : ℕ)
    → 0 < max_events
    → let l = limiter_after (create_rate_limiter max_events window_ms) calls in
      (consume k now l).1.allowed ≡ false
      → let (next, decision) = consume k now l in
        ((consume k (now + decision.retry_after_ms) next).1.allowed ≡ false)
        × ((consume k (now + decision.retry_after_ms + 1) next).1.allowed ≡ true)
unfolding create_rate_limiter history_of
refused_at_retry max_events window_ms calls k now some_events refused =
    let new = create_rate_limiter max_events window_ms in
    let l = limiter_after new calls in
    let (few, same) = limiter_after-few calls new (λ j. omega arith) in
    (again k now l refused, later k now l refused (omega (arith, same, some_events)) (few k))
