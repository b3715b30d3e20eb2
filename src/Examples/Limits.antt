-- ===== src/Examples/Limits.antt =====
-- The limiter of src/server/rate-limiter.ts at work: two calls in 100 ms.
use command_relay.Common.{ℕ, ◌+◌, String, true, false, ◌≡◌, List, [], ◌∷◌, string_eq, refl, arith}
use command_relay.RateLimiter.{create_rate_limiter, drop_expired, history_of, consume}
use command_relay.RateLimiter.Window.{decisions, spec_run, decisions-spec_run}
use command_relay.RateLimiter.Retry.{limiter_after, refused_at_retry}

abbrev some_calls : List (String × ℕ)
some_calls = ("a", 0) ∷ ("a", 10) ∷ ("b", 20) ∷ ("a", 50) ∷ ("a", 100) ∷ ("a", 101) ∷ []

some_decisions : spec_run 2 100 [] some_calls ≡ true ∷ true ∷ true ∷ false ∷ false ∷ true ∷ []
unfolding spec_run
some_decisions = refl

decisions-spec_run_example :
    decisions (create_rate_limiter 2 100) some_calls ≡ spec_run 2 100 [] some_calls
decisions-spec_run_example =
    decisions-spec_run 2 100 some_calls
      (omega arith, (omega arith, (omega arith, (omega arith, (omega arith, (omega arith, tt))))))

abbrev two_calls : List (String × ℕ)
two_calls = ("a", 0) ∷ ("a", 10) ∷ []

two_calls-refused :
    (consume "a" 50 (limiter_after (create_rate_limiter 2 100) two_calls)).1.allowed ≡ false
unfolding consume history_of drop_expired limiter_after create_rate_limiter
two_calls-refused = refl

refused_at_retry_example :
    let (next, decision) = consume "a" 50 (limiter_after (create_rate_limiter 2 100) two_calls) in
    ((consume "a" (50 + decision.retry_after_ms) next).1.allowed ≡ false)
    × ((consume "a" (50 + decision.retry_after_ms + 1) next).1.allowed ≡ true)
refused_at_retry_example = refused_at_retry 2 100 two_calls "a" 50 (omega arith) two_calls-refused
