-- ===== src/RateLimiter/Window.antt =====
-- What the limiter promises: it decides as a log of all accepted calls would.
use command_relay.Common.{
  ℕ, suc, ◌+◌, ◌≤◌, String, Bool, true, false, ◌&&◌, List, [], ◌∷◌, ◌++◌, ltb, leb, if◌then◌else◌,
  ◌==◌, string_eq, eq_iff, get_or, length, ◌≡◌, refl, arith, All, All-append, length-append,
}
use command_relay.Common.Assoc.{get, get-set, get-delete}
use command_relay.RateLimiter.{
  RateLimiter, create_rate_limiter, drop_expired, history_of, consume, clear,
}

-- The accepted calls, newest first: how many of a key's lie in the window that ends now.
abbrev pub count_recent : (window_ms : ℕ) (key : String) (now : ℕ) → List (String × ℕ) → ℕ
count_recent w key now [] = 0
count_recent w key now ((j, ts) ∷ log) =
    let rest = count_recent w key now log in if j == key && leb now (ts + w) then suc rest else rest

-- The specification: accept while fewer than `max_events` accepted calls lie in the window.
unfoldable pub spec_run :
    (max_events window_ms : ℕ) → List (String × ℕ) → List (String × ℕ) → List Bool
spec_run m w log [] = []
spec_run m w log ((key, now) ∷ calls) =
    let accepted = spec_run m w ((key, now) ∷ log) calls in
    let rejected = spec_run m w log calls in
    if ltb (count_recent w key now log) m then true ∷ accepted else false ∷ rejected

-- The decisions of the limiter on a sequence of calls.
unfoldable pub decisions : RateLimiter → List (String × ℕ) → List Bool
decisions l [] = []
decisions l ((key, now) ∷ calls) = let (l', d) = consume key now l in d.allowed ∷ decisions l' calls

-- The clock does not go back.
abbrev pub IsOrdered : ℕ → List (String × ℕ) → Type 0
IsOrdered last [] = Unit
IsOrdered last ((key, now) ∷ calls) = (last ≤ now) × IsOrdered now calls

drop-drop :
    (w now n : ℕ) (h : List ℕ)
    → now ≤ n
    → drop_expired w n (drop_expired w now h) ≡ drop_expired w n h
unfolding drop_expired
drop-drop w now n [] p = refl
drop-drop w now n (ts ∷ h) p = ground (arith, drop-drop w now n h p)

drop-All :
    (w now b : ℕ) (h : List ℕ) → All (λ ts. ts ≤ b) h → All (λ ts. ts ≤ b) (drop_expired w now h)
unfolding drop_expired
drop-All w now b [] a = tt
drop-All w now b (ts ∷ h) (p, a) = ground (arith, drop-All w now b h a)

All-le : (b c : ℕ) (h : List ℕ) → b ≤ c → All (λ ts. ts ≤ b) h → All (λ ts. ts ≤ c) h
All-le b c [] p a = tt
All-le b c (ts ∷ h) p (q, a) = (omega arith, All-le b c h p a)

length-drop-append :
    (w now n : ℕ) (h : List ℕ)
    → All (λ ts. ts ≤ now) h
    → length (drop_expired w n (h ++ now ∷ []))
      ≡ (if leb n (now + w) then suc (length (drop_expired w n h)) else length (drop_expired w n h))
unfolding drop_expired
length-drop-append w now n [] a = ground arith
length-drop-append w now n (ts ∷ h) (p, a) =
    ground (arith, length-drop-append w now n h a, length-append h (now ∷ []))

-- The limiter's memory against the log: at every later time, as many entries of a key survive as
-- the log has in the window.
record Matches (l : RateLimiter) (last : ℕ) (log : List (String × ℕ)) : Type 0 where
  counts :
      (key : String) (now : ℕ)
      → last ≤ now
      → length (drop_expired l.window_ms now (history_of key l))
        ≡ count_recent l.window_ms key now log
  past : (key : String) → All (λ ts. ts ≤ last) (history_of key l)

module _ (k : String) (now : ℕ) (l : RateLimiter) where
  pub consume-allowed :
      (consume k now l).1.allowed
      ≡ ltb (length (drop_expired l.window_ms now (history_of k l))) l.max_events
  unfolding consume
  consume-allowed = ground arith

  consume-settings :
      ((consume k now l).0.window_ms ≡ l.window_ms)
      × ((consume k now l).0.max_events ≡ l.max_events)
  unfolding consume
  consume-settings = ground arith

  pub history_of-consume :
      (j : String)
      → history_of j (consume k now l).0 ≡ (
          if k == j
          then (if (consume k now l).1.allowed
              then drop_expired l.window_ms now (history_of k l) ++ now ∷ []
              else drop_expired l.window_ms now (history_of k l))
          else history_of j l)
  unfolding consume history_of
  history_of-consume j = ground (
    arith,
    eq_iff k j,
    get-set k j (drop_expired l.window_ms now (get_or (get k l.timestamps) [])) l.timestamps,
    get-set k j (drop_expired l.window_ms now (get_or (get k l.timestamps) []) ++ now ∷ [])
        l.timestamps,
  )

  abbrev log_after : List (String × ℕ) → List (String × ℕ)
  log_after log = if (consume k now l).1.allowed then (k, now) ∷ log else log

module _ (k : String) (now last : ℕ) (l : RateLimiter) (log : List (String × ℕ))
    (m : Matches l last log) (p : last ≤ now) where
  consume-counts :
      (j : String) (n : ℕ)
      → now ≤ n
      → length (drop_expired l.window_ms n (history_of j (consume k now l).0))
        ≡ count_recent l.window_ms j n (log_after k now l log)
  consume-counts j n q = ground (
    arith,
    history_of-consume k now l j,
    m.counts j n,
    m.counts k n,
    drop-drop l.window_ms now n (history_of k l) q,
    length-drop-append l.window_ms now n (drop_expired l.window_ms now (history_of k l)),
    drop-All l.window_ms now now (history_of k l) (All-le last now (history_of k l) p (m.past k)),
    eq_iff k j,
  )

  consume-past : (j : String) → All (λ ts. ts ≤ now) (history_of j (consume k now l).0)
  consume-past j =
      let h = All-le last now (history_of k l) p (m.past k) in
      let d = drop-All l.window_ms now now (history_of k l) h in
      ground (
        arith,
        history_of-consume k now l j,
        d,
        All-append (λ ts. ts ≤ now) (drop_expired l.window_ms now (history_of k l)) (now ∷ []) d
            (omega arith, tt),
        All-le last now (history_of j l) p (m.past j),
      )

  consume-Matches : Matches (consume k now l).0 now (log_after k now l log)
  consume-Matches = record {
    counts = λ j n q. rw (consume-settings k now l).0 (consume-counts j n q);
    past = consume-past;
  }

decisions-spec :
    (l : RateLimiter) (last : ℕ) (log calls : List (String × ℕ))
    → Matches l last log
    → IsOrdered last calls
    → decisions l calls ≡ spec_run l.max_events l.window_ms log calls
unfolding decisions spec_run
decisions-spec l last log [] m o = refl
decisions-spec l last log ((k, now) ∷ calls) m (p, o) = ground (
  arith,
  consume-allowed k now l,
  m.counts k now p,
  consume-settings k now l,
  decisions-spec (consume k now l).0 now (log_after k now l log) calls
      (consume-Matches k now last l log m p) o,
)

create-Matches : (m w : ℕ) → Matches (create_rate_limiter m w) 0 []
unfolding create_rate_limiter drop_expired history_of
create-Matches m w = record { counts = λ k n p. refl; past = λ k. tt }

create-settings :
    (m w : ℕ)
    → ((create_rate_limiter m w).window_ms ≡ w) × ((create_rate_limiter m w).max_events ≡ m)
unfolding create_rate_limiter
create-settings m w = (refl, refl)

-- On every sequence of calls, of any keys, whose clock does not go back, a new limiter decides as
-- the specification: it accepts a call exactly while fewer than `max_events` accepted calls of the
-- key lie in the window that ends at the call.
pub decisions-spec_run :
    (max_events window_ms : ℕ) (calls : List (String × ℕ))
    → IsOrdered 0 calls
    → decisions (create_rate_limiter max_events window_ms) calls
      ≡ spec_run max_events window_ms [] calls
decisions-spec_run m w calls o = ground (
  arith,
  create-settings m w,
  decisions-spec (create_rate_limiter m w) 0 [] calls (create-Matches m w) o,
)

-- After `clear` a key has no history, and every other key keeps its own.
pub history_of-clear :
    (k j : String) (l : RateLimiter)
    → history_of j (clear k l) ≡ (if k == j then [] else history_of j l)
unfolding history_of clear
history_of-clear k j l = ground (arith, get-delete k j l.timestamps)
