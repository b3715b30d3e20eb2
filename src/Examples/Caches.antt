-- ===== src/Examples/Caches.antt =====
-- A bounded cache of two entries at work.
use command_relay.Common.{ℕ, List, [], ◌∷◌, ◌≡◌, nat_eq, refl}
use command_relay.Cache.{BoundedCache, create_cache, keep_newest}
use command_relay.Cache.Recency.{
  CacheCall, gets, sets, newest, unbounded_run, cache_run, cache_run-newest,
}

-- Key 1 is read before key 3 comes, so key 2 goes.
abbrev some_uses : List (CacheCall ℕ ℕ)
some_uses = sets 1 10 ∷ sets 2 20 ∷ gets 1 ∷ sets 3 30 ∷ []

some_uses-kept : newest 2 (unbounded_run 2 some_uses []) ≡ (1, 10) ∷ (3, 30) ∷ []
unfolding keep_newest
some_uses-kept = refl

cache_run-newest_example :
    (cache_run some_uses (create_cache 2)).store ≡ newest 2 (unbounded_run 2 some_uses [])
cache_run-newest_example = cache_run-newest 2 some_uses

abbrev two_entries : BoundedCache ℕ ℕ
two_entries = record { store = (1, 10) ∷ (2, 20) ∷ []; max_entries = 2 }
