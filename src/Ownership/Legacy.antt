-- ===== src/Ownership/Legacy.antt =====
-- The older map against the arbiter: while no lease has run out they arbitrate alike.
use command_relay.Common.{ℕ, String, Bool, [], ◌∷◌, map, string_eq, ◌≡◌, ◌+◌, refl, arith, ◌<◌, All}
use command_relay.Common.Assoc.{get, set}
use command_relay.Ownership.{
  OwnerLease, Owners, Arbiter, expire_stale_owners, set_owner, live_owners, owner_of, claim,
  release_loop, release_client,
}
use command_relay.Ownership.State.{LegacyOwners, legacy_claim, legacy_release_client}

-- The map that the owners of an arbiter amount to.
abbrev pub erase : Owners → LegacyOwners
erase = map (λ (e : String × OwnerLease). (e.0, e.1.client_id))

abbrev pub IsLiveAt : ℕ → String × OwnerLease → Type 0
IsLiveAt now e = now < e.1.expires_at_ms

live_owners-All : (now : ℕ) (m : Owners) → All (IsLiveAt now) m → live_owners now m ≡ m
live_owners-All now [] h = refl
live_owners-All now ((p, l) ∷ m) (k, h) = ground (arith, live_owners-All now m h)

get-erase : (p : String) (m : Owners) → get p (erase m) ≡ owner_of p m
get-erase p [] = refl
get-erase p ((q, l) ∷ m) = ground (arith, get-erase p m)

erase-set :
    (p : String) (l : OwnerLease) (m : Owners) → erase (set p l m) ≡ set p l.client_id (erase m)
erase-set p l [] = refl
erase-set p l ((q, k) ∷ m) = ground (arith, erase-set p l m)

erase-release_loop :
    (c : String) (m : Owners)
    → legacy_release_client c (erase m) ≡ (erase (release_loop c m).0, (release_loop c m).1)
unfolding legacy_release_client release_loop
erase-release_loop c [] = refl
erase-release_loop c ((q, l) ∷ m) = ground (arith, erase-release_loop c m)

module _ (a : Arbiter) (now : ℕ) (live : All (IsLiveAt now) a.pane_owners) where
  expire-All : expire_stale_owners now a ≡ a
  unfolding expire_stale_owners
  expire-All = ground (arith, live_owners-All now a.pane_owners live)

  -- While every lease of an arbiter is live, a claim is answered as the map with the same owners
  -- answers it, and leaves the same owners.
  pub legacy_claim-claim :
      (p c : String) (requested allowed : Bool) (later : ℕ)
      → legacy_claim p c requested allowed (erase a.pane_owners) ≡ (
        erase (claim p c requested allowed now later a).0.pane_owners,
        (claim p c requested allowed now later a).1,
      )
  unfolding legacy_claim claim set_owner
  legacy_claim-claim p c requested allowed later = ground (
    arith,
    expire-All,
    get-erase p a.pane_owners,
    erase-set p (record { client_id = c; expires_at_ms = later + a.lease_duration_ms })
        a.pane_owners,
  )

  -- While every lease of an arbiter is live, the release of all lanes of a client counts what the map
  -- with the same owners counts, and leaves the same owners.
  pub legacy_release-release_client :
      (c : String)
      → legacy_release_client c (erase a.pane_owners)
        ≡ (erase (release_client c now a).0.pane_owners, (release_client c now a).1)
  unfolding release_client
  legacy_release-release_client c = rw expire-All (erase-release_loop c a.pane_owners)
