-- ===== src/Examples/Lanes.antt =====
-- The arbiter of src/server/bridge-server-utils.ts at work: lease of 100 ms, clients a and b.
use command_relay.Common.{
  ◌+◌, String, true, false, ◌&&◌, none, some, [], ◌∷◌, ◌≡◌, ◌==◌, string_eq, if◌then◌else◌, ltb,
  refl, arith, length,
}
use command_relay.Ownership.{
  claimed, Arbiter, expire_stale_owners, set_owner, live_owners, claim_result, is_claimed, claim,
  owns, release_client,
}
use command_relay.Ownership.View.{IsUnique, owner_at, owner_at-claim}
use command_relay.Ownership.Lanes.{release_client-owner_at}
use command_relay.Ownership.State.{legacy_claim}
use command_relay.Ownership.Legacy.{erase, legacy_claim-claim}

-- a holds pane %1 until 150, b held %2 until 120
abbrev two_lanes : Arbiter
two_lanes = record {
  pane_owners =
      ("%1", record { client_id = "a"; expires_at_ms = 150 })
      ∷ ("%2", record { client_id = "b"; expires_at_ms = 120 })
      ∷ [];
  lease_duration_ms = 100;
}

two_lanes-IsUnique : IsUnique two_lanes.pane_owners
two_lanes-IsUnique = (refl, (refl, tt))

owner_at-claim_example : owner_at (claim "%2" "a" false true 130 131 two_lanes).0 140 "%2" ≡ (
    if is_claimed (claim "%2" "a" false true 130 131 two_lanes).1 && (◌==◌ {A = String} "%2" "%2")
    then (if ltb 140 (131 + 100) then some "a" else none)
    else owner_at two_lanes 140 "%2")
owner_at-claim_example =
    owner_at-claim two_lanes two_lanes-IsUnique "%2" "a" false true 130 131 140 "%2" (omega arith)

-- The lane of %2 has run out at 130, so the claim is granted.
claim_after_expiry : (claim "%2" "a" false true 130 131 two_lanes).1 ≡ claimed false
unfolding claim expire_stale_owners set_owner claim_result
claim_after_expiry = refl

release_client-owner_at_example :
    (owner_at (release_client "a" 130 two_lanes).0 140 "%1"
      ≡ (if owns "a" (owner_at two_lanes 140 "%1") then none else owner_at two_lanes 140 "%1"))
    × ((release_client "a" 130 two_lanes).1
          + length (release_client "a" 130 two_lanes).0.pane_owners
        ≡ length (live_owners 130 two_lanes.pane_owners))
release_client-owner_at_example =
    release_client-owner_at two_lanes two_lanes-IsUnique 130 "a" "%1" 140 (omega arith)

legacy_claim-claim_example : legacy_claim "%1" "b" true true (erase two_lanes.pane_owners) ≡ (
  erase (claim "%1" "b" true true 100 101 two_lanes).0.pane_owners,
  (claim "%1" "b" true true 100 101 two_lanes).1,
)
legacy_claim-claim_example = legacy_claim-claim two_lanes 100 (omega arith) "%1" "b" true true 101
