-- ===== src/Ownership/State.antt =====
-- `PaneInputOwnershipState`: an arbiter, the older map from pane to client, or neither, and the
-- functions of src/server/bridge-server-utils.ts that dispatch on it.
use command_relay.Common.{
  ℕ, suc, String, Bool, true, false, Option, none, some, List, [], ◌∷◌, map, if◌then◌else◌, ◌==◌,
  string_eq,
}
use command_relay.Common.Assoc.{get, set, delete}
use command_relay.Ownership.{
  ClaimResult, SnapshotRow, Arbiter, claim_result, is_claimed, claim, owns,
  release_pane_if_owned_by, release_client, sort_rows, snapshot,
}

abbrev pub LegacyOwners : Type 0
LegacyOwners = List (String × String)

pub data OwnershipState : Type 0 where
  disabled : OwnershipState
  arbiter : Arbiter → OwnershipState
  legacy : LegacyOwners → OwnershipState

-- The branch of `claimPaneInputOwnership` over the map.
unfoldable pub legacy_claim :
    (pane_id client_id : String) (requested allowed : Bool)
    → LegacyOwners
    → LegacyOwners × ClaimResult
legacy_claim pane_id client_id requested allowed m =
    let r = claim_result client_id requested allowed (get pane_id m) in
    (if is_claimed r then set pane_id client_id m else m, r)

-- The loop of `releaseClientInputOwnership` over the map.
unfoldable pub legacy_release_client : String → LegacyOwners → LegacyOwners × ℕ
legacy_release_client client_id [] = ([], 0)
legacy_release_client client_id ((pane_id, owner) ∷ m) =
    let (kept, released) = legacy_release_client client_id m in
    if owner == client_id then (kept, suc released) else ((pane_id, owner) ∷ kept, released)

unfoldable pub claim_pane_input_ownership :
    (pane_id client_id : String) (requested allowed : Bool) (now later : ℕ)
    → OwnershipState
    → OwnershipState × Option ClaimResult
claim_pane_input_ownership pane_id client_id requested allowed now later disabled = (disabled, none)
claim_pane_input_ownership pane_id client_id requested allowed now later (arbiter a) =
    let (b, r) = claim pane_id client_id requested allowed now later a in (arbiter b, some r)
claim_pane_input_ownership pane_id client_id requested allowed now later (legacy m) =
    let (n, r) = legacy_claim pane_id client_id requested allowed m in (legacy n, some r)

unfoldable pub release_pane_input_ownership :
    (pane_id client_id : String) (now : ℕ) → OwnershipState → OwnershipState × Bool
release_pane_input_ownership pane_id client_id now disabled = (disabled, false)
release_pane_input_ownership pane_id client_id now (arbiter a) =
    let (b, released) = release_pane_if_owned_by pane_id client_id now a in (arbiter b, released)
release_pane_input_ownership pane_id client_id now (legacy m) =
    if owns client_id (get pane_id m) then (legacy (delete pane_id m), true) else (legacy m, false)

unfoldable pub release_client_input_ownership :
    (client_id : String) (now : ℕ) → OwnershipState → OwnershipState × ℕ
release_client_input_ownership client_id now disabled = (disabled, 0)
release_client_input_ownership client_id now (arbiter a) =
    let (b, released) = release_client client_id now a in (arbiter b, released)
release_client_input_ownership client_id now (legacy m) =
    let (n, released) = legacy_release_client client_id m in (legacy n, released)

unfoldable pub snapshot_pane_input_ownership :
    (before : String → String → Bool) → ℕ → OwnershipState → OwnershipState × List SnapshotRow
snapshot_pane_input_ownership before now disabled = (disabled, [])
snapshot_pane_input_ownership before now (arbiter a) =
    let (b, rows) = snapshot before now a in (arbiter b, rows)
snapshot_pane_input_ownership before now (legacy m) = (
  legacy m,
  sort_rows before (
      map
        (λ (e : String × String). record {
          pane_id = e.0;
          owner_client_id = e.1;
          expires_at_ms = none;
        })
        m),
)
