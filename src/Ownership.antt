-- ===== src/Ownership.antt =====
-- The input lanes of panes: `PaneInputOwnershipArbiter`, the older `Map<string, string>` that may
-- stand in its place, and the functions over both, of src/server/bridge-server-utils.ts. Times are
-- milliseconds; each reading of the clock is an argument. `localeCompare` is the argument `before`.
pub mod View
pub mod Lanes
pub mod State
pub mod Legacy
use command_relay.Common.{
  ℕ, suc, ◌+◌, String, Bool, true, false, not, ◌&&◌, ◌||◌, Option, none, some, List, [], ◌∷◌, map,
  leb, ltb, if◌then◌else◌, ◌==◌, string_eq, filter, length, JsNumber, not_finite, finite, pos,
  negsuc,
}
use mathlib.Core.Option
use command_relay.Common.Assoc.{get, set, delete}

-- `PaneInputClaimResult`
pub data ClaimResult : Type 0 where
  claimed : (overridden : Bool) → ClaimResult
  refused : (owner_client_id : String) → (override_allowed : Bool) → ClaimResult

pub record OwnerLease : Type 0 where
  pub client_id : String
  pub expires_at_ms : ℕ

pub record SnapshotRow : Type 0 where
  pub pane_id : String
  pub owner_client_id : String
  pub expires_at_ms : Option ℕ

abbrev pub default_lease_duration_ms : ℕ
default_lease_duration_ms = 30000

-- `none` is a value that is no number.
pub resolve_lease_duration_ms : Option JsNumber → ℕ
resolve_lease_duration_ms (some (finite (pos (suc n)))) = suc n
resolve_lease_duration_ms _ = default_lease_duration_ms

abbrev pub Owners : Type 0
Owners = List (String × OwnerLease)

pub record Arbiter : Type 0 where
  pub pane_owners : Owners
  pub lease_duration_ms : ℕ

pub create_arbiter : Option JsNumber → Arbiter
unfolding resolve_lease_duration_ms
create_arbiter lease_duration_ms = record {
  pane_owners = [];
  lease_duration_ms = resolve_lease_duration_ms lease_duration_ms;
}

-- The loop of `expireStaleOwners`.
abbrev pub live_owners : ℕ → Owners → Owners
live_owners now [] = []
live_owners now ((pane_id, lease) ∷ m) =
    let rest = live_owners now m in
    if ltb now lease.expires_at_ms then (pane_id, lease) ∷ rest else rest

unfoldable pub expire_stale_owners : ℕ → Arbiter → Arbiter
expire_stale_owners now a = record a { pane_owners = live_owners now a.pane_owners }

unfoldable pub set_owner : String → String → ℕ → Arbiter → Arbiter
set_owner pane_id client_id now a = record a {
  pane_owners =
      set pane_id (record { client_id = client_id; expires_at_ms = now + a.lease_duration_ms })
        a.pane_owners;
}

-- `!owner || owner === clientId`: no owner, the empty name, or the client itself
abbrev pub is_free_for : String → Option String → Bool
is_free_for client_id none = true
is_free_for client_id (some owner) = owner == "" || owner == client_id

abbrev pub owner_of : String → Owners → Option String
owner_of pane_id m = Option.map (λ l. l.client_id) (get pane_id m)

-- What `claim` answers, by the current owner.
unfoldable pub claim_result : String → Bool → Bool → Option String → ClaimResult
claim_result client_id requested allowed none = claimed false
claim_result client_id requested allowed (some owner) =
    if is_free_for client_id (some owner)
    then claimed false
    else if requested && allowed
    then claimed true
    else refused owner allowed

abbrev pub is_claimed : ClaimResult → Bool
is_claimed (claimed _) = true
is_claimed (refused _ _) = false

-- `now` is the clock when stale owners are dropped, `later` when the new lease is written.
unfoldable pub claim :
    (pane_id client_id : String) (requested allowed : Bool) (now later : ℕ)
    → Arbiter
    → Arbiter × ClaimResult
claim pane_id client_id requested allowed now later a =
    let b = expire_stale_owners now a in
    let r = claim_result client_id requested allowed (owner_of pane_id b.pane_owners) in
    (if is_claimed r then set_owner pane_id client_id later b else b, r)

-- `get(paneId)?.clientId === clientId`
abbrev pub owns : String → Option String → Bool
owns client_id none = false
owns client_id (some owner) = owner == client_id

unfoldable pub release_pane_if_owned_by :
    (pane_id client_id : String) (now : ℕ) → Arbiter → Arbiter × Bool
release_pane_if_owned_by pane_id client_id now a =
    let b = expire_stale_owners now a in
    if owns client_id (owner_of pane_id b.pane_owners)
    then (record b { pane_owners = delete pane_id b.pane_owners }, true)
    else (b, false)

-- The loop of `releaseClient`: the entries that stay, and the number of those that go.
unfoldable pub release_loop : String → Owners → Owners × ℕ
release_loop client_id [] = ([], 0)
release_loop client_id ((pane_id, lease) ∷ m) =
    let (kept, released) = release_loop client_id m in
    if lease.client_id == client_id
    then (kept, suc released)
    else ((pane_id, lease) ∷ kept, released)

unfoldable pub release_client : (client_id : String) (now : ℕ) → Arbiter → Arbiter × ℕ
release_client client_id now a =
    let b = expire_stale_owners now a in
    let (kept, released) = release_loop client_id b.pane_owners in
    (record b { pane_owners = kept }, released)

-- `Array.prototype.sort` is stable; `before a b` is `a.localeCompare(b) <= 0`.
module _ {ℓ} {A : Type ℓ} (before : A → A → Bool) where
  unfoldable pub insert : A → List A → List A
  insert x [] = x ∷ []
  insert x (y ∷ ys) = if before x y then x ∷ y ∷ ys else y ∷ insert x ys

  unfoldable pub sort : List A → List A
  unfolding insert
  sort [] = []
  sort (x ∷ xs) = insert x (sort xs)

module _ (before : String → String → Bool) where
  unfoldable pub sort_rows : List SnapshotRow → List SnapshotRow
  unfolding sort
  sort_rows = sort (λ a b. before a.pane_id b.pane_id)

  -- Dropping stale owners changes the arbiter here too.
  unfoldable pub snapshot : ℕ → Arbiter → Arbiter × List SnapshotRow
  snapshot now a =
      let b = expire_stale_owners now a in
      (
        b,
        sort_rows (
            map
              (λ (e : String × OwnerLease). record {
                pane_id = e.0;
                owner_client_id = e.1.client_id;
                expires_at_ms = some e.1.expires_at_ms;
              })
              b.pane_owners),
      )
