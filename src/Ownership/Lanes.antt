-- ===== src/Ownership/Lanes.antt =====
-- Releasing lanes, and the invariant that a pane has one entry.
use command_relay.Common.{
  ℕ, ◌+◌, ◌≤◌, String, Bool, ◌&&◌, none, List, [], ◌∷◌, if◌then◌else◌, ◌==◌, string_eq, eq_iff, ◌≡◌,
  refl, ap, ◌∙◌, arith, length,
}
use command_relay.Common.Assoc.{get, set, delete, get-set, get-delete}
use command_relay.Ownership.{
  OwnerLease, Owners, Arbiter, expire_stale_owners, set_owner, live_owners, claim, owns,
  release_pane_if_owned_by, release_loop, release_client,
}
use command_relay.Ownership.View.{
  live_at, IsUnique, owner_at, owner_at-expire, owner_of-live_owners, get-live_owners_absent,
}

IsUnique-live_owners : (now : ℕ) (m : Owners) → IsUnique m → IsUnique (live_owners now m)
IsUnique-live_owners now [] u = tt
IsUnique-live_owners now ((p, l) ∷ m) (absent, u) =
    ground (arith, IsUnique-live_owners now m u, get-live_owners_absent now p m absent)

IsUnique-set : (p : String) (l : OwnerLease) (m : Owners) → IsUnique m → IsUnique (set p l m)
IsUnique-set p l [] u = (refl, tt)
IsUnique-set p l ((q, k) ∷ m) (absent, u) =
    ground (arith, IsUnique-set p l m u, get-set p q l m, eq_iff q p, eq_iff p q)

IsUnique-delete : (p : String) (m : Owners) → IsUnique m → IsUnique (delete p m)
IsUnique-delete p [] u = tt
IsUnique-delete p ((q, k) ∷ m) (absent, u) =
    ground (arith, IsUnique-delete p m u, get-delete p q m, eq_iff q p, eq_iff p q)

get-release_loop_absent :
    (c p : String) (m : Owners) → get p m ≡ none → get p (release_loop c m).0 ≡ none
unfolding release_loop
get-release_loop_absent c p [] h = refl
get-release_loop_absent c p ((q, l) ∷ m) h = ground (arith, get-release_loop_absent c p m)

IsUnique-release_loop : (c : String) (m : Owners) → IsUnique m → IsUnique (release_loop c m).0
unfolding release_loop
IsUnique-release_loop c [] u = tt
IsUnique-release_loop c ((q, l) ∷ m) (absent, u) =
    ground (arith, IsUnique-release_loop c m u, get-release_loop_absent c q m absent)

-- `release_loop` drops exactly the client's leases, and counts them.
get-release_loop :
    (c p : String) (t : ℕ) (m : Owners)
    → IsUnique m
    → live_at t (get p (release_loop c m).0)
      ≡ (if owns c (live_at t (get p m)) then none else live_at t (get p m))
unfolding release_loop
get-release_loop c p t [] u = refl
get-release_loop c p t ((q, l) ∷ m) (absent, u) =
    ground (arith, get-release_loop c p t m u, get-release_loop_absent c q m absent, eq_iff q p)

length-release_loop :
    (c : String) (m : Owners) → (release_loop c m).1 + length (release_loop c m).0 ≡ length m
unfolding release_loop
length-release_loop c [] = omega arith
length-release_loop c ((q, l) ∷ m) = ground (arith, length-release_loop c m)

owner_at-delete :
    (a : Arbiter) (p : String) (t : ℕ) (q : String)
    → owner_at (record a { pane_owners = delete p a.pane_owners }) t q
      ≡ (if p == q then none else owner_at a t q)
unfolding owner_at
owner_at-delete a p t q = ground (arith, get-delete p q a.pane_owners)

module _ (a : Arbiter) (unique : IsUnique a.pane_owners) (now : ℕ) where
  expire-IsUnique : IsUnique (expire_stale_owners now a).pane_owners
  unfolding expire_stale_owners
  expire-IsUnique = IsUnique-live_owners now a.pane_owners unique

  claim-IsUnique :
      (p c : String) (requested allowed : Bool) (later : ℕ)
      → IsUnique (claim p c requested allowed now later a).0.pane_owners
  unfolding claim set_owner
  claim-IsUnique p c requested allowed later = ground (
    arith,
    expire-IsUnique,
    IsUnique-set p
        (record {
          client_id = c;
          expires_at_ms = later + (expire_stale_owners now a).lease_duration_ms;
        })
        (expire_stale_owners now a).pane_owners expire-IsUnique,
  )

  release_pane-IsUnique :
      (p c : String) → IsUnique (release_pane_if_owned_by p c now a).0.pane_owners
  unfolding release_pane_if_owned_by
  release_pane-IsUnique p c = ground (
    arith,
    expire-IsUnique,
    IsUnique-delete p (expire_stale_owners now a).pane_owners expire-IsUnique,
  )

  release_client-IsUnique : (c : String) → IsUnique (release_client c now a).0.pane_owners
  unfolding release_client
  release_client-IsUnique c =
      IsUnique-release_loop c (expire_stale_owners now a).pane_owners expire-IsUnique

  length-expire :
      length (expire_stale_owners now a).pane_owners ≡ length (live_owners now a.pane_owners)
  unfolding expire_stale_owners
  length-expire = refl

  owner_at-kept :
      (c q : String) (t : ℕ)
      → owner_at (release_client c now a).0 t q ≡ (
          if owns c (owner_at (expire_stale_owners now a) t q)
          then none
          else owner_at (expire_stale_owners now a) t q)
  unfolding release_client owner_at
  owner_at-kept c q t =
      get-release_loop c q t (expire_stale_owners now a).pane_owners expire-IsUnique

  -- In an arbiter with one entry to a pane: releasing a pane frees it exactly when the client holds it, which the answer tells; no other
  -- pane changes hands, now or later.
  pub release_pane-owner_at :
      (p c q : String) (t : ℕ)
      → now ≤ t
      → ((release_pane_if_owned_by p c now a).1 ≡ owns c (owner_at a now p))
        × (owner_at (release_pane_if_owned_by p c now a).0 t q
            ≡ (if owns c (owner_at a now p) && (p == q) then none else owner_at a t q))
  unfolding release_pane_if_owned_by
  release_pane-owner_at p c q t h = ground (
    arith,
    owner_of-live_owners a now p unique,
    owner_at-delete (expire_stale_owners now a) p t q,
    owner_at-expire a now t q unique h,
  )

  -- In an arbiter with one entry to a pane: releasing a client frees every pane that it holds and no other, now and at every later time,
  -- and the count is the number of live entries that went.
  pub release_client-owner_at :
      (c q : String) (t : ℕ)
      → now ≤ t
      → (owner_at (release_client c now a).0 t q
          ≡ (if owns c (owner_at a t q) then none else owner_at a t q))
        × ((release_client c now a).1 + length (release_client c now a).0.pane_owners
            ≡ length (live_owners now a.pane_owners))
  unfolding release_client
  release_client-owner_at c q t h = (
    owner_at-kept c q t
        ∙ ap (λ o. if owns c o then none else o) (owner_at-expire a now t q unique h),
    length-release_loop c (expire_stale_owners now a).pane_owners ∙ length-expire,
  )

-- The calls that the server makes of an arbiter, each with its readings of the clock.
pub data LaneCall : Type 0 where
  claims : (pane_id client_id : String) (requested allowed : Bool) (now later : ℕ) → LaneCall
  releases : (pane_id client_id : String) (now : ℕ) → LaneCall
  releases_client : (client_id : String) (now : ℕ) → LaneCall

unfoldable pub lane_step : LaneCall → Arbiter → Arbiter
lane_step (claims p c requested allowed now later) a = (claim p c requested allowed now later a).0
lane_step (releases p c now) a = (release_pane_if_owned_by p c now a).0
lane_step (releases_client c now) a = (release_client c now a).0

unfoldable pub lane_run : List LaneCall → Arbiter → Arbiter
unfolding lane_step
lane_run [] a = a
lane_run (k ∷ ks) a = lane_run ks (lane_step k a)

-- Every sequence of claims and releases keeps one entry to a pane.
pub lane_run-IsUnique :
    (ks : List LaneCall) (a : Arbiter)
    → IsUnique a.pane_owners
    → IsUnique (lane_run ks a).pane_owners
unfolding lane_run
lane_run-IsUnique [] a u = u
lane_run-IsUnique (claims p c requested allowed now later ∷ ks) a u =
    lane_run-IsUnique ks _ (claim-IsUnique a u now p c requested allowed later)
lane_run-IsUnique (releases p c now ∷ ks) a u =
    lane_run-IsUnique ks _ (release_pane-IsUnique a u now p c)
lane_run-IsUnique (releases_client c now ∷ ks) a u =
    lane_run-IsUnique ks _ (release_client-IsUnique a u now c)
