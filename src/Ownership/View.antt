-- ===== src/Ownership/View.antt =====
-- The abstract view of the lanes: who owns a pane at a time. A claim and a release are updates of
-- that function, and dropping stale leases does not change it.
use command_relay.Common.{
  ℕ, ◌+◌, ◌≤◌, String, Bool, true, false, ◌&&◌, Option, none, some, [], ◌∷◌, ltb, if◌then◌else◌,
  ◌==◌, string_eq, eq_iff, ◌≡◌, ◌≢◌, refl, arith, ◌↔◌,
}
use command_relay.Common.Assoc.{get, get-set}
use command_relay.Ownership.{
  claimed, refused, OwnerLease, Owners, Arbiter, expire_stale_owners, set_owner, live_owners,
  owner_of, claim_result, is_claimed, claim,
}

-- A lease that runs past `t`, if there is one.
abbrev pub live_at : ℕ → Option OwnerLease → Option String
live_at t none = none
live_at t (some lease) = if ltb t lease.expires_at_ms then some lease.client_id else none

-- Each pane has one entry: JavaScript's Map cannot hold a key twice.
abbrev pub IsUnique : Owners → Type 0
IsUnique [] = Unit
IsUnique ((pane_id, lease) ∷ m) = (get pane_id m ≡ none) × IsUnique m

unfoldable pub owner_at : Arbiter → ℕ → String → Option String
owner_at a t pane_id = live_at t (get pane_id a.pane_owners)

pub get-live_owners_absent :
    (now : ℕ) (p : String) (m : Owners) → get p m ≡ none → get p (live_owners now m) ≡ none
get-live_owners_absent now p [] h = refl
get-live_owners_absent now p ((q, l) ∷ m) h = ground (arith, get-live_owners_absent now p m)

get-live_owners :
    (now : ℕ) (p : String) (m : Owners)
    → IsUnique m
    → owner_of p (live_owners now m) ≡ live_at now (get p m)
get-live_owners now p [] u = refl
get-live_owners now p ((q, l) ∷ m) (absent, u) =
    ground (arith, get-live_owners now p m u, get-live_owners_absent now q m absent, eq_iff q p)

live_at-live_owners :
    (now t : ℕ) (p : String) (m : Owners)
    → IsUnique m
    → now ≤ t
    → live_at t (get p (live_owners now m)) ≡ live_at t (get p m)
live_at-live_owners now t p [] u h = refl
live_at-live_owners now t p ((q, l) ∷ m) (absent, u) h =
    ground
      (arith, live_at-live_owners now t p m u h, get-live_owners_absent now q m absent, eq_iff q p)

pub owner_of-live_owners :
    (a : Arbiter) (now : ℕ) (p : String)
    → IsUnique a.pane_owners
    → owner_of p (expire_stale_owners now a).pane_owners ≡ owner_at a now p
unfolding owner_at expire_stale_owners
owner_of-live_owners a now p u = get-live_owners now p a.pane_owners u

pub owner_at-expire :
    (a : Arbiter) (now t : ℕ) (p : String)
    → IsUnique a.pane_owners
    → now ≤ t
    → owner_at (expire_stale_owners now a) t p ≡ owner_at a t p
unfolding owner_at expire_stale_owners
owner_at-expire a now t p u h = live_at-live_owners now t p a.pane_owners u h

owner_at-set_owner :
    (a : Arbiter) (p c q : String) (later t : ℕ)
    → owner_at (set_owner p c later a) t q ≡ (
        if p == q
        then (if ltb t (later + a.lease_duration_ms) then some c else none)
        else owner_at a t q)
unfolding owner_at set_owner
owner_at-set_owner a p c q later t = ground (
  arith,
  get-set p q (record { client_id = c; expires_at_ms = later + a.lease_duration_ms }) a.pane_owners,
)

lease_duration-expire :
    (a : Arbiter) (now : ℕ) → (expire_stale_owners now a).lease_duration_ms ≡ a.lease_duration_ms
unfolding expire_stale_owners
lease_duration-expire a now = refl

claim_result-refused_iff :
    (c : String) (requested allowed : Bool) (o : Option String) (owner : String) (told : Bool)
    → (claim_result c requested allowed o ≡ refused owner told) ↔ (
        (o ≡ some owner)
        × (owner ≢ "")
        × (owner ≢ c)
        × ((requested && allowed) ≡ false)
        × (told ≡ allowed))
unfolding claim_result
claim_result-refused_iff c requested allowed none owner told = (λ h. cc, λ h. cc)
claim_result-refused_iff c requested allowed (some x) owner told =
    (λ h. ground (arith, eq_iff x "", eq_iff x c), λ h. ground (arith, eq_iff x "", eq_iff x c))

claim_result-overridden_iff :
    (c : String) (requested allowed : Bool) (o : Option String)
    → (claim_result c requested allowed o ≡ claimed true) ↔ (
        (owner : String) × (o ≡ some owner)
        × (owner ≢ "")
        × (owner ≢ c)
        × (requested ≡ true)
        × (allowed ≡ true))
unfolding claim_result
claim_result-overridden_iff c requested allowed none = (λ h. cc, λ h. cc)
claim_result-overridden_iff c requested allowed (some x) = (
  λ h. (
    x,
    refl,
    ground (arith, eq_iff x ""),
    ground (arith, eq_iff x "", eq_iff x c),
    ground (arith, eq_iff x "", eq_iff x c),
    ground (arith, eq_iff x "", eq_iff x c),
  ),
  λ h. ground (arith, eq_iff x "", eq_iff x c),
)

module _ (a : Arbiter) (unique : IsUnique a.pane_owners) (p c : String) (requested allowed : Bool)
    (now later : ℕ) where
  claim-result :
      (claim p c requested allowed now later a).1
      ≡ claim_result c requested allowed (owner_at a now p)
  unfolding claim
  claim-result = rw (owner_of-live_owners a now p unique)

  -- In an arbiter with one entry to a pane: after a claim the pane belongs to the claimant until the lease runs out, if the claim was
  -- granted; every other pane, and the pane itself after a refusal, has the owner that it had, now
  -- and at every later time.
  pub owner_at-claim :
      (t : ℕ) (q : String)
      → now ≤ t
      → owner_at (claim p c requested allowed now later a).0 t q ≡ (
          if is_claimed (claim p c requested allowed now later a).1 && (p == q)
          then (if ltb t (later + a.lease_duration_ms) then some c else none)
          else owner_at a t q)
  unfolding claim
  owner_at-claim t q h = ground (
    arith,
    owner_at-set_owner (expire_stale_owners now a) p c q later t,
    owner_at-expire a now t q unique h,
    lease_duration-expire a now,
  )

  -- In an arbiter with one entry to a pane: a claim is refused exactly when another client, whose name is not empty, holds a live lease and
  -- the takeover was not both requested and allowed; the refusal names that client.
  pub claim-refused_iff :
      (owner : String) (told : Bool)
      → ((claim p c requested allowed now later a).1 ≡ refused owner told) ↔ (
          (owner_at a now p ≡ some owner)
          × (owner ≢ "")
          × (owner ≢ c)
          × ((requested && allowed) ≡ false)
          × (told ≡ allowed))
  claim-refused_iff owner told =
      rw claim-result (claim_result-refused_iff c requested allowed (owner_at a now p) owner told)

  -- In an arbiter with one entry to a pane: a granted claim reports a takeover exactly when another
  -- client, whose name is not empty, held a live lease and the takeover was requested and allowed.
  pub claim-overridden_iff : ((claim p c requested allowed now later a).1 ≡ claimed true) ↔ (
      (owner : String) × (owner_at a now p ≡ some owner)
      × (owner ≢ "")
      × (owner ≢ c)
      × (requested ≡ true)
      × (allowed ≡ true))
  claim-overridden_iff =
      rw claim-result (claim_result-overridden_iff c requested allowed (owner_at a now p))
