-- ===== src/Proxy/Made.antt =====
-- packages/proxy-agent/src/proxy-agent-factory.ts: an agent that is used again is one that would
-- be made anew for the same proxy and the same protocol.
use command_relay.Common.{
  ℕ, true, false, Option, none, some, List, [], ◌∷◌, ◌++◌, ◌≡◌, refl, sym, ap, subst, ◌∙◌, arith,
  inl, inr, Bool-cases, Option-cases, if_both, if◌then◌else◌, ◌==◌, Eq, nat_eq, list_eq,
  list_beq_iff, contains, length, ltb, All, tail, head?,
}
use mathlib.Core.Option.{some-injective}
use command_relay.Common.Assoc.{get, has, set, delete}
use command_relay.Cache.{BoundedCache, clear_cache, get_entry, set_entry, keep_newest}
use command_relay.Proxy.{ProxySettings, Url}
use command_relay.Proxy.Routes.{resolve_proxy_for_url}
use command_relay.Proxy.Agents.{
  Agent, KindResult, made, refused, Factory, ResolveResult, resolved, failed, direct_resolution,
  cache_key, create_proxy_agent, made_agent, use_entry, resolve_agent, resolve_with, resolve,
  agent_eq, create_factory, destroy, update_settings,
}

barred : (a p : List ℕ) → contains b'|' (a ++ b'|' ∷ p) ≡ true
barred [] p = refl
barred (x ∷ a) p = ground (arith, barred a p)

-- A key is cut at its last bar.
cache_key-injective :
    (a b p q : List ℕ)
    → contains b'|' p ≡ false
    → contains b'|' q ≡ false
    → cache_key a p ≡ cache_key b q
    → (a ≡ b) × (p ≡ q)
cache_key-injective [] [] p q f g e = (refl, ap tail e)
cache_key-injective [] (y ∷ b) p q f g e =
    let rest : p ≡ b ++ b'|' ∷ q = ap tail e in
    let bar : contains b'|' p ≡ true = ap (contains b'|') rest ∙ barred b q in cc
cache_key-injective (x ∷ a) [] p q f g e =
    let rest : a ++ b'|' ∷ p ≡ q = ap tail e in
    let bar : contains b'|' q ≡ true = ap (contains b'|') (sym rest) ∙ barred a p in cc
cache_key-injective (x ∷ a) (y ∷ b) p q f g e =
    let (same, protocol) = cache_key-injective a b p q f g (ap tail e) in
    let first = some-injective x y (ap head? e) in
    (ap (λ z. z ∷ a) first ∙ ap (λ t. y ∷ t) same, protocol)

get_entry-get : (k : List ℕ) (c : BoundedCache (List ℕ) Agent) → (get_entry k c).1 ≡ get k c.store
unfolding get_entry
get_entry-get k c = elim (Option-cases (get k c.store)) [
  | inl missing ↦ rw (get_entry, missing) refl
  | inr (v, found) ↦ rw (get_entry, found) refl
]

module _ {κ} {V : Type κ} (P : List ℕ × V → Type κ) where
  get-All : (k : List ℕ) (v : V) (m : List (List ℕ × V)) → All P m → get k m ≡ some v → P (k, v)
  get-All k v [] h e = cc
  get-All k v ((j, w) ∷ m) (p, h) e = elim (Bool-cases (j == k)) [
    | inl same ↦
        let found : some w ≡ some v = sym (ap (λ b. if b then some w else get k m) same) ∙ e in
        subst (λ l. P (l, v)) ((list_beq_iff j k).0 same)
          (subst (λ u. P (j, u)) (some-injective w v found) p)
    | inr other ↦ get-All k v m h (sym (ap (λ b. if b then some w else get k m) other) ∙ e)
  ]

  delete-All : (k : List ℕ) (m : List (List ℕ × V)) → All P m → All P (delete k m)
  delete-All k [] h = tt
  delete-All k ((j, w) ∷ m) (p, h) =
      if_both (All P) (j == k) (delete k m) ((j, w) ∷ delete k m) (delete-All k m h)
        (p, delete-All k m h)

  set-All : (k : List ℕ) (v : V) (m : List (List ℕ × V)) → P (k, v) → All P m → All P (set k v m)
  set-All k v [] q h = (q, tt)
  set-All k v ((j, w) ∷ m) q (p, h) = elim (Bool-cases (j == k)) [
    | inl same ↦ rw same (subst (λ l. P (l, v)) (sym ((list_beq_iff j k).0 same)) q, h)
    | inr other ↦ rw other (p, set-All k v m q h)
  ]

  keep-All : (n : ℕ) (m : List (List ℕ × V)) → All P m → All P (keep_newest n m)
  unfolding keep_newest
  keep-All n [] h = tt
  keep-All n (x ∷ m) (p, h) =
      if_both (All P) (ltb n (length (x ∷ m))) (keep_newest n m) (x ∷ m) (keep-All n m h) (p, h)

  get_entry-All :
      (k : List ℕ) (c : BoundedCache (List ℕ) V) → All P c.store → All P (get_entry k c).0.store
  unfolding get_entry
  get_entry-All k c h = elim (Option-cases (get k c.store)) [
    | inl missing ↦ rw (get_entry, missing) h
    | inr (v, found) ↦
        rw (get_entry, found)
          (set-All k v (delete k c.store) (get-All k v c.store h found) (delete-All k c.store h))
  ]

  module _ ⦃e : Eq V⦄ where
    set_entry-All :
        (k : List ℕ) (v : V) (c : BoundedCache (List ℕ) V)
        → P (k, v)
        → All P c.store
        → All P (set_entry k v c).0.store
    unfolding set_entry
    set_entry-All k v c q h =
        let old = if has k c.store then delete k c.store else c.store in
        let kept =
          if_both (All P) (has k c.store) (delete k c.store) c.store (delete-All k c.store h) h in
        if_both (λ (next : BoundedCache (List ℕ) V × List V). All P next.0.store)
          (c.max_entries == 0) (c, []) _ h
          (keep-All c.max_entries (set k v old) (set-All k v old q kept))

pub data Call : Type 0 where
  resolve_called : Url → Call
  destroy_called : Call
  settings_updated : ProxySettings → Call

abbrev pub HasProtocol : Call → Type 0
HasProtocol (resolve_called target) = contains b'|' target.protocol ≡ false
HasProtocol _ = Unit

unfoldable pub call_factory : (List ℕ → Option Url) → Call → Factory → Factory
unfolding resolve destroy update_settings
call_factory parse_url (resolve_called target) f = (resolve parse_url target f).0
call_factory parse_url destroy_called f = (destroy f).0
call_factory parse_url (settings_updated settings) f = (update_settings settings f).0

unfoldable pub call_factories : (List ℕ → Option Url) → List Call → Factory → Factory
unfolding call_factory
call_factories parse_url [] f = f
call_factories parse_url (call ∷ calls) f =
    call_factories parse_url calls (call_factory parse_url call f)

module _ (parse_url : List ℕ → Option Url) where
  -- The key names the agent's proxy and a protocol that this kind of agent is made for.
  abbrev pub IsMade : List ℕ × Agent → Type 0
  IsMade (key, agent) =
      (protocol : List ℕ) × (contains b'|' protocol ≡ false)
      × (key ≡ cache_key agent.proxy_url protocol)
      × (create_proxy_agent parse_url agent.proxy_url protocol ≡ made agent.kind)

  abbrev pub AllMade : Factory → Type 0
  AllMade f = All IsMade f.cache.store

  -- The agent is one that is made for this proxy and this protocol.
  abbrev pub IsFitting : (target : Url) → ProxySettings → ResolveResult → Type 0
  IsFitting target settings (failed error) = Unit
  IsFitting target settings (resolved r) = elim r.agent [
    | none ↦ r.via_proxy ≡ false
    | some agent ↦
        (r.via_proxy ≡ true)
        × (r.proxy_url ≡ some agent.proxy_url)
        × (resolve_proxy_for_url target settings ≡ some agent.proxy_url)
        × (create_proxy_agent parse_url agent.proxy_url target.protocol ≡ made agent.kind)
  ]

  -- A miss of the cache, by what can be made.
  made_agent-IsMade :
      (f : Factory) (cache : BoundedCache (List ℕ) Agent) (target : Url) (settings : ProxySettings)
      (proxy_url : List ℕ) (kind : KindResult)
      → All IsMade cache.store
      → contains b'|' target.protocol ≡ false
      → resolve_proxy_for_url target settings ≡ some proxy_url
      → create_proxy_agent parse_url proxy_url target.protocol ≡ kind
      → let next = made_agent f cache (cache_key proxy_url target.protocol) proxy_url kind in
        AllMade next.0 × IsFitting target settings next.1
  unfolding made_agent
  made_agent-IsMade f cache target settings proxy_url (refused error) h bar chosen e = (h, tt)
  made_agent-IsMade f cache target settings proxy_url (made kind) h bar chosen e =
      let agent : Agent = record {
        identity = f.next_identity;
        kind = kind;
        proxy_url = proxy_url;
      } in
      (
        set_entry-All IsMade (cache_key proxy_url target.protocol) agent cache
            (target.protocol, bar, refl, e) h,
        (refl, refl, chosen, e),
      )

  use_entry-IsMade :
      (f : Factory) (target : Url) (settings : ProxySettings) (proxy_url : List ℕ)
      (entry : BoundedCache (List ℕ) Agent × Option Agent)
      → All IsMade entry.0.store
      → ((agent : Agent)
          → entry.1 ≡ some agent
          → IsMade (cache_key proxy_url target.protocol, agent))
      → contains b'|' target.protocol ≡ false
      → resolve_proxy_for_url target settings ≡ some proxy_url
      → let next = use_entry parse_url target proxy_url f entry in
        AllMade next.0 × IsFitting target settings next.1
  unfolding use_entry
  use_entry-IsMade f target settings proxy_url (cache, none) h k bar chosen =
      made_agent-IsMade f cache target settings proxy_url
        (create_proxy_agent parse_url proxy_url target.protocol) h bar chosen refl
  use_entry-IsMade f target settings proxy_url (cache, some agent) h k bar chosen =
      let (protocol, free, same, kind) = k agent refl in
      let (proxy, ending) =
        cache_key-injective proxy_url agent.proxy_url target.protocol protocol bar free same in
      (
        h,
        (
          refl,
          ap some proxy,
          chosen ∙ ap some proxy,
          ap (create_proxy_agent parse_url agent.proxy_url) ending ∙ kind,
        ),
      )

  resolve_agent-IsMade :
      (f : Factory) (target : Url) (settings : ProxySettings) (proxy_url : List ℕ)
      → AllMade f
      → contains b'|' target.protocol ≡ false
      → resolve_proxy_for_url target settings ≡ some proxy_url
      → let next = resolve_agent parse_url target proxy_url f in
        AllMade next.0 × IsFitting target settings next.1
  unfolding resolve_agent
  resolve_agent-IsMade f target settings proxy_url h bar chosen =
      let key = cache_key proxy_url target.protocol in
      use_entry-IsMade f target settings proxy_url (get_entry key f.cache)
        (get_entry-All IsMade key f.cache h)
        (λ agent found.
          get-All IsMade key agent f.cache.store h (sym (get_entry-get key f.cache) ∙ found))
        bar chosen

  resolve_with-IsMade :
      (f : Factory) (target : Url) (settings : ProxySettings) (chosen : Option (List ℕ))
      → AllMade f
      → contains b'|' target.protocol ≡ false
      → resolve_proxy_for_url target settings ≡ chosen
      → let next = resolve_with parse_url target chosen f in
        AllMade next.0 × IsFitting target settings next.1
  unfolding resolve_with
  resolve_with-IsMade f target settings none h bar e = (h, refl)
  resolve_with-IsMade f target settings (some proxy_url) h bar e =
      if_both
        (λ (next : Factory × ResolveResult × List Agent).
          AllMade next.0 × IsFitting target settings next.1)
        (length proxy_url == 0) (f, resolved direct_resolution, [])
        (resolve_agent parse_url target proxy_url f) (h, refl)
        (resolve_agent-IsMade f target settings proxy_url h bar e)

  -- The calls that a factory sees before another one.
  call_factory-IsMade :
      (call : Call) (f : Factory)
      → HasProtocol call
      → AllMade f
      → AllMade (call_factory parse_url call f)
  unfolding call_factory resolve destroy update_settings clear_cache
  call_factory-IsMade (resolve_called target) f bar h =
      (resolve_with-IsMade f target f.settings (resolve_proxy_for_url target f.settings) h bar
        refl).0
  call_factory-IsMade destroy_called f bar h = tt
  call_factory-IsMade (settings_updated settings) f bar h = tt

  calls-IsMade :
      (calls : List Call) (f : Factory)
      → All HasProtocol calls
      → AllMade f
      → AllMade (call_factories parse_url calls f)
  unfolding call_factories
  calls-IsMade [] f bars h = h
  calls-IsMade (call ∷ calls) f (bar, bars) h =
      calls-IsMade calls (call_factory parse_url call f) bars (call_factory-IsMade call f bar h)

  -- After any calls, `resolve` answers with no agent and no proxy, with an error, or with an agent
  -- for the proxy that the target has under the settings of now, of the kind that would be made
  -- anew for the target's protocol, whether it comes from the cache or not. Protocols of URLs have
  -- no bar.
  pub resolve-IsFitting :
      (settings : ProxySettings) (max_entries : ℕ) (calls : List Call) (target : Url)
      → All HasProtocol calls
      → contains b'|' target.protocol ≡ false
      → let f = call_factories parse_url calls (create_factory settings max_entries) in
        IsFitting target f.settings (resolve parse_url target f).1
  unfolding resolve create_factory
  resolve-IsFitting settings max_entries calls target bars bar =
      let f = call_factories parse_url calls (create_factory settings max_entries) in
      (resolve_with-IsMade f target f.settings (resolve_proxy_for_url target f.settings)
        (calls-IsMade calls (create_factory settings max_entries) bars tt) bar refl).1
