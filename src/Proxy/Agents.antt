-- ===== src/Proxy/Agents.antt =====
-- packages/proxy-agent/src/proxy-agent-factory.ts: agents per proxy and protocol, in a bounded
-- cache. An agent of a third party is its kind, its proxy and an identity; the options that are
-- passed to its constructor are left out. The settings are those of packages/proxy-core, which
-- proxy-settings.ts beside it renames.
use command_relay.Common.{
  ℕ, suc, Bool, true, false, ◌&&◌, ◌||◌, Option, none, some, List, [], ◌∷◌, ◌++◌, length,
  if◌then◌else◌, ◌==◌, Eq, nat_eq, list_eq, contains, ◌≡◌, ◌↔◌, refl, subst, arith, list_beq_iff,
}
use command_relay.Common.Text.{codes}
use command_relay.Common.Units.{trim_units, to_lower, ends_with}
use command_relay.Cache.{BoundedCache, create_cache, clear_cache, get_entry, set_entry}
use command_relay.Proxy.{ProxySettings, Url}
use command_relay.Proxy.Routes.{resolve_proxy_for_url}

pub data AgentKind : Type 0 where
  http_agent https_agent socks_agent pac_agent : AgentKind

pub record Agent : Type 0 where
  pub identity : ℕ
  pub kind : AgentKind
  pub proxy_url : List ℕ

pub data AgentError : Type 0 where
  invalid_proxy_url unsupported_proxy_protocol unsupported_target_protocol : AgentError

pub data KindResult : Type 0 where
  made : AgentKind → KindResult
  refused : AgentError → KindResult

abbrev pub socks_protocols : List (List ℕ)
socks_protocols =
    codes "socks:" ∷ codes "socks4:" ∷ codes "socks4a:" ∷ codes "socks5:" ∷ codes "socks5h:" ∷ []

abbrev pub pac_protocols : List (List ℕ)
pac_protocols = codes "pac+http:" ∷ codes "pac+https:" ∷ codes "pac+file:" ∷ codes "pac+data:" ∷ []

abbrev pub target_protocols : List (List ℕ)
target_protocols = codes "http:" ∷ codes "https:" ∷ codes "ws:" ∷ codes "wss:" ∷ []

abbrev pub with_colon : List ℕ → List ℕ
with_colon s = if ends_with (codes ":") s then s else s ++ codes ":"

-- `normalizeTargetProtocol`; `none` is its error.
unfoldable pub normalize_target_protocol : List ℕ → Option (List ℕ)
unfolding trim_units to_lower
normalize_target_protocol target_protocol =
    let protocol = with_colon (to_lower (trim_units target_protocol)) in
    if contains protocol target_protocols then some protocol else none

-- The agent for the protocol of a proxy.
abbrev pub kind_of : (target_protocol protocol : List ℕ) → KindResult
kind_of target_protocol protocol =
    if contains protocol socks_protocols
    then made socks_agent
    else if contains protocol pac_protocols
    then made pac_agent
    else if protocol == codes "http:" || protocol == codes "https:"
    then if target_protocol == codes "http:" || target_protocol == codes "ws:"
      then made http_agent
      else made https_agent
    else refused unsupported_proxy_protocol

-- `cached`, or a new agent.
pub record Factory : Type 0 where
  pub settings : ProxySettings
  pub cache : BoundedCache (List ℕ) Agent
  pub next_identity : ℕ

pub record Resolution : Type 0 where
  pub agent : Option Agent
  pub proxy_url : Option (List ℕ)
  pub via_proxy : Bool
  pub from_cache : Bool

pub data ResolveResult : Type 0 where
  resolved : Resolution → ResolveResult
  failed : AgentError → ResolveResult

abbrev pub direct_resolution : Resolution
direct_resolution = record { agent = none; proxy_url = none; via_proxy = false; from_cache = false }

abbrev pub cache_key : (proxy_url protocol : List ℕ) → List ℕ
cache_key proxy_url protocol = proxy_url ++ b'|' ∷ protocol

agent_same :
    (a b : Agent) → a.identity ≡ b.identity → a.kind ≡ b.kind → a.proxy_url ≡ b.proxy_url → a ≡ b
agent_same a b e f g = cc

abbrev pub kind_code : AgentKind → ℕ
kind_code http_agent = 0
kind_code https_agent = 1
kind_code socks_agent = 2
kind_code pac_agent = 3

kind_code-injective : (a b : AgentKind) → kind_code a ≡ kind_code b → a ≡ b
kind_code-injective http_agent http_agent h = refl
kind_code-injective http_agent https_agent h = absurd (omega (arith, h))
kind_code-injective http_agent socks_agent h = absurd (omega (arith, h))
kind_code-injective http_agent pac_agent h = absurd (omega (arith, h))
kind_code-injective https_agent http_agent h = absurd (omega (arith, h))
kind_code-injective https_agent https_agent h = refl
kind_code-injective https_agent socks_agent h = absurd (omega (arith, h))
kind_code-injective https_agent pac_agent h = absurd (omega (arith, h))
kind_code-injective socks_agent http_agent h = absurd (omega (arith, h))
kind_code-injective socks_agent https_agent h = absurd (omega (arith, h))
kind_code-injective socks_agent socks_agent h = refl
kind_code-injective socks_agent pac_agent h = absurd (omega (arith, h))
kind_code-injective pac_agent http_agent h = absurd (omega (arith, h))
kind_code-injective pac_agent https_agent h = absurd (omega (arith, h))
kind_code-injective pac_agent socks_agent h = absurd (omega (arith, h))
kind_code-injective pac_agent pac_agent h = refl

same_text : (s : List ℕ) → (s == s) ≡ true
same_text s = (list_beq_iff s s).1 refl

-- `===` of agents, which have an identity of their own each.
abbrev pub same_agent : Agent → Agent → Bool
same_agent a b =
    a.identity == b.identity && kind_code a.kind == kind_code b.kind && a.proxy_url == b.proxy_url

same_agent_refl : (a : Agent) → same_agent a a ≡ true
same_agent_refl a = ground (arith, same_text a.proxy_url)

pub same_agent_iff : (a b : Agent) → (same_agent a b ≡ true) ↔ (a ≡ b)
same_agent_iff a b = (
  λ h.
      let identity = (nat_eq.equals_iff a.identity b.identity).0 (ground arith) in
      let kind = kind_code-injective a.kind b.kind ((nat_eq.equals_iff _ _).0 (ground arith)) in
      let proxy = (list_beq_iff a.proxy_url b.proxy_url).0 (ground arith) in
      agent_same a b identity kind proxy,
  λ e. subst (λ c. same_agent a c ≡ true) e (same_agent_refl a),
)

instance abbrev pub agent_eq : Eq Agent
agent_eq = record { equals = same_agent; equals_iff = same_agent_iff }

-- What follows a miss of the cache.
unfoldable pub made_agent :
    Factory
    → (cache : BoundedCache (List ℕ) Agent) → (key proxy_url : List ℕ) → KindResult
    → Factory × ResolveResult × List Agent
unfolding set_entry
made_agent f cache key proxy_url (refused error) = (record f { cache = cache }, failed error, [])
made_agent f cache key proxy_url (made kind) =
    let agent : Agent = record { identity = f.next_identity; kind = kind; proxy_url = proxy_url } in
    let (stored, disposed) = set_entry key agent cache in
    (
      record f { cache = stored; next_identity = suc f.next_identity },
      resolved (record {
        agent = some agent;
        proxy_url = some proxy_url;
        via_proxy = true;
        from_cache = false;
      }),
      disposed,
    )

module _ (parse_url : List ℕ → Option Url) where
  -- The checks of `createProxyAgent`, in their order.
  abbrev pub kind_at : (target_protocol : Option (List ℕ)) (proxy_url : List ℕ) → KindResult
  kind_at none proxy_url = refused unsupported_target_protocol
  kind_at (some target_protocol) proxy_url =
      if length proxy_url == 0 then refused invalid_proxy_url else elim (parse_url proxy_url) [
        | none ↦ refused invalid_proxy_url
        | some url ↦ kind_of target_protocol (to_lower url.protocol)
      ]

  unfoldable pub create_proxy_agent : (proxy_url target_protocol : List ℕ) → KindResult
  unfolding normalize_target_protocol trim_units to_lower
  create_proxy_agent proxy_url target_protocol =
      kind_at (normalize_target_protocol target_protocol) (trim_units proxy_url)

  -- What follows the look into the cache.
  unfoldable pub use_entry :
      (target : Url) (proxy_url : List ℕ)
      → Factory
      → BoundedCache (List ℕ) Agent × Option Agent
      → Factory × ResolveResult × List Agent
  unfolding made_agent create_proxy_agent
  use_entry target proxy_url f (cache, some agent) = (
    record f { cache = cache },
    resolved (record {
      agent = some agent;
      proxy_url = some proxy_url;
      via_proxy = true;
      from_cache = true;
    }),
    [],
  )
  use_entry target proxy_url f (cache, none) =
      made_agent f cache (cache_key proxy_url target.protocol) proxy_url
        (create_proxy_agent proxy_url target.protocol)

  -- A proxy is configured; the last result is the agents that the cache disposes of.
  unfoldable pub resolve_agent :
      (target : Url) (proxy_url : List ℕ) → Factory → Factory × ResolveResult × List Agent
  unfolding get_entry use_entry
  resolve_agent target proxy_url f =
      use_entry target proxy_url f (get_entry (cache_key proxy_url target.protocol) f.cache)

  -- `ProxyAgentFactory.resolve` of a parsed target, by the proxy that it has.
  unfoldable pub resolve_with :
      (target : Url) → Option (List ℕ) → Factory → Factory × ResolveResult × List Agent
  unfolding resolve_agent
  resolve_with target none f = (f, resolved direct_resolution, [])
  resolve_with target (some proxy_url) f =
      if length proxy_url == 0
      then (f, resolved direct_resolution, [])
      else resolve_agent target proxy_url f

  unfoldable pub resolve : (target : Url) → Factory → Factory × ResolveResult × List Agent
  unfolding resolve_with resolve_proxy_for_url
  resolve target f = resolve_with target (resolve_proxy_for_url target f.settings) f

unfoldable pub create_factory : ProxySettings → (max_entries : ℕ) → Factory
create_factory settings max_entries = record {
  settings = settings;
  cache = create_cache max_entries;
  next_identity = 0;
}

-- `destroy`, and `clear` and `dispose`, which call it.
unfoldable pub destroy : Factory → Factory × List Agent
unfolding clear_cache
destroy f = let (cache, disposed) = clear_cache f.cache in (record f { cache = cache }, disposed)

-- `updateSettings`, and `reloadFromEnvironment` with the settings that it loads.
unfoldable pub update_settings : ProxySettings → Factory → Factory × List Agent
unfolding destroy
update_settings settings f = destroy (record f { settings = settings })
