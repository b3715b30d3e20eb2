-- ===== src/Proxy/Explain.antt =====
-- packages/cli-proxy/src/route-explainer.ts: why a URL is routed the way it is. `normalizeHost`
-- there is a copy of that of packages/proxy-core/src/index.ts and is the same definition here; the
-- other copies differ and stand below.
use command_relay.Common.{
  ℕ, ◌-◌, ◌^◌, Bool, true, false, not, ◌&&◌, Option, none, some, List, [], ◌∷◌, ◌++◌, ℤ, String,
  pos, negsuc, ltb, leb, if◌then◌else◌, ◌==◌, nat_eq, list_eq, length, head?,
}
use command_relay.Common.Text.{codes}
use command_relay.Common.Units.{is_at, drop, ends_with, parse_int, decimal}
use command_relay.Proxy.{NoProxyRule, ProxySettings, Url, any_host, normalize_host}
use command_relay.Proxy.Routes.{
  is_secure, is_plain, default_port, covers_port, should_bypass_proxy, resolve_proxy_for_url,
}

pub data ProxySettingSource : Type 0 where
  from_http_proxy from_https_proxy from_all_proxy : ProxySettingSource

pub data RouteDecision : Type 0 where
  proxied direct failed : RouteDecision

-- The text of `reason`, by what is written into it.
pub data Reason : Type 0 where
  invalid_target no_proxy_bypass no_setting_matched : Reason
  no_proxy_rule : (formatted : List ℕ) → Reason
  via_setting : ProxySettingSource → (proxy_url : List ℕ) → Reason
  via_proxy : (proxy_url : List ℕ) → Reason

pub record RouteExplanation {ℓ} (Agent : Type ℓ) : Type ℓ where
  pub input : List ℕ
  pub decision : RouteDecision
  pub target_url : Option (List ℕ)
  pub target_protocol : Option (List ℕ)
  pub proxy_url : Option (List ℕ)
  pub proxy_source : Option ProxySettingSource
  pub matched_no_proxy_rule : Option NoProxyRule
  pub reason : Reason
  pub agent : Option Agent
  pub error : Option String

-- The copy of `matchesRuleHost`.
unfoldable pub explained_matches : (target_host : List ℕ) → NoProxyRule → Bool
explained_matches target_host rule =
    if target_host == rule.host
    then true
    else if not rule.match_subdomains
    then false
    else if not (ends_with rule.host target_host)
    then false
    else ltb (length rule.host) (length target_host)
      && is_at (head? (drop (length target_host - length rule.host - 1) target_host)) b'.'

-- `Number.isSafeInteger(parsed) && parsed > 0 && parsed <= 65_535`
abbrev pub port_in_bounds : (default : ℕ) → Option ℤ → ℕ
port_in_bounds default (some (pos n)) =
    if leb n (2 ^ 53 - 1) && ltb 0 n && leb n 65535 then n else default
port_in_bounds default (some (negsuc n)) = default
port_in_bounds default none = default

-- Its copy of `getTargetPort`, with `Number.parseInt`.
unfoldable pub get_port : Url → ℕ
unfolding parse_int
get_port target =
    if length target.port == 0
    then default_port target.protocol
    else port_in_bounds (default_port target.protocol) (parse_int target.port)

-- The loop of `findMatchingNoProxyRule`.
unfoldable pub first_match : (host : List ℕ) (port : ℕ) → List NoProxyRule → Option NoProxyRule
unfolding explained_matches
first_match host port [] = none
first_match host port (rule ∷ rules) =
    let rest = first_match host port rules in
    if rule.host == any_host
    then some rule
    else if explained_matches host rule
    then if covers_port port rule.port then some rule else rest
    else rest

unfoldable pub find_matching_no_proxy_rule : Url → List NoProxyRule → Option NoProxyRule
unfolding normalize_host first_match get_port
find_matching_no_proxy_rule target rules = elim (normalize_host target.hostname) [
  | none ↦ none
  | some host ↦ first_match host (get_port target) rules
]

-- `setting === proxyUrl`
abbrev pub holds : (setting : Option (List ℕ)) (proxy_url : List ℕ) → Bool
holds none proxy_url = false
holds (some setting) proxy_url = setting == proxy_url

abbrev pub source_of :
    (protocol : List ℕ) → ProxySettings → (proxy_url : List ℕ) → Option ProxySettingSource
source_of protocol settings proxy_url =
    let from_all = if holds settings.all_proxy proxy_url then some from_all_proxy else none in
    let from_http =
      if holds settings.http_proxy proxy_url then some from_http_proxy else from_all in
    if is_plain protocol
    then from_http
    else if is_secure protocol
    then if holds settings.https_proxy proxy_url then some from_https_proxy else from_http
    else from_all

unfoldable pub resolve_proxy_source :
    (protocol : List ℕ) → ProxySettings → Option (List ℕ) → Option ProxySettingSource
resolve_proxy_source protocol settings none = none
resolve_proxy_source protocol settings (some proxy_url) =
    if length proxy_url == 0 then none else source_of protocol settings proxy_url

unfoldable pub format_no_proxy_rule : NoProxyRule → List ℕ
unfolding decimal
format_no_proxy_rule rule =
    let host =
      if rule.match_subdomains && not (rule.host == any_host)
      then codes "*." ++ rule.host
      else rule.host in
    elim rule.port [ none ↦ host | some port ↦ host ++ b':' ∷ decimal port ]

unfoldable pub bypass_reason : Option NoProxyRule → Reason
unfolding format_no_proxy_rule
bypass_reason none = no_proxy_bypass
bypass_reason (some rule) = no_proxy_rule (format_no_proxy_rule rule)

abbrev pub proxy_reason : Option ProxySettingSource → (proxy_url : List ℕ) → Reason
proxy_reason none proxy_url = via_proxy proxy_url
proxy_reason (some source) proxy_url = via_setting source proxy_url

-- The decision and its reason.
abbrev pub decide_route :
    (bypass : Bool) (matched : Option NoProxyRule) (proxy_url : Option (List ℕ))
    → Option ProxySettingSource
    → RouteDecision × Reason
decide_route true matched proxy_url source = (direct, bypass_reason matched)
decide_route false matched none source = (direct, no_setting_matched)
decide_route false matched (some proxy_url) source =
    if length proxy_url == 0
    then (direct, no_setting_matched)
    else (proxied, proxy_reason source proxy_url)

module _ {ℓ} {Agent : Type ℓ} where
  -- The target is valid; the last argument is the agent's answer, where there is a resolver.
  unfoldable pub explain_target :
      (input : List ℕ) → ProxySettings → (target : Url) → Option Agent → RouteExplanation Agent
  unfolding find_matching_no_proxy_rule resolve_proxy_source
  explain_target input settings target agent =
      let bypass = should_bypass_proxy target settings.no_proxy in
      let matched = if bypass then find_matching_no_proxy_rule target settings.no_proxy else none in
      let proxy_url = resolve_proxy_for_url target settings in
      let source = resolve_proxy_source target.protocol settings proxy_url in
      let decided = decide_route bypass matched proxy_url source in
      record {
        input = input;
        decision = decided.0;
        target_url = some target.href;
        target_protocol = some target.protocol;
        proxy_url = proxy_url;
        proxy_source = source;
        matched_no_proxy_rule = matched;
        reason = decided.1;
        agent = agent;
        error = none;
      }

module _ {ℓ} {Agent : Type ℓ} (parse_url : List ℕ → Option Url) where
  -- `agent_resolver` is what its `resolve` answers for a target.
  unfoldable pub explain_one_route :
      (input : List ℕ)
      → ProxySettings
      → (agent_resolver : Option (Url → Agent)) → RouteExplanation Agent
  unfolding explain_target
  explain_one_route input settings agent_resolver = elim (parse_url input) [
    | none ↦ record {
      input = input;
      decision = failed;
      target_url = none;
      target_protocol = none;
      proxy_url = none;
      proxy_source = none;
      matched_no_proxy_rule = none;
      reason = invalid_target;
      agent = none;
      error = some "invalid_target_url";
    }
    | some target ↦
        explain_target input settings target
          (elim agent_resolver [ none ↦ none | some resolve ↦ some (resolve target) ])
  ]
