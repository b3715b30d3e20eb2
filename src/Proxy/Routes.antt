-- ===== src/Proxy/Routes.antt =====
-- packages/proxy-core/src/index.ts: `shouldBypassProxy` and `resolveProxyForUrl`.
use command_relay.Common.{
  ℕ, Bool, true, false, Option, none, some, List, [], ◌∷◌, if◌then◌else◌, ◌==◌, ◌||◌, nat_eq,
  list_eq,
}
use command_relay.Common.Text.{codes}
use command_relay.Proxy.{
  NoProxyRule, ProxySettings, Url, any_host, parse_port, normalize_host, matches_rule_host,
}
use command_relay.Proxy.Settings.{ProxyEnvironment, or_else, load_proxy_settings}

abbrev pub is_secure : (protocol : List ℕ) → Bool
is_secure protocol = protocol == codes "https:" || protocol == codes "wss:"

abbrev pub is_plain : (protocol : List ℕ) → Bool
is_plain protocol = protocol == codes "http:" || protocol == codes "ws:"

abbrev pub default_port : (protocol : List ℕ) → ℕ
default_port protocol = if is_secure protocol then 443 else 80

-- An empty port is no port for `parse_port` either.
abbrev pub port_or : (default : ℕ) → Option ℕ → ℕ
port_or default none = default
port_or default (some port) = port

unfoldable pub get_target_port : Url → ℕ
unfolding parse_port
get_target_port target = port_or (default_port target.protocol) (parse_port target.port)

-- `rule.port === null || rule.port === port`
abbrev pub covers_port : (port : ℕ) → Option ℕ → Bool
covers_port port none = true
covers_port port (some p) = p == port

-- The loop of `shouldBypassProxy`.
unfoldable pub bypasses : (host : List ℕ) (port : ℕ) → List NoProxyRule → Bool
unfolding matches_rule_host
bypasses host port [] = false
bypasses host port (rule ∷ rules) =
    let rest = bypasses host port rules in
    if rule.host == any_host
    then true
    else if matches_rule_host host rule
    then if covers_port port rule.port then true else rest
    else rest

unfoldable pub should_bypass_proxy : Url → List NoProxyRule → Bool
unfolding normalize_host bypasses get_target_port
should_bypass_proxy target [] = false
should_bypass_proxy target (rule ∷ rules) = elim (normalize_host target.hostname) [
  | none ↦ false
  | some host ↦ bypasses host (get_target_port target) (rule ∷ rules)
]

-- The `switch` of `resolveProxyForUrl`.
abbrev pub proxy_for_protocol : (protocol : List ℕ) → ProxySettings → Option (List ℕ)
proxy_for_protocol protocol settings =
    if is_plain protocol
    then or_else settings.http_proxy settings.all_proxy
    else if is_secure protocol
    then or_else settings.https_proxy (or_else settings.http_proxy settings.all_proxy)
    else settings.all_proxy

-- The target is a parsed URL.
unfoldable pub resolve_proxy_for_url : Url → ProxySettings → Option (List ℕ)
unfolding should_bypass_proxy
resolve_proxy_for_url target settings =
    if should_bypass_proxy target settings.no_proxy
    then none
    else proxy_for_protocol target.protocol settings

unfoldable pub resolve_proxy_for_url_from_env :
    (List ℕ → Option Url) → (List ℕ → ℕ) → Url → ProxyEnvironment → Option (List ℕ)
unfolding resolve_proxy_for_url load_proxy_settings
resolve_proxy_for_url_from_env parse_url is_ip target env =
    resolve_proxy_for_url target (load_proxy_settings parse_url is_ip env)
