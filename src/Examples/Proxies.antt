-- ===== src/Examples/Proxies.antt =====
-- Concrete runs of packages/proxy-core/src/index.ts and
-- packages/cli-proxy/src/route-explainer.ts, with small parsers of URLs and addresses.
use command_relay.Common.{
  ℕ, true, false, Option, none, some, List, [], ◌∷◌, ◌≡◌, ◌≢◌, ◌↔◌, refl, inl, inr, ◌==◌, nat_eq,
  list_eq, string_eq, if◌then◌else◌, All, String, Bool-cases, arith,
}
use command_relay.Common.Text.{codes}
use command_relay.Proxy.{NoProxyRule, ProxySettings, Url, normalize_host}
use command_relay.Proxy.Rules.{should_match_subdomains, parse_no_proxy_token, parse_no_proxy}
use command_relay.Proxy.Settings.{ProxyEnvironment, load_proxy_settings}
use command_relay.Proxy.Routes.{
  get_target_port, should_bypass_proxy, resolve_proxy_for_url, resolve_proxy_for_url_from_env,
}
use command_relay.Proxy.Matching.{AnyCovers, should_bypass_proxy_iff}
use command_relay.Proxy.Parsed.{IsRule, parse_no_proxy-IsRule}
use command_relay.Proxy.Environment.{
  IsSupported, load_proxy_settings-cgi, resolve_from_env-IsSupported,
}
use command_relay.Proxy.Explain.{
  find_matching_no_proxy_rule, format_no_proxy_rule, explain_one_route,
}
use command_relay.Proxy.Printing.{IsPrintable, parse_no_proxy_token-format}
use command_relay.Proxy.Reasons.{IsExplained, explain_one_route-IsExplained}

-- `isIP` of the addresses below.
abbrev example_is_ip : List ℕ → ℕ
example_is_ip host = if host == codes "127.0.0.1" then 4 else if host == codes "::1" then 6 else 0

abbrev relay_url : Url
relay_url = record {
  protocol = codes "wss:";
  hostname = codes "relay.example.com";
  port = [];
  href = codes "wss://relay.example.com/";
}

abbrev proxy_url : Url
proxy_url = record {
  protocol = codes "http:";
  hostname = codes "proxy";
  port = codes "3128";
  href = codes "http://proxy:3128/";
}

abbrev example_parse_url : List ℕ → Option Url
example_parse_url text =
    if text == codes "http://proxy:3128"
    then some proxy_url
    else if text == codes "wss://relay.example.com"
    then some relay_url
    else none

abbrev example_rules : List NoProxyRule
example_rules =
    record { host = codes "localhost"; port = none; match_subdomains = false }
    ∷ record { host = codes "::1"; port = some 8080; match_subdomains = false }
    ∷ record { host = codes "example.com"; port = some 443; match_subdomains = true }
    ∷ []

parsed_rules :
    parse_no_proxy example_parse_url example_is_ip
      (codes " LOCALHOST. ,[::1]:8080, bad host,x:0,y:65536, .Example.com:443,")
    ≡ example_rules
unfolding parse_no_proxy
parsed_rules = refl

bypassed : should_bypass_proxy relay_url example_rules ≡ true
unfolding should_bypass_proxy
bypassed = refl

abbrev example_env : ProxyEnvironment
example_env name =
    if name == "HTTP_PROXY"
    then some (codes " proxy:3128 ")
    else if name == "REQUEST_METHOD"
    then some (codes "GET")
    else if name == "https_proxy"
    then some (codes "http://proxy:3128")
    else none

routed :
    resolve_proxy_for_url_from_env example_parse_url example_is_ip relay_url example_env
    ≡ some (codes "http://proxy:3128/")
unfolding resolve_proxy_for_url_from_env
routed = refl

should_bypass_proxy_iff_example : (should_bypass_proxy relay_url example_rules ≡ true) ↔ (
    (host : List ℕ) × (normalize_host relay_url.hostname ≡ some host)
    × AnyCovers host (get_target_port relay_url) example_rules)
should_bypass_proxy_iff_example = should_bypass_proxy_iff relay_url example_rules

parse_no_proxy-IsRule_example :
    All IsRule (parse_no_proxy example_parse_url example_is_ip (codes "localhost,x:65536"))
parse_no_proxy-IsRule_example =
    parse_no_proxy-IsRule example_parse_url example_is_ip (codes "localhost,x:65536")

-- The request sets HTTP_PROXY.
abbrev attacked_env : ProxyEnvironment
attacked_env name = if name == "HTTP_PROXY" then some (codes "http://evil") else example_env name

attacked-same : (name : String) → name ≢ "HTTP_PROXY" → example_env name ≡ attacked_env name
attacked-same name h = elim (Bool-cases (name == "HTTP_PROXY")) [
  | inl same ↦ absurd (h ((string_eq.equals_iff name "HTTP_PROXY").0 same))
  | inr other ↦ rw other refl
]

load_proxy_settings-cgi_example :
    load_proxy_settings example_parse_url example_is_ip example_env
    ≡ load_proxy_settings example_parse_url example_is_ip attacked_env
load_proxy_settings-cgi_example =
    load_proxy_settings-cgi example_parse_url example_is_ip example_env attacked_env refl
      attacked-same

resolve_from_env-IsSupported_example :
    IsSupported example_parse_url example_env (codes "http://proxy:3128/")
resolve_from_env-IsSupported_example =
    resolve_from_env-IsSupported example_parse_url example_is_ip relay_url example_env
      (codes "http://proxy:3128/") routed

abbrev domain_rule : NoProxyRule
domain_rule = record { host = codes "example.com"; port = some 443; match_subdomains = true }

domain_rule-IsPrintable : IsPrintable example_is_ip domain_rule
unfolding normalize_host should_match_subdomains
domain_rule-IsPrintable = (refl, refl, refl, refl, refl, (omega arith, omega arith))

parse_no_proxy_token-format_example :
    parse_no_proxy_token example_parse_url example_is_ip (format_no_proxy_rule domain_rule)
    ≡ some domain_rule
parse_no_proxy_token-format_example =
    parse_no_proxy_token-format example_parse_url example_is_ip domain_rule domain_rule-IsPrintable

found_rule : find_matching_no_proxy_rule relay_url example_rules ≡ some domain_rule
unfolding find_matching_no_proxy_rule
found_rule = refl

abbrev example_settings : ProxySettings
example_settings = record {
  http_proxy = none;
  https_proxy = none;
  all_proxy = some proxy_url.href;
  no_proxy = example_rules;
}

explain_one_route-IsExplained_example :
    let explained =
      explain_one_route {Agent = ℕ} example_parse_url
        (codes "wss://relay.example.com")
        example_settings
        none in
    (explained.proxy_url ≡ resolve_proxy_for_url relay_url example_settings)
    × IsExplained relay_url example_settings explained.decision explained.proxy_source
        explained.reason
explain_one_route-IsExplained_example =
    explain_one_route-IsExplained example_parse_url (codes "wss://relay.example.com")
      example_settings none relay_url refl refl
