-- ===== src/Proxy/Rules.antt =====
-- packages/proxy-core/src/index.ts: `parseNoProxy`, which reads the rules of NO_PROXY.
use command_relay.Common.{
  Bool, true, false, not, ◌||◌, Option, none, some, List, [], ◌∷◌, ℕ, if◌then◌else◌, ◌==◌, nat_eq,
  list_eq, length, tail,
}
use command_relay.Common.Text.{codes}
use command_relay.Common.Units.{trim_units, includes, starts_with, split_units}
use command_relay.Proxy.{
  NoProxyRule, Url, any_host, parse_port, normalize_host, split_host_and_port,
}

-- `token.replace(/^\*?\./, "")`
abbrev pub without_wildcard : List ℕ → List ℕ
without_wildcard token = if starts_with (codes "*.") token then tail (tail token) else tail token

abbrev pub has_wildcard : List ℕ → Bool
has_wildcard token = starts_with (codes "*.") token || starts_with (codes ".") token

module _ (is_ip : List ℕ → ℕ) where
  unfoldable pub should_match_subdomains : (host : List ℕ) (has_wildcard_prefix : Bool) → Bool
  should_match_subdomains host has_wildcard_prefix =
      if host == any_host
      then false
      else if has_wildcard_prefix
      then true
      else if not (is_ip host == 0) || host == codes "localhost"
      then false
      else includes (codes ".") host

  -- The rule of a host and a port that were read.
  unfoldable pub rule_of :
      (wildcard : Bool) (port : Option ℕ) → Option (List ℕ) → Option NoProxyRule
  unfolding should_match_subdomains
  rule_of wildcard port none = none
  rule_of wildcard port (some host) = some (record {
    host = host;
    port = port;
    match_subdomains = should_match_subdomains host wildcard;
  })

  unfoldable pub rule_of_parts : (wildcard : Bool) → Option (List ℕ × Option ℕ) → Option NoProxyRule
  unfolding normalize_host rule_of
  rule_of_parts wildcard none = none
  rule_of_parts wildcard (some (host, port)) = rule_of wildcard port (normalize_host host)

  -- The token is no URL.
  unfoldable pub parse_host_token : List ℕ → Option NoProxyRule
  unfolding split_host_and_port rule_of_parts
  parse_host_token token =
      if has_wildcard token
      then rule_of_parts true (split_host_and_port (without_wildcard token))
      else rule_of_parts false (split_host_and_port token)

module _ (parse_url : List ℕ → Option Url) where
  -- `parseNoProxyUrlToken`
  unfoldable pub parse_no_proxy_url_token : List ℕ → Option (List ℕ × Option ℕ)
  unfolding parse_port
  parse_no_proxy_url_token token =
      if not (includes (codes "://") token) then none else elim (parse_url token) [
        | none ↦ none
        | some url ↦ some (url.hostname, parse_port url.port)
      ]

abbrev pub push_rule : Option NoProxyRule → List NoProxyRule → List NoProxyRule
push_rule none rules = rules
push_rule (some rule) rules = rule ∷ rules

module _ (parse_url : List ℕ → Option Url) (is_ip : List ℕ → ℕ) where
  unfoldable pub parse_no_proxy_token : List ℕ → Option NoProxyRule
  unfolding parse_no_proxy_url_token parse_host_token
  parse_no_proxy_token token =
      if length token == 0
      then none
      else if token == any_host
      then some (record { host = any_host; port = none; match_subdomains = false })
      else elim (parse_no_proxy_url_token parse_url token) [
        | some parts ↦ rule_of_parts is_ip false (some parts)
        | none ↦ parse_host_token is_ip token
      ]

  -- The loop of `parseNoProxy`.
  unfoldable pub parse_tokens : List (List ℕ) → List NoProxyRule
  unfolding trim_units parse_no_proxy_token
  parse_tokens [] = []
  parse_tokens (token ∷ tokens) =
      push_rule (parse_no_proxy_token (trim_units token)) (parse_tokens tokens)

  unfoldable pub parse_no_proxy : List ℕ → List NoProxyRule
  unfolding trim_units parse_tokens
  parse_no_proxy raw =
      if length (trim_units raw) == 0 then [] else parse_tokens (split_units b',' raw)
