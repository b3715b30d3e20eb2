-- ===== src/Proxy.antt =====
-- packages/proxy-core/src/index.ts: the rules of NO_PROXY, and the proxy that a URL is reached
-- through. Text is a list of UTF-16 code units. A parsed `URL` is what the code reads of it; the
-- parser of URLs and `isIP` of node:net are parameters.
pub mod Rules
pub mod Settings
pub mod Routes
pub mod Matching
pub mod Ports
pub mod Explain
pub mod Printing
pub mod Environment
pub mod Explained
pub mod Parsed
pub mod Reasons
pub mod Agents
pub mod Runtime
pub mod Made
pub mod Decisions
use command_relay.Common.{
  ℕ, zero, suc, ◌-◌, ◌^◌, Bool, true, false, not, ◌&&◌, ◌||◌, Option, none, some, List, [], ◌∷◌,
  ltb, leb, if◌then◌else◌, ◌==◌, nat_eq, list_eq, length, head?, get_last?, tail,
}
use command_relay.Common.Text.{is_digit}
use command_relay.Common.Units.{
  all, is_at, init, trim_units, to_lower, includes, starts_with, cut, count, number_from, drop,
  ends_with,
}

pub record NoProxyRule : Type 0 where
  pub host : List ℕ
  pub port : Option ℕ
  pub match_subdomains : Bool

pub record ProxySettings : Type 0 where
  pub http_proxy : Option (List ℕ)
  pub https_proxy : Option (List ℕ)
  pub all_proxy : Option (List ℕ)
  pub no_proxy : List NoProxyRule

-- What the code reads of a parsed `URL`; `href` is its text.
pub record Url : Type 0 where
  pub protocol : List ℕ
  pub hostname : List ℕ
  pub port : List ℕ
  pub href : List ℕ

abbrev pub any_host : List ℕ
any_host = b'*' ∷ []

abbrev pub is_number : List ℕ → Bool
is_number [] = false
is_number (c ∷ s) = all is_digit (c ∷ s)

-- The bounds of a port; `2 ^ 53 - 1` is the largest safe integer.
abbrev pub checked_port : ℕ → Option ℕ
checked_port n = if not (leb n (2 ^ 53 - 1)) || leb n 0 || ltb 65535 n then none else some n

unfoldable pub parse_port : List ℕ → Option ℕ
parse_port token = if is_number token then checked_port (number_from 0 token) else none

-- `host.startsWith("[") && host.endsWith("]") ? host.slice(1, -1) : host`
abbrev pub unbracket : List ℕ → List ℕ
unbracket h = if is_at (head? h) b'[' && is_at (get_last? h) b']' then init (tail h) else h

abbrev pub drop_last_dot : List ℕ → List ℕ
drop_last_dot h = if is_at (get_last? h) b'.' then init h else h

-- `normalizeHost` after `trim` and `toLowerCase`
abbrev pub checked_host : List ℕ → Option (List ℕ)
checked_host h =
    if length h == 0 || includes (b'/' ∷ []) h || includes (b' ' ∷ []) h then none else some h

abbrev pub normalize_trimmed : List ℕ → Option (List ℕ)
normalize_trimmed [] = none
normalize_trimmed (c ∷ s) = checked_host (drop_last_dot (unbracket (c ∷ s)))

unfoldable pub normalize_host : List ℕ → Option (List ℕ)
unfolding trim_units to_lower
normalize_host host = normalize_trimmed (to_lower (trim_units host))

-- `parsePort` where a port must follow.
abbrev pub with_port : (host : List ℕ) → Option ℕ → Option (List ℕ × Option ℕ)
with_port host none = none
with_port host (some port) = some (host, some port)

-- What follows the closing bracket.
unfoldable pub bracketed : Option (List ℕ × List ℕ) → Option (List ℕ × Option ℕ)
unfolding parse_port
bracketed none = none
bracketed (some (host, [])) = some (host, none)
bracketed (some (host, c ∷ rest)) = if c == b':' then with_port host (parse_port rest) else none

-- With one colon, the last one is the first.
unfoldable pub unbracketed :
    (token : List ℕ) → Option (List ℕ × List ℕ) → Option (List ℕ × Option ℕ)
unfolding parse_port
unbracketed token none = some (token, none)
unbracketed token (some (host, rest)) =
    if ltb 1 (count b':' token) then none else with_port host (parse_port rest)

unfoldable pub split_host_and_port : List ℕ → Option (List ℕ × Option ℕ)
unfolding bracketed unbracketed
split_host_and_port [] = none
split_host_and_port (c ∷ s) =
    if c == b'[' then bracketed (cut b']' s) else unbracketed (c ∷ s) (cut b':' (c ∷ s))

unfoldable pub is_subdomain_of : (host candidate_parent : List ℕ) → Bool
is_subdomain_of host candidate_parent =
    ends_with candidate_parent host
    && ltb (length candidate_parent) (length host)
    && is_at (head? (drop (length host - length candidate_parent - 1) host)) b'.'

unfoldable pub matches_rule_host : (target_host : List ℕ) → NoProxyRule → Bool
unfolding is_subdomain_of
matches_rule_host target_host rule =
    if target_host == rule.host
    then true
    else if not rule.match_subdomains
    then false
    else is_subdomain_of target_host rule.host
