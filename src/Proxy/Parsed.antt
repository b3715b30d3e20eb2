-- ===== src/Proxy/Parsed.antt =====
-- packages/proxy-core/src/index.ts: what every rule that `parseNoProxy` returns is made of.
use command_relay.Common.{
  ℕ, Bool, true, false, not, ◌||◌, Option, none, some, List, [], ◌∷◌, inl, inr, ◌≡◌, refl, sym,
  subst, arith, Bool-cases, Option-cases, if_none, if_both, ltb, if◌then◌else◌, ◌==◌, nat_eq,
  list_eq, length, All,
}
use mathlib.Core.Option.{some-injective}
use command_relay.Common.Text.{codes}
use command_relay.Common.Units.{includes, trim_units, to_lower, split_units, cut, count}
use command_relay.Proxy.{
  NoProxyRule, Url, any_host, parse_port, unbracket, drop_last_dot, normalize_trimmed,
  normalize_host, with_port, bracketed, unbracketed, split_host_and_port,
}
use command_relay.Proxy.Rules.{
  rule_of, rule_of_parts, parse_host_token, parse_no_proxy_url_token, parse_no_proxy_token,
  push_rule, parse_tokens, parse_no_proxy, has_wildcard, without_wildcard,
}
use command_relay.Proxy.Ports.{parse_port-le}
use command_relay.Proxy.Printing.{InBounds}

abbrev pub IsHost : (host : List ℕ) → Type 0
IsHost host =
    ((length host == 0) ≡ false)
    × (includes (b'/' ∷ []) host ≡ false)
    × (includes (b' ' ∷ []) host ≡ false)

-- A host that is not empty, without a slash or a space, and a port in its bounds.
abbrev pub IsRule : NoProxyRule → Type 0
IsRule rule = IsHost rule.host × InBounds rule.port

or_false : (a b c : Bool) → (a || b || c) ≡ false → (a ≡ false) × (b ≡ false) × (c ≡ false)
or_false a b c h = ground arith

normalize_trimmed-IsHost : (h k : List ℕ) → normalize_trimmed h ≡ some k → IsHost k
normalize_trimmed-IsHost [] k e = cc
normalize_trimmed-IsHost (c ∷ s) k e =
    let host = drop_last_dot (unbracket (c ∷ s)) in
    let (clear, same) =
      if_none (length host == 0 || includes (b'/' ∷ []) host || includes (b' ' ∷ []) host)
        (some host) k e in
    subst IsHost (some-injective host k same) (or_false _ _ _ clear)

normalize_host-IsHost : (h k : List ℕ) → normalize_host h ≡ some k → IsHost k
unfolding normalize_host
normalize_host-IsHost h k e = normalize_trimmed-IsHost (to_lower (trim_units h)) k e

parse_port-InBounds : (token : List ℕ) → InBounds (parse_port token)
parse_port-InBounds token = elim (Option-cases (parse_port token)) [
  | inl bad ↦ subst InBounds (sym bad) tt
  | inr (port, good) ↦ subst InBounds (sym good) (parse_port-le token port good)
]

-- A host and a port that were read, if they were.
abbrev PartsInBounds : Option (List ℕ × Option ℕ) → Type 0
PartsInBounds none = Unit
PartsInBounds (some (host, port)) = InBounds port

with_port-InBounds :
    (host : List ℕ) (port : Option ℕ) → InBounds port → PartsInBounds (with_port host port)
with_port-InBounds host none h = tt
with_port-InBounds host (some port) h = h

bracketed-InBounds : (parts : Option (List ℕ × List ℕ)) → PartsInBounds (bracketed parts)
unfolding bracketed
bracketed-InBounds none = tt
bracketed-InBounds (some (host, [])) = tt
bracketed-InBounds (some (host, c ∷ rest)) = elim (Bool-cases (c == b':')) [
  | inl colon ↦ rw colon (with_port-InBounds host (parse_port rest) (parse_port-InBounds rest))
  | inr other ↦ rw other tt
]

unbracketed-InBounds :
    (token : List ℕ) (parts : Option (List ℕ × List ℕ)) → PartsInBounds (unbracketed token parts)
unfolding unbracketed
unbracketed-InBounds token none = tt
unbracketed-InBounds token (some (host, rest)) = elim (Bool-cases (ltb 1 (count b':' token))) [
  | inl many ↦ rw many tt
  | inr once ↦ rw once (with_port-InBounds host (parse_port rest) (parse_port-InBounds rest))
]

split_host_and_port-InBounds : (token : List ℕ) → PartsInBounds (split_host_and_port token)
unfolding split_host_and_port
split_host_and_port-InBounds [] = tt
split_host_and_port-InBounds (c ∷ s) = elim (Bool-cases (c == b'[')) [
  | inl bracket ↦ rw bracket (bracketed-InBounds (cut b']' s))
  | inr other ↦ rw other (unbracketed-InBounds (c ∷ s) (cut b':' (c ∷ s)))
]

-- A rule that was read, if it was.
abbrev RuleRead : Option NoProxyRule → Type 0
RuleRead none = Unit
RuleRead (some rule) = IsRule rule

rule_of-RuleRead :
    (is_ip : List ℕ → ℕ) (wildcard : Bool) (parts : Option (List ℕ × Option ℕ))
    → PartsInBounds parts
    → RuleRead (rule_of_parts is_ip wildcard parts)
unfolding rule_of_parts rule_of
rule_of-RuleRead is_ip wildcard none h = tt
rule_of-RuleRead is_ip wildcard (some (host, port)) h = elim (Option-cases (normalize_host host)) [
  | inl bad ↦ rw bad tt
  | inr (normal, good) ↦ rw good (normalize_host-IsHost host normal good, h)
]

push_rule-All :
    (read : Option NoProxyRule) (rules : List NoProxyRule)
    → RuleRead read
    → All IsRule rules
    → All IsRule (push_rule read rules)
push_rule-All none rules h k = k
push_rule-All (some rule) rules h k = (h, k)

module _ (parse_url : List ℕ → Option Url) (is_ip : List ℕ → ℕ) where
  parse_host_token-RuleRead : (token : List ℕ) → RuleRead (parse_host_token is_ip token)
  unfolding parse_host_token
  parse_host_token-RuleRead token = elim (Bool-cases (has_wildcard token)) [
    | inl wild ↦
        rw (parse_host_token, wild)
          (rule_of-RuleRead is_ip true _ (split_host_and_port-InBounds (without_wildcard token)))
    | inr named ↦
        rw (parse_host_token, named)
          (rule_of-RuleRead is_ip false _ (split_host_and_port-InBounds token))
  ]

  url_token-InBounds : (token : List ℕ) → PartsInBounds (parse_no_proxy_url_token parse_url token)
  unfolding parse_no_proxy_url_token
  url_token-InBounds token = elim (Option-cases (parse_url token)) [
    | inl bad ↦ rw (parse_no_proxy_url_token, bad) (if_both PartsInBounds _ none none tt tt)
    | inr (url, good) ↦
        rw (parse_no_proxy_url_token, good)
          (if_both PartsInBounds (not (includes (codes "://") token)) none
            (some (url.hostname, parse_port url.port)) tt (parse_port-InBounds url.port))
  ]

  -- The parts of a token that is neither empty nor `*`.
  abbrev parse_parts : (token : List ℕ) → Option NoProxyRule
  parse_parts token = elim (parse_no_proxy_url_token parse_url token) [
    | some parts ↦ rule_of_parts is_ip false (some parts)
    | none ↦ parse_host_token is_ip token
  ]

  parse_no_proxy_token-RuleRead :
      (token : List ℕ) → RuleRead (parse_no_proxy_token parse_url is_ip token)
  unfolding parse_no_proxy_token
  parse_no_proxy_token-RuleRead token =
      let star : IsRule (record { host = any_host; port = none; match_subdomains = false }) =
        ((ground arith, refl, refl), tt) in
      let read : RuleRead (parse_parts token) =
        elim (Option-cases (parse_no_proxy_url_token parse_url token)) [
          | inl none_read ↦ rw (parse_parts, none_read) (parse_host_token-RuleRead token)
          | inr (parts, url_read) ↦
              rw (parse_parts, url_read)
                (rule_of-RuleRead is_ip false (some parts)
                  (subst PartsInBounds url_read (url_token-InBounds token)))
        ] in
      if_both RuleRead (length token == 0) none
        (if token == any_host
          then some (record { host = any_host; port = none; match_subdomains = false })
          else parse_parts token)
        tt (if_both RuleRead (token == any_host) (some _) (parse_parts token) star read)

  parse_tokens-All : (tokens : List (List ℕ)) → All IsRule (parse_tokens parse_url is_ip tokens)
  unfolding parse_tokens
  parse_tokens-All [] = tt
  parse_tokens-All (token ∷ tokens) =
      push_rule-All (parse_no_proxy_token parse_url is_ip (trim_units token))
        (parse_tokens parse_url is_ip tokens) (parse_no_proxy_token-RuleRead (trim_units token))
        (parse_tokens-All tokens)

  -- Every rule that NO_PROXY gives has a host without a slash or a space, which is not empty, and
  -- no port or one from 1 to 65535, whatever its text and whatever the parser of URLs answers.
  pub parse_no_proxy-IsRule : (raw : List ℕ) → All IsRule (parse_no_proxy parse_url is_ip raw)
  unfolding parse_no_proxy
  parse_no_proxy-IsRule raw = elim (Bool-cases (length (trim_units raw) == 0)) [
    | inl blank ↦ rw (parse_no_proxy, blank) tt
    | inr text ↦ rw (parse_no_proxy, text) (parse_tokens-All (split_units b',' raw))
  ]
