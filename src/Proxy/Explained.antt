-- ===== src/Proxy/Explained.antt =====
-- packages/cli-proxy/src/route-explainer.ts against packages/proxy-core/src/index.ts: the
-- explanation of a route is that of the proxy that is used.
use command_relay.Common.{
  ℕ, true, false, none, some, List, [], ◌∷◌, ◌++◌, pos, inl, inr, ◌≡◌, refl, sym, ap, subst, ◌∙◌,
  arith, Bool-cases, Option-cases, ◌==◌, nat_eq, list_eq, is_some, if◌then◌else◌, length,
}
use mathlib.Core.Option.{some-injective}
use command_relay.Common.Text.{is_digit, is_space}
use command_relay.Common.Units.{all, number_from, trim_left, parse_int}
use command_relay.Proxy.{
  NoProxyRule, Url, checked_port, parse_port, normalize_host, is_subdomain_of, matches_rule_host,
}
use command_relay.Proxy.Routes.{
  default_port, port_or, get_target_port, bypasses, should_bypass_proxy,
}
use command_relay.Proxy.Matching.{Covers, AnyCovers, covers, covers_iff}
use command_relay.Proxy.Explain.{
  explained_matches, port_in_bounds, get_port, first_match, find_matching_no_proxy_rule,
}

-- The port of a parsed URL is empty or decimal digits, as the standard of URLs says.
abbrev pub IsUrlPort : Url → Type 0
IsUrlPort target = all is_digit target.port ≡ true

digit_is_no_space : (c : ℕ) → is_digit c ≡ true → is_space c ≡ false
unfolding is_space
digit_is_no_space c h = ground arith

parse_int-digits :
    (c : ℕ) (s : List ℕ)
    → is_digit c ≡ true
    → parse_int (c ∷ s) ≡ some (pos (number_from 0 (c ∷ s)))
unfolding parse_int trim_left
parse_int-digits c s h = let solid = digit_is_no_space c h in ground arith

port_in_bounds-checked :
    (default n : ℕ) → port_in_bounds default (some (pos n)) ≡ port_or default (checked_port n)
port_in_bounds-checked default n = ground arith

port-same :
    (default : ℕ) (p : List ℕ)
    → all is_digit p ≡ true
    → (if length p == 0 then default else port_in_bounds default (parse_int p))
      ≡ port_or default (parse_port p)
unfolding parse_port
port-same default [] h = refl
port-same default (c ∷ s) h =
    let int = parse_int-digits c s (ground arith) in
    let full : (length (c ∷ s) == 0) ≡ false = ground arith in
    rw (full, int, parse_port, h) (port_in_bounds-checked default (number_from 0 (c ∷ s)))

get_port-target : (target : Url) → IsUrlPort target → get_port target ≡ get_target_port target
unfolding get_port get_target_port
get_port-target target h = port-same (default_port target.protocol) target.port h

explained_matches-same :
    (host : List ℕ) (rule : NoProxyRule) → explained_matches host rule ≡ matches_rule_host host rule
unfolding explained_matches matches_rule_host is_subdomain_of
explained_matches-same host rule = ground arith

first_match-covers :
    (host : List ℕ) (port : ℕ) (rule : NoProxyRule) (rules : List NoProxyRule)
    → first_match host port (rule ∷ rules)
      ≡ (if covers host port rule then some rule else first_match host port rules)
unfolding first_match
first_match-covers host port rule rules = ground (arith, explained_matches-same host rule)

first_match-bypasses :
    (host : List ℕ) (port : ℕ) (rules : List NoProxyRule)
    → is_some (first_match host port rules) ≡ bypasses host port rules
unfolding first_match bypasses
first_match-bypasses host port [] = refl
first_match-bypasses host port (rule ∷ rules) =
    ground (arith, explained_matches-same host rule, first_match-bypasses host port rules)

-- The explainer finds a rule exactly when the URL bypasses the proxy, though it reads the port
-- with `Number.parseInt` and compares hosts with code of its own.
pub find_matching_no_proxy_rule-bypass :
    (target : Url) (rules : List NoProxyRule)
    → IsUrlPort target
    → is_some (find_matching_no_proxy_rule target rules) ≡ should_bypass_proxy target rules
unfolding find_matching_no_proxy_rule should_bypass_proxy
find_matching_no_proxy_rule-bypass target [] h =
    elim (Option-cases (normalize_host target.hostname)) [
      | inl bad ↦ rw (find_matching_no_proxy_rule, bad) refl
      | inr (host, good) ↦ rw (find_matching_no_proxy_rule, good) refl
    ]
find_matching_no_proxy_rule-bypass target (rule ∷ rules) h =
    elim (Option-cases (normalize_host target.hostname)) [
      | inl bad ↦ rw (find_matching_no_proxy_rule, should_bypass_proxy, bad) refl
      | inr (host, good) ↦
          rw (find_matching_no_proxy_rule, should_bypass_proxy, good)
            (ap (λ p. is_some (first_match host p (rule ∷ rules))) (get_port-target target h)
              ∙ first_match-bypasses host (get_target_port target) (rule ∷ rules))
    ]

-- The rule covers the URL, and no rule before it does.
abbrev pub IsFirst : (host : List ℕ) (port : ℕ) → NoProxyRule → List NoProxyRule → Type 0
IsFirst host port found rules =
    (before : List NoProxyRule) × (after : List NoProxyRule) × (rules ≡ before ++ found ∷ after)
    × (AnyCovers host port before → ⊥)
    × Covers host port found

no_covers :
    (host : List ℕ) (port : ℕ) (rule : NoProxyRule)
    → covers host port rule ≡ false
    → Covers host port rule
    → ⊥
no_covers host port rule h c = let held = (covers_iff host port rule).1 c in cc

first_match-IsFirst :
    (host : List ℕ) (port : ℕ) (rules : List NoProxyRule) (found : NoProxyRule)
    → first_match host port rules ≡ some found
    → IsFirst host port found rules
unfolding first_match
first_match-IsFirst host port [] found h = cc
first_match-IsFirst host port (rule ∷ rules) found h =
    let step = first_match-covers host port rule rules in
    elim (Bool-cases (covers host port rule)) [
      | inl here ↦
          let same : some rule ≡ some found =
            sym (ap (λ b. if b then some rule else first_match host port rules) here)
            ∙ sym step
            ∙ h in
          let equal = some-injective rule found same in
          (
            [],
            rules,
            ap (λ r. r ∷ rules) equal,
            λ none_before. none_before,
            subst (Covers host port) equal ((covers_iff host port rule).0 here),
          )
      | inr later ↦
          let rest : first_match host port rules ≡ some found =
            sym (ap (λ b. if b then some rule else first_match host port rules) later)
            ∙ sym step
            ∙ h in
          let (before, after, cut, clear, covered) =
            first_match-IsFirst host port rules found rest in
          (
            rule ∷ before,
            after,
            ap (λ rs. rule ∷ rs) cut,
            λ c. elim c [
              | inl first ↦ no_covers host port rule later first
              | inr more ↦ clear more
            ],
            covered,
          )
    ]

-- The rule that is named as the reason covers the URL, and it is the first one of the list to.
pub find_matching_no_proxy_rule-IsFirst :
    (target : Url) (rules : List NoProxyRule) (found : NoProxyRule)
    → IsUrlPort target
    → find_matching_no_proxy_rule target rules ≡ some found
    → (host : List ℕ) × (normalize_host target.hostname ≡ some host)
      × IsFirst host (get_target_port target) found rules
unfolding find_matching_no_proxy_rule
find_matching_no_proxy_rule-IsFirst target rules found h e =
    elim (Option-cases (normalize_host target.hostname)) [
      | inl bad ↦
          let empty : find_matching_no_proxy_rule target rules ≡ none =
            rw (find_matching_no_proxy_rule, bad) refl in
          cc
      | inr (host, good) ↦
          let same : find_matching_no_proxy_rule target rules
              ≡ first_match host (get_port target) rules =
            rw (find_matching_no_proxy_rule, good) refl in
          let moved = ap (λ p. first_match host p rules) (get_port-target target h) in
          (
            host,
            good,
            first_match-IsFirst host (get_target_port target) rules found (sym (same ∙ moved) ∙ e),
          )
    ]
