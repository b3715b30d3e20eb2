-- ===== src/Proxy/Printing.antt =====
-- A rule of NO_PROXY that `formatNoProxyRule` of packages/cli-proxy/src/route-explainer.ts prints,
-- read back by `parseNoProxyToken` of packages/proxy-core/src/index.ts.
use command_relay.Common.{
  ℕ, ◌+◌, ◌≤◌, ◌<◌, Bool, true, false, not, ◌&&◌, ◌||◌, Option, none, some, List, [], ◌∷◌, ◌++◌,
  ◌≡◌, refl, sym, ap, ◌∙◌, arith, inl, inr, Bool-cases, Option-cases, ◌==◌, nat_eq, list_eq,
  list_beq_iff, if_none, append-nil, if◌then◌else◌, length, head?, contains, contains-append,
}
use mathlib.Core.Option.{some-injective}
use command_relay.Common.Text.{codes, is_digit}
use command_relay.Common.Units.{all, trim_units, to_lower, is_at, includes, cut, count, decimal}
use command_relay.Proxy.{
  NoProxyRule, Url, any_host, is_number, checked_host, unbracket, drop_last_dot, normalize_trimmed,
  normalize_host, split_host_and_port,
}
use command_relay.Proxy.Rules.{
  has_wildcard, without_wildcard, should_match_subdomains, parse_no_proxy_url_token, rule_of,
  rule_of_parts, parse_host_token, parse_no_proxy_token,
}
use command_relay.Proxy.Ports.{decimal-digits, parse_port-decimal}
use command_relay.Proxy.Explain.{format_no_proxy_rule}

abbrev pub InBounds : Option ℕ → Type 0
InBounds none = Unit
InBounds (some port) = (0 < port) × (port ≤ 65535)

-- The printed port.
abbrev port_text : Option ℕ → List ℕ
port_text none = []
port_text (some port) = b':' ∷ decimal port

number-contains :
    (d : ℕ) (s : List ℕ) → is_digit d ≡ false → all is_digit s ≡ true → contains d s ≡ false
number-contains d [] n h = refl
number-contains d (c ∷ s) n h = ground (arith, number-contains d s)

is_number-contains :
    (d : ℕ) (s : List ℕ) → is_digit d ≡ false → is_number s ≡ true → contains d s ≡ false
is_number-contains d [] n h = refl
is_number-contains d (c ∷ s) n h = number-contains d (c ∷ s) n h

contains-count : (d : ℕ) (s : List ℕ) → contains d s ≡ false → count d s ≡ 0
contains-count d [] h = refl
contains-count d (c ∷ s) h = ground (arith, contains-count d s)

-- Text without a colon, cut at the colon after it.
cut-append : (d : ℕ) (s t : List ℕ) → contains d s ≡ false → cut d (s ++ d ∷ t) ≡ some (s, t)
cut-append d [] t h = ground arith
cut-append d (c ∷ s) t h = let rest = cut-append d s t (ground arith) in ground arith

cut-none : (d : ℕ) (s : List ℕ) → contains d s ≡ false → cut d s ≡ none
cut-none d [] h = refl
cut-none d (c ∷ s) h = let rest = cut-none d s (ground arith) in ground arith

count-append : (d : ℕ) (s t : List ℕ) → count d (s ++ t) ≡ count d s + count d t
count-append d [] t = omega arith
count-append d (c ∷ s) t = ground (arith, count-append d s t)

includes-contains : (c : ℕ) (s : List ℕ) → includes (c ∷ []) s ≡ false → contains c s ≡ false
includes-contains c [] h = refl
includes-contains c (d ∷ s) h = ground (arith, includes-contains c s)

-- Text without a slash holds no `://`.
no_slash : (s : List ℕ) → contains b'/' s ≡ false → includes (codes "://") s ≡ false
no_slash [] h = refl
no_slash (c ∷ []) h = ground arith
no_slash (c ∷ d ∷ s) h = let rest = no_slash (d ∷ s) (ground arith) in ground arith

-- What a rule must have for its text to name it: a host as `normalizeHost` leaves it, without a
-- colon, with no bracket before it and, where it names one host, no wildcard; subdomains that the
-- host allows; and a port in its bounds.
abbrev pub IsPrintable : (is_ip : List ℕ → ℕ) → NoProxyRule → Type 0
IsPrintable is_ip rule =
    (normalize_host rule.host ≡ some rule.host)
    × (contains b':' rule.host ≡ false)
    × (is_at (head? rule.host) b'[' ≡ false)
    × ((rule.match_subdomains || not (has_wildcard rule.host)) ≡ true)
    × (should_match_subdomains is_ip rule.host rule.match_subdomains ≡ rule.match_subdomains)
    × InBounds rule.port

checked_host-slash : (h k : List ℕ) → checked_host h ≡ some k → contains b'/' k ≡ false
checked_host-slash h k e =
    let (clear, same) =
      if_none (length h == 0 || includes (b'/' ∷ []) h || includes (b' ' ∷ []) h) (some h) k e in
    let no_slash_here = includes-contains b'/' h (ground arith) in
    ground (arith, some-injective h k same)

normalize_trimmed-slash : (h k : List ℕ) → normalize_trimmed h ≡ some k → contains b'/' k ≡ false
normalize_trimmed-slash [] k e = cc
normalize_trimmed-slash (c ∷ s) k e = checked_host-slash (drop_last_dot (unbracket (c ∷ s))) k e

normalize_host-slash : (h k : List ℕ) → normalize_host h ≡ some k → contains b'/' k ≡ false
unfolding normalize_host
normalize_host-slash h k e = normalize_trimmed-slash (to_lower (trim_units h)) k e

normalize_nothing : normalize_host [] ≡ none
unfolding normalize_host
normalize_nothing = refl

split-port_text :
    (c : ℕ) (h : List ℕ) (port : Option ℕ)
    → contains b':' (c ∷ h) ≡ false
    → (c == b'[') ≡ false
    → InBounds port
    → split_host_and_port (c ∷ h ++ port_text port) ≡ some (c ∷ h, port)
unfolding split_host_and_port
split-port_text c h none e b k =
    let whole = append-nil h in let uncut = cut-none b':' (c ∷ h) e in rw (b, whole, uncut) refl
split-port_text c h (some port) e b (low, high) =
    let parts = cut-append b':' (c ∷ h) (decimal port) e in
    let digits = is_number-contains b':' (decimal port) refl (decimal-digits port) in
    let before = contains-count b':' (c ∷ h) e in
    let after = contains-count b':' (decimal port) digits in
    let sum = count-append b':' (c ∷ h) (b':' ∷ decimal port) in
    let once : count b':' (c ∷ h ++ b':' ∷ decimal port) ≡ 1 = sum ∙ omega (arith, before, after) in
    let read = parse_port-decimal port low high in rw (b, parts, once, read) refl

-- The text of a rule without its wildcard, read as a host and a port.
named_host :
    (is_ip : List ℕ → ℕ) (wildcard : Bool) (host : List ℕ) (port : Option ℕ)
    → normalize_host host ≡ some host
    → contains b':' host ≡ false
    → is_at (head? host) b'[' ≡ false
    → InBounds port
    → rule_of_parts is_ip wildcard (split_host_and_port (host ++ port_text port))
      ≡ some (record {
        host = host;
        port = port;
        match_subdomains = should_match_subdomains is_ip host wildcard;
      })
unfolding rule_of_parts rule_of
named_host is_ip wildcard [] port normal colon bracket bounds =
    let no : none ≡ some [] = sym normalize_nothing ∙ normal in cc
named_host is_ip wildcard (c ∷ h) port normal colon bracket bounds =
    let parts = split-port_text c h port colon bracket bounds in
    ap (rule_of_parts is_ip wildcard) parts ∙ ap (rule_of is_ip wildcard port) normal

format_text : (rule : NoProxyRule) → List ℕ
format_text rule =
    (if rule.match_subdomains && not (rule.host == any_host)
      then codes "*." ++ rule.host
      else rule.host)
    ++ port_text rule.port

format-text : (rule : NoProxyRule) → format_no_proxy_rule rule ≡ format_text rule
unfolding format_no_proxy_rule format_text
format-text rule = elim (Option-cases rule.port) [
  | inl bare ↦ rw (bare, format_no_proxy_rule) (sym (append-nil _))
  | inr (port, ported) ↦ rw (ported, format_no_proxy_rule) refl
]

-- A token that is no URL and not `*`.
host_token :
    (parse_url : List ℕ → Option Url) (is_ip : List ℕ → ℕ) (c : ℕ) (token : List ℕ)
    → contains b'/' (c ∷ token) ≡ false
    → ((c ∷ token) == any_host) ≡ false
    → parse_no_proxy_token parse_url is_ip (c ∷ token) ≡ parse_host_token is_ip (c ∷ token)
unfolding parse_no_proxy_token parse_no_proxy_url_token
host_token parse_url is_ip c token slash other =
    let no_url : parse_no_proxy_url_token parse_url (c ∷ token) ≡ none =
      rw (parse_no_proxy_url_token, no_slash (c ∷ token) slash) refl in
    let some_text : (length (c ∷ token) == 0) ≡ false = ground arith in
    rw (parse_no_proxy_token, some_text, other, no_url) refl

not-true : (b : Bool) → not b ≡ true → b ≡ false
not-true true h = cc
not-true false h = refl

port_text-slash :
    (host : List ℕ) (port : Option ℕ)
    → contains b'/' host ≡ false
    → contains b'/' (host ++ port_text port) ≡ false
port_text-slash host none slash = rw (append-nil host) slash
port_text-slash host (some port) slash =
    let digits = is_number-contains b'/' (decimal port) refl (decimal-digits port) in
    let both = contains-append b'/' host (b':' ∷ decimal port) in
    ground (arith, both, digits, slash)

named_wildcard :
    (c : ℕ) (host : List ℕ) (port : Option ℕ)
    → has_wildcard (c ∷ host) ≡ false
    → has_wildcard (c ∷ host ++ port_text port) ≡ false
named_wildcard c [] none wild = wild
named_wildcard c [] (some port) wild = ground arith
named_wildcard c (d ∷ host) port wild = ground arith

-- `*` is the one text that is read before its port.
star_token :
    (c : ℕ) (host : List ℕ) (port : Option ℕ)
    → ((c ∷ host ++ port_text port) == any_host) ≡ true
    → (c ∷ host ≡ any_host) × (port ≡ none)
star_token c [] none h = ((list_beq_iff (c ∷ []) any_host).0 h, refl)
star_token c [] (some port) h = ground arith
star_token c (d ∷ host) port h = ground arith

module _ (parse_url : List ℕ → Option Url) (is_ip : List ℕ → ℕ) where
  wildcard_read :
      (host : List ℕ) (port : Option ℕ)
      → IsPrintable is_ip (record { host = host; port = port; match_subdomains = true })
      → parse_no_proxy_token parse_url is_ip (codes "*." ++ host ++ port_text port)
        ≡ some (record { host = host; port = port; match_subdomains = true })
  unfolding parse_host_token
  wildcard_read host port (normal, colon, bracket, wild, same, bounds) =
      let slash = port_text-slash host port (normalize_host-slash host host normal) in
      host_token parse_url is_ip b'*' (b'.' ∷ host ++ port_text port) slash refl
      ∙ named_host is_ip true host port normal colon bracket bounds
      ∙ ap (λ b. some (record { host = host; port = port; match_subdomains = b })) same

  star_read :
      (host : List ℕ) (port : Option ℕ)
      → host ≡ any_host
      → port ≡ none
      → parse_no_proxy_token parse_url is_ip (host ++ port_text port)
        ≡ some (record { host = host; port = port; match_subdomains = false })
  unfolding parse_no_proxy_token
  star_read host port whole bare = rw (whole, bare) refl

  named_read :
      (host : List ℕ) (port : Option ℕ)
      → IsPrintable is_ip (record { host = host; port = port; match_subdomains = false })
      → parse_no_proxy_token parse_url is_ip (host ++ port_text port)
        ≡ some (record { host = host; port = port; match_subdomains = false })
  unfolding parse_host_token parse_no_proxy_token
  named_read [] port (normal, colon, bracket, wild, same, bounds) =
      let no : none ≡ some [] = sym normalize_nothing ∙ normal in cc
  named_read (c ∷ h) port (normal, colon, bracket, wild, same, bounds) =
      elim (Bool-cases ((c ∷ h ++ port_text port) == any_host)) [
        | inl star ↦
            let (whole, bare) = star_token c h port star in star_read (c ∷ h) port whole bare
        | inr other ↦
            let slash =
              port_text-slash (c ∷ h) port (normalize_host-slash (c ∷ h) (c ∷ h) normal) in
            let plain = named_wildcard c h port (not-true (has_wildcard (c ∷ h)) wild) in
            host_token parse_url is_ip c (h ++ port_text port) slash other
            ∙ ap
                (λ b.
                  if b
                  then rule_of_parts is_ip true
                      (split_host_and_port (without_wildcard (c ∷ h ++ port_text port)))
                  else rule_of_parts is_ip false (split_host_and_port (c ∷ h ++ port_text port)))
                plain
            ∙ named_host is_ip false (c ∷ h) port normal colon bracket bounds
            ∙ ap (λ b. some (record { host = c ∷ h; port = port; match_subdomains = b })) same
      ]

  no_star :
      (host : List ℕ) → should_match_subdomains is_ip host true ≡ true → (host == any_host) ≡ false
  unfolding should_match_subdomains
  no_star host h = ground arith

  read_back :
      (host : List ℕ) (port : Option ℕ) (wildcard : Bool)
      → let rule : NoProxyRule = record { host = host; port = port; match_subdomains = wildcard } in
        IsPrintable is_ip rule → parse_no_proxy_token parse_url is_ip (format_text rule) ≡ some rule
  unfolding format_text
  read_back host port true printable =
      let (normal, colon, bracket, wild, same, bounds) = printable in
      rw (no_star host same) (wildcard_read host port printable)
  read_back host port false printable = named_read host port printable

  -- A printed rule is read back, whatever the parser of URLs does, where its host is one that
  -- `normalizeHost` leaves alone, without a colon, without a bracket at its start and, unless the
  -- rule is for subdomains, without a wildcard; where the rule is for subdomains as its host
  -- allows; and where its port, if any, is one from 1 to 65535. A host with a colon, such as an
  -- IPv6 address, is left out: its rule is printed without brackets.
  pub parse_no_proxy_token-format :
      (rule : NoProxyRule)
      → IsPrintable is_ip rule
      → parse_no_proxy_token parse_url is_ip (format_no_proxy_rule rule) ≡ some rule
  parse_no_proxy_token-format rule printable =
      ap (parse_no_proxy_token parse_url is_ip) (format-text rule)
      ∙ read_back rule.host rule.port rule.match_subdomains printable
