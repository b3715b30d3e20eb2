-- ===== src/Proxy/Matching.antt =====
-- packages/proxy-core/src/index.ts: which URLs the rules of NO_PROXY let past the proxy.
use command_relay.Common.{
  ℕ, zero, suc, ◌+◌, ◌-◌, Bool, true, false, Option, none, some, List, [], ◌∷◌, ◌++◌, ◌⊎◌, inl, inr,
  ◌↔◌, ◌≡◌, refl, sym, ap, subst, ◌∙◌, arith, Bool-cases, Option-cases, ◌==◌, nat_eq, list_eq,
  list_beq_iff, ◌&&◌, ◌||◌, or_iff, and_iff, length, length-append, head?,
}
use mathlib.Core.Option.{some-injective}
use command_relay.Common.Units.{is_at, drop}
use command_relay.Proxy.{
  NoProxyRule, Url, any_host, normalize_host, is_subdomain_of, matches_rule_host,
}
use command_relay.Proxy.Routes.{bypasses, covers_port, get_target_port, should_bypass_proxy}

-- The host is the parent with labels and a dot before it.
abbrev pub IsSubdomain : (host parent : List ℕ) → Type 0
IsSubdomain host parent = (labels : List ℕ) × (host ≡ labels ++ b'.' ∷ parent)

abbrev pub Covers : (host : List ℕ) (port : ℕ) → NoProxyRule → Type 0
Covers host port rule =
    (rule.host ≡ any_host)
    ⊎ (((host ≡ rule.host) ⊎ ((rule.match_subdomains ≡ true) × IsSubdomain host rule.host))
        × ((rule.port ≡ none) ⊎ (rule.port ≡ some port)))

abbrev pub AnyCovers : (host : List ℕ) (port : ℕ) → List NoProxyRule → Type 0
AnyCovers host port [] = ⊥
AnyCovers host port (rule ∷ rules) = Covers host port rule ⊎ AnyCovers host port rules

drop-joined : (n : ℕ) (s : List ℕ) → (before : List ℕ) × (s ≡ before ++ drop n s)
drop-joined zero s = ([], refl)
drop-joined (suc n) [] = ([], refl)
drop-joined (suc n) (c ∷ s) = let (before, e) = drop-joined n s in (c ∷ before, ap (λ t. c ∷ t) e)

drop-head? :
    (n d : ℕ) (s : List ℕ) → is_at (head? (drop n s)) d ≡ true → drop n s ≡ d ∷ drop (suc n) s
drop-head? zero d [] h = cc
drop-head? zero d (c ∷ s) h = ground arith
drop-head? (suc n) d [] h = cc
drop-head? (suc n) d (c ∷ s) h = drop-head? n d s h

drop-append : (s t : List ℕ) → drop (length s) (s ++ t) ≡ t
drop-append [] t = refl
drop-append (c ∷ s) t = drop-append s t

IsSubdomain-found :
    (host parent : List ℕ) → is_subdomain_of host parent ≡ true → IsSubdomain host parent
unfolding is_subdomain_of
IsSubdomain-found host parent h =
    let n = length host - length parent - 1 in
    let (labels, e) = drop-joined n host in
    let dotted = drop-head? n b'.' host (ground arith) in
    let same : suc n ≡ length host - length parent = ground arith in
    let rest : drop (suc n) host ≡ parent =
      ap (λ k. drop k host) same ∙ (list_beq_iff _ parent).0 (ground arith) in
    (labels, e ∙ ap (λ t. labels ++ t) (dotted ∙ ap (λ t. b'.' ∷ t) rest))

drop_past : (s : List ℕ) (c : ℕ) (t : List ℕ) → drop (suc (length s)) (s ++ c ∷ t) ≡ t
drop_past [] c t = refl
drop_past (d ∷ s) c t = drop_past s c t

subdomain_holds : (labels parent : List ℕ) → is_subdomain_of (labels ++ b'.' ∷ parent) parent ≡ true
unfolding is_subdomain_of
subdomain_holds labels parent =
    let host = labels ++ b'.' ∷ parent in
    let long : length host ≡ length labels + suc (length parent) =
      length-append labels (b'.' ∷ parent) in
    let whole : length host - length parent ≡ suc (length labels) = omega arith in
    let before : length host - length parent - 1 ≡ length labels = omega arith in
    let rest : drop (length host - length parent) host ≡ parent =
      ap (λ k. drop k host) whole ∙ drop_past labels b'.' parent in
    let dotted : drop (length host - length parent - 1) host ≡ b'.' ∷ parent =
      ap (λ k. drop k host) before ∙ drop-append labels (b'.' ∷ parent) in
    let same = (list_beq_iff (drop (length host - length parent) host) parent).1 rest in
    let dot : is_at (head? (drop (length host - length parent - 1) host)) b'.' ≡ true =
      ap (λ t. is_at (head? t) b'.') dotted in
    ground (arith, long)

matches_rule_host_iff :
    (host : List ℕ) (rule : NoProxyRule)
    → (matches_rule_host host rule ≡ true)
      ↔ ((host ≡ rule.host) ⊎ ((rule.match_subdomains ≡ true) × IsSubdomain host rule.host))
unfolding matches_rule_host
matches_rule_host_iff host rule = (
  λ h. elim (Bool-cases (host == rule.host)) [
    | inl e ↦ inl ((list_beq_iff host rule.host).0 e)
    | inr other ↦ inr (ground arith, IsSubdomain-found host rule.host (ground arith))
  ],
  λ h. elim h [
    | inl e ↦ let same = (list_beq_iff host rule.host).1 e in ground arith
    | inr (on, (labels, e)) ↦
        let sub : is_subdomain_of host rule.host ≡ true =
          subst (λ t. is_subdomain_of t rule.host ≡ true) (sym e)
            (subdomain_holds labels rule.host) in
        ground arith
  ],
)

covers_port_iff :
    (port : ℕ) (o : Option ℕ) → (covers_port port o ≡ true) ↔ ((o ≡ none) ⊎ (o ≡ some port))
covers_port_iff port none = (λ h. inl refl, λ h. refl)
covers_port_iff port (some p) = (
  λ h. inr (ap some ((nat_eq.equals_iff p port).0 h)),
  λ h. elim h [ inl e ↦ cc | inr e ↦ (nat_eq.equals_iff p port).1 (some-injective p port e) ],
)

-- One rule of the loop.
abbrev pub covers : (host : List ℕ) (port : ℕ) → NoProxyRule → Bool
covers host port rule =
    rule.host == any_host || (matches_rule_host host rule && covers_port port rule.port)

pub covers_iff :
    (host : List ℕ) (port : ℕ) (rule : NoProxyRule)
    → (covers host port rule ≡ true) ↔ Covers host port rule
covers_iff host port rule =
    or_iff (rule.host == any_host) (matches_rule_host host rule && covers_port port rule.port)
      (list_beq_iff rule.host any_host)
      (and_iff (matches_rule_host host rule) (covers_port port rule.port)
        (matches_rule_host_iff host rule) (covers_port_iff port rule.port))

bypasses-covers :
    (host : List ℕ) (port : ℕ) (rule : NoProxyRule) (rules : List NoProxyRule)
    → bypasses host port (rule ∷ rules) ≡ (covers host port rule || bypasses host port rules)
unfolding bypasses
bypasses-covers host port rule rules = ground arith

bypasses_iff :
    (host : List ℕ) (port : ℕ) (rules : List NoProxyRule)
    → (bypasses host port rules ≡ true) ↔ AnyCovers host port rules
unfolding bypasses
bypasses_iff host port [] = (λ h. cc, λ h. elim h [ ])
bypasses_iff host port (rule ∷ rules) =
    let step = bypasses-covers host port rule rules in
    let both =
      or_iff (covers host port rule) (bypasses host port rules) (covers_iff host port rule)
        (bypasses_iff host port rules) in
    (λ h. both.0 (sym step ∙ h), λ h. step ∙ both.1 h)

should_bypass_proxy-bypasses :
    (target : Url) (rule : NoProxyRule) (rules : List NoProxyRule)
    → (normalize_host target.hostname ≡ none → should_bypass_proxy target (rule ∷ rules) ≡ false)
      × ((host : List ℕ)
          → normalize_host target.hostname ≡ some host
          → should_bypass_proxy target (rule ∷ rules)
            ≡ bypasses host (get_target_port target) (rule ∷ rules))
unfolding should_bypass_proxy
should_bypass_proxy-bypasses target rule rules =
    (λ bad. rw (bad, should_bypass_proxy) refl, λ host good. rw (good, should_bypass_proxy) refl)

-- A URL bypasses the proxy exactly when its host is a host and some rule covers it: the rule is
-- `*`, or it names the host or, where it asks for subdomains, a parent of it up to a dot, and it
-- has no port or that of the URL.
pub should_bypass_proxy_iff :
    (target : Url) (rules : List NoProxyRule)
    → (should_bypass_proxy target rules ≡ true) ↔ (
        (host : List ℕ) × (normalize_host target.hostname ≡ some host)
        × AnyCovers host (get_target_port target) rules)
unfolding should_bypass_proxy
should_bypass_proxy_iff target [] = (λ h. cc, λ (host, e, h). elim h [ ])
should_bypass_proxy_iff target (rule ∷ rules) =
    let step = should_bypass_proxy-bypasses target rule rules in
    let port = get_target_port target in
    elim (Option-cases (normalize_host target.hostname)) [
      | inl bad ↦ (
        λ h. let no = step.0 bad in cc,
        λ (host, e, h). let no : none ≡ some host = sym bad ∙ e in cc,
      )
      | inr (host, good) ↦
          let same = step.1 host good in
          let loop = bypasses_iff host port (rule ∷ rules) in
          (
            λ h. (host, good, loop.0 (sym same ∙ h)),
            λ (other, e, h).
                let equal = some-injective host other (sym good ∙ e) in
                same ∙ loop.1 (subst (λ t. AnyCovers t port (rule ∷ rules)) (sym equal) h),
          )
    ]
