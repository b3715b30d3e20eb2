-- ===== src/Proxy/Reasons.antt =====
-- packages/cli-proxy/src/route-explainer.ts: the decision, the source and the reason that a user
-- reads, against what packages/proxy-core/src/index.ts does with the URL.
use command_relay.Common.{
  ℕ, Bool, true, false, Option, none, some, List, [], ◌∷◌, ◌⊎◌, inl, inr, ◌≡◌, refl, ap, arith,
  Bool-cases, ◌==◌, nat_eq, list_eq, list_beq_iff, is_some, if_none, if◌then◌else◌, length,
}
use mathlib.Core.Option.{some-injective}
use command_relay.Proxy.{NoProxyRule, ProxySettings, Url, normalize_host}
use command_relay.Proxy.Settings.{or_else}
use command_relay.Proxy.Routes.{
  is_plain, is_secure, get_target_port, proxy_for_protocol, should_bypass_proxy,
  resolve_proxy_for_url,
}
use command_relay.Proxy.Explain.{
  ProxySettingSource, from_http_proxy, from_https_proxy, from_all_proxy, RouteDecision, proxied,
  direct, Reason, no_proxy_rule, no_setting_matched, via_setting, holds, source_of,
  resolve_proxy_source, find_matching_no_proxy_rule, format_no_proxy_rule, bypass_reason,
  decide_route, explain_target, explain_one_route,
}
use command_relay.Proxy.Explained.{
  IsUrlPort, IsFirst, find_matching_no_proxy_rule-bypass, find_matching_no_proxy_rule-IsFirst,
}

-- The setting that a source names.
abbrev pub setting_of : ProxySettingSource → ProxySettings → Option (List ℕ)
setting_of from_http_proxy settings = settings.http_proxy
setting_of from_https_proxy settings = settings.https_proxy
setting_of from_all_proxy settings = settings.all_proxy

-- A source that names a setting with this proxy.
abbrev pub IsSource :
    (settings : ProxySettings) (proxy : List ℕ) → Option ProxySettingSource → Type 0
IsSource settings proxy named =
    (source : ProxySettingSource) × (named ≡ some source)
    × (setting_of source settings ≡ some proxy)

holds_found :
    (setting : Option (List ℕ)) (proxy : List ℕ) → holds setting proxy ≡ true → setting ≡ some proxy
holds_found none proxy h = cc
holds_found (some setting) proxy h = ap some ((list_beq_iff setting proxy).0 h)

found_holds :
    (setting : Option (List ℕ)) (proxy : List ℕ) → setting ≡ some proxy → holds setting proxy ≡ true
found_holds none proxy h = cc
found_holds (some setting) proxy h = (list_beq_iff setting proxy).1 (some-injective setting proxy h)

module _ (settings : ProxySettings) (proxy : List ℕ) where
  -- A source is named if its setting holds the proxy, and the rest otherwise.
  step-IsSource :
      (source : ProxySettingSource) (rest : Option ProxySettingSource)
      → (holds (setting_of source settings) proxy ≡ false → IsSource settings proxy rest)
      → IsSource settings proxy
          (if holds (setting_of source settings) proxy then some source else rest)
  step-IsSource source rest later = elim (Bool-cases (holds (setting_of source settings) proxy)) [
    | inl here ↦ rw here (source, refl, holds_found (setting_of source settings) proxy here)
    | inr other ↦ rw other (later other)
  ]

  -- The settings before the one that was chosen may hold the same proxy.
  missing :
      (a b : Option (List ℕ)) → or_else a b ≡ some proxy → holds a proxy ≡ false → b ≡ some proxy
  missing none b h k = h
  missing (some a) b h k = let held = found_holds (some a) proxy h in cc

  from_all :
      settings.all_proxy ≡ some proxy
      → IsSource settings proxy
          (if holds settings.all_proxy proxy then some from_all_proxy else none)
  from_all h =
      step-IsSource from_all_proxy none
        (λ no. let held = found_holds settings.all_proxy proxy h in cc)

  from_http :
      or_else settings.http_proxy settings.all_proxy ≡ some proxy
      → IsSource settings proxy (
          if holds settings.http_proxy proxy
          then some from_http_proxy
          else if holds settings.all_proxy proxy
          then some from_all_proxy
          else none)
  from_http h =
      step-IsSource from_http_proxy _
        (λ no. from_all (missing settings.http_proxy settings.all_proxy h no))

  chosen-IsSource :
      (b c : Bool) (x y z : Option (List ℕ)) (p q r : Option ProxySettingSource)
      → (x ≡ some proxy → IsSource settings proxy p)
      → (y ≡ some proxy → IsSource settings proxy q)
      → (z ≡ some proxy → IsSource settings proxy r)
      → (if b then x else if c then y else z) ≡ some proxy
      → IsSource settings proxy (if b then p else if c then q else r)
  chosen-IsSource true c x y z p q r f g k h = f h
  chosen-IsSource false true x y z p q r f g k h = g h
  chosen-IsSource false false x y z p q r f g k h = k h

  source_of-IsSource :
      (protocol : List ℕ)
      → proxy_for_protocol protocol settings ≡ some proxy
      → IsSource settings proxy (source_of protocol settings proxy)
  source_of-IsSource protocol =
      let secure : or_else settings.https_proxy (or_else settings.http_proxy settings.all_proxy)
            ≡ some proxy
          → IsSource settings proxy _ =
        λ h. step-IsSource from_https_proxy _ (λ no.
          from_http
            (missing settings.https_proxy (or_else settings.http_proxy settings.all_proxy) h no)) in
      chosen-IsSource (is_plain protocol) (is_secure protocol) _ _ _ _ _ _ from_http secure from_all

resolve_proxy_source-IsSource :
    (target : Url) (settings : ProxySettings) (proxy : List ℕ)
    → resolve_proxy_for_url target settings ≡ some proxy
    → ((length proxy == 0) ≡ false)
    → IsSource settings proxy
        (resolve_proxy_source target.protocol settings (resolve_proxy_for_url target settings))
unfolding resolve_proxy_for_url resolve_proxy_source
resolve_proxy_source-IsSource target settings proxy h long =
    let (past, chosen) =
      if_none (should_bypass_proxy target settings.no_proxy)
        (proxy_for_protocol target.protocol settings) proxy h in
    rw (h, resolve_proxy_source, long) (source_of-IsSource settings proxy target.protocol chosen)

-- The first rule that covers the host and the port of a URL.
abbrev pub IsFirstRule : (target : Url) → List NoProxyRule → NoProxyRule → Type 0
IsFirstRule target rules rule =
    (host : List ℕ) × (normalize_host target.hostname ≡ some host)
    × IsFirst host (get_target_port target) rule rules

-- Why a URL is routed the way it is: its rule, its setting, or that it has none.
abbrev pub IsExplained :
    (target : Url) → ProxySettings → RouteDecision → Option ProxySettingSource → Reason → Type 0
IsExplained target settings decision source reason =
    ((should_bypass_proxy target settings.no_proxy ≡ true)
      × (decision ≡ direct)
      × ((rule : NoProxyRule) × IsFirstRule target settings.no_proxy rule
          × (reason ≡ no_proxy_rule (format_no_proxy_rule rule))))
    ⊎ (((proxy : List ℕ) × (resolve_proxy_for_url target settings ≡ some proxy)
          × ((length proxy == 0) ≡ false)
          × (decision ≡ proxied)
          × ((named : ProxySettingSource) × (source ≡ some named)
              × (setting_of named settings ≡ some proxy)
              × (reason ≡ via_setting named proxy)))
        ⊎ ((should_bypass_proxy target settings.no_proxy ≡ false)
            × ((resolve_proxy_for_url target settings ≡ none)
                ⊎ (resolve_proxy_for_url target settings ≡ some []))
            × (decision ≡ direct)
            × (reason ≡ no_setting_matched)))

route-IsExplained :
    (target : Url) (settings : ProxySettings) (bypass : Bool) (found : Option NoProxyRule)
    (chosen : Option (List ℕ)) (source : Option ProxySettingSource)
    → should_bypass_proxy target settings.no_proxy ≡ bypass
    → ((rule : NoProxyRule) → found ≡ some rule → IsFirstRule target settings.no_proxy rule)
    → is_some found ≡ bypass
    → resolve_proxy_for_url target settings ≡ chosen
    → ((proxy : List ℕ)
        → chosen ≡ some proxy
        → ((length proxy == 0) ≡ false)
        → IsSource settings proxy source)
    → let decided = decide_route bypass (if bypass then found else none) chosen source in
      IsExplained target settings decided.0 source decided.1
unfolding bypass_reason
route-IsExplained target settings true none chosen source e f g h k = cc
route-IsExplained target settings true (some rule) chosen source e f g h k =
    inl (e, refl, (rule, f rule refl, refl))
route-IsExplained target settings false found none source e f g h k =
    inr (inr (e, inl h, refl, refl))
route-IsExplained target settings false found (some []) source e f g h k =
    inr (inr (e, inr h, refl, refl))
route-IsExplained target settings false found (some (c ∷ s)) source e f g h k =
    let long : (length (c ∷ s) == 0) ≡ false = ground arith in
    let (named, is_named, held) = k (c ∷ s) refl long in
    rw (is_named, long) (inr (inl (c ∷ s, h, long, refl, (named, refl, held, refl))))

module _ {ℓ} {Agent : Type ℓ} where
  explain_target-IsExplained :
      (input : List ℕ) (settings : ProxySettings) (target : Url) (agent : Option Agent)
      → IsUrlPort target
      → let explained = explain_target input settings target agent in
        IsExplained target settings explained.decision explained.proxy_source explained.reason
  unfolding explain_target
  explain_target-IsExplained input settings target agent port =
      route-IsExplained target settings (should_bypass_proxy target settings.no_proxy)
        (find_matching_no_proxy_rule target settings.no_proxy)
        (resolve_proxy_for_url target settings)
        (resolve_proxy_source target.protocol settings (resolve_proxy_for_url target settings)) refl
        (λ rule found. find_matching_no_proxy_rule-IsFirst target settings.no_proxy rule port found)
        (find_matching_no_proxy_rule-bypass target settings.no_proxy port) refl
        (resolve_proxy_source-IsSource target settings)

  -- Of an input that parses as a URL, whose port is empty or decimal digits: one that bypasses the
  -- proxy is explained by the first rule of NO_PROXY that covers it, so that no rule before does, one that is
  -- proxied by a setting that holds the proxy in use, and any other by having no setting; what is
  -- shown as the proxy is what the resolver of routes answers.
  pub explain_one_route-IsExplained :
      (parse_url : List ℕ → Option Url) (input : List ℕ) (settings : ProxySettings)
      (agent_resolver : Option (Url → Agent)) (target : Url)
      → parse_url input ≡ some target
      → IsUrlPort target
      → let explained = explain_one_route parse_url input settings agent_resolver in
        (explained.proxy_url ≡ resolve_proxy_for_url target settings)
        × IsExplained target settings explained.decision explained.proxy_source explained.reason
  unfolding explain_one_route explain_target
  explain_one_route-IsExplained parse_url input settings agent_resolver target valid port =
      rw (explain_one_route, valid)
        (
          refl,
          explain_target-IsExplained input settings target
              (elim agent_resolver [ none ↦ none | some resolve ↦ some (resolve target) ]) port,
        )
