-- ===== src/Proxy/Decisions.antt =====
-- packages/proxy-runtime/src/proxy-runtime-controller.ts: the counters add up, and the decision
-- that is shown is the one that was taken.
use command_relay.Common.{
  ℕ, ◌+◌, ◌≤◌, Bool, true, false, Option, none, some, List, [], ◌∷◌, ◌≡◌, refl, sym, subst, ◌∙◌,
  arith, inl, inr, if◌then◌else◌, ◌==◌, ◌⊎◌, nat_eq, list_eq, length,
}
use command_relay.Cache.{BoundedCache, get_entry}
use command_relay.Proxy.{ProxySettings, Url}
use command_relay.Proxy.Routes.{should_bypass_proxy, resolve_proxy_for_url}
use command_relay.Proxy.Agents.{
  Agent, KindResult, made, refused, Factory, Resolution, ResolveResult, resolved, failed, resolve,
  direct_resolution, resolve_with, resolve_agent, use_entry, made_agent, create_proxy_agent,
  cache_key, update_settings, destroy, create_factory,
}
use command_relay.Proxy.Runtime.{
  Controller, Stats, RuntimeCall, RuntimeResult, answered, thrown, proxy_configured, no_proxy_match,
  proxy_not_configured, one_more, record_decision, create_controller, decide, resolve_target,
  replace_settings, reload_from_environment, clear, dispose, resolve_called, settings_replaced,
  environment_reloaded, clear_called, dispose_called, call_runtime, run_runtime,
}

module _ (parse_url : List ℕ → Option Url) where
  -- The answer of a factory: an agent where there is a proxy, an error where none can be made for
  -- it, and neither where there is no proxy; the settings stay.
  abbrev IsAnswer :
      Factory
      → (target : Url) → Factory × ResolveResult × List Agent
      → (chosen : Option (List ℕ)) → Type 0
  IsAnswer f target (next, failed error, disposed) chosen =
      (next.settings ≡ f.settings)
      × ((proxy : List ℕ) × (chosen ≡ some proxy)
          × ((length proxy == 0) ≡ false)
          × (create_proxy_agent parse_url proxy target.protocol ≡ refused error))
  IsAnswer f target (next, resolved r, disposed) chosen =
      (next.settings ≡ f.settings)
      × (((r.via_proxy ≡ false)
            × (r.from_cache ≡ false)
            × (r.proxy_url ≡ none)
            × ((chosen ≡ none) ⊎ (chosen ≡ some [])))
          ⊎ ((r.via_proxy ≡ true)
              × ((proxy : List ℕ) × (chosen ≡ some proxy)
                  × ((length proxy == 0) ≡ false)
                  × (r.proxy_url ≡ some proxy))))

  made_agent-IsAnswer :
      (f : Factory) (target : Url) (cache : BoundedCache (List ℕ) Agent) (key proxy_url : List ℕ)
      (kind : KindResult)
      → ((length proxy_url == 0) ≡ false)
      → create_proxy_agent parse_url proxy_url target.protocol ≡ kind
      → IsAnswer f target (made_agent f cache key proxy_url kind) (some proxy_url)
  unfolding made_agent
  made_agent-IsAnswer f target cache key proxy_url (refused error) long e =
      (refl, (proxy_url, refl, long, e))
  made_agent-IsAnswer f target cache key proxy_url (made kind) long e =
      (refl, inr (refl, (proxy_url, refl, long, refl)))

  use_entry-IsAnswer :
      (f : Factory) (target : Url) (proxy_url : List ℕ)
      (entry : BoundedCache (List ℕ) Agent × Option Agent)
      → ((length proxy_url == 0) ≡ false)
      → IsAnswer f target (use_entry parse_url target proxy_url f entry) (some proxy_url)
  unfolding use_entry
  use_entry-IsAnswer f target proxy_url (cache, none) long =
      made_agent-IsAnswer f target cache (cache_key proxy_url target.protocol) proxy_url
        (create_proxy_agent parse_url proxy_url target.protocol) long refl
  use_entry-IsAnswer f target proxy_url (cache, some agent) long =
      (refl, inr (refl, (proxy_url, refl, long, refl)))

  resolve_with-IsAnswer :
      (f : Factory) (target : Url) (chosen : Option (List ℕ))
      → IsAnswer f target (resolve_with parse_url target chosen f) chosen
  unfolding resolve_with resolve_agent
  resolve_with-IsAnswer f target none = (refl, inl (refl, refl, refl, inl refl))
  resolve_with-IsAnswer f target (some []) = (refl, inl (refl, refl, refl, inr refl))
  resolve_with-IsAnswer f target (some (c ∷ s)) =
      let long : (length (c ∷ s) == 0) ≡ false = ground arith in
      subst
        (λ b.
          IsAnswer f target
            (if b
              then (f, resolved direct_resolution, [])
              else resolve_agent parse_url target (c ∷ s) f)
            (some (c ∷ s)))
        (sym long)
        (use_entry-IsAnswer f target (c ∷ s) (get_entry (cache_key (c ∷ s) target.protocol) f.cache)
          long)

-- The counters add up, and the factory has the controller's settings.
abbrev pub IsConsistent : Controller → Type 0
IsConsistent c =
    (c.stats.resolve_count ≡ c.stats.proxied_count + c.stats.direct_count)
    × (c.stats.no_proxy_bypass_count ≤ c.stats.direct_count)
    × (c.stats.cache_hit_count ≤ c.stats.proxied_count)
    × (c.factory.settings ≡ c.settings)

decision_counts :
    (via hit matched : Bool) (stats : Stats)
    → (via ≡ false → hit ≡ false)
    → stats.resolve_count ≡ stats.proxied_count + stats.direct_count
    → stats.no_proxy_bypass_count ≤ stats.direct_count
    → stats.cache_hit_count ≤ stats.proxied_count
    → (stats.resolve_count + 1
        ≡ one_more via stats.proxied_count
          + (if via then stats.direct_count else stats.direct_count + 1))
      × ((if via then stats.no_proxy_bypass_count else one_more matched stats.no_proxy_bypass_count)
          ≤ (if via then stats.direct_count else stats.direct_count + 1))
      × (one_more hit stats.cache_hit_count ≤ one_more via stats.proxied_count)
decision_counts true true matched stats h a b c = (omega arith, omega arith, omega arith)
decision_counts true false matched stats h a b c = (omega arith, omega arith, omega arith)
decision_counts false true matched stats h a b c = let no = h refl in cc
decision_counts false false true stats h a b c = (omega arith, omega arith, omega arith)
decision_counts false false false stats h a b c = (omega arith, omega arith, omega arith)

record_decision-counts :
    (r : Resolution) (matched : Bool) (stats : Stats)
    → (r.via_proxy ≡ false → r.from_cache ≡ false)
    → stats.resolve_count ≡ stats.proxied_count + stats.direct_count
    → stats.no_proxy_bypass_count ≤ stats.direct_count
    → stats.cache_hit_count ≤ stats.proxied_count
    → let next = record_decision r matched stats in
      (next.resolve_count ≡ next.proxied_count + next.direct_count)
      × (next.no_proxy_bypass_count ≤ next.direct_count)
      × (next.cache_hit_count ≤ next.proxied_count)
unfolding record_decision
record_decision-counts r matched stats h a b c =
    decision_counts r.via_proxy r.from_cache matched stats h a b c

decide-IsConsistent :
    (parse_url : List ℕ → Option Url) (target : Url) (matched : Bool) (c : Controller)
    (answer : Factory × ResolveResult × List Agent) (chosen : Option (List ℕ))
    → IsAnswer parse_url c.factory target answer chosen
    → IsConsistent c
    → IsConsistent (decide target matched answer c).0
unfolding decide
decide-IsConsistent parse_url target matched c (next, failed error, disposed) chosen (kept, why)
      (a, b, d, e) =
    (a, b, d, kept ∙ e)
decide-IsConsistent parse_url target matched c (next, resolved r, disposed) chosen (kept, how)
      (a, b, d, e) =
    let quiet : r.via_proxy ≡ false → r.from_cache ≡ false = λ f. elim how [
      | inl (direct, miss, url, none_set) ↦ miss
      | inr (via, rest) ↦ let no = sym via ∙ f in cc
    ] in
    let (a', b', d') = record_decision-counts r matched c.stats quiet a b d in
    (a', b', d', kept ∙ e)

module _ (parse_url : List ℕ → Option Url) (is_ip : List ℕ → ℕ) where
  call_runtime-IsConsistent :
      (call : RuntimeCall) (c : Controller)
      → IsConsistent c
      → IsConsistent (call_runtime parse_url is_ip call c)
  unfolding call_runtime resolve_target resolve replace_settings reload_from_environment clear
      dispose update_settings destroy
  call_runtime-IsConsistent (resolve_called target) c h =
      decide-IsConsistent parse_url target (should_bypass_proxy target c.settings.no_proxy) c
        (resolve parse_url target c.factory) (resolve_proxy_for_url target c.factory.settings)
        (resolve_with-IsAnswer parse_url c.factory target
          (resolve_proxy_for_url target c.factory.settings))
        h
  call_runtime-IsConsistent (settings_replaced settings) c (a, b, d, e) = (a, b, d, refl)
  call_runtime-IsConsistent (environment_reloaded env) c (a, b, d, e) = (a, b, d, refl)
  call_runtime-IsConsistent clear_called c h = h
  call_runtime-IsConsistent dispose_called c h = h

  run-IsConsistent :
      (calls : List RuntimeCall) (c : Controller)
      → IsConsistent c
      → IsConsistent (run_runtime parse_url is_ip calls c)
  unfolding run_runtime
  run-IsConsistent [] c h = h
  run-IsConsistent (call ∷ calls) c h =
      run-IsConsistent calls (call_runtime parse_url is_ip call c)
        (call_runtime-IsConsistent call c h)

  -- Whatever is called, the counters of a runtime add up: each target that was resolved was
  -- proxied or direct, and bypasses are direct and hits of the cache proxied.
  pub run_runtime-IsConsistent :
      (settings : ProxySettings) (max_entries : ℕ) (calls : List RuntimeCall)
      → IsConsistent (run_runtime parse_url is_ip calls (create_controller settings max_entries))
  unfolding create_controller create_factory
  run_runtime-IsConsistent settings max_entries calls =
      run-IsConsistent calls (create_controller settings max_entries)
        (omega arith, omega arith, omega arith, refl)

  -- The decision that is shown, against the settings.
  abbrev pub IsDecided : (target : Url) → ProxySettings → RuntimeResult → Type 0
  IsDecided target settings (thrown error) =
      (proxy : List ℕ) × (resolve_proxy_for_url target settings ≡ some proxy)
      × ((length proxy == 0) ≡ false)
      × (create_proxy_agent parse_url proxy target.protocol ≡ refused error)
  IsDecided target settings (answered r m) =
      ((m.reason ≡ proxy_configured)
        × (should_bypass_proxy target settings.no_proxy ≡ false)
        × ((proxy : List ℕ) × (resolve_proxy_for_url target settings ≡ some proxy)
            × ((length proxy == 0) ≡ false)
            × (r.proxy_url ≡ some proxy)
            × (m.proxy_url ≡ some proxy)
            × (r.via_proxy ≡ true)))
      ⊎ (((m.reason ≡ no_proxy_match)
            × (should_bypass_proxy target settings.no_proxy ≡ true)
            × (m.proxy_url ≡ none)
            × (r.via_proxy ≡ false))
          ⊎ ((m.reason ≡ proxy_not_configured)
              × (should_bypass_proxy target settings.no_proxy ≡ false)
              × ((resolve_proxy_for_url target settings ≡ none)
                  ⊎ (resolve_proxy_for_url target settings ≡ some []))
              × (m.proxy_url ≡ none)
              × (r.via_proxy ≡ false)))
