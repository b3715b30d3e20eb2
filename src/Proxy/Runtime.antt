-- ===== src/Proxy/Runtime.antt =====
-- packages/proxy-runtime/src/proxy-runtime-controller.ts: the settings, the factory of agents and
-- the counters of a runtime. Copies of settings are the settings here, which nothing changes.
use command_relay.Common.{ℕ, ◌+◌, Bool, true, false, Option, List, [], ◌∷◌, if◌then◌else◌, nat_eq}
use command_relay.Proxy.{ProxySettings, Url}
use command_relay.Proxy.Settings.{ProxyEnvironment, load_proxy_settings}
use command_relay.Proxy.Routes.{should_bypass_proxy}
use command_relay.Proxy.Agents.{
  Agent, AgentError, Factory, Resolution, ResolveResult, resolved, failed, resolve, create_factory,
  destroy, update_settings, agent_eq,
}

pub data DecisionReason : Type 0 where
  proxy_configured no_proxy_match proxy_not_configured : DecisionReason

pub record Metadata : Type 0 where
  pub target : List ℕ
  pub protocol : List ℕ
  pub is_proxy_mode : Bool
  pub reason : DecisionReason
  pub matched_no_proxy : Bool
  pub proxy_url : Option (List ℕ)
  pub via_proxy : Bool
  pub from_cache : Bool

pub record Stats : Type 0 where
  pub resolve_count : ℕ
  pub proxied_count : ℕ
  pub direct_count : ℕ
  pub no_proxy_bypass_count : ℕ
  pub cache_hit_count : ℕ

pub record Controller : Type 0 where
  pub settings : ProxySettings
  pub factory : Factory
  pub disposed : Bool
  pub stats : Stats

abbrev pub one_more : Bool → ℕ → ℕ
one_more true n = n + 1
one_more false n = n

-- `recordDecision`
unfoldable pub record_decision : Resolution → (matched_no_proxy : Bool) → Stats → Stats
record_decision r matched_no_proxy stats = record {
  resolve_count = stats.resolve_count + 1;
  proxied_count = one_more r.via_proxy stats.proxied_count;
  direct_count = if r.via_proxy then stats.direct_count else stats.direct_count + 1;
  no_proxy_bypass_count =
      if r.via_proxy
      then stats.no_proxy_bypass_count
      else one_more matched_no_proxy stats.no_proxy_bypass_count;
  cache_hit_count = one_more r.from_cache stats.cache_hit_count;
}

abbrev pub reason_of : (via_proxy matched_no_proxy : Bool) → DecisionReason
reason_of true matched_no_proxy = proxy_configured
reason_of false true = no_proxy_match
reason_of false false = proxy_not_configured

unfoldable pub metadata_of : Url → Resolution → (matched_no_proxy : Bool) → Metadata
metadata_of target r matched_no_proxy = record {
  target = target.href;
  protocol = target.protocol;
  is_proxy_mode = r.via_proxy;
  reason = reason_of r.via_proxy matched_no_proxy;
  matched_no_proxy = matched_no_proxy;
  proxy_url = r.proxy_url;
  via_proxy = r.via_proxy;
  from_cache = r.from_cache;
}

pub data RuntimeResult : Type 0 where
  answered : Resolution → Metadata → RuntimeResult
  thrown : AgentError → RuntimeResult

unfoldable pub create_controller : ProxySettings → (max_entries : ℕ) → Controller
unfolding create_factory
create_controller settings max_entries = record {
  settings = settings;
  factory = create_factory settings max_entries;
  disposed = false;
  stats = record {
    resolve_count = 0;
    proxied_count = 0;
    direct_count = 0;
    no_proxy_bypass_count = 0;
    cache_hit_count = 0;
  };
}

-- What follows the factory's answer; its error leaves the counters.
unfoldable pub decide :
    (target : Url) (matched_no_proxy : Bool)
    → Factory × ResolveResult × List Agent
    → Controller
    → Controller × RuntimeResult
unfolding record_decision metadata_of
decide target matched_no_proxy (factory, failed error, disposed) c =
    (record c { factory = factory; disposed = false }, thrown error)
decide target matched_no_proxy (factory, resolved r, disposed) c = (
  record c {
    factory = factory;
    disposed = false;
    stats = record_decision r matched_no_proxy c.stats;
  },
  answered r (metadata_of target r matched_no_proxy),
)

module _ (parse_url : List ℕ → Option Url) where
  unfoldable pub resolve_target : (target : Url) → Controller → Controller × RuntimeResult
  unfolding decide resolve
  resolve_target target c =
      decide target (should_bypass_proxy target c.settings.no_proxy)
        (resolve parse_url target c.factory) c

-- `updateSettings`
unfoldable pub replace_settings : ProxySettings → Controller → Controller
unfolding update_settings
replace_settings settings c = record c {
  settings = settings;
  factory = (update_settings settings c.factory).0;
  disposed = false;
}

unfoldable pub reload_from_environment :
    (List ℕ → Option Url) → (List ℕ → ℕ) → ProxyEnvironment → Controller → Controller
unfolding replace_settings load_proxy_settings
reload_from_environment parse_url is_ip env c =
    replace_settings (load_proxy_settings parse_url is_ip env) c

unfoldable pub clear : Controller → Controller
unfolding destroy
clear c = record c { factory = (destroy c.factory).0 }

unfoldable pub dispose : Controller → Controller
unfolding clear
dispose c = record (clear c) { disposed = true }

pub data RuntimeCall : Type 0 where
  resolve_called : Url → RuntimeCall
  settings_replaced : ProxySettings → RuntimeCall
  environment_reloaded : ProxyEnvironment → RuntimeCall
  clear_called dispose_called : RuntimeCall

module _ (parse_url : List ℕ → Option Url) (is_ip : List ℕ → ℕ) where
  unfoldable pub call_runtime : RuntimeCall → Controller → Controller
  unfolding resolve_target replace_settings reload_from_environment clear dispose
  call_runtime (resolve_called target) c = (resolve_target parse_url target c).0
  call_runtime (settings_replaced settings) c = replace_settings settings c
  call_runtime (environment_reloaded env) c = reload_from_environment parse_url is_ip env c
  call_runtime clear_called c = clear c
  call_runtime dispose_called c = dispose c

  unfoldable pub run_runtime : List RuntimeCall → Controller → Controller
  unfolding call_runtime
  run_runtime [] c = c
  run_runtime (call ∷ calls) c = run_runtime calls (call_runtime call c)
