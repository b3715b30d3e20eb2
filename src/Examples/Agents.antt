-- ===== src/Examples/Agents.antt =====
-- Concrete runs of packages/proxy-agent/src/proxy-agent-factory.ts and
-- packages/proxy-runtime/src/proxy-runtime-controller.ts.
use command_relay.Common.{
  ℕ, true, Option, none, some, List, [], ◌∷◌, ◌≡◌, refl, ◌==◌, list_eq, if◌then◌else◌, nat_eq,
}
use command_relay.Common.Text.{codes}
use command_relay.Cache.{keep_newest}
use command_relay.Proxy.{ProxySettings, Url}
use command_relay.Proxy.Agents.{https_agent, resolved, resolve, create_factory}
use command_relay.Proxy.Made.{Call, resolve_called, call_factories, IsFitting, resolve-IsFitting}
use command_relay.Proxy.Runtime.{RuntimeCall}
use command_relay.Proxy.Runtime

abbrev proxy_text : List ℕ
proxy_text = codes "http://p/"

abbrev one_proxy : List ℕ → Option Url
one_proxy text =
    if text == proxy_text
    then some
        (record { protocol = codes "http:"; hostname = codes "p"; port = []; href = proxy_text })
    else none

abbrev site : List ℕ → Url
site protocol = record { protocol = protocol; hostname = codes "a"; port = []; href = codes "x" }

abbrev one_setting : ProxySettings
one_setting = record {
  http_proxy = none;
  https_proxy = none;
  all_proxy = some proxy_text;
  no_proxy = [];
}

abbrev earlier : List Call
earlier = resolve_called (site (codes "http:")) ∷ resolve_called (site (codes "wss:")) ∷ []

-- The agents of `http:` and `wss:` are kept apart.
reused :
    (resolve one_proxy
      (site (codes "wss:"))
      (call_factories one_proxy earlier (create_factory one_setting 8))).1
    ≡ resolved (record {
      agent = some (record { identity = 1; kind = https_agent; proxy_url = proxy_text });
      proxy_url = some proxy_text;
      via_proxy = true;
      from_cache = true;
    })
unfolding resolve call_factories create_factory keep_newest
reused = refl

resolve-IsFitting_example :
    let f = call_factories one_proxy earlier (create_factory one_setting 8) in
    IsFitting one_proxy
      (site (codes "wss:"))
      f.settings
      (resolve one_proxy (site (codes "wss:")) f).1
resolve-IsFitting_example =
    resolve-IsFitting one_proxy one_setting 8 earlier (site (codes "wss:")) (refl, (refl, tt)) refl

abbrev calls : List RuntimeCall
calls =
    Runtime.resolve_called (site (codes "http:"))
    ∷ Runtime.resolve_called (site (codes "http:"))
    ∷ Runtime.clear_called
    ∷ []

abbrev no_address : List ℕ → ℕ
no_address host = 0
