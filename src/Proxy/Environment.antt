-- ===== src/Proxy/Environment.antt =====
-- packages/proxy-core/src/index.ts: what the settings depend on, and which proxies they hold.
use command_relay.Common.{
  ℕ, Bool, true, false, not, ◌&&◌, Option, none, some, List, [], ◌∷◌, ◌++◌, String, ◌≡◌, ◌≢◌, refl,
  sym, ap, ◌∙◌, inl, inr, ◌⊎◌, Option-cases, if_none, ◌==◌, nat_eq, list_eq, string_eq,
  if◌then◌else◌, length, contains,
}
use mathlib.Core.Option.{some-injective}
use command_relay.Common.Text.{codes}
use command_relay.Common.Units.{to_lower, trim_units}
use command_relay.Proxy.{ProxySettings, Url}
use command_relay.Proxy.Settings.{
  ProxyEnvironment, or_else, read_raw_env, read_proxy_env, is_truthy, is_cgi, supported_protocols,
  host_is_optional, checked_url, sanitize_proxy_url, load_proxy_settings,
}
use command_relay.Proxy.Routes.{
  is_plain, is_secure, should_bypass_proxy, proxy_for_protocol, resolve_proxy_for_url,
  resolve_proxy_for_url_from_env,
}

different : (a b : String) → (a == b) ≡ false → a ≢ b
different a b h e = let same = (string_eq.equals_iff a b).1 e in cc

read_raw_env-same :
    (env other : ProxyEnvironment) (primary secondary : String)
    → env primary ≡ other primary
    → env secondary ≡ other secondary
    → read_raw_env env primary secondary ≡ read_raw_env other primary secondary
read_raw_env-same env other primary secondary e f = rw (e, f) refl

read_proxy_env-same :
    (env other : ProxyEnvironment) (uppercase lowercase : String) (ignored : Bool)
    → env lowercase ≡ other lowercase
    → (ignored ≡ false → env uppercase ≡ other uppercase)
    → read_proxy_env env uppercase lowercase ignored
      ≡ read_proxy_env other uppercase lowercase ignored
read_proxy_env-same env other uppercase lowercase true e f = rw (read_proxy_env, e) refl
read_proxy_env-same env other uppercase lowercase false e f = rw (read_proxy_env, e, f refl) refl

not-false : (b : Bool) → not b ≡ false → b ≡ true
not-false true h = refl
not-false false h = cc

optional_or_hosted :
    (optional empty : Bool) → (not optional && empty) ≡ false → (optional ≡ true) ⊎ (empty ≡ false)
optional_or_hosted true empty h = inl refl
optional_or_hosted false empty h = inr h

abbrev pub proxy_variables : List String
proxy_variables =
    "HTTP_PROXY" ∷ "http_proxy" ∷ "HTTPS_PROXY" ∷ "https_proxy" ∷ "ALL_PROXY" ∷ "all_proxy" ∷ []

-- A variable of a proxy holds the text.
abbrev IsHeld : ProxyEnvironment → (value : List ℕ) → Type 0
IsHeld env value =
    (name : String) × (contains name proxy_variables ≡ true) × (env name ≡ some value)

or_else-either :
    (a b : Option (List ℕ)) (value : List ℕ)
    → or_else a b ≡ some value
    → (a ≡ some value) ⊎ (b ≡ some value)
or_else-either none b value h = inr h
or_else-either (some a) b value h = inl h

read_raw_env-held :
    (env : ProxyEnvironment) (name : String) (value : List ℕ)
    → read_raw_env env name name ≡ some value
    → env name ≡ some value
read_raw_env-held env name value h = elim (or_else-either (env name) (env name) value h) [
  | inl e ↦ e
  | inr e ↦ e
]

read_proxy_env-IsHeld :
    (env : ProxyEnvironment) (uppercase lowercase : String) (ignored : Bool) (value : List ℕ)
    → contains uppercase proxy_variables ≡ true
    → contains lowercase proxy_variables ≡ true
    → read_proxy_env env uppercase lowercase ignored ≡ some value
    → IsHeld env value
read_proxy_env-IsHeld env uppercase lowercase ignored value up low h =
    elim (or_else-either (read_raw_env env lowercase lowercase) _ value h) [
      | inl first ↦ (lowercase, low, read_raw_env-held env lowercase value first)
      | inr second ↦
          let (used, found) = if_none ignored (read_raw_env env uppercase uppercase) value second in
          (uppercase, up, read_raw_env-held env uppercase value found)
    ]

module _ (parse_url : List ℕ → Option Url) where
  -- A URL of a kind that the program supports, with its host, in which the text parses.
  abbrev pub IsProxyUrl : (candidate proxy : List ℕ) → Type 0
  IsProxyUrl candidate proxy =
      (url : Url) × (parse_url candidate ≡ some url)
      × (url.href ≡ proxy)
      × (contains (to_lower url.protocol) supported_protocols ≡ true)
      × ((host_is_optional (to_lower url.protocol) ≡ true) ⊎ ((length url.hostname == 0) ≡ false))

  -- The environment holds the text in one of the six variables, with a scheme or without.
  abbrev pub IsSupported : ProxyEnvironment → (proxy : List ℕ) → Type 0
  IsSupported env proxy =
      (name : String) × (value : List ℕ) × (contains name proxy_variables ≡ true)
      × (env name ≡ some value)
      × (IsProxyUrl (trim_units value) proxy
          ⊎ IsProxyUrl (codes "http://" ++ trim_units value) proxy)

  checked_url-IsProxyUrl :
      (candidate proxy : List ℕ)
      → checked_url (parse_url candidate) ≡ some proxy
      → IsProxyUrl candidate proxy
  checked_url-IsProxyUrl candidate proxy h = elim (Option-cases (parse_url candidate)) [
    | inl bad ↦ let no : none ≡ some proxy = sym (ap checked_url bad) ∙ h in cc
    | inr (url, good) ↦
        let kept = sym (ap checked_url good) ∙ h in
        let (known, rest) =
          if_none (not (contains (to_lower url.protocol) supported_protocols)) _ proxy kept in
        let (hosted, href) =
          if_none (not (host_is_optional (to_lower url.protocol)) && length url.hostname == 0) _
            proxy rest in
        (
          url,
          good,
          some-injective url.href proxy href,
          not-false _ known,
          optional_or_hosted (host_is_optional (to_lower url.protocol)) _ hosted,
        )
  ]

  -- The text as it stands, or with a scheme before it.
  schemed :
      (bare : Bool) (value proxy : List ℕ)
      → IsProxyUrl (if bare then value else codes "http://" ++ value) proxy
      → IsProxyUrl value proxy ⊎ IsProxyUrl (codes "http://" ++ value) proxy
  schemed true value proxy h = inl h
  schemed false value proxy h = inr h

  sanitized :
      (env : ProxyEnvironment) (value : Option (List ℕ)) (proxy : List ℕ)
      → ((held : List ℕ) → value ≡ some held → IsHeld env held)
      → sanitize_proxy_url parse_url value ≡ some proxy
      → IsSupported env proxy
  unfolding sanitize_proxy_url
  sanitized env none proxy held h = cc
  sanitized env (some value) proxy held h =
      let (name, known, there) = held value refl in
      (
        name,
        value,
        known,
        there,
        schemed _ (trim_units value) proxy
            (checked_url-IsProxyUrl _ proxy (if_none (length (trim_units value) == 0) _ proxy h).1),
      )

  or_else-IsSupported :
      (env : ProxyEnvironment) (a b : Option (List ℕ)) (proxy : List ℕ)
      → (a ≡ some proxy → IsSupported env proxy)
      → (b ≡ some proxy → IsSupported env proxy)
      → or_else a b ≡ some proxy
      → IsSupported env proxy
  or_else-IsSupported env none b proxy f g h = g h
  or_else-IsSupported env (some a) b proxy f g h = f h

  chosen-IsSupported :
      (env : ProxyEnvironment) (b c : Bool) (x y z : Option (List ℕ)) (proxy : List ℕ)
      → (x ≡ some proxy → IsSupported env proxy)
      → (y ≡ some proxy → IsSupported env proxy)
      → (z ≡ some proxy → IsSupported env proxy)
      → (if b then x else if c then y else z) ≡ some proxy
      → IsSupported env proxy
  chosen-IsSupported env true c x y z proxy f g k h = f h
  chosen-IsSupported env false true x y z proxy f g k h = g h
  chosen-IsSupported env false false x y z proxy f g k h = k h

  proxy_for_protocol-IsSupported :
      (protocol : List ℕ) (settings : ProxySettings) (proxy : List ℕ) (env : ProxyEnvironment)
      → (settings.http_proxy ≡ some proxy → IsSupported env proxy)
      → (settings.https_proxy ≡ some proxy → IsSupported env proxy)
      → (settings.all_proxy ≡ some proxy → IsSupported env proxy)
      → proxy_for_protocol protocol settings ≡ some proxy
      → IsSupported env proxy
  proxy_for_protocol-IsSupported protocol settings proxy env http https other h =
      let plain = or_else-IsSupported env settings.http_proxy settings.all_proxy proxy http other in
      let secure =
        or_else-IsSupported env settings.https_proxy
          (or_else settings.http_proxy settings.all_proxy) proxy https plain in
      chosen-IsSupported env (is_plain protocol) (is_secure protocol)
        (or_else settings.http_proxy settings.all_proxy)
        (or_else settings.https_proxy (or_else settings.http_proxy settings.all_proxy))
        settings.all_proxy proxy plain secure other h

module _ (parse_url : List ℕ → Option Url) (is_ip : List ℕ → ℕ) where
  -- Under CGI, environments that differ in HTTP_PROXY alone, which a request's Proxy header sets,
  -- give the same settings.
  pub load_proxy_settings-cgi :
      (env other : ProxyEnvironment)
      → is_cgi env ≡ true
      → ((name : String) → name ≢ "HTTP_PROXY" → env name ≡ other name)
      → load_proxy_settings parse_url is_ip env ≡ load_proxy_settings parse_url is_ip other
  unfolding load_proxy_settings
  load_proxy_settings-cgi env other cgi same =
      let eq : (name : String) → (name == "HTTP_PROXY") ≡ false → env name ≡ other name =
        λ name h. same name (different name "HTTP_PROXY" h) in
      let cgi_same =
        read_raw_env-same env other "REQUEST_METHOD" "request_method" (eq "REQUEST_METHOD" refl)
          (eq "request_method" refl) in
      let http =
        read_proxy_env-same env other "HTTP_PROXY" "http_proxy" true (eq "http_proxy" refl)
          (λ no. cc) in
      let https =
        read_proxy_env-same env other "HTTPS_PROXY" "https_proxy" false (eq "https_proxy" refl)
          (λ on. eq "HTTPS_PROXY" refl) in
      let all_ =
        read_proxy_env-same env other "ALL_PROXY" "all_proxy" false (eq "all_proxy" refl)
          (λ on. eq "ALL_PROXY" refl) in
      let rules =
        read_raw_env-same env other "NO_PROXY" "no_proxy" (eq "NO_PROXY" refl)
          (eq "no_proxy" refl) in
      let other_cgi : is_cgi other ≡ true = sym (ap is_truthy cgi_same) ∙ cgi in
      rw (cgi, other_cgi, http, https, all_, rules) refl

  -- Every proxy that a URL is reached through is the URL that the text of one of the six proxy
  -- variables of the environment parses as, trimmed, with or without `http://` before it. Its kind
  -- is supported, and it has a host where that kind needs one.
  pub resolve_from_env-IsSupported :
      (target : Url) (env : ProxyEnvironment) (proxy : List ℕ)
      → resolve_proxy_for_url_from_env parse_url is_ip target env ≡ some proxy
      → IsSupported parse_url env proxy
  unfolding resolve_proxy_for_url_from_env resolve_proxy_for_url load_proxy_settings
  resolve_from_env-IsSupported target env proxy h =
      let settings = load_proxy_settings parse_url is_ip env in
      let (past, rest) =
        if_none (should_bypass_proxy target settings.no_proxy)
          (proxy_for_protocol target.protocol settings) proxy h in
      proxy_for_protocol-IsSupported parse_url target.protocol settings proxy env
        (sanitized parse_url env (read_proxy_env env "HTTP_PROXY" "http_proxy" (is_cgi env)) proxy
          (λ v. read_proxy_env-IsHeld env "HTTP_PROXY" "http_proxy" (is_cgi env) v refl refl))
        (sanitized parse_url env (read_proxy_env env "HTTPS_PROXY" "https_proxy" false) proxy
          (λ v. read_proxy_env-IsHeld env "HTTPS_PROXY" "https_proxy" false v refl refl))
        (sanitized parse_url env (read_proxy_env env "ALL_PROXY" "all_proxy" false) proxy
          (λ v. read_proxy_env-IsHeld env "ALL_PROXY" "all_proxy" false v refl refl))
        rest
