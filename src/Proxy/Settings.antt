-- ===== src/Proxy/Settings.antt =====
-- packages/proxy-core/src/index.ts: `loadProxySettings`, which reads the environment.
use command_relay.Common.{
  Bool, false, not, ◌&&◌, ◌||◌, Option, none, some, List, [], ◌∷◌, ◌++◌, ℕ, String, get_or,
  if◌then◌else◌, ◌==◌, nat_eq, list_eq, length, contains,
}
use command_relay.Common.Text.{codes, is_digit}
use command_relay.Common.Units.{all, trim_units, to_lower, starts_with, cut}
use command_relay.SshTarget.{is_letter_or_digit}
use command_relay.Proxy.{ProxySettings, Url}
use command_relay.Proxy.Rules.{parse_no_proxy}

-- An environment: the value of a variable that is set.
abbrev pub ProxyEnvironment : Type 0
ProxyEnvironment = String → Option (List ℕ)

-- `a ?? b`
abbrev pub or_else {ℓ} : {A : Type ℓ} → Option A → Option A → Option A
or_else none b = b
or_else (some a) b = some a

abbrev pub read_raw_env : ProxyEnvironment → (primary secondary : String) → Option (List ℕ)
read_raw_env env primary secondary = or_else (env primary) (env secondary)

abbrev pub read_proxy_env :
    ProxyEnvironment → (uppercase lowercase : String) (ignore_uppercase : Bool) → Option (List ℕ)
read_proxy_env env uppercase lowercase ignore_uppercase =
    or_else (read_raw_env env lowercase lowercase)
      (if ignore_uppercase then none else read_raw_env env uppercase uppercase)

-- `/^[a-zA-Z][a-zA-Z\d+.-]*:\/\//`; the first colon ends the scheme.
abbrev pub is_scheme_char : ℕ → Bool
is_scheme_char c = is_letter_or_digit c || c == b'+' || c == b'.' || c == b'-'

abbrev pub is_scheme_text : List ℕ → Bool
is_scheme_text [] = false
is_scheme_text (c ∷ s) = is_letter_or_digit c && not (is_digit c) && all is_scheme_char s

abbrev pub has_scheme : Option (List ℕ × List ℕ) → Bool
has_scheme none = false
has_scheme (some (scheme, rest)) = is_scheme_text scheme && starts_with (codes "//") rest

abbrev pub supported_protocols : List (List ℕ)
supported_protocols =
    codes "http:"
    ∷ codes "https:"
    ∷ codes "socks:"
    ∷ codes "socks4:"
    ∷ codes "socks4a:"
    ∷ codes "socks5:"
    ∷ codes "socks5h:"
    ∷ codes "pac+http:"
    ∷ codes "pac+https:"
    ∷ codes "pac+file:"
    ∷ codes "pac+data:"
    ∷ []

abbrev pub host_is_optional : (protocol : List ℕ) → Bool
host_is_optional protocol = protocol == codes "pac+file:" || protocol == codes "pac+data:"

-- `Boolean(s)`
abbrev pub is_truthy : Option (List ℕ) → Bool
is_truthy none = false
is_truthy (some s) = not (length s == 0)

abbrev pub is_cgi : ProxyEnvironment → Bool
is_cgi env = is_truthy (read_raw_env env "REQUEST_METHOD" "request_method")

-- The checks of the parsed URL.
abbrev pub checked_url : Option Url → Option (List ℕ)
checked_url none = none
checked_url (some url) =
    if not (contains (to_lower url.protocol) supported_protocols)
    then none
    else if not (host_is_optional (to_lower url.protocol)) && length url.hostname == 0
    then none
    else some url.href

module _ (parse_url : List ℕ → Option Url) where
  abbrev pub sanitize_trimmed : List ℕ → Option (List ℕ)
  sanitize_trimmed value =
      if length value == 0
      then none
      else checked_url
          (parse_url (if has_scheme (cut b':' value) then value else codes "http://" ++ value))

  unfoldable pub sanitize_proxy_url : Option (List ℕ) → Option (List ℕ)
  unfolding trim_units
  sanitize_proxy_url none = none
  sanitize_proxy_url (some value) = sanitize_trimmed (trim_units value)

module _ (parse_url : List ℕ → Option Url) (is_ip : List ℕ → ℕ) where
  unfoldable pub load_proxy_settings : ProxyEnvironment → ProxySettings
  unfolding sanitize_proxy_url parse_no_proxy
  load_proxy_settings env = record {
    http_proxy =
        sanitize_proxy_url parse_url (read_proxy_env env "HTTP_PROXY" "http_proxy" (is_cgi env));
    https_proxy =
        sanitize_proxy_url parse_url (read_proxy_env env "HTTPS_PROXY" "https_proxy" false);
    all_proxy = sanitize_proxy_url parse_url (read_proxy_env env "ALL_PROXY" "all_proxy" false);
    no_proxy = parse_no_proxy parse_url is_ip (get_or (read_raw_env env "NO_PROXY" "no_proxy") []);
  }
