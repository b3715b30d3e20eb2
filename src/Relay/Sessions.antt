-- ===== src/Relay/Sessions.antt =====
-- packages/commandrelay-relay-proxy/src: index.ts, the sessions of the relay and the requests that
-- ask for one, and request-guards.ts. A parsed request is what the guards read of it; the hash
-- function is a parameter.
use command_relay.Common.{
  ℕ, ◌+◌, ◌-◌, Bool, true, false, not, ◌&&◌, ◌||◌, Option, none, some, List, [], ◌∷◌, length,
  contains, if◌then◌else◌, ◌==◌, nat_eq, list_eq, leb, ltb,
}
use command_relay.Common.Assoc.{get, has, set, delete}
use command_relay.Common.Text.{codes}
use command_relay.Common.Units.{starts_with, drop, to_lower, trim_units}
use command_relay.Relay.{
  Session, Effect, upstream_counted, downstream_counted, Step, Event, create_session, handle,
}

pub record Request : Type 0 where
  pub is_get : Bool
  pub pathname : List ℕ
  pub origin : Option (List ℕ)
  pub authorization : Option (List ℕ)

pub record Config : Type 0 where
  pub relay_path : List ℕ
  pub allowed_origins : List (List ℕ)
  pub required_token : List ℕ
  pub max_connections : ℕ

pub record Stats : Type 0 where
  pub active_connections : ℕ
  pub total_connections : ℕ
  pub peak_active_connections : ℕ
  pub upstream_bytes : ℕ
  pub downstream_bytes : ℕ

-- Each call of `onUpgrade` that gets to `handleUpgrade` has a number: `reserved` are those whose
-- `inFlightReserved` is set. `under_way` is no variable of the code: it has those that `ws` was
-- handed and has not yet called back for or thrown from.
pub record Relay : Type 0 where
  pub sessions : List (ℕ × Session)
  pub stats : Stats
  pub in_flight_upgrades : ℕ
  pub reserved : List ℕ
  pub under_way : List ℕ
  pub shutting_down : Bool

abbrev pub create_relay : Relay
create_relay = record {
  sessions = [];
  stats = record {
    active_connections = 0;
    total_connections = 0;
    peak_active_connections = 0;
    upstream_bytes = 0;
    downstream_bytes = 0;
  };
  in_flight_upgrades = 0;
  reserved = [];
  under_way = [];
  shutting_down = false;
}

unfoldable pub is_origin_allowed : Option (List ℕ) → (allowed_origins : List (List ℕ)) → Bool
is_origin_allowed none allowed_origins = length allowed_origins == 0
is_origin_allowed (some origin) allowed_origins =
    length allowed_origins == 0 || contains origin allowed_origins

unfoldable pub extract_bearer_token : (authorization : Option (List ℕ)) → List ℕ
extract_bearer_token none = []
extract_bearer_token (some bearer) =
    if starts_with (codes "bearer ") (to_lower bearer) then trim_units (drop 7 bearer) else []

abbrev pub remove_one : ℕ → List ℕ → List ℕ
remove_one n [] = []
remove_one n (m ∷ ms) = if m == n then ms else m ∷ remove_one n ms

-- `releaseInFlightUpgrade`
unfoldable pub release : (upgrade : ℕ) → Relay → Relay
release upgrade r =
    if contains upgrade r.reserved
    then record r {
      in_flight_upgrades = r.in_flight_upgrades - 1;
      reserved = remove_one upgrade r.reserved;
    }
    else r

-- `wireSession`
unfoldable pub wire_session : (id now : ℕ) → Relay → Relay
wire_session id now r =
    let active = r.stats.active_connections + 1 in
    record r {
      sessions = set id (create_session now) r.sessions;
      stats = record r.stats {
        active_connections = active;
        total_connections = r.stats.total_connections + 1;
        peak_active_connections =
            if ltb r.stats.peak_active_connections active
            then active
            else r.stats.peak_active_connections;
      };
    }

-- The callback of `handleUpgrade`; `is_wired` is false if it throws.
unfoldable pub on_upgraded : (upgrade id now : ℕ) (is_wired : Bool) → Relay → Relay
unfolding wire_session release
on_upgraded upgrade id now is_wired r =
    if not r.shutting_down && is_wired
    then release upgrade (wire_session id now r)
    else release upgrade r

-- The bytes that a session adds to the statistics.
abbrev pub count_bytes : List Effect → Stats → Stats
count_bytes [] stats = stats
count_bytes (upstream_counted n ∷ effects) stats =
    count_bytes effects (record stats { upstream_bytes = stats.upstream_bytes + n })
count_bytes (downstream_counted n ∷ effects) stats =
    count_bytes effects (record stats { downstream_bytes = stats.downstream_bytes + n })
count_bytes (_ ∷ effects) stats = count_bytes effects stats

-- What a step of a session leaves; `closeSession` deletes it and counts the sessions.
abbrev pub put_session : (id : ℕ) → Option Session → Relay → Relay
put_session id (some s) r = record r { sessions = set id s r.sessions }
put_session id none r =
    let sessions = delete id r.sessions in
    record r {
      sessions = sessions;
      stats = record r.stats { active_connections = length sessions };
    }

abbrev pub after_step : (id : ℕ) → Step → Relay → Relay
after_step id (next, effects) r =
    put_session id next (record r { stats = count_bytes effects r.stats })

unfoldable pub on_session_event : (id : ℕ) → Event → Relay → Relay
unfolding handle
on_session_event id event r = elim (get id r.sessions) [
  | none ↦ r
  | some s ↦ after_step id (handle event s) r
]

-- `close`
unfoldable pub close : Relay → Relay
close r = if r.shutting_down then r else record r {
  sessions = [];
  stats = record r.stats { active_connections = 0 };
  shutting_down = true;
}

module _ (hash : List ℕ → List ℕ) (config : Config) where
  unfoldable pub is_token_valid : Request → Bool
  unfolding extract_bearer_token
  is_token_valid request =
      length config.required_token == 0
      || hash config.required_token == hash (extract_bearer_token request.authorization)

  -- The status that `onUpgrade` refuses a request with, if it does.
  unfoldable pub refusal : Request → Relay → Option ℕ
  unfolding is_token_valid is_origin_allowed
  refusal request r =
      if r.shutting_down
      then some 503
      else if not request.is_get
      then some 405
      else if not (request.pathname == config.relay_path)
      then some 404
      else if not (is_origin_allowed request.origin config.allowed_origins)
      then some 403
      else if not (is_token_valid request)
      then some 401
      else if leb config.max_connections (length r.sessions + r.in_flight_upgrades)
      then some 503
      else none

  -- `onUpgrade`, up to `handleUpgrade`.
  unfoldable pub on_upgrade : (upgrade : ℕ) → Request → Relay → Relay
  unfolding refusal
  on_upgrade upgrade request r = elim (refusal request r) [
    | some status ↦ r
    | none ↦ record r {
      in_flight_upgrades = r.in_flight_upgrades + 1;
      reserved = upgrade ∷ r.reserved;
      under_way = upgrade ∷ r.under_way;
    }
  ]

-- An upgrade ends by the callback or because `handleUpgrade` throws.
pub data Report : Type 0 where
  upgrade_requested : (upgrade : ℕ) → Request → Report
  upgraded : (upgrade id now : ℕ) (is_wired : Bool) → Report
  upgrade_failed : (upgrade : ℕ) → Report
  session_reported : (id : ℕ) → Event → Report
  close_called : Report

-- `ws` is done with an upgrade.
abbrev pub ended : (upgrade : ℕ) → Relay → Relay
ended upgrade r = record r { under_way = remove_one upgrade r.under_way }

-- What happens to a relay. `ws` ends an upgrade that it was handed, and that one once; `randomUUID`
-- gives an identifier that no session has.
module _ (hash : List ℕ → List ℕ) (config : Config) where
  unfoldable pub act : Report → Relay → Relay
  unfolding on_upgrade on_upgraded on_session_event close release
  act (upgrade_requested upgrade request) r = on_upgrade hash config upgrade request r
  act (upgraded upgrade id now is_wired) r =
      if contains upgrade r.under_way && not (has id r.sessions)
      then ended upgrade (on_upgraded upgrade id now is_wired r)
      else r
  act (upgrade_failed upgrade) r =
      if contains upgrade r.under_way then ended upgrade (release upgrade r) else r
  act (session_reported id event) r = on_session_event id event r
  act close_called r = close r

  unfoldable pub run_relay : List Report → Relay → Relay
  unfolding act
  run_relay [] r = r
  run_relay (report ∷ reports) r = run_relay reports (act report r)
