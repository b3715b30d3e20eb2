-- ===== src/Examples/Relays.antt =====
-- Concrete runs of packages/commandrelay-relay-proxy/src/index.ts.
use command_relay.Common.{true, none, some, List, [], ◌∷◌, ◌++◌, ◌≡◌, refl, length, ◌+◌, ◌≤◌}
use command_relay.Relay.{
  RawData, Event, buffer, client_sent, upstream_opened, upstream_sent, upstream_closing,
  create_session, run, to_upstream, to_client, upstream_counted, downstream_counted,
}
use command_relay.Relay.Sessions.{
  Config, Request, Report, upgrade_requested, upgraded, session_reported, create_relay, refusal,
  act, run_relay,
}
use command_relay.Relay.Capacity.{IsWithin, run_relay-IsWithin}
use command_relay.Relay.Fifo.{upstream_frames, client_frames, Rest, run-relayed}
use command_relay.Relay.Limits.{Bounded, run-IsBounded}

abbrev session : List Event
session =
    client_sent 1 (buffer (104 ∷ [])) true
    ∷ upstream_opened 2 (λ n. true)
    ∷ client_sent 3 (buffer (105 ∷ 106 ∷ [])) true
    ∷ upstream_sent 4 (buffer (107 ∷ [])) true
    ∷ upstream_closing
    ∷ client_sent 5 (buffer (108 ∷ [])) true
    ∷ []

relayed :
    (run session (some (create_session 0))).1
    ≡ upstream_counted 1
      ∷ to_upstream (buffer (104 ∷ []))
      ∷ upstream_counted 2
      ∷ to_upstream (buffer (105 ∷ 106 ∷ []))
      ∷ downstream_counted 1
      ∷ to_client (buffer (107 ∷ []))
      ∷ upstream_counted 1
      ∷ []
unfolding run
relayed = refl

run-relayed_example :
    (rest : List RawData) × (upstream_frames (run session (some (create_session 0))).1 ++ rest
      ≡ client_frames session (some (create_session 0)))
    × Rest (run session (some (create_session 0))).0 rest
run-relayed_example = run-relayed 0 session

run-IsBounded_example : Bounded (run session (some (create_session 0))).0
run-IsBounded_example = run-IsBounded 0 session (tt, (tt, (tt, (tt, (tt, (tt, tt))))))

abbrev relay_config : Config
relay_config = record {
  relay_path = 47 ∷ [];
  allowed_origins = [];
  required_token = [];
  max_connections = 1;
}

abbrev relay_request : Request
relay_request = record { is_get = true; pathname = 47 ∷ []; origin = none; authorization = none }

-- The second request comes while the first upgrade is under way, and is refused.
abbrev reports : List Report
reports =
    upgrade_requested 1 relay_request
    ∷ upgrade_requested 2 relay_request
    ∷ upgraded 1 1 5 true
    ∷ session_reported 1 (client_sent 6 (buffer (104 ∷ [])) true)
    ∷ []

admitted :
    let ended = run_relay (λ token. token) relay_config reports create_relay in
    (length ended.sessions ≡ 1) × (ended.in_flight_upgrades ≡ 0) × (ended.stats.upstream_bytes ≡ 1)
unfolding run_relay
admitted = (refl, refl, refl)

refused_while_full :
    refusal
      (λ token. token)
      relay_config
      relay_request
      (act (λ token. token) relay_config (upgrade_requested 1 relay_request) create_relay)
    ≡ some 503
unfolding act refusal
refused_while_full = refl

run_relay-IsWithin_example :
    let r = run_relay (λ token. token) relay_config reports create_relay in
    IsWithin 1 r × (length r.sessions + length r.under_way ≤ 1)
run_relay-IsWithin_example = run_relay-IsWithin (λ token. token) relay_config reports
