-- ===== src/Examples/Bridges.antt =====
-- The bridge of src/server/bridge-server.ts at work, with one client.
use command_relay.Common.{
  ◌≤◌, String, Bool, true, false, ◌&&◌, none, some, List, [], ◌∷◌, ◌≡◌, ◌≢◌, ◌↔◌, ◌==◌, string_eq,
  if◌then◌else◌, refl, subst, arith, length, contains,
}
use command_relay.Messages.{string, parse_non_empty_string, parse_optional_boolean}
use command_relay.Ownership.{Arbiter}
use command_relay.Ownership.State.{arbiter}
use command_relay.Ownership.View.{IsUnique, owner_at}
use command_relay.RateLimiter.{create_rate_limiter}
use command_relay.Engine.{create_engine, captured, failed}
use command_relay.Server.Handler.{
  Config, ClientState, attach_pane, input, Payload, Context, Environment,
}
use command_relay.Server.Input.{override_requested}
use command_relay.Protocol.{ParseMessageResult, refused, accepted, invalid_json, envelope}
use command_relay.Server.Dispatch.{handle_client_message}
use command_relay.Server.Quiet.{typed}
use command_relay.Server.Gate.{MayType, gate_iff}
use command_relay.Server.Lanes.{held_lane-not_typed}
use command_relay.Server.Client.{IsWithinPolicy}
use command_relay.Server.Failures.{failed_attach-attached}
use command_relay.Server.{Bridge}
use command_relay.Server.Reach.{
  Call, connects, messages, closes, run, AllWithinPolicy, run-AllWithinPolicy, run-typed_killed,
}

abbrev with_switch : Bool → Config
with_switch killed = record {
  auth_token = "secret";
  global_input_disabled = killed;
  max_attached_panes = 2;
  max_input_bytes = 8;
  allow_input_ownership_override = true;
}

abbrev open_config : Config
open_config = with_switch false

abbrev killed_config : Config
killed_config = with_switch true

abbrev asks : Payload
asks = record {
  token = string " secret ";
  pane_id = string "%1";
  last_seq = string "";
  input_text = string "ls";
  override = string "no";
  take_ownership = string "no";
}

abbrev quiet : Environment
quiet = record {
  limiter_now = 130;
  lanes_now = 130;
  lanes_later = 131;
  capture = captured (10 ∷ []);
  input_accepted = true;
  panes = none;
  before = λ x y. true;
}

-- a holds pane %1 until 150
abbrev held_by_a : Arbiter
held_by_a = record {
  pane_owners = ("%1", record { client_id = "a"; expires_at_ms = 150 }) ∷ [];
  lease_duration_ms = 100;
}

abbrev client_b : Bool → ClientState
client_b known = record {
  id = "b";
  authenticated = known;
  input_enabled = known;
  attached_panes = "%1" ∷ [];
}

abbrev seen_by : Bool → Context
seen_by known = record {
  client = client_b known;
  engine = create_engine none;
  lanes = arbiter held_by_a;
  input_limiter = create_rate_limiter 2 100;
}

abbrev empty_bridge : Bridge
empty_bridge = record {
  clients = [];
  engine = create_engine none;
  lanes = arbiter (record { pane_owners = []; lease_duration_ms = 100 });
  message_limiter = create_rate_limiter 5 100;
  input_limiter = create_rate_limiter 2 100;
}

abbrev framed : String → ParseMessageResult Payload
framed type = accepted (envelope type asks (some "r1") 1000)

abbrev visits : List Call
visits =
    connects "b"
    ∷ messages "b" 1 (framed "auth") quiet
    ∷ messages "b" 2 (refused invalid_json) quiet
    ∷ messages "b" 3 (framed "attach") quiet
    ∷ messages "b" 4 (framed "input") quiet
    ∷ closes "b" 5
    ∷ []

gate_iff_example :
    ((typed (handle_client_message open_config input asks quiet (seen_by true)).effects
        ≡ ("%1", "ls") ∷ [])
      ↔ ((input ≡ input) × MayType open_config asks quiet (seen_by true) "%1" "ls"))
    × (length (typed (handle_client_message open_config input asks quiet (seen_by true)).effects)
        ≤ 1)
gate_iff_example = gate_iff open_config input asks quiet (seen_by true) "%1" "ls"

held_by_a-IsUnique : IsUnique held_by_a.pane_owners
held_by_a-IsUnique = (refl, tt)

held_by_a-owner : owner_at held_by_a 130 "%1" ≡ some "a"
unfolding owner_at
held_by_a-owner = refl

asks_no_takeover : (override_requested asks && true) ≡ false
unfolding parse_optional_boolean
asks_no_takeover = refl

a_is_not_b : ◌≢◌ {A = String} "a" "b"
a_is_not_b e = subst (λ s. if s == "a" then Unit else ⊥) e tt

a_is_not_empty : ◌≢◌ {A = String} "a" ""
a_is_not_empty e = subst (λ s. if s == "a" then Unit else ⊥) e tt

held_lane-not_typed_example :
    typed (handle_client_message open_config input asks quiet (seen_by true)).effects
    ≢ ("%1", "ls") ∷ []
held_lane-not_typed_example =
    held_lane-not_typed open_config asks quiet (seen_by true) held_by_a refl held_by_a-IsUnique
      input "%1" "ls" "a" held_by_a-owner a_is_not_empty a_is_not_b asks_no_takeover

client_b-IsWithinPolicy : IsWithinPolicy open_config (client_b true)
client_b-IsWithinPolicy = record { kill_switch = λ e. refl; panes = omega arith }

run-AllWithinPolicy_example : AllWithinPolicy open_config (run open_config visits empty_bridge).0
run-AllWithinPolicy_example =
    run-AllWithinPolicy open_config visits empty_bridge (λ id client e. cc)

run-typed_killed_example : typed (run killed_config visits empty_bridge).1 ≡ []
run-typed_killed_example = run-typed_killed killed_config refl visits empty_bridge

-- The runtime answers no capture.
abbrev mute : Environment
mute = record quiet { capture = failed }

asks-named : parse_non_empty_string asks.pane_id ≡ some "%1"
unfolding parse_non_empty_string
asks-named = refl

failed_attach-attached_example :
    ((handle_client_message open_config attach_pane asks mute (seen_by true)).threw ≡ true)
    × (contains "%1"
          (handle_client_message open_config attach_pane asks mute
            (seen_by true)).context.client.attached_panes
        ≡ true)
failed_attach-attached_example =
    failed_attach-attached open_config asks mute (seen_by true) refl "%1" asks-named refl refl refl
