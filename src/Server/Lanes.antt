-- ===== src/Server/Lanes.antt =====
-- Typing and the input lanes: src/server/bridge-server.ts with the arbiter that it creates.
use command_relay.Common.{String, false, ◌&&◌, some, [], ◌∷◌, ◌≡◌, ◌≢◌, refl, string_eq}
use command_relay.Ownership.{Arbiter, ClaimResult, claim}
use command_relay.Ownership.State.{arbiter, claim_pane_input_ownership}
use command_relay.Ownership.View.{IsUnique, owner_at, claim-refused_iff}
use command_relay.Server.Handler.{Config, MessageType, Payload, Context, Environment}
use command_relay.Server.Input.{override_requested}
use command_relay.Server.Dispatch.{handle_client_message}
use command_relay.Server.Quiet.{typed}
use command_relay.Server.Gate.{gate_iff}

module _ (config : Config) (payload : Payload) (env : Environment) (c : Context) (a : Arbiter)
    (lanes : c.lanes ≡ arbiter a) (unique : IsUnique a.pane_owners) where
  abbrev claimed_by : String → Arbiter × ClaimResult
  claimed_by p =
      claim p c.client.id (override_requested payload) config.allow_input_ownership_override
        env.lanes_now env.lanes_later a

  claim-arbiter :
      (p : String)
      → (claim_pane_input_ownership p c.client.id
          (override_requested payload)
          config.allow_input_ownership_override
          env.lanes_now
          env.lanes_later
          c.lanes).1
        ≡ some (claimed_by p).1
  unfolding claim_pane_input_ownership
  claim-arbiter p = rw lanes

  -- With an arbiter that has one entry to a pane: while another client, whose name is not empty, holds a live lease of a pane, no message of this client types into it,
  -- unless the message asks for a takeover and takeovers are allowed.
  pub held_lane-not_typed :
      (type : MessageType) (p t owner : String)
      → owner_at a env.lanes_now p ≡ some owner
      → owner ≢ ""
      → owner ≢ c.client.id
      → (override_requested payload && config.allow_input_ownership_override) ≡ false
      → typed (handle_client_message config type payload env c).effects ≢ (p, t) ∷ []
  held_lane-not_typed type p t owner held named other no_takeover h =
      let may = ((gate_iff config type payload env c p t).0.0 h).1 in
      let denied =
        (claim-refused_iff a unique p c.client.id (override_requested payload)
            config.allow_input_ownership_override env.lanes_now env.lanes_later owner
            config.allow_input_ownership_override).1
          (held, named, other, no_takeover, refl) in
      cc (may.lane_granted, claim-arbiter p, denied)
