-- ===== src/Server.antt =====
-- src/server/bridge-server.ts: the state that `startBridgeServer` keeps for all clients, and its
-- handlers for a connection, a message and a close. A client id is what `randomUUID` gave.
pub mod Sessions
pub mod Effects
pub mod Handler
pub mod Input
pub mod Dispatch
pub mod Quiet
pub mod Gate
pub mod Client
pub mod Failures
pub mod Reach
pub mod Lanes
use command_relay.Common.{
  ℕ, String, Bool, true, false, Option, none, some, List, [], ◌∷◌, ◌++◌, if◌then◌else◌, ◌==◌,
  string_eq,
}
use command_relay.Common.Assoc.{get, set, delete}
use command_relay.Ownership.State.{OwnershipState, release_client_input_ownership}
use command_relay.RateLimiter.{RateLimiter, consume, clear}
use command_relay.Engine.{Engine, detach_all}
use command_relay.Protocol.{Parsed, ParseMessageResult, parse_message}
use Effects.{error, rate_limited, runtime_failure, audit_runtime_failure, Effect, sends, audits}
use Handler.{Config, ClientState, MessageType, Payload, Context, Environment, Handled}
use Dispatch.{handle_parsed}

pub record Bridge : Type 0 where
  pub clients : List (String × ClientState)
  pub engine : Engine
  pub lanes : OwnershipState
  pub message_limiter : RateLimiter
  pub input_limiter : RateLimiter

module _ (config : Config) where
  unfoldable pub new_client : String → ClientState
  new_client id = record {
    id = id;
    authenticated = config.auth_token == "";
    input_enabled = false;
    attached_panes = [];
  }

  unfoldable pub on_connection : (id : String) → Bridge → Bridge
  on_connection id b = record b { clients = set id (new_client id) b.clients }

  abbrev pub context_of : Bridge → ClientState → Context
  context_of b client = record {
    client = client;
    engine = b.engine;
    lanes = b.lanes;
    input_limiter = b.input_limiter;
  }

  -- The client object is shared: what the handler did to it and to the rest stays, also if it threw.
  unfoldable pub store : String → Context → Bridge → Bridge
  store id c b = record b {
    clients = set id c.client b.clients;
    engine = c.engine;
    lanes = c.lanes;
    input_limiter = c.input_limiter;
  }

  -- The `catch` of the message handler audits the failure and answers with it. The code and the
  -- reason that Failures finds for the error are one failure here, since the handler tells only
  -- that there is one.
  abbrev pub caught : Bool → List Effect
  caught threw =
      if threw then audits audit_runtime_failure ∷ sends (error runtime_failure) ∷ [] else []

  -- A frame of a connected client, by what the parser makes of it.
  unfoldable pub on_message :
      (id : String) (now : ℕ)
      → ParseMessageResult Payload
      → Environment
      → Bridge
      → Bridge × List Effect
  on_message id now r env b = elim (get id b.clients) [
    | none ↦ (b, [])
    | some client ↦
        let (limiter, rate) = consume id now b.message_limiter in
        let b' = record b { message_limiter = limiter } in
        let h = handle_parsed config r env (context_of b' client) in
        if rate.allowed
        then (store id h.context b', h.effects ++ caught h.threw)
        else (b', sends (error (rate_limited rate.retry_after_ms rate.limit rate.window_ms)) ∷ [])
  ]

  -- A frame as it comes: `parseIncomingClientMessage` reads it, strictly if so configured.
  abbrev pub on_frame :
      (json_parse : String → Option (Parsed Payload)) (empty : Payload) (strict : Bool)
      → (id : String) (now : ℕ) (raw : String) → Environment
      → Bridge
      → Bridge × List Effect
  on_frame json_parse empty strict id now raw env b =
      on_message id now (parse_message json_parse empty strict now raw) env b

  unfoldable pub on_close : (id : String) (lanes_now : ℕ) → Bridge → Bridge
  on_close id lanes_now b = record b {
    clients = delete id b.clients;
    engine = detach_all id b.engine;
    lanes = (release_client_input_ownership id lanes_now b.lanes).0;
    message_limiter = clear id b.message_limiter;
    input_limiter = clear id b.input_limiter;
  }
