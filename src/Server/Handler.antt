-- ===== src/Server/Handler.antt =====
-- `handleClientMessage` of src/server/bridge-server.ts, a function for each case of its switch.
-- Handlers run one after another here; what the environment answers during a call is its argument.
use command_relay.Common.{
  ℕ, String, Bool, true, false, not, ◌&&◌, Option, none, some, List, [], ◌∷◌, ◌++◌, map, ltb, leb,
  if◌then◌else◌, ◌==◌, string_eq, nat_eq, get_or, contains, add, remove, length, ℤ, finite,
}
use mathlib.Core.Option
use command_relay.Messages.{Value, parse_non_empty_string, parse_optional_int}
use command_relay.Ownership.State.{
  OwnershipState, release_pane_input_ownership, snapshot_pane_input_ownership,
}
use command_relay.RateLimiter.{RateLimiter}
use command_relay.Engine.Watcher.{PaneEvent, ReplayMetadata}
use command_relay.Engine.{Engine, Capture, attach, detach, get_replay_offsets_snapshot}
use command_relay.Server.Sessions.{
  PaneRow, group_sessions_by_name, build_session_list_runtime_metadata,
}
use command_relay.Server.Effects.{
  open_mode, token_mode, error, invalid_pane_id, max_attached_panes_exceeded, auth_ok, auth_error,
  session_list, ack, acked_attach, acked_detach, audit_auth_ok, audit_auth_fail, replay_resume,
  replay_gap_snapshot_fallback, audit_attach, audit_detach, lane_owner_released, Effect, sends,
  streams, audits, tracks_lag, records_list, records_attach, records_reconnect,
}

pub record Config : Type 0 where
  -- `""` stands for `null`: both are falsy
  pub auth_token : String
  pub global_input_disabled : Bool
  pub max_attached_panes : ℕ
  pub max_input_bytes : ℕ
  pub allow_input_ownership_override : Bool

pub record ClientState : Type 0 where
  pub id : String
  pub authenticated : Bool
  pub input_enabled : Bool
  pub attached_panes : List String

-- The message's `type`, as the switch reads it.
pub data MessageType : Type 0 where
  auth list_sessions attach_pane detach_pane enable disable input heartbeat disconnect : MessageType
  other : String → MessageType

unfoldable pub message_type : String → MessageType
message_type s =
    if s == "auth"
    then auth
    else if s == "list_sessions"
    then list_sessions
    else if s == "attach"
    then attach_pane
    else if s == "detach"
    then detach_pane
    else if s == "enable_input"
    then enable
    else if s == "disable_input"
    then disable
    else if s == "input"
    then input
    else if s == "heartbeat"
    then heartbeat
    else if s == "disconnect"
    then disconnect
    else other s

-- The payload's fields that a handler reads.
pub record Payload : Type 0 where
  pub token : Value
  pub pane_id : Value
  pub last_seq : Value
  pub input_text : Value
  pub override : Value
  pub take_ownership : Value

-- The state that a handler shares with the rest of the bridge.
pub record Context : Type 0 where
  pub client : ClientState
  pub engine : Engine
  pub lanes : OwnershipState
  pub input_limiter : RateLimiter

-- The clock readings of the limiter and of the lanes, what the runtime answers, and `localeCompare`.
pub record Environment : Type 0 where
  pub limiter_now : ℕ
  pub lanes_now : ℕ
  pub lanes_later : ℕ
  pub capture : Capture
  pub input_accepted : Bool
  pub panes : Option (List PaneRow)
  pub before : String → String → Bool

-- The state and the effects of a handler, and whether it threw.
pub record Handled : Type 0 where
  pub context : Context
  pub effects : List Effect
  pub threw : Bool

abbrev pub done : Context → List Effect → Handled
done context effects = record { context = context; effects = effects; threw = false }

abbrev pub throw : Context → List Effect → Handled
throw context effects = record { context = context; effects = effects; threw = true }

abbrev pub with_client : Context → ClientState → Context
with_client c client = record c { client = client }

-- The audit entry for how the stream was resumed.
unfoldable pub resume_audit : String → Option ℤ → ReplayMetadata → List Effect
resume_audit pane_id none meta = []
resume_audit pane_id (some last_seq) meta =
    if meta.replay_used && ltb 0 meta.replayed_count
    then audits (replay_resume pane_id last_seq meta.replayed_count) ∷ []
    else if meta.fallback_to_snapshot
    then audits (replay_gap_snapshot_fallback pane_id last_seq) ∷ []
    else []

abbrev pub reconnects : Option ℤ → List Effect
reconnects none = []
reconnects (some _) = records_reconnect ∷ []

-- The rest of the `attach` case, by what the engine's `attach` gave; `none` is its error.
unfoldable pub attach_reply :
    String → Option ℤ → Context → Option (List PaneEvent × ReplayMetadata) → Handled
unfolding resume_audit
attach_reply pane_id last_seq c none = throw c (tracks_lag pane_id ∷ [])
attach_reply pane_id last_seq c (some (events, meta)) = done c (
    tracks_lag pane_id
    ∷ (map streams events
        ++ (resume_audit pane_id last_seq meta
            ++ audits (audit_attach pane_id)
              ∷ records_attach
              ∷ (reconnects last_seq ++ sends (ack (acked_attach pane_id)) ∷ []))))

module _ (config : Config) where
  unfoldable pub handle_auth : Payload → Context → Handled
  handle_auth payload c =
      let granted = with_client c (record c.client { authenticated = true }) in
      let token = get_or (parse_non_empty_string payload.token) "" in
      if config.auth_token == ""
      then done granted (audits (audit_auth_ok open_mode) ∷ sends (auth_ok open_mode) ∷ [])
      else if config.auth_token == token
      then done granted (audits (audit_auth_ok token_mode) ∷ sends (auth_ok token_mode) ∷ [])
      else done c (audits audit_auth_fail ∷ sends auth_error ∷ [])

  unfoldable pub handle_list_sessions : Environment → Context → Handled
  handle_list_sessions env c = elim env.panes [
    | none ↦ throw c []
    | some panes ↦
        let (lanes, rows) = snapshot_pane_input_ownership env.before env.lanes_now c.lanes in
        done (record c { lanes = lanes })
          (records_list
            ∷ sends (
                session_list panes (group_sessions_by_name panes) (
                  build_session_list_runtime_metadata panes rows
                    (get_replay_offsets_snapshot env.before c.engine)))
            ∷ [])
  ]

  -- `attach` once the pane is named and there is room for it.
  unfoldable pub attach_to : String → Payload → Environment → Context → Handled
  attach_to pane_id payload env c =
      let last_seq = parse_optional_int payload.last_seq in
      let client = record c.client { attached_panes = add pane_id c.client.attached_panes } in
      let (engine, result) =
        attach c.client.id pane_id (Option.map finite last_seq) env.capture c.engine in
      attach_reply pane_id last_seq (record c { client = client; engine = engine }) result

  unfoldable pub handle_attach : Payload → Environment → Context → Handled
  handle_attach payload env c = elim (parse_non_empty_string payload.pane_id) [
    | none ↦ done c (sends (error invalid_pane_id) ∷ [])
    | some pane_id ↦
        if not (contains pane_id c.client.attached_panes)
          && leb config.max_attached_panes (length c.client.attached_panes)
        then done c (sends (error max_attached_panes_exceeded) ∷ [])
        else attach_to pane_id payload env c
  ]

  unfoldable pub handle_detach : Payload → Environment → Context → Handled
  handle_detach payload env c = elim (parse_non_empty_string payload.pane_id) [
    | none ↦ done c (sends (error invalid_pane_id) ∷ [])
    | some pane_id ↦
        let client = record c.client { attached_panes = remove pane_id c.client.attached_panes } in
        let (lanes, released) =
          release_pane_input_ownership pane_id c.client.id env.lanes_now c.lanes in
        done
          (record c {
            client = client;
            lanes = lanes;
            engine = detach c.client.id pane_id c.engine;
          })
          (audits (audit_detach pane_id)
            ∷ ((if released then audits lane_owner_released ∷ [] else [])
                ++ sends (ack (acked_detach pane_id)) ∷ []))
  ]
