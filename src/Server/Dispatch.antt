-- ===== src/Server/Dispatch.antt =====
-- The switch of `handleClientMessage` in src/server/bridge-server.ts, and its short cases.
use command_relay.Common.{Bool, true, false, not, [], ◌∷◌, ◌++◌, ltb, if◌then◌else◌}
use command_relay.InputPolicy.{InputPolicyState, build_input_policy_state}
use command_relay.Ownership.State.{release_client_input_ownership}
use command_relay.Engine.{detach_all}
use command_relay.Server.Effects.{
  error, invalid_message, auth_required, unknown_type, ack, acked_disconnect, policy_update,
  heartbeat_ack, lane_owner_released, enable_input, disable_input, audit_disconnect, sends, audits,
}
use command_relay.Server.Handler.{
  Config, MessageType, message_type, auth, list_sessions, attach_pane, detach_pane, enable, disable,
  input, heartbeat, disconnect, other, Payload, Context, Environment, Handled, done, with_client,
  handle_auth, handle_list_sessions, handle_attach, handle_detach,
}
use command_relay.Protocol.{ParseMessageResult, refused, accepted}
use command_relay.Server.Input.{handle_input}

abbrev pub is_auth : MessageType → Bool
is_auth auth = true
is_auth _ = false

module _ (config : Config) where
  abbrev policy_of : Bool → InputPolicyState
  policy_of client_input_enabled = build_input_policy_state (record {
    global_input_disabled = config.global_input_disabled;
    client_input_enabled = client_input_enabled;
  })

  unfoldable pub handle_enable_input : Context → Handled
  handle_enable_input c =
      let next = not config.global_input_disabled in
      done (with_client c (record c.client { input_enabled = next }))
        (audits (enable_input next) ∷ sends (policy_update (policy_of next)) ∷ [])

  unfoldable pub handle_disable_input : Context → Handled
  handle_disable_input c =
      done (with_client c (record c.client { input_enabled = false }))
        (audits disable_input ∷ sends (policy_update (policy_of false)) ∷ [])

  unfoldable pub handle_disconnect : Environment → Context → Handled
  handle_disconnect env c =
      let (lanes, released) = release_client_input_ownership c.client.id env.lanes_now c.lanes in
      done
        (record c {
          client = record c.client { attached_panes = []; input_enabled = false };
          engine = detach_all c.client.id c.engine;
          lanes = lanes;
        })
        ((if ltb 0 released then audits lane_owner_released ∷ [] else [])
          ++ audits audit_disconnect ∷ sends (ack acked_disconnect) ∷ [])

  unfoldable pub handle_case : MessageType → Payload → Environment → Context → Handled
  handle_case auth payload env c = handle_auth config payload c
  handle_case list_sessions payload env c = handle_list_sessions config env c
  handle_case attach_pane payload env c = handle_attach config payload env c
  handle_case detach_pane payload env c = handle_detach config payload env c
  handle_case enable payload env c = handle_enable_input c
  handle_case disable payload env c = handle_disable_input c
  handle_case input payload env c = handle_input config payload env c
  handle_case heartbeat payload env c = done c (sends (heartbeat_ack c.client.id) ∷ [])
  handle_case disconnect payload env c = handle_disconnect env c
  handle_case (other type) payload env c = done c (sends (error (unknown_type type)) ∷ [])

  unfoldable pub handle_client_message : MessageType → Payload → Environment → Context → Handled
  handle_client_message type payload env c =
      let denied = done c (sends (error auth_required) ∷ []) in
      if c.client.authenticated
      then handle_case type payload env c
      else if is_auth type
      then handle_case type payload env c
      else denied

  -- A frame after parsing: an error goes back, or the message is handled.
  abbrev pub handle_parsed : ParseMessageResult Payload → Environment → Context → Handled
  handle_parsed (refused e) env c = done c (sends (error (invalid_message e)) ∷ [])
  handle_parsed (accepted m) env c =
      handle_client_message (message_type m.event_type) m.payload env c
