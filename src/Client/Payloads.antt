-- ===== src/Client/Payloads.antt =====
-- packages/commandrelay-client/src/validation.ts and commandrelay-client-types.ts beside it: the
-- payloads that a client accepts, and the replies that it expects. A field that is not there is
-- `undefined`.
use command_relay.Common.{
  Bool, true, false, ◌&&◌, ◌||◌, List, [], ◌∷◌, String, if◌then◌else◌, ◌==◌, string_eq, pos, finite,
}
use command_relay.Protocol.{Json, undefined, array, boolean, number, string}

abbrev pub GatewayPayload : Type 0
GatewayPayload = String → Json Unit

pub data ClientCommand : Type 0 where
  auth list_sessions attach detach enable_input disable_input input heartbeat disconnect :
      ClientCommand

-- `EXPECTED_RESPONSE_TYPES_BY_COMMAND`
abbrev pub expected_response_types : ClientCommand → List String
expected_response_types auth = "auth_ok" ∷ "auth_error" ∷ "error" ∷ []
expected_response_types list_sessions = "session_list" ∷ "error" ∷ []
expected_response_types attach = "ack" ∷ "error" ∷ []
expected_response_types detach = "ack" ∷ "error" ∷ []
expected_response_types enable_input = "policy_update" ∷ "error" ∷ []
expected_response_types disable_input = "policy_update" ∷ "error" ∷ []
expected_response_types input = "ack" ∷ "error" ∷ []
expected_response_types heartbeat = "heartbeat_ack" ∷ "error" ∷ []
expected_response_types disconnect = "ack" ∷ "error" ∷ []

abbrev pub is_string : Json Unit → Bool
is_string (string s) = true
is_string _ = false

abbrev pub is_text : (text : String) → Json Unit → Bool
is_text text (string s) = s == text
is_text text _ = false

abbrev pub is_boolean : Json Unit → Bool
is_boolean (boolean b) = true
is_boolean _ = false

abbrev pub is_array : Json Unit → Bool
is_array array = true
is_array _ = false

abbrev pub is_undefined : Json Unit → Bool
is_undefined undefined = true
is_undefined _ = false

abbrev pub is_non_negative_integer : Json Unit → Bool
is_non_negative_integer (number (finite (pos n))) = true
is_non_negative_integer _ = false

abbrev pub is_gateway_error_payload : GatewayPayload → Bool
is_gateway_error_payload payload = is_string (payload "code")

abbrev pub is_auth_error_payload : GatewayPayload → Bool
is_auth_error_payload payload =
    is_string (payload "code")
    && (is_undefined (payload "recoverable") || is_boolean (payload "recoverable"))

abbrev pub is_limit : Json Unit → Bool
is_limit value = is_undefined value || is_non_negative_integer value

unfoldable pub is_hello_payload : GatewayPayload → Bool
is_hello_payload payload =
    is_string (payload "clientId")
    && is_boolean (payload "requiresAuth")
    && is_boolean (payload "inputEnabled")
    && is_boolean (payload "globalInputDisabled")
    && is_limit (payload "maxInputBytes")
    && is_limit (payload "maxAttachedPanes")

abbrev pub is_auth_ok_payload : GatewayPayload → Bool
is_auth_ok_payload payload = is_text "open" (payload "mode") || is_text "token" (payload "mode")

abbrev pub is_session_list_payload : GatewayPayload → Bool
is_session_list_payload payload = is_array (payload "panes") && is_array (payload "sessions")

abbrev pub is_output_payload : GatewayPayload → Bool
is_output_payload payload =
    (is_text "snapshot" (payload "mode") || is_text "delta" (payload "mode"))
    && is_string (payload "paneId")
    && is_string (payload "chunk")
    && is_non_negative_integer (payload "streamSeq")

abbrev pub is_policy_update_payload : GatewayPayload → Bool
is_policy_update_payload payload =
    is_boolean (payload "inputEnabled") && is_boolean (payload "globalInputDisabled")

-- The payload is an object, as the protocol's parser gives it.
unfoldable pub is_response_payload_valid : (event_type : String) → GatewayPayload → Bool
unfolding is_hello_payload
is_response_payload_valid event_type payload =
    if event_type == "error" || event_type == "auth_error"
    then is_gateway_error_payload payload
    else if event_type == "hello"
    then is_hello_payload payload
    else if event_type == "auth_ok"
    then is_auth_ok_payload payload
    else if event_type == "session_list"
    then is_session_list_payload payload
    else if event_type == "output"
    then is_output_payload payload
    else if event_type == "policy_update"
    then is_policy_update_payload payload
    else true

-- The checks in the `switch` of `dispatchIncoming`.
unfoldable pub is_event_payload : (event_type : String) → GatewayPayload → Bool
unfolding is_hello_payload
is_event_payload event_type payload =
    if event_type == "hello"
    then is_hello_payload payload
    else if event_type == "auth_ok"
    then is_auth_ok_payload payload
    else if event_type == "auth_error"
    then is_auth_error_payload payload
    else if event_type == "session_list"
    then is_session_list_payload payload
    else if event_type == "output"
    then is_output_payload payload
    else if event_type == "policy_update"
    then is_policy_update_payload payload
    else if event_type == "error"
    then is_gateway_error_payload payload
    else true
