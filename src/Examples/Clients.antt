-- ===== src/Examples/Clients.antt =====
-- Concrete runs of packages/commandrelay-client/src/index.ts.
use command_relay.Common.{
  ◌+◌, ◌≤◌, Bool, true, false, none, some, List, [], ◌∷◌, String, ◌||◌, ◌≡◌, refl, arith, ◌==◌, inl,
  inr, Bool-cases, string_eq, if◌then◌else◌, All, ap, sym,
}
use command_relay.Protocol.{undefined, boolean, string}
use command_relay.Client.{
  Client, Message, Event, connect_called, protocol_loaded, socket_ended, close_emitted,
  close_called, request_made, socket_opened, frame_received, request_timed_out, handshake_timed_out,
  settled, resolved, emitted, run, create, on_message, open_emitted, handshake_settled, terminated,
  opened, rejected, connection_closed,
}
use command_relay.Client.Payloads.{GatewayPayload, list_sessions, heartbeat}
use command_relay.Client.Counts.{one_if, count_settled, count_pending}
use command_relay.Client.Once.{count_asks, count_made, run-settled_once}
use command_relay.Client.Connected.{IsConnected, run-IsConnected}
use command_relay.Client.Replies.{ReplyOnly, on_message-ReplyOnly}

abbrev hello_payload : GatewayPayload
hello_payload name =
    if name == "clientId"
    then string "c1"
    else if name == "maxInputBytes" || name == "maxAttachedPanes"
    then undefined
    else boolean false

abbrev hello_message : Message
hello_message = record {
  version = 1;
  event_type = "hello";
  request_id = none;
  timestamp = 5;
  payload = hello_payload;
}

abbrev heartbeat_reply : Message
heartbeat_reply = record {
  version = 1;
  event_type = "heartbeat_ack";
  request_id = some "heartbeat-1";
  timestamp = 6;
  payload = hello_payload;
}

abbrev output_frame : Message
output_frame = record {
  version = 1;
  event_type = "output";
  request_id = none;
  timestamp = 7;
  payload = hello_payload;
}

abbrev session : List Event
session =
    connect_called 1
    ∷ protocol_loaded 1 true
    ∷ socket_opened 1
    ∷ frame_received 1 (some hello_message)
    ∷ request_made heartbeat "heartbeat-1" true
    ∷ frame_received 1 (some output_frame)
    ∷ frame_received 1 (some heartbeat_reply)
    ∷ request_timed_out "heartbeat-1"
    ∷ request_made list_sessions "list-1" true
    ∷ close_called
    ∷ []

-- The frame of output, which replies to no request, is heard by nobody.
session-effects :
    (run session (create 8000)).1
    ≡ open_emitted
      ∷ emitted "hello" hello_message
      ∷ handshake_settled 1 true
      ∷ settled "heartbeat-1" (resolved heartbeat_reply)
      ∷ settled "list-1" (rejected connection_closed)
      ∷ []
unfolding run
session-effects = refl

-- A timer that `close` leaves running ends the next connection.
second_connection-terminated :
    (run
      (connect_called 1
        ∷ protocol_loaded 1 true
        ∷ close_called
        ∷ connect_called 2
        ∷ protocol_loaded 2 true
        ∷ handshake_timed_out 1
        ∷ [])
      (create 8000)).1
    ≡ terminated 1 ∷ terminated 2 ∷ handshake_settled 1 false ∷ []
unfolding run
second_connection-terminated = refl

-- Two calls of `connect` that overlap open a socket each, and both are heard; the close of the
-- first ends the second.
overlapping :
    (run
      (connect_called 1
        ∷ connect_called 2
        ∷ protocol_loaded 1 true
        ∷ protocol_loaded 2 true
        ∷ socket_opened 1
        ∷ socket_opened 2
        ∷ socket_ended 1
        ∷ [])
      (create 8000)).1
    ≡ open_emitted ∷ open_emitted ∷ close_emitted ∷ terminated 2 ∷ handshake_settled 1 false ∷ []
unfolding run
overlapping = refl

one_if-le : (b : Bool) → one_if b ≤ 1
one_if-le true = omega arith
one_if-le false = omega arith

-- The two identifiers differ.
session-distinct : (id : String) → count_asks id session ≤ 1
session-distinct id = elim (Bool-cases ("heartbeat-1" == id)) [
  | inl same ↦
      let equal = (string_eq.equals_iff "heartbeat-1" id).0 same in
      let other : one_if ("list-1" == id) ≡ 0 = ap (λ t. one_if ("list-1" == t)) (sym equal) in
      let one : one_if ("heartbeat-1" == id) ≡ 1 = ap one_if same in omega (arith, other, one)
  | inr different ↦
      let none_here : one_if ("heartbeat-1" == id) ≡ 0 = ap one_if different in
      let at_most_one = one_if-le ("list-1" == id) in omega (arith, none_here, at_most_one)
]

run-settled_once_example :
    let ended = run session (create 8000) in
    (count_settled "list-1" ended.1 + count_pending "list-1" ended.0.pending_requests
      ≡ count_made "list-1" session (create 8000))
    × (count_settled "list-1" ended.1 ≤ 1)
run-settled_once_example = run-settled_once 8000 session session-distinct "list-1"

run-IsConnected_example : IsConnected (run session (create 8000)).0
run-IsConnected_example = run-IsConnected 8000 session

abbrev waiting_client : Client
waiting_client = record (create 8000) {
  socket = some (1, opened);
  pending_requests = ("heartbeat-1", "heartbeat_ack" ∷ []) ∷ [];
}

on_message-ReplyOnly_example :
    All
      (ReplyOnly waiting_client heartbeat_reply)
      (on_message 1 (some heartbeat_reply) waiting_client).1
on_message-ReplyOnly_example = on_message-ReplyOnly 1 heartbeat_reply waiting_client
