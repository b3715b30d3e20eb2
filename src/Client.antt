-- ===== src/Client.antt =====
-- packages/commandrelay-client/src/index.ts: the client of the gateway, which matches replies with
-- requests. A WebSocket is a number given at `connect`; what `ws` reports of it, the timers,
-- the request identifiers and the end of the import of the protocol module are arguments of the
-- operations.
pub mod Payloads
pub mod Counts
pub mod Settling
pub mod Once
pub mod Connected
pub mod Replies
use command_relay.Common.{
  ℕ, Bool, true, false, not, ◌&&◌, ◌||◌, Option, none, some, List, [], ◌∷◌, ◌++◌, String, is_some,
  map, if◌then◌else◌, ◌==◌, nat_eq, string_eq, contains, remove, ltb,
}
use command_relay.Common.Assoc.{get, set, delete, has}
use command_relay.Protocol.{Envelope}
use command_relay.Client.Payloads.{
  GatewayPayload, ClientCommand, expected_response_types, is_response_payload_valid,
  is_hello_payload, is_event_payload,
}

abbrev pub Message : Type 0
Message = Envelope GatewayPayload

pub data ReadyState : Type 0 where
  connecting opened closing : ReadyState

pub data Failure : Type 0 where
  unexpected_response_type invalid_response_payload request_timeout : Failure
  protocol_error : Message → Failure
  socket_closed connection_closed : Failure

pub data Outcome : Type 0 where
  resolved : Message → Outcome
  rejected : Failure → Outcome

-- How the promise of `connect` was settled.
pub data Handshake : Type 0 where
  waiting resolved_handshake rejected_handshake : Handshake

-- What listeners and callers see.
pub data Effect : Type 0 where
  settled : (request_id : String) → Outcome → Effect
  emitted : (event : String) → Message → Effect
  parse_error_emitted open_emitted close_emitted : Effect
  handshake_settled : (attempt : ℕ) → Bool → Effect
  terminated : (attempt : ℕ) → Effect
  thrown : Effect

-- `calls` are the calls of `connect` that wait for the protocol module, after the test that there
-- is no socket. `socket` is the one that the client holds; `orphans` are those that another call
-- replaced, whose listeners stay. `handshakes` holds the state of each call that has opened its
-- socket, and whether its timer runs; `pending_requests` holds the types expected of each reply.
pub record Client : Type 0 where
  pub calls : List ℕ
  pub socket : Option (ℕ × ReadyState)
  pub orphans : List ℕ
  pub hello_payload : Option GatewayPayload
  pub handshakes : List (ℕ × (Handshake × Bool))
  pub pending_requests : List (String × List String)
  pub request_timeout_ms : ℕ

abbrev pub Step : Type 0
Step = Client × List Effect

abbrev pub then_do : Step → (Client → Step) → Step
then_do (c, effects) f = let next = f c in (next.0, effects ++ next.1)

-- `isOpen`, of a socket that is there.
abbrev pub is_open : ReadyState → Bool
is_open opened = true
is_open _ = false

-- `clearPendingRequests`
unfoldable pub clear_pending_requests : Failure → Client → Step
clear_pending_requests error c = (
  record c { pending_requests = [] },
  map (λ (entry : String × List String). settled entry.0 (rejected error)) c.pending_requests,
)

abbrev pub termination : Option (ℕ × ReadyState) → List Effect
termination none = []
termination (some (attempt, closing)) = []
termination (some (attempt, _)) = terminated attempt ∷ []

-- `clearSocket`, which also removes the listeners.
unfoldable pub clear_socket : Client → Step
unfolding clear_pending_requests
clear_socket c =
    then_do (record c { socket = none; hello_payload = none }, termination c.socket)
      (clear_pending_requests connection_closed)

abbrev pub is_waiting : Option (Handshake × Bool) → Bool
is_waiting (some (waiting, timer)) = true
is_waiting _ = false

abbrev pub is_resolved : Option (Handshake × Bool) → Bool
is_resolved (some (resolved_handshake, timer)) = true
is_resolved _ = false

abbrev pub is_timed : Option (Handshake × Bool) → Bool
is_timed (some (waiting, timer)) = timer
is_timed _ = false

-- `settleError`; it clears the socket that the client has now.
unfoldable pub settle_error : (attempt : ℕ) → Client → Step
unfolding clear_socket
settle_error attempt c =
    if is_waiting (get attempt c.handshakes)
    then then_do
        (clear_socket
          (record c { handshakes = set attempt (rejected_handshake, false) c.handshakes }))
        (λ d. (d, handshake_settled attempt false ∷ []))
    else (c, [])

-- `connect`, up to its `await`, with the number of the call and of its socket to be.
unfoldable pub connect : (attempt : ℕ) → Client → Step
connect attempt c =
    if is_some c.socket then (c, thrown ∷ []) else (record c { calls = attempt ∷ c.calls }, [])

-- The socket that is replaced, if any.
abbrev pub orphaned : Option (ℕ × ReadyState) → List ℕ
orphaned none = []
orphaned (some (attempt, state)) = attempt ∷ []

-- `connect`, after its `await`; it does not look at `this.socket` again.
unfoldable pub open_socket : (attempt : ℕ) → Client → Step
open_socket attempt c = (
  record c {
    calls = remove attempt c.calls;
    socket = some (attempt, connecting);
    orphans = orphaned c.socket ++ c.orphans;
    handshakes = set attempt (waiting, ltb 0 c.request_timeout_ms) c.handshakes;
  },
  [],
)

-- `loadProtocolRuntime` is done for a call, or rejects, which `connect` passes on.
unfoldable pub on_protocol : (attempt : ℕ) (is_loaded : Bool) → Client → Step
unfolding open_socket
on_protocol attempt is_loaded c =
    if not (contains attempt c.calls)
    then (c, [])
    else if is_loaded
    then open_socket attempt c
    else (record c { calls = remove attempt c.calls }, thrown ∷ [])

-- Whether the client holds the socket of this attempt.
abbrev pub holds_socket : (attempt : ℕ) → Client → Bool
holds_socket attempt c = elim c.socket [ none ↦ false | some current ↦ current.0 == attempt ]

-- The ready state of the socket of an attempt, which the client reads of the one that it holds.
abbrev pub with_state : (attempt : ℕ) → ReadyState → Client → Client
with_state attempt state c = record c {
  socket = if holds_socket attempt c then some (attempt, state) else c.socket;
}

-- `socket.close`
abbrev pub close_socket : Client → Client
close_socket c = record c {
  socket = elim c.socket [ none ↦ none | some current ↦ some (current.0, closing) ];
}

-- `close`
unfoldable pub close : Client → Step
unfolding clear_socket
close c = clear_socket (close_socket c)

-- The `open` listener.
abbrev pub on_open : (attempt : ℕ) → Client → Step
on_open attempt c = (with_state attempt opened c, open_emitted ∷ [])

-- The `close` listener.
unfoldable pub on_close : (attempt : ℕ) → Client → Step
unfolding settle_error clear_socket clear_pending_requests
on_close attempt c =
    let closed = with_state attempt closing c in
    then_do (closed, close_emitted ∷ [])
      (λ d.
        if not (is_resolved (get attempt d.handshakes))
        then settle_error attempt d
        else then_do (clear_pending_requests socket_closed d) clear_socket)

-- The timer of `connect`, which no other code stops after `close`.
unfoldable pub on_handshake_timeout : (attempt : ℕ) → Client → Step
unfolding settle_error
on_handshake_timeout attempt c =
    if is_timed (get attempt c.handshakes)
    then then_do (c, terminated attempt ∷ []) (settle_error attempt)
    else (c, [])

-- The timer of a request.
unfoldable pub on_request_timeout : (request_id : String) → Client → Step
on_request_timeout request_id c =
    if has request_id c.pending_requests
    then (
      record c { pending_requests = delete request_id c.pending_requests },
      settled request_id (rejected request_timeout) ∷ [],
    )
    else (c, [])

abbrev pub is_error_type : (event_type : String) → Bool
is_error_type event_type = event_type == "error" || event_type == "auth_error"

-- What becomes of a request that a message replies to.
unfoldable pub outcome_of : (expected : List String) → Message → Outcome
unfolding is_response_payload_valid
outcome_of expected message =
    if not (contains message.event_type expected)
    then rejected unexpected_response_type
    else if not (is_response_payload_valid message.event_type message.payload)
    then rejected invalid_response_payload
    else if is_error_type message.event_type
    then rejected (protocol_error message)
    else resolved message

abbrev pub event_types : List String
event_types =
    "hello" ∷ "auth_ok" ∷ "auth_error" ∷ "session_list" ∷ "output" ∷ "policy_update"
    ∷ "heartbeat_ack" ∷ "ack" ∷ "error" ∷ []

abbrev pub event_name : (event_type : String) → String
event_name event_type = if contains event_type event_types then event_type else "unknown"

-- The `switch` of `dispatchIncoming`, for messages that reply to no request.
unfoldable pub emit_message : Message → Client → Step
unfolding is_event_payload
emit_message message c =
    if not (is_event_payload message.event_type message.payload)
    then (c, parse_error_emitted ∷ [])
    else (
      (if message.event_type == "hello"
          then record c { hello_payload = some message.payload }
          else c),
      emitted (event_name message.event_type) message ∷ [],
    )

-- A message with this request identifier, if any; without one it is dropped.
unfoldable pub dispatch_to : (request_id : Option String) → Message → Client → Step
unfolding outcome_of emit_message
dispatch_to none message c = (c, [])
dispatch_to (some request_id) message c = elim (get request_id c.pending_requests) [
  | some expected ↦ (
    record c { pending_requests = delete request_id c.pending_requests },
    settled request_id (outcome_of expected message) ∷ [],
  )
  | none ↦ emit_message message c
]

unfoldable pub dispatch_incoming : Message → Client → Step
unfolding dispatch_to
dispatch_incoming message c = dispatch_to message.request_id message c

-- A promise that was rejected is not settled again.
unfoldable pub resolution : (attempt : ℕ) → Client → List Effect
resolution attempt c =
    if is_waiting (get attempt c.handshakes) then handshake_settled attempt true ∷ [] else []

-- `handleMessage`; `none` is a frame that the protocol's parser refuses.
unfoldable pub on_message : (attempt : ℕ) → Option Message → Client → Step
unfolding dispatch_incoming settle_error resolution is_hello_payload
on_message attempt none c = (c, parse_error_emitted ∷ [])
on_message attempt (some message) c =
    if not (is_resolved (get attempt c.handshakes)) && message.event_type == "hello"
    then if is_hello_payload message.payload
      then then_do
          (
            record c {
              handshakes = set attempt (resolved_handshake, false) c.handshakes;
              hello_payload = some message.payload;
            },
            emitted "hello" message ∷ resolution attempt c,
          )
          (dispatch_incoming message)
      else settle_error attempt c
    else dispatch_incoming message c

-- `sendRequest`; `is_sent` is false where `socket.send` throws, and the caller sees that error.
unfoldable pub send_request : ClientCommand → (request_id : String) (is_sent : Bool) → Client → Step
unfolding close
send_request command request_id is_sent c = elim c.socket [
  | none ↦ (c, thrown ∷ [])
  | some current ↦
      let waiting_reply = record c {
        pending_requests = set request_id (expected_response_types command) c.pending_requests;
      } in
      let closed = close waiting_reply in
      if not (is_open current.1)
      then (c, thrown ∷ [])
      else if is_sent
      then (waiting_reply, [])
      else (
        record closed.0 { pending_requests = delete request_id closed.0.pending_requests },
        closed.1 ++ thrown ∷ [],
      )
]

-- A call of a method, or what the socket and the timers report.
pub data Event : Type 0 where
  connect_called : (attempt : ℕ) → Event
  protocol_loaded : (attempt : ℕ) (is_loaded : Bool) → Event
  close_called : Event
  request_made : ClientCommand → (request_id : String) (is_sent : Bool) → Event
  socket_opened socket_failed socket_ended : (attempt : ℕ) → Event
  frame_received : (attempt : ℕ) → Option Message → Event
  handshake_timed_out : (attempt : ℕ) → Event
  request_timed_out : (request_id : String) → Event

-- Listeners hear the socket that the client holds, and those that were replaced before their
-- listeners were removed.
abbrev pub hears : (attempt : ℕ) → Client → Bool
hears attempt c = holds_socket attempt c || contains attempt c.orphans

unfoldable pub step : Event → Client → Step
unfolding connect on_protocol close send_request on_close on_message on_handshake_timeout
    on_request_timeout settle_error
step (connect_called attempt) c = connect attempt c
step (protocol_loaded attempt is_loaded) c = on_protocol attempt is_loaded c
step close_called c = close c
step (request_made command request_id is_sent) c = send_request command request_id is_sent c
step (socket_opened attempt) c = if hears attempt c then on_open attempt c else (c, [])
step (socket_failed attempt) c = if hears attempt c then settle_error attempt c else (c, [])
step (socket_ended attempt) c = if hears attempt c then on_close attempt c else (c, [])
step (frame_received attempt message) c =
    if hears attempt c then on_message attempt message c else (c, [])
step (handshake_timed_out attempt) c = on_handshake_timeout attempt c
step (request_timed_out request_id) c = on_request_timeout request_id c

-- A new client.
abbrev pub create : (request_timeout_ms : ℕ) → Client
create request_timeout_ms = record {
  calls = [];
  socket = none;
  orphans = [];
  hello_payload = none;
  handshakes = [];
  pending_requests = [];
  request_timeout_ms = request_timeout_ms;
}

unfoldable pub run : List Event → Client → Step
unfolding step
run [] c = (c, [])
run (event ∷ events) c = then_do (step event c) (run events)
