-- ===== src/Client/Connected.antt =====
-- packages/commandrelay-client/src/index.ts: requests wait only while there is a socket.
use command_relay.Common.{
  ℕ, Bool, true, false, not, ◌&&◌, Option, none, some, List, [], ◌∷◌, String, ◌≡◌, refl, sym, ap,
  ◌∙◌, inl, inr, Option-cases, if_both, is_some, if◌then◌else◌, ◌==◌, nat_eq, string_eq, contains,
  remove,
}
use command_relay.Common.Assoc.{get, set, delete, has}
use command_relay.Client.{
  Client, Step, Event, Message, connect_called, protocol_loaded, on_protocol, open_socket,
  with_state, holds_socket, ReadyState, opened, close_called, request_made, socket_opened,
  socket_failed, socket_ended, frame_received, handshake_timed_out, request_timed_out, closing,
  rejected_handshake, resolved_handshake, then_do, clear_pending_requests, clear_socket,
  close_socket, settle_error, connect, close, on_open, on_close, on_handshake_timeout,
  on_request_timeout, emit_message, dispatch_to, dispatch_incoming, on_message, send_request, step,
  run, create, is_open, hears, is_waiting, is_resolved, is_timed, resolution, socket_closed, thrown,
  emitted, handshake_settled, terminated, parse_error_emitted, settled, rejected, request_timeout,
  event_name,
}
use command_relay.Client.Payloads.{
  ClientCommand, expected_response_types, is_hello_payload, is_event_payload,
}

abbrev pub IsConnected : Client → Type 0
IsConnected c = c.socket ≡ none → c.pending_requests ≡ []

-- There is a socket, or nothing waits.
cleared : (c : Client) → IsConnected (clear_socket c).0
unfolding clear_socket clear_pending_requests
cleared c h = refl

settle_error-IsConnected :
    (attempt : ℕ) (c : Client) → IsConnected c → IsConnected (settle_error attempt c).0
unfolding settle_error clear_socket clear_pending_requests
settle_error-IsConnected attempt c h =
    if_both (λ (s : Step). IsConnected s.0) (is_waiting (get attempt c.handshakes))
      (then_do
        (clear_socket
          (record c { handshakes = set attempt (rejected_handshake, false) c.handshakes }))
        (λ d. (d, handshake_settled attempt false ∷ [])))
      (c, []) (λ e. refl) h

delete-IsConnected :
    (c : Client) (request_id : String)
    → IsConnected c
    → IsConnected (record c { pending_requests = delete request_id c.pending_requests })
delete-IsConnected c request_id h e = ap (delete request_id) (h e)

-- The state of a socket changes, and whether there is one does not.
state_kept :
    {P : Type 0} (b : Bool) (new : ℕ × ReadyState) (current : Option (ℕ × ReadyState))
    → (current ≡ none → P)
    → (if b then some new else current) ≡ none
    → P
state_kept true new current h e = cc
state_kept false new current h e = h e

with_state-IsConnected :
    (attempt : ℕ) (state : ReadyState) (c : Client)
    → IsConnected c
    → IsConnected (with_state attempt state c)
with_state-IsConnected attempt state c h =
    state_kept (holds_socket attempt c) (attempt, state) c.socket h

on_close-IsConnected :
    (attempt : ℕ) (c : Client) → IsConnected c → IsConnected (on_close attempt c).0
unfolding on_close clear_socket clear_pending_requests
on_close-IsConnected attempt c h =
    let closed = with_state attempt closing c in
    if_both (λ (s : Step). IsConnected s.0) (not (is_resolved (get attempt closed.handshakes)))
      (settle_error attempt closed)
      (then_do (clear_pending_requests socket_closed closed) clear_socket)
      (settle_error-IsConnected attempt closed (with_state-IsConnected attempt closing c h))
      (λ e. refl)

emit_message-IsConnected :
    (message : Message) (c : Client) → IsConnected c → IsConnected (emit_message message c).0
unfolding emit_message
emit_message-IsConnected message c h =
    if_both (λ (s : Step). IsConnected s.0)
      (not (is_event_payload message.event_type message.payload)) (c, parse_error_emitted ∷ [])
      (
        (if message.event_type == "hello"
            then record c { hello_payload = some message.payload }
            else c),
        emitted (event_name message.event_type) message ∷ [],
      )
      h
      (if_both IsConnected (message.event_type == "hello")
        (record c { hello_payload = some message.payload }) c h h)

dispatch_to-IsConnected :
    (given : Option String) (message : Message) (c : Client)
    → IsConnected c
    → IsConnected (dispatch_to given message c).0
unfolding dispatch_to
dispatch_to-IsConnected none message c h = h
dispatch_to-IsConnected (some request_id) message c h =
    elim (Option-cases (get request_id c.pending_requests)) [
      | inl gone ↦ rw (dispatch_to, gone) (emit_message-IsConnected message c h)
      | inr (expected, found) ↦ rw (dispatch_to, found) (delete-IsConnected c request_id h)
    ]

dispatch-IsConnected :
    (message : Message) (c : Client) → IsConnected c → IsConnected (dispatch_incoming message c).0
unfolding dispatch_incoming
dispatch-IsConnected message c h = dispatch_to-IsConnected message.request_id message c h

on_message-IsConnected :
    (attempt : ℕ) (o : Option Message) (c : Client)
    → IsConnected c
    → IsConnected (on_message attempt o c).0
unfolding on_message
on_message-IsConnected attempt none c h = h
on_message-IsConnected attempt (some message) c h =
    let ready = record c {
      handshakes = set attempt (resolved_handshake, false) c.handshakes;
      hello_payload = some message.payload;
    } in
    let greeted : Step =
      then_do (ready, emitted "hello" message ∷ resolution attempt c) (dispatch_incoming message) in
    if_both (λ (s : Step). IsConnected s.0)
      (not (is_resolved (get attempt c.handshakes)) && message.event_type == "hello")
      (if is_hello_payload message.payload then greeted else settle_error attempt c)
      (dispatch_incoming message c)
      (if_both (λ (s : Step). IsConnected s.0) (is_hello_payload message.payload) greeted
        (settle_error attempt c) (dispatch-IsConnected message ready h)
        (settle_error-IsConnected attempt c h))
      (dispatch-IsConnected message c h)

send-IsConnected :
    (command : ClientCommand) (request_id : String) (is_sent : Bool) (c : Client)
    → IsConnected c
    → IsConnected (send_request command request_id is_sent c).0
unfolding send_request close clear_socket clear_pending_requests
send-IsConnected command request_id is_sent c h = elim (Option-cases c.socket) [
  | inl missing ↦ rw (send_request, missing) h
  | inr (current, there) ↦
      let waiting_reply = record c {
        pending_requests = set request_id (expected_response_types command) c.pending_requests;
      } in
      let closed = close waiting_reply in
      rw (send_request, there)
        (if_both (λ (s : Step). IsConnected s.0) (not (is_open current.1)) (c, thrown ∷ []) _ h
          (if_both (λ (s : Step). IsConnected s.0) is_sent (waiting_reply, []) _
            (λ e. let no = sym there ∙ e in cc) (λ e. refl)))
]

connect-IsConnected : (attempt : ℕ) (c : Client) → IsConnected c → IsConnected (connect attempt c).0
unfolding connect
connect-IsConnected attempt c h =
    if_both (λ (s : Step). IsConnected s.0) (is_some c.socket) (c, thrown ∷ [])
      (record c { calls = attempt ∷ c.calls }, []) h h

on_protocol-IsConnected :
    (attempt : ℕ) (is_loaded : Bool) (c : Client)
    → IsConnected c
    → IsConnected (on_protocol attempt is_loaded c).0
unfolding on_protocol open_socket
on_protocol-IsConnected attempt is_loaded c h =
    let failed = record c { calls = remove attempt c.calls } in
    if_both (λ (s : Step). IsConnected s.0) (not (contains attempt c.calls)) (c, []) _ h
      (if_both (λ (s : Step). IsConnected s.0) is_loaded (open_socket attempt c)
        (failed, thrown ∷ []) (λ e. cc) h)

timeout-IsConnected :
    (request_id : String) (c : Client)
    → IsConnected c
    → IsConnected (on_request_timeout request_id c).0
unfolding on_request_timeout
timeout-IsConnected request_id c h =
    if_both (λ (s : Step). IsConnected s.0) (has request_id c.pending_requests)
      (
        record c { pending_requests = delete request_id c.pending_requests },
        settled request_id (rejected request_timeout) ∷ [],
      )
      (c, []) (delete-IsConnected c request_id h) h

handshake_timeout-IsConnected :
    (attempt : ℕ) (c : Client) → IsConnected c → IsConnected (on_handshake_timeout attempt c).0
unfolding on_handshake_timeout
handshake_timeout-IsConnected attempt c h =
    if_both (λ (s : Step). IsConnected s.0) (is_timed (get attempt c.handshakes))
      (then_do (c, terminated attempt ∷ []) (settle_error attempt)) (c, [])
      (settle_error-IsConnected attempt c h) h

heard-IsConnected :
    (attempt : ℕ) (c : Client) (s : Step)
    → IsConnected c
    → IsConnected s.0
    → IsConnected (if hears attempt c then s else (c, [])).0
heard-IsConnected attempt c s h k =
    if_both (λ (t : Step). IsConnected t.0) (hears attempt c) s (c, []) k h

step-IsConnected : (event : Event) (c : Client) → IsConnected c → IsConnected (step event c).0
unfolding step close
step-IsConnected (connect_called attempt) c h = connect-IsConnected attempt c h
step-IsConnected (protocol_loaded attempt is_loaded) c h =
    on_protocol-IsConnected attempt is_loaded c h
step-IsConnected close_called c h = cleared (close_socket c)
step-IsConnected (request_made command request_id is_sent) c h =
    send-IsConnected command request_id is_sent c h
step-IsConnected (socket_opened attempt) c h =
    heard-IsConnected attempt c (on_open attempt c) h (with_state-IsConnected attempt opened c h)
step-IsConnected (socket_failed attempt) c h =
    heard-IsConnected attempt c (settle_error attempt c) h (settle_error-IsConnected attempt c h)
step-IsConnected (socket_ended attempt) c h =
    heard-IsConnected attempt c (on_close attempt c) h (on_close-IsConnected attempt c h)
step-IsConnected (frame_received attempt message) c h =
    heard-IsConnected attempt c (on_message attempt message c) h
      (on_message-IsConnected attempt message c h)
step-IsConnected (handshake_timed_out attempt) c h = handshake_timeout-IsConnected attempt c h
step-IsConnected (request_timed_out request_id) c h = timeout-IsConnected request_id c h

events-IsConnected :
    (events : List Event) (c : Client) → IsConnected c → IsConnected (run events c).0
unfolding run
events-IsConnected [] c h = h
events-IsConnected (event ∷ events) c h =
    events-IsConnected events (step event c).0 (step-IsConnected event c h)

-- Whatever happens, a client that holds no socket has no request that waits.
pub run-IsConnected :
    (request_timeout_ms : ℕ) (events : List Event)
    → IsConnected (run events (create request_timeout_ms)).0
run-IsConnected request_timeout_ms events =
    events-IsConnected events (create request_timeout_ms) (λ e. refl)
