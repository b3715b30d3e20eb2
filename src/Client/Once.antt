-- ===== src/Client/Once.antt =====
-- packages/commandrelay-client/src/index.ts: over a run of a client, the promise of each request is
-- settled once or still waits.
use command_relay.Common.{
  ℕ, ◌+◌, ◌≤◌, Bool, true, false, not, ◌&&◌, Option, none, some, List, [], ◌∷◌, ◌++◌, String, ◌≡◌,
  refl, ap, arith, inl, inr, Bool-cases, Option-cases, is_some, if_both, if◌then◌else◌, ◌==◌,
  nat_eq, string_eq, contains, remove,
}
use command_relay.Common.Assoc.{get, set, delete}
use command_relay.Client.{
  Client, Step, emitted, handshake_settled, thrown, Message, Event, connect_called, protocol_loaded,
  on_protocol, open_socket, close_called, request_made, socket_opened, socket_failed, socket_ended,
  frame_received, handshake_timed_out, request_timed_out, resolved_handshake, then_do,
  clear_pending_requests, clear_socket, settle_error, connect, close, on_open, on_close,
  dispatch_incoming, on_message, send_request, step, run, create, is_open, hears, is_waiting,
  is_resolved, resolution,
}
use command_relay.Client.Payloads.{ClientCommand, expected_response_types, is_hello_payload}
use command_relay.Client.Counts.{
  one_if, count_settled, count_pending, count_settled-append, count_pending-set,
}
use command_relay.Client.Settling.{
  Balanced, Unique, then_do-Balanced, unsettled, settle_error-Balanced, close-Balanced,
  on_close-Balanced, on_handshake_timeout-Balanced, on_request_timeout-Balanced, dispatch-Balanced,
}

resolution_unsettled :
    (attempt : ℕ) (c : Client) (id : String) → count_settled id (resolution attempt c) ≡ 0
unfolding resolution
resolution_unsettled attempt c id =
    if_both (λ effects. count_settled id effects ≡ 0) (is_waiting (get attempt c.handshakes))
      (handshake_settled attempt true ∷ []) [] (omega arith) refl

on_message-Balanced :
    (attempt : ℕ) (o : Option Message) (c : Client) → Unique c → Balanced c (on_message attempt o c)
unfolding on_message
on_message-Balanced attempt none c unique = unsettled c _ refl (λ id. omega arith)
on_message-Balanced attempt (some message) c unique =
    let ready = record c {
      handshakes = set attempt (resolved_handshake, false) c.handshakes;
      hello_payload = some message.payload;
    } in
    let greeted : Step =
      then_do (ready, emitted "hello" message ∷ resolution attempt c) (dispatch_incoming message) in
    if_both (Balanced c)
      (not (is_resolved (get attempt c.handshakes)) && message.event_type == "hello")
      (if is_hello_payload message.payload then greeted else settle_error attempt c)
      (dispatch_incoming message c)
      (if_both (Balanced c) (is_hello_payload message.payload) greeted (settle_error attempt c)
        (then_do-Balanced c (ready, emitted "hello" message ∷ resolution attempt c)
          (dispatch_incoming message)
          (unsettled c _ refl (λ id. omega (arith, resolution_unsettled attempt c id)))
          (dispatch-Balanced message ready unique))
        (settle_error-Balanced attempt c))
      (dispatch-Balanced message c unique)

connect-Balanced : (attempt : ℕ) (c : Client) → Balanced c (connect attempt c)
unfolding connect
connect-Balanced attempt c =
    if_both (Balanced c) (is_some c.socket) (c, thrown ∷ [])
      (record c { calls = attempt ∷ c.calls }, []) (unsettled c _ refl (λ id. omega arith))
      (unsettled c _ refl (λ id. refl))

on_protocol-Balanced :
    (attempt : ℕ) (is_loaded : Bool) (c : Client) → Balanced c (on_protocol attempt is_loaded c)
unfolding on_protocol open_socket
on_protocol-Balanced attempt is_loaded c =
    let failed = record c { calls = remove attempt c.calls } in
    if_both (Balanced c) (not (contains attempt c.calls)) (c, []) _
      (unsettled c _ refl (λ id. refl))
      (if_both (Balanced c) is_loaded (open_socket attempt c) (failed, thrown ∷ [])
        (unsettled c _ refl (λ id. refl)) (unsettled c _ refl (λ id. omega arith)))

-- A request that is made at an open socket.
abbrev pub made : (id : String) → Event → Client → ℕ
made id (request_made command request_id is_sent) c = elim c.socket [
  | none ↦ 0
  | some current ↦ if is_open current.1 then one_if (request_id == id) else 0
]
made id _ c = 0

-- A request that is made is settled or waits.
Accounted : Event → Client → Type 0
Accounted event c =
    (id : String)
    → count_settled id (step event c).1 + count_pending id (step event c).0.pending_requests
      ≡ count_pending id c.pending_requests + made id event c

accounted :
    (event : Event) (c : Client)
    → ((id : String) → made id event c ≡ 0)
    → Balanced c (step event c)
    → Accounted event c
unfolding Accounted Balanced
accounted event c none_made h id = omega (arith, h id, none_made id)

close-empties : (c : Client) → (close c).0.pending_requests ≡ []
unfolding close clear_socket clear_pending_requests
close-empties c = refl

-- A request at an open socket, by whether it could be sent.
made_request :
    (c waiting_reply : Client) (request_id : String) (is_sent : Bool)
    → ((id : String)
        → count_pending id waiting_reply.pending_requests
          ≡ count_pending id c.pending_requests + one_if (request_id == id))
    → (id : String)
    → let closed = close waiting_reply in
      let s : Step = if is_sent then (waiting_reply, []) else (
        record closed.0 { pending_requests = delete request_id closed.0.pending_requests },
        closed.1 ++ thrown ∷ [],
      ) in
      count_settled id s.1 + count_pending id s.0.pending_requests
      ≡ count_pending id c.pending_requests + one_if (request_id == id)
unfolding Balanced
made_request c waiting_reply request_id true grown id = omega (arith, grown id)
made_request c waiting_reply request_id false grown id =
    let closed = close waiting_reply in
    let balance = close-Balanced waiting_reply id in
    let empty = close-empties waiting_reply in
    let left : count_pending id closed.0.pending_requests ≡ 0 = ap (count_pending id) empty in
    let deleted : count_pending id (delete request_id closed.0.pending_requests) ≡ 0 =
      ap (λ p. count_pending id (delete request_id p)) empty in
    omega (arith, grown id, balance, left, deleted, count_settled-append id closed.1 (thrown ∷ []))

send-Accounted :
    (command : ClientCommand) (request_id : String) (is_sent : Bool) (c : Client)
    → count_pending request_id c.pending_requests ≡ 0
    → Accounted (request_made command request_id is_sent) c
unfolding Accounted step send_request
send-Accounted command request_id is_sent c fresh id = elim (Option-cases c.socket) [
  | inl missing ↦ rw (send_request, missing) (omega arith)
  | inr (current, there) ↦ elim (Bool-cases (is_open current.1)) [
    | inl up ↦
        rw (send_request, there, up)
          (made_request c
            (record c {
              pending_requests =
                  set request_id (expected_response_types command) c.pending_requests;
            })
            request_id is_sent
            (λ other.
              count_pending-set other request_id (expected_response_types command)
                c.pending_requests fresh)
            id)
    | inr down ↦ rw (send_request, there, down) (omega arith)
  ]
]

-- Whether an event asks for a request with this identifier.
abbrev pub asks : (id : String) → Event → ℕ
asks id (request_made command request_id is_sent) = one_if (request_id == id)
asks id _ = 0

one_if_same : (request_id : String) → one_if (request_id == request_id) ≡ 1
one_if_same request_id = ap one_if ((string_eq.equals_iff request_id request_id).1 refl)

heard :
    (attempt : ℕ) (c : Client) (s : Step)
    → Balanced c s
    → Balanced c (if hears attempt c then s else (c, []))
heard attempt c s h =
    if_both (Balanced c) (hears attempt c) s (c, []) h (unsettled c _ refl (λ id. refl))

step-Accounted :
    (event : Event) (c : Client)
    → ((id : String) → asks id event + count_pending id c.pending_requests ≤ 1)
    → Accounted event c
unfolding step
step-Accounted (request_made command request_id is_sent) c fresh =
    send-Accounted command request_id is_sent c
      (omega (arith, fresh request_id, one_if_same request_id))
step-Accounted (connect_called attempt) c fresh =
    accounted _ c (λ id. refl) (connect-Balanced attempt c)
step-Accounted (protocol_loaded attempt is_loaded) c fresh =
    accounted _ c (λ id. refl) (on_protocol-Balanced attempt is_loaded c)
step-Accounted close_called c fresh = accounted _ c (λ id. refl) (close-Balanced c)
step-Accounted (socket_opened attempt) c fresh =
    accounted _ c (λ id. refl)
      (heard attempt c (on_open attempt c) (unsettled c _ refl (λ id. omega arith)))
step-Accounted (socket_failed attempt) c fresh =
    accounted _ c (λ id. refl)
      (heard attempt c (settle_error attempt c) (settle_error-Balanced attempt c))
step-Accounted (socket_ended attempt) c fresh =
    accounted _ c (λ id. refl) (heard attempt c (on_close attempt c) (on_close-Balanced attempt c))
step-Accounted (frame_received attempt message) c fresh =
    accounted _ c (λ id. refl)
      (heard attempt c (on_message attempt message c)
        (on_message-Balanced attempt message c (λ id. omega (arith, fresh id))))
step-Accounted (handshake_timed_out attempt) c fresh =
    accounted _ c (λ id. refl) (on_handshake_timeout-Balanced attempt c)
step-Accounted (request_timed_out request_id) c fresh =
    accounted _ c (λ id. refl)
      (on_request_timeout-Balanced request_id c (λ id. omega (arith, fresh id)))

-- How often a request is asked for, and made at an open socket, in a run.
abbrev pub count_asks : (id : String) → List Event → ℕ
count_asks id [] = 0
count_asks id (event ∷ events) = asks id event + count_asks id events

unfoldable pub count_made : (id : String) → List Event → Client → ℕ
unfolding step
count_made id [] c = 0
count_made id (event ∷ events) c = made id event c + count_made id events (step event c).0

made-asks : (id : String) (event : Event) (c : Client) → made id event c ≤ asks id event
made-asks id (request_made command request_id is_sent) c = elim (Option-cases c.socket) [
  | inl missing ↦ rw missing (omega arith)
  | inr (current, there) ↦ rw there (
      if_both (λ n. n ≤ one_if (request_id == id)) (is_open current.1) (one_if (request_id == id)) 0
        (omega arith) (omega arith))
]
made-asks id (connect_called attempt) c = omega arith
made-asks id (protocol_loaded attempt is_loaded) c = omega arith
made-asks id close_called c = omega arith
made-asks id (socket_opened attempt) c = omega arith
made-asks id (socket_failed attempt) c = omega arith
made-asks id (socket_ended attempt) c = omega arith
made-asks id (frame_received attempt message) c = omega arith
made-asks id (handshake_timed_out attempt) c = omega arith
made-asks id (request_timed_out request_id) c = omega arith

run-Accounted :
    (events : List Event) (c : Client)
    → ((id : String) → count_asks id events + count_pending id c.pending_requests ≤ 1)
    → (id : String)
    → count_settled id (run events c).1 + count_pending id (run events c).0.pending_requests
      ≡ count_pending id c.pending_requests + count_made id events c
unfolding run count_made Accounted
run-Accounted [] c fresh id = omega arith
run-Accounted (event ∷ events) c fresh id =
    let now : (other : String) → _ = step-Accounted event c (λ other. omega (arith, fresh other)) in
    let later =
      run-Accounted events (step event c).0
        (λ other. omega (arith, fresh other, now other, made-asks other event c)) id in
    omega (
      arith,
      now id,
      later,
      count_settled-append id (step event c).1 (run events (step event c).0).1,
    )

count_made-le :
    (id : String) (events : List Event) (c : Client) → count_made id events c ≤ count_asks id events
unfolding count_made
count_made-le id [] c = omega arith
count_made-le id (event ∷ events) c =
    omega (arith, made-asks id event c, count_made-le id events (step event c).0)

-- Whatever callers, the socket and the timers do, where no identifier is given to two requests: a
-- request that was made at an open socket is settled once or still waits, one that was not made
-- is neither, and so none is settled twice.
pub run-settled_once :
    (request_timeout_ms : ℕ) (events : List Event)
    → ((id : String) → count_asks id events ≤ 1)
    → (id : String)
    → let ended = run events (create request_timeout_ms) in
      (count_settled id ended.1 + count_pending id ended.0.pending_requests
        ≡ count_made id events (create request_timeout_ms))
      × (count_settled id ended.1 ≤ 1)
run-settled_once request_timeout_ms events distinct id =
    let c = create request_timeout_ms in
    let total = run-Accounted events c (λ other. omega (arith, distinct other)) id in
    (omega (arith, total), omega (arith, total, count_made-le id events c, distinct id))
