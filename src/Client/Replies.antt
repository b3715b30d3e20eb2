-- ===== src/Client/Replies.antt =====
-- packages/commandrelay-client/src/index.ts: which frames a request may be resolved by.
use command_relay.Common.{
  ℕ, true, false, not, ◌&&◌, Option, none, some, List, [], ◌∷◌, String, ◌≡◌, refl, inl, inr,
  Bool-cases, Option-cases, if_both, if◌then◌else◌, ◌==◌, nat_eq, string_eq, contains, map, All,
  All-append,
}
use command_relay.Common.Assoc.{get, set}
use command_relay.Client.{
  Client, Step, Message, Effect, settled, emitted, parse_error_emitted, handshake_settled, resolved,
  rejected, Failure, connection_closed, ReadyState, connecting, opened, closing, rejected_handshake,
  resolved_handshake, then_do, termination, clear_pending_requests, clear_socket, settle_error,
  is_error_type, outcome_of, emit_message, dispatch_to, dispatch_incoming, on_message, is_waiting,
  is_resolved, resolution,
}
use command_relay.Client.Payloads.{is_response_payload_valid, is_hello_payload, is_event_payload}

-- The frame names the request, has a type that its command expects, no error, and a payload that
-- is valid for that type.
abbrev pub IsReply : (c : Client) (message : Message) (request_id : String) → Type 0
IsReply c message request_id =
    (expected : List String) × (message.request_id ≡ some request_id)
    × (get request_id c.pending_requests ≡ some expected)
    × (contains message.event_type expected ≡ true)
    × (is_response_payload_valid message.event_type message.payload ≡ true)
    × (is_error_type message.event_type ≡ false)

abbrev pub ReplyOnly : Client → Message → Effect → Type 0
ReplyOnly c message (settled request_id (resolved reply)) =
    (reply ≡ message) × IsReply c message request_id
ReplyOnly c message _ = Unit

rejected-ReplyOnly :
    (c : Client) (message : Message) (error : Failure) (pending : List (String × List String))
    → All
        (ReplyOnly c message)
        (map (λ (entry : String × List String). settled entry.0 (rejected error)) pending)
rejected-ReplyOnly c message error [] = tt
rejected-ReplyOnly c message error (entry ∷ pending) =
    (tt, rejected-ReplyOnly c message error pending)

termination-ReplyOnly :
    (c : Client) (message : Message) (socket : Option (ℕ × ReadyState))
    → All (ReplyOnly c message) (termination socket)
termination-ReplyOnly c message none = tt
termination-ReplyOnly c message (some (attempt, connecting)) = (tt, tt)
termination-ReplyOnly c message (some (attempt, opened)) = (tt, tt)
termination-ReplyOnly c message (some (attempt, closing)) = tt

settle_error-ReplyOnly :
    (c d : Client) (message : Message) (attempt : ℕ)
    → All (ReplyOnly c message) (settle_error attempt d).1
unfolding settle_error clear_socket clear_pending_requests
settle_error-ReplyOnly c d message attempt =
    if_both (λ (s : Step). All (ReplyOnly c message) s.1) (is_waiting (get attempt d.handshakes))
      (then_do
        (clear_socket
          (record d { handshakes = set attempt (rejected_handshake, false) d.handshakes }))
        (λ e. (e, handshake_settled attempt false ∷ [])))
      (d, [])
      (All-append (ReplyOnly c message) _ (handshake_settled attempt false ∷ [])
        (All-append (ReplyOnly c message) (termination d.socket) _
          (termination-ReplyOnly c message d.socket)
          (rejected-ReplyOnly c message connection_closed d.pending_requests))
        (tt, tt))
      tt

outcome-ReplyOnly :
    (c : Client) (message : Message) (request_id : String) (expected : List String)
    → message.request_id ≡ some request_id
    → get request_id c.pending_requests ≡ some expected
    → ReplyOnly c message (settled request_id (outcome_of expected message))
unfolding outcome_of
outcome-ReplyOnly c message request_id expected given found =
    elim (Bool-cases (contains message.event_type expected)) [
      | inr unknown ↦ rw (outcome_of, unknown) tt
      | inl known ↦
          elim (Bool-cases (is_response_payload_valid message.event_type message.payload)) [
            | inr invalid ↦ rw (outcome_of, known, invalid) tt
            | inl valid ↦ elim (Bool-cases (is_error_type message.event_type)) [
              | inl fails ↦ rw (outcome_of, known, valid, fails) tt
              | inr fine ↦
                  rw (outcome_of, known, valid, fine)
                    (refl, (expected, given, found, known, valid, fine))
            ]
          ]
    ]

dispatch-ReplyOnly :
    (c : Client) (message : Message) (given : Option String)
    → message.request_id ≡ given
    → All (ReplyOnly c message) (dispatch_to given message c).1
unfolding dispatch_to emit_message
dispatch-ReplyOnly c message none e = tt
dispatch-ReplyOnly c message (some request_id) e =
    elim (Option-cases (get request_id c.pending_requests)) [
      | inl gone ↦
          rw (dispatch_to, gone)
            (if_both (λ (s : Step). All (ReplyOnly c message) s.1)
              (not (is_event_payload message.event_type message.payload))
              (c, parse_error_emitted ∷ []) _ (tt, tt) (tt, tt))
      | inr (expected, found) ↦
          rw (dispatch_to, found) (outcome-ReplyOnly c message request_id expected e found, tt)
    ]

resolution-ReplyOnly :
    (c : Client) (message : Message) (attempt : ℕ)
    → All (ReplyOnly c message) (resolution attempt c)
unfolding resolution
resolution-ReplyOnly c message attempt =
    if_both (All (ReplyOnly c message)) (is_waiting (get attempt c.handshakes))
      (handshake_settled attempt true ∷ []) [] (tt, tt) tt

-- A frame resolves a request only as its reply.
pub on_message-ReplyOnly :
    (attempt : ℕ) (message : Message) (c : Client)
    → All (ReplyOnly c message) (on_message attempt (some message) c).1
unfolding on_message dispatch_incoming
on_message-ReplyOnly attempt message c =
    let ready = record c {
      handshakes = set attempt (resolved_handshake, false) c.handshakes;
      hello_payload = some message.payload;
    } in
    let greeted : Step =
      then_do (ready, emitted "hello" message ∷ resolution attempt c) (dispatch_incoming message) in
    if_both (λ (s : Step). All (ReplyOnly c message) s.1)
      (not (is_resolved (get attempt c.handshakes)) && message.event_type == "hello")
      (if is_hello_payload message.payload then greeted else settle_error attempt c)
      (dispatch_incoming message c)
      (if_both (λ (s : Step). All (ReplyOnly c message) s.1) (is_hello_payload message.payload)
        greeted (settle_error attempt c)
        (
          tt,
          All-append (ReplyOnly c message) (resolution attempt c) _
              (resolution-ReplyOnly c message attempt)
              (dispatch-ReplyOnly ready message message.request_id refl),
        )
        (settle_error-ReplyOnly c c message attempt))
      (dispatch-ReplyOnly c message message.request_id refl)
