-- ===== src/Client/Settling.antt =====
-- packages/commandrelay-client/src/index.ts: the promise of a request is settled once.
use command_relay.Common.{
  ℕ, ◌+◌, ◌≤◌, ◌<◌, false, not, Option, none, some, List, [], ◌∷◌, String, ◌≡◌, refl, ap, subst,
  ◌∙◌, arith, inl, inr, Bool-cases, Option-cases, if_both, if◌then◌else◌, ◌==◌, nat_eq, string_eq,
}
use command_relay.Common.Assoc.{get, set, delete}
use command_relay.Client.{
  with_state, Client, Step, settled, emitted, parse_error_emitted, close_emitted, handshake_settled,
  terminated, Outcome, rejected, Failure, connection_closed, request_timeout, socket_closed,
  Message, ReadyState, connecting, opened, closing, rejected_handshake, then_do, termination,
  clear_pending_requests, clear_socket, close_socket, settle_error, close, on_close,
  on_handshake_timeout, on_request_timeout, outcome_of, emit_message, event_name, dispatch_to,
  dispatch_incoming, is_waiting, is_resolved, is_timed,
}
use command_relay.Client.Payloads.{is_event_payload}
use command_relay.Client.Counts.{
  one_if, count_settled, count_pending, count_settled-append, count_settled-map,
  count_pending-delete, get-count_pending,
}

-- What is settled no longer waits.
unfoldable pub Balanced : Client → Step → Type 0
Balanced c s =
    (id : String)
    → count_settled id s.1 + count_pending id s.0.pending_requests
      ≡ count_pending id c.pending_requests

-- No request waits twice.
abbrev pub Unique : Client → Type 0
Unique c = (id : String) → count_pending id c.pending_requests ≤ 1

pub then_do-Balanced :
    (c : Client) (s : Step) (f : Client → Step)
    → Balanced c s
    → Balanced s.0 (f s.0)
    → Balanced c (then_do s f)
unfolding Balanced
then_do-Balanced c s f h k id = omega (arith, h id, k id, count_settled-append id s.1 (f s.0).1)

pub clear_pending-Balanced :
    (error : Failure) (c : Client) → Balanced c (clear_pending_requests error c)
unfolding Balanced clear_pending_requests
clear_pending-Balanced error c id = omega (arith, count_settled-map id error c.pending_requests)

termination-settled :
    (id : String) (socket : Option (ℕ × ReadyState)) → count_settled id (termination socket) ≡ 0
termination-settled id none = refl
termination-settled id (some (attempt, connecting)) = omega arith
termination-settled id (some (attempt, opened)) = omega arith
termination-settled id (some (attempt, closing)) = refl

-- Nothing is settled, and the same requests wait.
pub unsettled :
    (c : Client) (s : Step)
    → s.0.pending_requests ≡ c.pending_requests
    → ((id : String) → count_settled id s.1 ≡ 0)
    → Balanced c s
unfolding Balanced
unsettled c s same h id = omega (arith, h id, ap (count_pending id) same)

-- The same requests wait in another state.
pub moved_to :
    (c d : Client) (s : Step)
    → d.pending_requests ≡ c.pending_requests
    → Balanced d s
    → Balanced c s
unfolding Balanced
moved_to c d s same h id = h id ∙ ap (count_pending id) same

pub clear_socket-Balanced : (c : Client) → Balanced c (clear_socket c)
unfolding clear_socket
clear_socket-Balanced c =
    then_do-Balanced c (record c { socket = none; hello_payload = none }, termination c.socket)
      (clear_pending_requests connection_closed)
      (unsettled c _ refl (λ id. termination-settled id c.socket))
      (clear_pending-Balanced connection_closed (record c { socket = none; hello_payload = none }))

pub settle_one-Balanced :
    (c : Client) (request_id : String) (outcome : Outcome) (expected : List String)
    → Unique c
    → get request_id c.pending_requests ≡ some expected
    → Balanced c (
      record c { pending_requests = delete request_id c.pending_requests },
      settled request_id outcome ∷ [],
    )
unfolding Balanced
settle_one-Balanced c request_id outcome expected unique found id =
    let rest = count_pending-delete id request_id c.pending_requests in
    elim (Bool-cases (request_id == id)) [
      | inl here ↦
          let equal = (string_eq.equals_iff request_id id).0 here in
          let waits =
            subst (λ r. 0 < count_pending r c.pending_requests) equal
              (get-count_pending request_id c.pending_requests expected found) in
          let gone : count_pending id (delete request_id c.pending_requests) ≡ 0 =
            rest ∙ ap (λ b. if b then 0 else count_pending id c.pending_requests) here in
          omega (arith, ap one_if here, gone, waits, unique id)
      | inr elsewhere ↦
          let kept =
            rest ∙ ap (λ b. if b then 0 else count_pending id c.pending_requests) elsewhere in
          omega (arith, ap one_if elsewhere, kept)
    ]

pub settle_error-Balanced : (attempt : ℕ) (c : Client) → Balanced c (settle_error attempt c)
unfolding settle_error
settle_error-Balanced attempt c =
    let marked = record c { handshakes = set attempt (rejected_handshake, false) c.handshakes } in
    if_both (Balanced c) (is_waiting (get attempt c.handshakes))
      (then_do (clear_socket marked) (λ d. (d, handshake_settled attempt false ∷ []))) (c, [])
      (then_do-Balanced c (clear_socket marked) (λ d. (d, handshake_settled attempt false ∷ []))
        (moved_to c marked _ refl (clear_socket-Balanced marked))
        (unsettled (clear_socket marked).0 _ refl (λ id. omega arith)))
      (unsettled c _ refl (λ id. refl))

pub close-Balanced : (c : Client) → Balanced c (close c)
unfolding close
close-Balanced c =
    moved_to c (close_socket c) (close c) refl (clear_socket-Balanced (close_socket c))

pub on_close-Balanced : (attempt : ℕ) (c : Client) → Balanced c (on_close attempt c)
unfolding on_close
on_close-Balanced attempt c =
    let closed = with_state attempt closing c in
    let ended : Step = then_do (clear_pending_requests socket_closed closed) clear_socket in
    then_do-Balanced c (closed, close_emitted ∷ [])
      (λ d.
        if not (is_resolved (get attempt d.handshakes))
        then settle_error attempt d
        else then_do (clear_pending_requests socket_closed d) clear_socket)
      (unsettled c _ refl (λ id. omega arith))
      (if_both (Balanced closed) (not (is_resolved (get attempt closed.handshakes)))
        (settle_error attempt closed) ended (settle_error-Balanced attempt closed)
        (then_do-Balanced closed (clear_pending_requests socket_closed closed) clear_socket
          (clear_pending-Balanced socket_closed closed)
          (clear_socket-Balanced (clear_pending_requests socket_closed closed).0)))

pub on_handshake_timeout-Balanced :
    (attempt : ℕ) (c : Client) → Balanced c (on_handshake_timeout attempt c)
unfolding on_handshake_timeout
on_handshake_timeout-Balanced attempt c =
    if_both (Balanced c) (is_timed (get attempt c.handshakes))
      (then_do (c, terminated attempt ∷ []) (settle_error attempt)) (c, [])
      (then_do-Balanced c (c, terminated attempt ∷ []) (settle_error attempt)
        (unsettled c _ refl (λ id. omega arith)) (settle_error-Balanced attempt c))
      (unsettled c _ refl (λ id. refl))

pub on_request_timeout-Balanced :
    (request_id : String) (c : Client) → Unique c → Balanced c (on_request_timeout request_id c)
unfolding on_request_timeout
on_request_timeout-Balanced request_id c unique =
    elim (Option-cases (get request_id c.pending_requests)) [
      | inl gone ↦ rw (on_request_timeout, gone) (unsettled c _ refl (λ id. refl))
      | inr (expected, found) ↦
          rw (on_request_timeout, found)
            (settle_one-Balanced c request_id (rejected request_timeout) expected unique found)
    ]

pub emit_message-Balanced : (message : Message) (c : Client) → Balanced c (emit_message message c)
unfolding emit_message
emit_message-Balanced message c =
    if_both (Balanced c) (not (is_event_payload message.event_type message.payload))
      (c, parse_error_emitted ∷ [])
      (
        (if message.event_type == "hello"
            then record c { hello_payload = some message.payload }
            else c),
        emitted (event_name message.event_type) message ∷ [],
      )
      (unsettled c _ refl (λ id. omega arith))
      (unsettled c _
        (if_both (λ d. d.pending_requests ≡ c.pending_requests) (message.event_type == "hello")
          (record c { hello_payload = some message.payload }) c refl refl)
        (λ id. omega arith))

dispatch_to-Balanced :
    (given : Option String) (message : Message) (c : Client)
    → Unique c
    → Balanced c (dispatch_to given message c)
unfolding dispatch_to
dispatch_to-Balanced none message c unique = unsettled c _ refl (λ id. refl)
dispatch_to-Balanced (some request_id) message c unique =
    elim (Option-cases (get request_id c.pending_requests)) [
      | inl gone ↦ rw (dispatch_to, gone) (emit_message-Balanced message c)
      | inr (expected, found) ↦
          rw (dispatch_to, found)
            (settle_one-Balanced c request_id (outcome_of expected message) expected unique found)
    ]

pub dispatch-Balanced :
    (message : Message) (c : Client) → Unique c → Balanced c (dispatch_incoming message c)
unfolding dispatch_incoming
dispatch-Balanced message c = dispatch_to-Balanced message.request_id message c
