-- ===== src/Relay.antt =====
-- packages/commandrelay-relay-proxy/src/index.ts: a session of the relay, which passes the frames
-- of a client on to its upstream socket and back. The sockets, the timers and the clock are
-- arguments of what happens.
pub mod Sessions
pub mod Fifo
pub mod Limits
pub mod Capacity
use command_relay.Common.{
  ℕ, zero, suc, ◌+◌, ◌-◌, Bool, true, false, ◌||◌, Option, none, some, List, [], ◌∷◌, ◌++◌, String,
  map, if◌then◌else◌, length, leb, ltb,
}

-- The data of a frame as `ws` gives it.
pub data RawData : Type 0 where
  buffer array_buffer text : (bytes : List ℕ) → RawData
  fragments : List (List ℕ) → RawData

abbrev pub get_byte_length : RawData → ℕ
get_byte_length (buffer bytes) = length bytes
get_byte_length (array_buffer bytes) = length bytes
get_byte_length (text bytes) = length bytes
get_byte_length (fragments parts) = 0

pub data SocketState : Type 0 where
  connecting opened closing : SocketState

abbrev pub is_opened : SocketState → Bool
is_opened opened = true
is_opened _ = false

abbrev pub is_connecting : SocketState → Bool
is_connecting connecting = true
is_connecting _ = false

abbrev pub max_upstream_pending_messages : ℕ
max_upstream_pending_messages = 64

abbrev pub max_upstream_pending_bytes : ℕ
max_upstream_pending_bytes = 16777216

pub record Session : Type 0 where
  pub client_state : SocketState
  pub upstream_state : SocketState
  pub last_activity_at_ms : ℕ
  pub upstream_bytes : ℕ
  pub downstream_bytes : ℕ
  pub pending_upstream_messages : List RawData
  pub pending_upstream_queued_bytes : ℕ

-- Frames sent, bytes that the statistics count, and how `closeSession` disposes of the sockets.
pub data Effect : Type 0 where
  to_upstream to_client : RawData → Effect
  upstream_counted downstream_counted : ℕ → Effect
  closed : (reason : String) (immediate : Bool) → Effect

-- No session is left once it is closed; its listeners are removed then.
abbrev pub Step : Type 0
Step = Option Session × List Effect

abbrev pub create_session : (now : ℕ) → Session
create_session now = record {
  client_state = opened;
  upstream_state = connecting;
  last_activity_at_ms = now;
  upstream_bytes = 0;
  downstream_bytes = 0;
  pending_upstream_messages = [];
  pending_upstream_queued_bytes = 0;
}

-- `closeSession`
abbrev pub close_session : (reason : String) (immediate : Bool) → Step
close_session reason immediate = (none, closed reason immediate ∷ [])

-- `safeSend`, where `is_sent` is false if the socket is not open or throws.
abbrev pub safe_send : (is_sent : Bool) → Effect → (reason : String) → Session → Step
safe_send true frame reason s = (some s, frame ∷ [])
safe_send false frame reason s = close_session reason true

abbrev pub counted : Effect → Step → Step
counted effect (s, effects) = (s, effect ∷ effects)

-- `upstream backlog full`
abbrev pub is_full : RawData → Session → Bool
is_full data_in s =
    leb max_upstream_pending_messages (length s.pending_upstream_messages)
    || ltb max_upstream_pending_bytes (s.pending_upstream_queued_bytes + get_byte_length data_in)

unfoldable pub on_client_message : (now : ℕ) → RawData → (is_sent : Bool) → Session → Step
on_client_message now data_in is_sent s =
    let bytes = get_byte_length data_in in
    let active = record s {
      last_activity_at_ms = now;
      upstream_bytes = s.upstream_bytes + bytes;
    } in
    counted (upstream_counted bytes) (
      if is_opened s.upstream_state
      then safe_send is_sent (to_upstream data_in) "upstream send failed" active
      else if is_full data_in s
      then close_session "upstream backlog full" true
      else (
        some (record active {
          pending_upstream_messages = s.pending_upstream_messages ++ data_in ∷ [];
          pending_upstream_queued_bytes = s.pending_upstream_queued_bytes + bytes;
        }),
        [],
      ))

-- The frames that the loop of `onUpstreamOpen` sends, and whether all were sent.
abbrev pub send_queued : (is_sent : ℕ → Bool) (n : ℕ) → List RawData → List RawData × Bool
send_queued is_sent n [] = ([], true)
send_queued is_sent n (frame ∷ frames) =
    let rest = send_queued is_sent (suc n) frames in
    if is_sent n then (frame ∷ rest.0, rest.1) else ([], false)

-- `onUpstreamOpen`, of a socket that was connecting.
unfoldable pub on_upstream_open : (now : ℕ) (is_sent : ℕ → Bool) → Session → Step
on_upstream_open now is_sent s =
    let queued = send_queued is_sent 0 s.pending_upstream_messages in
    if queued.1
    then (
      some (record s {
        upstream_state = opened;
        pending_upstream_messages = [];
        pending_upstream_queued_bytes = 0;
        last_activity_at_ms = now;
      }),
      map to_upstream queued.0,
    )
    else (none, map to_upstream queued.0 ++ closed "upstream queued send failed" true ∷ [])

unfoldable pub on_upstream_message : (now : ℕ) → RawData → (is_sent : Bool) → Session → Step
on_upstream_message now data_in is_sent s =
    let bytes = get_byte_length data_in in
    let active = record s {
      last_activity_at_ms = now;
      downstream_bytes = s.downstream_bytes + bytes;
    } in
    if is_opened s.client_state
    then counted (downstream_counted bytes)
        (safe_send is_sent (to_client data_in) "client send failed" active)
    else (some s, [])

-- The idle timer.
unfoldable pub check_idle_timeout : (now idle_timeout_ms : ℕ) → Session → Step
check_idle_timeout now idle_timeout_ms s =
    if ltb now (s.last_activity_at_ms + idle_timeout_ms)
    then (some s, [])
    else close_session "idle timeout" true

-- What the sockets and the timer of a session report.
pub data Event : Type 0 where
  client_sent upstream_sent : (now : ℕ) → RawData → (is_sent : Bool) → Event
  upstream_opened : (now : ℕ) (is_sent : ℕ → Bool) → Event
  client_closing upstream_closing : Event
  client_closed client_failed upstream_closed upstream_failed : Event
  idle_timed_out : (now idle_timeout_ms : ℕ) → Event

unfoldable pub handle : Event → Session → Step
unfolding on_client_message on_upstream_open on_upstream_message check_idle_timeout
handle (client_sent now data_in is_sent) s = on_client_message now data_in is_sent s
handle (upstream_sent now data_in is_sent) s = on_upstream_message now data_in is_sent s
handle (upstream_opened now is_sent) s =
    if is_connecting s.upstream_state then on_upstream_open now is_sent s else (some s, [])
handle client_closing s = (some (record s { client_state = closing }), [])
handle upstream_closing s = (some (record s { upstream_state = closing }), [])
handle client_closed s = close_session "client closed" false
handle client_failed s = close_session "client error" true
handle upstream_closed s = close_session "upstream closed" false
handle upstream_failed s = close_session "upstream error" true
handle (idle_timed_out now idle_timeout_ms) s = check_idle_timeout now idle_timeout_ms s

unfoldable pub run : List Event → Option Session → Step
unfolding handle
run [] s = (s, [])
run (event ∷ events) none = (none, [])
run (event ∷ events) (some s) =
    let now = handle event s in let later = run events now.0 in (later.0, now.1 ++ later.1)
