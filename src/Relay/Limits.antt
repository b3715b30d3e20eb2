-- ===== src/Relay/Limits.antt =====
-- packages/commandrelay-relay-proxy/src/index.ts: the frames that wait for the upstream are few.
use command_relay.Common.{
  All, ℕ, ◌+◌, ◌≤◌, Bool, true, false, ◌||◌, Option, none, some, List, [], ◌∷◌, ◌++◌, String, ◌≡◌,
  refl, arith, if◌then◌else◌, length, length-append, leb, ltb,
}
use command_relay.Relay.{
  RawData, buffer, array_buffer, text, fragments, Session, is_opened, is_connecting, Effect,
  to_upstream, to_client, Step, create_session, is_full, on_client_message, send_queued,
  on_upstream_open, on_upstream_message, check_idle_timeout, Event, client_sent, upstream_sent,
  upstream_opened, client_closing, upstream_closing, client_closed, client_failed, upstream_closed,
  upstream_failed, idle_timed_out, handle, run, safe_send, get_byte_length,
  max_upstream_pending_messages, max_upstream_pending_bytes,
}

-- The number of bytes in a frame, by its data.
abbrev pub size : RawData → ℕ
size (buffer bytes) = length bytes
size (array_buffer bytes) = length bytes
size (text bytes) = length bytes
size (fragments []) = 0
size (fragments (part ∷ parts)) = length part + size (fragments parts)

abbrev pub total_size : List RawData → ℕ
total_size [] = 0
total_size (frame ∷ frames) = size frame + total_size frames

-- One piece of data, as `ws` gives it unless its `binaryType` is set to `fragments`.
abbrev pub IsWhole : RawData → Type 0
IsWhole (fragments parts) = ⊥
IsWhole _ = Unit

abbrev pub SendsWhole : Event → Type 0
SendsWhole (client_sent now data_in is_sent) = IsWhole data_in
SendsWhole _ = Unit

get_byte_length-size : (frame : RawData) → IsWhole frame → get_byte_length frame ≡ size frame
get_byte_length-size (buffer bytes) whole = refl
get_byte_length-size (array_buffer bytes) whole = refl
get_byte_length-size (text bytes) whole = refl
get_byte_length-size (fragments parts) whole = elim whole [ ]

-- At most 64 frames wait, of at most 16 MiB, and the counter is the number of their bytes.
abbrev pub IsBounded : Session → Type 0
IsBounded s =
    (length s.pending_upstream_messages ≤ 64)
    × (s.pending_upstream_queued_bytes ≡ total_size s.pending_upstream_messages)
    × (total_size s.pending_upstream_messages ≤ 16777216)

abbrev pub Bounded : Option Session → Type 0
Bounded none = Unit
Bounded (some s) = IsBounded s

total_size-append :
    (frames more : List RawData) → total_size (frames ++ more) ≡ total_size frames + total_size more
total_size-append [] more = omega arith
total_size-append (frame ∷ frames) more = omega (arith, total_size-append frames more)

if_Bounded :
    (b : Bool) (x y : Step)
    → (b ≡ true → Bounded x.0)
    → (b ≡ false → Bounded y.0)
    → Bounded (if b then x else y).0
if_Bounded true x y h k = h refl
if_Bounded false x y h k = k refl

-- A frame joins the queue only where it fits.
queued-IsBounded :
    (data_in : RawData) (queue : List RawData) (queued : ℕ)
    → queued ≡ total_size queue
    → (leb max_upstream_pending_messages (length queue)
        || ltb max_upstream_pending_bytes (queued + get_byte_length data_in))
      ≡ false
    → IsWhole data_in
    → (length (queue ++ data_in ∷ []) ≤ 64)
      × (queued + get_byte_length data_in ≡ total_size (queue ++ data_in ∷ []))
      × (total_size (queue ++ data_in ∷ []) ≤ 16777216)
queued-IsBounded data_in queue queued same room whole = (
  ground (arith, length-append queue (data_in ∷ [])),
  omega (arith, same, get_byte_length-size data_in whole, total_size-append queue (data_in ∷ [])),
  ground (arith, same, get_byte_length-size data_in whole, total_size-append queue (data_in ∷ [])),
)

safe_send-IsBounded :
    (is_sent : Bool) (frame : Effect) (reason : String) (s : Session)
    → IsBounded s
    → Bounded (safe_send is_sent frame reason s).0
safe_send-IsBounded true frame reason s h = h
safe_send-IsBounded false frame reason s h = tt

on_client_message-IsBounded :
    (now : ℕ) (data_in : RawData) (is_sent : Bool) (s : Session)
    → IsWhole data_in
    → IsBounded s
    → Bounded (on_client_message now data_in is_sent s).0
unfolding on_client_message
on_client_message-IsBounded now data_in is_sent s whole (few, same, small) =
    let active = record s {
      last_activity_at_ms = now;
      upstream_bytes = s.upstream_bytes + get_byte_length data_in;
    } in
    if_Bounded (is_opened s.upstream_state) _ _
      (λ up. safe_send-IsBounded is_sent (to_upstream data_in) _ active (few, same, small))
      (λ down.
        if_Bounded (is_full data_in s) _ _ (λ full. tt)
          (λ room.
            queued-IsBounded data_in s.pending_upstream_messages s.pending_upstream_queued_bytes
              same room whole))

handle-IsBounded :
    (event : Event) (s : Session) → SendsWhole event → IsBounded s → Bounded (handle event s).0
unfolding handle on_upstream_open on_upstream_message check_idle_timeout
handle-IsBounded (client_sent now data_in is_sent) s whole h =
    on_client_message-IsBounded now data_in is_sent s whole h
handle-IsBounded (upstream_sent now data_in is_sent) s whole (few, same, small) =
    if_Bounded (is_opened s.client_state) _ _
      (λ up.
        safe_send-IsBounded is_sent (to_client data_in) _
          (record s {
            last_activity_at_ms = now;
            downstream_bytes = s.downstream_bytes + get_byte_length data_in;
          })
          (few, same, small))
      (λ down. (few, same, small))
handle-IsBounded (upstream_opened now is_sent) s whole h =
    if_Bounded (is_connecting s.upstream_state) _ _
      (λ new.
        if_Bounded (send_queued is_sent 0 s.pending_upstream_messages).1 _ _
          (λ all_sent. (omega arith, refl, omega arith)) (λ stopped. tt))
      (λ old. h)
handle-IsBounded client_closing s whole h = h
handle-IsBounded upstream_closing s whole h = h
handle-IsBounded client_closed s whole h = tt
handle-IsBounded client_failed s whole h = tt
handle-IsBounded upstream_closed s whole h = tt
handle-IsBounded upstream_failed s whole h = tt
handle-IsBounded (idle_timed_out now idle_timeout_ms) s whole h =
    if_Bounded (ltb now (s.last_activity_at_ms + idle_timeout_ms)) _ _ (λ active. h) (λ idle. tt)

events-IsBounded :
    (events : List Event) (o : Option Session)
    → All SendsWhole events
    → Bounded o
    → Bounded (run events o).0
unfolding run
events-IsBounded [] o whole h = h
events-IsBounded (event ∷ events) none whole h = tt
events-IsBounded (event ∷ events) (some s) (now, whole) h =
    events-IsBounded events (handle event s).0 whole (handle-IsBounded event s now h)

-- Whatever a session's sockets and timer do, where no frame of the client comes in fragments: at
-- most 64 frames wait for its upstream, their data have at most 16 MiB together, and the counter
-- of queued bytes is the size of these data.
pub run-IsBounded :
    (now : ℕ) (events : List Event)
    → All SendsWhole events
    → Bounded (run events (some (create_session now))).0
run-IsBounded now events whole =
    events-IsBounded events (some (create_session now)) whole (omega arith, refl, omega arith)
