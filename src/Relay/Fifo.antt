-- ===== src/Relay/Fifo.antt =====
-- packages/commandrelay-relay-proxy/src/index.ts: a session sends its client's frames on in order.
use command_relay.Common.{
  ℕ, suc, Bool, true, false, Option, none, some, List, [], ◌∷◌, ◌++◌, String, map, ◌≡◌, refl, sym,
  ap, subst, ltb, ◌+◌, ◌∙◌, inl, inr, Bool-cases, if◌then◌else◌, append_assoc, append-nil,
}
use command_relay.Relay.{
  RawData, Session, closing, is_opened, is_connecting, Effect, to_upstream, to_client,
  upstream_counted, downstream_counted, closed, Step, create_session, is_full, on_client_message,
  send_queued, on_upstream_open, on_upstream_message, check_idle_timeout, Event, client_sent,
  upstream_sent, upstream_opened, client_closing, upstream_closing, client_closed, client_failed,
  upstream_closed, upstream_failed, idle_timed_out, handle, run, safe_send, get_byte_length,
}

-- The frames sent to the upstream.
abbrev pub upstream_frames : List Effect → List RawData
upstream_frames [] = []
upstream_frames (to_upstream frame ∷ effects) = frame ∷ upstream_frames effects
upstream_frames (_ ∷ effects) = upstream_frames effects

-- The frame that a client sends, if the event is one.
abbrev pub client_frame : Event → List RawData
client_frame (client_sent now data_in is_sent) = data_in ∷ []
client_frame _ = []

-- The frames that the client sends while there is a session.
unfoldable pub client_frames : List Event → Option Session → List RawData
unfolding handle
client_frames [] s = []
client_frames (event ∷ events) none = []
client_frames (event ∷ events) (some s) =
    client_frame event ++ client_frames events (handle event s).0

-- The frames that wait; of a session that is closed, any that are lost.
abbrev pub Rest : Option Session → List RawData → Type 0
Rest none rest = Unit
Rest (some s) rest = rest ≡ s.pending_upstream_messages

-- An open upstream leaves no frame to wait.
abbrev pub IsFlushed : Option Session → Type 0
IsFlushed none = Unit
IsFlushed (some s) = is_opened s.upstream_state ≡ true → s.pending_upstream_messages ≡ []

-- The effects send the frames of a list in order, and what is not sent waits or is lost.
abbrev pub IsRelayed : List RawData → Step → Type 0
IsRelayed frames (next, effects) =
    (rest : List RawData) × (upstream_frames effects ++ rest ≡ frames)
    × Rest next rest
    × IsFlushed next

upstream_frames-append :
    (effects more : List Effect)
    → upstream_frames (effects ++ more) ≡ upstream_frames effects ++ upstream_frames more
upstream_frames-append [] more = refl
upstream_frames-append (to_upstream frame ∷ effects) more =
    ap (λ l. frame ∷ l) (upstream_frames-append effects more)
upstream_frames-append (to_client frame ∷ effects) more = upstream_frames-append effects more
upstream_frames-append (upstream_counted n ∷ effects) more = upstream_frames-append effects more
upstream_frames-append (downstream_counted n ∷ effects) more = upstream_frames-append effects more
upstream_frames-append (closed reason immediate ∷ effects) more =
    upstream_frames-append effects more

upstream_frames-map : (frames : List RawData) → upstream_frames (map to_upstream frames) ≡ frames
upstream_frames-map [] = refl
upstream_frames-map (frame ∷ frames) = ap (λ l. frame ∷ l) (upstream_frames-map frames)

-- One round of the loop, by whether it sends its frame.
abbrev pub round : (sent : Bool) (frame : RawData) → List RawData × Bool → List RawData × Bool
round sent frame rest = if sent then (frame ∷ rest.0, rest.1) else ([], false)

round-all :
    (sent : Bool) (frame : RawData) (frames : List RawData) (rest : List RawData × Bool)
    → (rest.1 ≡ true → rest.0 ≡ frames)
    → (round sent frame rest).1 ≡ true
    → (round sent frame rest).0 ≡ frame ∷ frames
round-all true frame frames rest h e = ap (λ l. frame ∷ l) (h e)
round-all false frame frames rest h e = cc

send_queued-all :
    (is_sent : ℕ → Bool) (n : ℕ) (frames : List RawData)
    → (send_queued is_sent n frames).1 ≡ true
    → (send_queued is_sent n frames).0 ≡ frames
send_queued-all is_sent n [] h = refl
send_queued-all is_sent n (frame ∷ frames) h =
    round-all (is_sent n) frame frames (send_queued is_sent (suc n) frames)
      (send_queued-all is_sent (suc n) frames) h

send_queued-some :
    (is_sent : ℕ → Bool) (n : ℕ) (frames : List RawData)
    → (rest : List RawData) × ((send_queued is_sent n frames).0 ++ rest ≡ frames)
send_queued-some is_sent n [] = ([], refl)
send_queued-some is_sent n (frame ∷ frames) = elim (Bool-cases (is_sent n)) [
  | inl sent ↦
      let (rest, e) = send_queued-some is_sent (suc n) frames in
      (rest, rw sent (ap (λ l. frame ∷ l) e))
  | inr stopped ↦ (frame ∷ frames, rw stopped refl)
]

if_IsRelayed :
    (frames : List RawData) (b : Bool) (x y : Step)
    → (b ≡ true → IsRelayed frames x)
    → (b ≡ false → IsRelayed frames y)
    → IsRelayed frames (if b then x else y)
if_IsRelayed frames true x y h k = h refl
if_IsRelayed frames false x y h k = k refl

on_upstream_open-IsRelayed :
    (now : ℕ) (is_sent : ℕ → Bool) (s : Session)
    → IsRelayed s.pending_upstream_messages (on_upstream_open now is_sent s)
unfolding on_upstream_open
on_upstream_open-IsRelayed now is_sent s =
    let queue = s.pending_upstream_messages in
    let sent = (send_queued is_sent 0 queue).0 in
    if_IsRelayed queue (send_queued is_sent 0 queue).1 _ _
      (λ all_sent. (
        [],
        append-nil _ ∙ upstream_frames-map sent ∙ send_queued-all is_sent 0 queue all_sent,
        refl,
        λ e. refl,
      ))
      (λ stopped.
        let (rest, e) = send_queued-some is_sent 0 queue in
        (
          rest,
          ap (λ l. l ++ rest)
                (upstream_frames-append (map to_upstream sent) _
                  ∙ append-nil _
                  ∙ upstream_frames-map sent)
              ∙ e,
          tt,
          tt,
        ))

-- A frame that meets an open socket is sent, or lost with the session.
safe_send-IsRelayed :
    (is_sent : Bool) (data_in : RawData) (reason : String) (s : Session)
    → s.pending_upstream_messages ≡ []
    → IsRelayed (data_in ∷ []) (safe_send is_sent (to_upstream data_in) reason s)
safe_send-IsRelayed true data_in reason s empty = ([], refl, sym empty, λ e. empty)
safe_send-IsRelayed false data_in reason s empty = (data_in ∷ [], refl, tt, tt)

on_client_message-IsRelayed :
    (now : ℕ) (data_in : RawData) (is_sent : Bool) (s : Session)
    → (is_opened s.upstream_state ≡ true → s.pending_upstream_messages ≡ [])
    → IsRelayed
        (s.pending_upstream_messages ++ data_in ∷ [])
        (on_client_message now data_in is_sent s)
unfolding on_client_message
on_client_message-IsRelayed now data_in is_sent s flushed =
    let frames = s.pending_upstream_messages ++ data_in ∷ [] in
    let active = record s {
      last_activity_at_ms = now;
      upstream_bytes = s.upstream_bytes + get_byte_length data_in;
    } in
    let reason : String = "upstream send failed" in
    if_IsRelayed frames (is_opened s.upstream_state) _ _
      (λ up.
        subst
          (λ l.
            IsRelayed (l ++ data_in ∷ []) (safe_send is_sent (to_upstream data_in) reason active))
          (sym (flushed up)) (safe_send-IsRelayed is_sent data_in reason active (flushed up)))
      (λ down.
        if_IsRelayed frames (is_full data_in s) _ _ (λ full. (frames, refl, tt, tt))
          (λ room. (frames, refl, refl, λ up. cc)))

-- Nothing is sent to the upstream, and the session goes on with the same queue.
kept-IsRelayed :
    (s next : Session)
    → next.pending_upstream_messages ≡ s.pending_upstream_messages
    → IsFlushed (some next)
    → IsRelayed (s.pending_upstream_messages ++ []) (some next, [])
kept-IsRelayed s next same flushed =
    (s.pending_upstream_messages, sym (append-nil _), sym same, flushed)

answer-IsRelayed :
    (is_sent : Bool) (data_in : RawData) (s : Session)
    → IsFlushed (some s)
    → IsRelayed
        (s.pending_upstream_messages ++ [])
        (safe_send is_sent (to_client data_in) "client send failed" s)
answer-IsRelayed true data_in s flushed =
    (s.pending_upstream_messages, sym (append-nil _), refl, flushed)
answer-IsRelayed false data_in s flushed = (s.pending_upstream_messages, sym (append-nil _), tt, tt)

on_upstream_message-IsRelayed :
    (now : ℕ) (data_in : RawData) (is_sent : Bool) (s : Session)
    → IsFlushed (some s)
    → IsRelayed (s.pending_upstream_messages ++ []) (on_upstream_message now data_in is_sent s)
unfolding on_upstream_message
on_upstream_message-IsRelayed now data_in is_sent s flushed =
    let queue = s.pending_upstream_messages in
    let active = record s {
      last_activity_at_ms = now;
      downstream_bytes = s.downstream_bytes + get_byte_length data_in;
    } in
    if_IsRelayed (queue ++ []) (is_opened s.client_state) _ _
      (λ up. answer-IsRelayed is_sent data_in active flushed)
      (λ down. kept-IsRelayed s s refl flushed)

handle-IsRelayed :
    (event : Event) (s : Session)
    → IsFlushed (some s)
    → IsRelayed (s.pending_upstream_messages ++ client_frame event) (handle event s)
unfolding handle check_idle_timeout
handle-IsRelayed (client_sent now data_in is_sent) s flushed =
    on_client_message-IsRelayed now data_in is_sent s flushed
handle-IsRelayed (upstream_sent now data_in is_sent) s flushed =
    on_upstream_message-IsRelayed now data_in is_sent s flushed
handle-IsRelayed (upstream_opened now is_sent) s flushed =
    if_IsRelayed _ (is_connecting s.upstream_state) _ _
      (λ new.
        subst (λ l. IsRelayed l (on_upstream_open now is_sent s)) (sym (append-nil _))
          (on_upstream_open-IsRelayed now is_sent s))
      (λ old. kept-IsRelayed s s refl flushed)
handle-IsRelayed client_closing s flushed =
    kept-IsRelayed s (record s { client_state = closing }) refl flushed
handle-IsRelayed upstream_closing s flushed =
    kept-IsRelayed s (record s { upstream_state = closing }) refl (λ e. cc)
handle-IsRelayed client_closed s flushed = (s.pending_upstream_messages, sym (append-nil _), tt, tt)
handle-IsRelayed client_failed s flushed = (s.pending_upstream_messages, sym (append-nil _), tt, tt)
handle-IsRelayed upstream_closed s flushed =
    (s.pending_upstream_messages, sym (append-nil _), tt, tt)
handle-IsRelayed upstream_failed s flushed =
    (s.pending_upstream_messages, sym (append-nil _), tt, tt)
handle-IsRelayed (idle_timed_out now idle_timeout_ms) s flushed =
    if_IsRelayed _ (ltb now (s.last_activity_at_ms + idle_timeout_ms)) _ _
      (λ active. kept-IsRelayed s s refl flushed)
      (λ idle. (s.pending_upstream_messages, sym (append-nil _), tt, tt))

joined :
    (effects more : List Effect) (queue left rest waiting frame frames : List RawData)
    → upstream_frames effects ++ left ≡ waiting ++ frame
    → upstream_frames more ++ rest ≡ left ++ frames
    → queue ≡ waiting
    → upstream_frames (effects ++ more) ++ rest ≡ queue ++ (frame ++ frames)
joined effects more queue left rest waiting frame frames now later held =
    let sent = upstream_frames effects in
    ap (λ l. l ++ rest) (upstream_frames-append effects more)
    ∙ append_assoc sent (upstream_frames more) rest
    ∙ ap (λ l. sent ++ l) later
    ∙ sym (append_assoc sent left frames)
    ∙ ap (λ l. l ++ frames) now
    ∙ append_assoc waiting frame frames
    ∙ ap (λ l. l ++ (frame ++ frames)) (sym held)

-- From a session and the frames that wait in it.
run-IsRelayed :
    (events : List Event) (o : Option Session) (queue : List RawData)
    → Rest o queue
    → IsFlushed o
    → IsRelayed (queue ++ client_frames events o) (run events o)
unfolding run client_frames
run-IsRelayed [] none queue held flushed = (queue, sym (append-nil _), tt, tt)
run-IsRelayed [] (some s) queue held flushed = (queue, sym (append-nil _), held, flushed)
run-IsRelayed (event ∷ events) none queue held flushed = (queue, sym (append-nil _), tt, tt)
run-IsRelayed (event ∷ events) (some s) queue held flushed =
    let (left, now, kept, ready) = handle-IsRelayed event s flushed in
    let (rest, later, wait, last) = run-IsRelayed events (handle event s).0 left kept ready in
    (
      rest,
      joined (handle event s).1 (run events (handle event s).0).1 queue left rest
          s.pending_upstream_messages (client_frame event) (client_frames events (handle event s).0)
          now later held,
      wait,
      last,
    )

-- Whatever a session's sockets and timer do, the frames that it sends upstream, followed by those
-- that wait while there is a session, or by some that are lost once it is closed, are the frames
-- that its client sent, in their order and each once.
pub run-relayed :
    (now : ℕ) (events : List Event)
    → let s = some (create_session now) in
      (rest : List RawData) × (upstream_frames (run events s).1 ++ rest ≡ client_frames events s)
      × Rest (run events s).0 rest
run-relayed now events =
    let (rest, e, held, flushed) =
      run-IsRelayed events (some (create_session now)) [] refl (λ h. refl) in
    (rest, e, held)
