-- ===== src/Relay/Capacity.antt =====
-- packages/commandrelay-relay-proxy/src/index.ts: the relay never holds more sessions than it may.
use command_relay.Common.{
  contains, subst, sym, ℕ, ◌+◌, ◌≤◌, ◌<◌, Bool, true, false, not, ◌&&◌, Option, none, some, List,
  [], ◌∷◌, ◌≡◌, refl, ap, ◌∙◌, arith, inl, inr, Bool-cases, Option-cases, if◌then◌else◌, length,
  ◌==◌, nat_eq, list_eq, leb, if_both, is_some,
}
use command_relay.Common.Assoc.{get, has, set, delete}
use command_relay.Relay.{
  Session, Effect, to_upstream, to_client, upstream_counted, downstream_counted, closed, Event,
  create_session, handle,
}
use command_relay.Relay.Sessions.{
  Relay, Stats, Config, Request, create_relay, release, wire_session, ended, remove_one,
  on_upgraded, count_bytes, put_session, on_session_event, close, refusal, on_upgrade, Report,
  upgrade_requested, upgraded, upgrade_failed, session_reported, close_called, act, run_relay,
  is_origin_allowed, is_token_valid,
}

length-set :
    (id : ℕ) (s : Session) (m : List (ℕ × Session))
    → length (set id s m) ≡ (if has id m then length m else length m + 1)
length-set id s [] = omega arith
length-set id s ((j, t) ∷ m) = elim (Bool-cases (j == id)) [
  | inl same ↦ rw same refl
  | inr other ↦ rw other (ground (arith, length-set id s m))
]

length-delete-le : (id : ℕ) (m : List (ℕ × Session)) → length (delete id m) ≤ length m
length-delete-le id [] = omega arith
length-delete-le id ((j, t) ∷ m) =
    if_both (λ l. length l ≤ length ((j, t) ∷ m)) (j == id) (delete id m) ((j, t) ∷ delete id m)
      (omega (arith, length-delete-le id m)) (omega (arith, length-delete-le id m))

-- The statistics count the sessions, and sessions and upgrades under way fit the limit.
abbrev pub IsWithin : (max_connections : ℕ) → Relay → Type 0
IsWithin max_connections r =
    (r.stats.active_connections ≡ length r.sessions)
    × (length r.sessions + r.in_flight_upgrades ≤ max_connections)
    × (r.stats.active_connections ≤ r.stats.peak_active_connections)
    × (r.stats.peak_active_connections ≤ max_connections)

-- What the limit rests on: the counter is the number of the upgrades that hold a reservation, and
-- those are the ones that `ws` has in hand.
abbrev IsCounted : Relay → Type 0
IsCounted r = (r.in_flight_upgrades ≡ length r.reserved) × (r.under_way ≡ r.reserved)

abbrev IsSound : (max_connections : ℕ) → Relay → Type 0
IsSound max_connections r = IsWithin max_connections r × IsCounted r

length-remove_one :
    (n : ℕ) (ms : List ℕ) → contains n ms ≡ true → length (remove_one n ms) + 1 ≡ length ms
length-remove_one n [] h = cc
length-remove_one n (m ∷ ms) h = ground (arith, length-remove_one n ms)

-- Counting bytes leaves the counts of connections.
count_bytes-active :
    (effects : List Effect) (stats : Stats)
    → ((count_bytes effects stats).active_connections ≡ stats.active_connections)
      × ((count_bytes effects stats).peak_active_connections ≡ stats.peak_active_connections)
count_bytes-active [] stats = (refl, refl)
count_bytes-active (upstream_counted n ∷ effects) stats = count_bytes-active effects _
count_bytes-active (downstream_counted n ∷ effects) stats = count_bytes-active effects _
count_bytes-active (to_upstream frame ∷ effects) stats = count_bytes-active effects stats
count_bytes-active (to_client frame ∷ effects) stats = count_bytes-active effects stats
count_bytes-active (closed reason immediate ∷ effects) stats = count_bytes-active effects stats

put_session-IsWithin :
    (max_connections id : ℕ) (next : Option Session) (r : Relay)
    → has id r.sessions ≡ true
    → IsWithin max_connections r
    → IsWithin max_connections (put_session id next r)
put_session-IsWithin max_connections id (some s) r held (active, fits, peak, most) =
    let same : length (set id s r.sessions) ≡ length r.sessions =
      length-set id s r.sessions
      ∙ ap (λ b. if b then length r.sessions else length r.sessions + 1) held in
    (omega (arith, active, same), omega (arith, fits, same), peak, most)
put_session-IsWithin max_connections id none r held (active, fits, peak, most) =
    let fewer = length-delete-le id r.sessions in
    (refl, omega (arith, fits, fewer), omega (arith, active, peak, fewer), most)

on_session_event-IsWithin :
    (max_connections id : ℕ) (event : Event) (r : Relay)
    → IsWithin max_connections r
    → IsWithin max_connections (on_session_event id event r)
unfolding on_session_event
on_session_event-IsWithin max_connections id event r (active, fits, peak, most) =
    elim (Option-cases (get id r.sessions)) [
      | inl gone ↦ rw (on_session_event, gone) (active, fits, peak, most)
      | inr (s, found) ↦
          let (next, effects) = handle event s in
          let (same, top) = count_bytes-active effects r.stats in
          rw (on_session_event, found)
            (put_session-IsWithin max_connections id next
              (record r { stats = count_bytes effects r.stats }) (ap is_some found)
              (same ∙ active, fits, omega (arith, same, top, peak), omega (arith, top, most)))
    ]

-- The end of an upgrade under way, by what was done for it before.
ended-IsSound :
    (max_connections upgrade : ℕ) (r : Relay)
    → contains upgrade r.under_way ≡ true
    → r.stats.active_connections ≡ length r.sessions
    → length r.sessions + r.in_flight_upgrades ≤ max_connections + 1
    → r.stats.active_connections ≤ r.stats.peak_active_connections
    → r.stats.peak_active_connections ≤ max_connections
    → IsCounted r
    → IsSound max_connections (ended upgrade (release upgrade r))
unfolding release
ended-IsSound max_connections upgrade r held active fits peak most (counted, same) =
    let reserved : contains upgrade r.reserved ≡ true =
      subst (λ l. contains upgrade l ≡ true) same held in
    let fewer = length-remove_one upgrade r.reserved reserved in
    rw (release, reserved)
      (
        (active, omega (arith, fits, counted, fewer), peak, most),
        (omega (arith, counted, fewer), ap (remove_one upgrade) same),
      )

wired-IsSound :
    (max_connections upgrade id now : ℕ) (r : Relay)
    → contains upgrade r.under_way ≡ true
    → has id r.sessions ≡ false
    → IsSound max_connections r
    → IsSound max_connections (ended upgrade (release upgrade (wire_session id now r)))
unfolding wire_session
wired-IsSound max_connections upgrade id now r held fresh
      ((active, fits, peak, most), (counted, same)) =
    let reserved : contains upgrade r.reserved ≡ true =
      subst (λ l. contains upgrade l ≡ true) same held in
    let fewer = length-remove_one upgrade r.reserved reserved in
    let grown : length (set id (create_session now) r.sessions) ≡ length r.sessions + 1 =
      length-set id (create_session now) r.sessions
      ∙ ap (λ b. if b then length r.sessions else length r.sessions + 1) fresh in
    let room : r.stats.active_connections + 1 ≤ max_connections =
      omega (arith, active, fits, counted, fewer) in
    ended-IsSound max_connections upgrade (wire_session id now r) held
      (omega (arith, active, grown)) (omega (arith, fits, grown)) (ground arith)
      (ground (arith, room)) (counted, same)

put-upgrades :
    (id : ℕ) (next : Option Session) (r : Relay)
    → ((put_session id next r).in_flight_upgrades ≡ r.in_flight_upgrades)
      × ((put_session id next r).reserved ≡ r.reserved)
      × ((put_session id next r).under_way ≡ r.under_way)
put-upgrades id none r = (refl, refl, refl)
put-upgrades id (some s) r = (refl, refl, refl)

-- The events of a session leave the upgrades alone.
on_session_event-upgrades :
    (id : ℕ) (event : Event) (r : Relay)
    → let next = on_session_event id event r in
      (next.in_flight_upgrades ≡ r.in_flight_upgrades)
      × (next.reserved ≡ r.reserved)
      × (next.under_way ≡ r.under_way)
unfolding on_session_event
on_session_event-upgrades id event r = elim (Option-cases (get id r.sessions)) [
  | inl gone ↦ rw (on_session_event, gone) (refl, refl, refl)
  | inr (s, found) ↦
      rw (on_session_event, found)
        (put-upgrades id (handle event s).0
          (record r { stats = count_bytes (handle event s).1 r.stats }))
]

-- The guards of `refusal`, by their tests.
abbrev guards : (a b c d e full : Bool) → Option ℕ
guards a b c d e full =
    if a
    then some 503
    else if b
    then some 405
    else if c
    then some 404
    else if d
    then some 403
    else if e
    then some 401
    else if full
    then some 503
    else none

-- Only a request that passes each test is let through.
last_test : (a b c d e full : Bool) → guards a b c d e full ≡ none → full ≡ false
last_test true b c d e full h = cc
last_test false true c d e full h = cc
last_test false false true d e full h = cc
last_test false false false true e full h = cc
last_test false false false false true full h = cc
last_test false false false false false true h = cc
last_test false false false false false false h = refl

module _ (hash : List ℕ → List ℕ) (config : Config) where
  -- A request is let through only where a connection is free.
  refusal-free :
      (request : Request) (r : Relay)
      → refusal hash config request r ≡ none
      → length r.sessions + r.in_flight_upgrades < config.max_connections
  unfolding refusal
  refusal-free request r h =
      let room : leb config.max_connections (length r.sessions + r.in_flight_upgrades) ≡ false =
        last_test r.shutting_down (not request.is_get) (not (request.pathname == config.relay_path))
          (not (is_origin_allowed request.origin config.allowed_origins))
          (not (is_token_valid hash config request)) _ h in
      ground arith

  on_upgrade-IsSound :
      (upgrade : ℕ) (request : Request) (r : Relay)
      → IsSound config.max_connections r
      → IsSound config.max_connections (on_upgrade hash config upgrade request r)
  unfolding on_upgrade
  on_upgrade-IsSound upgrade request r ((active, fits, peak, most), (counted, same)) =
      elim (Option-cases (refusal hash config request r)) [
        | inr (status, refused) ↦
            rw (on_upgrade, refused) ((active, fits, peak, most), (counted, same))
        | inl allowed ↦
            rw (on_upgrade, allowed)
              (
                (active, omega (arith, refusal-free request r allowed), peak, most),
                (omega (arith, counted), ap (λ l. upgrade ∷ l) same),
              )
      ]

  on_session_event-IsSound :
      (id : ℕ) (event : Event) (r : Relay)
      → IsSound config.max_connections r
      → IsSound config.max_connections (on_session_event id event r)
  on_session_event-IsSound id event r (within, (counted, same)) =
      let (flight, held, hands) = on_session_event-upgrades id event r in
      (
        on_session_event-IsWithin config.max_connections id event r within,
        (flight ∙ counted ∙ ap length (sym held), hands ∙ same ∙ sym held),
      )

  act-IsSound :
      (report : Report) (r : Relay)
      → IsSound config.max_connections r
      → IsSound config.max_connections (act hash config report r)
  unfolding act on_upgraded close
  act-IsSound (upgrade_requested upgrade request) r h = on_upgrade-IsSound upgrade request r h
  act-IsSound (upgraded upgrade id now is_wired) r ((active, fits, peak, most), counted) =
      elim (Bool-cases (contains upgrade r.under_way)) [
        | inr gone ↦ rw gone ((active, fits, peak, most), counted)
        | inl held ↦ elim (Bool-cases (has id r.sessions)) [
          | inl used ↦ rw (held, used) ((active, fits, peak, most), counted)
          | inr fresh ↦
              rw (held, fresh)
                (if_both (λ next. IsSound config.max_connections (ended upgrade next))
                  (not r.shutting_down && is_wired) (release upgrade (wire_session id now r))
                  (release upgrade r)
                  (wired-IsSound config.max_connections upgrade id now r held fresh
                    ((active, fits, peak, most), counted))
                  (ended-IsSound config.max_connections upgrade r held active (omega (arith, fits))
                    peak most counted))
        ]
      ]
  act-IsSound (upgrade_failed upgrade) r ((active, fits, peak, most), counted) =
      elim (Bool-cases (contains upgrade r.under_way)) [
        | inr gone ↦ rw gone ((active, fits, peak, most), counted)
        | inl held ↦ rw held (
            ended-IsSound config.max_connections upgrade r held active (omega (arith, fits)) peak
              most counted)
      ]
  act-IsSound (session_reported id event) r h = on_session_event-IsSound id event r h
  act-IsSound close_called r ((active, fits, peak, most), counted) =
      if_both (IsSound config.max_connections) r.shutting_down r _
        ((active, fits, peak, most), counted)
        ((refl, omega (arith, fits), omega arith, most), counted)

  reports-IsSound :
      (reports : List Report) (r : Relay)
      → IsSound config.max_connections r
      → IsSound config.max_connections (run_relay hash config reports r)
  unfolding run_relay
  reports-IsSound [] r h = h
  reports-IsSound (report ∷ reports) r h =
      reports-IsSound reports (act hash config report r) (act-IsSound report r h)

  -- Whatever requests arrive and whatever sockets report, in any order, the sessions and the
  -- upgrades under way are never more than `maxConnections`, nor was any earlier number of
  -- sessions, and `activeConnections` is the number of sessions. An upgrade ends at most once, and
  -- no two sessions have the same identifier.
  pub run_relay-IsWithin :
      (reports : List Report)
      → let r = run_relay hash config reports create_relay in
        IsWithin config.max_connections r
        × (length r.sessions + length r.under_way ≤ config.max_connections)
  run_relay-IsWithin reports =
      let ((active, fits, peak, most), (counted, same)) =
        reports-IsSound reports create_relay
          ((refl, omega arith, omega arith, omega arith), (refl, refl)) in
      ((active, fits, peak, most), omega (arith, fits, counted, ap length same))
