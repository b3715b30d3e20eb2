-- ===== src/SshSession/Runs.antt =====
-- Runs of the session machine: what its log shows, and which states a history can reach.
use command_relay.Common.{
  ◌≤◌, true, false, Option, List, [], ◌∷◌, map, ◌≡◌, refl, ◌⊎◌, inl, inr, arith, All, length, some,
  none,
}
use command_relay.SshSession.{
  ControlState, offline, connecting, connected, attached, reconnecting, replaying, TransitionEvent,
  start_connect, connect_succeeded, disconnect, attach, replay_completed, begin_replay, transitions,
  transition_to, TransitionContext, LogEntry, transition_ssh_session_state, run, invalid_transition,
  initial_state,
}
use command_relay.SshSession.Relation.{Step, Answers, transitions-Answers}

-- What one entry records: a step of the relation, or a rejection that names its reason and leaves
-- the state alone.
abbrev pub Records : LogEntry → Type 0
Records l =
    ((l.accepted ≡ true) × (l.reason ≡ none) × Step l.from l.event l.to)
    ⊎ ((l.accepted ≡ false) × (l.reason ≡ some invalid_transition) × (l.to ≡ l.from))

-- The entries lead from one state to the other without a gap.
abbrev pub IsTrace : ControlState → List LogEntry → ControlState → Type 0
IsTrace s [] t = s ≡ t
IsTrace s (l ∷ ls) t = (l.from ≡ s) × Records l × IsTrace l.to ls t

transition_to-Records :
    (s : ControlState) (e : TransitionEvent) (c : TransitionContext) (o : Option ControlState)
    → Answers s e o
    → Records (transition_to s e c o).log
      × ((transition_to s e c o).log.from ≡ s)
      × ((transition_to s e c o).log.to ≡ (transition_to s e c o).state)
transition_to-Records s e c none h = (inr (refl, refl, refl), refl, refl)
transition_to-Records s e c (some t) st = (inl (refl, refl, st), refl, refl)

-- The log of a run is a gapless trace of steps and rejections from the first state to the last.
pub run-IsTrace :
    (s : ControlState) (es : List (TransitionEvent × TransitionContext))
    → IsTrace s (run s es).1 (run s es).0
unfolding run transition_ssh_session_state
run-IsTrace s [] = refl
run-IsTrace s ((e, c) ∷ es) =
    let (entry, from, to) =
      transition_to-Records s e c (transitions s e) (transitions-Answers s e) in
    let r = transition_ssh_session_state s e c in (from, entry, rw to (run-IsTrace r.state es))

-- A disconnect ends in `offline` from every state, also where it is rejected.
pub disconnect-offline :
    (s : ControlState) (c : TransitionContext)
    → (transition_ssh_session_state s disconnect c).state ≡ offline
unfolding transition_ssh_session_state
disconnect-offline offline c = refl
disconnect-offline connecting c = refl
disconnect-offline connected c = refl
disconnect-offline attached c = refl
disconnect-offline reconnecting c = refl
disconnect-offline replaying c = refl

abbrev pub IsNoConnect : LogEntry → Type 0
IsNoConnect l = l.event ≡ connect_succeeded → l.accepted ≡ false

abbrev IsEarly : ControlState → Type 0
IsEarly s = (s ≡ offline) ⊎ (s ≡ connecting)

transition-IsEarly :
    (s : ControlState) (e : TransitionEvent) (c : TransitionContext)
    → IsEarly s
    → IsNoConnect (transition_ssh_session_state s e c).log
    → IsEarly (transition_ssh_session_state s e c).state
unfolding transition_ssh_session_state
transition-IsEarly offline e c h k = ground arith
transition-IsEarly connecting e c h k = ground arith
transition-IsEarly _ e c h k = ground arith

run-IsEarly :
    (s : ControlState) (es : List (TransitionEvent × TransitionContext))
    → IsEarly s
    → All IsNoConnect (run s es).1
    → IsEarly (run s es).0
unfolding run
run-IsEarly s [] h k = h
run-IsEarly s ((e, c) ∷ es) h (k, ks) =
    run-IsEarly (transition_ssh_session_state s e c).state es (transition-IsEarly s e c h k) ks

-- As long as no `connect_succeeded` was accepted, a machine that started in its initial state is
-- offline or connecting.
pub run_before_connect :
    (es : List (TransitionEvent × TransitionContext))
    → All IsNoConnect (run initial_state es).1
    → ((run initial_state es).0 ≡ offline) ⊎ ((run initial_state es).0 ≡ connecting)
run_before_connect es h = run-IsEarly offline es (inl refl) h

-- The events that lead from a state to `attached`.
abbrev pub way_back : ControlState → List TransitionEvent
way_back offline = start_connect ∷ connect_succeeded ∷ attach ∷ []
way_back connecting = connect_succeeded ∷ attach ∷ []
way_back connected = attach ∷ []
way_back attached = []
way_back reconnecting = begin_replay ∷ replay_completed ∷ []
way_back replaying = replay_completed ∷ []

abbrev pub with_context :
    (TransitionEvent → TransitionContext) → TransitionEvent → TransitionEvent × TransitionContext
with_context f e = (e, f e)

-- From every state at most three events lead to `attached`, whatever their contexts.
pub run-way_back :
    (s : ControlState) (f : TransitionEvent → TransitionContext)
    → ((run s (map (with_context f) (way_back s))).0 ≡ attached) × (length (way_back s) ≤ 3)
unfolding run transition_ssh_session_state
run-way_back offline f = (refl, omega arith)
run-way_back connecting f = (refl, omega arith)
run-way_back connected f = (refl, omega arith)
run-way_back attached f = (refl, omega arith)
run-way_back reconnecting f = (refl, omega arith)
run-way_back replaying f = (refl, omega arith)
