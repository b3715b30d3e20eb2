-- ===== src/SshSession/Relation.antt =====
-- The type-level map `SshSessionTransitionMap` as a relation, and the table against it.
use command_relay.Common.{true, Option, none, some, ◌≡◌, refl, ◌↔◌, ◌⊎◌, inl, inr, subst}
use command_relay.SshSession.{
  ControlState, offline, connecting, connected, attached, reconnecting, replaying, TransitionEvent,
  start_connect, connect_succeeded, connect_failed, disconnect, attach, detach, connection_lost,
  reconnect_succeeded, reconnect_failed, begin_replay, replay_completed, replay_failed, transitions,
  can_enable_input_from_state, TransitionContext, transition_to, transition_ssh_session_state,
  is_input_enabled_state,
}

-- One constructor for each line of the interface.
pub data Step : ControlState → TransitionEvent → ControlState → Type 0 where
  offline_start_connect : Step offline start_connect connecting
  connecting_succeeded : Step connecting connect_succeeded connected
  connecting_failed : Step connecting connect_failed offline
  connecting_disconnect : Step connecting disconnect offline
  connected_attach : Step connected attach attached
  connected_disconnect : Step connected disconnect offline
  connected_lost : Step connected connection_lost reconnecting
  attached_detach : Step attached detach connected
  attached_disconnect : Step attached disconnect offline
  attached_lost : Step attached connection_lost reconnecting
  reconnecting_succeeded : Step reconnecting reconnect_succeeded connected
  reconnecting_failed : Step reconnecting reconnect_failed offline
  reconnecting_replay : Step reconnecting begin_replay replaying
  reconnecting_disconnect : Step reconnecting disconnect offline
  replaying_completed : Step replaying replay_completed attached
  replaying_failed : Step replaying replay_failed connected
  replaying_lost : Step replaying connection_lost reconnecting
  replaying_disconnect : Step replaying disconnect offline

Step-transitions :
    {s t : ControlState} {e : TransitionEvent} → Step s e t → transitions s e ≡ some t
unfolding transitions
Step-transitions offline_start_connect = refl
Step-transitions connecting_succeeded = refl
Step-transitions connecting_failed = refl
Step-transitions connecting_disconnect = refl
Step-transitions connected_attach = refl
Step-transitions connected_disconnect = refl
Step-transitions connected_lost = refl
Step-transitions attached_detach = refl
Step-transitions attached_disconnect = refl
Step-transitions attached_lost = refl
Step-transitions reconnecting_succeeded = refl
Step-transitions reconnecting_failed = refl
Step-transitions reconnecting_replay = refl
Step-transitions reconnecting_disconnect = refl
Step-transitions replaying_completed = refl
Step-transitions replaying_failed = refl
Step-transitions replaying_lost = refl
Step-transitions replaying_disconnect = refl

-- What the table answers is a step, or there is none.
abbrev pub Answers : ControlState → TransitionEvent → Option ControlState → Type 0
Answers s e none = (t : ControlState) → ¬ Step s e t
Answers s e (some t) = Step s e t

pub transitions-Answers : (s : ControlState) (e : TransitionEvent) → Answers s e (transitions s e)
unfolding transitions
transitions-Answers offline start_connect = offline_start_connect
transitions-Answers connecting connect_succeeded = connecting_succeeded
transitions-Answers connecting connect_failed = connecting_failed
transitions-Answers connecting disconnect = connecting_disconnect
transitions-Answers connected attach = connected_attach
transitions-Answers connected disconnect = connected_disconnect
transitions-Answers connected connection_lost = connected_lost
transitions-Answers attached detach = attached_detach
transitions-Answers attached disconnect = attached_disconnect
transitions-Answers attached connection_lost = attached_lost
transitions-Answers reconnecting reconnect_succeeded = reconnecting_succeeded
transitions-Answers reconnecting reconnect_failed = reconnecting_failed
transitions-Answers reconnecting begin_replay = reconnecting_replay
transitions-Answers reconnecting disconnect = reconnecting_disconnect
transitions-Answers replaying replay_completed = replaying_completed
transitions-Answers replaying replay_failed = replaying_failed
transitions-Answers replaying connection_lost = replaying_lost
transitions-Answers replaying disconnect = replaying_disconnect
transitions-Answers s e = λ t st. cc (Step-transitions st)

transition_to-Step_iff :
    (s t : ControlState) (e : TransitionEvent) (c : TransitionContext) (o : Option ControlState)
    → Answers s e o
    → (((transition_to s e c o).log.accepted ≡ true) × ((transition_to s e c o).state ≡ t))
      ↔ Step s e t
transition_to-Step_iff s t e c none no_step = (λ h. cc (h.0), λ st. absurd (no_step t st))
transition_to-Step_iff s t e c (some u) st =
    (λ h. subst (Step s e) h.1 st, λ st'. (refl, cc (Step-transitions st, Step-transitions st')))

-- A transition is accepted and leads to `t` exactly when the type-level map has that step.
pub transition-Step_iff :
    (s t : ControlState) (e : TransitionEvent) (c : TransitionContext)
    → (((transition_ssh_session_state s e c).log.accepted ≡ true)
        × ((transition_ssh_session_state s e c).state ≡ t))
      ↔ Step s e t
unfolding transition_ssh_session_state
transition-Step_iff s t e c =
    transition_to-Step_iff s t e c (transitions s e) (transitions-Answers s e)

Step-can_enable :
    {s : ControlState} {e : TransitionEvent}
    → Step s e attached
    → can_enable_input_from_state s ≡ true
unfolding can_enable_input_from_state
Step-can_enable connected_attach = refl
Step-can_enable replaying_completed = refl

can_enable-Step :
    (s : ControlState)
    → can_enable_input_from_state s ≡ true
    → (is_input_enabled_state s ≡ true) ⊎ ((e : TransitionEvent) × Step s e attached)
unfolding can_enable_input_from_state is_input_enabled_state
can_enable-Step connected h = inr (attach, connected_attach)
can_enable-Step attached h = inl refl
can_enable-Step replaying h = inr (replay_completed, replaying_completed)
can_enable-Step _ h = cc

input_state-can_enable :
    (s : ControlState) → is_input_enabled_state s ≡ true → can_enable_input_from_state s ≡ true
unfolding can_enable_input_from_state is_input_enabled_state
input_state-can_enable attached h = refl
input_state-can_enable _ h = cc

-- Input can be enabled exactly in the state that takes input and in those one step before it.
pub can_enable_input_iff :
    (s : ControlState)
    → (can_enable_input_from_state s ≡ true)
      ↔ ((is_input_enabled_state s ≡ true) ⊎ ((e : TransitionEvent) × Step s e attached))
can_enable_input_iff s = (
  can_enable-Step s,
  elim [ inl h ↦ input_state-can_enable s h | inr (e, st) ↦ Step-can_enable st ],
)
