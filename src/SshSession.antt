-- ===== src/SshSession.antt =====
-- src/ssh/session-state-machine.ts: the control states of an SSH session that clients see, the
-- transition table, and the transition function with its log entry.
pub mod Relation
pub mod Runs
use command_relay.Common.{ℕ, Bool, true, false, not, Option, none, some, List, [], ◌∷◌, is_some}

pub data ControlState : Type 0 where
  offline connecting connected attached reconnecting replaying : ControlState

pub data TransitionEvent : Type 0 where
  start_connect connect_succeeded connect_failed disconnect : TransitionEvent
  attach detach connection_lost : TransitionEvent
  reconnect_succeeded reconnect_failed begin_replay : TransitionEvent
  replay_completed replay_failed : TransitionEvent

-- The constant `TRANSITIONS`; `none` where a state has no such key.
unfoldable pub transitions : ControlState → TransitionEvent → Option ControlState
transitions offline start_connect = some connecting
transitions connecting connect_succeeded = some connected
transitions connecting connect_failed = some offline
transitions connecting disconnect = some offline
transitions connected attach = some attached
transitions connected disconnect = some offline
transitions connected connection_lost = some reconnecting
transitions attached detach = some connected
transitions attached disconnect = some offline
transitions attached connection_lost = some reconnecting
transitions reconnecting reconnect_succeeded = some connected
transitions reconnecting reconnect_failed = some offline
transitions reconnecting begin_replay = some replaying
transitions reconnecting disconnect = some offline
transitions replaying replay_completed = some attached
transitions replaying replay_failed = some connected
transitions replaying connection_lost = some reconnecting
transitions replaying disconnect = some offline
transitions _ _ = none

abbrev pub initial_state : ControlState
initial_state = offline

-- `event in transitions`
unfoldable pub is_transition_allowed : ControlState → TransitionEvent → Bool
unfolding transitions
is_transition_allowed state event = is_some (transitions state event)

unfoldable pub is_input_enabled_state : ControlState → Bool
is_input_enabled_state attached = true
is_input_enabled_state _ = false

unfoldable pub can_enable_input_from_state : ControlState → Bool
can_enable_input_from_state connected = true
can_enable_input_from_state attached = true
can_enable_input_from_state replaying = true
can_enable_input_from_state _ = false

-- `!==` on states
unfoldable pub same_state : ControlState → ControlState → Bool
same_state offline offline = true
same_state connecting connecting = true
same_state connected connected = true
same_state attached attached = true
same_state reconnecting reconnecting = true
same_state replaying replaying = true
same_state _ _ = false

pub record TransitionContext : Type 0 where
  pub sequence : ℕ
  pub at_ms : ℕ

pub data RejectionReason : Type 0 where
  invalid_transition : RejectionReason

pub record LogEntry : Type 0 where
  pub sequence : ℕ
  pub at_ms : ℕ
  pub from : ControlState
  pub event : TransitionEvent
  pub to : ControlState
  pub accepted : Bool
  pub reason : Option RejectionReason

pub record TransitionResult : Type 0 where
  pub state : ControlState
  pub changed : Bool
  pub log : LogEntry

-- The two return statements of `transitionSshSessionState`, by what the table holds.
abbrev pub transition_to :
    ControlState → TransitionEvent → TransitionContext → Option ControlState → TransitionResult
transition_to state event context none = record {
  state = state;
  changed = false;
  log = record {
    sequence = context.sequence;
    at_ms = context.at_ms;
    from = state;
    event = event;
    to = state;
    accepted = false;
    reason = some invalid_transition;
  };
}
transition_to state event context (some next_state) = record {
  state = next_state;
  changed = not (same_state next_state state);
  log = record {
    sequence = context.sequence;
    at_ms = context.at_ms;
    from = state;
    event = event;
    to = next_state;
    accepted = true;
    reason = none;
  };
}

unfoldable pub transition_ssh_session_state :
    ControlState → TransitionEvent → TransitionContext → TransitionResult
unfolding transitions
transition_ssh_session_state state event context =
    transition_to state event context (transitions state event)

-- A client of the machine: it applies each event in turn and keeps the log, oldest entry first.
unfoldable pub run :
    ControlState → List (TransitionEvent × TransitionContext) → ControlState × List LogEntry
run state [] = (state, [])
run state ((event, context) ∷ rest) =
    let r = transition_ssh_session_state state event context in
    let (final, logs) = run r.state rest in (final, r.log ∷ logs)
