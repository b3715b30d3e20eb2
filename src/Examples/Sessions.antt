-- ===== src/Examples/Sessions.antt =====
-- The machine of src/ssh/session-state-machine.ts at work.
use command_relay.Common.{ℕ, true, List, [], ◌∷◌, ◌≡◌, ◌↔◌, refl}
use command_relay.SshSession.{
  offline, attached, reconnecting, TransitionEvent, start_connect, connect_failed, attach,
  connection_lost, TransitionContext, transition_ssh_session_state, run, initial_state,
}
use command_relay.SshSession.Relation.{Step, transition-Step_iff}

abbrev at : ℕ → TransitionContext
at n = record { sequence = n; at_ms = 1000 }

abbrev refused_login : List (TransitionEvent × TransitionContext)
refused_login = (start_connect, at 1) ∷ (attach, at 2) ∷ (connect_failed, at 3) ∷ []

refused_login_ends : (run initial_state refused_login).0 ≡ offline
unfolding run transition_ssh_session_state
refused_login_ends = refl

transition-Step_iff_example :
    (((transition_ssh_session_state attached connection_lost (at 4)).log.accepted ≡ true)
      × ((transition_ssh_session_state attached connection_lost (at 4)).state ≡ reconnecting))
    ↔ Step attached connection_lost reconnecting
transition-Step_iff_example = transition-Step_iff attached reconnecting connection_lost (at 4)
