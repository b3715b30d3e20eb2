-- ===== src/Server/Quiet.antt =====
-- The messages that never type: every case of `handleClientMessage` but `input`.
use command_relay.Common.{
  String, Option, none, some, List, [], ◌∷◌, ◌++◌, map, ◌≡◌, ◌≢◌, refl, arith, string_eq,
  Option-cases, inl, inr, ℤ,
}
use command_relay.Messages.{parse_non_empty_string}
use command_relay.Engine.Watcher.{PaneEvent, ReplayMetadata}
use command_relay.Server.Effects.{Effect, streams, types}
use command_relay.Server.Handler.{
  Config, MessageType, auth, list_sessions, attach_pane, detach_pane, enable, disable, input,
  heartbeat, disconnect, other, Payload, Context, Environment, handle_auth, handle_list_sessions,
  resume_audit, reconnects, attach_reply, attach_to, handle_attach, handle_detach,
}
use command_relay.Server.Dispatch.{
  handle_enable_input, handle_disable_input, handle_disconnect, handle_case,
}

-- The calls of `tmux.sendInput` among the effects, in order.
abbrev pub typed : List Effect → List (String × String)
typed [] = []
typed (types pane_id text ∷ es) = (pane_id, text) ∷ typed es
typed (_ ∷ es) = typed es

typed-streams :
    (events : List PaneEvent) (rest : List Effect) → typed (map streams events ++ rest) ≡ typed rest
typed-streams [] rest = refl
typed-streams (e ∷ events) rest = typed-streams events rest

typed-resume_audit :
    (p : String) (s : Option ℤ) (meta : ReplayMetadata) (rest : List Effect)
    → typed (resume_audit p s meta ++ rest) ≡ typed rest
unfolding resume_audit
typed-resume_audit p none meta rest = refl
typed-resume_audit p (some n) meta rest = ground arith

typed-reconnects : (s : Option ℤ) (rest : List Effect) → typed (reconnects s ++ rest) ≡ typed rest
typed-reconnects none rest = refl
typed-reconnects (some n) rest = refl

typed-attach_reply :
    (p : String) (s : Option ℤ) (c : Context) (r : Option (List PaneEvent × ReplayMetadata))
    → typed (attach_reply p s c r).effects ≡ []
unfolding attach_reply
typed-attach_reply p s c none = refl
typed-attach_reply p s c (some (events, meta)) =
    rw (typed-streams events) (rw (typed-resume_audit p s meta) (typed-reconnects s _))

module _ (config : Config) (payload : Payload) (env : Environment) (c : Context) where
  typed-attach_to : (p : String) → typed (attach_to config p payload env c).effects ≡ []
  unfolding attach_to
  typed-attach_to p = typed-attach_reply p _ _ _

  typed-handle_attach : typed (handle_attach config payload env c).effects ≡ []
  unfolding handle_attach
  typed-handle_attach = elim (Option-cases (parse_non_empty_string payload.pane_id)) [
    | inl h ↦ rw (h, handle_attach)
    | inr (p, h) ↦ rw (h, handle_attach) (ground (arith, typed-attach_to p))
  ]

  typed-handle_detach : typed (handle_detach config payload env c).effects ≡ []
  unfolding handle_detach
  typed-handle_detach = ground arith

  typed-handle_auth : typed (handle_auth config payload c).effects ≡ []
  unfolding handle_auth
  typed-handle_auth = ground arith

  typed-handle_list_sessions : typed (handle_list_sessions config env c).effects ≡ []
  unfolding handle_list_sessions
  typed-handle_list_sessions = ground arith

  typed-handle_disconnect : typed (handle_disconnect config env c).effects ≡ []
  unfolding handle_disconnect
  typed-handle_disconnect = ground arith

  pub typed-handle_case_quiet :
      (type : MessageType)
      → type ≢ input
      → typed (handle_case config type payload env c).effects ≡ []
  unfolding handle_case handle_enable_input handle_disable_input
  typed-handle_case_quiet auth h = typed-handle_auth
  typed-handle_case_quiet list_sessions h = typed-handle_list_sessions
  typed-handle_case_quiet attach_pane h = typed-handle_attach
  typed-handle_case_quiet detach_pane h = typed-handle_detach
  typed-handle_case_quiet enable h = refl
  typed-handle_case_quiet disable h = refl
  typed-handle_case_quiet input h = absurd (h refl)
  typed-handle_case_quiet heartbeat h = refl
  typed-handle_case_quiet disconnect h = typed-handle_disconnect
  typed-handle_case_quiet (other type) h = refl
