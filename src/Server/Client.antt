-- ===== src/Server/Client.antt =====
-- What the handlers of src/server/bridge-server.ts keep true of one client.
use command_relay.Common.{
  ◌+◌, ◌≤◌, String, true, false, not, ◌&&◌, ◌||◌, ◌↔◌, Option, none, some, List, [], ◌∷◌, leb, ◌≡◌,
  ◌≢◌, ◌==◌, refl, arith, contains, add, string_eq, eq_iff, ap, Bool-cases, Option-cases, inl, inr,
  length, length-remove-le, length-append, get_or, ◌⊎◌, ℤ,
}
use command_relay.Messages.{parse_non_empty_string}
use command_relay.Engine.Watcher.{PaneEvent, ReplayMetadata}
use command_relay.Server.Effects.{error, auth_required, sends}
use command_relay.Server.Handler.{
  Config, ClientState, MessageType, auth, list_sessions, attach_pane, detach_pane, enable, disable,
  input, heartbeat, disconnect, other, Payload, Context, Environment, done, attach_reply, attach_to,
  handle_auth, handle_list_sessions, handle_attach, handle_detach,
}
use command_relay.Server.Input.{after_claim, input_to, handle_input}
use command_relay.Server.Dispatch.{
  is_auth, handle_enable_input, handle_disable_input, handle_disconnect, handle_case,
  handle_client_message,
}

-- Input is never enabled under the kill switch, and a client has no more panes than allowed.
pub record IsWithinPolicy (config : Config) (client : ClientState) : Type 0 where
  pub kill_switch : client.input_enabled ≡ true → config.global_input_disabled ≡ false
  pub panes : length client.attached_panes ≤ config.max_attached_panes

module _ (config : Config) (payload : Payload) (env : Environment) (c : Context) where
  client-attach_reply :
      (p : String) (s : Option ℤ) (d : Context) (r : Option (List PaneEvent × ReplayMetadata))
      → (attach_reply p s d r).context ≡ d
  unfolding attach_reply
  client-attach_reply p s d none = refl
  client-attach_reply p s d (some r) = refl

  pub client-attach_to :
      (p : String)
      → (attach_to config p payload env c).context.client
        ≡ record c.client { attached_panes = add p c.client.attached_panes }
  unfolding attach_to
  client-attach_to p = ap (λ (d : Context). d.client) (client-attach_reply p _ _ _)

  -- A pane is added only if it is there already or there is room.
  client-handle_attach :
      (((handle_attach config payload env c).context.client) ≡ c.client)
      ⊎ ((p : String) × ((handle_attach config payload env c).context.client
            ≡ record c.client { attached_panes = add p c.client.attached_panes })
          × ((contains p c.client.attached_panes ≡ true)
              ⊎ (length c.client.attached_panes + 1 ≤ config.max_attached_panes)))
  unfolding handle_attach
  client-handle_attach = elim (Option-cases (parse_non_empty_string payload.pane_id)) [
    | inl h ↦ rw (h, handle_attach) (inl refl)
    | inr (p, h) ↦
        rw (h, handle_attach)
          (elim (Bool-cases (
            not (contains p c.client.attached_panes)
            && leb config.max_attached_panes (length c.client.attached_panes))) [
              | inl full ↦ simp full (inl refl)
              | inr room ↦ simp room (inr (p, client-attach_to p, ground arith))
            ])
  ]

  client-handle_input : (handle_input config payload env c).context.client ≡ c.client
  unfolding handle_input input_to after_claim
  client-handle_input = ground arith

  client-handle_list_sessions : (handle_list_sessions config env c).context.client ≡ c.client
  unfolding handle_list_sessions
  client-handle_list_sessions = ground arith

  add-IsWithinPolicy :
      (p : String)
      → IsWithinPolicy config c.client
      → (contains p c.client.attached_panes ≡ true)
        ⊎ (length c.client.attached_panes + 1 ≤ config.max_attached_panes)
      → IsWithinPolicy config (record c.client { attached_panes = add p c.client.attached_panes })
  add-IsWithinPolicy p h room = record {
    kill_switch = h.kill_switch;
    panes = ground (arith, h.panes, length-append c.client.attached_panes (p ∷ []));
  }

  handle_attach-IsWithinPolicy :
      IsWithinPolicy config c.client
      → IsWithinPolicy config (handle_attach config payload env c).context.client
        × ((handle_attach config payload env c).context.client.id ≡ c.client.id)
  handle_attach-IsWithinPolicy h = elim client-handle_attach [
    | inl same ↦ rw same (h, refl)
    | inr (p, same, room) ↦ rw same (add-IsWithinPolicy p h room, refl)
  ]

  handle_detach-IsWithinPolicy :
      IsWithinPolicy config c.client
      → IsWithinPolicy config (handle_detach config payload env c).context.client
        × ((handle_detach config payload env c).context.client.id ≡ c.client.id)
  unfolding handle_detach
  handle_detach-IsWithinPolicy h = elim (Option-cases (parse_non_empty_string payload.pane_id)) [
    | inl e ↦ rw (e, handle_detach) (h, refl)
    | inr (p, e) ↦
        rw (e, handle_detach)
          (
            record {
              kill_switch = h.kill_switch;
              panes = omega (arith, length-remove-le p c.client.attached_panes, h.panes);
            },
            refl,
          )
  ]

  -- Every handler, thrown or not, keeps the client's id and keeps it within policy.
  handle_case-IsWithinPolicy :
      (type : MessageType)
      → IsWithinPolicy config c.client
      → IsWithinPolicy config (handle_case config type payload env c).context.client
        × ((handle_case config type payload env c).context.client.id ≡ c.client.id)
  unfolding handle_case handle_auth handle_enable_input handle_disable_input handle_disconnect
  handle_case-IsWithinPolicy auth h = ground arith
  handle_case-IsWithinPolicy list_sessions h = rw client-handle_list_sessions (h, refl)
  handle_case-IsWithinPolicy attach_pane h = handle_attach-IsWithinPolicy h
  handle_case-IsWithinPolicy detach_pane h = handle_detach-IsWithinPolicy h
  handle_case-IsWithinPolicy enable h = ground arith
  handle_case-IsWithinPolicy disable h = ground arith
  handle_case-IsWithinPolicy input h = rw client-handle_input (h, refl)
  handle_case-IsWithinPolicy heartbeat h = (h, refl)
  handle_case-IsWithinPolicy disconnect h = ground arith
  handle_case-IsWithinPolicy (other type) h = (h, refl)

  message_cases :
      (type : MessageType)
      → (handle_client_message config type payload env c ≡ handle_case config type payload env c)
        ⊎ (handle_client_message config type payload env c
            ≡ done c (sends (error auth_required) ∷ []))
  unfolding handle_client_message
  message_cases type = ground arith

  -- A message keeps its client within policy, whatever branch it takes: input stays off under the
  -- kill switch, no more panes are attached than allowed, and the id stays.
  pub message-IsWithinPolicy :
      (type : MessageType)
      → IsWithinPolicy config c.client
      → IsWithinPolicy config (handle_client_message config type payload env c).context.client
        × ((handle_client_message config type payload env c).context.client.id ≡ c.client.id)
  unfolding handle_client_message
  message-IsWithinPolicy type h = elim (message_cases type) [
    | inl e ↦ rw e (handle_case-IsWithinPolicy type h)
    | inr e ↦ rw e (h, refl)
  ]

not_auth : (type : MessageType) → type ≢ auth → is_auth type ≡ false
not_auth auth h = absurd (h refl)
not_auth _ h = refl

-- The test of `handle_auth`, as the two ways to pass it.
token_iff :
    (expected : String) (given : Option String)
    → ((expected == "" || expected == get_or given "") ≡ true)
      ↔ ((expected ≡ "") ⊎ (given ≡ some expected))
token_iff expected none =
    (λ h. ground (arith, eq_iff expected ""), λ h. ground (arith, eq_iff expected ""))
token_iff expected (some s) = (
  λ h. ground (arith, eq_iff expected "", eq_iff expected s),
  λ h. ground (arith, eq_iff expected "", eq_iff expected s),
)

module _ (config : Config) (payload : Payload) (env : Environment) (c : Context)
    (stranger : c.client.authenticated ≡ false) where
  -- A client that is not authenticated gets an error for any message but `auth`, and nothing else
  -- happens.
  pub unauthenticated-refused :
      (type : MessageType)
      → type ≢ auth
      → handle_client_message config type payload env c ≡ done c (sends (error auth_required) ∷ [])
  unfolding handle_client_message
  unauthenticated-refused type h = simp (stranger, not_auth type h)

  -- An `auth` message authenticates a client that is not authenticated exactly when no token is configured or the message
  -- carries it, white space around it aside.
  pub auth_iff :
      ((handle_client_message config auth payload env c).context.client.authenticated ≡ true)
      ↔ ((config.auth_token ≡ "") ⊎ (parse_non_empty_string payload.token ≡ some config.auth_token))
  unfolding handle_client_message handle_case handle_auth
  auth_iff =
      let (to, from) = token_iff config.auth_token (parse_non_empty_string payload.token) in
      (λ h. to (ground arith), λ h. let k = from h in ground arith)
