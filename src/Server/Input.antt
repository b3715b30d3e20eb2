-- ===== src/Server/Input.antt =====
-- The `input` case of `handleClientMessage` in src/server/bridge-server.ts.
use command_relay.Common.{
  String, Bool, true, false, ◌||◌, Option, none, some, List, [], ◌∷◌, ◌++◌, ltb, if◌then◌else◌,
  ◌==◌, string_eq, contains,
}
use command_relay.Common.Text.{byte_length}
use command_relay.Messages.{Value, string, parse_non_empty_string, parse_optional_boolean}
use command_relay.InputPolicy.{InputPolicyContext, is_input_allowed}
use command_relay.Ownership.{ClaimResult, claimed, refused}
use command_relay.Ownership.State.{claim_pane_input_ownership}
use command_relay.RateLimiter.{consume}
use command_relay.Server.Effects.{
  error, input_disabled, invalid_input, pane_not_attached, input_rate_limited, input_too_large,
  input_lane_conflict, ack, acked_input, input_rate_denied, input_policy_denied,
  input_conflict_denied, input_allowed, input_takeover, Effect, sends, audits, types,
  records_input_ack,
}
use command_relay.Server.Handler.{Config, Payload, Context, Environment, Handled, done, throw}

-- `typeof payload.data === "string" ? payload.data : ""`
abbrev pub text_of : Value → String
text_of (string s) = s
text_of _ = ""

-- `parseOptionalBoolean(…) === true`
abbrev pub is_true : Option Bool → Bool
is_true none = false
is_true (some b) = b

abbrev pub override_requested : Payload → Bool
override_requested payload =
    is_true (parse_optional_boolean payload.override)
    || is_true (parse_optional_boolean payload.take_ownership)

abbrev pub takeover_audit : String → Option ClaimResult → List Effect
takeover_audit pane_id (some (claimed true)) = audits (input_takeover pane_id) ∷ []
takeover_audit pane_id _ = []

module _ (config : Config) where
  -- After the claim: a conflict is refused, or the text goes to the runtime.
  unfoldable pub after_claim :
      (pane_id text : String) → Environment → Context → Option ClaimResult → Handled
  after_claim pane_id text env c (some (refused owner allowed)) = done c (
      audits (input_conflict_denied pane_id)
      ∷ sends (error (input_lane_conflict pane_id owner allowed))
      ∷ [])
  after_claim pane_id text env c result =
      if env.input_accepted
      then done c (
          types pane_id text
          ∷ audits (input_allowed pane_id)
          ∷ (takeover_audit pane_id result
              ++ records_input_ack ∷ sends (ack (acked_input pane_id (byte_length text))) ∷ []))
      else throw c (types pane_id text ∷ [])

  -- The checks after the rate limit and the policy, and the claim of the pane's lane.
  unfoldable pub input_to : String → Payload → Environment → Context → Handled
  input_to pane_id payload env c =
      let text = text_of payload.input_text in
      let bytes = byte_length text in
      let (lanes, result) =
        claim_pane_input_ownership pane_id c.client.id (override_requested payload)
          config.allow_input_ownership_override env.lanes_now env.lanes_later c.lanes in
      if text == ""
      then done c (sends (error invalid_input) ∷ [])
      else if contains pane_id c.client.attached_panes
      then (if ltb config.max_input_bytes bytes
          then done c (sends (error (input_too_large config.max_input_bytes bytes)) ∷ [])
          else after_claim pane_id text env (record c { lanes = lanes }) result)
      else done c (sends (error pane_not_attached) ∷ [])

  unfoldable pub handle_input : Payload → Environment → Context → Handled
  handle_input payload env c =
      let (limiter, rate) = consume c.client.id env.limiter_now c.input_limiter in
      let c' = record c { input_limiter = limiter } in
      let policy : InputPolicyContext = record {
        global_input_disabled = config.global_input_disabled;
        client_input_enabled = c.client.input_enabled;
      } in
      if rate.allowed
      then (if is_input_allowed policy
          then elim (parse_non_empty_string payload.pane_id) [
            | none ↦ done c' (sends (error invalid_input) ∷ [])
            | some pane_id ↦ input_to pane_id payload env c'
          ]
          else done c' (audits input_policy_denied ∷ sends (error input_disabled) ∷ []))
      else done c' (
          audits input_rate_denied
          ∷ sends (error (input_rate_limited rate.retry_after_ms rate.limit rate.window_ms))
          ∷ [])
