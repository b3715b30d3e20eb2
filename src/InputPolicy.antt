-- ===== src/InputPolicy.antt =====
-- src/server/input-policy.ts.
use command_relay.Common.{Bool, not, ◌&&◌}

pub record InputPolicyContext : Type 0 where
  pub global_input_disabled : Bool
  pub client_input_enabled : Bool

pub record InputPolicyState : Type 0 where
  pub input_enabled : Bool
  pub global_input_disabled : Bool

unfoldable pub build_input_policy_state : InputPolicyContext → InputPolicyState
build_input_policy_state context = record {
  input_enabled = context.client_input_enabled && not context.global_input_disabled;
  global_input_disabled = context.global_input_disabled;
}

unfoldable pub is_input_allowed : InputPolicyContext → Bool
is_input_allowed context = context.client_input_enabled && not context.global_input_disabled
