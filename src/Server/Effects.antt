-- ===== src/Server/Effects.antt =====
-- What a handler of src/server/bridge-server.ts does besides changing state: the envelopes that it
-- sends, its audit entries, its calls of the runtime and of the telemetry collector.
use command_relay.Common.{ℕ, String, Bool, List, ℤ}
use command_relay.Engine.Watcher.{PaneEvent}
use command_relay.Protocol.{ParseError}
use command_relay.InputPolicy.{InputPolicyState}
use command_relay.Server.Sessions.{PaneRow, SessionBucket, RuntimePane}

pub data AuthMode : Type 0 where
  open_mode token_mode : AuthMode

-- The `code` of an error envelope, with the fields that go with it.
pub data ErrorCode : Type 0 where
  auth_required invalid_pane_id max_attached_panes_exceeded : ErrorCode
  input_disabled invalid_input pane_not_attached : ErrorCode
  rate_limited : (retry_after_ms limit window_ms : ℕ) → ErrorCode
  input_rate_limited : (retry_after_ms limit window_ms : ℕ) → ErrorCode
  input_too_large : (max_input_bytes received_bytes : ℕ) → ErrorCode
  input_lane_conflict : (pane_id owner_client_id : String) → (override_allowed : Bool) → ErrorCode
  unknown_type : String → ErrorCode
  runtime_failure : ErrorCode
  invalid_message : ParseError → ErrorCode

pub data AckAction : Type 0 where
  acked_attach acked_detach : (pane_id : String) → AckAction
  acked_input : (pane_id : String) → (bytes : ℕ) → AckAction
  acked_disconnect : AckAction

pub data Reply : Type 0 where
  error : ErrorCode → Reply
  auth_ok : AuthMode → Reply
  auth_error : Reply
  session_list : List PaneRow → List SessionBucket → List RuntimePane → Reply
  ack : AckAction → Reply
  policy_update : InputPolicyState → Reply
  heartbeat_ack : (client_id : String) → Reply

-- Audit entries by action and outcome; hashes and byte counts are left out.
pub data Audit : Type 0 where
  audit_auth_ok : AuthMode → Audit
  audit_auth_fail : Audit
  replay_resume : (pane_id : String) → (last_seq : ℤ) → (replayed_count : ℕ) → Audit
  replay_gap_snapshot_fallback : (pane_id : String) → (last_seq : ℤ) → Audit
  audit_attach audit_detach : (pane_id : String) → Audit
  lane_owner_released : Audit
  audit_runtime_failure : Audit
  enable_input : (allowed : Bool) → Audit
  disable_input audit_disconnect : Audit
  input_rate_denied input_policy_denied : Audit
  input_conflict_denied input_allowed input_takeover : (pane_id : String) → Audit

pub data Effect : Type 0 where
  sends : Reply → Effect
  streams : PaneEvent → Effect
  audits : Audit → Effect
  -- `tmux.sendInput`
  types : (pane_id input : String) → Effect
  -- `trackAttachLag`
  tracks_lag : (pane_id : String) → Effect
  records_list records_attach records_reconnect records_input_ack : Effect
