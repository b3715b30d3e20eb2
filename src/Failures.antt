-- ===== src/Failures.antt =====
-- src/server/bridge-runtime-failures.ts: how errors, closes and replay fallbacks are reported. Text
-- is compared in lower case, as a list of character codes.
pub mod Fallback
pub mod Closing
use Prim.Native.String
use command_relay.Common.{
  ℕ, suc, ◌+◌, String, Bool, true, false, ◌&&◌, ◌||◌, Option, none, some, List, [], ◌∷◌, ◌++◌, map,
  ltb, leb, if◌then◌else◌, ◌==◌, nat_eq, list_eq, get_or, ℤ, pos, negsuc,
}
use command_relay.Common.Text.{codes, lower_code}
use command_relay.Engine.Watcher.{ReplayMetadata, starts_with}

pub data FailureCode : Type 0 where
  auth_rejected transport_drop runtime_session_unavailable invalid_pane_target handler_failed :
      FailureCode

pub data FailureReason : Type 0 where
  invalid_token transport_closed tmux_session_unavailable unknown_runtime_backend : FailureReason
  invalid_namespaced_pane_id internal_error : FailureReason

pub record BridgeRuntimeFailure : Type 0 where
  pub code : FailureCode
  pub reason : FailureReason
  pub recoverable : Bool
  pub message : String

-- What was thrown: an object with the fields that are strings, or anything else; `text` is
-- `String(error)`.
pub data Thrown : Type 0 where
  plain : (text : String) → Thrown
  object : (message stderr code : Option String) (text : String) → Thrown

pub record ErrorDetails : Type 0 where
  pub message : String
  pub stderr : String
  pub code : String

abbrev message_or : Option String → String → String
message_or none text = text
message_or (some String.[]) text = text
message_or (some (String.◌∷◌ c s)) text = String.◌∷◌ c s

unfoldable pub extract_error_details : Thrown → ErrorDetails
extract_error_details (plain text) = record { message = text; stderr = ""; code = "" }
extract_error_details (object message stderr code text) = record {
  message = message_or message text;
  stderr = get_or stderr "";
  code = get_or code "";
}

abbrev pub lower : List ℕ → List ℕ
lower = map lower_code

-- `includes`
unfoldable pub includes : List ℕ → List ℕ → Bool
includes [] word = starts_with [] word
includes (c ∷ text) word = starts_with (c ∷ text) word || includes text word

abbrev pub has : List ℕ → String → Bool
has text word = includes text (codes word)

unfoldable pub is_tmux_session_unavailable : List ℕ → Bool
unfolding includes
is_tmux_session_unavailable t =
    has t "no server running" || has t "error connecting to" || has t "failed to connect to server"

unfoldable pub is_transport_drop : List ℕ → Bool
unfolding includes
is_transport_drop t =
    has t "broken pipe"
    || has t "connection reset"
    || has t "connection closed"
    || has t "econnreset"
    || has t "ehostunreach"
    || has t "econnrefused"
    || has t "etimedout"
    || has t "timed out"

abbrev pub combined : ErrorDetails → List ℕ
combined d = lower (codes d.message ++ b'\n' ∷ codes d.stderr ++ b'\n' ∷ codes d.code)

abbrev failure : FailureCode → FailureReason → Bool → String → BridgeRuntimeFailure
failure code reason recoverable message = record {
  code = code;
  reason = reason;
  recoverable = recoverable;
  message = message;
}

unfoldable pub classify_bridge_runtime_failure : Thrown → BridgeRuntimeFailure
unfolding extract_error_details is_tmux_session_unavailable is_transport_drop
classify_bridge_runtime_failure error =
    let d = extract_error_details error in
    let t = combined d in
    if has t "invalid_token" || has t "auth_required"
    then failure auth_rejected invalid_token true d.message
    else if is_tmux_session_unavailable t
    then failure runtime_session_unavailable tmux_session_unavailable true d.message
    else if is_transport_drop t
    then failure transport_drop transport_closed true d.message
    else if has t "unknown runtime backend"
    then failure invalid_pane_target unknown_runtime_backend false d.message
    else if has t "must be namespaced"
    then failure invalid_pane_target invalid_namespaced_pane_id false d.message
    else failure handler_failed internal_error false d.message

pub data CloseCode : Type 0 where
  close_auth_rejected close_transport_closed close_normal : CloseCode

pub record BridgeConnectionCloseFailure : Type 0 where
  pub code : CloseCode
  pub reason : List ℕ
  pub recoverable : Bool

abbrev reason_or : List ℕ → String → List ℕ
reason_or [] default = codes default
reason_or (c ∷ reason) default = c ∷ reason

-- `/auth|token|credential|permission/`
unfoldable pub names_credentials : List ℕ → Bool
unfolding includes
names_credentials t = has t "auth" || has t "token" || has t "credential" || has t "permission"

unfoldable pub classify_bridge_close_failure : ℕ → String → BridgeConnectionCloseFailure
unfolding names_credentials
classify_bridge_close_failure code reason =
    let r = lower (codes reason) in
    if code == 1008 && names_credentials r
    then record {
      code = close_auth_rejected;
      reason = reason_or r "authentication rejected";
      recoverable = false;
    }
    else if leb 1001 code && leb code 1011
    then record {
      code = close_transport_closed;
      reason = reason_or r "transport closed";
      recoverable = true;
    }
    else if leb 3000 code && leb code 3999
    then record {
      code = close_transport_closed;
      reason = reason_or r "application close";
      recoverable = true;
    }
    else record { code = close_normal; reason = reason_or r "normal close"; recoverable = false }

pub data FallbackReason : Type 0 where
  ahead_of_stream outside_retained_window empty_resume_window : FallbackReason

-- `requested > latest`
abbrev pub is_above : ℤ → ℕ → Bool
is_above (pos n) latest = ltb latest n
is_above (negsuc n) latest = false

-- `requested < oldest - 1`
abbrev pub is_before : ℤ → Option ℕ → Bool
is_before requested none = false
is_before (pos n) (some oldest) = ltb (suc n) oldest
is_before (negsuc n) (some oldest) = ltb 0 (oldest + n)

unfoldable pub classify_replay_snapshot_fallback_reason : ReplayMetadata → FallbackReason
classify_replay_snapshot_fallback_reason meta = elim meta.requested_last_seq [
  | none ↦ empty_resume_window
  | some requested ↦
      if is_above requested meta.latest_seq
      then ahead_of_stream
      else if meta.replay_gap_detected || is_before requested meta.oldest_history_seq
      then outside_retained_window
      else empty_resume_window
]
