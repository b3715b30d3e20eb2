-- ===== src/Examples/Faults.antt =====
-- The classifiers of src/server/bridge-runtime-failures.ts at work.
use command_relay.Common.{true, none, some, nat_eq, ◌≡◌, if◌then◌else◌, ltb, refl, pos}
use command_relay.Common.Text.{lower_code}
use command_relay.Engine.Watcher.{resume, has_gap, sort_by_seq, insert_by_seq}
use command_relay.Engine.History.{base}
use command_relay.Failures.{
  invalid_pane_target, object, classify_bridge_runtime_failure, extract_error_details, includes,
  is_tmux_session_unavailable, is_transport_drop, ahead_of_stream, outside_retained_window,
  empty_resume_window, classify_replay_snapshot_fallback_reason,
}
use command_relay.Failures.Fallback.{fallback_reason-resume}
use command_relay.Examples.Panes.{sample, sample-IsConsecutive}

unknown_backend :
    (classify_bridge_runtime_failure (object (some "Unknown runtime backend") none none "")).code
    ≡ invalid_pane_target
unfolding classify_bridge_runtime_failure extract_error_details includes is_tmux_session_unavailable
    is_transport_drop lower_code
unknown_backend = refl

sample-falls_back : (resume "%1" (pos 2) sample).1.fallback_to_snapshot ≡ true
unfolding resume has_gap sort_by_seq insert_by_seq
sample-falls_back = refl

fallback_reason-resume_example :
    classify_replay_snapshot_fallback_reason (resume "%1" (pos 2) sample).1 ≡ (
      if ltb 6 2
      then ahead_of_stream
      else if ltb 2 (base sample)
      then outside_retained_window
      else empty_resume_window)
fallback_reason-resume_example =
    fallback_reason-resume 2 sample sample-IsConsecutive "%1" 2 sample-falls_back
