-- ===== src/Examples/Metrics.antt =====
-- Concrete runs of src/telemetry/bridge-telemetry.ts and bridge-status.ts beside it.
use command_relay.Common.{
  ℕ, min, none, some, List, [], ◌∷◌, ◌++◌, length, ◌≡◌, ◌↔◌, ◌⊎◌, refl, arith,
}
use command_relay.Telemetry.{create_latency_window, recent, snapshot_latency}
use command_relay.Telemetry.Recent.{record_values}
use command_relay.Telemetry.Percentile.{HasRanks, snapshot_latency-HasRanks}
use command_relay.Telemetry.Status.{
  StatusInput, build_bridge_status_snapshot, fail, ok, Over, overall_iff,
}

abbrev five_samples : List ℕ
five_samples = 40 ∷ 7 ∷ 30 ∷ 9 ∷ 20 ∷ []

-- A window of three samples holds the last three, the newest in the places of the oldest.
held : recent (record_values (create_latency_window 3) five_samples) ≡ 9 ∷ 20 ∷ 30 ∷ []
unfolding record_values create_latency_window
held = refl

shown : (snapshot_latency (record_values (create_latency_window 3) five_samples)).p95_ms ≡ some 30
unfolding snapshot_latency record_values create_latency_window
shown = refl

snapshot_latency-HasRanks_example :
    let snapshot = snapshot_latency (record_values (create_latency_window 3) five_samples) in
    (snapshot.count ≡ 5)
    × ((past : List ℕ) × (latest : List ℕ) × (five_samples ≡ past ++ latest)
        × (length latest ≡ min (length five_samples) 3)
        × HasRanks snapshot latest)
snapshot_latency-HasRanks_example =
    snapshot_latency-HasRanks 3 five_samples (omega arith) (omega arith)

abbrev slow_bridge : StatusInput
slow_bridge = record {
  active_clients = 1;
  attach_requests = 0;
  stream_lag_samples = 4;
  connect_p95_ms = some 1001;
  stream_lag_p95_ms = some 200;
  input_ack_p95_ms = none;
}

slow_bridge-fail : (build_bridge_status_snapshot slow_bridge).overall ≡ fail
unfolding build_bridge_status_snapshot
slow_bridge-fail = refl

overall_iff_example :
    let status = build_bridge_status_snapshot slow_bridge in
    ((status.overall ≡ fail) ↔ (
      Over 1000 slow_bridge.connect_p95_ms
      ⊎ (Over 500 slow_bridge.stream_lag_p95_ms ⊎ Over 500 slow_bridge.input_ack_p95_ms)))
    × ((status.overall ≡ ok) ↔ (status.issues ≡ []))
overall_iff_example = overall_iff slow_bridge
