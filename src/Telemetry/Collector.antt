-- ===== src/Telemetry/Collector.antt =====
-- src/telemetry/bridge-telemetry.ts: the collector, which counts each kind of event beside the
-- window of its latencies.
use command_relay.Common.{
  ℕ, ◌+◌, Option, some, List, [], ◌∷◌, ◌≡◌, refl, ap, ltb, if◌then◌else◌, pos, JsNumber, finite,
}
use command_relay.Telemetry.{
  LatencyWindow, LatencyMetricSnapshot, create_latency_window, record_value, record_latency,
  snapshot_latency,
}
use command_relay.Telemetry.Status.{StatusSnapshot, build_bridge_status_snapshot}

pub record Counters : Type 0 where
  pub connections_opened : ℕ
  pub connections_closed : ℕ
  pub list_requests : ℕ
  pub attach_requests : ℕ
  pub reconnect_attaches : ℕ
  pub input_acks : ℕ
  pub stream_lag_samples : ℕ

pub record Collector : Type 0 where
  pub window_size : ℕ
  pub counters : Counters
  pub connect : LatencyWindow
  pub reconnect : LatencyWindow
  pub list : LatencyWindow
  pub attach : LatencyWindow
  pub input_ack : LatencyWindow
  pub stream_lag : LatencyWindow

abbrev pub default_window_size : ℕ
default_window_size = 256

-- `none` is a number with a fraction.
abbrev pub checked_window_size : Option JsNumber → ℕ
checked_window_size (some (finite (pos n))) = if ltb 0 n then n else default_window_size
checked_window_size _ = default_window_size

unfoldable pub create_collector : Option JsNumber → Collector
unfolding create_latency_window
create_collector window_size =
    let size = checked_window_size window_size in
    record {
      window_size = size;
      counters = record {
        connections_opened = 0;
        connections_closed = 0;
        list_requests = 0;
        attach_requests = 0;
        reconnect_attaches = 0;
        input_acks = 0;
        stream_lag_samples = 0;
      };
      connect = create_latency_window size;
      reconnect = create_latency_window size;
      list = create_latency_window size;
      attach = create_latency_window size;
      input_ack = create_latency_window size;
      stream_lag = create_latency_window size;
    }

-- The methods that record something, with the latency they are given.
pub data Event : Type 0 where
  connection_closed : Event
  connect_latency list_latency attach_latency reconnect_latency : JsNumber → Event
  input_ack_latency stream_lag_latency : JsNumber → Event

unfoldable pub record_event : Collector → Event → Collector
unfolding record_latency
record_event c (connect_latency latency) = record c {
  counters = record c.counters { connections_opened = c.counters.connections_opened + 1 };
  connect = record_latency c.connect latency;
}
record_event c connection_closed = record c {
  counters = record c.counters { connections_closed = c.counters.connections_closed + 1 };
}
record_event c (list_latency latency) = record c {
  counters = record c.counters { list_requests = c.counters.list_requests + 1 };
  list = record_latency c.list latency;
}
record_event c (attach_latency latency) = record c {
  counters = record c.counters { attach_requests = c.counters.attach_requests + 1 };
  attach = record_latency c.attach latency;
}
record_event c (reconnect_latency latency) = record c {
  counters = record c.counters { reconnect_attaches = c.counters.reconnect_attaches + 1 };
  reconnect = record_latency c.reconnect latency;
}
record_event c (input_ack_latency latency) = record c {
  counters = record c.counters { input_acks = c.counters.input_acks + 1 };
  input_ack = record_latency c.input_ack latency;
}
record_event c (stream_lag_latency latency) = record c {
  counters = record c.counters { stream_lag_samples = c.counters.stream_lag_samples + 1 };
  stream_lag = record_latency c.stream_lag latency;
}

pub record TelemetrySnapshot : Type 0 where
  pub generated_at : ℕ
  pub active_clients : ℕ
  pub window_size : ℕ
  pub counters : Counters
  pub connect : LatencyMetricSnapshot
  pub reconnect : LatencyMetricSnapshot
  pub list : LatencyMetricSnapshot
  pub attach : LatencyMetricSnapshot
  pub input_ack : LatencyMetricSnapshot
  pub stream_lag : LatencyMetricSnapshot
  pub status : StatusSnapshot

unfoldable pub get_safe_snapshot : (now active_clients : ℕ) → Collector → TelemetrySnapshot
unfolding snapshot_latency build_bridge_status_snapshot
get_safe_snapshot now active_clients c =
    let connect = snapshot_latency c.connect in
    let input_ack = snapshot_latency c.input_ack in
    let stream_lag = snapshot_latency c.stream_lag in
    record {
      generated_at = now;
      active_clients = active_clients;
      window_size = c.window_size;
      counters = c.counters;
      connect = connect;
      reconnect = snapshot_latency c.reconnect;
      list = snapshot_latency c.list;
      attach = snapshot_latency c.attach;
      input_ack = input_ack;
      stream_lag = stream_lag;
      status = build_bridge_status_snapshot (record {
        active_clients = active_clients;
        attach_requests = c.counters.attach_requests;
        stream_lag_samples = c.counters.stream_lag_samples;
        connect_p95_ms = connect.p95_ms;
        stream_lag_p95_ms = stream_lag.p95_ms;
        input_ack_p95_ms = input_ack.p95_ms;
      });
    }

unfoldable pub record_events : Collector → List Event → Collector
unfolding record_event
record_events c [] = c
record_events c (event ∷ events) = record_events (record_event c event) events

-- Each counter is the count of its window.
abbrev pub IsCounted : Collector → Type 0
IsCounted c =
    (c.counters.connections_opened ≡ c.connect.total_count)
    × (c.counters.list_requests ≡ c.list.total_count)
    × (c.counters.attach_requests ≡ c.attach.total_count)
    × (c.counters.reconnect_attaches ≡ c.reconnect.total_count)
    × (c.counters.input_acks ≡ c.input_ack.total_count)
    × (c.counters.stream_lag_samples ≡ c.stream_lag.total_count)

record_event-IsCounted :
    (c : Collector) (event : Event) → IsCounted c → IsCounted (record_event c event)
unfolding record_event record_latency record_value
record_event-IsCounted c connection_closed (a, b, d, e, f, g) = (a, b, d, e, f, g)
record_event-IsCounted c (connect_latency n) (a, b, d, e, f, g) = (ap (λ k. k + 1) a, b, d, e, f, g)
record_event-IsCounted c (list_latency n) (a, b, d, e, f, g) = (a, ap (λ k. k + 1) b, d, e, f, g)
record_event-IsCounted c (attach_latency n) (a, b, d, e, f, g) = (a, b, ap (λ k. k + 1) d, e, f, g)
record_event-IsCounted c (reconnect_latency n) (a, b, d, e, f, g) =
    (a, b, d, ap (λ k. k + 1) e, f, g)
record_event-IsCounted c (input_ack_latency n) (a, b, d, e, f, g) =
    (a, b, d, e, ap (λ k. k + 1) f, g)
record_event-IsCounted c (stream_lag_latency n) (a, b, d, e, f, g) =
    (a, b, d, e, f, ap (λ k. k + 1) g)

events-IsCounted :
    (c : Collector) (events : List Event) → IsCounted c → IsCounted (record_events c events)
unfolding record_events
events-IsCounted c [] h = h
events-IsCounted c (event ∷ events) h =
    events-IsCounted (record_event c event) events (record_event-IsCounted c event h)

-- Whatever is recorded, each counter that a snapshot shows is the count of the window beside it.
pub record_events-IsCounted :
    (window_size : Option JsNumber) (events : List Event)
    → IsCounted (record_events (create_collector window_size) events)
unfolding create_collector create_latency_window
record_events-IsCounted window_size events =
    events-IsCounted (create_collector window_size) events (refl, refl, refl, refl, refl, refl)
