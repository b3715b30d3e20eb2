-- ===== src/Telemetry.antt =====
-- src/telemetry/bridge-telemetry.ts: windows of latency samples and the counters beside them.
-- Samples are whole milliseconds, as differences of `Date.now()` are, and sums of them are exact.
pub mod Status
pub mod Collector
pub mod Recent
pub mod Percentile
use command_relay.Common.{
  ℕ, zero, suc, ◌+◌, ◌-◌, ◌*◌, ◌/◌, ◌%◌, min, max, Bool, true, false, Option, none, some, List, [],
  ◌∷◌, ◌==◌, nat_eq, leb, if◌then◌else◌, length, pos, negsuc, JsNumber, not_finite, finite,
}
use command_relay.Common.Units.{drop}

-- `min_ms` is `none` for positive infinity.
pub record LatencyWindow : Type 0 where
  pub values : List ℕ
  pub size : ℕ
  pub write_index : ℕ
  pub total_count : ℕ
  pub total_ms : ℕ
  pub min_ms : Option ℕ
  pub max_ms : ℕ
  pub last_ms : ℕ

-- The average is in hundredths of a millisecond, which `roundMetric` rounds it to.
pub record LatencyMetricSnapshot : Type 0 where
  pub count : ℕ
  pub last_ms : Option ℕ
  pub min_ms : Option ℕ
  pub max_ms : Option ℕ
  pub avg_hundredths : Option ℕ
  pub p50_ms : Option ℕ
  pub p95_ms : Option ℕ

abbrev pub zeros : ℕ → List ℕ
zeros zero = []
zeros (suc n) = 0 ∷ zeros n

unfoldable pub create_latency_window : ℕ → LatencyWindow
create_latency_window size = record {
  values = zeros size;
  size = 0;
  write_index = 0;
  total_count = 0;
  total_ms = 0;
  min_ms = none;
  max_ms = 0;
  last_ms = 0;
}

abbrev pub sanitize_latency : JsNumber → ℕ
sanitize_latency not_finite = 0
sanitize_latency (finite (pos n)) = n
sanitize_latency (finite (negsuc n)) = 0

-- `values[index] = value` inside the array.
abbrev pub write_at : (index value : ℕ) → List ℕ → List ℕ
write_at index value [] = []
write_at zero value (x ∷ xs) = value ∷ xs
write_at (suc index) value (x ∷ xs) = x ∷ write_at index value xs

abbrev pub min_with : Option ℕ → ℕ → ℕ
min_with none value = value
min_with (some m) value = min m value

unfoldable pub record_value : LatencyWindow → (value : ℕ) → LatencyWindow
record_value window value = record {
  values = write_at window.write_index value window.values;
  size = min (window.size + 1) (length window.values);
  write_index = (window.write_index + 1) % length window.values;
  total_count = window.total_count + 1;
  total_ms = window.total_ms + value;
  min_ms = some (min_with window.min_ms value);
  max_ms = max window.max_ms value;
  last_ms = value;
}

unfoldable pub record_latency : LatencyWindow → (latency_ms : JsNumber) → LatencyWindow
unfolding record_value
record_latency window latency_ms = record_value window (sanitize_latency latency_ms)

-- `slice(0, n)`
abbrev pub take : ℕ → List ℕ → List ℕ
take zero s = []
take (suc n) [] = []
take (suc n) (c ∷ s) = c ∷ take n s

abbrev pub insert : ℕ → List ℕ → List ℕ
insert x [] = x ∷ []
insert x (y ∷ ys) = let rest = insert x ys in if leb x y then x ∷ y ∷ ys else y ∷ rest

-- `sort((a, b) => a - b)`
abbrev pub sort : List ℕ → List ℕ
sort [] = []
sort (x ∷ xs) = insert x (sort xs)

abbrev pub get_elem? : ℕ → List ℕ → Option ℕ
get_elem? n [] = none
get_elem? zero (x ∷ xs) = some x
get_elem? (suc n) (x ∷ xs) = get_elem? n xs

-- `percentile` at a ratio of `num / den`, which has the ceiling that the double `0.95` has, since
-- that is a little less; `roundMetric` leaves whole numbers as they are.
unfoldable pub percentile : (num den : ℕ) → List ℕ → Option ℕ
percentile num den [] = none
percentile num den (x ∷ xs) =
    let n = length (x ∷ xs) in
    get_elem? (max 0 (min (n - 1) ((n * num + (den - 1)) / den - 1))) (x ∷ xs)

-- `Math.round(total / count * 100)`
abbrev pub average_hundredths : (total count : ℕ) → ℕ
average_hundredths total count = (total * 200 + count) / (2 * count)

-- The samples that the window holds, in the order of the array.
abbrev pub recent : LatencyWindow → List ℕ
recent window = take window.size window.values

unfoldable pub snapshot_latency : LatencyWindow → LatencyMetricSnapshot
unfolding percentile
snapshot_latency window =
    if window.total_count == 0
    then record {
      count = 0;
      last_ms = none;
      min_ms = none;
      max_ms = none;
      avg_hundredths = none;
      p50_ms = none;
      p95_ms = none;
    }
    else record {
      count = window.total_count;
      last_ms = some window.last_ms;
      min_ms = window.min_ms;
      max_ms = some window.max_ms;
      avg_hundredths = some (average_hundredths window.total_ms window.total_count);
      p50_ms = percentile 1 2 (sort (recent window));
      p95_ms = percentile 19 20 (sort (recent window));
    }
