-- ===== src/Telemetry/Status.antt =====
-- src/telemetry/bridge-status.ts: the layered status of a bridge. An issue's message repeats its
-- code, its threshold and the latency, and the metrics of a layer repeat the input; they are left
-- out.
use command_relay.Common.{
  ℕ, ◌<◌, Bool, true, false, not, ◌&&◌, ◌||◌, Option, none, some, List, [], ◌∷◌, ◌++◌, String, ◌⊎◌,
  inl, inr, ◌↔◌, ◌≡◌, refl, sym, ap, ◌∙◌, arith, Bool-cases, or_iff, ◌==◌, nat_eq, ltb,
  if◌then◌else◌,
}

pub data Severity : Type 0 where
  ok warn fail : Severity

pub data Layer : Type 0 where
  transport runtime replay safety observability : Layer

pub record Issue : Type 0 where
  pub layer : Layer
  pub severity : Severity
  pub code : String

-- The counters and the percentiles that the derivation reads.
pub record StatusInput : Type 0 where
  pub active_clients : ℕ
  pub attach_requests : ℕ
  pub stream_lag_samples : ℕ
  pub connect_p95_ms : Option ℕ
  pub stream_lag_p95_ms : Option ℕ
  pub input_ack_p95_ms : Option ℕ

pub record StatusSnapshot : Type 0 where
  pub overall : Severity
  pub transport_severity : Severity
  pub runtime_severity : Severity
  pub replay_severity : Severity
  pub safety_severity : Severity
  pub observability_severity : Severity
  pub issues : List Issue

-- `deriveLatencySeverity`, with the issue that it pushes.
unfoldable pub derive_latency_severity :
    (p95_ms : Option ℕ) (warn_at fail_at : ℕ) → Layer → (code : String) → Severity × List Issue
derive_latency_severity none warn_at fail_at layer code = (ok, [])
derive_latency_severity (some p95_ms) warn_at fail_at layer code =
    if ltb fail_at p95_ms
    then (fail, record { layer = layer; severity = fail; code = code } ∷ [])
    else if ltb warn_at p95_ms
    then (warn, record { layer = layer; severity = warn; code = code } ∷ [])
    else (ok, [])

-- A layer that can only warn.
abbrev pub warn_if : Bool → Layer → (code : String) → Severity × List Issue
warn_if true layer code = (warn, record { layer = layer; severity = warn; code = code } ∷ [])
warn_if false layer code = (ok, [])

abbrev pub is_fail : Severity → Bool
is_fail fail = true
is_fail _ = false

abbrev pub is_warn : Severity → Bool
is_warn warn = true
is_warn _ = false

-- `severities.includes(…)`
abbrev pub any_severity : (Severity → Bool) → List Severity → Bool
any_severity p [] = false
any_severity p (s ∷ ss) = p s || any_severity p ss

unfoldable pub max_severity : List Severity → Severity
max_severity severities =
    if any_severity is_fail severities
    then fail
    else if any_severity is_warn severities
    then warn
    else ok

unfoldable pub build_bridge_status_snapshot : StatusInput → StatusSnapshot
unfolding derive_latency_severity max_severity
build_bridge_status_snapshot input =
    let (transport_severity, transport_issues) =
      derive_latency_severity input.connect_p95_ms 500 1000 transport "connect_latency_p95" in
    let (replay_severity, replay_issues) =
      derive_latency_severity input.stream_lag_p95_ms 200 500 replay "stream_lag_p95" in
    let (safety_severity, safety_issues) =
      derive_latency_severity input.input_ack_p95_ms 250 500 safety "input_ack_latency_p95" in
    let (runtime_severity, runtime_issues) =
      warn_if (ltb 0 input.active_clients && input.attach_requests == 0) runtime
        "active_clients_without_attach" in
    let (observability_severity, observability_issues) =
      warn_if (input.stream_lag_samples == 0 && ltb 0 input.active_clients) observability
        "missing_stream_lag_samples" in
    record {
      overall = max_severity (
          transport_severity ∷ runtime_severity ∷ replay_severity ∷ safety_severity
          ∷ observability_severity ∷ []);
      transport_severity = transport_severity;
      runtime_severity = runtime_severity;
      replay_severity = replay_severity;
      safety_severity = safety_severity;
      observability_severity = observability_severity;
      issues =
          transport_issues ++ replay_issues ++ safety_issues ++ runtime_issues
          ++ observability_issues;
    }

-- A latency over a threshold.
abbrev pub Over : (limit : ℕ) → Option ℕ → Type 0
Over limit none = ⊥
Over limit (some p95_ms) = limit < p95_ms

abbrev is_nil : List Issue → Bool
is_nil [] = true
is_nil (_ ∷ _) = false

abbrev is_quiet : Severity → Bool
is_quiet s = not (is_fail s || is_warn s)

is_nil-append : (xs ys : List Issue) → is_nil (xs ++ ys) ≡ (is_nil xs && is_nil ys)
is_nil-append [] ys = refl
is_nil-append (x ∷ xs) ys = refl

is_nil_iff : (xs : List Issue) → (is_nil xs ≡ true) ↔ (xs ≡ [])
is_nil_iff [] = (λ h. refl, λ h. refl)
is_nil_iff (x ∷ xs) = (λ h. cc, λ h. cc)

-- A layer shows an issue unless it is well.
IsShown : Severity × List Issue → Type 0
IsShown (severity, issues) = is_nil issues ≡ is_quiet severity

latency-IsShown :
    (o : Option ℕ) (w f : ℕ) (layer : Layer) (code : String)
    → IsShown (derive_latency_severity o w f layer code)
unfolding derive_latency_severity IsShown
latency-IsShown none w f layer code = refl
latency-IsShown (some p) w f layer code = elim (Bool-cases (ltb f p)) [
  | inl over ↦ rw (derive_latency_severity, over) refl
  | inr under ↦ elim (Bool-cases (ltb w p)) [
    | inl slow ↦ rw (derive_latency_severity, under, slow) refl
    | inr fine ↦ rw (derive_latency_severity, under, fine) refl
  ]
]

warn_if-IsShown : (b : Bool) (layer : Layer) (code : String) → IsShown (warn_if b layer code)
unfolding IsShown
warn_if-IsShown true layer code = refl
warn_if-IsShown false layer code = refl

latency-is_fail :
    (o : Option ℕ) (w f : ℕ) (layer : Layer) (code : String)
    → (is_fail (derive_latency_severity o w f layer code).0 ≡ true) ↔ Over f o
unfolding derive_latency_severity
latency-is_fail none w f layer code = (λ h. cc, λ h. elim h [ ])
latency-is_fail (some p) w f layer code = elim (Bool-cases (ltb f p)) [
  | inl over ↦ rw (derive_latency_severity, over) (λ h. ground arith, λ h. refl)
  | inr under ↦ elim (Bool-cases (ltb w p)) [
    | inl slow ↦ rw (derive_latency_severity, under, slow) (λ h. cc, λ h. ground arith)
    | inr fine ↦ rw (derive_latency_severity, under, fine) (λ h. cc, λ h. ground arith)
  ]
]

worst_fail : (x y : Bool) → ((if x then fail else if y then warn else ok) ≡ fail) ↔ (x ≡ true)
worst_fail true y = (λ h. refl, λ h. refl)
worst_fail false true = (λ h. cc, λ h. cc)
worst_fail false false = (λ h. cc, λ h. cc)

worst_ok :
    (x y : Bool) → ((if x then fail else if y then warn else ok) ≡ ok) ↔ (not (x || y) ≡ true)
worst_ok true y = (λ h. cc, λ h. cc)
worst_ok false true = (λ h. cc, λ h. cc)
worst_ok false false = (λ h. refl, λ h. refl)

module _ (a b c d e : Severity × List Issue) where
  layers-fail :
      is_fail b.0 ≡ false
      → is_fail e.0 ≡ false
      → (max_severity (a.0 ∷ b.0 ∷ c.0 ∷ d.0 ∷ e.0 ∷ []) ≡ fail)
        ↔ ((is_fail a.0 || (is_fail c.0 || is_fail d.0)) ≡ true)
  unfolding max_severity
  layers-fail h k =
      let severities = a.0 ∷ b.0 ∷ c.0 ∷ d.0 ∷ e.0 ∷ [] in
      let worst = worst_fail (any_severity is_fail severities) (any_severity is_warn severities) in
      let same : any_severity is_fail severities ≡ (is_fail a.0 || (is_fail c.0 || is_fail d.0)) =
        ground arith in
      (λ x. sym same ∙ worst.0 x, λ x. worst.1 (same ∙ x))

  layers-ok :
      IsShown a
      → IsShown b
      → IsShown c
      → IsShown d
      → IsShown e
      → (max_severity (a.0 ∷ b.0 ∷ c.0 ∷ d.0 ∷ e.0 ∷ []) ≡ ok)
        ↔ (a.1 ++ c.1 ++ d.1 ++ b.1 ++ e.1 ≡ [])
  unfolding max_severity IsShown
  layers-ok f g h k l =
      let severities = a.0 ∷ b.0 ∷ c.0 ∷ d.0 ∷ e.0 ∷ [] in
      let fails = any_severity is_fail severities in
      let warns = any_severity is_warn severities in
      let worst = worst_ok fails warns in
      let issues = a.1 ++ c.1 ++ d.1 ++ b.1 ++ e.1 in
      let joined : is_nil issues
          ≡ (is_nil a.1 && is_nil c.1 && is_nil d.1 && is_nil b.1 && is_nil e.1) =
        is_nil-append (a.1 ++ c.1 ++ d.1 ++ b.1) e.1
        ∙ ap (λ n. n && is_nil e.1)
            (is_nil-append (a.1 ++ c.1 ++ d.1) b.1
              ∙ ap (λ n. n && is_nil b.1)
                  (is_nil-append (a.1 ++ c.1) d.1
                    ∙ ap (λ n. n && is_nil d.1) (is_nil-append a.1 c.1))) in
      let same : is_nil issues ≡ not (fails || warns) = ground arith in
      let none_left = is_nil_iff issues in
      (λ x. none_left.0 (same ∙ worst.0 x), λ x. worst.1 (sym same ∙ none_left.1 x))

warn_if-is_fail :
    (b : Bool) (layer : Layer) (code : String) → is_fail (warn_if b layer code).0 ≡ false
warn_if-is_fail true layer code = refl
warn_if-is_fail false layer code = refl

-- The bridge fails exactly when a percentile is over its limit, and is well exactly when there is
-- no issue to show.
pub overall_iff :
    (input : StatusInput)
    → let status = build_bridge_status_snapshot input in
      ((status.overall ≡ fail) ↔ (
        Over 1000 input.connect_p95_ms
        ⊎ (Over 500 input.stream_lag_p95_ms ⊎ Over 500 input.input_ack_p95_ms)))
      × ((status.overall ≡ ok) ↔ (status.issues ≡ []))
unfolding build_bridge_status_snapshot
overall_iff input =
    let a = derive_latency_severity input.connect_p95_ms 500 1000 transport "connect_latency_p95" in
    let c = derive_latency_severity input.stream_lag_p95_ms 200 500 replay "stream_lag_p95" in
    let d = derive_latency_severity input.input_ack_p95_ms 250 500 safety "input_ack_latency_p95" in
    let quiet = ltb 0 input.active_clients && input.attach_requests == 0 in
    let unseen = input.stream_lag_samples == 0 && ltb 0 input.active_clients in
    let b = warn_if quiet runtime "active_clients_without_attach" in
    let e = warn_if unseen observability "missing_stream_lag_samples" in
    let failing =
      layers-fail a b c d e (warn_if-is_fail quiet runtime _)
        (warn_if-is_fail unseen observability _) in
    let over =
      or_iff (is_fail a.0) (is_fail c.0 || is_fail d.0)
        (latency-is_fail input.connect_p95_ms 500 1000 transport _)
        (or_iff (is_fail c.0) (is_fail d.0)
          (latency-is_fail input.stream_lag_p95_ms 200 500 replay _)
          (latency-is_fail input.input_ack_p95_ms 250 500 safety _)) in
    (
      (λ x. over.0 (failing.0 x), λ x. failing.1 (over.1 x)),
      layers-ok a b c d e (latency-IsShown input.connect_p95_ms 500 1000 transport _)
          (warn_if-IsShown quiet runtime _)
          (latency-IsShown input.stream_lag_p95_ms 200 500 replay _)
          (latency-IsShown input.input_ack_p95_ms 250 500 safety _)
          (warn_if-IsShown unseen observability _),
    )
