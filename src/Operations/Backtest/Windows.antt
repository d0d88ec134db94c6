-- ===== src/Operations/Backtest/Windows.antt =====
-- What a backtest's windows are (src/commerce_agent/operations/_backtest.py).
use mathlib.Core.Path.{subst}
use commerce_analyst_agent.Prelude.{
  ℕ, ◌*◌, ◌+◌, ◌≤◌, ◌<◌, ◌≡◌, refl, String, true, false, Option, none, some, List, [], ◌∷◌, map,
  arith, Bool-cases, inl, inr, nat_eq, string_eq, contains, leb,
}
use commerce_analyst_agent.Prelude.Dict.{get-put_self}
use commerce_analyst_agent.Prelude.Outcome.{ok, Result-cases}
use native.Mathlib.Nat.{mul-le-mul_right}
use text.Mathlib.TextEquality.{eq_iff}
use commerce_analyst_agent.Operations.Contracts.{
  AlertBacktestRequest, AlertBacktestSnapshot, AlertMetric, AlertWindowResult, Instant, Ratio, one,
}
use commerce_analyst_agent.Operations.Ports.{Ports}
use commerce_analyst_agent.Operations.Canonical.{quantize}
use commerce_analyst_agent.Operations.Canonical.Collisions.{quantize_nearest}
use commerce_analyst_agent.Operations.Backtest.{
  AlertObservation, BacktestRegistry, MetricDefinition, add, evaluate, excluded_reason, hits,
  is_invalid, resolve_backtest, rule_spec_sha256, run, validate_observation_order, window_value_of,
  overlaps,
}

-- A window is either excluded, and then it is no hit, or it has the share of its cases, rounded to
-- the nearest millionth.
pub record IsScored (request : AlertBacktestRequest) (w : AlertWindowResult) : Type 0 where
  pub excluded :
      (reason : String)
      → w.excluded_reason ≡ some reason
      → (w.normalized_value ≡ none) × (w.hit ≡ false)
  pub scored :
      w.excluded_reason ≡ none
      → (v : Ratio) × (w.normalized_value ≡ some v)
        × (v ≤ one)
        × (2 * (v * w.denominator) ≤ 2 * (w.numerator * one) + w.denominator)
        × (2 * (w.numerator * one) ≤ 2 * (v * w.denominator) + w.denominator)
        × (w.complete ≡ true)
        × (request.minimum_denominator ≤ w.denominator)
        × (0 < w.denominator)
        × (w.hit ≡ hits request.comparator request.threshold v)

-- The windows lie one after the other within the period, none of them empty, each with at most as
-- many cases counted as cases observed, and each scored.
pub data IsOrdered (request : AlertBacktestRequest)
    : Instant → List AlertWindowResult → Type 0 where
  done : (t : Instant) → IsOrdered request t []
  window :
      (t : Instant) (w : AlertWindowResult) (ws : List AlertWindowResult)
      → t ≤ w.window_started_at
      → w.window_started_at < w.window_ended_at
      → w.window_ended_at ≤ request.ended_at
      → w.numerator ≤ w.denominator
      → IsScored request w
      → IsOrdered request w.window_ended_at ws
      → IsOrdered request t (w ∷ ws)

-- A rounded share of at most one is at most one.
share_bounded : (n d : ℕ) → 0 < d → n ≤ d → quantize (n * one) d ≤ one
share_bounded n d positive small = elim (Bool-cases (leb (quantize (n * one) d) one)) [
  | inl fits ↦ ground arith
  | inr exceeds ↦
      let near = (quantize_nearest (n * one) d positive).0 in
      let above : (one + 1) * d ≤ quantize (n * one) d * d = mul-le-mul_right d (ground arith) in
      absurd (omega (arith, near, above))
]

evaluate-IsScored :
    (request : AlertBacktestRequest) (item : AlertObservation)
    → item.numerator ≤ item.denominator
    → IsScored request (evaluate request item)
unfolding evaluate window_value_of
evaluate-IsScored request item small = record {
  excluded = λ reason e.
      let why : excluded_reason request item ≡ some reason = e in
      rw (why, evaluate, window_value_of) (refl, refl);
  scored = λ e.
      let fits : excluded_reason request item ≡ none = e in
      let full : (item.complete ≡ true)
          × (request.minimum_denominator ≤ item.denominator)
          × (0 < item.denominator) =
        unfold excluded_reason in ground arith in
      (
        quantize (item.numerator * one) item.denominator,
        rw (fits, evaluate, window_value_of) refl,
        share_bounded item.numerator item.denominator full.2 small,
        (quantize_nearest (item.numerator * one) item.denominator full.2).0,
        (quantize_nearest (item.numerator * one) item.denominator full.2).1,
        full.0,
        full.1,
        full.2,
        rw (fits, evaluate, window_value_of) refl,
      );
}

windows-IsOrdered :
    (request : AlertBacktestRequest) (previous : Option Instant) (t : Instant)
    (items : List AlertObservation)
    → request.started_at ≤ t
    → ((item : AlertObservation)
        → overlaps previous item ≡ false
        → request.started_at ≤ item.window_started_at
        → t ≤ item.window_started_at)
    → validate_observation_order request previous items ≡ ok tt
    → IsOrdered request t (map (evaluate request) items)
unfolding validate_observation_order is_invalid evaluate
windows-IsOrdered request previous t [] from later h = IsOrdered.done t
windows-IsOrdered request previous t (item ∷ items) from later h =
    elim (Bool-cases (is_invalid request previous item)) [
      | inl bad ↦ absurd (ground arith)
      | inr good ↦
          IsOrdered.window t (evaluate request item) (map (evaluate request) items)
            (later item (ground arith) (ground arith)) (ground arith) (ground arith) (ground arith)
            (evaluate-IsScored request item (ground arith))
            (windows-IsOrdered request (some item.window_ended_at) item.window_ended_at items
              (ground arith) (λ next apart after. ground arith) (ground arith))
    ]

-- A backtest that returns has the request's revision and a grain that the metric allows, and its
-- windows lie in order and apart within the requested period; a window that is not excluded is
-- complete, has at least the minimum denominator, which is not 0, and a share of at most one, to
-- the nearest millionth, and is a hit exactly where the comparator says so of share and threshold.
pub run_sound :
    (p : Ports) (resolve : AlertMetric → MetricDefinition) (observations : List AlertObservation)
    (request : AlertBacktestRequest) (snapshot : AlertBacktestSnapshot)
    → run p resolve observations request ≡ ok snapshot
    → ((resolve request.metric).revision ≡ request.metric_revision)
      × (contains request.grain (resolve request.metric).allowed_grains ≡ true)
      × (snapshot.request ≡ request)
      × (snapshot.completed_at ≡ request.ended_at)
      × IsOrdered request request.started_at snapshot.windows
unfolding run
run_sound p resolve observations request snapshot h =
    elim (Result-cases (validate_observation_order request none observations)) [
      | inr (e, f) ↦ absurd (ground arith)
      | inl (valid, f) ↦ elim (Result-cases (rule_spec_sha256 p request)) [
        | inr (e, k) ↦ absurd (ground arith)
        | inl (digest, k) ↦
            let shape : map (evaluate request) observations ≡ snapshot.windows = ground arith in
            (
              ground (arith, eq_iff (resolve request.metric).revision request.metric_revision),
              ground arith,
              ground arith,
              ground arith,
              subst (λ ws. IsOrdered request request.started_at ws) shape
                  (windows-IsOrdered request none request.started_at observations (omega arith)
                    (λ item apart after. after) f),
            )
      ]
    ]

-- A snapshot that the registry has been given is what its reference resolves to.
pub resolve_backtest-add :
    (snapshot : AlertBacktestSnapshot) (registry : BacktestRegistry)
    → resolve_backtest (add snapshot registry) snapshot.backtest_ref ≡ some snapshot
unfolding add resolve_backtest
resolve_backtest-add snapshot registry =
    get-put_self registry snapshot.backtest_ref.backtest_id snapshot
