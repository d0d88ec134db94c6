-- ===== src/Operations/Backtest.antt =====
-- src/commerce_agent/operations/_backtest.py: the backtest of a fixed metric. The observations that
-- `AlertObservationPort.observe` returns are an argument.
-- `numerator / denominator` is rounded once, where the source rounds to 28 digits and then to six
-- places: the two agree for denominators below 10^21. A negative count cannot be written.
pub mod Windows
use Prim.Native.String.{◌++◌ as ◌+++◌}
use commerce_analyst_agent.Prelude.{
  ℕ, ◌*◌, String, Bool, false, not, ◌||◌, Option, none, some, List, [], ◌∷◌, map, nat_beq, leb, ltb,
  if◌then◌else◌, contains, string_eq, nat_eq, ◌==◌,
}
use commerce_analyst_agent.Prelude.Dict.{Dict, get, put}
use commerce_analyst_agent.Prelude.Outcome.{ok, ◌>>=◌, ◌>>◌, raise_if}
use commerce_analyst_agent.Operations.Errors.{
  Call, backtest_observation_invalid, contract_error, metric_grain_forbidden,
  metric_revision_mismatch,
}
use commerce_analyst_agent.Operations.Contracts.{
  AlertBacktestRef, AlertBacktestRequest, AlertBacktestSnapshot, AlertComparator, AlertMetric,
  AlertWindowResult, Instant, Ratio, Uuid, comparator_value, metric_value, one, window_value,
}
use commerce_analyst_agent.Operations.Ports.{Ports}
use commerce_analyst_agent.Operations.Canonical.{
  PyItems, canonical_json_bytes, normalized_ratio, py_datetime, py_dict, py_int, py_sequence,
  py_str, quantize,
}
use commerce_analyst_agent.Operations.References.{sorted}

pub record MetricDefinition : Type 0 where
  pub revision : String
  pub numerator : String
  pub denominator : String
  pub time_field : String
  pub allowed_grains : List String

pub record AlertObservation : Type 0 where
  pub window_started_at : Instant
  pub window_ended_at : Instant
  pub numerator : ℕ
  pub denominator : ℕ
  pub complete : Bool

-- `METRIC_DEFINITIONS`, which `StaticMetricDefinitionPort` reads
unfoldable pub metric_definition : AlertMetric → MetricDefinition
metric_definition AlertMetric.late_delivery_rate = record {
  revision = "metric.late_delivery_rate.v1";
  numerator = "delivered_after_estimate";
  denominator = "delivered_orders";
  time_field = "order_purchase_timestamp";
  allowed_grains = "global" ∷ "seller_state" ∷ "product_category" ∷ [];
}
metric_definition AlertMetric.low_rating_rate = record {
  revision = "metric.low_rating_rate.v1";
  numerator = "review_score_lte_2";
  denominator = "reviewed_orders";
  time_field = "review_creation_date";
  allowed_grains = "global" ∷ "seller_state" ∷ "product_category" ∷ [];
}
metric_definition AlertMetric.cancellation_rate = record {
  revision = "metric.cancellation_rate.v1";
  numerator = "cancelled_orders";
  denominator = "placed_orders";
  time_field = "order_purchase_timestamp";
  allowed_grains = "global" ∷ "customer_state" ∷ [];
}

abbrev pub text_items : List String → PyItems
text_items [] = PyItems.nil
text_items (s ∷ r) = PyItems.cons (py_str s) (text_items r)

-- `utc_z` of the two times is taken where the projection is made canonical, which is next.
unfoldable pub rule_spec_sha256 : Ports → AlertBacktestRequest → Call String
rule_spec_sha256 p request =
    canonical_json_bytes p (
      py_dict (
        ("comparator", py_str (comparator_value request.comparator))
        ∷ ("ended_at", py_datetime request.ended_at)
        ∷ ("filter_refs", py_sequence (text_items (sorted request.filter_refs)))
        ∷ ("grain", py_str request.grain)
        ∷ ("metric", py_str (metric_value request.metric))
        ∷ ("metric_revision", py_str request.metric_revision)
        ∷ ("minimum_denominator", py_int request.minimum_denominator)
        ∷ ("schema_version", py_int 1)
        ∷ ("started_at", py_datetime request.started_at)
        ∷ ("threshold", py_str (normalized_ratio p request.threshold))
        ∷ ("window", py_str (window_value request.window))
        ∷ []))
    >>= λ canonical. ok (p.sha256_hex canonical)

-- `previous_end is not None and item.window_started_at < previous_end`
abbrev pub overlaps : Option Instant → AlertObservation → Bool
overlaps none item = false
overlaps (some previous_end) item = ltb item.window_started_at previous_end

-- The condition of the loop of `_validate_observation_order`.
unfoldable pub is_invalid : AlertBacktestRequest → Option Instant → AlertObservation → Bool
is_invalid request previous_end item =
    ltb item.window_started_at request.started_at
    || ltb request.ended_at item.window_ended_at
    || leb item.window_ended_at item.window_started_at
    || overlaps previous_end item
    || ltb item.denominator item.numerator

unfoldable pub validate_observation_order :
    AlertBacktestRequest → Option Instant → List AlertObservation → Call (Unit {0})
validate_observation_order request previous_end [] = ok tt
validate_observation_order request previous_end (item ∷ rest) =
    raise_if (is_invalid request previous_end item) (contract_error backtest_observation_invalid)
    >> validate_observation_order request (some item.window_ended_at) rest

unfoldable pub excluded_reason : AlertBacktestRequest → AlertObservation → Option String
excluded_reason request observation =
    if nat_beq observation.denominator 0
    then some "zero_denominator"
    else if ltb observation.denominator request.minimum_denominator
    then some "below_minimum_denominator"
    else if not observation.complete
    then some "incomplete_window"
    else none

abbrev pub hits : AlertComparator → Ratio → Ratio → Bool
hits AlertComparator.greater_than threshold value = ltb threshold value
hits AlertComparator.greater_than_or_equal threshold value = leb threshold value

-- `value`, with `None` for an excluded window
unfoldable pub window_value_of : AlertBacktestRequest → AlertObservation → Option Ratio
window_value_of request observation = elim (excluded_reason request observation) [
  | some _ ↦ none
  | none ↦ some (quantize (observation.numerator * one) observation.denominator)
]

unfoldable pub evaluate : AlertBacktestRequest → AlertObservation → AlertWindowResult
evaluate request observation = record {
  window_started_at = observation.window_started_at;
  window_ended_at = observation.window_ended_at;
  numerator = observation.numerator;
  denominator = observation.denominator;
  normalized_value = window_value_of request observation;
  complete = observation.complete;
  excluded_reason = excluded_reason request observation;
  hit = elim (window_value_of request observation) [
    | none ↦ false
    | some value ↦ hits request.comparator request.threshold value
  ];
}

-- `MetricAlertBacktester.run`
unfoldable pub run :
    Ports
    → (AlertMetric → MetricDefinition)
    → List AlertObservation
    → AlertBacktestRequest
    → Call AlertBacktestSnapshot
run p resolve observations request =
    raise_if (not ((resolve request.metric).revision == request.metric_revision))
      (contract_error metric_revision_mismatch)
    >> raise_if (not (contains request.grain (resolve request.metric).allowed_grains))
        (contract_error metric_grain_forbidden)
    >> validate_observation_order request none observations
    >> (rule_spec_sha256 p request >>= λ digest. ok (record {
      backtest_ref = record {
        backtest_id = p.uuid5 ("alert-backtest:" +++ digest);
        rule_spec_sha256 = digest;
      };
      request = request;
      windows = map (evaluate request) observations;
      completed_at = request.ended_at;
    }))

-- `InMemoryBacktestRegistry`
abbrev pub BacktestRegistry : Type 0
BacktestRegistry = Dict Uuid AlertBacktestSnapshot

unfoldable pub add : AlertBacktestSnapshot → BacktestRegistry → BacktestRegistry
add snapshot registry = put registry snapshot.backtest_ref.backtest_id snapshot

unfoldable pub resolve_backtest : BacktestRegistry → AlertBacktestRef → Option AlertBacktestSnapshot
resolve_backtest registry reference = get registry reference.backtest_id
