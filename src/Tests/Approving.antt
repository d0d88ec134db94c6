-- ===== src/Tests/Approving.antt =====
-- The theorems on grants, canonical forms, backtests and the workflow, applied.
use commerce_analyst_agent.Prelude.{
  ◌≡◌, ◌≢◌, ◌⊎◌, nat_beq, if◌then◌else◌, refl, true, false, contains, none, some, List, [], ◌∷◌,
  arith, nat_eq, string_eq, pair_eq, option_eq,
}
use commerce_analyst_agent.Prelude.Dict.{get, put}
use commerce_analyst_agent.Prelude.Outcome.{ok, err}
use commerce_analyst_agent.Operations.Contracts.{
  AlertBacktestRequest, AlertBacktestSnapshot, AlertComparator, AlertMetric, CalendarWindow,
  ExecuteRequest, ExecutionReceipt, ExecutionStatus, Instant, proposal_ref_eq,
}
use commerce_analyst_agent.Operations.Commands.{
  CreateAndEnableMetricAlertRule, Decimal, OperationCommand, Priority,
  create_and_enable_metric_alert_rule, open_seller_risk_case, validate_finite_decimal,
}
use commerce_analyst_agent.Operations.Errors.{overflow_error}
use commerce_analyst_agent.Operations.Ports.{Ports}
use commerce_analyst_agent.Operations.Canonical.{
  CanonicalPayload, canonical_command, canonical_json_bytes, normalized_decimal, quantize,
}
use commerce_analyst_agent.Operations.Canonical.Collisions.{
  normalized_decimal_accepts, threshold_collision,
}
use commerce_analyst_agent.Operations.Canonical.Totality.{canonical_command_defined, has_utc_times}
use commerce_analyst_agent.Operations.Approval.{
  StoredApproval, envelope_bytes, execution_grant_sha256, issue_grant, sign, sign_grant,
  verify_grant,
}
use commerce_analyst_agent.Operations.Approval.Grants.{
  IsVerified, stored_for, verify-issue, verify_grant_sound,
}
use commerce_analyst_agent.Operations.State.{OperationStore, initial}
use commerce_analyst_agent.Operations.Workflow.{decide, execute, granted_ref, propose}
use commerce_analyst_agent.Operations.Invariant.{IsOrderly}
use commerce_analyst_agent.Operations.Invariant.Executing.{IsAuthorized}
use commerce_analyst_agent.Operations.Invariant.Reach.{
  Reach, Reach-IsOrderly, Step, execute_four_eyes,
}
use commerce_analyst_agent.Operations.Backtest.{
  AlertObservation, evaluate, excluded_reason, is_invalid, metric_definition, rule_spec_sha256, run,
  validate_observation_order, window_value_of,
}
use commerce_analyst_agent.Operations.Backtest.Windows.{IsOrdered, run_sound}
use commerce_analyst_agent.Operations.Preview.{preview_command}
use commerce_analyst_agent.Operations.References.{StoredProposal, validate_command}
use commerce_analyst_agent.Tests.Values.{
  evidence, approval, approver, decision_request, first_ref, grant, keyring, ports, propose_request,
  readings, thirty_two_bytes, workflow,
}

grant_verifies : verify_grant ports keyring 30 grant approval approver ≡ ok tt
unfolding verify_grant envelope_bytes sign get
grant_verifies = refl

verify_grant_sound_example : IsVerified ports keyring 30 grant approval approver
verify_grant_sound_example =
    verify_grant_sound ports keyring 30 grant approval approver grant_verifies

grant_issued :
    issue_grant ports keyring 20 thirty_two_bytes first_ref "digest" 1 approver []
    ≡ ok (grant, "digest")
unfolding issue_grant sign_grant envelope_bytes sign get
grant_issued = refl

verify-issue_example :
    verify_grant ports keyring 30 grant (stored_for first_ref grant "digest") approver ≡ ok tt
verify-issue_example =
    verify-issue ports keyring 20 30 thirty_two_bytes first_ref "digest" 1 approver approver []
      grant "digest" grant_issued refl refl refl (omega arith)

abbrev start : OperationStore
start = initial []

abbrev after_propose : OperationStore
after_propose = (propose workflow propose_request 10 7 start).1

abbrev after_decide : OperationStore
after_decide = (decide workflow decision_request readings after_propose).1

unseen : get start.latest_versions 7 ≡ none
unfolding get
unseen = refl

reached : Reach workflow start after_decide
reached =
    Reach.next (Reach.next Reach.here (Step.proposes propose_request 10 7 start unseen))
      (Step.decides decision_request readings after_propose)

Reach-IsOrderly_example : IsOrderly after_decide
Reach-IsOrderly_example = Reach-IsOrderly workflow [] after_decide reached

-- The request that executes the proposal with the grant of its decision.
abbrev carry_out : ExecuteRequest
carry_out = record {
  actor = approver;
  grant = record grant { target_versions = ("investigation_task", 0) ∷ [] };
}

abbrev carried_out : ExecutionReceipt
carried_out = record {
  execution_id = 500;
  proposal_ref = first_ref;
  status = ExecutionStatus.succeeded;
  command_type = "create_investigation_task";
  before_version = 0;
  after_version = 1;
  committed_at = 31;
  public_summary = "Create one investigation task.";
  audit_ref = "audit:uuid:1";
}

not_yet : get after_decide.executions (granted_ref carry_out.grant) ≡ none
unfolding propose decide get put validate_command preview_command canonical_command issue_grant
    sign_grant envelope_bytes sign execution_grant_sha256
not_yet = refl

runs : (execute workflow carry_out 30 31 after_decide).0 ≡ ok carried_out
unfolding propose decide execute get put validate_command preview_command canonical_command
    issue_grant sign_grant envelope_bytes sign execution_grant_sha256 verify_grant
runs = refl

execute_four_eyes_example :
    (q : StoredProposal) × (a : StoredApproval) × IsAuthorized workflow carry_out 30 after_decide q
      a
    × (q.requester_id ≢ 2)
execute_four_eyes_example =
    execute_four_eyes workflow [] after_decide carry_out 30 31 carried_out reached not_yet runs

-- The first instant has no text in UTC.
abbrev bounded : Ports
bounded = record ports { isoformat = λ t. if nat_beq t 0 then none else some "text" }

abbrev observed_from : Instant → OperationCommand
observed_from start = open_seller_risk_case (record {
  evidence_refs = evidence;
  expected_target_version = 0;
  seller_ref = record { namespace = "seller"; token = "token" };
  observation_started_at = start;
  observation_ended_at = 5;
  metric_ref = record { name = "late_delivery_rate"; revision = "metric.late_delivery_rate.v1" };
  numerator = 1;
  denominator = 2;
  observed = 500000;
  threshold = 100000;
  title = "late deliveries";
  priority = Priority.high;
})

canonical_command_defined_example :
    (has_utc_times bounded (observed_from 0) ≡ true)
      × ((payload : CanonicalPayload) × (canonical_command bounded (observed_from 0) []
            ≡ ok payload)
          × (payload.sha256 ≡ "digest"))
    ⊎ (has_utc_times bounded (observed_from 0) ≡ false)
      × (canonical_command bounded (observed_from 0) [] ≡ err overflow_error)
canonical_command_defined_example = canonical_command_defined bounded (observed_from 0) []

accepted_zero : validate_finite_decimal (Decimal.finite true 0 2) ≡ some 0
unfolding validate_finite_decimal
accepted_zero = refl

normalized_decimal_accepts_example :
    normalized_decimal ports (Decimal.finite true 0 2) ≡ ok (ports.format_4f true (quantize 0 100))
normalized_decimal_accepts_example =
    normalized_decimal_accepts ports (Decimal.finite true 0 2) 0 accepted_zero

abbrev rule : CreateAndEnableMetricAlertRule
rule = record {
  evidence_refs = evidence;
  expected_target_version = 0;
  alert_backtest_ref = record { backtest_id = 3; rule_spec_sha256 = "rule" };
  metric_ref = record { name = "late_delivery_rate"; revision = "metric.late_delivery_rate.v1" };
  grain = "global";
  window = CalendarWindow.week;
  comparator = AlertComparator.greater_than;
  threshold = 100000;
  minimum_denominator = 10;
  filter_refs = [];
}

-- 0.100001 and 0.1 are two thresholds.
threshold_rounds : quantize 100001 100 ≡ quantize 100000 100
unfolding quantize
threshold_rounds = refl

threshold_collision_example :
    canonical_command ports
      (create_and_enable_metric_alert_rule (record rule { threshold = 100001 }))
      []
    ≡ canonical_command ports (create_and_enable_metric_alert_rule rule) []
threshold_collision_example = threshold_collision ports rule 100001 [] threshold_rounds

abbrev request : AlertBacktestRequest
request = record {
  metric = AlertMetric.late_delivery_rate;
  metric_revision = "metric.late_delivery_rate.v1";
  grain = "global";
  window = CalendarWindow.week;
  comparator = AlertComparator.greater_than;
  threshold = 250000;
  minimum_denominator = 3;
  started_at = 100;
  ended_at = 300;
  filter_refs = [];
}

-- One window that hits and one that has too few cases.
abbrev observations : List AlertObservation
observations =
    record {
      window_started_at = 100;
      window_ended_at = 200;
      numerator = 1;
      denominator = 3;
      complete = true;
    }
    ∷ record {
      window_started_at = 200;
      window_ended_at = 300;
      numerator = 1;
      denominator = 2;
      complete = true;
    }
    ∷ []

abbrev measured : AlertBacktestSnapshot
measured = record {
  backtest_ref = record { backtest_id = 500; rule_spec_sha256 = "digest" };
  request = request;
  windows =
      record {
        window_started_at = 100;
        window_ended_at = 200;
        numerator = 1;
        denominator = 3;
        normalized_value = some 333333;
        complete = true;
        excluded_reason = none;
        hit = true;
      }
      ∷ record {
        window_started_at = 200;
        window_ended_at = 300;
        numerator = 1;
        denominator = 2;
        normalized_value = none;
        complete = true;
        excluded_reason = some "below_minimum_denominator";
        hit = false;
      }
      ∷ [];
  completed_at = 300;
}

measures : run ports metric_definition observations request ≡ ok measured
unfolding run metric_definition validate_observation_order is_invalid rule_spec_sha256
    canonical_json_bytes evaluate window_value_of excluded_reason quantize
measures = refl

run_sound_example :
    ((metric_definition request.metric).revision ≡ request.metric_revision)
    × (contains request.grain (metric_definition request.metric).allowed_grains ≡ true)
    × (measured.request ≡ request)
    × (measured.completed_at ≡ request.ended_at)
    × IsOrdered request request.started_at measured.windows
run_sound_example = run_sound ports metric_definition observations request measured measures
