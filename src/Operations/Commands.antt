-- ===== src/Operations/Commands.antt =====
-- src/commerce_agent/operations/commands.py: the closed vocabulary of mutations, and the
-- validators that a command has passed once it is constructed.
use commerce_analyst_agent.Prelude.{
  ℕ, ◌-◌, ◌*◌, ◌^◌, String, Bool, true, false, not, ◌&&◌, ◌||◌, Option, none, some, List, ◌==◌,
  string_eq, nat_beq, ltb, leb, if◌then◌else◌, length, any, unique,
}
use Prim.Native.String.{count}
use commerce_analyst_agent.Operations.Contracts.{
  AlertBacktestRef, AlertComparator, AlertHitRef, CalendarWindow, EvidenceRef, Instant,
  InvestigationStatus, InvestigationTaskRef, MetricRef, Ratio, RiskDisposition, SellerRef,
  evidence_eq,
}

pub data Priority : Type 0 where
  low medium high : Priority

-- A Python `Decimal`: a finite one is a sign and `coefficient / 10 ^ scale`; one with a positive
-- exponent has its zeros in the coefficient.
pub data Decimal : Type 0 where
  nan infinite : Decimal
  finite : Bool → ℕ → ℕ → Decimal

-- `_validate_finite_decimal`: the value in millionths, or `none` for its `ValueError`
unfoldable pub validate_finite_decimal : Decimal → Option Ratio
validate_finite_decimal nan = none
validate_finite_decimal infinite = none
validate_finite_decimal (finite negative coefficient scale) =
    if (negative && ltb 0 coefficient) || ltb (10 ^ scale) coefficient
    then none
    else if ltb 6 scale
    then none
    else some (coefficient * 10 ^ (6 - scale))

-- `_validate_evidence` with the length limits of the field
unfoldable pub validate_evidence : List EvidenceRef → Bool
validate_evidence refs = leb 1 (length refs) && leb (length refs) 32 && unique refs

pub record OpenSellerRiskCase : Type 0 where
  pub evidence_refs : List EvidenceRef
  pub expected_target_version : ℕ
  pub seller_ref : SellerRef
  pub observation_started_at : Instant
  pub observation_ended_at : Instant
  pub metric_ref : MetricRef
  pub numerator : ℕ
  pub denominator : ℕ
  pub observed : Ratio
  pub threshold : Ratio
  pub title : String
  pub priority : Priority

unfoldable pub validate_observation : OpenSellerRiskCase → Bool
validate_observation c =
    ltb c.observation_started_at c.observation_ended_at && leb c.numerator c.denominator

pub record CreateInvestigationTask : Type 0 where
  pub evidence_refs : List EvidenceRef
  pub expected_target_version : ℕ
  pub title : String
  pub priority : Priority
  pub public_summary : String

pub record CreateInvestigationFromAlertHit : Type 0 where
  pub evidence_refs : List EvidenceRef
  pub expected_target_version : ℕ
  pub alert_hit_ref : AlertHitRef
  pub title : String
  pub priority : Priority

pub record CreateAndEnableMetricAlertRule : Type 0 where
  pub evidence_refs : List EvidenceRef
  pub expected_target_version : ℕ
  pub alert_backtest_ref : AlertBacktestRef
  pub metric_ref : MetricRef
  pub grain : String
  pub window : CalendarWindow
  pub comparator : AlertComparator
  pub threshold : Ratio
  pub minimum_denominator : ℕ
  pub filter_refs : List String

-- `CreateAndEnableMetricAlertRule.validate_filter_refs`; `count` is Python's `len` of a text
unfoldable pub validate_filter_refs : List String → Bool
validate_filter_refs refs =
    unique refs && not (any (λ item. (item == "") || ltb 256 (count item)) refs)

pub record AssignInvestigation : Type 0 where
  pub evidence_refs : List EvidenceRef
  pub task_ref : InvestigationTaskRef
  pub expected_target_version : ℕ
  pub assignee_ref : String

-- `_ALLOWED_TRANSITIONS`
unfoldable pub allowed_transitions : InvestigationStatus → InvestigationStatus → Bool
allowed_transitions InvestigationStatus.opened InvestigationStatus.in_progress = true
allowed_transitions InvestigationStatus.opened InvestigationStatus.blocked = true
allowed_transitions InvestigationStatus.in_progress InvestigationStatus.blocked = true
allowed_transitions InvestigationStatus.in_progress InvestigationStatus.resolved = true
allowed_transitions InvestigationStatus.blocked InvestigationStatus.in_progress = true
allowed_transitions InvestigationStatus.blocked InvestigationStatus.resolved = true
allowed_transitions _ _ = false

pub record TransitionInvestigation : Type 0 where
  pub evidence_refs : List EvidenceRef
  pub task_ref : InvestigationTaskRef
  pub expected_target_version : ℕ
  pub from_status : InvestigationStatus
  pub to_status : InvestigationStatus
  pub reason_code : String

pub record AddInvestigationConclusion : Type 0 where
  pub evidence_refs : List EvidenceRef
  pub task_ref : InvestigationTaskRef
  pub expected_target_version : ℕ
  pub conclusion_code : String
  pub conclusion_summary : String

pub record CloseInvestigation : Type 0 where
  pub evidence_refs : List EvidenceRef
  pub task_ref : InvestigationTaskRef
  pub expected_target_version : ℕ
  pub conclusion_ref : String
  pub risk_disposition : Option RiskDisposition

pub data OperationCommand : Type 0 where
  open_seller_risk_case : OpenSellerRiskCase → OperationCommand
  create_investigation_task : CreateInvestigationTask → OperationCommand
  create_investigation_from_alert_hit : CreateInvestigationFromAlertHit → OperationCommand
  create_and_enable_metric_alert_rule : CreateAndEnableMetricAlertRule → OperationCommand
  assign_investigation : AssignInvestigation → OperationCommand
  transition_investigation : TransitionInvestigation → OperationCommand
  add_investigation_conclusion : AddInvestigationConclusion → OperationCommand
  close_investigation : CloseInvestigation → OperationCommand

abbrev pub command_type : OperationCommand → String
command_type (open_seller_risk_case _) = "open_seller_risk_case"
command_type (create_investigation_task _) = "create_investigation_task"
command_type (create_investigation_from_alert_hit _) = "create_investigation_from_alert_hit"
command_type (create_and_enable_metric_alert_rule _) = "create_and_enable_metric_alert_rule"
command_type (assign_investigation _) = "assign_investigation"
command_type (transition_investigation _) = "transition_investigation"
command_type (add_investigation_conclusion _) = "add_investigation_conclusion"
command_type (close_investigation _) = "close_investigation"

abbrev pub command_evidence : OperationCommand → List EvidenceRef
command_evidence (open_seller_risk_case c) = c.evidence_refs
command_evidence (create_investigation_task c) = c.evidence_refs
command_evidence (create_investigation_from_alert_hit c) = c.evidence_refs
command_evidence (create_and_enable_metric_alert_rule c) = c.evidence_refs
command_evidence (assign_investigation c) = c.evidence_refs
command_evidence (transition_investigation c) = c.evidence_refs
command_evidence (add_investigation_conclusion c) = c.evidence_refs
command_evidence (close_investigation c) = c.evidence_refs

-- `ExistingTaskCommand.validate_exact_version`
abbrev pub validate_exact_version : InvestigationTaskRef → ℕ → Bool
validate_exact_version task_ref expected = nat_beq task_ref.version expected

-- The model validators of a command's class, and of the classes that it inherits from.
unfoldable pub validate_command_contract : OperationCommand → Bool
validate_command_contract (open_seller_risk_case c) =
    validate_evidence c.evidence_refs
    && nat_beq c.expected_target_version 0
    && ltb 0 c.denominator
    && validate_observation c
validate_command_contract (create_investigation_task c) =
    validate_evidence c.evidence_refs && nat_beq c.expected_target_version 0
validate_command_contract (create_investigation_from_alert_hit c) =
    validate_evidence c.evidence_refs && nat_beq c.expected_target_version 0
validate_command_contract (create_and_enable_metric_alert_rule c) =
    validate_evidence c.evidence_refs
    && nat_beq c.expected_target_version 0
    && ltb 0 c.minimum_denominator
    && leb c.minimum_denominator 1000000000
    && validate_filter_refs c.filter_refs
validate_command_contract (assign_investigation c) =
    validate_evidence c.evidence_refs && validate_exact_version c.task_ref c.expected_target_version
validate_command_contract (transition_investigation c) =
    validate_evidence c.evidence_refs
    && validate_exact_version c.task_ref c.expected_target_version
    && allowed_transitions c.from_status c.to_status
validate_command_contract (add_investigation_conclusion c) =
    validate_evidence c.evidence_refs && validate_exact_version c.task_ref c.expected_target_version
validate_command_contract (close_investigation c) =
    validate_evidence c.evidence_refs && validate_exact_version c.task_ref c.expected_target_version
