-- ===== src/Orchestration.antt =====
-- src/commerce_agent/orchestration: the contracts of the retail runs (contracts.py), and in the
-- children the graph that serves them.
pub mod Retail
pub mod Day4
use commerce_analyst_agent.Prelude.{
  ℕ, String, Bool, true, false, not, ◌&&◌, Option, none, some, List, [], ◌∷◌, map, all, any,
  contains, unique, length, leb, nat_beq, string_eq, suc,
}
use commerce_analyst_agent.Operations.Contracts.{ProposalRef, Uuid}
use commerce_analyst_agent.Model.{Hashes, RunScope}
use commerce_analyst_agent.Context.{ContextDatum, TypedErrorDatum}

pub data StopKind : Type 0 where
  budget_exhausted no_progress unsafe insufficient_data : StopKind
  completed infrastructure_error : StopKind

pub record StopOutcome : Type 0 where
  pub kind : StopKind
  pub reason_code : String
  pub evidence_digest : Option String
  pub retryable : Bool

pub record RetailRunRequest : Type 0 where
  pub run_scope : RunScope
  pub attempt_id : Uuid
  pub current_input : ContextDatum
  pub confirmed_facts : List ContextDatum
  pub evidence : List ContextDatum
  pub latest_error : Option TypedErrorDatum

pub data ClarificationSlot : Type 0 where
  gmv_metric_definition valid_order_statuses time_field time_range : ClarificationSlot
  analysis_grain minimum_order_count anomaly_threshold business_value : ClarificationSlot

pub record ClarificationItem : Type 0 where
  pub slot : ClarificationSlot
  pub question : String
  pub allowed_values : List String

pub record ClarificationRequest : Type 0 where
  pub conversation_id : String
  pub request_id : Uuid
  pub items : List ClarificationItem

pub data StepKind : Type 0 where
  baseline drilldown : StepKind

pub record QueryPlanStep : Type 0 where
  pub step_id : String
  pub kind : StepKind
  pub question : String
  pub measures : List String
  pub grains : List String
  pub evidence_refs : List String
  pub reconciliation_rule_refs : List String

-- `InvestigationPlan`, less the facts that only its reader uses.
pub record InvestigationPlan : Type 0 where
  pub conversation_id : String
  pub plan_id : Uuid
  pub steps : List QueryPlanStep
  pub evidence_refs : List String
  pub reconciliation_rule_refs : List String
  pub stop_conditions : List String

abbrev pub is_baseline : QueryPlanStep → Bool
is_baseline step = elim step.kind [ baseline ↦ true | drilldown ↦ false ]

abbrev pub baselines : List QueryPlanStep → ℕ
baselines [] = 0
baselines (step ∷ steps) =
    let rest = baselines steps in elim step.kind [ baseline ↦ suc rest | drilldown ↦ rest ]

-- `set(xs) <= set(ys)`
abbrev pub subset : List String → List String → Bool
subset xs ys = all (λ x. contains x ys) xs

abbrev pub step_ids : List QueryPlanStep → List String
step_ids steps = map (λ step. step.step_id) steps

-- The bounds of the field `steps` and `validate_plan_shape`.
unfoldable pub validate_plan_shape : InvestigationPlan → Bool
validate_plan_shape plan =
    leb 2 (length plan.steps)
    && leb (length plan.steps) 12
    && nat_beq (baselines plan.steps) 1
    && any (λ step. not (is_baseline step)) plan.steps
    && unique (step_ids plan.steps)
    && all (λ step. subset step.evidence_refs plan.evidence_refs) plan.steps
    && all (λ step. subset step.reconciliation_rule_refs plan.reconciliation_rule_refs) plan.steps

pub record InvestigationClaim : Type 0 where
  pub claim_id : String
  pub text : String
  pub evidence_refs : List String

pub data RiskStatus : Type 0 where
  confirmed dismissed inconclusive : RiskStatus

pub record SensitivityComparison : Type 0 where
  pub all_sellers_evidence_ref : String
  pub selected_risk_evidence_ref : String
  pub summary : String

pub record InvestigationReport : Type 0 where
  pub conversation_id : String
  pub report_id : Uuid
  pub claims : List InvestigationClaim
  pub evidence_ids : List String
  pub limitations : List String
  pub reconciliation_refs : List String
  pub proposal_refs : List ProposalRef
  pub selected_risk_status : Option RiskStatus
  pub sensitivity_comparison : Option SensitivityComparison

abbrev pub risk_is_compared : InvestigationReport → Bool
risk_is_compared report = elim report.selected_risk_status [
  | none ↦ true
  | some status ↦ elim report.sensitivity_comparison [ none ↦ false | some c ↦ true ]
]

abbrev pub comparison_is_available : InvestigationReport → Bool
comparison_is_available report = elim report.sensitivity_comparison [
  | none ↦ true
  | some c ↦
      contains c.all_sellers_evidence_ref report.evidence_ids
      && contains c.selected_risk_evidence_ref report.evidence_ids
]

-- `validate_evidence_and_sensitivity`
unfoldable pub validate_evidence_and_sensitivity : InvestigationReport → Bool
validate_evidence_and_sensitivity report =
    all (λ claim. subset claim.evidence_refs report.evidence_ids) report.claims
    && subset report.reconciliation_refs report.evidence_ids
    && risk_is_compared report
    && comparison_is_available report

pub data RetailTerminal : Type 0 where
  clarification : ClarificationRequest → RetailTerminal
  report : InvestigationReport → RetailTerminal

pub data RunStatus : Type 0 where
  needs_input completed stopped : RunStatus

pub record RetailRunOutcome : Type 0 where
  pub status : RunStatus
  pub terminal : Option RetailTerminal
  pub stop : Option StopOutcome
  pub model_calls : ℕ
  pub tool_calls : ℕ
  pub hashes : Hashes
  pub attempt_id : Uuid

-- `validate_terminal_value`
unfoldable pub validate_terminal_value : RetailRunOutcome → Bool
validate_terminal_value outcome = elim outcome.status [
  | needs_input ↦ elim outcome.terminal [
    | some (clarification request) ↦ elim outcome.stop [ none ↦ true | _ ↦ false ]
    | _ ↦ false
  ]
  | completed ↦ elim outcome.terminal [
    | some (report value) ↦ elim outcome.stop [ none ↦ true | _ ↦ false ]
    | _ ↦ false
  ]
  | stopped ↦ elim outcome.terminal [
    | none ↦ elim outcome.stop [ none ↦ false | _ ↦ true ]
    | _ ↦ false
  ]
]
