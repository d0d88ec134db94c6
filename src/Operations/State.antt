-- ===== src/Operations/State.antt =====
-- src/commerce_agent/operations/_memory.py: the state of `InMemoryOperationStore`. Its lock makes
-- every method one step; no method waits between its reads and its writes.
use commerce_analyst_agent.Prelude.{ℕ, String, Option, [], string_eq, option_eq, nat_eq, pair_eq}
use commerce_analyst_agent.Prelude.Dict.{Dict}
use commerce_analyst_agent.Prelude.Outcome.{Method}
use commerce_analyst_agent.Operations.Errors.{OperationError}
use commerce_analyst_agent.Operations.Contracts.{
  DecisionReceipt, ExecutionReceipt, InvestigationStatus, ProposalRef, Uuid, proposal_ref_eq,
  status_eq,
}
use commerce_analyst_agent.Operations.Commands.{Priority}
use commerce_analyst_agent.Operations.References.{StoredDecision, StoredProposal}

pub record InvestigationTaskState : Type 0 where
  pub task_id : Uuid
  pub status : InvestigationStatus
  pub priority : Priority
  pub public_summary : String
  pub version : ℕ
  pub assignee_ref : Option String
  pub conclusion_ref : Option String
  pub linked_risk_id : Option Uuid

pub record RiskAnnotationState : Type 0 where
  pub risk_id : Uuid
  pub status : String
  pub version : ℕ

pub record MetricAlertRuleState : Type 0 where
  pub rule_id : Uuid
  pub status : String
  pub version : ℕ

pub record OperationStore : Type 0 where
  pub proposals : Dict ProposalRef StoredProposal
  pub latest_versions : Dict Uuid ℕ
  pub idempotency : Dict (Uuid × String) (ProposalRef × String × String)
  pub decisions : Dict ProposalRef StoredDecision
  pub decision_receipts : Dict ProposalRef DecisionReceipt
  pub executions : Dict ProposalRef ExecutionReceipt
  pub nonce_claims : Dict String ProposalRef
  pub tasks : Dict Uuid InvestigationTaskState
  pub risks : Dict Uuid RiskAnnotationState
  pub rules : Dict Uuid MetricAlertRuleState
  pub business_write_count : ℕ
  pub audit_count : ℕ
  pub nonce_claim_count : ℕ

-- `__init__`, on the dict of the initial tasks
abbrev pub initial : Dict Uuid InvestigationTaskState → OperationStore
initial initial_tasks = record {
  proposals = [];
  latest_versions = [];
  idempotency = [];
  decisions = [];
  decision_receipts = [];
  executions = [];
  nonce_claims = [];
  tasks = initial_tasks;
  risks = [];
  rules = [];
  business_write_count = 0;
  audit_count = 0;
  nonce_claim_count = 0;
}

abbrev pub StoreMethod : Type 0 → Type 0
StoreMethod A = Method OperationError OperationStore A
