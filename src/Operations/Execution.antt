-- ===== src/Operations/Execution.antt =====
-- src/commerce_agent/operations/_memory.py: `InMemoryOperationStore.execute_once` and
-- `_apply_command`.
pub mod Atomicity
pub mod Tasks
pub mod Targets
pub mod Conflicts
pub mod Versions
pub mod Cases
use Prim.Native.String.{◌++◌ as ◌+++◌}
use commerce_analyst_agent.Prelude.{
  ℕ, ◌+◌, String, not, Option, none, some, if◌then◌else◌, ◌==◌, string_eq, option_eq, nat_eq,
  pair_eq,
}
use commerce_analyst_agent.Prelude.Dict.{get, put}
use commerce_analyst_agent.Prelude.Outcome.{Result, ok, err, bind_pure}
use commerce_analyst_agent.Operations.Errors.{
  OperationError, approval_error, conclusion_required, conflict_error, contract_error,
  investigation_not_resolved, investigation_status_conflict, key_error, nonce_used,
  risk_disposition_required,
}
use commerce_analyst_agent.Operations.Contracts.{
  ExecutionReceipt, ExecutionStatus, Instant, InvestigationStatus, InvestigationTaskRef,
  ProposalRef, RiskDisposition, Uuid, disposition_value, proposal_ref_eq, status_eq,
}
use commerce_analyst_agent.Operations.Commands.{
  AssignInvestigation, CloseInvestigation, OperationCommand, Priority, TransitionInvestigation,
  add_investigation_conclusion, assign_investigation, close_investigation, command_type,
  create_and_enable_metric_alert_rule, create_investigation_from_alert_hit,
  create_investigation_task, open_seller_risk_case, transition_investigation,
}
use commerce_analyst_agent.Operations.Ports.{Ports}
use commerce_analyst_agent.Operations.Approval.{StoredApproval}
use commerce_analyst_agent.Operations.References.{StoredProposal}
use commerce_analyst_agent.Operations.State.{InvestigationTaskState, OperationStore, StoreMethod}
use commerce_analyst_agent.Operations.Preview.{checked_task}

-- `f"{kind}:{ref.proposal_id}:{ref.version}"`
abbrev pub reference_name : Ports → String → ProposalRef → String
reference_name p kind ref =
    kind +++ (":" +++ (p.uuid_str ref.proposal_id +++ (":" +++ p.int_str ref.version)))

abbrev pub derived_id : Ports → String → ProposalRef → Uuid
derived_id p kind ref = p.uuid5 (reference_name p kind ref)

abbrev pub VersionChange : Type 0
VersionChange = ℕ × ℕ

abbrev pub new_task : Uuid → Priority → String → Option Uuid → InvestigationTaskState
new_task task_id priority summary linked = record {
  task_id = task_id;
  status = InvestigationStatus.opened;
  priority = priority;
  public_summary = summary;
  version = 1;
  assignee_ref = none;
  conclusion_ref = none;
  linked_risk_id = linked;
}

unfoldable pub create_task : Uuid → Priority → String → StoreMethod VersionChange
create_task task_id priority summary s =
    (ok (0, 1), record s { tasks = put s.tasks task_id (new_task task_id priority summary none) })

unfoldable pub open_risk_case : Uuid → Uuid → Priority → StoreMethod VersionChange
open_risk_case task_id risk_id priority s = (
  ok (0, 1),
  record s {
    tasks =
        put s.tasks task_id
          (new_task task_id priority "Seller risk requires investigation." (some risk_id));
    risks =
        put s.risks risk_id
          (record { risk_id = risk_id; status = "under_investigation"; version = 1 });
  },
)

unfoldable pub enable_rule : Uuid → StoreMethod VersionChange
enable_rule rule_id s = (
  ok (0, 1),
  record s {
    rules = put s.rules rule_id (record { rule_id = rule_id; status = "enabled"; version = 1 });
  },
)

-- `self._tasks[task.task_id] = updated`
unfoldable pub save_task :
    InvestigationTaskState → InvestigationTaskState → StoreMethod VersionChange
save_task task updated s =
    (ok (task.version, updated.version), record s { tasks = put s.tasks task.task_id updated })

unfoldable pub assign : AssignInvestigation → InvestigationTaskState → StoreMethod VersionChange
unfolding save_task
assign c task =
    save_task task (record task { assignee_ref = some c.assignee_ref; version = task.version + 1 })

unfoldable pub transition :
    TransitionInvestigation → InvestigationTaskState → StoreMethod VersionChange
unfolding save_task
transition c task s =
    if not (task.status == c.from_status)
    then (err (conflict_error investigation_status_conflict), s)
    else save_task task (record task { status = c.to_status; version = task.version + 1 }) s

unfoldable pub add_conclusion :
    Ports → ProposalRef → InvestigationTaskState → StoreMethod VersionChange
unfolding save_task
add_conclusion p ref task s =
    if not (task.status == InvestigationStatus.resolved)
    then (err (contract_error investigation_not_resolved), s)
    else save_task task
        (record task {
          conclusion_ref = some (reference_name p "conclusion" ref);
          version = task.version + 1;
        })
        s

abbrev pub closed_task : InvestigationTaskState → InvestigationTaskState
closed_task task = record task { status = InvestigationStatus.closed; version = task.version + 1 }

-- `self._risks[task.linked_risk_id]` and the write to it
unfoldable pub dispose_risk :
    Uuid → RiskDisposition → InvestigationTaskState → StoreMethod VersionChange
unfolding save_task
dispose_risk risk_id disposition task s = elim (get s.risks risk_id) [
  | none ↦ (err key_error, s)
  | some risk ↦ save_task task (closed_task task) (record s {
    risks =
        put s.risks risk_id
          (record risk { status = disposition_value disposition; version = risk.version + 1 });
  })
]

abbrev pub close_linked :
    Option Uuid → Option RiskDisposition → InvestigationTaskState → StoreMethod VersionChange
close_linked none _ task s = save_task task (closed_task task) s
close_linked (some risk_id) none task s = (err (contract_error risk_disposition_required), s)
close_linked (some risk_id) (some disposition) task s = dispose_risk risk_id disposition task s

unfoldable pub close : CloseInvestigation → InvestigationTaskState → StoreMethod VersionChange
unfolding save_task dispose_risk
close c task s =
    if not (task.status == InvestigationStatus.resolved)
    then (err (contract_error investigation_not_resolved), s)
    else if not (task.conclusion_ref == some c.conclusion_ref)
    then (err (contract_error conclusion_required), s)
    else close_linked task.linked_risk_id c.risk_disposition task s

-- The checks on an existing task, and then the command's own branch.
abbrev pub on_task :
    InvestigationTaskRef
    → ℕ
    → (InvestigationTaskState → StoreMethod VersionChange)
    → StoreMethod VersionChange
on_task task_ref expected body s = bind_pure (checked_task s task_ref expected) body s

unfoldable pub apply_command : Ports → OperationCommand → ProposalRef → StoreMethod VersionChange
unfolding create_task open_risk_case enable_rule assign transition add_conclusion close checked_task
apply_command p (create_investigation_task c) ref =
    create_task (derived_id p "task" ref) c.priority c.public_summary
apply_command p (create_investigation_from_alert_hit c) ref =
    create_task (derived_id p "task" ref) c.priority "Created from a reviewed alert hit."
apply_command p (open_seller_risk_case c) ref =
    open_risk_case (derived_id p "task" ref) (derived_id p "risk" ref) c.priority
apply_command p (create_and_enable_metric_alert_rule c) ref = enable_rule (derived_id p "rule" ref)
apply_command p (assign_investigation c) ref =
    on_task c.task_ref c.expected_target_version (assign c)
apply_command p (transition_investigation c) ref =
    on_task c.task_ref c.expected_target_version (transition c)
apply_command p (add_investigation_conclusion c) ref =
    on_task c.task_ref c.expected_target_version (add_conclusion p ref)
apply_command p (close_investigation c) ref = on_task c.task_ref c.expected_target_version (close c)

abbrev pub execution_receipt : Ports → StoredProposal → VersionChange → Instant → ExecutionReceipt
execution_receipt p proposal change now = record {
  execution_id = derived_id p "operation" proposal.snapshot.proposal_ref;
  proposal_ref = proposal.snapshot.proposal_ref;
  status = ExecutionStatus.succeeded;
  command_type = command_type proposal.command;
  before_version = change.0;
  after_version = change.1;
  committed_at = now;
  public_summary = proposal.snapshot.preview.public_summary;
  audit_ref = reference_name p "audit" proposal.snapshot.proposal_ref;
}

-- The part of `execute_once` after `_apply_command`.
abbrev pub commit_execution :
    Ports
    → StoredProposal
    → StoredApproval
    → Instant
    → Result OperationError VersionChange × OperationStore
    → Result OperationError ExecutionReceipt × OperationStore
commit_execution p proposal approval now (err e, s) = (err e, s)
commit_execution p proposal approval now (ok change, s) = (
  ok (execution_receipt p proposal change now),
  record s {
    nonce_claims = put s.nonce_claims approval.nonce_digest proposal.snapshot.proposal_ref;
    executions =
        put s.executions proposal.snapshot.proposal_ref (execution_receipt p proposal change now);
    business_write_count = s.business_write_count + 1;
    audit_count = s.audit_count + 1;
    nonce_claim_count = s.nonce_claim_count + 1;
  },
)

unfoldable pub execute_once :
    Ports → StoredProposal → StoredApproval → Instant → StoreMethod ExecutionReceipt
unfolding apply_command
execute_once p proposal approval now s = elim (get s.executions proposal.snapshot.proposal_ref) [
  | some previous ↦ (ok previous, s)
  | none ↦ elim (get s.nonce_claims approval.nonce_digest) [
    | some _ ↦ (err (approval_error nonce_used), s)
    | none ↦
        commit_execution p proposal approval now
          (apply_command p proposal.command proposal.snapshot.proposal_ref s)
  ]
]
