-- ===== src/Operations/Execution/Atomicity.antt =====
-- What an execution does to the store as a whole, and how often
-- (src/commerce_agent/operations/_memory.py).
use commerce_analyst_agent.Prelude.{
  ℕ, ◌+◌, ◌<◌, ◌≡◌, refl, none, some, inl, inr, arith, Option-cases, nat_eq, string_eq, Option,
}
use commerce_analyst_agent.Prelude.Dict.{get, get-put_self}
use commerce_analyst_agent.Prelude.Outcome.{Result, ok, err, Result-cases}
use commerce_analyst_agent.Operations.Errors.{OperationError, approval_error, nonce_used}
use commerce_analyst_agent.Operations.Contracts.{
  ExecutionReceipt, Instant, InvestigationTaskRef, ProposalRef, Uuid, proposal_ref_eq,
  RiskDisposition,
}
use commerce_analyst_agent.Operations.Commands.{
  CloseInvestigation, OperationCommand, TransitionInvestigation, create_investigation_task,
  create_investigation_from_alert_hit, open_seller_risk_case, create_and_enable_metric_alert_rule,
  assign_investigation, transition_investigation, add_investigation_conclusion, close_investigation,
}
use commerce_analyst_agent.Operations.Ports.{Ports}
use commerce_analyst_agent.Operations.Approval.{StoredApproval}
use commerce_analyst_agent.Operations.References.{StoredProposal}
use commerce_analyst_agent.Operations.State.{InvestigationTaskState, OperationStore, StoreMethod}
use commerce_analyst_agent.Operations.Preview.{checked_task}
use commerce_analyst_agent.Operations.Execution.{
  VersionChange, add_conclusion, apply_command, assign, close, close_linked, dispose_risk,
  execute_once, on_task, save_task, transition,
}

-- What a change of the business tables may do: fail and leave the store, or advance a version and
-- leave every table of the workflow itself.
abbrev pub Applied : OperationStore → Result OperationError VersionChange × OperationStore → Type 0
Applied s (err e, t) = t ≡ s
Applied s (ok (before, after), t) =
    (before < after)
    × (t.proposals ≡ s.proposals)
    × (t.latest_versions ≡ s.latest_versions)
    × (t.decisions ≡ s.decisions)
    × (t.executions ≡ s.executions)
    × (t.nonce_claims ≡ s.nonce_claims)
    × (t.business_write_count ≡ s.business_write_count)
    × (t.audit_count ≡ s.audit_count)
    × (t.nonce_claim_count ≡ s.nonce_claim_count)

transition-Applied :
    (c : TransitionInvestigation) (task : InvestigationTaskState) (s : OperationStore)
    → Applied s (transition c task s)
unfolding transition
transition-Applied c task s = ground arith

add_conclusion-Applied :
    (p : Ports) (ref : ProposalRef) (task : InvestigationTaskState) (s : OperationStore)
    → Applied s (add_conclusion p ref task s)
unfolding add_conclusion
add_conclusion-Applied p ref task s = ground arith

dispose_risk-Applied :
    (r : Uuid) (d : RiskDisposition) (task : InvestigationTaskState) (s : OperationStore)
    → Applied s (dispose_risk r d task s)
unfolding dispose_risk
dispose_risk-Applied r d task s = ground arith

close_linked-Applied :
    (r : Option Uuid) (d : Option RiskDisposition) (task : InvestigationTaskState)
    (s : OperationStore)
    → Applied s (close_linked r d task s)
unfolding save_task
close_linked-Applied none d task s = ground arith
close_linked-Applied (some r) none task s = refl
close_linked-Applied (some r) (some d) task s = dispose_risk-Applied r d task s

close-Applied :
    (c : CloseInvestigation) (task : InvestigationTaskState) (s : OperationStore)
    → Applied s (close c task s)
unfolding close
close-Applied c task s =
    ground (arith, close_linked-Applied task.linked_risk_id c.risk_disposition task s)

on_task-Applied :
    (task_ref : InvestigationTaskRef) (expected : ℕ)
    (body : InvestigationTaskState → StoreMethod VersionChange) (s : OperationStore)
    → ((task : InvestigationTaskState) → Applied s (body task s))
    → Applied s (on_task task_ref expected body s)
on_task-Applied task_ref expected body s h =
    elim (Result-cases (checked_task s task_ref expected)) [
      | inl (task, e) ↦ rw e (h task)
      | inr (e, f) ↦ rw f refl
    ]

pub apply_command-Applied :
    (p : Ports) (command : OperationCommand) (ref : ProposalRef) (s : OperationStore)
    → Applied s (apply_command p command ref s)
unfolding apply_command
apply_command-Applied p (create_investigation_task c) ref s = ground arith
apply_command-Applied p (create_investigation_from_alert_hit c) ref s = ground arith
apply_command-Applied p (open_seller_risk_case c) ref s = ground arith
apply_command-Applied p (create_and_enable_metric_alert_rule c) ref s = ground arith
apply_command-Applied p (assign_investigation c) ref s =
    on_task-Applied c.task_ref c.expected_target_version (assign c) s (λ task. ground arith)
apply_command-Applied p (transition_investigation c) ref s =
    on_task-Applied c.task_ref c.expected_target_version (transition c) s
      (λ task. transition-Applied c task s)
apply_command-Applied p (add_investigation_conclusion c) ref s =
    on_task-Applied c.task_ref c.expected_target_version (add_conclusion p ref) s
      (λ task. add_conclusion-Applied p ref task s)
apply_command-Applied p (close_investigation c) ref s =
    on_task-Applied c.task_ref c.expected_target_version (close c) s
      (λ task. close-Applied c task s)

-- A call of `execute_once` that raises leaves the store as it was, whatever the command.
pub execute_once_atomic :
    (p : Ports) (proposal : StoredProposal) (approval : StoredApproval) (now : Instant)
    (s : OperationStore) (e : OperationError)
    → (execute_once p proposal approval now s).0 ≡ err e
    → (execute_once p proposal approval now s).1 ≡ s
unfolding execute_once
execute_once_atomic p proposal approval now s e h =
    ground (arith, apply_command-Applied p proposal.command proposal.snapshot.proposal_ref s)

-- A first execution that returns a receipt has run its command, has stored the receipt, has claimed
-- the nonce for its proposal, has added one to each of the three counters, and has left the
-- proposals and the decisions alone.
pub first_execution :
    (p : Ports) (proposal : StoredProposal) (approval : StoredApproval) (now : Instant)
    (s : OperationStore) (receipt : ExecutionReceipt)
    → get s.executions proposal.snapshot.proposal_ref ≡ none
    → (execute_once p proposal approval now s).0 ≡ ok receipt
    → let t = (execute_once p proposal approval now s).1 in
      let applied = apply_command p proposal.command proposal.snapshot.proposal_ref s in
      (applied.0 ≡ ok (receipt.before_version, receipt.after_version))
      × (t.tasks ≡ applied.1.tasks)
      × (t.rules ≡ applied.1.rules)
      × (get t.executions proposal.snapshot.proposal_ref ≡ some receipt)
      × (get t.nonce_claims approval.nonce_digest ≡ some proposal.snapshot.proposal_ref)
      × (t.business_write_count ≡ s.business_write_count + 1)
      × (t.audit_count ≡ s.audit_count + 1)
      × (t.nonce_claim_count ≡ s.nonce_claim_count + 1)
      × (t.proposals ≡ s.proposals)
      × (t.decisions ≡ s.decisions)
unfolding execute_once
first_execution p proposal approval now s receipt fresh h =
    grind (
      arith,
      apply_command-Applied p proposal.command proposal.snapshot.proposal_ref s,
      get-put_self,
    )

-- Executing a proposal once more, with whatever approval, returns the first receipt and changes
-- nothing.
pub execute_once_idempotent :
    (p : Ports) (proposal : StoredProposal) (first second : StoredApproval) (now later : Instant)
    (s : OperationStore) (receipt : ExecutionReceipt)
    → (execute_once p proposal first now s).0 ≡ ok receipt
    → let t = (execute_once p proposal first now s).1 in
      execute_once p proposal second later t ≡ (ok receipt, t)
unfolding execute_once
execute_once_idempotent p proposal first second now later s receipt h =
    elim (Option-cases (get s.executions proposal.snapshot.proposal_ref)) [
      | inl fresh ↦ grind (arith, get-put_self)
      | inr (old, e) ↦ ground arith
    ]

claimed_blocks :
    (p : Ports) (other : StoredProposal) (reused : StoredApproval) (later : Instant)
    (t : OperationStore) (ref : ProposalRef)
    → get t.executions other.snapshot.proposal_ref ≡ none
    → get t.nonce_claims reused.nonce_digest ≡ some ref
    → execute_once p other reused later t ≡ (err (approval_error nonce_used), t)
unfolding execute_once
claimed_blocks p other reused later t ref absent claimed = ground arith

-- A nonce that one proposal's execution has claimed executes no other proposal that has not been
-- executed: the call raises `nonce_used` and changes nothing.
pub execute_once_nonce_used :
    (p : Ports) (proposal other : StoredProposal) (approval reused : StoredApproval)
    (now later : Instant) (s : OperationStore) (receipt : ExecutionReceipt)
    → get s.executions proposal.snapshot.proposal_ref ≡ none
    → (execute_once p proposal approval now s).0 ≡ ok receipt
    → reused.nonce_digest ≡ approval.nonce_digest
    → get (execute_once p proposal approval now s).1.executions other.snapshot.proposal_ref ≡ none
    → let t = (execute_once p proposal approval now s).1 in
      execute_once p other reused later t ≡ (err (approval_error nonce_used), t)
execute_once_nonce_used p proposal other approval reused now later s receipt fresh h same absent =
    let claimed = (first_execution p proposal approval now s receipt fresh h).4 in
    claimed_blocks p other reused later (execute_once p proposal approval now s).1
      proposal.snapshot.proposal_ref absent (rw same claimed)
