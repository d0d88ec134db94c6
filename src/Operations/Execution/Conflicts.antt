-- ===== src/Operations/Execution/Conflicts.antt =====
-- Two proposals for one version of a task (src/commerce_agent/operations/_memory.py).
use commerce_analyst_agent.Prelude.{
  ℕ, suc, ◌≡◌, ◌≢◌, ◌⊎◌, ◌∙◌, ap, none, some, inl, inr, arith, Option-cases, nat_eq, string_eq,
  option_eq, nat_beq_iff,
}
use commerce_analyst_agent.Prelude.Dict.{get}
use commerce_analyst_agent.Prelude.Outcome.{ok, err}
use commerce_analyst_agent.Operations.Errors.{
  approval_error, conflict_error, nonce_used, target_version_conflict,
}
use commerce_analyst_agent.Operations.Contracts.{
  ExecutionReceipt, Instant, InvestigationTaskRef, ProposalRef, proposal_ref_eq, status_eq,
}
use commerce_analyst_agent.Operations.Commands.{
  OperationCommand, add_investigation_conclusion, assign_investigation, close_investigation,
  open_seller_risk_case, transition_investigation,
}
use commerce_analyst_agent.Operations.Ports.{Ports}
use commerce_analyst_agent.Operations.Approval.{StoredApproval}
use commerce_analyst_agent.Operations.References.{StoredProposal}
use commerce_analyst_agent.Operations.State.{InvestigationTaskState, OperationStore, StoreMethod}
use commerce_analyst_agent.Operations.Preview.{checked_task}
use commerce_analyst_agent.Operations.Execution.{
  VersionChange, add_conclusion, apply_command, assign, close, execute_once, on_task, transition,
}
use commerce_analyst_agent.Operations.Execution.Atomicity.{first_execution}
use commerce_analyst_agent.Operations.Execution.Tasks.{Keyed}
use commerce_analyst_agent.Operations.Execution.Targets.{
  apply_command-Wrote, own_target, target, task_version,
}

stale_task :
    (task_ref : InvestigationTaskRef) (expected found : ℕ)
    (body : InvestigationTaskState → StoreMethod VersionChange) (s : OperationStore)
    → task_version s task_ref.task_id ≡ some found
    → found ≢ expected
    → on_task task_ref expected body s ≡ (err (conflict_error target_version_conflict), s)
unfolding checked_task
stale_task task_ref expected found body s there stale =
    elim (Option-cases (get s.tasks task_ref.task_id)) [
      | inl missing ↦ ground arith
      | inr (task, is_there) ↦ ground (arith, nat_beq_iff task.version expected)
    ]

stale_command :
    (p : Ports) (command : OperationCommand) (ref : ProposalRef) (s : OperationStore)
    (task_ref : InvestigationTaskRef) (expected found : ℕ)
    → target command ≡ some (task_ref, expected)
    → task_version s task_ref.task_id ≡ some found
    → found ≢ expected
    → apply_command p command ref s ≡ (err (conflict_error target_version_conflict), s)
unfolding apply_command
stale_command p (assign_investigation c) ref s r n found t there stale =
    let (own, seen) = own_target c.task_ref c.expected_target_version r n t in
    stale_task c.task_ref c.expected_target_version found (assign c) s (rw own at there)
      (rw seen at stale)
stale_command p (transition_investigation c) ref s r n found t there stale =
    let (own, seen) = own_target c.task_ref c.expected_target_version r n t in
    stale_task c.task_ref c.expected_target_version found (transition c) s (rw own at there)
      (rw seen at stale)
stale_command p (add_investigation_conclusion c) ref s r n found t there stale =
    let (own, seen) = own_target c.task_ref c.expected_target_version r n t in
    stale_task c.task_ref c.expected_target_version found (add_conclusion p ref) s (rw own at there)
      (rw seen at stale)
stale_command p (close_investigation c) ref s r n found t there stale =
    let (own, seen) = own_target c.task_ref c.expected_target_version r n t in
    stale_task c.task_ref c.expected_target_version found (close c) s (rw own at there)
      (rw seen at stale)
stale_command p (open_seller_risk_case c) ref s r n found t there stale = cc
stale_command p _ ref s r n found t there stale = cc

overtaken :
    (p : Ports) (proposal : StoredProposal) (approval : StoredApproval) (now : Instant)
    (s : OperationStore) (task_ref : InvestigationTaskRef) (expected found : ℕ)
    → target proposal.command ≡ some (task_ref, expected)
    → get s.executions proposal.snapshot.proposal_ref ≡ none
    → task_version s task_ref.task_id ≡ some found
    → found ≢ expected
    → (execute_once p proposal approval now s ≡ (err (approval_error nonce_used), s))
      ⊎ (execute_once p proposal approval now s ≡ (err (conflict_error target_version_conflict), s))
unfolding execute_once
overtaken p proposal approval now s task_ref expected found about absent there stale =
    let raises =
      stale_command p proposal.command proposal.snapshot.proposal_ref s task_ref expected found
        about there stale in
    elim (Option-cases (get s.nonce_claims approval.nonce_digest)) [
      | inl free ↦ inr (ground arith)
      | inr (ref, claimed) ↦ inl (ground arith)
    ]

-- Of two proposals for one version of a task only one is executed: after the first one's execution
-- has returned a receipt, the execution of the other one, which has not been executed, raises
-- `target_version_conflict`, or `nonce_used` where its nonce is claimed, and changes nothing. Every
-- task stands under its own identifier before.
pub execute_once_conflicts :
    (p : Ports) (proposal other : StoredProposal) (approval later_approval : StoredApproval)
    (now later : Instant) (s : OperationStore) (receipt : ExecutionReceipt)
    (task_ref other_ref : InvestigationTaskRef) (expected : ℕ)
    → Keyed s
    → get s.executions proposal.snapshot.proposal_ref ≡ none
    → (execute_once p proposal approval now s).0 ≡ ok receipt
    → target proposal.command ≡ some (task_ref, expected)
    → target other.command ≡ some (other_ref, expected)
    → other_ref.task_id ≡ task_ref.task_id
    → get (execute_once p proposal approval now s).1.executions other.snapshot.proposal_ref ≡ none
    → let t = (execute_once p proposal approval now s).1 in
      (execute_once p other later_approval later t ≡ (err (approval_error nonce_used), t))
      ⊎ (execute_once p other later_approval later t
          ≡ (err (conflict_error target_version_conflict), t))
execute_once_conflicts p proposal other approval later_approval now later s receipt task_ref
      other_ref expected keyed fresh h about other_about same absent =
    let t = (execute_once p proposal approval now s).1 in
    let first = first_execution p proposal approval now s receipt fresh h in
    let w =
      apply_command-Wrote p proposal.command proposal.snapshot.proposal_ref s
        (receipt.before_version, receipt.after_version) task_ref expected keyed about first.0 in
    let there : task_version t other_ref.task_id ≡ some (suc expected) =
      ap (task_version t) same
      ∙ ap
          (λ tasks. elim (get tasks task_ref.task_id) [
            | none ↦ none
            | some task ↦ some task.version
          ])
          first.1
      ∙ w.3
      ∙ ap some (w.2 ∙ ap suc w.1) in
    overtaken p other later_approval later t other_ref expected (suc expected) other_about absent
      there (omega arith)
