-- ===== src/Operations/Execution/Targets.antt =====
-- What an execution does to the target of its command (src/commerce_agent/operations/_memory.py).
use commerce_analyst_agent.Prelude.{
  ℕ, suc, ◌+◌, ◌≡◌, refl, ◌∙◌, none, some, inl, inr, arith, Option, Option-cases, nat_eq, string_eq,
  option_eq, nat_beq_iff,
}
use commerce_analyst_agent.Prelude.Dict.{get, get-put_self}
use commerce_analyst_agent.Prelude.Outcome.{ok}
use commerce_analyst_agent.Operations.Contracts.{
  ExecutionReceipt, Instant, InvestigationTaskRef, ProposalRef, Uuid, proposal_ref_eq, status_eq,
}
use commerce_analyst_agent.Operations.Commands.{
  AssignInvestigation, CloseInvestigation, OperationCommand, TransitionInvestigation,
  add_investigation_conclusion, assign_investigation, close_investigation,
  create_and_enable_metric_alert_rule, create_investigation_from_alert_hit,
  create_investigation_task, open_seller_risk_case, transition_investigation,
}
use commerce_analyst_agent.Operations.Ports.{Ports}
use commerce_analyst_agent.Operations.Approval.{StoredApproval}
use commerce_analyst_agent.Operations.References.{StoredProposal}
use commerce_analyst_agent.Operations.State.{InvestigationTaskState, OperationStore, StoreMethod}
use commerce_analyst_agent.Operations.Preview.{checked_task}
use commerce_analyst_agent.Operations.Execution.{
  VersionChange, add_conclusion, apply_command, assign, close, create_task, derived_id,
  dispose_risk, enable_rule, execute_once, on_task, open_risk_case, save_task, transition,
}
use commerce_analyst_agent.Operations.Execution.Atomicity.{first_execution}
use commerce_analyst_agent.Operations.Execution.Tasks.{Keyed}

-- The task that a command is about, and the version that its author has seen.
abbrev pub target : OperationCommand → Option (InvestigationTaskRef × ℕ)
target (assign_investigation c) = some (c.task_ref, c.expected_target_version)
target (transition_investigation c) = some (c.task_ref, c.expected_target_version)
target (add_investigation_conclusion c) = some (c.task_ref, c.expected_target_version)
target (close_investigation c) = some (c.task_ref, c.expected_target_version)
target _ = none

abbrev pub task_version : OperationStore → Uuid → Option ℕ
task_version s id = elim (get s.tasks id) [ none ↦ none | some task ↦ some task.version ]

-- The version that stands in a store for what a command writes: the task that it is about, or the
-- task or the rule that it creates.
abbrev pub written_version : Ports → OperationCommand → ProposalRef → OperationStore → Option ℕ
written_version p (assign_investigation c) ref s = task_version s c.task_ref.task_id
written_version p (transition_investigation c) ref s = task_version s c.task_ref.task_id
written_version p (add_investigation_conclusion c) ref s = task_version s c.task_ref.task_id
written_version p (close_investigation c) ref s = task_version s c.task_ref.task_id
written_version p (create_and_enable_metric_alert_rule c) ref s =
    elim (get s.rules (derived_id p "rule" ref)) [ none ↦ none | some rule ↦ some rule.version ]
written_version p _ ref s = task_version s (derived_id p "task" ref)

-- The body of a command on a task replaces it by one of the next version.
abbrev Saves : OperationStore → (InvestigationTaskState → StoreMethod VersionChange) → Type 0
Saves s body =
    (task : InvestigationTaskState) (change : VersionChange)
    → (body task s).0 ≡ ok change
    → (task_version (body task s).1 task.task_id ≡ some change.1)
      × (change.0 ≡ task.version)
      × (change.1 ≡ suc task.version)

assign-Saves : (c : AssignInvestigation) (s : OperationStore) → Saves s (assign c)
unfolding assign save_task
assign-Saves c s task change h = grind (arith, get-put_self)

transition-Saves : (c : TransitionInvestigation) (s : OperationStore) → Saves s (transition c)
unfolding transition save_task
transition-Saves c s task change h = grind (arith, get-put_self)

add_conclusion-Saves :
    (p : Ports) (ref : ProposalRef) (s : OperationStore) → Saves s (add_conclusion p ref)
unfolding add_conclusion save_task
add_conclusion-Saves p ref s task change h = grind (arith, get-put_self)

close-Saves : (c : CloseInvestigation) (s : OperationStore) → Saves s (close c)
unfolding close dispose_risk save_task
close-Saves c s task change h = grind (arith, get-put_self)

-- What an application has done to the target at `id`: its version was the one before, and is the
-- one after.
abbrev Wrote : OperationStore → Uuid → ℕ → VersionChange → OperationStore → Type 0
Wrote s id expected change t =
    (task_version s id ≡ some change.0)
    × (change.0 ≡ expected)
    × (change.1 ≡ suc change.0)
    × (task_version t id ≡ some change.1)

on_task-Wrote :
    (task_ref : InvestigationTaskRef) (expected : ℕ)
    (body : InvestigationTaskState → StoreMethod VersionChange) (s : OperationStore)
    (change : VersionChange)
    → Keyed s
    → Saves s body
    → (on_task task_ref expected body s).0 ≡ ok change
    → Wrote s task_ref.task_id expected change (on_task task_ref expected body s).1
unfolding checked_task
on_task-Wrote task_ref expected body s change keyed saves h =
    elim (Option-cases (get s.tasks task_ref.task_id)) [
      | inl missing ↦ ground arith
      | inr (task, found) ↦
          let own = keyed task_ref.task_id task found in
          ground (arith, own, saves task change, nat_beq_iff task.version expected)
    ]

pub own_target :
    (task_ref : InvestigationTaskRef) (expected : ℕ) (r : InvestigationTaskRef) (n : ℕ)
    → ◌≡◌ {A = Option (InvestigationTaskRef × ℕ)} (some (task_ref, expected)) (some (r, n))
    → (r ≡ task_ref) × (n ≡ expected)
own_target task_ref expected r n h = (cc, cc)

-- A command on a task.
pub apply_command-Wrote :
    (p : Ports) (command : OperationCommand) (ref : ProposalRef) (s : OperationStore)
    (change : VersionChange) (task_ref : InvestigationTaskRef) (expected : ℕ)
    → Keyed s
    → target command ≡ some (task_ref, expected)
    → (apply_command p command ref s).0 ≡ ok change
    → Wrote s task_ref.task_id expected change (apply_command p command ref s).1
unfolding apply_command
apply_command-Wrote p (assign_investigation c) ref s change r n keyed t h =
    let (own, seen) = own_target c.task_ref c.expected_target_version r n t in
    rw (own, seen)
      (on_task-Wrote c.task_ref c.expected_target_version (assign c) s change keyed
        (assign-Saves c s) h)
apply_command-Wrote p (transition_investigation c) ref s change r n keyed t h =
    let (own, seen) = own_target c.task_ref c.expected_target_version r n t in
    rw (own, seen)
      (on_task-Wrote c.task_ref c.expected_target_version (transition c) s change keyed
        (transition-Saves c s) h)
apply_command-Wrote p (add_investigation_conclusion c) ref s change r n keyed t h =
    let (own, seen) = own_target c.task_ref c.expected_target_version r n t in
    rw (own, seen)
      (on_task-Wrote c.task_ref c.expected_target_version (add_conclusion p ref) s change keyed
        (add_conclusion-Saves p ref s) h)
apply_command-Wrote p (close_investigation c) ref s change r n keyed t h =
    let (own, seen) = own_target c.task_ref c.expected_target_version r n t in
    rw (own, seen)
      (on_task-Wrote c.task_ref c.expected_target_version (close c) s change keyed (close-Saves c s)
        h)
apply_command-Wrote p (open_seller_risk_case c) ref s change r n keyed t h = cc
apply_command-Wrote p _ ref s change r n keyed t h = cc

-- Every command: what it writes stands at the version that it returns, one on from the other.
apply_command-written_version :
    (p : Ports) (command : OperationCommand) (ref : ProposalRef) (s : OperationStore)
    (change : VersionChange)
    → Keyed s
    → (apply_command p command ref s).0 ≡ ok change
    → (written_version p command ref (apply_command p command ref s).1 ≡ some change.1)
      × (change.1 ≡ suc change.0)
unfolding apply_command create_task open_risk_case enable_rule
apply_command-written_version p (create_investigation_task c) ref s change keyed h =
    grind (arith, get-put_self)
apply_command-written_version p (create_investigation_from_alert_hit c) ref s change keyed h =
    grind (arith, get-put_self)
apply_command-written_version p (open_seller_risk_case c) ref s change keyed h =
    grind (arith, get-put_self)
apply_command-written_version p (create_and_enable_metric_alert_rule c) ref s change keyed h =
    grind (arith, get-put_self)
apply_command-written_version p (assign_investigation c) ref s change keyed h =
    let w =
      apply_command-Wrote p (assign_investigation c) ref s change c.task_ref
        c.expected_target_version keyed refl h in
    (w.3, w.2)
apply_command-written_version p (transition_investigation c) ref s change keyed h =
    let w =
      apply_command-Wrote p (transition_investigation c) ref s change c.task_ref
        c.expected_target_version keyed refl h in
    (w.3, w.2)
apply_command-written_version p (add_investigation_conclusion c) ref s change keyed h =
    let w =
      apply_command-Wrote p (add_investigation_conclusion c) ref s change c.task_ref
        c.expected_target_version keyed refl h in
    (w.3, w.2)
apply_command-written_version p (close_investigation c) ref s change keyed h =
    let w =
      apply_command-Wrote p (close_investigation c) ref s change c.task_ref
        c.expected_target_version keyed refl h in
    (w.3, w.2)

same_written :
    (p : Ports) (command : OperationCommand) (ref : ProposalRef) (s t : OperationStore)
    → s.tasks ≡ t.tasks
    → s.rules ≡ t.rules
    → written_version p command ref s ≡ written_version p command ref t
same_written p command ref s t tasks rules = ground arith

-- A first execution that returns a receipt has replaced what its command is about: it stands at the
-- receipt's later version, one on from the earlier one, and a task that was there stood at the
-- earlier one, which the command expects. It has stored the receipt, has claimed the nonce for its
-- proposal, has added one to each of the three counters, and has left the proposals and the
-- decisions alone. Every task stands under its own identifier before.
pub execute_once_commits :
    (p : Ports) (proposal : StoredProposal) (approval : StoredApproval) (now : Instant)
    (s : OperationStore) (receipt : ExecutionReceipt)
    → Keyed s
    → get s.executions proposal.snapshot.proposal_ref ≡ none
    → (execute_once p proposal approval now s).0 ≡ ok receipt
    → let t = (execute_once p proposal approval now s).1 in
      (written_version p proposal.command proposal.snapshot.proposal_ref t
        ≡ some receipt.after_version)
      × (receipt.after_version ≡ suc receipt.before_version)
      × ((task_ref : InvestigationTaskRef) (expected : ℕ)
          → target proposal.command ≡ some (task_ref, expected)
          → (task_version s task_ref.task_id ≡ some receipt.before_version)
            × (receipt.before_version ≡ expected))
      × (get t.executions proposal.snapshot.proposal_ref ≡ some receipt)
      × (get t.nonce_claims approval.nonce_digest ≡ some proposal.snapshot.proposal_ref)
      × (t.business_write_count ≡ s.business_write_count + 1)
      × (t.audit_count ≡ s.audit_count + 1)
      × (t.nonce_claim_count ≡ s.nonce_claim_count + 1)
      × (t.proposals ≡ s.proposals)
      × (t.decisions ≡ s.decisions)
execute_once_commits p proposal approval now s receipt keyed fresh h =
    let first = first_execution p proposal approval now s receipt fresh h in
    let change : VersionChange = (receipt.before_version, receipt.after_version) in
    let wrote =
      apply_command-written_version p proposal.command proposal.snapshot.proposal_ref s change keyed
        first.0 in
    (
      same_written p proposal.command proposal.snapshot.proposal_ref _ _ first.1 first.2 ∙ wrote.0,
      wrote.1,
      λ task_ref expected about.
          let w =
            apply_command-Wrote p proposal.command proposal.snapshot.proposal_ref s change task_ref
              expected keyed about first.0 in
          (w.0, w.1),
      first.3,
      first.4,
      first.5,
      first.6,
      first.7,
      first.8,
      first.9,
    )
