-- ===== src/Tests/Operating.antt =====
-- The theorems on executions, tasks, proposals and decisions, applied.
use commerce_analyst_agent.Prelude.{
  ℕ, suc, ◌≡◌, ◌⊎◌, refl, sym, true, none, some, [], ◌∷◌, arith, nat_eq, string_eq, pair_eq,
  option_eq,
}
use commerce_analyst_agent.Prelude.Dict.{get, put}
use commerce_analyst_agent.Prelude.Outcome.{ok, err}
use commerce_analyst_agent.Operations.Errors.{
  approval_error, conflict_error, idempotency_conflict, nonce_used, proposal_already_decided,
  target_version_conflict,
}
use commerce_analyst_agent.Operations.Contracts.{
  CommandPreview, ExecutionReceipt, InvestigationTaskRef, ProposalStatus, proposal_ref_eq,
  status_eq,
}
use commerce_analyst_agent.Operations.Commands.{
  allowed_transitions, validate_command_contract, validate_evidence,
}
use commerce_analyst_agent.Operations.Preview.{preview_command}
use commerce_analyst_agent.Operations.Proposals.{
  create_or_get_proposal, first_version, new_snapshot, store_proposal,
}
use commerce_analyst_agent.Operations.Proposals.Replay.{create_or_get_replay}
use commerce_analyst_agent.Operations.Decisions.{decide_once}
use commerce_analyst_agent.Operations.Decisions.Once.{decide_once_final}
use commerce_analyst_agent.Operations.Execution.{apply_command, execute_once, execution_receipt}
use commerce_analyst_agent.Operations.Execution.Atomicity.{
  execute_once_atomic, execute_once_idempotent, execute_once_nonce_used,
}
use commerce_analyst_agent.Operations.Execution.Tasks.{Keyed, Moved, apply_command_moves}
use commerce_analyst_agent.Operations.Execution.Versions.{preview_then_apply}
use commerce_analyst_agent.Operations.Execution.Targets.{
  execute_once_commits, target, task_version, written_version,
}
use commerce_analyst_agent.Operations.Execution.Conflicts.{execute_once_conflicts}
use commerce_analyst_agent.Operations.Execution.Cases.{IsSound, Keeps, apply_command-Keeps}
use commerce_analyst_agent.Operations.Approval.{StoredApproval}
use commerce_analyst_agent.Operations.References.{ProposalDraft, StoredProposal}
use commerce_analyst_agent.Tests.Values.{
  approval, draft, first_ref, held_task, new_task, ports, proposal_of, proposed, receipt_with,
  start_work, stocked,
}

abbrev approved_task : StoredProposal
approved_task = proposal_of first_ref ProposalStatus.approved new_task

abbrev approved_other : StoredProposal
approved_other =
    proposal_of (record { proposal_id = 8; version = 1 }) ProposalStatus.approved new_task

abbrev stale_move : StoredProposal
stale_move = proposal_of first_ref ProposalStatus.approved (start_work 3)

abbrev receipt : ExecutionReceipt
receipt = execution_receipt ports approved_task (0, 1) 30

not_executed : get stocked.executions first_ref ≡ none
unfolding get
not_executed = refl

executed : (execute_once ports approved_task approval 30 stocked).0 ≡ ok receipt
unfolding execute_once get put
executed = refl

other_not_executed :
    get
      (execute_once ports approved_task approval 30 stocked).1.executions
      approved_other.snapshot.proposal_ref
    ≡ none
unfolding execute_once get put
other_not_executed = refl

stale_raises :
    (execute_once ports stale_move approval 30 stocked).0
    ≡ err (conflict_error target_version_conflict)
unfolding execute_once get put
stale_raises = refl

execute_once_atomic_example : (execute_once ports stale_move approval 30 stocked).1 ≡ stocked
execute_once_atomic_example =
    execute_once_atomic ports stale_move approval 30 stocked
      (conflict_error target_version_conflict) stale_raises

held : get stocked.tasks 9 ≡ some held_task
unfolding get
held = refl

stocked-Keyed : Keyed stocked
unfolding get
stocked-Keyed id task h = ground arith

abbrev other_approval : StoredApproval
other_approval = record approval { nonce_digest = "another" }

-- Two proposals that start the work on one version of a task.
abbrev move : StoredProposal
move = proposal_of first_ref ProposalStatus.approved (start_work 4)

abbrev other_move : StoredProposal
other_move =
    proposal_of (record { proposal_id = 8; version = 1 }) ProposalStatus.approved (start_work 4)

abbrev move_receipt : ExecutionReceipt
move_receipt = execution_receipt ports move (4, 5) 30

moved : (execute_once ports move approval 30 stocked).0 ≡ ok move_receipt
unfolding execute_once get put
moved = refl

other_not_moved :
    get (execute_once ports move approval 30 stocked).1.executions other_move.snapshot.proposal_ref
    ≡ none
unfolding execute_once get put
other_not_moved = refl

execute_once_commits_example :
    let t = (execute_once ports move approval 30 stocked).1 in
    (written_version ports (start_work 4) first_ref t ≡ some 5)
    × (5 ≡ suc 4)
    × ((task_ref : InvestigationTaskRef) (expected : ℕ)
        → target (start_work 4) ≡ some (task_ref, expected)
        → (task_version stocked task_ref.task_id ≡ some 4) × (4 ≡ expected))
    × (get t.executions first_ref ≡ some move_receipt)
    × (get t.nonce_claims "digest" ≡ some first_ref)
    × (t.business_write_count ≡ 1)
    × (t.audit_count ≡ 1)
    × (t.nonce_claim_count ≡ 1)
    × (t.proposals ≡ [])
    × (t.decisions ≡ [])
execute_once_commits_example =
    execute_once_commits ports move approval 30 stocked move_receipt stocked-Keyed not_executed
      moved

execute_once_conflicts_example :
    let t = (execute_once ports move approval 30 stocked).1 in
    (execute_once ports other_move other_approval 31 t ≡ (err (approval_error nonce_used), t))
    ⊎ (execute_once ports other_move other_approval 31 t
        ≡ (err (conflict_error target_version_conflict), t))
execute_once_conflicts_example =
    execute_once_conflicts ports move other_move approval other_approval 30 31 stocked move_receipt
      (record { task_id = 9; version = 4 }) (record { task_id = 9; version = 4 }) 4 stocked-Keyed
      not_executed moved refl refl refl other_not_moved

execute_once_idempotent_example :
    let t = (execute_once ports approved_task approval 30 stocked).1 in
    execute_once ports approved_task approval 31 t ≡ (ok receipt, t)
execute_once_idempotent_example =
    execute_once_idempotent ports approved_task approval approval 30 31 stocked receipt executed

execute_once_nonce_used_example :
    let t = (execute_once ports approved_task approval 30 stocked).1 in
    execute_once ports approved_other approval 31 t ≡ (err (approval_error nonce_used), t)
execute_once_nonce_used_example =
    execute_once_nonce_used ports approved_task approved_other approval approval 30 31 stocked
      receipt not_executed executed refl other_not_executed

start_work_valid : validate_command_contract (start_work 4) ≡ true
unfolding validate_command_contract validate_evidence allowed_transitions
start_work_valid = refl

apply_command_moves_example :
    Moved stocked (apply_command ports (start_work 4) first_ref stocked).1 9 held_task
apply_command_moves_example =
    apply_command_moves ports (start_work 4) first_ref stocked 9 held_task start_work_valid
      stocked-Keyed (omega arith) held

abbrev start_preview : CommandPreview
start_preview = record {
  command_type = "transition_investigation";
  title = "Transition Investigation";
  public_summary = "Update one investigation task at its exact version.";
  target_versions = ("investigation_task", 4) ∷ [];
  affected_rows = 1;
}

previewed : preview_command stocked (start_work 4) ≡ ok start_preview
unfolding preview_command get
previewed = refl

started : (apply_command ports (start_work 4) first_ref stocked).0 ≡ ok (4, 5)
unfolding apply_command get
started = refl

preview_then_apply_example : (◌≡◌ {A = ℕ} 4 4 × Unit {0}) × (◌≡◌ {A = ℕ} 5 (suc 4))
preview_then_apply_example =
    preview_then_apply ports (start_work 4) first_ref stocked start_preview (4, 5) previewed started

stocked-IsSound : IsSound stocked
unfolding get
stocked-IsSound id task h =
    let same : held_task ≡ task = ground arith in
    let own : 9 ≡ id = ground arith in
    rw ((sym same), (sym own))
      (record { own_id = refl; concluded = λ e. cc e; linked = λ r e. cc e })

apply_command-Keeps_example : Keeps (apply_command ports (start_work 4) first_ref stocked)
apply_command-Keeps_example =
    apply_command-Keeps ports (start_work 4) first_ref stocked start_work_valid stocked-IsSound

-- A draft of the same key with another payload.
abbrev changed_draft : ProposalDraft
changed_draft = record draft { payload_sha256 = "other" }

-- The draft as a revision of the first version, under a key of its own.
abbrev revision : ProposalDraft
revision = record draft {
  request = record draft.request { idempotency_key = "second"; revises = some first_ref };
}

created : (create_or_get_proposal 7 draft stocked).0 ≡ ok (new_snapshot (first_version 7) draft)
unfolding create_or_get_proposal store_proposal get put
created = refl

create_or_get_replay_example :
    let t = (create_or_get_proposal 7 draft stocked).1 in
    create_or_get_proposal 8 changed_draft t ≡ (err (conflict_error idempotency_conflict), t)
create_or_get_replay_example =
    create_or_get_replay 7 8 draft changed_draft stocked (new_snapshot (first_version 7) draft)
      created refl refl

rejects :
    (decide_once ports (receipt_with ProposalStatus.rejected) none 22 proposed).0
    ≡ ok (receipt_with ProposalStatus.rejected)
unfolding decide_once get put
rejects = refl

decide_once_final_example :
    let t = (decide_once ports (receipt_with ProposalStatus.rejected) none 22 proposed).1 in
    decide_once ports (receipt_with ProposalStatus.approved) none 23 t
    ≡ (err (approval_error proposal_already_decided), t)
decide_once_final_example =
    decide_once_final ports (receipt_with ProposalStatus.rejected)
      (receipt_with ProposalStatus.approved) none none 22 23 proposed
      (receipt_with ProposalStatus.rejected) rejects refl refl
