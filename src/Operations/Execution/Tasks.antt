-- ===== src/Operations/Execution/Tasks.antt =====
-- What an execution does to the investigation tasks (src/commerce_agent/operations/_memory.py): the
-- moves of their status machine.
use commerce_analyst_agent.Prelude.{
  ℕ, suc, ◌+◌, ◌≡◌, ◌≢◌, ◌⊎◌, refl, ap, ◌∙◌, true, none, some, inl, inr, arith, Option-cases,
  Bool-cases, nat_eq, string_eq, option_eq, Option, nat_beq, ◌==◌, nat_beq_iff,
}
use commerce_analyst_agent.Prelude.Dict.{Dict, get, put, get-put, get-put_ne}
use commerce_analyst_agent.Prelude.Outcome.{ok, Result-cases}
use commerce_analyst_agent.Operations.Contracts.{
  InvestigationStatus, InvestigationTaskRef, ProposalRef, RiskDisposition, Uuid, proposal_ref_eq,
  status_eq, status_beq_iff, disposition_value,
}
use commerce_analyst_agent.Operations.Commands.{
  AssignInvestigation, CloseInvestigation, OperationCommand, TransitionInvestigation,
  add_investigation_conclusion, allowed_transitions, assign_investigation, close_investigation,
  create_and_enable_metric_alert_rule, create_investigation_from_alert_hit,
  create_investigation_task, open_seller_risk_case, transition_investigation,
  validate_command_contract,
}
use commerce_analyst_agent.Operations.Ports.{Ports}
use commerce_analyst_agent.Operations.State.{
  InvestigationTaskState, OperationStore, StoreMethod, RiskAnnotationState,
}
use commerce_analyst_agent.Operations.Preview.{checked_task}
use commerce_analyst_agent.Operations.Execution.{
  VersionChange, add_conclusion, apply_command, closed_task, assign, close, close_linked,
  create_task, derived_id, dispose_risk, enable_rule, on_task, open_risk_case, save_task,
  transition,
}

-- The moves of the status machine: to stay, an allowed transition, or the close of a resolved case.
pub data LegalMove : InvestigationStatus → InvestigationStatus → Type 0 where
  stay : (a : InvestigationStatus) → LegalMove a a
  allowed : (a b : InvestigationStatus) → allowed_transitions a b ≡ true → LegalMove a b
  close_resolved :
      (a b : InvestigationStatus)
      → a ≡ InvestigationStatus.resolved
      → b ≡ InvestigationStatus.closed
      → LegalMove a b

-- One legal advance of a task: it keeps its identity, its priority, its summary and its risk, and
-- moves one version on.
pub record Advance (old new : InvestigationTaskState) : Type 0 where
  pub same_id : new.task_id ≡ old.task_id
  pub same_priority : new.priority ≡ old.priority
  pub same_summary : new.public_summary ≡ old.public_summary
  pub same_risk : new.linked_risk_id ≡ old.linked_risk_id
  pub next : new.version ≡ suc old.version
  pub legal : LegalMove old.status new.status

-- Every task stands under its own identifier.
abbrev pub Keyed : OperationStore → Type 0
Keyed s =
    (id : Uuid) (task : InvestigationTaskState) → get s.tasks id ≡ some task → task.task_id ≡ id

pub checked_held :
    (s : OperationStore) (task_ref : InvestigationTaskRef) (expected : ℕ)
    (task : InvestigationTaskState)
    → Keyed s
    → checked_task s task_ref expected ≡ ok task
    → get s.tasks task.task_id ≡ some task
unfolding checked_task
checked_held s task_ref expected task keyed h = elim (Option-cases (get s.tasks task_ref.task_id)) [
  | inl e ↦ ground arith
  | inr (found, e) ↦
      let there : get s.tasks task_ref.task_id ≡ some task = ground arith in
      ap (get s.tasks) (keyed task_ref.task_id task there) ∙ there
]

closing :
    (task : InvestigationTaskState)
    → task.status ≡ InvestigationStatus.resolved
    → Advance task (closed_task task)
closing task resolved = record {
  same_id = refl;
  same_priority = refl;
  same_summary = refl;
  same_risk = refl;
  next = omega arith;
  legal = close_resolved task.status InvestigationStatus.closed resolved refl;
}

-- What an execution may leave at a task's key.
abbrev pub Moved : OperationStore → OperationStore → Uuid → InvestigationTaskState → Type 0
Moved s t id old =
    (get t.tasks id ≡ get s.tasks id)
    ⊎ ((new : InvestigationTaskState) × (get t.tasks id ≡ some new) × Advance old new)

save_moves :
    (id : Uuid) (old task updated : InvestigationTaskState) (risks : Dict Uuid RiskAnnotationState)
    (s : OperationStore)
    → get s.tasks id ≡ some old
    → get s.tasks task.task_id ≡ some task
    → Advance task updated
    → Moved s (save_task task updated (record s { risks = risks })).1 id old
unfolding save_task
save_moves id old task updated risks s found held step =
    elim (Bool-cases (nat_beq task.task_id id)) [
      | inl same ↦
          let e : task.task_id ≡ id = (nat_beq_iff task.task_id id).0 same in
          let o : old ≡ task = ground (arith, ap (get s.tasks) e) in
          inr (updated, ground (arith, get-put s.tasks task.task_id id updated), rw o step)
      | inr differ ↦ inl (ground (arith, get-put s.tasks task.task_id id updated))
    ]

assigned :
    (c : AssignInvestigation) (task : InvestigationTaskState)
    → Advance task (record task { assignee_ref = some c.assignee_ref; version = task.version + 1 })
assigned c task = record {
  same_id = refl;
  same_priority = refl;
  same_summary = refl;
  same_risk = refl;
  next = omega arith;
  legal = stay task.status;
}

module _ (id : Uuid) (old : InvestigationTaskState) (s : OperationStore)
    (found : get s.tasks id ≡ some old) where
  -- The body of a command moves no task illegally, whichever checked task it is run on.
  abbrev Moves : (InvestigationTaskState → StoreMethod VersionChange) → Type 0
  Moves body =
      (task : InvestigationTaskState)
      → get s.tasks task.task_id ≡ some task
      → Moved s (body task s).1 id old

  assign-Moves : (c : AssignInvestigation) → Moves (assign c)
  unfolding assign
  assign-Moves c task held = save_moves id old task _ s.risks s found held (assigned c task)

  transition-Moves :
      (c : TransitionInvestigation)
      → allowed_transitions c.from_status c.to_status ≡ true
      → Moves (transition c)
  unfolding transition
  transition-Moves c ok_move task held = elim (Bool-cases (task.status == c.from_status)) [
    | inl same ↦ rw same (
        save_moves id old task _ s.risks s found held (record {
          same_id = refl;
          same_priority = refl;
          same_summary = refl;
          same_risk = refl;
          next = omega arith;
          legal =
              allowed task.status c.to_status
                (rw ((status_beq_iff task.status c.from_status).0 same) ok_move);
        }))
    | inr differ ↦ rw differ (inl refl)
  ]

  add_conclusion-Moves : (p : Ports) (ref : ProposalRef) → Moves (add_conclusion p ref)
  unfolding add_conclusion
  add_conclusion-Moves p ref task held =
      elim (Bool-cases (task.status == InvestigationStatus.resolved)) [
        | inl same ↦ rw same (
            save_moves id old task _ s.risks s found held (record {
              same_id = refl;
              same_priority = refl;
              same_summary = refl;
              same_risk = refl;
              next = omega arith;
              legal = stay task.status;
            }))
        | inr differ ↦ rw differ (inl refl)
      ]

  dispose_risk-Moves :
      (r : Uuid) (d : RiskDisposition) (task : InvestigationTaskState)
      → task.status ≡ InvestigationStatus.resolved
      → get s.tasks task.task_id ≡ some task
      → Moved s (dispose_risk r d task s).1 id old
  unfolding dispose_risk
  dispose_risk-Moves r d task resolved held = elim (Option-cases (get s.risks r)) [
    | inl e ↦ inl (ground arith)
    | inr (risk, e) ↦
        rw (e, dispose_risk)
          (save_moves id old task (closed_task task)
            (put s.risks r
              (record risk { status = disposition_value d; version = risk.version + 1 }))
            s found held (closing task resolved))
  ]

  close_linked-Moves :
      (r : Option Uuid) (d : Option RiskDisposition) (task : InvestigationTaskState)
      → task.status ≡ InvestigationStatus.resolved
      → get s.tasks task.task_id ≡ some task
      → Moved s (close_linked r d task s).1 id old
  close_linked-Moves none d task resolved held =
      save_moves id old task (closed_task task) s.risks s found held (closing task resolved)
  close_linked-Moves (some r) none task resolved held = inl refl
  close_linked-Moves (some r) (some d) task resolved held =
      dispose_risk-Moves r d task resolved held

  close-Moves : (c : CloseInvestigation) → Moves (close c)
  unfolding close
  close-Moves c task held = elim (Bool-cases (task.status == InvestigationStatus.resolved)) [
    | inr differ ↦ rw differ (inl refl)
    | inl same ↦ rw same (elim (Bool-cases (task.conclusion_ref == some c.conclusion_ref)) [
      | inr missing ↦ rw missing (inl refl)
      | inl there ↦ rw there (
          close_linked-Moves task.linked_risk_id c.risk_disposition task
            ((status_beq_iff task.status InvestigationStatus.resolved).0 same) held)
    ])
  ]

  on_task-Moves :
      (task_ref : InvestigationTaskRef) (expected : ℕ)
      (body : InvestigationTaskState → StoreMethod VersionChange)
      → Keyed s
      → Moves body
      → Moved s (on_task task_ref expected body s).1 id old
  on_task-Moves task_ref expected body keyed h =
      elim (Result-cases (checked_task s task_ref expected)) [
        | inl (task, e) ↦ rw e (h task (checked_held s task_ref expected task keyed e))
        | inr (e, f) ↦ rw f (inl refl)
      ]

-- Whatever command runs, a task that was there is left as it is or makes one legal advance, where
-- the command is valid, every task stands under its own identifier, and a task that the command
-- creates takes another identifier.
pub apply_command_moves :
    (p : Ports) (command : OperationCommand) (ref : ProposalRef) (s : OperationStore) (id : Uuid)
    (old : InvestigationTaskState)
    → validate_command_contract command ≡ true
    → Keyed s
    → derived_id p "task" ref ≢ id
    → get s.tasks id ≡ some old
    → Moved s (apply_command p command ref s).1 id old
unfolding apply_command validate_command_contract create_task open_risk_case enable_rule
apply_command_moves p (create_investigation_task c) ref s id old valid keyed fresh found =
    inl (get-put_ne s.tasks (derived_id p "task" ref) id _ fresh)
apply_command_moves p (create_investigation_from_alert_hit c) ref s id old valid keyed fresh found =
    inl (get-put_ne s.tasks (derived_id p "task" ref) id _ fresh)
apply_command_moves p (open_seller_risk_case c) ref s id old valid keyed fresh found =
    inl (get-put_ne s.tasks (derived_id p "task" ref) id _ fresh)
apply_command_moves p (create_and_enable_metric_alert_rule c) ref s id old valid keyed fresh found =
    inl refl
apply_command_moves p (assign_investigation c) ref s id old valid keyed fresh found =
    on_task-Moves id old s found c.task_ref c.expected_target_version (assign c) keyed
      (assign-Moves id old s found c)
apply_command_moves p (transition_investigation c) ref s id old valid keyed fresh found =
    on_task-Moves id old s found c.task_ref c.expected_target_version (transition c) keyed
      (transition-Moves id old s found c (ground arith))
apply_command_moves p (add_investigation_conclusion c) ref s id old valid keyed fresh found =
    on_task-Moves id old s found c.task_ref c.expected_target_version (add_conclusion p ref) keyed
      (add_conclusion-Moves id old s found p ref)
apply_command_moves p (close_investigation c) ref s id old valid keyed fresh found =
    on_task-Moves id old s found c.task_ref c.expected_target_version (close c) keyed
      (close-Moves id old s found c)
