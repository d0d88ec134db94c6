-- ===== src/Operations/Execution/Cases.antt =====
-- The invariant of the investigation cases (src/commerce_agent/operations/_memory.py).
use commerce_analyst_agent.Prelude.{
  sym, ℕ, ◌+◌, ◌≡◌, ◌≢◌, refl, ap, String, true, none, some, inl, inr, arith, Option-cases,
  Bool-cases, nat_eq, string_eq, option_eq, Option, nat_beq, nat_beq_iff, ◌==◌,
}
use commerce_analyst_agent.Prelude.Dict.{Dict, get, put, get-put}
use commerce_analyst_agent.Prelude.Outcome.{Result, err, Result-cases}
use commerce_analyst_agent.Operations.Errors.{OperationError, key_error}
use commerce_analyst_agent.Operations.Contracts.{
  InvestigationStatus, InvestigationTaskRef, ProposalRef, RiskDisposition, Uuid, disposition_value,
  status_eq,
}
use commerce_analyst_agent.Operations.Commands.{
  AssignInvestigation, CloseInvestigation, OperationCommand, TransitionInvestigation,
  add_investigation_conclusion, allowed_transitions, assign_investigation, close_investigation,
  create_and_enable_metric_alert_rule, create_investigation_from_alert_hit,
  create_investigation_task, open_seller_risk_case, transition_investigation,
  validate_command_contract,
}
use commerce_analyst_agent.Operations.Ports.{Ports}
use commerce_analyst_agent.Operations.State.{
  InvestigationTaskState, OperationStore, RiskAnnotationState, StoreMethod,
}
use commerce_analyst_agent.Operations.Preview.{checked_task}
use commerce_analyst_agent.Operations.Execution.{
  VersionChange, add_conclusion, apply_command, assign, close, close_linked, closed_task,
  create_task, derived_id, dispose_risk, enable_rule, on_task, open_risk_case, save_task,
  transition,
}
use commerce_analyst_agent.Operations.Execution.Tasks.{checked_held}

-- A task that may stand under a key: its own identifier, with a conclusion if it is closed, and
-- with a risk that exists if it is linked to one.
pub record IsSoundTask (risks : Dict Uuid RiskAnnotationState) (id : Uuid)
    (task : InvestigationTaskState) : Type 0 where
  pub own_id : task.task_id ≡ id
  pub concluded : task.status ≡ InvestigationStatus.closed → task.conclusion_ref ≢ none
  pub linked : (r : Uuid) → task.linked_risk_id ≡ some r → get risks r ≢ none

abbrev pub IsSound : OperationStore → Type 0
IsSound s =
    (id : Uuid) (task : InvestigationTaskState)
    → get s.tasks id ≡ some task
    → IsSoundTask s.risks id task

put_task :
    (s : OperationStore) (k : Uuid) (task : InvestigationTaskState)
    → IsSound s
    → IsSoundTask s.risks k task
    → IsSound (record s { tasks = put s.tasks k task })
put_task s k task sound fits id found h = elim (Bool-cases (nat_beq k id)) [
  | inl same ↦
      let e : k ≡ id = (nat_beq_iff k id).0 same in
      let t : task ≡ found = ground (arith, get-put s.tasks k id task) in rw ((sym t), (sym e)) fits
  | inr differ ↦ sound id found (ground (arith, get-put s.tasks k id task))
]

put_risk :
    (s : OperationStore) (k : Uuid) (risk : RiskAnnotationState)
    → IsSound s
    → IsSound (record s { risks = put s.risks k risk })
put_risk s k risk sound id task h =
    let old = sound id task h in
    record {
      own_id = old.own_id;
      concluded = old.concluded;
      linked = λ r e. ground (arith, get-put s.risks k r risk, old.linked r e);
    }

never_to_closed :
    (a b : InvestigationStatus) → allowed_transitions a b ≡ true → b ≢ InvestigationStatus.closed
unfolding allowed_transitions
never_to_closed a b h e = ground arith

checked_no_key_error :
    (s : OperationStore) (task_ref : InvestigationTaskRef) (expected : ℕ)
    → checked_task s task_ref expected ≢ err key_error
unfolding checked_task
checked_no_key_error s task_ref expected h = ground arith

-- A step that keeps the cases sound and raises no `KeyError`.
abbrev pub Keeps : {A : Type 0} → Result OperationError A × OperationStore → Type 0
Keeps (r, t) = IsSound t × (r ≢ err key_error)

save-Keeps :
    (s : OperationStore) (task updated : InvestigationTaskState)
    → IsSound s
    → IsSoundTask s.risks task.task_id updated
    → Keeps (save_task task updated s)
unfolding save_task
save-Keeps s task updated sound fits = (put_task s task.task_id updated sound fits, λ h. cc)

module _ (s : OperationStore) (sound : IsSound s) (task : InvestigationTaskState)
    (held : get s.tasks task.task_id ≡ some task) where
  fits : IsSoundTask s.risks task.task_id task
  fits = sound task.task_id task held

  assign-Keeps : (c : AssignInvestigation) → Keeps (assign c task s)
  unfolding assign
  assign-Keeps c =
      save-Keeps s task _ sound
        (record { own_id = refl; concluded = fits.concluded; linked = fits.linked })

  transition-Keeps :
      (c : TransitionInvestigation)
      → allowed_transitions c.from_status c.to_status ≡ true
      → Keeps (transition c task s)
  unfolding transition
  transition-Keeps c valid = elim (Bool-cases (task.status == c.from_status)) [
    | inr differ ↦ rw differ (sound, λ h. cc)
    | inl same ↦ rw same (
        save-Keeps s task _ sound (record {
          own_id = refl;
          concluded = λ h. absurd (never_to_closed c.from_status c.to_status valid h);
          linked = fits.linked;
        }))
  ]

  add_conclusion-Keeps : (p : Ports) (ref : ProposalRef) → Keeps (add_conclusion p ref task s)
  unfolding add_conclusion
  add_conclusion-Keeps p ref = elim (Bool-cases (task.status == InvestigationStatus.resolved)) [
    | inr differ ↦ rw differ (sound, λ h. cc)
    | inl same ↦ rw same (
        save-Keeps s task _ sound
          (record { own_id = refl; concluded = λ h e. cc; linked = fits.linked }))
  ]

  -- A write to one risk leaves every link standing.
  linked_after :
      (k : Uuid) (risk : RiskAnnotationState) (r : Uuid)
      → task.linked_risk_id ≡ some r
      → get (put s.risks k risk) r ≢ none
  linked_after k risk r e = ground (arith, get-put s.risks k r risk, fits.linked r e)

  dispose-Keeps :
      (r : Uuid) (d : RiskDisposition)
      → task.linked_risk_id ≡ some r
      → task.conclusion_ref ≢ none
      → Keeps (dispose_risk r d task s)
  unfolding dispose_risk
  dispose-Keeps r d link there = elim (Option-cases (get s.risks r)) [
    | inl missing ↦ absurd (fits.linked r link missing)
    | inr (risk, e) ↦
        let disposed : RiskAnnotationState = record risk {
          status = disposition_value d;
          version = risk.version + 1;
        } in
        rw (e, dispose_risk)
          (save-Keeps (record s { risks = put s.risks r disposed }) task (closed_task task)
            (put_risk s r disposed sound)
            (record { own_id = refl; concluded = λ h. there; linked = linked_after r disposed }))
  ]

  close_linked-Keeps :
      (r : Option Uuid) (d : Option RiskDisposition)
      → task.linked_risk_id ≡ r
      → task.conclusion_ref ≢ none
      → Keeps (close_linked r d task s)
  close_linked-Keeps none d link there =
      save-Keeps s task (closed_task task) sound
        (record { own_id = refl; concluded = λ h. there; linked = fits.linked })
  close_linked-Keeps (some r) none link there = (sound, λ h. cc)
  close_linked-Keeps (some r) (some d) link there = dispose-Keeps r d link there

  close-Keeps : (c : CloseInvestigation) → Keeps (close c task s)
  unfolding close
  close-Keeps c = elim (Bool-cases (task.status == InvestigationStatus.resolved)) [
    | inr differ ↦ rw differ (sound, λ h. cc)
    | inl same ↦ rw same (elim (Bool-cases (task.conclusion_ref == some c.conclusion_ref)) [
      | inr missing ↦ rw missing (sound, λ h. cc)
      | inl there ↦ rw there (
          close_linked-Keeps task.linked_risk_id c.risk_disposition refl
            (λ gone. cc (ap (λ (o : Option String). o == some c.conclusion_ref) gone, there)))
    ])
  ]

on_task-Keeps :
    (s : OperationStore) (task_ref : InvestigationTaskRef) (expected : ℕ)
    (body : InvestigationTaskState → StoreMethod VersionChange)
    → IsSound s
    → ((task : InvestigationTaskState) → get s.tasks task.task_id ≡ some task → Keeps (body task s))
    → Keeps (on_task task_ref expected body s)
on_task-Keeps s task_ref expected body sound h =
    elim (Result-cases (checked_task s task_ref expected)) [
      | inl (task, e) ↦
          rw e (h task (checked_held s task_ref expected task (λ id t f. (sound id t f).own_id) e))
      | inr (e, f) ↦ rw f (sound, λ k. checked_no_key_error s task_ref expected (ground arith))
    ]

-- Any valid command keeps every case sound, and none raises `KeyError`: the risk that a close
-- disposes of is always there.
pub apply_command-Keeps :
    (p : Ports) (command : OperationCommand) (ref : ProposalRef) (s : OperationStore)
    → validate_command_contract command ≡ true
    → IsSound s
    → Keeps (apply_command p command ref s)
unfolding apply_command validate_command_contract create_task open_risk_case enable_rule
apply_command-Keeps p (create_investigation_task c) ref s valid sound = (
  put_task s (derived_id p "task" ref) _ sound
      (record { own_id = refl; concluded = λ h. cc; linked = λ r e. cc }),
  λ h. cc,
)
apply_command-Keeps p (create_investigation_from_alert_hit c) ref s valid sound = (
  put_task s (derived_id p "task" ref) _ sound
      (record { own_id = refl; concluded = λ h. cc; linked = λ r e. cc }),
  λ h. cc,
)
apply_command-Keeps p (open_seller_risk_case c) ref s valid sound =
    let risk_id = derived_id p "risk" ref in
    let risk : RiskAnnotationState = record {
      risk_id = risk_id;
      status = "under_investigation";
      version = 1;
    } in
    (
      put_task (record s { risks = put s.risks risk_id risk }) (derived_id p "task" ref) _
          (put_risk s risk_id risk sound)
          (record {
            own_id = refl;
            concluded = λ h. cc;
            linked = λ r e. ground (arith, get-put s.risks risk_id r risk);
          }),
      λ h. cc,
    )
apply_command-Keeps p (create_and_enable_metric_alert_rule c) ref s valid sound = (sound, λ h. cc)
apply_command-Keeps p (assign_investigation c) ref s valid sound =
    on_task-Keeps s c.task_ref c.expected_target_version (assign c) sound
      (λ task held. assign-Keeps s sound task held c)
apply_command-Keeps p (transition_investigation c) ref s valid sound =
    on_task-Keeps s c.task_ref c.expected_target_version (transition c) sound
      (λ task held. transition-Keeps s sound task held c (ground arith))
apply_command-Keeps p (add_investigation_conclusion c) ref s valid sound =
    on_task-Keeps s c.task_ref c.expected_target_version (add_conclusion p ref) sound
      (λ task held. add_conclusion-Keeps s sound task held p ref)
apply_command-Keeps p (close_investigation c) ref s valid sound =
    on_task-Keeps s c.task_ref c.expected_target_version (close c) sound
      (λ task held. close-Keeps s sound task held c)
