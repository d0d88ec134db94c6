-- ===== src/Operations/Preview.antt =====
-- src/commerce_agent/operations/_memory.py: `InMemoryOperationStore.preview_command`.
use commerce_analyst_agent.Prelude.{
  ℕ, String, not, none, some, [], ◌∷◌, nat_beq, if◌then◌else◌, string_eq, option_eq, nat_eq,
  pair_eq,
}
use commerce_analyst_agent.Prelude.Dict.{get}
use commerce_analyst_agent.Prelude.Outcome.{ok, err, ◌>>=◌}
use commerce_analyst_agent.Operations.Errors.{
  Call, conflict_error, contract_error, investigation_not_found, target_version_conflict,
}
use commerce_analyst_agent.Operations.Contracts.{
  CommandPreview, InvestigationTaskRef, Versions, proposal_ref_eq, status_eq,
}
use commerce_analyst_agent.Operations.Commands.{
  OperationCommand, add_investigation_conclusion, assign_investigation, close_investigation,
  command_type, create_and_enable_metric_alert_rule, create_investigation_from_alert_hit,
  create_investigation_task, open_seller_risk_case, transition_investigation,
}
use commerce_analyst_agent.Operations.State.{InvestigationTaskState, OperationStore}

-- `self._tasks.get(...)` with the two checks that every command on an existing task makes
unfoldable pub checked_task :
    OperationStore → InvestigationTaskRef → ℕ → Call InvestigationTaskState
checked_task s task_ref expected = elim (get s.tasks task_ref.task_id) [
  | none ↦ err (contract_error investigation_not_found)
  | some task ↦
      if not (nat_beq task.version expected)
      then err (conflict_error target_version_conflict)
      else ok task
]

abbrev pub preview_of : OperationCommand → String → String → Versions → ℕ → CommandPreview
preview_of command title summary versions affected = record {
  command_type = command_type command;
  title = title;
  public_summary = summary;
  target_versions = versions;
  affected_rows = affected;
}

abbrev pub preview_existing :
    OperationStore → OperationCommand → String → InvestigationTaskRef → ℕ → Call CommandPreview
preview_existing s command title task_ref expected = checked_task s task_ref expected >>= λ task.
    ok (
      preview_of command title "Update one investigation task at its exact version."
        (("investigation_task", task.version) ∷ []) 1)

unfoldable pub preview_command : OperationStore → OperationCommand → Call CommandPreview
unfolding checked_task
preview_command s (open_seller_risk_case c) = ok (
    preview_of (open_seller_risk_case c) c.title
      "Create a seller-risk annotation and linked investigation task."
      (("investigation_task", 0) ∷ ("risk_annotation", 0) ∷ []) 2)
preview_command s (create_investigation_task c) = ok (
    preview_of (create_investigation_task c) c.title "Create one investigation task."
      (("investigation_task", 0) ∷ []) 1)
preview_command s (create_investigation_from_alert_hit c) = ok (
    preview_of (create_investigation_from_alert_hit c) c.title "Create one investigation task."
      (("investigation_task", 0) ∷ []) 1)
preview_command s (create_and_enable_metric_alert_rule c) = ok (
    preview_of (create_and_enable_metric_alert_rule c) "Create And Enable Metric Alert Rule"
      "Create one enabled metric alert rule." (("metric_alert_rule", 0) ∷ []) 1)
preview_command s (assign_investigation c) =
    preview_existing s (assign_investigation c) "Assign Investigation" c.task_ref
      c.expected_target_version
preview_command s (transition_investigation c) =
    preview_existing s (transition_investigation c) "Transition Investigation" c.task_ref
      c.expected_target_version
preview_command s (add_investigation_conclusion c) =
    preview_existing s (add_investigation_conclusion c) "Add Investigation Conclusion" c.task_ref
      c.expected_target_version
preview_command s (close_investigation c) =
    preview_existing s (close_investigation c) "Close Investigation" c.task_ref
      c.expected_target_version
