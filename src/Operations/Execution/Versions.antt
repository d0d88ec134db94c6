-- ===== src/Operations/Execution/Versions.antt =====
-- The optimistic versions of a command's targets (src/commerce_agent/operations/_memory.py): what the
-- preview promises and what the execution replaces.
use commerce_analyst_agent.Prelude.{List, [], ◌∷◌, suc, ◌≡◌, arith, nat_eq, string_eq, option_eq}
use commerce_analyst_agent.Prelude.Outcome.{ok}
use commerce_analyst_agent.Operations.Contracts.{
  ProposalRef, CommandPreview, proposal_ref_eq, status_eq,
}
use commerce_analyst_agent.Operations.Commands.{
  OperationCommand, add_investigation_conclusion, assign_investigation, close_investigation,
  create_and_enable_metric_alert_rule, create_investigation_from_alert_hit,
  create_investigation_task, open_seller_risk_case, transition_investigation,
}
use commerce_analyst_agent.Operations.Ports.{Ports}
use commerce_analyst_agent.Operations.State.{OperationStore}
use commerce_analyst_agent.Operations.Preview.{checked_task, preview_command}
use commerce_analyst_agent.Operations.Execution.{
  VersionChange, add_conclusion, apply_command, assign, close, create_task, dispose_risk,
  enable_rule, open_risk_case, save_task, transition,
}

-- Every entry has the property.
abbrev All : {A : Type 0} → (A → Type 0) → List A → Type 0
All P [] = Unit
All P (x ∷ xs) = P x × All P xs

-- The versions that the preview promised are the ones that the execution replaces: run on the store
-- that it was previewed on, a command returns the version that the preview has for each of its
-- targets, and that version's successor, or raises.
pub preview_then_apply :
    (p : Ports) (command : OperationCommand) (ref : ProposalRef) (s : OperationStore)
    (preview : CommandPreview) (change : VersionChange)
    → preview_command s command ≡ ok preview
    → (apply_command p command ref s).0 ≡ ok change
    → (All (λ e. e.1 ≡ change.0) preview.target_versions) × (change.1 ≡ suc change.0)
unfolding preview_command apply_command create_task open_risk_case enable_rule assign transition
    add_conclusion close dispose_risk save_task checked_task
preview_then_apply p (create_investigation_task c) ref s preview change h k = ground arith
preview_then_apply p (create_investigation_from_alert_hit c) ref s preview change h k = ground arith
preview_then_apply p (open_seller_risk_case c) ref s preview change h k = ground arith
preview_then_apply p (create_and_enable_metric_alert_rule c) ref s preview change h k = ground arith
preview_then_apply p (assign_investigation c) ref s preview change h k = ground arith
preview_then_apply p (transition_investigation c) ref s preview change h k = ground arith
preview_then_apply p (add_investigation_conclusion c) ref s preview change h k = ground arith
preview_then_apply p (close_investigation c) ref s preview change h k = ground arith
