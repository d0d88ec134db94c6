-- ===== src/Orchestration/Day4/Runs.antt =====
-- `_run_day4` (src/commerce_agent/orchestration/retail_graph.py) with its fuel: the start of an
-- investigation, its resumption from the kept checkpoint, and the two loops.
use commerce_analyst_agent.Prelude.{
  ℕ, String, Bool, true, false, not, Option, none, some, [], nat_beq, if◌then◌else◌, ◌==◌,
  string_eq,
}
use commerce_analyst_agent.Prelude.Outcome.{Result, ok, err, ◌>>◌, raise_if, Method, ◌>>>=◌}
use commerce_analyst_agent.RunErrors.{
  RunError, checkpoint_incompatible, tool_contract_error, value_error,
}
use commerce_analyst_agent.Model.{Hashes, ToolCall}
use commerce_analyst_agent.Context.{PromptStep}
use commerce_analyst_agent.Orchestration.{
  InvestigationPlan, RetailRunOutcome, RetailRunRequest, clarification, needs_input, step_ids,
  validate_plan_shape,
}
use commerce_analyst_agent.Orchestration.Retail.{nodes_revision, schema_revision}
use commerce_analyst_agent.Orchestration.Day4.{
  Day4Graph, Day4Method, Day4State, SqlCandidate, SqlReasoningRequest, QueryResult, day4_outcome,
  new_state, prepare_plan_step,
}
use commerce_analyst_agent.Orchestration.Day4.Ends.{
  cache_and_finish, finish_day4, restore_outcome, save_state,
}
use commerce_analyst_agent.Orchestration.Day4.Queries.{
  Round, ended, go_on, index_steps, query_loop, stop_run,
}
use commerce_analyst_agent.Orchestration.Day4.Reports.{
  call_day4_model, one_tool_call, reconcile, report_loop,
}

abbrev pub planned : Day4State → InvestigationPlan → Hashes → Day4State
planned s plan hashes = record s {
  current_node = prepare_plan_step;
  model_call_count = 1;
  tool_call_count = 1;
  investigation_plan = some plan;
  pending_plan_step_ids = step_ids plan.steps;
  hashes = hashes;
}

-- `except (ValidationError, ValueError)`: the first is a case of the second
abbrev pub as_invalid : {A : Type 0} → Result RunError A → Result RunError A
as_invalid (err value_error) = err (tool_contract_error "invalid_tool_arguments")
as_invalid r = r

abbrev pub catching : {W A : Type 0} → Day4Method W A → Day4Method W A
catching m k = (as_invalid (m k).0, (m k).1)

abbrev pub has_ended : Day4State → Bool
has_ended s = elim s.terminal [
  | some terminal ↦ true
  | none ↦ elim s.stop_reason [ some stop ↦ true | none ↦ false ]
]

module _ {W : Type 0} (g : Day4Graph W) (request : RetailRunRequest) where
  -- The first model call's answer: a clarification ends the run, a plan starts it.
  abbrev pub clarify : Hashes → ToolCall → Day4Method W Round
  clarify hashes call = elim (g.clarification_of call.arguments_json) [
    | none ↦ λ k. (err value_error, k)
    | some terminal ↦
        cache_and_finish g request
          (day4_outcome request needs_input (some (clarification terminal)) none 1 1 hashes)
          (new_state request)
        >>>= λ outcome k. (ok (ended outcome), k)
  ]

  abbrev pub accept_plan : Hashes → ToolCall → Day4Method W Round
  accept_plan hashes call = elim (g.plan_of call.arguments_json) [
    | none ↦ λ k. (err value_error, k)
    | some plan ↦
        if validate_plan_shape plan
        then (λ k. (ok (go_on (planned (new_state request) plan hashes)), k))
        else (λ k. (err value_error, k))
  ]

  unfoldable pub decide : Hashes → Result RunError ToolCall → Day4Method W Round
  decide hashes (err e) = λ k. (err e, k)
  decide hashes (ok call) =
      if call.name == "request_clarification"
      then clarify hashes call
      else if call.name == "submit_investigation_plan"
      then accept_plan hashes call
      else (λ k. (err (tool_contract_error "investigation_plan_required"), k))

  -- The save of the plan's state, after the `try`.
  abbrev pub keep_plan : Round → Day4Method W Round
  keep_plan (ended outcome) = λ k. (ok (ended outcome), k)
  keep_plan (go_on s) = save_state g s >>>= λ done k. (ok (go_on s), k)

  -- The `else` branch of `if snapshot.values`.
  unfoldable pub begin : Day4Method W Round
  begin =
      catching (
        call_day4_model g request PromptStep.retail_decide request.evidence 0 >>>= (λ answer.
          decide answer.1 (one_tool_call g request PromptStep.retail_decide answer.0)))
      >>>= keep_plan

  -- `assert_checkpoint_compatible` and the comparison of the requests
  unfoldable pub check_kept : Day4State → Result RunError (Unit {0})
  check_kept s =
      raise_if (not (s.state_schema_revision == schema_revision))
        (checkpoint_incompatible "state_schema_mismatch")
      >> raise_if (not (s.node_revision == nodes_revision))
          (checkpoint_incompatible "node_revision_mismatch")
      >> raise_if (not (s.hashes.config_hash == request.run_scope.config_hash))
          (checkpoint_incompatible "config_hash_mismatch")
      >> raise_if
          (not (g.graph.scope_json s.request.run_scope == g.graph.scope_json request.run_scope))
          (checkpoint_incompatible "run_scope_mismatch")
      >> raise_if (not (nat_beq s.request.attempt_id request.attempt_id))
          (checkpoint_incompatible "attempt_id_mismatch")
      >> raise_if (not (g.graph.request_json s.request == g.graph.request_json request))
          (checkpoint_incompatible "request_mismatch")

  -- The `if snapshot.values` branch.
  unfoldable pub reopen : Day4State → Day4Method W Round
  reopen s = elim (check_kept s) [
    | err e ↦ λ k. (err e, k)
    | ok passed ↦
        if not (has_ended s)
        then (λ k. (ok (go_on s), k))
        else if s.cleanup_complete
        then (λ k. (ok (ended (restore_outcome request s)), k))
        else (finish_day4 g request (restore_outcome request s)
            >>>= (λ outcome k. (ok (ended outcome), k)))
  ]

  abbrev pub open_run : Option Day4State → Day4Method W Round
  open_run none = begin
  open_run (some s) = reopen s

  -- From the reconciliation on.
  abbrev pub conclude_run : ℕ → Option Round → Day4Method W (Option RetailRunOutcome)
  conclude_run fuel none = λ k. (ok none, k)
  conclude_run fuel (some (ended outcome)) = λ k. (ok (some outcome), k)
  conclude_run fuel (some (go_on s)) = reconcile g request s >>>= report_loop g request fuel

  abbrev pub investigate_with :
      ℕ
      → Option (SqlReasoningRequest → Method RunError W SqlCandidate)
      → Option (String → Method RunError W QueryResult)
      → Day4State
      → Day4Method W (Option RetailRunOutcome)
  investigate_with fuel (some generate) (some execute) s = elim s.investigation_plan [
    | none ↦ λ k. (err (checkpoint_incompatible "investigation_plan_missing"), k)
    | some plan ↦
        query_loop g request generate execute (index_steps plan.steps []) fuel s
        >>>= conclude_run fuel
  ]
  investigate_with fuel _ _ s =
      stop_run g request "product_query_capability_unavailable" s.model_call_count s.tool_call_count
        s
      >>>= λ outcome k. (ok (some outcome), k)

  abbrev pub investigate : ℕ → Round → Day4Method W (Option RetailRunOutcome)
  investigate fuel (ended outcome) = λ k. (ok (some outcome), k)
  investigate fuel (go_on s) = investigate_with fuel g.generate g.execute s

  -- `_run_day4`; `none` is the end of the fuel.
  unfoldable pub run_day4 : ℕ → Day4Method W (Option RetailRunOutcome)
  run_day4 fuel k = (open_run k.saved >>>= investigate fuel) k
