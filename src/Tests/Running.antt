-- ===== src/Tests/Running.antt =====
-- The theorems on retail runs, applied.
use commerce_analyst_agent.Prelude.{
  ◌≡◌, ◌≤◌, ◌⊎◌, zero, suc, refl, true, none, some, [], ◌∷◌, arith, nat_eq,
}
use commerce_analyst_agent.Prelude.Outcome.{Result, ok, err}
use commerce_analyst_agent.Turns.{TurnStore, delete_attempt}
use commerce_analyst_agent.Prelude.Dict.{remove}
use commerce_analyst_agent.RunErrors.{RunError, other_error}
use commerce_analyst_agent.Model.{
  FinishReason, ModelOutput, ModelRequest, ModelResponse, ToolResult, final, validate_error_class,
  is_closed, validate_closed_exchange, names_match, validate_expected_calls, same_hashes,
}
use commerce_analyst_agent.Context.Checks.{
  validate_request, has_expected_scope, check_datum, check_history, check_group, is_valid_group,
  sorted_set, insert_new, rule_of,
}
use commerce_analyst_agent.Context.Trimming.{
  removed_evidence, retained_evidence, weigh, compress_groups, compress_results, drop_groups,
  estimate, messages, model_request, same_identity, summarize_result,
}
use commerce_analyst_agent.Context.Builder.{build, build_with, trim, finish, seal}
use commerce_analyst_agent.Orchestration.{RetailRunRequest, validate_terminal_value}
use commerce_analyst_agent.Orchestration.Retail.{
  is_mismatched, RetailGraph, RetailState, initial_state,
}
use commerce_analyst_agent.Orchestration.Retail.Nodes.{
  run_call_model, run_close_exchange, run_execute_tools, run_finalize, run_prepare_context,
  run_route_output, run_validate_tools, check_batch, dispatch_all, receive, record_results,
  stop_by_finish, outcome,
}
use commerce_analyst_agent.Orchestration.Retail.Graph.{
  Invoked, Snapshot, check_snapshot, done, raised, run, ainvoke, next_node, run_node,
}
use commerce_analyst_agent.Orchestration.Retail.Retries.{after_raise, nothing}
use commerce_analyst_agent.Orchestration.Retail.Cleanup.{
  IsClean, KeepsTurns, retried_run-IsClean, retried_run-ends,
}
use commerce_analyst_agent.Orchestration.Retail.Resuming.{Left-check_snapshot}
use commerce_analyst_agent.Tests.Assembling.{scope, datum, profile, builder, turn_ref, call, result}

-- The model asks for a tool first and answers in prose then; the tool works or raises.
abbrev answer : ModelRequest → Result RunError ModelResponse
answer request = elim request.sequence [
  | zero ↦ ok (record {
    output = ModelOutput.tool_calls (call ∷ []);
    provider_turn_ref = turn_ref 0 ("call" ∷ []);
    finish_reason = FinishReason.tool_calls;
    actual_model = "m";
  })
  | suc n ↦ ok (record {
    output = final "prose";
    provider_turn_ref = turn_ref (suc n) [];
    finish_reason = FinishReason.stop;
    actual_model = "m";
  })
]

abbrev graph : Result RunError ToolResult → RetailGraph TurnStore
graph tool = record {
  build = build builder;
  profile = profile;
  gateway_complete = λ request w. (answer request, w);
  dispatcher = some (λ run_scope attempt_id asked w. (tool, w));
  delete_attempt = λ attempt w. (ok tt, delete_attempt attempt w);
  loop_policy = record {
    max_model_calls = 2;
    max_tool_calls = 12;
    max_replans = 2;
    max_repairs = 3;
    max_clarifications = 2;
  };
  scope_digest = λ value. "scope";
  evidence_digest = λ rows. "rows";
  request_json = λ value. "{}";
  scope_json = λ value. "{}";
}

abbrev pub working : RetailGraph TurnStore
working = graph (ok result)

abbrev failing : RetailGraph TurnStore
failing = graph (err (other_error "tool"))

abbrev pub asked : RetailRunRequest
asked = record {
  run_scope = scope;
  attempt_id = 7;
  current_input = datum "input";
  confirmed_facts = [];
  evidence = [];
  latest_error = none;
}

abbrev keeps : (tool : Result RunError ToolResult) → KeepsTurns (graph tool)
keeps tool = record { turns = λ w. w; deletes = λ attempt w h. refl }

abbrev pub held : TurnStore
held =
    (
      3,
      record {
        scope_digest = "scope";
        attempt_id = 7;
        sequence = 0;
        provider = "p";
        model = "m";
        content = none;
        reasoning_content = none;
        tool_calls_json = "[]";
        payload_sha256 = "payload";
        expected_tool_call_ids = [];
        token_weight = 1;
        created_at = 0;
        last_used_at = 0;
        absolute_expires_at = 100;
      },
    )
    ∷ []

abbrev final_state : Invoked TurnStore → RetailState
final_state (done s w) = s
final_state _ = initial_state asked

abbrev kept_snapshot : Invoked TurnStore → Snapshot
kept_snapshot (raised e snapshot w) = snapshot
kept_snapshot _ = record { values = initial_state asked; next = none }

retried_run-ends_example :
    ((e : RunError) × (after : Snapshot) × (v : TurnStore) × (run working 21 asked none held
        ≡ raised e after v))
    ⊎ ((s : RetailState) × (v : TurnStore) × (run working 21 asked none held ≡ done s v)
        × (s.cleanup_complete ≡ true)
        × ((outcome s).attempt_id ≡ 7)
        × ((outcome s).model_calls ≤ 2)
        × ((outcome s).tool_calls ≤ 12)
        × (validate_terminal_value (outcome s) ≡ true))
retried_run-ends_example = retried_run-ends working asked 21 held nothing (omega arith)

working-done :
    run working 21 asked none held ≡ done (final_state (run working 21 asked none held)) []
unfolding run ainvoke run_node next_node initial_state run_call_model run_close_exchange
    run_execute_tools run_finalize run_prepare_context run_route_output run_validate_tools
    check_batch dispatch_all is_mismatched receive record_results stop_by_finish build build_with
    trim finish seal validate_request has_expected_scope check_datum check_history check_group
    is_valid_group sorted_set insert_new rule_of validate_error_class is_closed
    validate_closed_exchange names_match weigh compress_groups compress_results drop_groups estimate
    messages model_request same_identity summarize_result removed_evidence retained_evidence
    validate_expected_calls same_hashes delete_attempt remove
working-done = refl

retried_run-IsClean_example : IsClean working (keeps (ok result)) asked []
retried_run-IsClean_example =
    retried_run-IsClean working (keeps (ok result)) asked 21 held []
      (final_state (run working 21 asked none held)) nothing tt (omega arith) working-done

abbrev left_open : Snapshot
left_open = kept_snapshot (run failing 21 asked none held)

failing-raised : run failing 21 asked none held ≡ raised (other_error "tool") left_open held
unfolding run ainvoke run_node next_node initial_state run_call_model run_close_exchange
    run_execute_tools run_finalize run_prepare_context run_route_output run_validate_tools
    check_batch dispatch_all is_mismatched receive record_results stop_by_finish build build_with
    trim finish seal validate_request has_expected_scope check_datum check_history check_group
    is_valid_group sorted_set insert_new rule_of validate_error_class is_closed
    validate_closed_exchange names_match weigh compress_groups compress_results drop_groups estimate
    messages model_request same_identity summarize_result removed_evidence retained_evidence
    validate_expected_calls same_hashes delete_attempt
failing-raised = refl

Left-check_snapshot_example : check_snapshot failing asked left_open.values ≡ ok tt
Left-check_snapshot_example =
    Left-check_snapshot failing builder asked (λ r. refl) left_open
      (after_raise 21 held held (other_error "tool") nothing (omega arith) failing-raised)
