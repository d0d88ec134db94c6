-- ===== src/Orchestration/Retail/Nodes.antt =====
-- src/commerce_agent/orchestration/retail_graph.py: the functions that are the nodes of the retail
-- graph, and the outcome of a final state.
use commerce_analyst_agent.Prelude.{
  ◌+◌, String, Bool, true, false, not, ◌&&◌, ◌||◌, Option, none, some, List, [], ◌∷◌, ◌++◌, any,
  contains, length, leb, ltb, nat_beq, if◌then◌else◌, ◌==◌, string_eq, option_eq,
}
use commerce_analyst_agent.Prelude.Outcome.{Result, ok, err, ◌>>=◌, Method, bind_pure}
use commerce_analyst_agent.Turns.{AttemptRef, ProviderTurnRef}
use commerce_analyst_agent.RunErrors.{
  RunError, checkpoint_infrastructure_error, missing_key, model_gateway_error, tool_contract_error,
  value_error,
}
use commerce_analyst_agent.Model.{
  FinishReason, ModelOutput, ModelRequest, ModelResponse, PendingToolBatch, ToolCall,
  ToolExchangeGroup, ToolResult, call_ids, final, same_hashes, tool_exchange,
  validate_closed_exchange, validate_expected_calls,
}
use commerce_analyst_agent.Context.{ContextRequest, PromptBundle, PromptStep}
use commerce_analyst_agent.Orchestration.{
  RetailRunOutcome, RetailRunRequest, StopKind, StopOutcome, stopped,
}
use commerce_analyst_agent.Orchestration.Retail.{
  RetailState, RetailGraph, nodes_revision, stop_outcome, retail_tool_names, rows, is_mismatched,
  prepare_context, call_model, route_output, validate_tools, execute_tools, close_exchange,
  finalize, at, complete,
}

-- A node returns the state with its updates merged.
abbrev pub NodeMethod : Type 0 → Type 0
NodeMethod W = RetailState → Method RunError W RetailState

abbrev pub prepared : RetailState → PromptBundle → RetailState
prepared s bundle = record s {
  current_node = at call_model;
  model_request = some bundle.model_request;
  hashes = bundle.hashes;
}

abbrev pub counted : RetailState → RetailState
counted s = record s { current_node = at route_output; model_call_count = s.model_call_count + 1 }

abbrev pub new_batch : RetailState → ProviderTurnRef → List ToolCall → PendingToolBatch
new_batch s ref calls = record {
  provider_turn_ref = ref;
  tool_calls = calls;
  expected_tool_call_ids = call_ids calls;
  graph_node_revision = nodes_revision;
  budget_model_calls = s.model_call_count + 1;
  budget_tool_calls = s.tool_call_count;
  hashes = s.hashes;
}

abbrev pub stopped_with : StopOutcome → RetailState → RetailState
stopped_with stop s = record s { stop_reason = some stop }

-- `stop_by_finish`; the remaining reason is not one of its keys.
unfoldable pub stop_by_finish : FinishReason → Option StopOutcome
stop_by_finish FinishReason.length =
    some (stop_outcome StopKind.insufficient_data "model_output_incomplete" none false)
stop_by_finish FinishReason.content_filter =
    some (stop_outcome StopKind.unsafe "model_output_filtered" none false)
stop_by_finish FinishReason.insufficient_system_resource =
    some (stop_outcome StopKind.infrastructure_error "insufficient_system_resource" none true)
stop_by_finish _ = none

abbrev pub finished : RetailState → String → FinishReason → Result RunError RetailState
finished s content FinishReason.stop = ok (record (counted s) { final_output = some content })
finished s content reason = elim (stop_by_finish reason) [
  | none ↦ err missing_key
  | some stop ↦ ok (stopped_with stop (counted s))
]

abbrev pub is_some : {A : Type 0} → Option A → Bool
is_some none = false
is_some (some a) = true

abbrev pub cons_result :
    ToolResult → Result RunError (List ToolResult) → Result RunError (List ToolResult)
cons_result result (ok results) = ok (result ∷ results)
cons_result result (err e) = err e

abbrev pub exchange : PendingToolBatch → List ToolResult → ToolExchangeGroup
exchange pending results = record {
  provider_turn_ref = pending.provider_turn_ref;
  tool_calls = pending.tool_calls;
  tool_results = results;
}

abbrev pub cleaned : RetailState → Result RunError (Unit {0}) → Result RunError RetailState
cleaned s (ok done) = ok (record s { cleanup_complete = true; current_node = complete })
cleaned s (err e) = err (checkpoint_infrastructure_error "private_turn_cleanup_failed")

module _ {W : Type 0} (g : RetailGraph W) where
  abbrev pub context_request : RetailState → ContextRequest
  context_request s = record {
    run_scope = s.request.run_scope;
    attempt_id = s.request.attempt_id;
    sequence = s.model_call_count;
    profile = g.profile;
    step = PromptStep.retail_decide;
    current_input = s.request.current_input;
    confirmed_facts = s.request.confirmed_facts;
    evidence = s.request.evidence;
    latest_error = s.request.latest_error;
    history = s.history;
  }

  -- `_prepare_context`
  unfoldable pub run_prepare_context : NodeMethod W
  run_prepare_context s =
      bind_pure (g.build (context_request s)) (λ bundle w. (ok (prepared s bundle), w))

  abbrev pub is_bound_to : ModelRequest → ProviderTurnRef → Bool
  is_bound_to request ref =
      (ref.scope_digest == g.scope_digest request.run_scope)
      && nat_beq ref.attempt_id request.attempt_id
      && nat_beq ref.sequence request.sequence

  -- The part of `_call_model` after the gateway has returned.
  unfoldable pub receive : RetailState → ModelRequest → ModelResponse → Result RunError RetailState
  receive s request response =
      if not (is_bound_to request response.provider_turn_ref)
      then err (tool_contract_error "model_response_binding_mismatch")
      else elim response.output [
        | ModelOutput.tool_calls calls ↦
            let batch = new_batch s response.provider_turn_ref calls in
            if validate_expected_calls batch
            then ok (record (counted s) { pending_tool_batch = some batch })
            else err value_error
        | final content ↦ finished s content response.finish_reason
      ]

  -- `except ModelGatewayError`
  abbrev pub answered :
      RetailState → ModelRequest → Result RunError ModelResponse → Result RunError RetailState
  answered s request (ok response) = receive s request response
  answered s request (err (model_gateway_error reason_code retryable)) = ok (
      stopped_with (stop_outcome StopKind.infrastructure_error reason_code none retryable)
        (counted s))
  answered s request (err e) = err e

  -- `_call_model`
  unfoldable pub run_call_model : NodeMethod W
  run_call_model s w =
      if leb g.loop_policy.max_model_calls s.model_call_count
      then (
        ok (
            stopped_with (stop_outcome StopKind.budget_exhausted "model_call_limit" none false)
              (record s { current_node = at route_output })),
        w,
      )
      else elim s.model_request [
        | none ↦ (err (checkpoint_infrastructure_error "model_request_missing"), w)
        | some request ↦
            (answered s request (g.gateway_complete request w).0, (g.gateway_complete request w).1)
      ]

  -- `_route_output`
  unfoldable pub run_route_output : NodeMethod W
  run_route_output s w =
      if is_some s.pending_tool_batch
      then (ok (record s { current_node = at validate_tools }), w)
      else if is_some s.final_output || is_some s.stop_reason
      then (ok (record s { current_node = at finalize }), w)
      else (err (tool_contract_error "model_output_missing"), w)

  -- `_validate_tools` of a batch
  unfoldable pub check_batch : RetailState → PendingToolBatch → Result RunError RetailState
  check_batch s pending =
      if not (pending.graph_node_revision == nodes_revision)
      then err (tool_contract_error "pending_node_revision_mismatch")
      else if not (same_hashes pending.hashes s.hashes)
      then err (tool_contract_error "pending_hash_mismatch")
      else if any (λ call. not (contains call.name retail_tool_names)) pending.tool_calls
      then err (tool_contract_error "tool_not_registered")
      else if ltb g.loop_policy.max_tool_calls (s.tool_call_count + length pending.tool_calls)
      then ok (
          stopped_with (stop_outcome StopKind.budget_exhausted "tool_call_limit" none false)
            (record s { current_node = at finalize }))
      else ok (record s { current_node = at execute_tools })

  -- `_validate_tools`
  unfoldable pub run_validate_tools : NodeMethod W
  run_validate_tools s w =
      if not (is_some g.dispatcher)
      then (err (tool_contract_error "retail_dispatcher_missing"), w)
      else elim s.pending_tool_batch [
        | none ↦ (err (tool_contract_error "pending_tool_batch_missing"), w)
        | some pending ↦ (check_batch s pending, w)
      ]

  -- The loop `for call in pending.tool_calls`.
  unfoldable pub dispatch_all :
      (ToolCall → Method RunError W ToolResult)
      → List ToolCall
      → Method RunError W (List ToolResult)
  dispatch_all execute [] w = (ok [], w)
  dispatch_all execute (call ∷ calls) w =
      let rest = dispatch_all execute calls (execute call w).1 in
      elim (execute call w).0 [
        | err e ↦ (err e, (execute call w).1)
        | ok result ↦ (cons_result result rest.0, rest.1)
      ]

  -- The part of `_execute_tools` after the loop.
  unfoldable pub record_results :
      RetailState → PendingToolBatch → List ToolResult → Result RunError RetailState
  record_results s pending results =
      let digest = g.evidence_digest (rows pending.tool_calls results) in
      let executed : RetailState = record s {
        current_node = at close_exchange;
        tool_call_count = s.tool_call_count + length results;
        tool_results = results;
        last_evidence_digest = some digest;
      } in
      if is_mismatched pending.tool_calls results
      then err (tool_contract_error "tool_result_mismatch")
      else if some digest == s.last_evidence_digest
      then ok (
          stopped_with (stop_outcome StopKind.no_progress "repeated_evidence" (some digest) false)
            (record executed { current_node = at finalize }))
      else ok executed

  -- `_execute_tools`
  unfoldable pub run_execute_tools : NodeMethod W
  run_execute_tools s w = elim g.dispatcher [
    | none ↦ (err (tool_contract_error "retail_dispatcher_missing"), w)
    | some execute ↦ elim s.pending_tool_batch [
      | none ↦ (err (tool_contract_error "pending_tool_batch_missing"), w)
      | some pending ↦
          let executed =
            dispatch_all (execute s.request.run_scope s.request.attempt_id) pending.tool_calls w in
          (executed.0 >>= record_results s pending, executed.1)
    ]
  ]

  -- `_close_exchange`
  unfoldable pub run_close_exchange : NodeMethod W
  run_close_exchange s w = elim s.pending_tool_batch [
    | none ↦ (err (tool_contract_error "pending_tool_batch_missing"), w)
    | some pending ↦
        if validate_closed_exchange (exchange pending s.tool_results)
        then (
          ok (record s {
            current_node = at prepare_context;
            history = s.history ++ (tool_exchange (exchange pending s.tool_results) ∷ []);
            pending_tool_batch = none;
            tool_results = [];
            model_request = none;
          }),
          w,
        )
        else (err value_error, w)
  ]

  abbrev pub attempt_of : RetailRunRequest → AttemptRef
  attempt_of request = record {
    scope_digest = g.scope_digest request.run_scope;
    attempt_id = request.attempt_id;
  }

  -- `_finalize`
  unfoldable pub run_finalize : NodeMethod W
  run_finalize s w = (
    cleaned s (g.delete_attempt (attempt_of s.request) w).0,
    (g.delete_attempt (attempt_of s.request) w).1,
  )

-- `_outcome`
unfoldable pub outcome : RetailState → RetailRunOutcome
outcome s = record {
  status = stopped;
  terminal = none;
  stop = elim s.final_output [
    | none ↦ s.stop_reason
    | some content ↦ some (stop_outcome StopKind.unsafe "typed_retail_terminal_required" none false)
  ];
  model_calls = s.model_call_count;
  tool_calls = s.tool_call_count;
  hashes = s.hashes;
  attempt_id = s.request.attempt_id;
}
