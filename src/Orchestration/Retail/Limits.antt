-- ===== src/Orchestration/Retail/Limits.antt =====
-- The limits of a retail run and its end (src/commerce_agent/orchestration/retail_graph.py).
use commerce_analyst_agent.Prelude.{
  ℕ, ◌+◌, ◌-◌, ◌*◌, ◌≤◌, ◌≡◌, true, ◌||◌, none, some, List, [], ◌∷◌, inl, inr, arith, length,
  Option-cases,
}
use commerce_analyst_agent.Prelude.Outcome.{Result, ok, Result-cases, Method}
use commerce_analyst_agent.RunErrors.{RunError}
use commerce_analyst_agent.Model.{PendingToolBatch, ToolCall, ToolResult}
use commerce_analyst_agent.Orchestration.{RetailRunRequest}
use commerce_analyst_agent.Orchestration.Retail.{
  Node, RetailGraph, RetailState, call_model, close_exchange, execute_tools, finalize,
  initial_state, prepare_context, route_output, validate_tools,
}
use commerce_analyst_agent.Orchestration.Retail.Nodes.{
  check_batch, dispatch_all, is_some, receive, record_results, run_call_model, run_close_exchange,
  run_execute_tools, run_finalize, run_prepare_context, run_route_output, run_validate_tools,
  stop_by_finish,
}
use commerce_analyst_agent.Orchestration.Retail.Graph.{next_node, run_node}
use commerce_analyst_agent.Orchestration.Retail.Progress.{Follows}

module _ {W : Type 0} (g : RetailGraph W) where
  -- What a node may rely on beyond the limits.
  unfoldable pub Expects : Node → RetailState → Type 0
  Expects prepare_context s = s.pending_tool_batch ≡ none
  Expects call_model s = s.pending_tool_batch ≡ none
  Expects route_output s =
      (is_some s.pending_tool_batch || is_some s.final_output || is_some s.stop_reason) ≡ true
  Expects validate_tools s = is_some s.pending_tool_batch ≡ true
  Expects execute_tools s =
      (batch : PendingToolBatch)
      → s.pending_tool_batch ≡ some batch
      → s.tool_call_count + length batch.tool_calls ≤ g.loop_policy.max_tool_calls
  Expects close_exchange s = is_some s.pending_tool_batch ≡ true
  Expects finalize s = (is_some s.final_output || is_some s.stop_reason) ≡ true

  -- A state from which a node may start.
  pub record IsWithin (n : Node) (s : RetailState) : Type 0 where
    pub calls : s.model_call_count ≤ g.loop_policy.max_model_calls
    pub tools : s.tool_call_count ≤ g.loop_policy.max_tool_calls
    pub expected : Expects n s

  -- A state that a run may return.
  pub record IsFinished (s : RetailState) : Type 0 where
    pub calls : s.model_call_count ≤ g.loop_policy.max_model_calls
    pub tools : s.tool_call_count ≤ g.loop_policy.max_tool_calls
    pub cleaned_up : s.cleanup_complete ≡ true
    pub has_stop : (is_some s.final_output || is_some s.stop_reason) ≡ true

  -- How many nodes are left to run, at most.
  unfoldable pub rank : Node → RetailState → ℕ
  rank prepare_context s = 6 * (g.loop_policy.max_model_calls - s.model_call_count) + 4
  rank call_model s = 6 * (g.loop_policy.max_model_calls - s.model_call_count) + 3
  rank route_output s = elim s.pending_tool_batch [
    | none ↦ 2
    | some batch ↦ 6 * (g.loop_policy.max_model_calls - s.model_call_count) + 8
  ]
  rank validate_tools s = 6 * (g.loop_policy.max_model_calls - s.model_call_count) + 7
  rank execute_tools s = 6 * (g.loop_policy.max_model_calls - s.model_call_count) + 6
  rank close_exchange s = 6 * (g.loop_policy.max_model_calls - s.model_call_count) + 5
  rank finalize s = 1

  pub length-dispatch_all :
      (execute : ToolCall → Method RunError W ToolResult) (calls : List ToolCall) (w : W)
      (results : List ToolResult)
      → (dispatch_all g execute calls w).0 ≡ ok results
      → length results ≡ length calls
  unfolding dispatch_all
  length-dispatch_all execute [] w results h = ground arith
  length-dispatch_all execute (call ∷ calls) w results h = elim (Result-cases (execute call w).0) [
    | inr (e, failed) ↦ ground arith
    | inl (result, given) ↦
        elim (Result-cases (dispatch_all g execute calls (execute call w).1).0) [
          | inr (e, failed) ↦ ground arith
          | inl (rest, taken) ↦
              ground (arith, length-dispatch_all execute calls (execute call w).1 rest taken)
        ]
  ]

  -- What a step owes: its successor is within the limits and nearer the end.
  abbrev Owes : Node → RetailState → RetailState → W → Type 0
  Owes n s updated w =
      Follows g IsWithin (λ t v. IsFinished t) rank (rank n s) updated w (next_node n updated)

  step-prepare :
      (s updated : RetailState) (w v : W)
      → IsWithin prepare_context s
      → (run_prepare_context g s w).0 ≡ ok updated
      → Owes prepare_context s updated v
  unfolding run_prepare_context Follows next_node rank Expects
  step-prepare s updated w v h e = ground arith

  step-route :
      (s updated : RetailState) (w v : W)
      → IsWithin route_output s
      → (run_route_output g s w).0 ≡ ok updated
      → Owes route_output s updated v
  unfolding run_route_output Follows next_node rank Expects
  step-route s updated w v h e = ground arith

  step-call :
      (s updated : RetailState) (w v : W)
      → IsWithin call_model s
      → (run_call_model g s w).0 ≡ ok updated
      → Owes call_model s updated v
  unfolding run_call_model receive stop_by_finish Follows next_node rank Expects
  step-call s updated w v h e = ground arith

  step-validate :
      (s updated : RetailState) (w v : W)
      → IsWithin validate_tools s
      → (run_validate_tools g s w).0 ≡ ok updated
      → Owes validate_tools s updated v
  unfolding run_validate_tools check_batch Follows next_node rank Expects
  step-validate s updated w v h e = ground arith

  step-execute :
      (s updated : RetailState) (w v : W)
      → IsWithin execute_tools s
      → (run_execute_tools g s w).0 ≡ ok updated
      → Owes execute_tools s updated v
  unfolding run_execute_tools record_results Follows next_node rank Expects
  step-execute s updated w v h e = elim (Option-cases g.dispatcher) [
    | inl missing ↦ ground arith
    | inr (execute, given) ↦ elim (Option-cases s.pending_tool_batch) [
      | inl missing ↦ ground arith
      | inr (batch, held) ↦
          let sent : W → Result RunError (List ToolResult) × W =
            dispatch_all g (execute s.request.run_scope s.request.attempt_id) batch.tool_calls in
          elim (Result-cases (sent w).0) [
            | inr (x, failed) ↦ ground arith
            | inl (results, taken) ↦ ground (
              arith,
              length-dispatch_all (execute s.request.run_scope s.request.attempt_id)
                  batch.tool_calls w results taken,
              h.expected batch held,
            )
          ]
    ]
  ]

  step-close :
      (s updated : RetailState) (w v : W)
      → IsWithin close_exchange s
      → (run_close_exchange g s w).0 ≡ ok updated
      → Owes close_exchange s updated v
  unfolding run_close_exchange Follows next_node rank Expects
  step-close s updated w v h e = ground arith

  step-finalize :
      (s updated : RetailState) (w v : W)
      → IsWithin finalize s
      → (run_finalize g s w).0 ≡ ok updated
      → Owes finalize s updated v
  unfolding run_finalize Follows next_node rank Expects
  step-finalize s updated w v h e = ground arith

  pub run_node-IsWithin :
      (n : Node) (s : RetailState) (w : W) (updated : RetailState)
      → IsWithin n s
      → (run_node g n s w).0 ≡ ok updated
      → Owes n s updated (run_node g n s w).1
  unfolding run_node
  run_node-IsWithin prepare_context s w updated = step-prepare s updated w _
  run_node-IsWithin call_model s w updated = step-call s updated w _
  run_node-IsWithin route_output s w updated = step-route s updated w _
  run_node-IsWithin validate_tools s w updated = step-validate s updated w _
  run_node-IsWithin execute_tools s w updated = step-execute s updated w _
  run_node-IsWithin close_exchange s w updated = step-close s updated w _
  run_node-IsWithin finalize s w updated = step-finalize s updated w _

  pub initial_state-IsWithin :
      (request : RetailRunRequest) → IsWithin prepare_context (initial_state request)
  unfolding initial_state Expects
  initial_state-IsWithin request = ground arith
