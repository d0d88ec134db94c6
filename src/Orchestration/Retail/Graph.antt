-- ===== src/Orchestration/Retail/Graph.antt =====
-- The edges that `RetailGraph.__init__` adds (src/commerce_agent/orchestration/retail_graph.py), the
-- run of the compiled graph along them with a snapshot kept after every node, and
-- `RetailGraph.run` with the checks of a kept snapshot (orchestration/_checkpoint.py). The graph is
-- run on fuel.
use commerce_analyst_agent.Prelude.{ℕ, zero, suc, not, Option, none, some, ◌==◌, string_eq, nat_beq}
use commerce_analyst_agent.Prelude.Outcome.{Result, ok, err, ◌>>◌, raise_if}
use commerce_analyst_agent.RunErrors.{RunError, checkpoint_incompatible, missing_key}
use commerce_analyst_agent.Orchestration.{RetailRunRequest}
use commerce_analyst_agent.Orchestration.Retail.{
  Node, RetailGraph, RetailState, at, call_model, close_exchange, execute_tools, finalize,
  initial_state, nodes_revision, prepare_context, route_output, schema_revision, validate_tools,
}
use commerce_analyst_agent.Orchestration.Retail.Nodes.{
  NodeMethod, run_call_model, run_close_exchange, run_execute_tools, run_finalize,
  run_prepare_context, run_route_output, run_validate_tools,
}

-- `snapshot.values` and `snapshot.next`; the next node is `none` at the end of the graph.
pub record Snapshot : Type 0 where
  pub values : RetailState
  pub next : Option Node

-- How an invocation ends: at the end of the graph, at an exception with the last kept snapshot, or
-- at the end of the fuel.
pub data Invoked (W : Type 0) : Type 0 where
  done : RetailState → W → Invoked W
  raised : RunError → Snapshot → W → Invoked W
  out_of_fuel : Invoked W

-- The maps of `add_conditional_edges`; `route_after_…` return the state's `current_node`.
unfoldable pub next_node : Node → RetailState → Result RunError (Option Node)
next_node prepare_context s = ok (some call_model)
next_node call_model s = ok (some route_output)
next_node route_output s = elim s.current_node [
  | at validate_tools ↦ ok (some validate_tools)
  | at finalize ↦ ok (some finalize)
  | _ ↦ err missing_key
]
next_node validate_tools s = elim s.current_node [
  | at execute_tools ↦ ok (some execute_tools)
  | at finalize ↦ ok (some finalize)
  | _ ↦ err missing_key
]
next_node execute_tools s = elim s.current_node [
  | at close_exchange ↦ ok (some close_exchange)
  | at finalize ↦ ok (some finalize)
  | _ ↦ err missing_key
]
next_node close_exchange s = ok (some prepare_context)
next_node finalize s = ok none

module _ {W : Type 0} (g : RetailGraph W) where
  -- The functions that `add_node` names.
  unfoldable pub run_node : Node → NodeMethod W
  run_node prepare_context = run_prepare_context g
  run_node call_model = run_call_model g
  run_node route_output = run_route_output g
  run_node validate_tools = run_validate_tools g
  run_node execute_tools = run_execute_tools g
  run_node close_exchange = run_close_exchange g
  run_node finalize = run_finalize g

  -- `self._graph.ainvoke`
  unfoldable pub ainvoke : ℕ → Node → RetailState → W → Invoked W
  ainvoke zero node s w = out_of_fuel
  ainvoke (suc fuel) node s w = elim (run_node node s w).0 [
    | err e ↦ raised e (record { values = s; next = some node }) (run_node node s w).1
    | ok updated ↦ elim (next_node node updated) [
      | err e ↦ raised e (record { values = s; next = some node }) (run_node node s w).1
      | ok none ↦ done updated (run_node node s w).1
      | ok (some next) ↦ ainvoke fuel next updated (run_node node s w).1
    ]
  ]

  -- `assert_checkpoint_compatible` and the comparison of the requests
  unfoldable pub check_snapshot : RetailRunRequest → RetailState → Result RunError (Unit {0})
  check_snapshot request values =
      raise_if (not (values.state_schema_revision == schema_revision))
        (checkpoint_incompatible "state_schema_mismatch")
      >> raise_if (not (values.node_revision == nodes_revision))
          (checkpoint_incompatible "node_revision_mismatch")
      >> raise_if (not (values.hashes.config_hash == request.run_scope.config_hash))
          (checkpoint_incompatible "config_hash_mismatch")
      >> raise_if (not (g.scope_json values.request.run_scope == g.scope_json request.run_scope))
          (checkpoint_incompatible "run_scope_mismatch")
      >> raise_if (not (nat_beq values.request.attempt_id request.attempt_id))
          (checkpoint_incompatible "attempt_id_mismatch")
      >> raise_if (not (g.request_json values.request == g.request_json request))
          (checkpoint_incompatible "request_mismatch")

  -- A kept snapshot resumes where it stopped, and its values are the result at the end.
  unfoldable pub resume : ℕ → RetailRunRequest → Snapshot → W → Invoked W
  resume fuel request snapshot w = elim (check_snapshot request snapshot.values) [
    | err e ↦ raised e snapshot w
    | ok passed ↦ elim snapshot.next [
      | none ↦ done snapshot.values w
      | some node ↦ ainvoke fuel node snapshot.values w
    ]
  ]

  -- `run` up to `self._outcome(state)`; without a snapshot it starts from the initial state.
  unfoldable pub run : ℕ → RetailRunRequest → Option Snapshot → W → Invoked W
  run fuel request none w = ainvoke fuel prepare_context (initial_state request) w
  run fuel request (some snapshot) w = resume fuel request snapshot w
