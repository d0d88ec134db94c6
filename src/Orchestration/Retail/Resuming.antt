-- ===== src/Orchestration/Retail/Resuming.antt =====
-- That a retail run accepts the snapshots that its own runs left
-- (src/commerce_agent/orchestration/retail_graph.py, orchestration/_checkpoint.py and
-- context_builder/builder.py).
use commerce_analyst_agent.Prelude.{
  ◌≡◌, refl, sym, ◌∙◌, none, some, inl, inr, arith, beq_refl, string_eq, Option-cases,
}
use commerce_analyst_agent.Prelude.Outcome.{ok, Result-cases}
use commerce_analyst_agent.Context.{ContextRequest}
use commerce_analyst_agent.Context.Checks.{BuilderPorts}
use commerce_analyst_agent.Context.Builder.{build}
use commerce_analyst_agent.Context.Promises.{build-IsWithinBudget}
use commerce_analyst_agent.Orchestration.{RetailRunRequest}
use commerce_analyst_agent.Orchestration.Retail.{
  Node, RetailGraph, RetailState, call_model, close_exchange, execute_tools, finalize,
  initial_state, nodes_revision, prepare_context, route_output, schema_revision, validate_tools,
}
use commerce_analyst_agent.Orchestration.Retail.Nodes.{
  check_batch, context_request, receive, record_results, run_call_model, run_close_exchange,
  run_execute_tools, run_finalize, run_prepare_context, run_route_output, run_validate_tools,
  stop_by_finish,
}
use commerce_analyst_agent.Orchestration.Retail.Graph.{
  Snapshot, check_snapshot, next_node, run_node,
}
use commerce_analyst_agent.Orchestration.Retail.Limits.{IsWithin}
use commerce_analyst_agent.Orchestration.Retail.Retries.{Keeps, Left, Left-Fits}

module _ {W : Type 0} (g : RetailGraph W) (p : BuilderPorts) (request : RetailRunRequest)
    (builds : (r : ContextRequest) → g.build r ≡ build p r) where
  -- The revisions and the configuration that a snapshot is checked for.
  record IsCurrent (s : RetailState) : Type 0 where
    schema : s.state_schema_revision ≡ schema_revision
    nodes : s.node_revision ≡ nodes_revision
    config : s.hashes.config_hash ≡ request.run_scope.config_hash
    asked : s.request ≡ request

  initial_state-IsCurrent : IsCurrent (initial_state request)
  unfolding initial_state
  initial_state-IsCurrent = record { schema = refl; nodes = refl; config = refl; asked = refl }

  prepare-IsCurrent :
      (s updated : RetailState) (w : W)
      → IsCurrent s
      → (run_prepare_context g s w).0 ≡ ok updated
      → IsCurrent updated
  unfolding run_prepare_context
  prepare-IsCurrent s updated w h e = elim (Result-cases (g.build (context_request g s))) [
    | inr (x, failed) ↦ absurd (ground arith)
    | inl (bundle, built) ↦
        let promise =
          build-IsWithinBudget p (context_request g s) bundle
            (sym (builds (context_request g s)) ∙ built) in
        ground (arith, promise.config)
  ]

  run_node-IsCurrent :
      (n : Node) (s : RetailState) (w : W) (updated : RetailState)
      → IsCurrent s
      → (run_node g n s w).0 ≡ ok updated
      → IsCurrent updated
  unfolding run_node run_call_model receive stop_by_finish run_route_output run_validate_tools
      check_batch run_execute_tools record_results run_close_exchange run_finalize
  run_node-IsCurrent prepare_context s w updated h e = prepare-IsCurrent s updated w h e
  run_node-IsCurrent call_model s w updated h e = ground arith
  run_node-IsCurrent route_output s w updated h e = ground arith
  run_node-IsCurrent validate_tools s w updated h e = ground arith
  run_node-IsCurrent execute_tools s w updated h e = ground arith
  run_node-IsCurrent close_exchange s w updated h e = ground arith
  run_node-IsCurrent finalize s w updated h e = ground arith

  IsCurrent-Keeps :
      (n : Node) (s : RetailState) (w : W) (updated : RetailState)
      → IsWithin g n s
      → IsCurrent s
      → (run_node g n s w).0 ≡ ok updated
      → Keeps (λ m. IsCurrent) IsCurrent updated (next_node n updated)
  IsCurrent-Keeps n s w updated within h e =
      let current = run_node-IsCurrent n s w updated h e in
      elim (Result-cases (next_node n updated)) [
        | inr (x, lost) ↦ rw lost tt
        | inl (none, edge) ↦ rw edge current
        | inl (some m, edge) ↦ rw edge current
      ]

  check_current : (s : RetailState) → IsCurrent s → check_snapshot g request s ≡ ok tt
  unfolding check_snapshot
  check_current s h = ground (
    arith,
    (string_eq.test_iff s.state_schema_revision schema_revision).1 h.schema,
    (string_eq.test_iff s.node_revision nodes_revision).1 h.nodes,
    beq_refl request.run_scope.config_hash,
    beq_refl (g.scope_json request.run_scope),
    beq_refl (g.request_json request),
  )

  -- With the context builder of the development, a snapshot that a request's runs left behind
  -- passes every check of the request's next run.
  pub Left-check_snapshot :
      (snapshot : Snapshot)
      → Left g request (some snapshot)
      → check_snapshot g request snapshot.values ≡ ok tt
  Left-check_snapshot snapshot left =
      let fits =
        Left-Fits g request (λ n. IsCurrent) IsCurrent initial_state-IsCurrent IsCurrent-Keeps
          left in
      elim (Option-cases snapshot.next) [
        | inl ended ↦ check_current snapshot.values (rw ended at fits).1
        | inr (n, open_at) ↦ check_current snapshot.values (rw open_at at fits).1
      ]
