-- ===== src/Orchestration/Day4/Reporting.antt =====
-- That the reconciliation and the rounds of the report keep sound checkpoints
-- (src/commerce_agent/orchestration/retail_graph.py, `_run_day4`).
use commerce_analyst_agent.Prelude.{
  string_eq, ◌+◌, ◌≤◌, ◌<◌, ◌≡◌, ◌⊎◌, refl, sym, ◌∙◌, String, true, none, some, List, [], length,
  inl, inr, arith, Option-cases,
}
use commerce_analyst_agent.Prelude.Outcome.{Result, ok, err, Method, ◌>>>=◌, after_call}
use commerce_analyst_agent.RunErrors.{RunError}
use commerce_analyst_agent.Model.{Hashes, RunScope, ToolCall, ToolResult}
use commerce_analyst_agent.Operations.Contracts.{Uuid}
use commerce_analyst_agent.Orchestration.{
  InvestigationReport, RetailRunOutcome, RetailRunRequest, completed, report,
}
use commerce_analyst_agent.Orchestration.Day4.{Day4Graph, Day4State, Kept, day4_outcome}
use commerce_analyst_agent.Orchestration.Day4.Ends.{cache_and_finish, restore_outcome, save_state}
use commerce_analyst_agent.Orchestration.Day4.Queries.{Round, ended, go_on, is_executing, stop_run}
use commerce_analyst_agent.Orchestration.Day4.Reports.{
  is_proposing, propose_operation, proposed, with_call, with_pending, with_proposals,
}
use commerce_analyst_agent.Orchestration.Day4.Sound.{
  IsEnd, IsKept, IsSound, Leaves, one_if, after_call-Leaves, cache_and_finish-Leaves,
  save_state-Leaves,
}
use commerce_analyst_agent.Orchestration.Day4.Chains.{
  giving-Leaves, raising-Leaves, saving-Leaves, stopping-Leaves,
}

module _ {W : Type 0} (g : Day4Graph W) (request : RetailRunRequest) where
  -- A state after the queries: no step is pending, and the calls so far leave one for the report.
  pub record IsReady (s : Day4State) : Type 0 where
    pub sound : IsSound g request s
    pub live : s.terminal ≡ none
    pub all_done : s.pending_plan_step_ids ≡ []

  abbrev pub IsReported : Round → Kept W → Type 0
  IsReported (go_on s) k = IsReady s
  IsReported (ended outcome) k = IsEnd g request outcome k

  -- A change that leaves the queries, the plan and the counts, and stays out of their execution.
  pub changed-IsReady :
      (s t : Day4State)
      → IsSound g request s
      → s.terminal ≡ none
      → s.pending_plan_step_ids ≡ []
      → t.state_schema_revision ≡ s.state_schema_revision
      → t.node_revision ≡ s.node_revision
      → t.hashes.config_hash ≡ request.run_scope.config_hash
      → t.request ≡ s.request
      → s.model_call_count ≤ t.model_call_count
      → t.model_call_count ≤ g.graph.loop_policy.max_model_calls
      → t.investigation_plan ≡ s.investigation_plan
      → t.pending_plan_step_ids ≡ s.pending_plan_step_ids
      → t.query_evidence ≡ s.query_evidence
      → t.repair_count ≡ s.repair_count
      → t.terminal ≡ s.terminal
      → one_if (is_executing t) ≤ one_if (is_executing s)
      → (is_proposing t ≡ true → length s.query_evidence + s.repair_count + 2 ≤ t.model_call_count)
      → IsReady t
  changed-IsReady s t h live done schema nodes config asked more within plan pending evidence
        repairs terminal idle enough =
      record {
        sound = record {
          schema = schema ∙ h.schema;
          nodes = nodes ∙ h.nodes;
          config = config;
          asked = asked ∙ h.asked;
          within = within;
          in_order = λ p e. rw (pending, evidence) (h.in_order p (sym plan ∙ e));
          counted = rw (evidence, repairs) (omega (arith, h.counted, idle));
          reported = λ value e. absurd (ground arith);
          proposing = λ e. rw (evidence, repairs) (enough e);
        };
        live = terminal ∙ live;
        all_done = pending ∙ done;
      }

  -- A state that has made a model call for the report.
  abbrev pub IsCalled : Day4State → Type 0
  IsCalled s = IsReady s × (length s.query_evidence + s.repair_count + 2 ≤ s.model_call_count)

  with_pending-IsReady :
      (s : Day4State) (call : ToolCall) → IsCalled s → IsReady (with_pending s call)
  with_pending-IsReady s call h =
      changed-IsReady s (with_pending s call) h.0.sound h.0.live h.0.all_done refl refl
        h.0.sound.config refl (omega arith) h.0.sound.within refl refl refl refl refl (omega arith)
        (λ e. h.1)

  with_proposals-IsReady :
      (s : Day4State) (refs : List String) → IsReady s → IsReady (with_proposals s refs)
  with_proposals-IsReady s refs h =
      changed-IsReady s (with_proposals s refs) h.sound h.live h.all_done refl refl h.sound.config
        refl (omega arith) h.sound.within refl refl refl refl refl (omega arith)
        (λ e. absurd (ground arith))

  pub with_call-IsCalled :
      (s : Day4State) (hashes : Hashes)
      → IsReady s
      → hashes.config_hash ≡ request.run_scope.config_hash
      → s.model_call_count < g.graph.loop_policy.max_model_calls
      → IsCalled (with_call s hashes)
  with_call-IsCalled s hashes h config free =
      let counted : length s.query_evidence + s.repair_count + 1 ≤ s.model_call_count =
        omega (arith, h.sound.counted) in
      (
        changed-IsReady s (with_call s hashes) h.sound h.live h.all_done refl refl config refl
            (omega arith) (omega arith) refl refl refl refl refl (omega arith) (λ e. omega arith),
        omega arith,
      )

  proposed-Leaves :
      (s : Day4State) (answer : Result RunError ToolResult) (k : Kept W)
      → IsReady s
      → IsKept g request k
      → Leaves g request IsReported (proposed g request s answer k)
  proposed-Leaves s (err e) k h kept = raising-Leaves g request IsReported e k kept
  proposed-Leaves s (ok result) k h kept =
      let ready = with_proposals-IsReady s result.source_refs h in
      saving-Leaves g request IsReported (go_on (with_proposals s result.source_refs))
        (with_proposals s result.source_refs) k (λ after. ready) ready.sound kept

  propose_cases :
      (s : Day4State) (call : ToolCall) (k : Kept W)
      → (propose_operation g request s call k
          ≡ (stop_run g request "operation_workflow_unavailable" s.model_call_count
                  s.tool_call_count s
                >>>= (λ outcome after. (ok (ended outcome), after)))
              k)
        ⊎ ((dispatch : RunScope → Uuid → ToolCall → Method RunError W ToolResult)
            × (propose_operation g request s call k
                ≡ after_call (save_state g (with_pending s call) k) (λ done after.
                  proposed g request
                    (with_pending s call)
                    (dispatch request.run_scope request.attempt_id call after.world).0
                    (record after {
                      world = (dispatch request.run_scope request.attempt_id call after.world).1;
                    }))))
  unfolding propose_operation
  propose_cases s call k = elim (Option-cases g.dispatch) [
    | inl missing ↦ inl (ground arith)
    | inr (dispatch, given) ↦ inr (dispatch, ground arith)
  ]

  pub propose-Leaves :
      (s : Day4State) (call : ToolCall) (k : Kept W)
      → IsCalled s
      → IsKept g request k
      → Leaves g request IsReported (propose_operation g request s call k)
  propose-Leaves s call k h kept = elim (propose_cases s call k) [
    | inl same ↦ rw same (
        stopping-Leaves g request IsReported ended "operation_workflow_unavailable"
          s.model_call_count s.tool_call_count s k (λ outcome after over. over) h.0.sound
          (omega arith) h.0.sound.within kept)
    | inr (dispatch, same) ↦
        let ready = with_pending-IsReady s call h in
        rw same (
          after_call-Leaves g request (λ done after. after.saved ≡ some (with_pending s call))
            IsReported (save_state g (with_pending s call) k)
            (λ done after.
              proposed g request (with_pending s call)
                (dispatch request.run_scope request.attempt_id call after.world).0
                (record after {
                  world = (dispatch request.run_scope request.attempt_id call after.world).1;
                }))
            (save_state-Leaves g request (with_pending s call) k ready.sound kept)
            (λ done after kept2 there.
              proposed-Leaves (with_pending s call)
                (dispatch request.run_scope request.attempt_id call after.world).0
                (record after {
                  world = (dispatch request.run_scope request.attempt_id call after.world).1;
                })
                ready kept2))
  ]

  abbrev pub completion : Day4State → InvestigationReport → RetailRunOutcome
  completion s value =
      day4_outcome request completed (some (report value)) none s.model_call_count s.tool_call_count
        s.hashes

  pub completing-Leaves :
      (s : Day4State) (value : InvestigationReport) (k : Kept W)
      → IsCalled s
      → IsKept g request k
      → Leaves g request IsReported (
          after_call
            (cache_and_finish g request (completion s value) s k)
            (λ outcome after. (ok (ended outcome), after)))
  unfolding restore_outcome
  completing-Leaves s value k h kept =
      let sound = h.0.sound in
      after_call-Leaves g request (IsEnd g request) IsReported
        (cache_and_finish g request (completion s value) s k)
        (λ outcome after. (ok (ended outcome), after))
        (cache_and_finish-Leaves g request (completion s value) s k
          (record {
            schema = sound.schema;
            nodes = sound.nodes;
            config = sound.config;
            asked = sound.asked;
            within = sound.within;
            in_order = sound.in_order;
            counted = omega (arith, h.1);
            reported = λ other e. (h.0.all_done, h.1);
            proposing = λ e. absurd (ground arith);
          })
          refl refl kept)
        (λ outcome after kept2 over.
          giving-Leaves g request IsReported (ended outcome) after over kept2)
