-- ===== src/Orchestration/Day4/Opening.antt =====
-- That an investigation opens with a sound checkpoint, new or kept
-- (src/commerce_agent/orchestration/retail_graph.py, `_run_day4`).
use mathlib.Core.Option.{some-injective}
use commerce_analyst_agent.Prelude.{
  string_eq, ◌≤◌, ◌≡◌, ◌⊎◌, refl, ap, true, none, some, map, inl, inr, arith, Bool-cases,
  Option-cases, ◌==◌,
}
use commerce_analyst_agent.Prelude.Outcome.{Result, ok, err, after_call, Result-cases}
use commerce_analyst_agent.RunErrors.{RunError, tool_contract_error, value_error}
use commerce_analyst_agent.Model.{Hashes, ToolCall}
use commerce_analyst_agent.Orchestration.{
  ClarificationRequest, InvestigationPlan, RetailRunRequest, clarification, needs_input, step_ids,
  validate_plan_shape,
}
use commerce_analyst_agent.Orchestration.Retail.{validate_policy}
use commerce_analyst_agent.Orchestration.Day4.{Day4Graph, Day4Method, Kept, day4_outcome, new_state}
use commerce_analyst_agent.Orchestration.Day4.Ends.{cache_and_finish, restore_outcome}
use commerce_analyst_agent.Orchestration.Day4.Queries.{Round, ended, go_on}
use commerce_analyst_agent.Orchestration.Day4.Runs.{
  accept_plan, catching, clarify, decide, keep_plan, planned,
}
use commerce_analyst_agent.Orchestration.Day4.Sound.{
  IsEnd, IsKept, IsSound, Leaves, after_call-Leaves, cache_and_finish-Leaves, query_id,
}
use commerce_analyst_agent.Orchestration.Day4.Chains.{giving-Leaves, raising-Leaves, saving-Leaves}
use commerce_analyst_agent.Orchestration.Day4.Rounds.{IsDone}

module _ {W : Type 0} (g : Day4Graph W) (request : RetailRunRequest) where
  clarify_cases :
      (hashes : Hashes) (call : ToolCall) (k : Kept W)
      → (clarify g request hashes call k ≡ (err value_error, k))
        ⊎ ((asked : ClarificationRequest) × (clarify g request hashes call k
              ≡ after_call
                  (cache_and_finish g request
                    (day4_outcome request needs_input (some (clarification asked)) none 1 1 hashes)
                    (new_state request)
                    k)
                  (λ outcome after. (ok (ended outcome), after))))
  clarify_cases hashes call k = elim (Option-cases (g.clarification_of call.arguments_json)) [
    | inl missing ↦ inl (ground arith)
    | inr (asked, given) ↦ inr (asked, ground arith)
  ]

  plan_cases :
      (hashes : Hashes) (call : ToolCall) (k : Kept W)
      → (accept_plan g request hashes call k ≡ (err value_error, k))
        ⊎ ((plan : InvestigationPlan) × (accept_plan g request hashes call k
              ≡ (ok (go_on (planned (new_state request) plan hashes)), k)))
  plan_cases hashes call k = elim (Option-cases (g.plan_of call.arguments_json)) [
    | inl missing ↦ inl (ground arith)
    | inr (plan, given) ↦ elim (Bool-cases (validate_plan_shape plan)) [
      | inl valid ↦ inr (plan, ground arith)
      | inr invalid ↦ inl (ground arith)
    ]
  ]

  decide_cases :
      (hashes : Hashes) (call : ToolCall) (k : Kept W)
      → (decide g request hashes (ok call) k ≡ clarify g request hashes call k)
        ⊎ (decide g request hashes (ok call) k ≡ accept_plan g request hashes call k)
        ⊎ ((e : RunError) × (decide g request hashes (ok call) k ≡ (err e, k)))
  unfolding decide
  decide_cases hashes call k = elim (Bool-cases (call.name == "request_clarification")) [
    | inl clarifies ↦ inl (ground arith)
    | inr other ↦ elim (Bool-cases (call.name == "submit_investigation_plan")) [
      | inl plans ↦ inr (inl (ground arith))
      | inr neither ↦ inr (inr (tool_contract_error "investigation_plan_required", ground arith))
    ]
  ]

  pub catching-Leaves :
      (R : Round → Kept W → Type 0) (m : Day4Method W Round) (k : Kept W)
      → Leaves g request R (m k)
      → Leaves g request R (catching m k)
  catching-Leaves R m k h = elim (Result-cases (m k).0) [
    | inl (a, given) ↦ (h.0, λ b e. h.1 b (ground arith))
    | inr (x, failed) ↦ (h.0, λ b e. absurd (ground arith))
  ]

  pub keep_plan-Leaves :
      (r : Round) (k : Kept W)
      → IsDone g request r k
      → IsKept g request k
      → Leaves g request (IsDone g request) (keep_plan g request r k)
  keep_plan-Leaves (ended outcome) k h kept =
      giving-Leaves g request (IsDone g request) (ended outcome) k h kept
  keep_plan-Leaves (go_on s) k h kept =
      saving-Leaves g request (IsDone g request) (go_on s) s k (λ after. h) h.0 kept

  module _ (valid : validate_policy g.graph.loop_policy ≡ true) where
    a_call : 1 ≤ g.graph.loop_policy.max_model_calls
    unfolding validate_policy
    a_call = ground (arith, valid)

    clarify-Leaves :
        (hashes : Hashes) (call : ToolCall) (k : Kept W)
        → hashes.config_hash ≡ request.run_scope.config_hash
        → IsKept g request k
        → Leaves g request (IsDone g request) (clarify g request hashes call k)
    unfolding new_state restore_outcome
    clarify-Leaves hashes call k config kept = elim (clarify_cases hashes call k) [
      | inl same ↦ rw same (raising-Leaves g request (IsDone g request) value_error k kept)
      | inr (asked, same) ↦
          let desired =
            day4_outcome request needs_input (some (clarification asked)) none 1 1 hashes in
          rw same (
            after_call-Leaves g request (IsEnd g request) (IsDone g request)
              (cache_and_finish g request desired (new_state request) k)
              (λ outcome after. (ok (ended outcome), after))
              (cache_and_finish-Leaves g request desired (new_state request) k
                (record {
                  schema = refl;
                  nodes = refl;
                  config = config;
                  asked = refl;
                  within = a_call;
                  in_order = λ plan e. absurd (ground arith);
                  counted = omega arith;
                  reported = λ value e. absurd (ground arith);
                  proposing = λ e. absurd (ground arith);
                })
                refl refl kept)
              (λ outcome after kept2 over.
                giving-Leaves g request (IsDone g request) (ended outcome) after over kept2))
    ]

    planned-IsSound :
        (plan : InvestigationPlan) (hashes : Hashes)
        → hashes.config_hash ≡ request.run_scope.config_hash
        → IsSound g request (planned (new_state request) plan hashes)
    unfolding new_state
    planned-IsSound plan hashes config = record {
      schema = refl;
      nodes = refl;
      config = config;
      asked = refl;
      within = a_call;
      in_order = λ other e. ap (λ q. map query_id (step_ids q.steps)) (some-injective plan other e);
      counted = omega arith;
      reported = λ value e. absurd (ground arith);
      proposing = λ e. absurd (ground arith);
    }

    accept_plan-Leaves :
        (hashes : Hashes) (call : ToolCall) (k : Kept W)
        → hashes.config_hash ≡ request.run_scope.config_hash
        → IsKept g request k
        → Leaves g request (IsDone g request) (accept_plan g request hashes call k)
    unfolding new_state
    accept_plan-Leaves hashes call k config kept = elim (plan_cases hashes call k) [
      | inl same ↦ rw same (raising-Leaves g request (IsDone g request) value_error k kept)
      | inr (plan, same) ↦ rw same (
          giving-Leaves g request (IsDone g request)
            (go_on (planned (new_state request) plan hashes)) k
            (planned-IsSound plan hashes config, refl) kept)
    ]

    pub decide-Leaves :
        (hashes : Hashes) (answer : Result RunError ToolCall) (k : Kept W)
        → hashes.config_hash ≡ request.run_scope.config_hash
        → IsKept g request k
        → Leaves g request (IsDone g request) (decide g request hashes answer k)
    unfolding decide
    decide-Leaves hashes (err e) k config kept =
        raising-Leaves g request (IsDone g request) e k kept
    decide-Leaves hashes (ok call) k config kept = elim (decide_cases hashes call k) [
      | inl same ↦ rw same (clarify-Leaves hashes call k config kept)
      | inr (inl same) ↦ rw same (accept_plan-Leaves hashes call k config kept)
      | inr (inr (e, same)) ↦ rw same (raising-Leaves g request (IsDone g request) e k kept)
    ]
