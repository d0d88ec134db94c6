-- ===== src/Orchestration/Day4/Submitting.antt =====
-- That the rounds and the loop of the report keep sound checkpoints
-- (src/commerce_agent/orchestration/retail_graph.py, `_run_day4`).
use commerce_analyst_agent.Prelude.{
  string_eq, ℕ, ◌<◌, ◌≡◌, ◌⊎◌, refl, sym, ◌∙◌, true, List, leb, inl, inr, arith, Bool-cases,
  Option-cases, ◌==◌,
}
use commerce_analyst_agent.Prelude.Outcome.{Result, ok, err, after_call, Result-cases}
use commerce_analyst_agent.RunErrors.{RunError, tool_contract_error}
use commerce_analyst_agent.Model.{Hashes, ModelOutput, ModelResponse, ToolCall}
use commerce_analyst_agent.Context.{ContextDatum, ContextRequest, PromptBundle, PromptStep}
use commerce_analyst_agent.Context.Checks.{BuilderPorts}
use commerce_analyst_agent.Context.Builder.{build}
use commerce_analyst_agent.Context.Promises.{build-IsWithinBudget}
use commerce_analyst_agent.Orchestration.{
  InvestigationReport, RetailRunRequest, validate_evidence_and_sensitivity,
}
use commerce_analyst_agent.Orchestration.Day4.{Day4Graph, Day4State, Kept}
use commerce_analyst_agent.Orchestration.Day4.Ends.{cache_and_finish}
use commerce_analyst_agent.Orchestration.Day4.Queries.{ended, stop_run}
use commerce_analyst_agent.Orchestration.Day4.Reports.{
  act, act_on, ask_report, call_day4_model, check_response, day4_context, declares, is_bound_here,
  is_proposing, one_tool_call, propose_operation, report_evidence, report_round, submit_report,
  with_call,
}
use commerce_analyst_agent.Orchestration.Day4.Sound.{IsKept, Leaves, after_call-Leaves}
use commerce_analyst_agent.Orchestration.Day4.Chains.{
  giving-Leaves, raising-Leaves, stopping-Leaves,
}
use commerce_analyst_agent.Orchestration.Day4.Reporting.{
  IsCalled, IsReady, IsReported, completing-Leaves, completion, propose-Leaves, with_call-IsCalled,
}

module _ {W : Type 0} (g : Day4Graph W) (request : RetailRunRequest) where
  submit_cases :
      (s : Day4State) (call : ToolCall) (k : Kept W)
      → ((e : RunError) × (submit_report g request s call k ≡ (err e, k)))
        ⊎ ((value : InvestigationReport) × (submit_report g request s call k
              ≡ after_call
                  (cache_and_finish g request (completion g request s value) s k)
                  (λ outcome after. (ok (ended outcome), after))))
  unfolding submit_report
  submit_cases s call k = elim (Option-cases (g.report_of call.arguments_json)) [
    | inl missing ↦ inl (tool_contract_error "invalid_tool_arguments", ground arith)
    | inr (value, given) ↦ elim (Bool-cases (validate_evidence_and_sensitivity value)) [
      | inr invalid ↦ inl (tool_contract_error "invalid_tool_arguments", ground arith)
      | inl valid ↦ elim (Bool-cases (declares g request value s.proposal_refs)) [
        | inr foreign ↦ inl (tool_contract_error "proposal_reference_mismatch", ground arith)
        | inl known ↦ inr (value, ground arith)
      ]
    ]
  ]

  submit-Leaves :
      (s : Day4State) (call : ToolCall) (k : Kept W)
      → IsCalled g request s
      → IsKept g request k
      → Leaves g request (IsReported g request) (submit_report g request s call k)
  submit-Leaves s call k h kept = elim (submit_cases s call k) [
    | inl (e, same) ↦ rw same (raising-Leaves g request (IsReported g request) e k kept)
    | inr (value, same) ↦ rw same (completing-Leaves g request s value k h kept)
  ]

  act_cases :
      (s : Day4State) (call : ToolCall) (k : Kept W)
      → ((e : RunError) × (act g request s call k ≡ (err e, k)))
        ⊎ (act g request s call k ≡ propose_operation g request s call k)
        ⊎ (act g request s call k ≡ submit_report g request s call k)
  unfolding act
  act_cases s call k = elim (Bool-cases (call.name == "propose_operation")) [
    | inl proposes ↦ inr (inl (ground arith))
    | inr other ↦ elim (Bool-cases (call.name == "submit_investigation_report")) [
      | inl submits ↦ inr (inr (ground arith))
      | inr neither ↦ inl (tool_contract_error "investigation_report_required", ground arith)
    ]
  ]

  act-Leaves :
      (s : Day4State) (call : ToolCall) (k : Kept W)
      → IsCalled g request s
      → IsKept g request k
      → Leaves g request (IsReported g request) (act g request s call k)
  act-Leaves s call k h kept = elim (act_cases s call k) [
    | inl (e, same) ↦ rw same (raising-Leaves g request (IsReported g request) e k kept)
    | inr (inl same) ↦ rw same (propose-Leaves g request s call k h kept)
    | inr (inr same) ↦ rw same (submit-Leaves s call k h kept)
  ]

  act_on-Leaves :
      (s : Day4State) (answer : Result RunError ToolCall) (k : Kept W)
      → IsCalled g request s
      → IsKept g request k
      → Leaves g request (IsReported g request) (act_on g request s answer k)
  act_on-Leaves s (ok call) k h kept = act-Leaves s call k h kept
  act_on-Leaves s (err e) k h kept = raising-Leaves g request (IsReported g request) e k kept

  check_cases :
      (sequence : ℕ) (hashes : Hashes) (answer : Result RunError ModelResponse)
      → ((e : RunError) × (check_response g request sequence hashes answer ≡ err e))
        ⊎ ((output : ModelOutput) × (check_response g request sequence hashes answer
              ≡ ok (output, hashes)))
  check_cases sequence hashes (err e) = inl (e, refl)
  check_cases sequence hashes (ok response) =
      elim (Bool-cases (is_bound_here g request sequence response.provider_turn_ref)) [
        | inl bound ↦ inr (response.output, ground arith)
        | inr foreign ↦ inl (tool_contract_error "model_response_binding_mismatch", ground arith)
      ]

  module _ (p : BuilderPorts) (builds : (r : ContextRequest) → g.graph.build r ≡ build p r) where
    call_model_cases :
        (step : PromptStep) (evidence : List ContextDatum) (sequence : ℕ) (k : Kept W)
        → ((e : RunError) × (w : W) × (call_day4_model g request step evidence sequence k
              ≡ (err e, record k { world = w })))
          ⊎ ((bundle : PromptBundle) × (output : ModelOutput) × (w : W) × (g.graph.build
                  (day4_context g request step evidence sequence)
                ≡ ok bundle)
              × (call_day4_model g request step evidence sequence k
                  ≡ (ok (output, bundle.hashes), record k { world = w })))
    unfolding call_day4_model
    call_model_cases step evidence sequence k =
        elim (Result-cases (g.graph.build (day4_context g request step evidence sequence))) [
          | inr (e, failed) ↦ inl (e, k.world, ground arith)
          | inl (bundle, built) ↦
              let answered = g.graph.gateway_complete bundle.model_request k.world in
              elim (check_cases sequence bundle.hashes answered.0) [
                | inl (e, refused) ↦ inl (e, answered.1, ground arith)
                | inr (output, given) ↦ inr (bundle, output, answered.1, built, ground arith)
              ]
        ]

    -- An answer's hashes are the request's.
    pub call_day4_model-Leaves :
        (step : PromptStep) (evidence : List ContextDatum) (sequence : ℕ) (k : Kept W)
        → IsKept g request k
        → Leaves g request
            (λ answer after. answer.1.config_hash ≡ request.run_scope.config_hash)
            (call_day4_model g request step evidence sequence k)
    call_day4_model-Leaves step evidence sequence k kept =
        elim (call_model_cases step evidence sequence k) [
          | inl (e, w, same) ↦ rw same (
              raising-Leaves g request
                (λ answer after. answer.1.config_hash ≡ request.run_scope.config_hash) e
                (record k { world = w }) kept)
          | inr (bundle, output, w, built, same) ↦
              let inside =
                build-IsWithinBudget p (day4_context g request step evidence sequence) bundle
                  (sym (builds (day4_context g request step evidence sequence)) ∙ built) in
              rw same (
                giving-Leaves g request
                  (λ answer after. answer.1.config_hash ≡ request.run_scope.config_hash)
                  (output, bundle.hashes) (record k { world = w }) inside.config kept)
        ]

    ask_cases :
        (s : Day4State) (k : Kept W)
        → (ask_report g request s k
            ≡ after_call
                (stop_run g request "model_call_limit" s.model_call_count s.tool_call_count s k)
                (λ outcome after. (ok (ended outcome), after)))
          ⊎ ((s.model_call_count < g.graph.loop_policy.max_model_calls)
              × (ask_report g request s k
                  ≡ after_call
                      (call_day4_model g request PromptStep.retail_report
                        (report_evidence g request s)
                        s.model_call_count
                        k)
                      (λ answer.
                        act_on g request
                          (with_call s answer.1)
                          (one_tool_call g request PromptStep.retail_report answer.0))))
    unfolding ask_report
    ask_cases s k = elim (Bool-cases (leb g.graph.loop_policy.max_model_calls s.model_call_count)) [
      | inl over ↦ inl (ground arith)
      | inr free ↦ inr (ground arith, ground arith)
    ]

    ask_report-Leaves :
        (s : Day4State) (k : Kept W)
        → IsReady g request s
        → IsKept g request k
        → Leaves g request (IsReported g request) (ask_report g request s k)
    ask_report-Leaves s k h kept = elim (ask_cases s k) [
      | inl same ↦ rw same (
          stopping-Leaves g request (IsReported g request) ended "model_call_limit"
            s.model_call_count s.tool_call_count s k (λ outcome after over. over) h.sound
            (omega arith) h.sound.within kept)
      | inr (free, same) ↦ rw same (
          after_call-Leaves g request
            (λ answer after. answer.1.config_hash ≡ request.run_scope.config_hash)
            (IsReported g request)
            (call_day4_model g request PromptStep.retail_report (report_evidence g request s)
              s.model_call_count k)
            (λ answer.
              act_on g request (with_call s answer.1)
                (one_tool_call g request PromptStep.retail_report answer.0))
            (call_day4_model-Leaves PromptStep.retail_report (report_evidence g request s)
              s.model_call_count k kept)
            (λ answer after kept2 config.
              act_on-Leaves (with_call s answer.1)
                (one_tool_call g request PromptStep.retail_report answer.0) after
                (with_call-IsCalled g request s answer.1 h config free) kept2))
    ]

    round_cases :
        (s : Day4State) (k : Kept W)
        → (report_round g request s s.pending_call k ≡ ask_report g request s k)
          ⊎ ((call : ToolCall) × (is_proposing s ≡ true)
              × (report_round g request s s.pending_call k ≡ act g request s call k))
    unfolding report_round
    round_cases s k = elim (Option-cases s.pending_call) [
      | inl none_pending ↦ inl (ground arith)
      | inr (call, there) ↦ elim (Bool-cases (is_proposing s)) [
        | inl proposing ↦ inr (call, proposing, ground arith)
        | inr other ↦ inl (ground arith)
      ]
    ]

    pub report_round-Leaves :
        (s : Day4State) (k : Kept W)
        → IsReady g request s
        → IsKept g request k
        → Leaves g request (IsReported g request) (report_round g request s s.pending_call k)
    report_round-Leaves s k h kept = elim (round_cases s k) [
      | inl same ↦ rw same (ask_report-Leaves s k h kept)
      | inr (call, proposing, same) ↦
          rw same (act-Leaves s call k (h, h.sound.proposing proposing) kept)
    ]
