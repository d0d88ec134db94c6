-- ===== src/Orchestration/Day4/Reports.antt =====
-- The end of `_run_day4` (src/commerce_agent/orchestration/retail_graph.py): the reconciliation, and
-- the loop in which the model proposes operations until it submits its report. Also
-- `_call_day4_model` and `_one_tool_call`.
use commerce_analyst_agent.Prelude.{
  ℕ, zero, suc, ◌+◌, String, Bool, true, false, not, ◌&&◌, Option, none, some, List, [], ◌∷◌, ◌++◌,
  map, all, any, contains, leb, nat_beq, if◌then◌else◌, ◌==◌, string_eq,
}
use commerce_analyst_agent.Prelude.Outcome.{Result, ok, err, ◌>>>=◌}
use commerce_analyst_agent.Turns.{ProviderTurnRef}
use commerce_analyst_agent.RunErrors.{RunError, missing_key, tool_contract_error}
use commerce_analyst_agent.Model.{Hashes, ModelOutput, ModelResponse, ToolCall, ToolResult}
use commerce_analyst_agent.Context.{
  ContextDatum, ContextRequest, DataNamespace, DatumKind, PromptStep,
}
use commerce_analyst_agent.Context.Checks.{rule_of}
use commerce_analyst_agent.Orchestration.{
  InvestigationReport, RetailRunOutcome, RetailRunRequest, completed, report,
  validate_evidence_and_sensitivity,
}
use commerce_analyst_agent.Orchestration.Day4.{
  Day4Graph, Day4Method, Day4State, EvidenceResult, ReconciliationResult, contains_text,
  create_proposal, day4_outcome, prepare_report,
}
use commerce_analyst_agent.Orchestration.Day4.Ends.{cache_and_finish, lift, save_state}
use commerce_analyst_agent.Orchestration.Day4.Queries.{Round, ended, go_on, stop_run}

abbrev pub only_call : ModelOutput → Option ToolCall
only_call (ModelOutput.tool_calls (call ∷ [])) = some call
only_call _ = none

abbrev pub with_reconciliation : Day4State → ReconciliationResult → Day4State
with_reconciliation s result = record s {
  current_node = prepare_report;
  reconciliation = some result;
}

abbrev pub is_proposing : Day4State → Bool
is_proposing s = elim s.current_node [ create_proposal ↦ true | _ ↦ false ]

abbrev pub with_call : Day4State → Hashes → Day4State
with_call s hashes = record s {
  model_call_count = s.model_call_count + 1;
  tool_call_count = s.tool_call_count + 1;
  hashes = hashes;
}

abbrev pub with_pending : Day4State → ToolCall → Day4State
with_pending s call = record s { current_node = create_proposal; pending_call = some call }

abbrev pub with_proposals : Day4State → List String → Day4State
with_proposals s refs = record s {
  current_node = prepare_report;
  pending_call = none;
  proposal_refs = s.proposal_refs ++ refs;
}

module _ {W : Type 0} (g : Day4Graph W) (request : RetailRunRequest) where
  abbrev pub day4_context : PromptStep → List ContextDatum → ℕ → ContextRequest
  day4_context step evidence sequence = record {
    run_scope = request.run_scope;
    attempt_id = request.attempt_id;
    sequence = sequence;
    profile = g.graph.profile;
    step = step;
    current_input = request.current_input;
    confirmed_facts = request.confirmed_facts;
    evidence = evidence;
    latest_error = none;
    history = [];
  }

  abbrev pub is_bound_here : ℕ → ProviderTurnRef → Bool
  is_bound_here sequence ref =
      (ref.scope_digest == g.graph.scope_digest request.run_scope)
      && nat_beq ref.attempt_id request.attempt_id
      && nat_beq ref.sequence sequence

  abbrev pub check_response :
      ℕ → Hashes → Result RunError ModelResponse → Result RunError (ModelOutput × Hashes)
  check_response sequence hashes (ok response) =
      if is_bound_here sequence response.provider_turn_ref
      then ok (response.output, hashes)
      else err (tool_contract_error "model_response_binding_mismatch")
  check_response sequence hashes (err e) = err e

  -- `_call_day4_model`
  unfoldable pub call_day4_model :
      PromptStep → List ContextDatum → ℕ → Day4Method W (ModelOutput × Hashes)
  call_day4_model step evidence sequence k =
      elim (g.graph.build (day4_context step evidence sequence)) [
        | err e ↦ (err e, k)
        | ok bundle ↦
            let answered = lift (g.graph.gateway_complete bundle.model_request) k in
            (check_response sequence bundle.hashes answered.0, answered.1)
      ]

  -- `_one_tool_call`
  unfoldable pub one_tool_call : PromptStep → ModelOutput → Result RunError ToolCall
  one_tool_call step output = elim (only_call output) [
    | none ↦ err (tool_contract_error "typed_retail_action_required")
    | some call ↦ elim (rule_of step g.graph.profile.inference_rules) [
      | none ↦ err missing_key
      | some rule ↦
          if contains call.name rule.tool_names
          then ok call
          else err (tool_contract_error "tool_not_allowed_for_step")
    ]
  ]

  -- The value that is stored as reconciliation when none is stored yet.
  abbrev pub new_reconciliation : List EvidenceResult → ReconciliationResult
  new_reconciliation evidence =
      let digest = g.sha256_hex (g.evidence_list_json evidence) in
      record {
        passed = true;
        checks =
            record {
              rule_type = "null";
              passed = true;
              reason_code = "reconciled";
              actual_digest = digest;
              expected_digest = digest;
            }
            ∷ [];
      }

  -- The reconciliation that is kept, or a new one that is kept then.
  unfoldable pub reconcile : Day4State → Day4Method W Day4State
  reconcile s = elim s.reconciliation [
    | some result ↦ λ k. (ok s, k)
    | none ↦
        let updated = with_reconciliation s (new_reconciliation s.query_evidence) in
        save_state g updated >>>= λ done k. (ok updated, k)
  ]

  abbrev pub product_datum : String → String → String → ContextDatum
  product_datum source_ref revision content = record {
    kind = DatumKind.tool_result;
    namespace = DataNamespace.product_query_result;
    source_ref = source_ref;
    revision = some revision;
    content = content;
    digest = g.sha256_hex content;
  }

  -- `_query_evidence_datum`
  abbrev pub query_evidence_datum : EvidenceResult → ContextDatum
  query_evidence_datum evidence =
      product_datum evidence.evidence_id "query-evidence-v1" (g.evidence_json evidence)

  abbrev pub reconciliation_data : Option ReconciliationResult → List ContextDatum
  reconciliation_data none = []
  reconciliation_data (some result) =
      product_datum "reconciliation:plan" "reconciliation-v1" (g.reconciliation_json result) ∷ []

  -- `report_evidence`
  abbrev pub report_evidence : Day4State → List ContextDatum
  report_evidence s =
      map query_evidence_datum s.query_evidence ++ reconciliation_data s.reconciliation

  -- The proposal branch after the dispatcher has answered.
  abbrev pub proposed : Day4State → Result RunError ToolResult → Day4Method W Round
  proposed s (ok result) = save_state g (with_proposals s result.source_refs) >>>= λ done k.
      (ok (go_on (with_proposals s result.source_refs)), k)
  proposed s (err e) = λ k. (err e, k)

  -- `if call.name == "propose_operation"`
  unfoldable pub propose_operation : Day4State → ToolCall → Day4Method W Round
  propose_operation s call = elim g.dispatch [
    | none ↦
        stop_run g request "operation_workflow_unavailable" s.model_call_count s.tool_call_count s
        >>>= λ outcome k. (ok (ended outcome), k)
    | some dispatch ↦ save_state g (with_pending s call) >>>= λ done k.
        proposed (with_pending s call)
          (dispatch request.run_scope request.attempt_id call k.world).0
          (record k { world = (dispatch request.run_scope request.attempt_id call k.world).1 })
  ]

  -- Every kept proposal reference names a proposal that the report declares.
  abbrev pub declares : InvestigationReport → List String → Bool
  declares value refs =
      all
        (λ ref.
          any (λ declared. contains_text (g.uuid_str declared.proposal_id) ref) value.proposal_refs)
        refs

  -- The last part of a round: the report.
  unfoldable pub submit_report : Day4State → ToolCall → Day4Method W Round
  submit_report s call = elim (g.report_of call.arguments_json) [
    | none ↦ λ k. (err (tool_contract_error "invalid_tool_arguments"), k)
    | some value ↦
        if not (validate_evidence_and_sensitivity value)
        then (λ k. (err (tool_contract_error "invalid_tool_arguments"), k))
        else if not (declares value s.proposal_refs)
        then (λ k. (err (tool_contract_error "proposal_reference_mismatch"), k))
        else (cache_and_finish g request
              (day4_outcome request completed (some (report value)) none s.model_call_count
                s.tool_call_count s.hashes)
              s
            >>>= (λ outcome k. (ok (ended outcome), k)))
  ]

  unfoldable pub act : Day4State → ToolCall → Day4Method W Round
  act s call =
      if call.name == "propose_operation"
      then propose_operation s call
      else if call.name == "submit_investigation_report"
      then submit_report s call
      else (λ k. (err (tool_contract_error "investigation_report_required"), k))

  abbrev pub act_on : Day4State → Result RunError ToolCall → Day4Method W Round
  act_on s (ok call) = act s call
  act_on s (err e) = λ k. (err e, k)

  -- A round with a new model call.
  unfoldable pub ask_report : Day4State → Day4Method W Round
  ask_report s =
      if leb g.graph.loop_policy.max_model_calls s.model_call_count
      then (stop_run g request "model_call_limit" s.model_call_count s.tool_call_count s
          >>>= (λ outcome k. (ok (ended outcome), k)))
      else (call_day4_model PromptStep.retail_report (report_evidence s) s.model_call_count
          >>>= (λ answer.
              act_on (with_call s answer.1) (one_tool_call PromptStep.retail_report answer.0)))

  -- The body of `while True`.
  unfoldable pub report_round : Day4State → Option ToolCall → Day4Method W Round
  report_round s pending = elim pending [
    | none ↦ ask_report s
    | some call ↦ if is_proposing s then act s call else ask_report s
  ]

  -- The loop, on fuel; `none` is its end.
  unfoldable pub report_loop : ℕ → Day4State → Day4Method W (Option RetailRunOutcome)
  report_loop zero s k = (ok none, k)
  report_loop (suc fuel) s k = elim (report_round s s.pending_call k).0 [
    | err e ↦ (err e, (report_round s s.pending_call k).1)
    | ok (ended outcome) ↦ (ok (some outcome), (report_round s s.pending_call k).1)
    | ok (go_on updated) ↦ report_loop fuel updated (report_round s s.pending_call k).1
  ]
