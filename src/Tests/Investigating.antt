-- ===== src/Tests/Investigating.antt =====
-- The theorems on investigations, applied.
use commerce_analyst_agent.Prelude.{
  ℕ, zero, suc, ◌≡◌, ◌⊎◌, refl, String, none, some, [], ◌∷◌, arith,
}
use commerce_analyst_agent.Prelude.Outcome.{Result, ok, err, Method}
use commerce_analyst_agent.Prelude.Dict.{get, put, remove}
use commerce_analyst_agent.Turns.{TurnStore, delete_attempt}
use commerce_analyst_agent.RunErrors.{RunError}
use commerce_analyst_agent.Model.{
  FinishReason, ModelOutput, ModelRequest, ModelResponse, is_closed, names_match, non_thinking,
  validate_closed_exchange, validate_error_class,
}
use commerce_analyst_agent.Context.{DataNamespace, InferenceRule, PromptStep, RunProfile}
use commerce_analyst_agent.Context.Checks.{
  BuilderPorts, check_datum, check_group, check_history, has_expected_scope, insert_new,
  is_valid_group, rule_of, sorted_set, validate_request,
}
use commerce_analyst_agent.Context.Trimming.{
  compress_groups, compress_results, drop_groups, estimate, messages, model_request,
  removed_evidence, retained_evidence, same_identity, weigh,
}
use commerce_analyst_agent.Context.Builder.{build, build_with, finish, seal, trim}
use commerce_analyst_agent.Orchestration.{
  InvestigationPlan, InvestigationReport, RetailRunOutcome, QueryPlanStep, RetailRunRequest,
  StepKind, baseline, completed, drilldown, report, validate_evidence_and_sensitivity,
  validate_plan_shape,
}
use commerce_analyst_agent.Orchestration.Retail.{validate_policy}
use commerce_analyst_agent.Orchestration.Day4.{
  Day4Graph, FingerprintKind, Kept, QueryResult, SqlCandidate, SqlFingerprint, SqlReasoningRequest,
  day4_outcome, execution, new_state, structural, validate_repair_state,
}
use commerce_analyst_agent.Orchestration.Day4.Ends.{
  cache_and_finish, cleanup_failed, finish_day4, restore_outcome, save_state,
}
use commerce_analyst_agent.Orchestration.Day4.Queries.{
  conclude, index_steps, obtain, query_loop, query_round,
}
use commerce_analyst_agent.Orchestration.Day4.Reports.{
  act, ask_report, call_day4_model, one_tool_call, reconcile, report_loop, report_round,
  submit_report,
}
use commerce_analyst_agent.Orchestration.Day4.Runs.{begin, decide, reopen, run_day4}
use commerce_analyst_agent.Orchestration.Day4.Ending.{run_day4-ends}
use commerce_analyst_agent.Orchestration.Day4.Sound.{IsKept, Leaves}
use commerce_analyst_agent.Orchestration.Day4.Keeping.{IsRan}
use commerce_analyst_agent.Orchestration.Day4.Outcomes.{run_day4-Leaves, run_day4_idempotent}
use commerce_analyst_agent.Tests.Assembling.{builder, datum, hashes_of_trimmed, profile, turn_ref}
use commerce_analyst_agent.Tests.Running.{asked, held, working}

-- A run of two queries, over tools that work.
abbrev fingerprint : FingerprintKind → SqlFingerprint
fingerprint kind = record { kind = kind; digest = "query"; parser_version = "p1" }

abbrev made : SqlCandidate
made = record {
  sql = "select 1";
  step_id = "step";
  repair_number = 0;
  evidence_refs = [];
  structural_fingerprint = fingerprint structural;
  execution_fingerprint = fingerprint execution;
}

abbrev reason : SqlReasoningRequest → Method RunError TurnStore SqlCandidate
reason request w = (ok made, w)

abbrev query : String → Method RunError TurnStore QueryResult
query sql w = (ok (record { columns = "one" ∷ []; rows = ("1" ∷ []) ∷ [] }), w)

abbrev step_of : String → StepKind → QueryPlanStep
step_of step_id kind = record {
  step_id = step_id;
  kind = kind;
  question = "how many";
  measures = "orders" ∷ [];
  grains = [];
  evidence_refs = "a" ∷ [];
  reconciliation_rule_refs = [];
}

abbrev plan : InvestigationPlan
plan = record {
  conversation_id = "conversation";
  plan_id = 1;
  steps = step_of "step" baseline ∷ step_of "detail" drilldown ∷ [];
  evidence_refs = "a" ∷ [];
  reconciliation_rule_refs = [];
  stop_conditions = [];
}

abbrev written : InvestigationReport
written = record {
  conversation_id = "conversation";
  report_id = 2;
  claims = [];
  evidence_ids = "query:step" ∷ [];
  limitations = [];
  reconciliation_refs = [];
  proposal_refs = [];
  selected_risk_status = none;
  sensitivity_comparison = none;
}

abbrev rule : PromptStep → String → InferenceRule
rule step tool = record { step = step; inference = non_thinking "0" 4096; tool_names = tool ∷ [] }

abbrev planning : RunProfile
planning = record profile {
  allowed_namespaces = DataNamespace.retail_knowledge ∷ DataNamespace.product_query_result ∷ [];
  inference_rules =
      rule PromptStep.retail_decide "submit_investigation_plan"
      ∷ rule PromptStep.retail_report "submit_investigation_report"
      ∷ [];
}

abbrev planner : BuilderPorts
planner = record builder { registered = λ key. ok planning }

-- The first call gives a plan, a later one the report.
abbrev submission : ℕ → String
submission sequence = elim sequence [
  | zero ↦ "submit_investigation_plan"
  | suc n ↦ "submit_investigation_report"
]

abbrev submitted : ModelRequest → Result RunError ModelResponse
submitted request = ok (record {
  output =
      ModelOutput.tool_calls (
        record { call_id = "call"; name = submission request.sequence; arguments_json = "{}" }
        ∷ []);
  provider_turn_ref = turn_ref request.sequence ("call" ∷ []);
  finish_reason = FinishReason.tool_calls;
  actual_model = "m";
})

abbrev investigating : Day4Graph TurnStore
investigating = record {
  graph = record working {
    build = build planner;
    profile = planning;
    gateway_complete = λ request w. (submitted request, w);
    loop_policy = record working.loop_policy { max_model_calls = 4 };
  };
  generate = some reason;
  execute = some query;
  dispatch = none;
  update_state = λ s w. (ok tt, w);
  clarification_of = λ text. none;
  plan_of = λ text. some plan;
  report_of = λ text. some written;
  evidence_json = λ value. "{}";
  evidence_list_json = λ values. "[]";
  reconciliation_json = λ value. "{}";
  sha256_hex = λ text. "digest";
  uuid_str = λ value. "id";
}

abbrev unsaved : Kept TurnStore
unsaved = record { world = held; saved = none }

abbrev posed : RetailRunRequest
posed = record asked { evidence = datum "a" ∷ [] }

run_day4-ends_example :
    ((o : RetailRunOutcome) × ((run_day4 investigating posed 10 unsaved).0 ≡ ok (some o)))
    ⊎ ((e : RunError) × ((run_day4 investigating posed 10 unsaved).0 ≡ err e))
run_day4-ends_example = run_day4-ends investigating posed 10 unsaved (omega arith)

unsaved-IsKept : IsKept investigating posed unsaved
unsaved-IsKept s never = absurd (ground arith)

run_day4-Leaves_example :
    Leaves investigating posed (IsRan investigating posed) (run_day4 investigating posed 10 unsaved)
unfolding validate_policy
run_day4-Leaves_example =
    run_day4-Leaves investigating posed planner (λ r. refl) 10 unsaved refl unsaved-IsKept

abbrev reported : RetailRunOutcome
reported = day4_outcome posed completed (some (report written)) none 4 4 hashes_of_trimmed

ran : (run_day4 investigating posed 10 unsaved).0 ≡ ok (some reported)
unfolding run_day4 begin reopen decide call_day4_model one_tool_call new_state reconcile report_loop
    report_round ask_report act submit_report query_loop query_round obtain conclude save_state
    cache_and_finish finish_day4 restore_outcome index_steps get put validate_repair_state
    validate_plan_shape validate_evidence_and_sensitivity build build_with trim finish seal
    validate_request has_expected_scope check_datum check_history check_group is_valid_group
    sorted_set insert_new rule_of validate_error_class is_closed validate_closed_exchange
    names_match weigh compress_groups compress_results drop_groups estimate messages model_request
    same_identity removed_evidence retained_evidence delete_attempt remove
ran = refl

run_day4_idempotent_example :
    ((desired : RetailRunOutcome) × (reported ≡ cleanup_failed investigating posed desired))
    ⊎ (run_day4 investigating posed 0 (run_day4 investigating posed 10 unsaved).1
        ≡ (ok (some reported), (run_day4 investigating posed 10 unsaved).1))
unfolding validate_policy
run_day4_idempotent_example =
    run_day4_idempotent investigating posed planner (λ r. refl) 10 0 unsaved reported refl
      unsaved-IsKept ran
