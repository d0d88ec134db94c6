-- ===== src/Orchestration/Day4/Queries.antt =====
-- The loop of `_run_day4` over the steps of the plan
-- (src/commerce_agent/orchestration/retail_graph.py): a candidate of the reasoner for the first
-- pending step, its execution, and then its evidence, a repair or a stop.
use Prim.Native.String.{◌++◌ as ◌+++◌}
use commerce_analyst_agent.Prelude.{
  ℕ, zero, suc, ◌+◌, String, Bool, true, false, ◌||◌, Option, none, some, List, [], ◌∷◌, ◌++◌, leb,
  if◌then◌else◌, string_eq,
}
use commerce_analyst_agent.Prelude.Dict.{Dict, get, put}
use commerce_analyst_agent.Prelude.Outcome.{Result, ok, err, Method, ◌>>>=◌}
use commerce_analyst_agent.RunErrors.{
  RunError, checkpoint_incompatible, other_error, query_engine_error, sql_no_progress, value_error,
}
use commerce_analyst_agent.Orchestration.{QueryPlanStep, RetailRunOutcome, RetailRunRequest}
use commerce_analyst_agent.Orchestration.Day4.{
  Day4Graph, Day4Method, Day4State, EvidenceResult, ProductDbError, QueryResult, SqlCandidate,
  SqlReasoningRequest, execute_query, prepare_plan_step, query_engine, sql_reason, stopped_day4,
  validate_repair_state,
}
use commerce_analyst_agent.Orchestration.Day4.Ends.{cache_and_finish, save_state}

-- `steps = {item.step_id: item for item in plan.steps}`
abbrev pub index_steps : List QueryPlanStep → Dict String QueryPlanStep → Dict String QueryPlanStep
index_steps [] d = d
index_steps (step ∷ steps) d = index_steps steps (put d step.step_id step)

-- One round of the loop goes on with a state, or ends the run.
pub data Round : Type 0 where
  go_on : Day4State → Round
  ended : RetailRunOutcome → Round

-- A round has a candidate for the step, or has ended the run.
pub data Obtained : Type 0 where
  candidate : SqlCandidate → Day4State → Obtained
  no_candidate : RetailRunOutcome → Obtained

abbrev pub is_executing : Day4State → Bool
is_executing s = elim s.current_node [ execute_query ↦ true | _ ↦ false ]

-- `previous.repair_number + 1 if latest_error else 0`
abbrev pub next_repair : Option ProductDbError → Option SqlCandidate → Result RunError ℕ
next_repair none previous = ok 0
next_repair (some error) none = err (other_error "AttributeError")
next_repair (some error) (some previous) = ok (previous.repair_number + 1)

abbrev pub reasoning : RetailRunRequest → String → Day4State → ℕ → SqlReasoningRequest
reasoning request step_id s repair_number = record {
  run_scope = request.run_scope;
  attempt_id = request.attempt_id;
  sequence = s.model_call_count;
  step_id = step_id;
  current_input = request.current_input;
  confirmed_facts = request.confirmed_facts;
  evidence = request.evidence;
  repair_number = repair_number;
  latest_error = s.latest_error;
  previous = s.sql_candidate;
}

abbrev pub with_candidate : Day4State → SqlCandidate → Day4State
with_candidate s made = record s {
  current_node = execute_query;
  model_call_count = s.model_call_count + 1;
  sql_candidate = some made;
}

abbrev pub evidence_of : QueryPlanStep → SqlCandidate → QueryResult → EvidenceResult
evidence_of step made result = record {
  evidence_id = "query:" +++ step.step_id;
  columns = result.columns;
  rows = result.rows;
  query_fingerprint = made.execution_fingerprint.digest;
}

abbrev pub with_evidence : Day4State → List String → EvidenceResult → Day4State
with_evidence s pending evidence = record s {
  current_node = prepare_plan_step;
  tool_call_count = s.tool_call_count + 1;
  pending_plan_step_ids = pending;
  sql_candidate = none;
  latest_error = none;
  query_evidence = s.query_evidence ++ (evidence ∷ []);
}

abbrev pub with_error : Day4State → SqlCandidate → String → Day4State
with_error s made reason_code = record s {
  current_node = sql_reason;
  tool_call_count = s.tool_call_count + 1;
  repair_count = s.repair_count + 1;
  latest_error = some (record {
    source = query_engine;
    reason_code = reason_code;
    retryable = true;
    evidence_digest = made.execution_fingerprint.digest;
  });
}

module _ {W : Type 0} (g : Day4Graph W) (request : RetailRunRequest) where
  abbrev pub stop_run : String → ℕ → ℕ → Day4State → Day4Method W RetailRunOutcome
  stop_run reason_code model_calls tool_calls s =
      cache_and_finish g request
        (stopped_day4 request reason_code model_calls tool_calls s.hashes false) s

  -- `candidate = await self._sql_reasoner.generate(reasoning)` with its `except`, and the save.
  abbrev pub accept_candidate : Day4State → Result RunError SqlCandidate → Day4Method W Obtained
  accept_candidate s (ok made) = save_state g (with_candidate s made) >>>= λ done k.
      (ok (candidate made (with_candidate s made)), k)
  accept_candidate s (err sql_no_progress) =
      stop_run "sql_no_progress" (s.model_call_count + 1) s.tool_call_count s >>>= λ outcome k.
      (ok (no_candidate outcome), k)
  accept_candidate s (err e) = λ k. (err e, k)

  abbrev pub call_reasoner :
      (SqlReasoningRequest → Method RunError W SqlCandidate)
      → Day4State
      → SqlReasoningRequest
      → Day4Method W Obtained
  call_reasoner generate s asked k =
      if validate_repair_state asked
      then accept_candidate s (generate asked k.world).0
          (record k { world = (generate asked k.world).1 })
      else (err value_error, k)

  abbrev pub ask_reasoner :
      (SqlReasoningRequest → Method RunError W SqlCandidate)
      → QueryPlanStep
      → Day4State
      → Result RunError ℕ
      → Day4Method W Obtained
  ask_reasoner generate step s (ok repair_number) =
      call_reasoner generate s (reasoning request step.step_id s repair_number)
  ask_reasoner generate step s (err e) = λ k. (err e, k)

  -- The first half of a round: the kept candidate, a stop at the limit, or a new candidate.
  unfoldable pub obtain :
      (SqlReasoningRequest → Method RunError W SqlCandidate)
      → QueryPlanStep
      → Day4State
      → Option SqlCandidate
      → Day4Method W Obtained
  obtain generate step s kept =
      let fresh =
        if leb g.graph.loop_policy.max_model_calls s.model_call_count
        then (stop_run "model_call_limit" s.model_call_count s.tool_call_count s
            >>>= (λ outcome k. (ok (no_candidate outcome), k)))
        else ask_reasoner generate step s (next_repair s.latest_error s.sql_candidate) in
      elim kept [
        | none ↦ fresh
        | some made ↦ if is_executing s then (λ k. (ok (candidate made s), k)) else fresh
      ]

  -- The second half of a round, after the query engine has answered.
  unfoldable pub conclude :
      QueryPlanStep
      → List String
      → SqlCandidate
      → Day4State
      → Result RunError QueryResult
      → Day4Method W Round
  conclude step pending made s (ok result) =
      let updated = with_evidence s pending (evidence_of step made result) in
      save_state g updated >>>= λ done k. (ok (go_on updated), k)
  conclude step pending made s (err (query_engine_error reason_code)) =
      if leb g.graph.loop_policy.max_repairs made.repair_number
        || leb g.graph.loop_policy.max_repairs s.repair_count
      then (stop_run "sql_repair_limit" s.model_call_count (s.tool_call_count + 1) s
          >>>= (λ outcome k. (ok (ended outcome), k)))
      else (save_state g (with_error s made reason_code)
          >>>= (λ done k. (ok (go_on (with_error s made reason_code)), k)))
  conclude step pending made s (err e) = λ k. (err e, k)

  abbrev pub execute_candidate :
      (String → Method RunError W QueryResult)
      → QueryPlanStep
      → List String
      → Obtained
      → Day4Method W Round
  execute_candidate execute step pending (no_candidate outcome) k = (ok (ended outcome), k)
  execute_candidate execute step pending (candidate made s) k =
      conclude step pending made s (execute made.sql k.world).0
        (record k { world = (execute made.sql k.world).1 })

  module _ (generate : SqlReasoningRequest → Method RunError W SqlCandidate)
      (execute : String → Method RunError W QueryResult) (steps : Dict String QueryPlanStep) where
    -- The body of `while pending_step_ids`.
    unfoldable pub query_round : String → List String → Day4State → Day4Method W Round
    query_round step_id pending s = elim (get steps step_id) [
      | none ↦ λ k. (err (checkpoint_incompatible "plan_step_missing"), k)
      | some step ↦
          obtain generate step s s.sql_candidate >>>= execute_candidate execute step pending
    ]

    -- The loop, on fuel; `none` is its end.
    unfoldable pub query_loop : ℕ → Day4State → Day4Method W (Option Round)
    query_loop zero s k = (ok none, k)
    query_loop (suc fuel) s k = elim s.pending_plan_step_ids [
      | [] ↦ (ok (some (go_on s)), k)
      | step_id ∷ pending ↦ elim (query_round step_id pending s k).0 [
        | err e ↦ (err e, (query_round step_id pending s k).1)
        | ok (ended outcome) ↦ (ok (some (ended outcome)), (query_round step_id pending s k).1)
        | ok (go_on updated) ↦ query_loop fuel updated (query_round step_id pending s k).1
      ]
    ]
