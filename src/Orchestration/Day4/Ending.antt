-- ===== src/Orchestration/Day4/Ending.antt =====
-- The end of `_run_day4` (src/commerce_agent/orchestration/retail_graph.py) within its fuel.
use commerce_analyst_agent.Prelude.{
  string_eq, ℕ, zero, suc, ◌+◌, ◌-◌, ◌*◌, ◌≤◌, ◌<◌, ◌≡◌, ◌≢◌, ◌⊎◌, refl, String, true, false,
  Option, none, some, List, [], inl, inr, arith, Bool-cases, Option-cases, leb,
}
use commerce_analyst_agent.Prelude.Outcome.{ok, err, Method, after_call, Result-cases}
use commerce_analyst_agent.RunErrors.{RunError}
use commerce_analyst_agent.Model.{Hashes, ToolCall}
use commerce_analyst_agent.Context.{PromptStep}
use commerce_analyst_agent.Orchestration.{RetailRunOutcome, RetailRunRequest}
use commerce_analyst_agent.Orchestration.Day4.{
  Day4Graph, Day4State, Kept, QueryResult, SqlCandidate, SqlReasoningRequest,
}
use commerce_analyst_agent.Orchestration.Day4.Ends.{save_state}
use commerce_analyst_agent.Orchestration.Day4.Queries.{Round, ended, go_on, index_steps, query_loop}
use commerce_analyst_agent.Orchestration.Day4.Reports.{
  act, act_on, ask_report, call_day4_model, is_proposing, one_tool_call, propose_operation,
  reconcile, report_evidence, report_loop, report_round, submit_report, with_call, with_pending,
  with_proposals,
}
use commerce_analyst_agent.Orchestration.Day4.Runs.{
  conclude_run, investigate, investigate_with, open_run, run_day4,
}
use commerce_analyst_agent.Orchestration.Day4.Budget.{after_ok, calls_left, query_loop-ends}

module _ {W : Type 0} (g : Day4Graph W) (request : RetailRunRequest) where
  -- A proposal goes on with the references that the tool returned.
  act_cases :
      (s v : Day4State) (call : ToolCall) (k : Kept W)
      → (act g request s call k).0 ≡ ok (go_on v)
      → (refs : List String) × (v ≡ with_proposals (with_pending s call) refs)
  unfolding act propose_operation submit_report save_state
  act_cases s v call k h = elim (Option-cases g.dispatch) [
    | inl missing ↦ absurd (ground arith)
    | inr (dispatch, given) ↦
        elim (Result-cases
          (dispatch request.run_scope request.attempt_id call
            (g.update_state (with_pending s call) k.world).1).0) [
              | inr (e, failed) ↦ absurd (ground arith)
              | inl (result, returned) ↦ (result.source_refs, ground arith)
            ]
  ]

  -- A round that goes on has acted on the kept call, or on one of a new model call.
  pub record IsReportRound (s v : Day4State) : Type 0 where
    pub middle : Day4State
    pub call : ToolCall
    pub refs : List String
    pub asked :
        ((middle ≡ s) × (is_proposing s ≡ true))
        ⊎ ((hashes : Hashes) × (s.model_call_count < g.graph.loop_policy.max_model_calls)
            × (middle ≡ with_call s hashes))
    pub proposed : v ≡ with_proposals (with_pending middle call) refs

  ask_report-IsReportRound :
      (s v : Day4State) (k : Kept W)
      → (ask_report g request s k).0 ≡ ok (go_on v)
      → IsReportRound s v
  unfolding ask_report
  ask_report-IsReportRound s v k h =
      let answered =
        call_day4_model g request PromptStep.retail_report (report_evidence g request s)
          s.model_call_count k in
      elim (Bool-cases (leb g.graph.loop_policy.max_model_calls s.model_call_count)) [
        | inl spent ↦ absurd (ground arith)
        | inr free ↦
            let both : (after_call answered (λ a.
              act_on g request (with_call s a.1)
                (one_tool_call g request PromptStep.retail_report a.0))).0
                ≡ ok (go_on v) =
              ground arith in
            let (a, given, acted) = after_ok answered _ (go_on v) both in
            elim (Result-cases (one_tool_call g request PromptStep.retail_report a.0)) [
              | inr (x, failed) ↦ absurd (ground arith)
              | inl (call, named) ↦
                  let (refs, same) = act_cases (with_call s a.1) v call answered.1 (ground arith) in
                  record {
                    middle = with_call s a.1;
                    call = call;
                    refs = refs;
                    asked = inr (a.1, ground arith, refl);
                    proposed = same;
                  }
            ]
      ]

  report_round-IsReportRound :
      (s v : Day4State) (k : Kept W)
      → (report_round g request s s.pending_call k).0 ≡ ok (go_on v)
      → IsReportRound s v
  unfolding report_round
  report_round-IsReportRound s v k h = elim (Option-cases s.pending_call) [
    | inl nothing ↦ ask_report-IsReportRound s v k (ground arith)
    | inr (call, pending) ↦ elim (Bool-cases (is_proposing s)) [
      | inr other ↦ ask_report-IsReportRound s v k (ground arith)
      | inl proposing ↦
          let (refs, same) = act_cases s v call k (ground arith) in
          record {
            middle = s;
            call = call;
            refs = refs;
            asked = inl (refl, proposing);
            proposed = same;
          }
    ]
  ]

  unfoldable pub reports_left : Day4State → ℕ
  reports_left s = elim (is_proposing s) [
    | true ↦ 2 * (g.graph.loop_policy.max_model_calls - s.model_call_count) + 1
    | false ↦ 2 * (g.graph.loop_policy.max_model_calls - s.model_call_count)
  ]

  round_reports_left : (s v : Day4State) → IsReportRound s v → reports_left v < reports_left s
  unfolding reports_left
  round_reports_left s v h = ground arith

  report_loop-ends :
      (fuel : ℕ) (s : Day4State) (k : Kept W)
      → reports_left s < fuel
      → (report_loop g request fuel s k).0 ≢ ok none
  unfolding report_loop
  report_loop-ends zero s k enough h = absurd (omega arith)
  report_loop-ends (suc fuel) s k enough h =
      let here = report_round g request s s.pending_call k in
      elim (Result-cases here.0) [
        | inr (x, failed) ↦ ground arith
        | inl (ended outcome, returned) ↦ ground arith
        | inl (go_on v, returned) ↦ ground (
          arith,
          round_reports_left s v (report_round-IsReportRound s v k returned),
          report_loop-ends fuel v here.1,
        )
      ]

  -- As many rounds as a loop can take.
  abbrev pub day4_fuel : ℕ
  day4_fuel = 2 * g.graph.loop_policy.max_model_calls + 2

  calls_left_lt : (s : Day4State) → calls_left g request s < day4_fuel
  unfolding calls_left
  calls_left_lt s = ground arith

  reports_left_lt : (s : Day4State) → reports_left s < day4_fuel
  unfolding reports_left
  reports_left_lt s = ground arith

  conclude_run-ends :
      (fuel : ℕ) (r : Option Round) (k : Kept W)
      → day4_fuel ≤ fuel
      → r ≢ none
      → (conclude_run g request fuel r k).0 ≢ ok none
  conclude_run-ends fuel none k enough some_round h = some_round refl
  conclude_run-ends fuel (some (ended outcome)) k enough some_round h = ground arith
  conclude_run-ends fuel (some (go_on s)) k enough some_round h =
      let (t, given, rest) =
        after_ok (reconcile g request s k) (report_loop g request fuel) none h in
      report_loop-ends fuel t (reconcile g request s k).1 (omega (arith, reports_left_lt t)) rest

  investigate_with-ends :
      (fuel : ℕ) (generate : Option (SqlReasoningRequest → Method RunError W SqlCandidate))
      (execute : Option (String → Method RunError W QueryResult)) (s : Day4State) (k : Kept W)
      → day4_fuel ≤ fuel
      → (investigate_with g request fuel generate execute s k).0 ≢ ok none
  investigate_with-ends fuel (some generate) (some execute) s k enough h =
      elim (Option-cases s.investigation_plan) [
        | inl missing ↦ ground arith
        | inr (plan, found) ↦
            let looped =
              query_loop g request generate execute (index_steps plan.steps []) fuel s k in
            let both : (after_call looped (conclude_run g request fuel)).0 ≡ ok none =
              ground arith in
            let (r, given, rest) = after_ok looped (conclude_run g request fuel) none both in
            conclude_run-ends fuel r looped.1 enough
              (λ e.
                query_loop-ends g request generate execute (index_steps plan.steps []) fuel s k
                  (omega (arith, calls_left_lt s)) (rw e at given))
              rest
      ]
  investigate_with-ends fuel (some generate) none s k enough h = ground arith
  investigate_with-ends fuel none execute s k enough h = ground arith

  investigate-ends :
      (fuel : ℕ) (r : Round) (k : Kept W)
      → day4_fuel ≤ fuel
      → (investigate g request fuel r k).0 ≢ ok none
  investigate-ends fuel (ended outcome) k enough h = ground arith
  investigate-ends fuel (go_on s) k enough h =
      investigate_with-ends fuel g.generate g.execute s k enough h

  run_day4_enough :
      (fuel : ℕ) (k : Kept W) → day4_fuel ≤ fuel → (run_day4 g request fuel k).0 ≢ ok none
  unfolding run_day4
  run_day4_enough fuel k enough h =
      let opened = open_run g request k.saved k in
      let (r, given, rest) = after_ok opened (investigate g request fuel) none h in
      investigate-ends fuel r opened.1 enough rest

  -- A run, whatever checkpoint is kept, returns or raises: twice the limit of model calls and two
  -- rounds are enough for each of its loops.
  pub run_day4-ends :
      (fuel : ℕ) (k : Kept W)
      → day4_fuel ≤ fuel
      → ((outcome : RetailRunOutcome) × ((run_day4 g request fuel k).0 ≡ ok (some outcome)))
        ⊎ ((e : RunError) × ((run_day4 g request fuel k).0 ≡ err e))
  run_day4-ends fuel k enough = elim (Result-cases (run_day4 g request fuel k).0) [
    | inr (e, raises) ↦ inr (e, raises)
    | inl (some outcome, returns) ↦ inl (outcome, returns)
    | inl (none, spent) ↦ absurd (run_day4_enough fuel k enough spent)
  ]
