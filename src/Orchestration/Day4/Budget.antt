-- ===== src/Orchestration/Day4/Budget.antt =====
-- The rounds of an investigation against its limit of model calls
-- (src/commerce_agent/orchestration/retail_graph.py, `_run_day4`).
use commerce_analyst_agent.Prelude.{
  string_eq, ℕ, zero, suc, ◌+◌, ◌-◌, ◌*◌, ◌<◌, ◌≡◌, ◌≢◌, ◌⊎◌, refl, String, true, false, none, some,
  List, [], ◌∷◌, inl, inr, arith, Option-cases,
}
use commerce_analyst_agent.Prelude.Dict.{Dict, get}
use commerce_analyst_agent.Prelude.Outcome.{Result, ok, err, Method, after_call, Result-cases}
use commerce_analyst_agent.RunErrors.{RunError, query_engine_error}
use commerce_analyst_agent.Orchestration.{QueryPlanStep, RetailRunRequest}
use commerce_analyst_agent.Orchestration.Day4.{
  Day4Graph, Day4State, Kept, QueryResult, SqlCandidate, SqlReasoningRequest,
}
use commerce_analyst_agent.Orchestration.Day4.Ends.{save_state}
use commerce_analyst_agent.Orchestration.Day4.Queries.{
  candidate, conclude, ended, evidence_of, execute_candidate, go_on, is_executing, no_candidate,
  obtain, query_loop, query_round, with_candidate, with_error, with_evidence,
}

-- What a chain of two calls returns is returned by both.
pub after_ok :
    {E S A B : Type 0} (r : Result E A × S) (f : A → Method E S B) (b : B)
    → (after_call r f).0 ≡ ok b
    → (a : A) × (r.0 ≡ ok a) × ((f a r.1).0 ≡ ok b)
after_ok (ok a, s) f b h = (a, refl, h)
after_ok (err e, s) f b h = absurd (ground arith)

module _ {W : Type 0} (g : Day4Graph W) (request : RetailRunRequest) where
  -- The candidate of a round is the kept one, or a new one within the limit.
  obtain_cases :
      (generate : SqlReasoningRequest → Method RunError W SqlCandidate) (step : QueryPlanStep)
      (s u : Day4State) (made : SqlCandidate) (k : Kept W)
      → (obtain g request generate step s s.sql_candidate k).0 ≡ ok (candidate made u)
      → ((u ≡ s) × (is_executing s ≡ true))
        ⊎ ((s.model_call_count < g.graph.loop_policy.max_model_calls) × (u ≡ with_candidate s made))
  unfolding obtain save_state
  obtain_cases generate step s u made k h = ground arith

  -- A round that goes on has new evidence, or an error and one more repair.
  conclude_cases :
      (step : QueryPlanStep) (pending : List String) (made : SqlCandidate) (u v : Day4State)
      (answer : Result RunError QueryResult) (k : Kept W)
      → (conclude g request step pending made u answer k).0 ≡ ok (go_on v)
      → ((result : QueryResult) × (v ≡ with_evidence u pending (evidence_of step made result)))
        ⊎ ((reason : String) × (v ≡ with_error u made reason))
  unfolding conclude save_state
  conclude_cases step pending made u v (ok result) k h = inl (result, ground arith)
  conclude_cases step pending made u v (err (query_engine_error reason)) k h =
      inr (reason, ground arith)
  conclude_cases step pending made u v (err e) k h = ground arith

  -- Twice the model calls that are left, and one more for a kept candidate.
  unfoldable pub calls_left : Day4State → ℕ
  calls_left s = elim (is_executing s) [
    | true ↦ 2 * (g.graph.loop_policy.max_model_calls - s.model_call_count) + 1
    | false ↦ 2 * (g.graph.loop_policy.max_model_calls - s.model_call_count)
  ]

  module _ (generate : SqlReasoningRequest → Method RunError W SqlCandidate)
      (execute : String → Method RunError W QueryResult) (steps : Dict String QueryPlanStep) where
    -- What a round that goes on has done.
    pub record IsRound (step_id : String) (pending : List String) (s v : Day4State) : Type 0 where
      pub step : QueryPlanStep
      pub made : SqlCandidate
      pub middle : Day4State
      pub found : get steps step_id ≡ some step
      pub obtained :
          ((middle ≡ s) × (is_executing s ≡ true))
          ⊎ ((s.model_call_count < g.graph.loop_policy.max_model_calls)
              × (middle ≡ with_candidate s made))
      pub concluded :
          ((result : QueryResult) × (v
              ≡ with_evidence middle pending (evidence_of step made result)))
          ⊎ ((reason : String) × (v ≡ with_error middle made reason))

    pub query_round-IsRound :
        (step_id : String) (pending : List String) (s v : Day4State) (k : Kept W)
        → (query_round g request generate execute steps step_id pending s k).0 ≡ ok (go_on v)
        → IsRound step_id pending s v
    unfolding query_round
    query_round-IsRound step_id pending s v k h = elim (Option-cases (get steps step_id)) [
      | inl missing ↦ absurd (ground arith)
      | inr (step, found) ↦
          let opened = obtain g request generate step s s.sql_candidate k in
          let both : (after_call opened (execute_candidate g request execute step pending)).0
              ≡ ok (go_on v) =
            ground arith in
          let (made_here, given, answered) =
            after_ok opened (execute_candidate g request execute step pending) (go_on v) both in
          elim made_here
              as (λ o.
                opened.0 ≡ ok o
                → (execute_candidate g request execute step pending o opened.1).0 ≡ ok (go_on v)
                → IsRound step_id pending s v) [
                  | candidate made u ↦ λ a b. record {
                    step = step;
                    made = made;
                    middle = u;
                    found = found;
                    obtained = obtain_cases generate step s u made k a;
                    concluded = conclude_cases step pending made u v _ _ b;
                  }
                  | no_candidate outcome ↦ λ a b. absurd (ground arith)
                ]
            given answered
    ]

    round_calls_left :
        (step_id : String) (pending : List String) (s v : Day4State)
        → IsRound step_id pending s v
        → calls_left v < calls_left s
    unfolding calls_left
    round_calls_left step_id pending s v h = ground arith

    pub query_loop-ends :
        (fuel : ℕ) (s : Day4State) (k : Kept W)
        → calls_left s < fuel
        → (query_loop g request generate execute steps fuel s k).0 ≢ ok none
    unfolding query_loop
    query_loop-ends zero s k enough h = absurd (omega arith)
    query_loop-ends (suc fuel) s k enough h =
        let ids = s.pending_plan_step_ids in
        elim ids as (λ l. s.pending_plan_step_ids ≡ l → ⊥) [
          | [] ↦ λ e. ground arith
          | step_id ∷ pending ↦ λ e.
              let here = query_round g request generate execute steps step_id pending s k in
              elim (Result-cases here.0) [
                | inr (x, failed) ↦ ground arith
                | inl (ended outcome, returned) ↦ ground arith
                | inl (go_on v, returned) ↦ ground (
                  arith,
                  round_calls_left step_id pending s v
                      (query_round-IsRound step_id pending s v k returned),
                  query_loop-ends fuel v here.1,
                )
              ]
        ]
          refl
