-- ===== src/Orchestration/Day4/Candidates.antt =====
-- That a candidate for a step is obtained with sound checkpoints
-- (src/commerce_agent/orchestration/retail_graph.py, `_run_day4`).
use commerce_analyst_agent.Prelude.{
  string_eq, ℕ, ◌+◌, ◌<◌, ◌≡◌, ◌⊎◌, refl, String, true, Option, none, some, List, leb, inl, inr,
  arith, Bool-cases,
}
use commerce_analyst_agent.Prelude.Outcome.{Result, ok, err, Method}
use commerce_analyst_agent.RunErrors.{RunError, sql_no_progress, value_error}
use commerce_analyst_agent.Orchestration.{QueryPlanStep, RetailRunRequest}
use commerce_analyst_agent.Orchestration.Day4.{
  Day4Graph, Day4State, Kept, SqlCandidate, SqlReasoningRequest, validate_repair_state,
}
use commerce_analyst_agent.Orchestration.Day4.Queries.{
  Obtained, accept_candidate, ask_reasoner, candidate, is_executing, next_repair, no_candidate,
  obtain, reasoning, with_candidate,
}
use commerce_analyst_agent.Orchestration.Day4.Chains.{
  giving-Leaves, raising-Leaves, saving-Leaves, stopping-Leaves,
}
use commerce_analyst_agent.Orchestration.Day4.Sound.{IsEnd, IsKept, IsSound, Leaves}

module _ {W : Type 0} (g : Day4Graph W) (request : RetailRunRequest) where
  -- A candidate stands in a sound state that has the same steps pending.
  abbrev pub IsObtained : List String → Obtained → Kept W → Type 0
  IsObtained pending (candidate made u) k =
      IsSound g request u
      × (is_executing u ≡ true)
      × (u.pending_plan_step_ids ≡ pending)
      × (u.terminal ≡ none)
  IsObtained pending (no_candidate outcome) k = IsEnd g request outcome k

  with_candidate-IsSound :
      (s : Day4State) (made : SqlCandidate)
      → IsSound g request s
      → s.terminal ≡ none
      → s.model_call_count < g.graph.loop_policy.max_model_calls
      → IsSound g request (with_candidate s made)
  with_candidate-IsSound s made h live free = record {
    schema = h.schema;
    nodes = h.nodes;
    config = h.config;
    asked = h.asked;
    within = omega arith;
    in_order = h.in_order;
    counted = omega (arith, h.counted);
    reported = λ value e. absurd (ground arith);
    proposing = λ e. absurd (ground arith);
  }

  accept_err :
      (s : Day4State) (k : Kept W) (e : RunError)
      → (e ≡ sql_no_progress) ⊎ (accept_candidate g request s (err e) k ≡ (err e, k))
  accept_err s k e = ground arith

  accept_candidate-Leaves :
      (s : Day4State) (answer : Result RunError SqlCandidate) (k : Kept W)
      → IsSound g request s
      → s.terminal ≡ none
      → s.model_call_count < g.graph.loop_policy.max_model_calls
      → IsKept g request k
      → Leaves g request
          (IsObtained s.pending_plan_step_ids)
          (accept_candidate g request s answer k)
  accept_candidate-Leaves s (ok made) k h live free kept =
      let sound = with_candidate-IsSound s made h live free in
      saving-Leaves g request (IsObtained s.pending_plan_step_ids)
        (candidate made (with_candidate s made)) (with_candidate s made) k
        (λ after. (sound, refl, refl, live)) sound kept
  accept_candidate-Leaves s (err e) k h live free kept = elim (accept_err s k e) [
    | inl none_new ↦ rw none_new (
        stopping-Leaves g request (IsObtained s.pending_plan_step_ids) no_candidate
          "sql_no_progress" (s.model_call_count + 1) s.tool_call_count s k
          (λ outcome after over. over) h (omega arith) (omega arith) kept)
    | inr raises ↦ rw raises (kept, λ a never. absurd (ground arith))
  ]

  ask_reasoner-Leaves :
      (generate : SqlReasoningRequest → Method RunError W SqlCandidate) (step : QueryPlanStep)
      (s : Day4State) (number : Result RunError ℕ) (k : Kept W)
      → IsSound g request s
      → s.terminal ≡ none
      → s.model_call_count < g.graph.loop_policy.max_model_calls
      → IsKept g request k
      → Leaves g request
          (IsObtained s.pending_plan_step_ids)
          (ask_reasoner g request generate step s number k)
  ask_reasoner-Leaves generate step s (err e) k h live free kept =
      raising-Leaves g request (IsObtained s.pending_plan_step_ids) e k kept
  ask_reasoner-Leaves generate step s (ok number) k h live free kept =
      let asked = reasoning request step.step_id s number in
      elim (Bool-cases (validate_repair_state asked)) [
        | inl valid ↦ rw valid (
            accept_candidate-Leaves s (generate asked k.world).0
              (record { world = (generate asked k.world).1; saved = k.saved }) h live free kept)
        | inr refused ↦
            rw refused
              (raising-Leaves g request (IsObtained s.pending_plan_step_ids) value_error k kept)
      ]

  fresh-Leaves :
      (generate : SqlReasoningRequest → Method RunError W SqlCandidate) (step : QueryPlanStep)
      (s : Day4State) (k : Kept W)
      → IsSound g request s
      → s.terminal ≡ none
      → IsKept g request k
      → Leaves g request
          (IsObtained s.pending_plan_step_ids)
          (obtain g request generate step s none k)
  unfolding obtain
  fresh-Leaves generate step s k h live kept =
      elim (Bool-cases (leb g.graph.loop_policy.max_model_calls s.model_call_count)) [
        | inl spent ↦ rw spent (
            stopping-Leaves g request (IsObtained s.pending_plan_step_ids) no_candidate
              "model_call_limit" s.model_call_count s.tool_call_count s k
              (λ outcome after over. over) h (omega arith) h.within kept)
        | inr free ↦ rw free (
            ask_reasoner-Leaves generate step s (next_repair s.latest_error s.sql_candidate) k h
              live (ground arith) kept)
      ]

  pub obtain-Leaves :
      (generate : SqlReasoningRequest → Method RunError W SqlCandidate) (step : QueryPlanStep)
      (s : Day4State) (held : Option SqlCandidate) (k : Kept W)
      → IsSound g request s
      → s.terminal ≡ none
      → IsKept g request k
      → Leaves g request
          (IsObtained s.pending_plan_step_ids)
          (obtain g request generate step s held k)
  unfolding obtain
  obtain-Leaves generate step s none k h live kept = fresh-Leaves generate step s k h live kept
  obtain-Leaves generate step s (some made) k h live kept = elim (Bool-cases (is_executing s)) [
    | inl busy ↦ rw busy (
        giving-Leaves g request (IsObtained s.pending_plan_step_ids) (candidate made s) k
          (h, busy, refl, live) kept)
    | inr idle ↦ rw idle (fresh-Leaves generate step s k h live kept)
  ]
  -- The evidence of the first pending step takes its place.
