-- ===== src/Orchestration/Day4/Keeping.antt =====
-- That an investigation keeps sound checkpoints from its plan to its end
-- (src/commerce_agent/orchestration/retail_graph.py, `_run_day4`).
use commerce_analyst_agent.Prelude.{
  string_eq, ℕ, zero, suc, ◌≡◌, ◌⊎◌, refl, String, Option, none, some, [], inl, inr, arith,
  Option-cases,
}
use commerce_analyst_agent.Prelude.Outcome.{Result, ok, err, Method, after_call, Result-cases}
use commerce_analyst_agent.RunErrors.{RunError, checkpoint_incompatible}
use commerce_analyst_agent.Context.{ContextRequest}
use commerce_analyst_agent.Context.Checks.{BuilderPorts}
use commerce_analyst_agent.Context.Builder.{build}
use commerce_analyst_agent.Orchestration.{InvestigationPlan, RetailRunOutcome, RetailRunRequest}
use commerce_analyst_agent.Orchestration.Day4.{
  Day4Graph, Day4State, Kept, QueryResult, SqlCandidate, SqlReasoningRequest,
}
use commerce_analyst_agent.Orchestration.Day4.Ends.{save_state}
use commerce_analyst_agent.Orchestration.Day4.Queries.{Round, ended, go_on, index_steps, query_loop}
use commerce_analyst_agent.Orchestration.Day4.Reports.{
  new_reconciliation, reconcile, report_loop, report_round, with_reconciliation,
}
use commerce_analyst_agent.Orchestration.Day4.Runs.{conclude_run, investigate, investigate_with}
use commerce_analyst_agent.Orchestration.Day4.Sound.{
  IsEnd, IsKept, IsSound, Leaves, after_call-Leaves,
}
use commerce_analyst_agent.Orchestration.Day4.Chains.{
  giving-Leaves, raising-Leaves, saving-Leaves, stopping-Leaves,
}
use commerce_analyst_agent.Orchestration.Day4.Rounds.{IsDone, steps-IsIndexed}
use commerce_analyst_agent.Orchestration.Day4.Loops.{IsLooped, query_loop-Leaves}
use commerce_analyst_agent.Orchestration.Day4.Reporting.{IsReady, IsReported, changed-IsReady}
use commerce_analyst_agent.Orchestration.Day4.Submitting.{report_round-Leaves}

module _ {W : Type 0} (g : Day4Graph W) (request : RetailRunRequest) where
  -- What a run returns; its fuel may have ended.
  abbrev pub IsRan : Option RetailRunOutcome → Kept W → Type 0
  IsRan none k = Unit {0}
  IsRan (some outcome) k = IsEnd g request outcome k

  reconcile_cases :
      (s : Day4State) (k : Kept W)
      → (reconcile g request s k ≡ (ok s, k))
        ⊎ (reconcile g request s k
            ≡ after_call
                (save_state g
                  (with_reconciliation s (new_reconciliation g request s.query_evidence))
                  k)
                (λ done after. (
                  ok (with_reconciliation s (new_reconciliation g request s.query_evidence)),
                  after,
                )))
  unfolding reconcile
  reconcile_cases s k = elim (Option-cases s.reconciliation) [
    | inl missing ↦ inr (ground arith)
    | inr (result, there) ↦ inl (ground arith)
  ]

  reconcile-Leaves :
      (s : Day4State) (k : Kept W)
      → IsReady g request s
      → IsKept g request k
      → Leaves g request (λ t after. IsReady g request t) (reconcile g request s k)
  reconcile-Leaves s k h kept =
      let t = with_reconciliation s (new_reconciliation g request s.query_evidence) in
      let ready : IsReady g request t =
        changed-IsReady g request s t h.sound h.live h.all_done refl refl h.sound.config refl
          (omega arith) h.sound.within refl refl refl refl refl (omega arith)
          (λ e. absurd (ground arith)) in
      elim (reconcile_cases s k) [
        | inl same ↦ rw same (giving-Leaves g request (λ t after. IsReady g request t) s k h kept)
        | inr same ↦ rw same (
            saving-Leaves g request (λ t after. IsReady g request t) t t k (λ after. ready)
              ready.sound kept)
      ]

  module _ (p : BuilderPorts) (builds : (r : ContextRequest) → g.graph.build r ≡ build p r) where
    -- The loop of the report after a round.
    report_on :
        ℕ → Result RunError Round × Kept W → Result RunError (Option RetailRunOutcome) × Kept W
    report_on fuel (ok (go_on s), k) = report_loop g request fuel s k
    report_on fuel (ok (ended outcome), k) = (ok (some outcome), k)
    report_on fuel (err e, k) = (err e, k)

    report_loop-suc :
        (fuel : ℕ) (s : Day4State) (k : Kept W)
        → report_loop g request (suc fuel) s k
          ≡ report_on fuel (report_round g request s s.pending_call k)
    unfolding report_loop report_on
    report_loop-suc fuel s k = elim (Result-cases (report_round g request s s.pending_call k).0) [
      | inr (x, failed) ↦ ground arith
      | inl (ended outcome, returned) ↦ ground arith
      | inl (go_on v, returned) ↦ ground arith
    ]

    report_on-Leaves :
        (fuel : ℕ) (r : Result RunError Round × Kept W)
        → ((s : Day4State) (k : Kept W)
            → IsReady g request s
            → IsKept g request k
            → Leaves g request IsRan (report_loop g request fuel s k))
        → Leaves g request (IsReported g request) r
        → Leaves g request IsRan (report_on fuel r)
    unfolding report_on
    report_on-Leaves fuel (ok (go_on s), k) later h = later s k (h.1 (go_on s) refl) h.0
    report_on-Leaves fuel (ok (ended outcome), k) later h =
        giving-Leaves g request IsRan (some outcome) k (h.1 (ended outcome) refl) h.0
    report_on-Leaves fuel (err e, k) later h = raising-Leaves g request IsRan e k h.0

    report_loop-Leaves :
        (fuel : ℕ) (s : Day4State) (k : Kept W)
        → IsReady g request s
        → IsKept g request k
        → Leaves g request IsRan (report_loop g request fuel s k)
    unfolding report_loop
    report_loop-Leaves zero s k h kept = giving-Leaves g request IsRan none k tt kept
    report_loop-Leaves (suc fuel) s k h kept = rw (report_loop-suc fuel s k) (
        report_on-Leaves fuel (report_round g request s s.pending_call k) (report_loop-Leaves fuel)
          (report_round-Leaves g request p builds s k h kept))

    conclude_run-Leaves :
        (fuel : ℕ) (r : Option Round) (k : Kept W)
        → IsLooped g request r k
        → IsKept g request k
        → Leaves g request IsRan (conclude_run g request fuel r k)
    conclude_run-Leaves fuel none k h kept = giving-Leaves g request IsRan none k tt kept
    conclude_run-Leaves fuel (some (ended outcome)) k h kept =
        giving-Leaves g request IsRan (some outcome) k h kept
    conclude_run-Leaves fuel (some (go_on s)) k h kept =
        after_call-Leaves g request (λ t after. IsReady g request t) IsRan (reconcile g request s k)
          (report_loop g request fuel)
          (reconcile-Leaves s k (record { sound = h.0; live = h.1; all_done = h.2 }) kept)
          (λ t after kept2 ready. report_loop-Leaves fuel t after ready kept2)

    plan_cases :
        (fuel : ℕ) (generate : SqlReasoningRequest → Method RunError W SqlCandidate)
        (execute : String → Method RunError W QueryResult) (s : Day4State) (k : Kept W)
        → (investigate_with g request fuel (some generate) (some execute) s k
            ≡ (err (checkpoint_incompatible "investigation_plan_missing"), k))
          ⊎ ((plan : InvestigationPlan) × (investigate_with g request fuel
                  (some generate)
                  (some execute)
                  s
                  k
                ≡ after_call
                    (query_loop g request generate execute (index_steps plan.steps []) fuel s k)
                    (conclude_run g request fuel)))
    plan_cases fuel generate execute s k = elim (Option-cases s.investigation_plan) [
      | inl missing ↦ inl (ground arith)
      | inr (plan, found) ↦ inr (plan, ground arith)
    ]

    investigate_with-Leaves :
        (fuel : ℕ) (generate : Option (SqlReasoningRequest → Method RunError W SqlCandidate))
        (execute : Option (String → Method RunError W QueryResult)) (s : Day4State) (k : Kept W)
        → IsSound g request s
        → s.terminal ≡ none
        → IsKept g request k
        → Leaves g request IsRan (investigate_with g request fuel generate execute s k)
    investigate_with-Leaves fuel (some generate) (some execute) s k h live kept =
        elim (plan_cases fuel generate execute s k) [
          | inl same ↦ rw same (
              raising-Leaves g request IsRan (checkpoint_incompatible "investigation_plan_missing")
                k kept)
          | inr (plan, same) ↦ rw same (
              after_call-Leaves g request (IsLooped g request) IsRan
                (query_loop g request generate execute (index_steps plan.steps []) fuel s k)
                (conclude_run g request fuel)
                (query_loop-Leaves g request generate execute (index_steps plan.steps [])
                  (steps-IsIndexed plan.steps) fuel s k h live kept)
                (λ r after kept2 looped. conclude_run-Leaves fuel r after looped kept2))
        ]
    investigate_with-Leaves fuel (some generate) none s k h live kept =
        stopping-Leaves g request IsRan (λ outcome. some outcome)
          "product_query_capability_unavailable" s.model_call_count s.tool_call_count s k
          (λ outcome after over. over) h (omega arith) h.within kept
    investigate_with-Leaves fuel none execute s k h live kept =
        stopping-Leaves g request IsRan (λ outcome. some outcome)
          "product_query_capability_unavailable" s.model_call_count s.tool_call_count s k
          (λ outcome after over. over) h (omega arith) h.within kept

    pub investigate-Leaves :
        (fuel : ℕ) (r : Round) (k : Kept W)
        → IsDone g request r k
        → IsKept g request k
        → Leaves g request IsRan (investigate g request fuel r k)
    investigate-Leaves fuel (ended outcome) k h kept =
        giving-Leaves g request IsRan (some outcome) k h kept
    investigate-Leaves fuel (go_on s) k h kept =
        investigate_with-Leaves fuel g.generate g.execute s k h.0 h.1 kept
