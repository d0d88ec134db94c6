-- ===== src/Orchestration/Day4/Loops.antt =====
-- That the loop over the plan's steps keeps sound checkpoints
-- (src/commerce_agent/orchestration/retail_graph.py, `_run_day4`).
use commerce_analyst_agent.Prelude.{
  string_eq, ℕ, zero, suc, ◌≡◌, ◌⊎◌, refl, ap, String, Option, none, some, List, [], ◌∷◌, ◌++◌, inl,
  inr, arith,
}
use commerce_analyst_agent.Prelude.Dict.{Dict}
use commerce_analyst_agent.Prelude.Outcome.{Result, ok, err, Method, Result-cases}
use commerce_analyst_agent.RunErrors.{RunError}
use commerce_analyst_agent.Orchestration.{QueryPlanStep, RetailRunRequest}
use commerce_analyst_agent.Orchestration.Day4.{
  Day4Graph, Day4State, Kept, QueryResult, SqlCandidate, SqlReasoningRequest,
}
use commerce_analyst_agent.Orchestration.Day4.Queries.{Round, ended, go_on, query_loop, query_round}
use commerce_analyst_agent.Orchestration.Day4.Sound.{IsEnd, IsKept, IsSound, Leaves}
use commerce_analyst_agent.Orchestration.Day4.Chains.{giving-Leaves}
use commerce_analyst_agent.Orchestration.Day4.Rounds.{IsDone, IsIndexed, query_round-Leaves}

pub append_nil : (ids : List String) → ids ++ [] ≡ ids
append_nil [] = refl
append_nil (id ∷ ids) = ap (λ rest. id ∷ rest) (append_nil ids)

module _ {W : Type 0} (g : Day4Graph W) (request : RetailRunRequest) where
  -- What the loop ends with: no pending step, or the end of the run.
  abbrev pub IsLooped : Option Round → Kept W → Type 0
  IsLooped none k = Unit {0}
  IsLooped (some (go_on s)) k =
      IsSound g request s × (s.terminal ≡ none) × (s.pending_plan_step_ids ≡ [])
  IsLooped (some (ended outcome)) k = IsEnd g request outcome k

  module _ (generate : SqlReasoningRequest → Method RunError W SqlCandidate)
      (execute : String → Method RunError W QueryResult) (steps : Dict String QueryPlanStep)
      (indexed : IsIndexed steps) where
    -- The loop after a round.
    proceed : ℕ → Result RunError Round × Kept W → Result RunError (Option Round) × Kept W
    proceed fuel (ok (go_on s), k) = query_loop g request generate execute steps fuel s k
    proceed fuel (ok (ended outcome), k) = (ok (some (ended outcome)), k)
    proceed fuel (err e, k) = (err e, k)

    loop_cases :
        (fuel : ℕ) (s : Day4State) (k : Kept W)
        → ((s.pending_plan_step_ids ≡ [])
            × (query_loop g request generate execute steps (suc fuel) s k
                ≡ (ok (some (go_on s)), k)))
          ⊎ ((step_id : String) × (pending : List String) × (s.pending_plan_step_ids
                ≡ step_id ∷ pending)
              × (query_loop g request generate execute steps (suc fuel) s k
                  ≡ proceed fuel
                      (query_round g request generate execute steps step_id pending s k)))
    unfolding query_loop proceed
    loop_cases fuel s k =
        elim s.pending_plan_step_ids
            as (λ l.
              s.pending_plan_step_ids ≡ l
              → ((s.pending_plan_step_ids ≡ [])
                  × (query_loop g request generate execute steps (suc fuel) s k
                      ≡ (ok (some (go_on s)), k)))
                ⊎ ((step_id : String) × (pending : List String) × (s.pending_plan_step_ids
                      ≡ step_id ∷ pending)
                    × (query_loop g request generate execute steps (suc fuel) s k
                        ≡ proceed fuel
                            (query_round g request generate execute steps step_id pending s k)))) [
                              | [] ↦ λ e. inl (e, ground arith)
                              | step_id ∷ pending ↦ λ e.
                                  let here =
                                    query_round g request generate execute steps step_id pending s
                                      k in
                                  inr (
                                    step_id,
                                    pending,
                                    e,
                                    elim (Result-cases here.0) [
                                      | inr (x, failed) ↦ ground arith
                                      | inl (ended outcome, returned) ↦ ground arith
                                      | inl (go_on v, returned) ↦ ground arith
                                    ],
                                  )
                            ]
          refl

    proceed-Leaves :
        (fuel : ℕ) (r : Result RunError Round × Kept W)
        → ((s : Day4State) (k : Kept W)
            → IsSound g request s
            → s.terminal ≡ none
            → IsKept g request k
            → Leaves g request IsLooped (query_loop g request generate execute steps fuel s k))
        → Leaves g request (IsDone g request) r
        → Leaves g request IsLooped (proceed fuel r)
    unfolding proceed
    proceed-Leaves fuel (ok (go_on s), k) later h =
        let sound = h.1 (go_on s) refl in later s k sound.0 sound.1 h.0
    proceed-Leaves fuel (ok (ended outcome), k) later h =
        giving-Leaves g request IsLooped (some (ended outcome)) k (h.1 (ended outcome) refl) h.0
    proceed-Leaves fuel (err e, k) later h = (h.0, λ a never. absurd (ground arith))

    -- From a sound state, kept under a sound checkpoint, the loop leaves a sound checkpoint, also
    -- where it raises; where it returns before its fuel ends, it goes on with a sound state that has
    -- no step pending, or the run has ended with its outcome kept or with a failed cleanup.
    pub query_loop-Leaves :
        (fuel : ℕ) (s : Day4State) (k : Kept W)
        → IsSound g request s
        → s.terminal ≡ none
        → IsKept g request k
        → Leaves g request IsLooped (query_loop g request generate execute steps fuel s k)
    unfolding query_loop
    query_loop-Leaves zero s k h live kept = giving-Leaves g request IsLooped none k tt kept
    query_loop-Leaves (suc fuel) s k h live kept = elim (loop_cases fuel s k) [
      | inl (all_done, same) ↦
          rw same (giving-Leaves g request IsLooped (some (go_on s)) k (h, live, all_done) kept)
      | inr (step_id, pending, first, same) ↦ rw same (
          proceed-Leaves fuel (query_round g request generate execute steps step_id pending s k)
            (query_loop-Leaves fuel)
            (query_round-Leaves g request generate execute steps indexed step_id pending s k h live
              first kept))
    ]
