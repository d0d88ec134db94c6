-- ===== src/Orchestration/Day4/Chains.antt =====
-- The ends of chains of calls that keep sound checkpoints
-- (src/commerce_agent/orchestration/retail_graph.py, `_run_day4`).
use mathlib.Core.Path.{subst}
use commerce_analyst_agent.Prelude.{string_eq, ℕ, ◌≤◌, ◌≡◌, String, some, arith}
use commerce_analyst_agent.Prelude.Outcome.{ok, err, after_call}
use commerce_analyst_agent.RunErrors.{RunError}
use commerce_analyst_agent.Orchestration.{RetailRunOutcome, RetailRunRequest}
use commerce_analyst_agent.Orchestration.Day4.{Day4Graph, Day4State, Kept}
use commerce_analyst_agent.Orchestration.Day4.Ends.{save_state}
use commerce_analyst_agent.Orchestration.Day4.Queries.{stop_run}
use commerce_analyst_agent.Orchestration.Day4.Sound.{
  IsEnd, IsKept, IsSound, Leaves, after_call-Leaves, save_state-Leaves, stop_run-Leaves,
}

module _ {W : Type 0} (g : Day4Graph W) (request : RetailRunRequest) where
  -- A stop within the limit, as the end of a chain.
  pub stopping-Leaves :
      {A : Type 0} (R : A → Kept W → Type 0) (make : RetailRunOutcome → A) (reason_code : String)
      (model_calls tool_calls : ℕ) (s : Day4State) (k : Kept W)
      → ((outcome : RetailRunOutcome) (after : Kept W)
          → IsEnd g request outcome after
          → R (make outcome) after)
      → IsSound g request s
      → s.model_call_count ≤ model_calls
      → model_calls ≤ g.graph.loop_policy.max_model_calls
      → IsKept g request k
      → Leaves g request R (
          after_call
            (stop_run g request reason_code model_calls tool_calls s k)
            (λ outcome after. (ok (make outcome), after)))
  stopping-Leaves R make reason_code model_calls tool_calls s k turn h more fits kept =
      after_call-Leaves g request (IsEnd g request) R
        (stop_run g request reason_code model_calls tool_calls s k)
        (λ outcome after. (ok (make outcome), after))
        (stop_run-Leaves g request reason_code model_calls tool_calls s k h more fits kept)
        (λ outcome after kept2 over. (
          kept2,
          λ a e.
              let own : make outcome ≡ a = ground arith in
              subst (λ b. R b after) own (turn outcome after over),
        ))

  -- A save, as the end of a chain.
  pub saving-Leaves :
      {A : Type 0} (R : A → Kept W → Type 0) (a : A) (s : Day4State) (k : Kept W)
      → ((after : Kept W) → R a after)
      → IsSound g request s
      → IsKept g request k
      → Leaves g request R (after_call (save_state g s k) (λ done after. (ok a, after)))
  saving-Leaves R a s k turn h kept =
      after_call-Leaves g request (λ done after. after.saved ≡ some s) R (save_state g s k)
        (λ done after. (ok a, after)) (save_state-Leaves g request s k h kept)
        (λ done after kept2 there.
          (kept2, λ b e. let own : a ≡ b = ground arith in subst (λ c. R c after) own (turn after)))

  pub raising-Leaves :
      {A : Type 0} (R : A → Kept W → Type 0) (e : RunError) (k : Kept W)
      → IsKept g request k
      → Leaves g request R (err e, k)
  raising-Leaves R e k kept = (kept, λ a never. absurd (ground arith))

  pub giving-Leaves :
      {A : Type 0} (R : A → Kept W → Type 0) (a : A) (k : Kept W)
      → R a k
      → IsKept g request k
      → Leaves g request R (ok a, k)
  giving-Leaves R a k holds kept =
      (kept, λ b e. let own : a ≡ b = ground arith in subst (λ c. R c k) own holds)
