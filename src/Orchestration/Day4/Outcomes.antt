-- ===== src/Orchestration/Day4/Outcomes.antt =====
-- What an investigation keeps and returns, on its first run and on every later one
-- (src/commerce_agent/orchestration/retail_graph.py, `_run_day4`).
use commerce_analyst_agent.Prelude.{
  string_eq, ℕ, ◌≡◌, ◌⊎◌, refl, ap, ◌∙◌, true, false, Option, none, some, inl, inr, arith,
  Bool-cases,
}
use commerce_analyst_agent.Prelude.Outcome.{ok, err, ◌>>>=◌, after_call, Result-cases}
use commerce_analyst_agent.RunErrors.{RunError}
use commerce_analyst_agent.Model.{Hashes, ModelOutput}
use commerce_analyst_agent.Context.{ContextRequest, PromptStep}
use commerce_analyst_agent.Context.Checks.{BuilderPorts}
use commerce_analyst_agent.Context.Builder.{build}
use commerce_analyst_agent.Orchestration.{RetailRunOutcome, RetailRunRequest}
use commerce_analyst_agent.Orchestration.Retail.{nodes_revision, schema_revision, validate_policy}
use commerce_analyst_agent.Orchestration.Day4.{Day4Graph, Day4Method, Day4State, Kept}
use commerce_analyst_agent.Orchestration.Day4.Ends.{cleanup_failed, finish_day4, restore_outcome}
use commerce_analyst_agent.Orchestration.Day4.Queries.{Round, ended, go_on}
use commerce_analyst_agent.Orchestration.Day4.Reports.{call_day4_model, one_tool_call}
use commerce_analyst_agent.Orchestration.Day4.Runs.{
  begin, catching, check_kept, decide, has_ended, investigate, keep_plan, open_run, reopen,
  run_day4,
}
use commerce_analyst_agent.Orchestration.Day4.Sound.{
  IsEnd, IsKept, IsSound, Leaves, after_call-Leaves, finish_day4-Leaves,
}
use commerce_analyst_agent.Orchestration.Day4.Chains.{giving-Leaves, raising-Leaves}
use commerce_analyst_agent.Orchestration.Day4.Rounds.{IsDone}
use commerce_analyst_agent.Orchestration.Day4.Submitting.{call_day4_model-Leaves}
use commerce_analyst_agent.Orchestration.Day4.Keeping.{IsRan, investigate-Leaves}
use commerce_analyst_agent.Orchestration.Day4.Opening.{
  catching-Leaves, decide-Leaves, keep_plan-Leaves,
}

module _ {W : Type 0} (g : Day4Graph W) (request : RetailRunRequest) (p : BuilderPorts)
    (builds : (r : ContextRequest) → g.graph.build r ≡ build p r) where
  begin-Leaves :
      (k : Kept W)
      → validate_policy g.graph.loop_policy ≡ true
      → IsKept g request k
      → Leaves g request (IsDone g request) (begin g request k)
  unfolding begin
  begin-Leaves k valid kept =
      let asking : Day4Method W (ModelOutput × Hashes) =
        call_day4_model g request PromptStep.retail_decide request.evidence 0 in
      let decides : ModelOutput × Hashes → Day4Method W Round = λ answer.
        decide g request answer.1 (one_tool_call g request PromptStep.retail_decide answer.0) in
      after_call-Leaves g request (IsDone g request) (IsDone g request)
        (catching (asking >>>= decides) k) (keep_plan g request)
        (catching-Leaves g request (IsDone g request) (asking >>>= decides) k (
          after_call-Leaves g request
            (λ answer after. answer.1.config_hash ≡ request.run_scope.config_hash)
            (IsDone g request) (asking k) decides
            (call_day4_model-Leaves g request p builds PromptStep.retail_decide request.evidence 0 k
              kept)
            (λ answer after kept2 config.
              decide-Leaves g request valid answer.1
                (one_tool_call g request PromptStep.retail_decide answer.0) after config kept2)))
        (λ r after kept2 opened. keep_plan-Leaves g request r after opened kept2)

  reopen_cases :
      (s : Day4State) (k : Kept W)
      → ((e : RunError) × (reopen g request s k ≡ (err e, k)))
        ⊎ ((has_ended s ≡ false) × (reopen g request s k ≡ (ok (go_on s), k)))
        ⊎ ((has_ended s ≡ true)
            × (s.cleanup_complete ≡ true)
            × (reopen g request s k ≡ (ok (ended (restore_outcome request s)), k)))
        ⊎ ((has_ended s ≡ true)
            × (reopen g request s k
                ≡ after_call
                    (finish_day4 g request (restore_outcome request s) k)
                    (λ outcome after. (ok (ended outcome), after))))
  unfolding reopen
  reopen_cases s k = elim (Result-cases (check_kept g request s)) [
    | inr (e, refused) ↦ inl (e, ground arith)
    | inl (passed, accepted) ↦ elim (Bool-cases (has_ended s)) [
      | inr going ↦ inr (inl (going, ground arith))
      | inl over ↦ elim (Bool-cases s.cleanup_complete) [
        | inl cleaned ↦ inr (inr (inl (over, cleaned, ground arith)))
        | inr uncleaned ↦ inr (inr (inr (over, ground arith)))
      ]
    ]
  ]

  reopen-Leaves :
      (s : Day4State) (k : Kept W)
      → k.saved ≡ some s
      → IsKept g request k
      → Leaves g request (IsDone g request) (reopen g request s k)
  reopen-Leaves s k there kept = elim (reopen_cases s k) [
    | inl (e, same) ↦ rw same (raising-Leaves g request (IsDone g request) e k kept)
    | inr (inl (going, same)) ↦
        rw same
          (giving-Leaves g request (IsDone g request) (go_on s) k (kept s there, ground arith) kept)
    | inr (inr (inl (over, cleaned, same))) ↦ rw same (
        giving-Leaves g request (IsDone g request) (ended (restore_outcome request s)) k
          (inr (s, there, cleaned, over, refl)) kept)
    | inr (inr (inr (over, same))) ↦ rw same (
        after_call-Leaves g request (IsEnd g request) (IsDone g request)
          (finish_day4 g request (restore_outcome request s) k)
          (λ outcome after. (ok (ended outcome), after))
          (finish_day4-Leaves g request (restore_outcome request s) s k there over refl kept)
          (λ outcome after kept2 ending.
            giving-Leaves g request (IsDone g request) (ended outcome) after ending kept2))
  ]

  open_run-Leaves :
      (saved : Option Day4State) (k : Kept W)
      → validate_policy g.graph.loop_policy ≡ true
      → k.saved ≡ saved
      → IsKept g request k
      → Leaves g request (IsDone g request) (open_run g request saved k)
  open_run-Leaves none k valid there kept = begin-Leaves k valid kept
  open_run-Leaves (some s) k valid there kept = reopen-Leaves s k there kept

  -- A run with a valid policy and the builder's contexts, new or resumed from a sound checkpoint,
  -- leaves a sound checkpoint, also where it raises; an outcome that it returns is the one of its
  -- checkpoint, which is marked as cleaned, or says that the cleanup failed.
  pub run_day4-Leaves :
      (fuel : ℕ) (k : Kept W)
      → validate_policy g.graph.loop_policy ≡ true
      → IsKept g request k
      → Leaves g request (IsRan g request) (run_day4 g request fuel k)
  unfolding run_day4
  run_day4-Leaves fuel k valid kept =
      after_call-Leaves g request (IsDone g request) (IsRan g request)
        (open_run g request k.saved k) (investigate g request fuel)
        (open_run-Leaves k.saved k valid refl kept)
        (λ r after kept2 opened. investigate-Leaves g request p builds fuel r after opened kept2)

  accepts-IsSound : (s : Day4State) → IsSound g request s → check_kept g request s ≡ ok tt
  unfolding check_kept
  accepts-IsSound s h = ground (
    arith,
    (string_eq.test_iff s.state_schema_revision schema_revision).1 h.schema,
    (string_eq.test_iff s.node_revision nodes_revision).1 h.nodes,
    (string_eq.test_iff s.hashes.config_hash request.run_scope.config_hash).1 h.config,
    ap (λ r. r.attempt_id) h.asked,
    (string_eq.test_iff (g.graph.scope_json s.request.run_scope)
          (g.graph.scope_json request.run_scope)).1
        (ap (λ r. g.graph.scope_json r.run_scope) h.asked),
    (string_eq.test_iff (g.graph.request_json s.request) (g.graph.request_json request)).1
        (ap g.graph.request_json h.asked),
  )

  reruns :
      (again : ℕ) (s : Day4State) (k : Kept W)
      → k.saved ≡ some s
      → IsSound g request s
      → s.cleanup_complete ≡ true
      → has_ended s ≡ true
      → run_day4 g request again k ≡ (ok (some (restore_outcome request s)), k)
  unfolding run_day4 reopen
  reruns again s k there h cleaned over =
      let accepted = accepts-IsSound s h in
      let opened : reopen g request s k ≡ (ok (ended (restore_outcome request s)), k) =
        ground arith in
      ground arith

  -- With a valid policy and the builder's contexts, and from a sound checkpoint or none: running an
  -- investigation once more after it has returned an outcome returns the same outcome and changes
  -- nothing, unless the outcome says that the cleanup failed.
  pub run_day4_idempotent :
      (fuel again : ℕ) (k : Kept W) (outcome : RetailRunOutcome)
      → validate_policy g.graph.loop_policy ≡ true
      → IsKept g request k
      → (run_day4 g request fuel k).0 ≡ ok (some outcome)
      → ((desired : RetailRunOutcome) × (outcome ≡ cleanup_failed g request desired))
        ⊎ (run_day4 g request again (run_day4 g request fuel k).1
            ≡ (ok (some outcome), (run_day4 g request fuel k).1))
  run_day4_idempotent fuel again k outcome valid kept returned =
      let left = run_day4-Leaves fuel k valid kept in
      elim (left.1 (some outcome) returned) [
        | inl failed ↦ inl failed
        | inr (s, there, cleaned, over, same) ↦ inr (
            reruns again s (run_day4 g request fuel k).1 there (left.0 s there) cleaned over
            ∙ ap (λ o. (ok (some o), (run_day4 g request fuel k).1)) same)
      ]
