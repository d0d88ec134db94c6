-- ===== src/Orchestration/Day4/Sound.antt =====
-- What every kept checkpoint of an investigation satisfies, and a rule for chains of calls that keep
-- checkpoints (src/commerce_agent/orchestration/retail_graph.py, `_run_day4`).
use Prim.Native.String.{◌++◌ as ◌+++◌}
use mathlib.Core.Option.{some-injective}
use mathlib.Core.Path.{subst}
use commerce_analyst_agent.Prelude.{
  string_eq, ℕ, ◌+◌, ◌≤◌, ◌≡◌, ◌⊎◌, refl, sym, ◌∙◌, String, Bool, true, false, some, List, [], ◌++◌,
  map, length, inl, inr, arith,
}
use commerce_analyst_agent.Prelude.Outcome.{Result, ok, err, after_call, Result-cases}
use commerce_analyst_agent.RunErrors.{RunError}
use commerce_analyst_agent.Orchestration.{
  InvestigationPlan, InvestigationReport, RetailRunOutcome, RetailRunRequest, report, step_ids,
}
use commerce_analyst_agent.Orchestration.Retail.{nodes_revision, schema_revision}
use commerce_analyst_agent.Orchestration.Retail.Nodes.{attempt_of}
use commerce_analyst_agent.Orchestration.Day4.{Day4Graph, Day4Method, Day4State, Kept, stopped_day4}
use commerce_analyst_agent.Orchestration.Day4.Ends.{
  cache_and_finish, cleaned_state, cleanup_failed, finish_day4, mark_cleaned, persisted,
  restore_outcome, save_state,
}
use commerce_analyst_agent.Orchestration.Day4.Queries.{is_executing, stop_run}
use commerce_analyst_agent.Orchestration.Day4.Reports.{is_proposing}
use commerce_analyst_agent.Orchestration.Day4.Runs.{has_ended}

-- The identifier of the evidence of a step.
abbrev pub query_id : String → String
query_id step_id = "query:" +++ step_id

abbrev pub one_if : Bool → ℕ
one_if true = 1
one_if false = 0

-- The identifiers of the evidence so far and those of the pending steps.
abbrev pub ids_of : Day4State → List String
ids_of s = map (λ e. e.evidence_id) s.query_evidence ++ map query_id s.pending_plan_step_ids

module _ {W : Type 0} (g : Day4Graph W) (request : RetailRunRequest) where
  pub record IsSound (s : Day4State) : Type 0 where
    pub schema : s.state_schema_revision ≡ schema_revision
    pub nodes : s.node_revision ≡ nodes_revision
    pub config : s.hashes.config_hash ≡ request.run_scope.config_hash
    pub asked : s.request ≡ request
    pub within : s.model_call_count ≤ g.graph.loop_policy.max_model_calls
    pub in_order :
        (plan : InvestigationPlan)
        → s.investigation_plan ≡ some plan
        → ids_of s ≡ map query_id (step_ids plan.steps)
    -- Every query, repair and candidate is a model call, and so is the plan.
    pub counted :
        length s.query_evidence + s.repair_count + one_if (is_executing s) + 1 ≤ s.model_call_count
    pub reported :
        (value : InvestigationReport)
        → s.terminal ≡ some (report value)
        → (s.pending_plan_step_ids ≡ [])
          × (length s.query_evidence + s.repair_count + 2 ≤ s.model_call_count)
    -- A kept proposal came with a model call of its own.
    pub proposing :
        is_proposing s ≡ true → length s.query_evidence + s.repair_count + 2 ≤ s.model_call_count

  abbrev pub IsKept : Kept W → Type 0
  IsKept k = (s : Day4State) → k.saved ≡ some s → IsSound s

  -- After a chain the checkpoint is sound, and what it returns satisfies `Q`.
  abbrev pub Leaves : {A : Type 0} → (A → Kept W → Type 0) → Result RunError A × Kept W → Type 0
  Leaves {A} Q r = IsKept r.1 × ((a : A) → r.0 ≡ ok a → Q a r.1)

  pub after_call-Leaves :
      {A B : Type 0} (Q : A → Kept W → Type 0) (R : B → Kept W → Type 0)
      (r : Result RunError A × Kept W) (f : A → Day4Method W B)
      → Leaves Q r
      → ((a : A) (k : Kept W) → IsKept k → Q a k → Leaves R (f a k))
      → Leaves R (after_call r f)
  after_call-Leaves Q R (ok a, k) f h step = step a k h.0 (h.1 a refl)
  after_call-Leaves Q R (err e, k) f h step = (h.0, λ b e. absurd (ground arith))

  saved-IsKept : (s : Day4State) (w : W) → IsSound s → IsKept (record { world = w; saved = some s })
  saved-IsKept s w sound t e = subst IsSound (some-injective s t e) sound

  save_cases :
      (s : Day4State) (k : Kept W)
      → ((w : W) × (save_state g s k ≡ (ok tt, record { world = w; saved = some s })))
        ⊎ ((e : RunError) × (w : W) × (save_state g s k
              ≡ (err e, record { world = w; saved = k.saved })))
  unfolding save_state
  save_cases s k = elim (Result-cases (g.update_state s k.world).0) [
    | inl (tt, written) ↦ inl ((g.update_state s k.world).1, ground arith)
    | inr (e, failed) ↦ inr (e, (g.update_state s k.world).1, ground arith)
  ]

  pub save_state-Leaves :
      (s : Day4State) (k : Kept W)
      → IsSound s
      → IsKept k
      → Leaves (λ done after. after.saved ≡ some s) (save_state g s k)
  save_state-Leaves s k sound kept = elim (save_cases s k) [
    | inl (w, same) ↦ rw same (saved-IsKept s w sound, λ done e. refl)
    | inr (e, w, same) ↦ rw same (kept, λ done never. absurd (ground arith))
  ]

  -- The end of a run: its checkpoint is marked as cleaned and has the outcome, or the cleanup failed.
  abbrev pub IsEnd : RetailRunOutcome → Kept W → Type 0
  IsEnd outcome k =
      ((desired : RetailRunOutcome) × (outcome ≡ cleanup_failed g request desired))
      ⊎ ((s : Day4State) × (k.saved ≡ some s)
          × (s.cleanup_complete ≡ true)
          × (has_ended s ≡ true)
          × (restore_outcome request s ≡ outcome))

  cleaned_state-IsSound : (s : Day4State) → IsSound s → IsSound (cleaned_state s)
  cleaned_state-IsSound s h = record {
    schema = h.schema;
    nodes = h.nodes;
    config = h.config;
    asked = h.asked;
    within = h.within;
    in_order = h.in_order;
    counted = omega (arith, h.counted);
    reported = h.reported;
    proposing = λ e. absurd (ground arith);
  }

  mark_cleaned-Leaves :
      (desired : RetailRunOutcome) (s : Day4State) (k : Kept W)
      → IsSound s
      → has_ended s ≡ true
      → restore_outcome request s ≡ desired
      → IsKept k
      → Leaves IsEnd (mark_cleaned g desired (some s) k)
  unfolding restore_outcome
  mark_cleaned-Leaves desired s k sound over same kept =
      after_call-Leaves (λ done after. after.saved ≡ some (cleaned_state s)) IsEnd
        (save_state g (cleaned_state s) k) (λ done after. (ok desired, after))
        (save_state-Leaves (cleaned_state s) k (cleaned_state-IsSound s sound) kept)
        (λ done after kept2 there. (
          kept2,
          λ o e.
              let own : desired ≡ o = ground arith in
              inr (cleaned_state s, there, refl, over, same ∙ own),
        ))

  finish_cases :
      (desired : RetailRunOutcome) (k : Kept W)
      → ((w : W) × (finish_day4 g request desired k
            ≡ (ok (cleanup_failed g request desired), record { world = w; saved = k.saved })))
        ⊎ ((w : W) × (finish_day4 g request desired k
              ≡ mark_cleaned g desired k.saved (record { world = w; saved = k.saved })))
  unfolding finish_day4
  finish_cases desired k =
      let deleted = g.graph.delete_attempt (attempt_of g.graph request) k.world in
      elim (Result-cases deleted.0) [
        | inl (tt, gone) ↦ inr (deleted.1, ground arith)
        | inr (e, failed) ↦ inl (deleted.1, ground arith)
      ]

  pub finish_day4-Leaves :
      (desired : RetailRunOutcome) (s : Day4State) (k : Kept W)
      → k.saved ≡ some s
      → has_ended s ≡ true
      → restore_outcome request s ≡ desired
      → IsKept k
      → Leaves IsEnd (finish_day4 g request desired k)
  finish_day4-Leaves desired s k there over same kept = elim (finish_cases desired k) [
    | inl (w, failed) ↦ rw failed (
      kept,
      λ o e.
          let own : cleanup_failed g request desired ≡ o = ground arith in inl (desired, sym own),
    )
    | inr (w, gone) ↦ rw gone (
        rw there (
          mark_cleaned-Leaves desired s (record { world = w; saved = some s }) (kept s there) over
            same (saved-IsKept s w (kept s there))))
  ]

  -- A run that is ended for a reason keeps its state with the reason.
  pub cache_and_finish-Leaves :
      (desired : RetailRunOutcome) (s : Day4State) (k : Kept W)
      → IsSound (persisted s desired)
      → has_ended (persisted s desired) ≡ true
      → restore_outcome request (persisted s desired) ≡ desired
      → IsKept k
      → Leaves IsEnd (cache_and_finish g request desired s k)
  unfolding cache_and_finish
  cache_and_finish-Leaves desired s k sound over same kept =
      after_call-Leaves (λ done after. after.saved ≡ some (persisted s desired)) IsEnd
        (save_state g (persisted s desired) k) (λ done. finish_day4 g request desired)
        (save_state-Leaves (persisted s desired) k sound kept)
        (λ done after kept2 there.
          finish_day4-Leaves desired (persisted s desired) after there over same kept2)

  pub stop_run-Leaves :
      (reason_code : String) (model_calls tool_calls : ℕ) (s : Day4State) (k : Kept W)
      → IsSound s
      → s.model_call_count ≤ model_calls
      → model_calls ≤ g.graph.loop_policy.max_model_calls
      → IsKept k
      → Leaves IsEnd (stop_run g request reason_code model_calls tool_calls s k)
  unfolding stopped_day4 restore_outcome
  stop_run-Leaves reason_code model_calls tool_calls s k h more fits kept =
      cache_and_finish-Leaves
        (stopped_day4 request reason_code model_calls tool_calls s.hashes false) s k
        (record {
          schema = h.schema;
          nodes = h.nodes;
          config = h.config;
          asked = h.asked;
          within = fits;
          in_order = h.in_order;
          counted = omega (arith, h.counted);
          reported = λ value e. absurd (ground arith);
          proposing = λ e. absurd (ground arith);
        })
        refl refl kept
