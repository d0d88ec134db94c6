-- ===== src/Orchestration/Day4/Rounds.antt =====
-- That the rounds over the plan's steps keep sound checkpoints
-- (src/commerce_agent/orchestration/retail_graph.py, `_run_day4`).
use commerce_analyst_agent.Prelude.{
  string_eq, ◌+◌, ◌≡◌, ◌⊎◌, refl, sym, ap, ◌∙◌, String, true, ◌||◌, none, some, List, [], ◌∷◌, ◌++◌,
  map, length-append, leb, inl, inr, arith, Bool-cases, Option-cases,
}
use commerce_analyst_agent.Prelude.Dict.{Dict, get, put, get-put_cases}
use commerce_analyst_agent.Prelude.Outcome.{Result, ok, err, Method}
use commerce_analyst_agent.RunErrors.{RunError, checkpoint_incompatible, query_engine_error}
use commerce_analyst_agent.Orchestration.{QueryPlanStep, RetailRunRequest}
use commerce_analyst_agent.Orchestration.Day4.{
  Day4Graph, Day4State, EvidenceResult, Kept, QueryResult, SqlCandidate, SqlReasoningRequest,
}
use commerce_analyst_agent.Orchestration.Day4.Queries.{
  Obtained, Round, candidate, conclude, ended, evidence_of, execute_candidate, go_on, index_steps,
  is_executing, no_candidate, obtain, query_round, with_error, with_evidence,
}
use commerce_analyst_agent.Orchestration.Day4.Chains.{
  giving-Leaves, raising-Leaves, saving-Leaves, stopping-Leaves,
}
use commerce_analyst_agent.Orchestration.Day4.Sound.{
  IsEnd, IsKept, IsSound, Leaves, after_call-Leaves, ids_of, query_id,
}
use commerce_analyst_agent.Orchestration.Day4.Candidates.{IsObtained, obtain-Leaves}

appended :
    (done : List EvidenceResult) (e : EvidenceResult) (rest : List String)
    → map (λ d. d.evidence_id) (done ++ (e ∷ [])) ++ rest
      ≡ map (λ d. d.evidence_id) done ++ (e.evidence_id ∷ rest)
appended [] e rest = refl
appended (d ∷ done) e rest = ap (λ ids. d.evidence_id ∷ ids) (appended done e rest)

-- A step that is found under an identifier has it.
unfoldable pub IsIndexed : Dict String QueryPlanStep → Type 0
IsIndexed d = (i : String) (step : QueryPlanStep) → get d i ≡ some step → step.step_id ≡ i

index_steps-IsIndexed :
    (steps : List QueryPlanStep) (d : Dict String QueryPlanStep)
    → IsIndexed d
    → IsIndexed (index_steps steps d)
unfolding IsIndexed
index_steps-IsIndexed [] d h = h
index_steps-IsIndexed (step ∷ steps) d h =
    index_steps-IsIndexed steps (put d step.step_id step) (λ i found there.
      elim (get-put_cases d step.step_id step i) [
        | inl own ↦ ground (arith, own.0, own.1)
        | inr other ↦ h i found (sym other.1 ∙ there)
      ])

pub steps-IsIndexed : (steps : List QueryPlanStep) → IsIndexed (index_steps steps [])
unfolding IsIndexed get
steps-IsIndexed steps = index_steps-IsIndexed steps [] (λ i step found. absurd (ground arith))

module _ {W : Type 0} (g : Day4Graph W) (request : RetailRunRequest) where
  abbrev pub IsDone : Round → Kept W → Type 0
  IsDone (go_on s) k = IsSound g request s × (s.terminal ≡ none)
  IsDone (ended outcome) k = IsEnd g request outcome k

  conclude_err :
      (step : QueryPlanStep) (pending : List String) (made : SqlCandidate) (s : Day4State)
      (k : Kept W) (e : RunError)
      → ((reason : String) × (e ≡ query_engine_error reason))
        ⊎ (conclude g request step pending made s (err e) k ≡ (err e, k))
  unfolding conclude
  conclude_err step pending made s k (query_engine_error reason) = inl (reason, refl)
  conclude_err step pending made s k e = ground arith

  with_evidence-IsSound :
      (u : Day4State) (step_id : String) (pending : List String) (evidence : EvidenceResult)
      → IsSound g request u
      → is_executing u ≡ true
      → u.pending_plan_step_ids ≡ step_id ∷ pending
      → u.terminal ≡ none
      → evidence.evidence_id ≡ query_id step_id
      → IsSound g request (with_evidence u pending evidence)
  with_evidence-IsSound u step_id pending evidence h busy first live named = record {
    schema = h.schema;
    nodes = h.nodes;
    config = h.config;
    asked = h.asked;
    within = h.within;
    in_order = λ plan e. moved ∙ h.in_order plan e;
    counted = ground (arith, h.counted, length-append u.query_evidence (evidence ∷ []));
    reported = λ value e. absurd (ground arith);
    proposing = λ e. absurd (ground arith);
  }
    where
      moved : ids_of (with_evidence u pending evidence) ≡ ids_of u
      moved = rw first (
          appended u.query_evidence evidence (map query_id pending)
          ∙ ap (λ i. map (λ e. e.evidence_id) u.query_evidence ++ (i ∷ map query_id pending)) named)

  with_error-IsSound :
      (u : Day4State) (made : SqlCandidate) (reason : String)
      → IsSound g request u
      → is_executing u ≡ true
      → u.terminal ≡ none
      → IsSound g request (with_error u made reason)
  with_error-IsSound u made reason h busy live = record {
    schema = h.schema;
    nodes = h.nodes;
    config = h.config;
    asked = h.asked;
    within = h.within;
    in_order = h.in_order;
    counted = ground (arith, h.counted);
    reported = λ value e. absurd (ground arith);
    proposing = λ e. absurd (ground arith);
  }

  conclude-Leaves :
      (step : QueryPlanStep) (pending : List String) (made : SqlCandidate) (u : Day4State)
      (answer : Result RunError QueryResult) (k : Kept W)
      → IsSound g request u
      → is_executing u ≡ true
      → u.pending_plan_step_ids ≡ step.step_id ∷ pending
      → u.terminal ≡ none
      → IsKept g request k
      → Leaves g request IsDone (conclude g request step pending made u answer k)
  unfolding conclude
  conclude-Leaves step pending made u (ok result) k h busy first live kept =
      let sound =
        with_evidence-IsSound u step.step_id pending (evidence_of step made result) h busy first
          live refl in
      let updated = with_evidence u pending (evidence_of step made result) in
      saving-Leaves g request IsDone (go_on updated) updated k (λ after. (sound, live)) sound kept
  conclude-Leaves step pending made u (err e) k h busy first live kept =
      elim (conclude_err step pending made u k e) [
        | inr raises ↦ rw raises (raising-Leaves g request IsDone e k kept)
        | inl (reason, refused) ↦
            rw refused
              (elim (Bool-cases (
                leb g.graph.loop_policy.max_repairs made.repair_number
                || leb g.graph.loop_policy.max_repairs u.repair_count)) [
                  | inl spent ↦ rw spent (
                      stopping-Leaves g request IsDone ended "sql_repair_limit" u.model_call_count
                        (u.tool_call_count + 1) u k (λ outcome after over. over) h (omega arith)
                        h.within kept)
                  | inr more ↦
                      let sound = with_error-IsSound u made reason h busy live in
                      rw more (
                        saving-Leaves g request IsDone (go_on (with_error u made reason))
                          (with_error u made reason) k (λ after. (sound, live)) sound kept)
                ])
      ]

  -- The second half of a round, whatever the first half has obtained.
  execute_candidate-Leaves :
      (execute : String → Method RunError W QueryResult) (step : QueryPlanStep)
      (pending : List String) (o : Obtained) (k : Kept W)
      → IsKept g request k
      → IsObtained g request (step.step_id ∷ pending) o k
      → Leaves g request IsDone (execute_candidate g request execute step pending o k)
  execute_candidate-Leaves execute step pending (no_candidate outcome) k kept over =
      giving-Leaves g request IsDone (ended outcome) k over kept
  execute_candidate-Leaves execute step pending (candidate made u) k kept h =
      conclude-Leaves step pending made u (execute made.sql k.world).0
        (record { world = (execute made.sql k.world).1; saved = k.saved }) h.0 h.1 h.2 h.3 kept

  module _ (generate : SqlReasoningRequest → Method RunError W SqlCandidate)
      (execute : String → Method RunError W QueryResult) (steps : Dict String QueryPlanStep)
      (indexed : IsIndexed steps) where
    pub query_round-Leaves :
        (step_id : String) (pending : List String) (s : Day4State) (k : Kept W)
        → IsSound g request s
        → s.terminal ≡ none
        → s.pending_plan_step_ids ≡ step_id ∷ pending
        → IsKept g request k
        → Leaves g request IsDone (query_round g request generate execute steps step_id pending s k)
    unfolding query_round IsIndexed
    query_round-Leaves step_id pending s k h live first kept =
        elim (Option-cases (get steps step_id)) [
          | inl missing ↦
              rw (missing, query_round)
                (raising-Leaves g request IsDone (checkpoint_incompatible "plan_step_missing") k
                  kept)
          | inr (step, found) ↦
              let own : step_id ≡ step.step_id = sym (indexed step_id step found) in
              let pending_here : s.pending_plan_step_ids ≡ step.step_id ∷ pending =
                first ∙ ap (λ i. i ∷ pending) own in
              rw (found, query_round)
                (after_call-Leaves g request (IsObtained g request s.pending_plan_step_ids) IsDone
                  (obtain g request generate step s s.sql_candidate k)
                  (execute_candidate g request execute step pending)
                  (obtain-Leaves g request generate step s s.sql_candidate k h live kept)
                  (λ o after kept2 obtained.
                    execute_candidate-Leaves execute step pending o after kept2
                      (rw pending_here at obtained)))
        ]
