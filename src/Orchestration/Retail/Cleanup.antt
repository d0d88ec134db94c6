-- ===== src/Orchestration/Retail/Cleanup.antt =====
-- How the runs of a retail request end, and what they leave in the store of private turns
-- (src/commerce_agent/orchestration/retail_graph.py and model/_turn_store.py).
use commerce_analyst_agent.Prelude.{
  nat_eq, ℕ, ◌≤◌, ◌≡◌, refl, sym, ap, ◌∙◌, true, false, ◌⊎◌, Option, none, some, inl, inr, arith,
}
use commerce_analyst_agent.Prelude.Dict.{get}
use commerce_analyst_agent.Prelude.Outcome.{Result, ok, err, Result-cases}
use commerce_analyst_agent.Operations.Contracts.{Uuid}
use commerce_analyst_agent.Turns.{AttemptRef, PrivateProviderTurn, TurnStore, delete_attempt, is_of}
use commerce_analyst_agent.Turns.Lifetime.{delete_attempt_lem}
use commerce_analyst_agent.RunErrors.{RunError}
use commerce_analyst_agent.Orchestration.{RetailRunRequest, validate_terminal_value}
use commerce_analyst_agent.Orchestration.Retail.{
  Node, RetailGraph, RetailState, call_model, close_exchange, execute_tools, finalize,
  initial_state, prepare_context, route_output, validate_tools,
}
use commerce_analyst_agent.Orchestration.Retail.Nodes.{
  attempt_of, check_batch, is_some, outcome, receive, record_results, run_call_model,
  run_close_exchange, run_execute_tools, run_finalize, run_prepare_context, run_route_output,
  run_validate_tools, stop_by_finish,
}
use commerce_analyst_agent.Orchestration.Retail.Graph.{
  Snapshot, ainvoke, done, next_node, raised, resume, run, run_node,
}
use commerce_analyst_agent.Orchestration.Retail.Progress.{Follows, Holds, ainvoke_rule}
use commerce_analyst_agent.Orchestration.Retail.Limits.{
  IsFinished, IsWithin, initial_state-IsWithin, rank, run_node-IsWithin,
}
use commerce_analyst_agent.Orchestration.Retail.Retries.{
  Fits, Invoked-cases, Keeps, Left, Left-Fits, resume_cases, enough_fuel, rank_le, run-Ends,
}

-- The turn store that the world holds, and that its `delete_attempt` is the store's.
pub record KeepsTurns {W : Type 0} (g : RetailGraph W) : Type 0 where
  pub turns : W → TurnStore
  pub deletes :
      (attempt : AttemptRef) (w : W)
      → (g.delete_attempt attempt w).0 ≡ ok tt
      → turns (g.delete_attempt attempt w).1 ≡ delete_attempt attempt (turns w)

module _ {W : Type 0} (g : RetailGraph W) (request : RetailRunRequest) where
  -- The request of a state never changes.
  run_node_request :
      (n : Node) (s : RetailState) (w : W) (updated : RetailState)
      → (run_node g n s w).0 ≡ ok updated
      → updated.request ≡ s.request
  unfolding run_node run_prepare_context run_call_model receive stop_by_finish run_route_output
      run_validate_tools check_batch run_execute_tools record_results run_close_exchange
      run_finalize
  run_node_request prepare_context s w updated e = ground arith
  run_node_request call_model s w updated e = ground arith
  run_node_request route_output s w updated e = ground arith
  run_node_request validate_tools s w updated e = ground arith
  run_node_request execute_tools s w updated e = ground arith
  run_node_request close_exchange s w updated e = ground arith
  run_node_request finalize s w updated e = ground arith

  -- The request of every state is the one that was asked.
  abbrev IsAsked : RetailState → Type 0
  IsAsked s = s.request ≡ request

  initial_state-IsAsked : IsAsked (initial_state request)
  unfolding initial_state
  initial_state-IsAsked = refl

  pub IsAsked-Keeps :
      (n : Node) (s : RetailState) (w : W) (updated : RetailState)
      → IsWithin g n s
      → IsAsked s
      → (run_node g n s w).0 ≡ ok updated
      → Keeps (λ m. IsAsked) IsAsked updated (next_node n updated)
  IsAsked-Keeps n s w updated h asked returned =
      let same : updated.request ≡ request = run_node_request n s w updated returned ∙ asked in
      elim (Result-cases (next_node n updated)) [
        | inr (e, lost) ↦ rw lost tt
        | inl (none, edge) ↦ rw edge same
        | inl (some m, edge) ↦ rw edge same
      ]

  finished-outcome : (s : RetailState) → IsFinished g s → validate_terminal_value (outcome s) ≡ true
  unfolding outcome validate_terminal_value
  finished-outcome s h = ground arith

  -- A run of a request, the first one or a later one, ends: it raises and leaves a snapshot, or it
  -- returns a state within the limits of the policy, cleaned up, whose outcome is a valid stop.
  pub retried_run-ends :
      {before : Option Snapshot} (fuel : ℕ) (w : W)
      → Left g request before
      → enough_fuel g ≤ fuel
      → ((e : RunError) × (after : Snapshot) × (v : W) × (run g fuel request before w
            ≡ raised e after v))
        ⊎ ((s : RetailState) × (v : W) × (run g fuel request before w ≡ done s v)
            × (s.cleanup_complete ≡ true)
            × ((outcome s).attempt_id ≡ request.attempt_id)
            × ((outcome s).model_calls ≤ g.loop_policy.max_model_calls)
            × ((outcome s).tool_calls ≤ g.loop_policy.max_tool_calls)
            × (validate_terminal_value (outcome s) ≡ true))
  unfolding outcome
  retried_run-ends {before} fuel w left enough =
      let ended =
        run-Ends g request (λ n. IsAsked) IsAsked initial_state-IsAsked IsAsked-Keeps fuel before w
          enough
          (Left-Fits g request (λ n. IsAsked) IsAsked initial_state-IsAsked IsAsked-Keeps left) in
      elim (Invoked-cases (run g fuel request before w)) [
        | inl (s, v, e) ↦
            let h : IsFinished g s × IsAsked s = rw e at ended in
            (inr (
              s,
              v,
              e,
              h.0.cleaned_up,
              ap (λ r. r.attempt_id) h.1,
              h.0.calls,
              h.0.tools,
              finished-outcome s h.0,
            ))
        | inr (inl (x, after, v, e)) ↦ inl (x, after, v, e)
        | inr (inr e) ↦ absurd (rw e at ended)
      ]

module _ {W : Type 0} (g : RetailGraph W) (kept : KeepsTurns g) (request : RetailRunRequest) where
  -- No turn of the request's attempt is stored.
  abbrev pub IsClean : W → Type 0
  IsClean w =
      (k : Uuid) (t : PrivateProviderTurn)
      → get (kept.turns w) k ≡ some t
      → is_of (attempt_of g request) t ≡ false

  deleted-IsClean :
      (s updated : RetailState) (w : W)
      → s.request ≡ request
      → (run_finalize g s w).0 ≡ ok updated
      → IsClean (run_finalize g s w).1
  unfolding run_finalize
  deleted-IsClean s updated w same returned k t there =
      elim (Result-cases (g.delete_attempt (attempt_of g s.request) w).0) [
        | inr (e, failed) ↦ absurd (ground arith)
        | inl (tt, deleted) ↦
            let after = kept.deletes (attempt_of g s.request) w deleted in
            let own : attempt_of g s.request ≡ attempt_of g request = cc same in
            ground (arith, delete_attempt_lem (attempt_of g s.request) (kept.turns w) k t)
      ]

  finalize-IsClean :
      (n : Node) (s updated : RetailState) (w : W)
      → s.request ≡ request
      → (run_node g n s w).0 ≡ ok updated
      → next_node n updated ≡ ok none
      → IsClean (run_node g n s w).1
  unfolding run_node next_node
  finalize-IsClean finalize s updated w same returned edge =
      deleted-IsClean s updated w same returned
  finalize-IsClean prepare_context s updated w same returned edge = absurd (ground arith)
  finalize-IsClean call_model s updated w same returned edge = absurd (ground arith)
  finalize-IsClean route_output s updated w same returned edge = absurd (ground arith)
  finalize-IsClean validate_tools s updated w same returned edge = absurd (ground arith)
  finalize-IsClean execute_tools s updated w same returned edge = absurd (ground arith)
  finalize-IsClean close_exchange s updated w same returned edge = absurd (ground arith)

  cleaning :
      (bound : ℕ) (s : RetailState) (w : W) (edge : Result RunError (Option Node))
      → Follows g (IsWithin g) (λ t v. IsFinished g t) (rank g) bound s w edge
      → IsAsked g request s
      → (edge ≡ ok none → IsClean w)
      → Follows g
          (λ m t. IsWithin g m t × IsAsked g request t)
          (λ t v. IsClean v)
          (rank g)
          bound
          s
          w
          edge
  unfolding Follows
  cleaning bound s w (ok none) h asked clean = clean refl
  cleaning bound s w (ok (some m)) h asked clean = ((h.0, asked), h.1)
  cleaning bound s w (err e) h asked clean = h

  -- A run that reaches the end of the graph leaves no turn behind.
  ainvoke-IsClean :
      (fuel : ℕ) (n : Node) (s : RetailState) (w : W)
      → enough_fuel g ≤ fuel
      → IsWithin g n s
      → IsAsked g request s
      → Holds g
          (λ m t. IsWithin g m t × IsAsked g request t)
          (λ t v. IsClean v)
          (ainvoke g fuel n s w)
  ainvoke-IsClean fuel n s w enough within asked =
      ainvoke_rule g (λ m t. IsWithin g m t × IsAsked g request t) (λ t v. IsClean v) (rank g)
        (λ m t v updated mine returned.
          cleaning (rank g m t) updated (run_node g m t v).1 (next_node m updated)
            (run_node-IsWithin g m t v updated mine.0 returned)
            (run_node_request g request m t v updated returned ∙ mine.1)
            (finalize-IsClean m t updated v mine.1 returned))
        fuel n s w (omega (arith, rank_le g n s)) (within, asked)

  -- A snapshot from which nodes are left to run.
  abbrev pub IsOpen : Option Snapshot → Type 0
  IsOpen none = Unit {0}
  IsOpen (some snapshot) = is_some snapshot.next ≡ true

  entered-IsClean :
      (fuel : ℕ) (n : Node) (s t : RetailState) (w v : W)
      → enough_fuel g ≤ fuel
      → IsWithin g n s
      → IsAsked g request s
      → ainvoke g fuel n s w ≡ done t v
      → IsClean v
  unfolding Holds
  entered-IsClean fuel n s t w v enough within asked e =
      rw e at (ainvoke-IsClean fuel n s w enough within asked)

  resumed-IsClean :
      (fuel : ℕ) (s t : RetailState) (next : Option Node) (w v : W)
      → enough_fuel g ≤ fuel
      → Fits g request
          (λ n. IsAsked g request)
          (IsAsked g request)
          (initial_state-IsAsked g request)
          (IsAsked-Keeps g request)
          (some (record { values = s; next = next }))
      → is_some next ≡ true
      → resume g fuel request (record { values = s; next = next }) w ≡ done t v
      → IsClean v
  resumed-IsClean fuel s t none w v enough fits open_at e = absurd (ground arith)
  resumed-IsClean fuel s t (some n) w v enough fits open_at e =
      elim (resume_cases g request fuel s (some n) w) [
        | inl (x, refused) ↦ absurd (ground arith)
        | inr onward ↦ entered-IsClean fuel n s t w v enough fits.0 fits.1 (sym onward ∙ e)
      ]

  -- A run that returns, from the start or from a snapshot that is not the end of one, leaves no
  -- private turn of the request's attempt in the store.
  pub retried_run-IsClean :
      {before : Option Snapshot} (fuel : ℕ) (w v : W) (s : RetailState)
      → Left g request before
      → IsOpen before
      → enough_fuel g ≤ fuel
      → run g fuel request before w ≡ done s v
      → IsClean v
  unfolding run
  retried_run-IsClean {before = none} fuel w v s left ready enough e =
      entered-IsClean fuel prepare_context (initial_state request) s w v enough
        (initial_state-IsWithin g request) (initial_state-IsAsked g request) e
  retried_run-IsClean {before = some snapshot} fuel w v s left ready enough e =
      resumed-IsClean fuel snapshot.values s snapshot.next w v enough
        (Left-Fits g request (λ n. IsAsked g request) (IsAsked g request)
          (initial_state-IsAsked g request) (IsAsked-Keeps g request) left)
        ready e
