-- ===== src/Orchestration/Retail/Retries.antt =====
-- A retail run (src/commerce_agent/orchestration/retail_graph.py) that is started again after every
-- exception, each time from the snapshot that the last one left.
use commerce_analyst_agent.Prelude.{
  nat_eq, ℕ, ◌+◌, ◌*◌, ◌≤◌, ◌<◌, ◌≡◌, refl, ◌⊎◌, Option, none, some, inl, inr, arith,
}
use commerce_analyst_agent.Prelude.Outcome.{Result, ok, err, Result-cases}
use commerce_analyst_agent.RunErrors.{RunError}
use commerce_analyst_agent.Orchestration.{RetailRunRequest}
use commerce_analyst_agent.Orchestration.Retail.{
  Node, RetailGraph, RetailState, call_model, close_exchange, execute_tools, finalize,
  initial_state, prepare_context, route_output, validate_tools,
}
use commerce_analyst_agent.Orchestration.Retail.Graph.{
  Invoked, Snapshot, ainvoke, check_snapshot, done, next_node, out_of_fuel, raised, resume, run,
  run_node,
}
use commerce_analyst_agent.Orchestration.Retail.Progress.{Follows, Holds, IsResumable, ainvoke_rule}
use commerce_analyst_agent.Orchestration.Retail.Limits.{
  IsFinished, IsWithin, initial_state-IsWithin, rank, run_node-IsWithin,
}

-- As many nodes as a run can take.
abbrev pub enough_fuel : {W : Type 0} → RetailGraph W → ℕ
enough_fuel g = 6 * g.loop_policy.max_model_calls + 9

module _ {W : Type 0} (g : RetailGraph W) where
  pub rank_le : (n : Node) (s : RetailState) → rank g n s < enough_fuel g
  unfolding rank
  rank_le prepare_context s = omega arith
  rank_le call_model s = omega arith
  rank_le route_output s = ground arith
  rank_le validate_tools s = omega arith
  rank_le execute_tools s = omega arith
  rank_le close_exchange s = omega arith
  rank_le finalize s = omega arith

module _ {W : Type 0} (g : RetailGraph W) (request : RetailRunRequest) where
  -- The snapshots that the runs of a request can leave behind.
  pub data Left : Option Snapshot → Type 0 where
    nothing : Left none
    after_raise :
        {before : Option Snapshot} {after : Snapshot} (fuel : ℕ) (w v : W) (e : RunError)
        → Left before
        → enough_fuel g ≤ fuel
        → run g fuel request before w ≡ raised e after v
        → Left (some after)
    after_end :
        {before : Option Snapshot} (fuel : ℕ) (w v : W) (s : RetailState)
        → Left before
        → enough_fuel g ≤ fuel
        → run g fuel request before w ≡ done s v
        → Left (some (record { values = s; next = none }))

  abbrev pub entered : ℕ → Option Node → RetailState → W → Invoked W
  entered fuel none s w = done s w
  entered fuel (some n) s w = ainvoke g fuel n s w

  -- A kept snapshot is refused and stays, or its run goes on.
  pub resume_cases :
      (fuel : ℕ) (s : RetailState) (next : Option Node) (w : W)
      → ((e : RunError) × (resume g fuel request (record { values = s; next = next }) w
            ≡ raised e (record { values = s; next = next }) w))
        ⊎ (resume g fuel request (record { values = s; next = next }) w ≡ entered fuel next s w)
  unfolding resume
  resume_cases fuel s next w = elim (Result-cases (check_snapshot g request s)) [
    | inl (passed, e) ↦ inr (ground arith)
    | inr (x, e) ↦ inl (x, ground arith)
  ]

pub Invoked-cases :
    {W : Type 0} (r : Invoked W)
    → ((s : RetailState) × (v : W) × (r ≡ done s v))
      ⊎ (((e : RunError) × (after : Snapshot) × (v : W) × (r ≡ raised e after v))
          ⊎ (r ≡ out_of_fuel))
Invoked-cases (done s v) = inl (s, v, refl)
Invoked-cases (raised e after v) = inr (inl (e, after, v, refl))
Invoked-cases out_of_fuel = inr (inr refl)

-- What a node owes to an invariant.
abbrev pub Keeps :
    (I : Node → RetailState → Type 0) (F : RetailState → Type 0)
    → RetailState
    → Result RunError (Option Node)
    → Type 0
Keeps I F s (ok none) = F s
Keeps I F s (ok (some n)) = I n s
Keeps I F s (err e) = Unit {0}

-- An invariant of the nodes' states beside the limits.
module _ {W : Type 0} (g : RetailGraph W) (request : RetailRunRequest)
    (I : Node → RetailState → Type 0) (F : RetailState → Type 0)
    (start : I prepare_context (initial_state request))
    (keep : (n : Node) (s : RetailState) (w : W) (updated : RetailState)
      → IsWithin g n s
      → I n s
      → (run_node g n s w).0 ≡ ok updated
      → Keeps I F updated (next_node n updated)) where
  abbrev pub IsOurs : Node → RetailState → Type 0
  IsOurs n s = IsWithin g n s × I n s

  abbrev pub IsAnswer : RetailState → Type 0
  IsAnswer s = IsFinished g s × F s

  pub both :
      (bound : ℕ) (s : RetailState) (w : W) (edge : Result RunError (Option Node))
      → Follows g (IsWithin g) (λ t v. IsFinished g t) (rank g) bound s w edge
      → Keeps I F s edge
      → Follows g IsOurs (λ t v. IsAnswer t) (rank g) bound s w edge
  unfolding Follows
  both bound s w (ok none) h k = (h, k)
  both bound s w (ok (some m)) h k = ((h.0, k), h.1)
  both bound s w (err e) h k = h

  pub ainvoke-IsOurs :
      (fuel : ℕ) (n : Node) (s : RetailState) (w : W)
      → enough_fuel g ≤ fuel
      → IsOurs n s
      → Holds g IsOurs (λ t v. IsAnswer t) (ainvoke g fuel n s w)
  ainvoke-IsOurs fuel n s w enough ours =
      ainvoke_rule g IsOurs (λ t v. IsAnswer t) (rank g)
        (λ m t v updated mine returned.
          both (rank g m t) updated (run_node g m t v).1 (next_node m updated)
            (run_node-IsWithin g m t v updated mine.0 returned)
            (keep m t v updated mine.0 mine.1 returned))
        fuel n s w (omega (arith, rank_le g n s)) ours

  -- What a kept snapshot holds, and what a run ends with.
  abbrev pub FitsAt : Option Node → RetailState → Type 0
  FitsAt none s = IsAnswer s
  FitsAt (some n) s = IsOurs n s

  abbrev pub Fits : Option Snapshot → Type 0
  Fits none = Unit {0}
  Fits (some snapshot) = FitsAt snapshot.next snapshot.values

  abbrev pub Ends : Invoked W → Type 0
  Ends (done s v) = IsAnswer s
  Ends (raised e snapshot v) = Fits (some snapshot)
  Ends out_of_fuel = ⊥

  IsResumable-FitsAt : (o : Option Node) (s : RetailState) → IsResumable IsOurs o s → FitsAt o s
  IsResumable-FitsAt none s h = absurd h
  IsResumable-FitsAt (some n) s h = h

  Holds-Ends : (r : Invoked W) → Holds g IsOurs (λ t v. IsAnswer t) r → Ends r
  unfolding Holds
  Holds-Ends (done s v) h = h
  Holds-Ends (raised e snapshot v) h = IsResumable-FitsAt snapshot.next snapshot.values h
  Holds-Ends out_of_fuel h = h

  entered-Ends :
      (fuel : ℕ) (s : RetailState) (next : Option Node) (w : W)
      → enough_fuel g ≤ fuel
      → FitsAt next s
      → Ends (entered g request fuel next s w)
  entered-Ends fuel s none w enough fits = fits
  entered-Ends fuel s (some n) w enough fits = Holds-Ends _ (ainvoke-IsOurs fuel n s w enough fits)

  resume_at-Ends :
      (fuel : ℕ) (s : RetailState) (next : Option Node) (w : W)
      → enough_fuel g ≤ fuel
      → FitsAt next s
      → Ends (resume g fuel request (record { values = s; next = next }) w)
  resume_at-Ends fuel s next w enough fits = elim (resume_cases g request fuel s next w) [
    | inl (e, refused) ↦ rw refused fits
    | inr onward ↦ rw onward (entered-Ends fuel s next w enough fits)
  ]

  pub run-Ends :
      (fuel : ℕ) (before : Option Snapshot) (w : W)
      → enough_fuel g ≤ fuel
      → Fits before
      → Ends (run g fuel request before w)
  unfolding run
  run-Ends fuel none w enough fits = Holds-Ends _ (
      ainvoke-IsOurs fuel prepare_context (initial_state request) w enough
        (initial_state-IsWithin g request, start))
  run-Ends fuel (some snapshot) w enough fits =
      resume_at-Ends fuel snapshot.values snapshot.next w enough fits

  pub Left-Fits : {before : Option Snapshot} → Left g request before → Fits before
  Left-Fits nothing = tt
  Left-Fits (after_raise {before} {after} fuel w v e left enough h) =
      rw h at (run-Ends fuel before w enough (Left-Fits left))
  Left-Fits (after_end {before} fuel w v s left enough h) =
      rw h at (run-Ends fuel before w enough (Left-Fits left))
