-- ===== src/Orchestration/Retail/Progress.antt =====
-- Reasoning about an invocation of the retail graph: a rule for the runs along its edges, and the
-- state that each node of src/commerce_agent/orchestration/retail_graph.py starts from.
use commerce_analyst_agent.Prelude.{ℕ, zero, suc, ◌<◌, ◌≡◌, Option, none, some, inl, inr, arith}
use commerce_analyst_agent.Prelude.Outcome.{Result, ok, err, Result-cases}
use commerce_analyst_agent.RunErrors.{RunError}
use commerce_analyst_agent.Orchestration.Retail.{Node, RetailGraph, RetailState}
use commerce_analyst_agent.Orchestration.Retail.Graph.{
  Invoked, ainvoke, done, next_node, out_of_fuel, raised, run_node,
}

abbrev pub IsResumable : (P : Node → RetailState → Type 0) → Option Node → RetailState → Type 0
IsResumable P none s = ⊥
IsResumable P (some n) s = P n s

module _ {W : Type 0} (g : RetailGraph W) where
  -- A node's place in the graph with the state it starts from holds `P`, a finished run holds `Q`.
  unfoldable pub Holds :
      (P : Node → RetailState → Type 0) (Q : RetailState → W → Type 0) → Invoked W → Type 0
  Holds P Q (done s w) = Q s w
  Holds P Q (raised e snapshot w) = IsResumable P snapshot.next snapshot.values
  Holds P Q out_of_fuel = ⊥

  unfoldable pub Follows :
      (P : Node → RetailState → Type 0) (Q : RetailState → W → Type 0)
      → (Node → RetailState → ℕ)
      → ℕ
      → RetailState
      → W
      → Result RunError (Option Node)
      → Type 0
  Follows P Q rank bound s w (ok (some n)) = P n s × (rank n s < bound)
  Follows P Q rank bound s w (ok none) = Q s w
  Follows P Q rank bound s w (err e) = ⊥

  -- A run that fails at a node, one that leaves the graph, and one that goes on.
  ainvoke_err :
      (fuel : ℕ) (n : Node) (s : RetailState) (w : W) (e : RunError)
      → (run_node g n s w).0 ≡ err e
      → ainvoke g (suc fuel) n s w
        ≡ raised e (record { values = s; next = some n }) (run_node g n s w).1
  unfolding ainvoke
  ainvoke_err fuel n s w e failed = ground arith

  ainvoke_end :
      (fuel : ℕ) (n : Node) (s updated : RetailState) (w : W)
      → (run_node g n s w).0 ≡ ok updated
      → next_node n updated ≡ ok none
      → ainvoke g (suc fuel) n s w ≡ done updated (run_node g n s w).1
  unfolding ainvoke
  ainvoke_end fuel n s updated w returned edge = ground arith

  ainvoke_step :
      (fuel : ℕ) (n m : Node) (s updated : RetailState) (w : W)
      → (run_node g n s w).0 ≡ ok updated
      → next_node n updated ≡ ok (some m)
      → ainvoke g (suc fuel) n s w ≡ ainvoke g fuel m updated (run_node g n s w).1
  unfolding ainvoke
  ainvoke_step fuel n m s updated w returned edge = ground arith

  pub ainvoke_rule :
      (P : Node → RetailState → Type 0) (Q : RetailState → W → Type 0)
      (rank : Node → RetailState → ℕ)
      → ((n : Node) (s : RetailState) (w : W) (updated : RetailState)
          → P n s
          → (run_node g n s w).0 ≡ ok updated
          → Follows P Q rank (rank n s) updated (run_node g n s w).1 (next_node n updated))
      → (fuel : ℕ) (n : Node) (s : RetailState) (w : W) → rank n s < fuel
      → P n s
      → Holds P Q (ainvoke g fuel n s w)
  unfolding Holds Follows
  ainvoke_rule P Q rank step zero n s w enough p = absurd (omega arith)
  ainvoke_rule P Q rank step (suc fuel) n s w enough p = elim (Result-cases (run_node g n s w).0) [
    | inr (e, failed) ↦ rw (ainvoke_err fuel n s w e failed) p
    | inl (updated, returned) ↦
        let after = step n s w updated p returned in
        elim (Result-cases (next_node n updated)) [
          | inr (e, lost) ↦ absurd (rw lost at after)
          | inl (none, edge) ↦ rw (ainvoke_end fuel n s updated w returned edge) (rw edge at after)
          | inl (some m, edge) ↦
              let kept : P m updated × (rank m updated < rank n s) = rw edge at after in
              rw (ainvoke_step fuel n m s updated w returned edge)
                (ainvoke_rule P Q rank step fuel m updated _ (omega arith) kept.0)
        ]
  ]
