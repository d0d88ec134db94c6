-- ===== src/Operations/Invariant/Reach.antt =====
-- What holds of every store that the workflow can reach
-- (src/commerce_agent/operations/workflow.py over _memory.py).
use commerce_analyst_agent.Prelude.{◌≡◌, ◌≢◌, refl, none, arith, nat_eq, inl, inr}
use commerce_analyst_agent.Prelude.Dict.{Dict, get}
use commerce_analyst_agent.Prelude.Outcome.{ok, Result-cases}
use commerce_analyst_agent.Operations.Contracts.{
  DecisionRequest, ExecuteRequest, ExecutionReceipt, Instant, Uuid, proposal_ref_eq,
}
use commerce_analyst_agent.Operations.Approval.{StoredApproval}
use commerce_analyst_agent.Operations.References.{ProposeRequest, StoredProposal}
use commerce_analyst_agent.Operations.State.{InvestigationTaskState, OperationStore, initial}
use commerce_analyst_agent.Operations.Workflow.{
  OperationWorkflow, Readings, decide, execute, granted_ref, prepare_execution, propose,
  return_existing, run_once,
}
use commerce_analyst_agent.Operations.Invariant.{IsOrderly}
use commerce_analyst_agent.Operations.Invariant.Executing.{
  IsAuthorized, decide-IsOrderly, execute-IsOrderly, prepare_execution_existing,
  prepare_execution_sound, propose-IsOrderly,
}

module _ (w : OperationWorkflow) where
  -- One call of a public method, whatever its request and the readings of the clock and the nonce
  -- source. `uuid4` gives an identifier that no proposal has.
  pub data Step : OperationStore → OperationStore → Type 0 where
    proposes :
        (request : ProposeRequest) (now : Instant) (uuid4 : Uuid) (s : OperationStore)
        → get s.latest_versions uuid4 ≡ none
        → Step s (propose w request now uuid4 s).1
    decides :
        (request : DecisionRequest) (readings : Readings) (s : OperationStore)
        → Step s (decide w request readings s).1
    executes :
        (request : ExecuteRequest) (verified_at committed_at : Instant) (s : OperationStore)
        → Step s (execute w request verified_at committed_at s).1

  pub data Reach (start : OperationStore) : OperationStore → Type 0 where
    here : Reach start start
    next : {s t : OperationStore} → Reach start s → Step s t → Reach start t

  Step-IsOrderly : {s t : OperationStore} → Step s t → IsOrderly s → IsOrderly t
  Step-IsOrderly (proposes request now uuid4 s unseen) o =
      propose-IsOrderly w request now uuid4 s unseen o
  Step-IsOrderly (decides request readings s) o = decide-IsOrderly w request readings s o
  Step-IsOrderly (executes request verified_at committed_at s) o =
      execute-IsOrderly w request verified_at committed_at s o

  Run-IsOrderly : {s t : OperationStore} → Reach s t → IsOrderly s → IsOrderly t
  Run-IsOrderly here o = o
  Run-IsOrderly (next r step) o = Step-IsOrderly step (Run-IsOrderly r o)

initial-IsOrderly : (tasks : Dict Uuid InvestigationTaskState) → IsOrderly (initial tasks)
unfolding get
initial-IsOrderly tasks = record {
  keyed = λ k q h. cc;
  bounded = λ k q h. cc;
  pending_latest = λ k q h w. cc;
  decided = λ k d h. cc;
  settled = λ k d h. cc;
  executed = λ k h. absurd (h refl);
}

-- Every store that calls of `propose`, `decide` and `execute` reach from an empty workflow is
-- orderly: a proposal stands under its own reference and at most at the latest version of its
-- identifier, only the latest version may be pending, every decision is by someone else than the
-- requester and has its proposal's final status, and every execution belongs to an approval.
pub Reach-IsOrderly :
    (w : OperationWorkflow) (tasks : Dict Uuid InvestigationTaskState) (s : OperationStore)
    → Reach w (initial tasks) s
    → IsOrderly s
Reach-IsOrderly w tasks s r = Run-IsOrderly w r (initial-IsOrderly tasks)

-- In a reachable store, an `execute` that returns a receipt for a proposal that was not executed
-- before is authorised at the moment of its check: the proposal is stored, its recorded decision
-- is an approval, the grant verifies against the recorded approval, the caller is an approver and
-- the one who decided, and that caller is not the requester.
pub execute_four_eyes :
    (w : OperationWorkflow) (tasks : Dict Uuid InvestigationTaskState) (s : OperationStore)
    (request : ExecuteRequest) (verified_at committed_at : Instant) (receipt : ExecutionReceipt)
    → Reach w (initial tasks) s
    → get s.executions (granted_ref request.grant) ≡ none
    → (execute w request verified_at committed_at s).0 ≡ ok receipt
    → (q : StoredProposal) × (a : StoredApproval) × IsAuthorized w request verified_at s q a
      × (q.requester_id ≢ request.actor.actor_id)
unfolding execute
execute_four_eyes w tasks s request verified_at committed_at receipt r fresh h =
    elim (Result-cases (prepare_execution w request verified_at s)) [
      | inr (e, f) ↦ absurd (ground arith)
      | inl (return_existing existing, f) ↦
          cc (fresh, prepare_execution_existing w request verified_at s existing f)
      | inl (run_once q a, f) ↦
          let auth = prepare_execution_sound w request verified_at s q a f in
          let decided =
            (Reach-IsOrderly w tasks s r).decided (granted_ref request.grant) auth.decision
              auth.decision_there in
          (
            q,
            a,
            auth,
            λ same.
                decided.other_hands
                  (ground (arith, decided.found, auth.proposal_there, auth.same_actor)),
          )
    ]
