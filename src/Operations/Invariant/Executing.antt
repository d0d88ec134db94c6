-- ===== src/Operations/Invariant/Executing.antt =====
-- The workflow's steps and the order of the store (src/commerce_agent/operations/workflow.py).
use commerce_analyst_agent.Prelude.{
  ◌≡◌, ◌≢◌, sym, ap, ◌∙◌, true, none, some, inl, inr, arith, Option-cases, Option, nat_beq_iff,
  string_eq, nat_eq,
}
use commerce_analyst_agent.Prelude.Dict.{get, put, get-put_cases}
use commerce_analyst_agent.Prelude.Outcome.{Result, ok, err, Result-cases}
use commerce_analyst_agent.Operations.Errors.{OperationError}
use commerce_analyst_agent.Operations.Contracts.{
  DecisionReceipt, DecisionRequest, ExecuteRequest, ExecutionReceipt, Instant, ProposalRef,
  ProposalStatus, Uuid, is_approved, is_approver, proposal_ref_eq,
}
use commerce_analyst_agent.Operations.Ports.{Ports}
use commerce_analyst_agent.Operations.Approval.{StoredApproval, verify_grant}
use commerce_analyst_agent.Operations.References.{ProposeRequest, StoredDecision, StoredProposal}
use commerce_analyst_agent.Operations.State.{OperationStore}
use commerce_analyst_agent.Operations.Workflow.{
  OperationWorkflow, Readings, decide, draft_of, execute, granted_ref, prepare_decision,
  prepare_execution, propose, return_existing, run_once,
}
use commerce_analyst_agent.Operations.Execution.{
  VersionChange, apply_command, commit_execution, execute_once, execution_receipt,
}
use commerce_analyst_agent.Operations.Execution.Atomicity.{Applied, apply_command-Applied}
use commerce_analyst_agent.Operations.Invariant.{IsOrderly}
use commerce_analyst_agent.Operations.Invariant.Deciding.{decide_once-IsOrderly}
use commerce_analyst_agent.Operations.Invariant.Proposing.{create_or_get_proposal-IsOrderly}

pub propose-IsOrderly :
    (w : OperationWorkflow) (request : ProposeRequest) (now : Instant) (uuid4 : Uuid)
    (s : OperationStore)
    → get s.latest_versions uuid4 ≡ none
    → IsOrderly s
    → IsOrderly (propose w request now uuid4 s).1
unfolding propose
propose-IsOrderly w request now uuid4 s unseen o = elim (Result-cases (draft_of w request now s)) [
  | inl (draft, e) ↦ rw e (create_or_get_proposal-IsOrderly uuid4 draft s unseen o)
  | inr (e, f) ↦ rw f o
]

-- What `decide` hands to the store comes from someone else than the requester, with a final status.
pub prepare_decision_sound :
    (w : OperationWorkflow) (request : DecisionRequest) (readings : Readings) (s : OperationStore)
    (receipt : DecisionReceipt) (approval : Option StoredApproval)
    → prepare_decision w request readings s ≡ ok (receipt, approval)
    → (receipt.status ≢ ProposalStatus.pending)
      × ((q : StoredProposal)
          → get s.proposals receipt.proposal_ref ≡ some q
          → q.requester_id ≢ receipt.approver_id)
unfolding prepare_decision
prepare_decision_sound w request readings s receipt approval h = (
  λ e. ground arith,
  λ q found same. ground (arith, nat_beq_iff q.requester_id request.actor.actor_id),
)

-- What an execution stands on: a stored proposal, an approval that its decision has recorded, and
-- a grant that verifies against it, in the hands of the approver.
pub record IsAuthorized (w : OperationWorkflow) (request : ExecuteRequest) (now : Instant)
    (s : OperationStore) (q : StoredProposal) (a : StoredApproval) : Type 0 where
  pub decision : StoredDecision
  pub proposal_there : get s.proposals (granted_ref request.grant) ≡ some q
  pub decision_there : get s.decisions (granted_ref request.grant) ≡ some decision
  pub approved : is_approved decision.status ≡ true
  pub approval_there : decision.approval ≡ some a
  pub role : is_approver request.actor.role ≡ true
  pub same_actor : request.actor.actor_id ≡ decision.approver_id
  pub verified : verify_grant w.ports w.keyring now request.grant a request.actor ≡ ok tt

-- `execute` runs a proposal only when it is authorised.
pub prepare_execution_sound :
    (w : OperationWorkflow) (request : ExecuteRequest) (now : Instant) (s : OperationStore)
    (q : StoredProposal) (a : StoredApproval)
    → prepare_execution w request now s ≡ ok (run_once q a)
    → IsAuthorized w request now s q a
unfolding prepare_execution
prepare_execution_sound w request now s q a h =
    elim (Option-cases (get s.decisions (granted_ref request.grant))) [
      | inl e ↦ absurd (ground arith)
      | inr (d, e) ↦ record {
        decision = d;
        proposal_there = ground arith;
        decision_there = e;
        approved = ground arith;
        approval_there = ground arith;
        role = ground arith;
        same_actor = ground (arith, nat_beq_iff request.actor.actor_id d.approver_id);
        verified = ground arith;
      }
    ]

-- A receipt is returned at once only where it is stored.
pub prepare_execution_existing :
    (w : OperationWorkflow) (request : ExecuteRequest) (now : Instant) (s : OperationStore)
    (receipt : ExecutionReceipt)
    → prepare_execution w request now s ≡ ok (return_existing receipt)
    → get s.executions (granted_ref request.grant) ≡ some receipt
unfolding prepare_execution
prepare_execution_existing w request now s receipt h = ground arith

is_approved-eq : (a : ProposalStatus) → is_approved a ≡ true → a ≡ ProposalStatus.approved
is_approved-eq a h = ground arith

-- The order rests on four dicts only.
module _ (s t : OperationStore) (o : IsOrderly s) (proposals : t.proposals ≡ s.proposals)
    (latest : t.latest_versions ≡ s.latest_versions) (decisions : t.decisions ≡ s.decisions)
    (executed : (k : ProposalRef)
      → get t.executions k ≢ none
      → (d : StoredDecision) × (get s.decisions k ≡ some d)
        × (d.status ≡ ProposalStatus.approved)) where
  before :
      (k : ProposalRef) {q : StoredProposal}
      → get t.proposals k ≡ some q
      → get s.proposals k ≡ some q
  before k h = rw proposals at h

  held :
      (k : ProposalRef) {d : StoredDecision}
      → get t.decisions k ≡ some d
      → get s.decisions k ≡ some d
  held k h = rw decisions at h

  carried-IsOrderly : IsOrderly t
  carried-IsOrderly = record {
    keyed = λ k q h. o.keyed k q (before k h);
    bounded = λ k q h. rw latest (o.bounded k q (before k h));
    pending_latest = λ k q h w. rw latest (o.pending_latest k q (before k h) w);
    decided = λ k d h.
        let r = o.decided k d (held k h) in
        record {
          proposal = r.proposal;
          found = rw proposals r.found;
          other_hands = r.other_hands;
          same_status = r.same_status;
        };
    settled = λ k d h. o.settled k d (held k h);
    executed = λ k h. rw decisions (executed k h);
  }

-- Storing the receipt of an approved proposal adds no execution that was not approved.
executed_after :
    (s t : OperationStore) (o : IsOrderly s) (key : ProposalRef) (receipt : ExecutionReceipt)
    (d : StoredDecision)
    → get s.decisions key ≡ some d
    → d.status ≡ ProposalStatus.approved
    → t.executions ≡ s.executions
    → (k : ProposalRef) → get (put t.executions key receipt) k ≢ none
    → (e : StoredDecision) × (get s.decisions k ≡ some e) × (e.status ≡ ProposalStatus.approved)
executed_after s t o key receipt d there approved same k h =
    elim (get-put_cases t.executions key receipt k) [
      | inl (f, g) ↦ (d, ap (get s.decisions) (sym f) ∙ there, approved)
      | inr (n, g) ↦ o.executed k (λ gone. h (g ∙ ap (λ m. get m k) same ∙ gone))
    ]

commit-IsOrderly :
    (p : Ports) (q : StoredProposal) (a : StoredApproval) (now : Instant) (s : OperationStore)
    (d : StoredDecision)
    → IsOrderly s
    → get s.decisions q.snapshot.proposal_ref ≡ some d
    → d.status ≡ ProposalStatus.approved
    → (change : Result OperationError VersionChange × OperationStore) → Applied s change
    → IsOrderly (commit_execution p q a now change).1
commit-IsOrderly p q a now s d o there approved (err e, t) same = rw same o
commit-IsOrderly p q a now s d o there approved (ok change, t) same =
    carried-IsOrderly s (commit_execution p q a now (ok change, t)).1 o same.1 same.2 same.3 (
      executed_after s t o q.snapshot.proposal_ref (execution_receipt p q change now) d there
        approved same.4)

-- Running a proposal whose decision is an approval keeps the order.
execute_once-IsOrderly :
    (p : Ports) (q : StoredProposal) (a : StoredApproval) (now : Instant) (s : OperationStore)
    (d : StoredDecision)
    → IsOrderly s
    → get s.decisions q.snapshot.proposal_ref ≡ some d
    → d.status ≡ ProposalStatus.approved
    → IsOrderly (execute_once p q a now s).1
unfolding execute_once
execute_once-IsOrderly p q a now s d o there approved =
    elim (Option-cases (get s.executions q.snapshot.proposal_ref)) [
      | inr (old, e) ↦ rw (e, execute_once) o
      | inl e ↦ elim (Option-cases (get s.nonce_claims a.nonce_digest)) [
        | inr (by, f) ↦ rw (e, execute_once) (rw f o)
        | inl f ↦
            rw (e, execute_once)
              (rw f (
                commit-IsOrderly p q a now s d o there approved
                  (apply_command p q.command q.snapshot.proposal_ref s)
                  (apply_command-Applied p q.command q.snapshot.proposal_ref s)))
      ]
    ]

pub execute-IsOrderly :
    (w : OperationWorkflow) (request : ExecuteRequest) (verified_at committed_at : Instant)
    (s : OperationStore)
    → IsOrderly s
    → IsOrderly (execute w request verified_at committed_at s).1
unfolding execute
execute-IsOrderly w request verified_at committed_at s o =
    elim (Result-cases (prepare_execution w request verified_at s)) [
      | inr (e, f) ↦ rw f o
      | inl (return_existing existing, f) ↦ rw f o
      | inl (run_once q a, f) ↦
          let h = prepare_execution_sound w request verified_at s q a f in
          rw f (
            execute_once-IsOrderly w.ports q a committed_at s h.decision o
              (ap (get s.decisions) (o.keyed (granted_ref request.grant) q h.proposal_there)
                ∙ h.decision_there)
              (is_approved-eq h.decision.status h.approved))
    ]

pub decide-IsOrderly :
    (w : OperationWorkflow) (request : DecisionRequest) (readings : Readings) (s : OperationStore)
    → IsOrderly s
    → IsOrderly (decide w request readings s).1
unfolding decide
decide-IsOrderly w request readings s o =
    elim (Result-cases (prepare_decision w request readings s)) [
      | inr (e, f) ↦ rw f o
      | inl ((receipt, approval), f) ↦
          let h = prepare_decision_sound w request readings s receipt approval f in
          rw f (decide_once-IsOrderly w.ports receipt approval s o h.0 readings.committed_at h.1)
    ]
