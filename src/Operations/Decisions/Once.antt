-- ===== src/Operations/Decisions/Once.antt =====
-- Deciding a proposal again (src/commerce_agent/operations/_memory.py).
use commerce_analyst_agent.Prelude.{
  ◌≡◌, false, Option, some, inl, inr, arith, Option-cases, ap, ◌∙◌, refl,
}
use commerce_analyst_agent.Prelude.Dict.{get, get-put_self}
use commerce_analyst_agent.Prelude.Outcome.{ok, err}
use commerce_analyst_agent.Operations.Errors.{approval_error, proposal_already_decided}
use commerce_analyst_agent.Operations.Contracts.{
  DecisionReceipt, Instant, is_pending, proposal_ref_eq,
}
use commerce_analyst_agent.Operations.Ports.{Ports}
use commerce_analyst_agent.Operations.Approval.{StoredApproval}
use commerce_analyst_agent.Operations.References.{StoredProposal}
use commerce_analyst_agent.Operations.State.{OperationStore}
use commerce_analyst_agent.Operations.Proposals.{set_status, with_status}
use commerce_analyst_agent.Operations.Decisions.{decide_once, record_decision}

record_decision_proposals :
    (p : Ports) (receipt : DecisionReceipt) (approval : Option StoredApproval) (s : OperationStore)
    → (record_decision p receipt approval s).1.proposals ≡ s.proposals
unfolding record_decision
record_decision_proposals p receipt approval s = ground arith

-- What a decision that is recorded leaves of its proposal, and where its receipt stands.
decided :
    (p : Ports) (receipt : DecisionReceipt) (approval : Option StoredApproval) (now : Instant)
    (s : OperationStore) (returned : DecisionReceipt)
    → (decide_once p receipt approval now s).0 ≡ ok returned
    → (q : StoredProposal) × (get
          (decide_once p receipt approval now s).1.proposals
          receipt.proposal_ref
        ≡ some q)
      × (q.snapshot.status ≡ receipt.status)
unfolding decide_once
decided p receipt approval now s returned h =
    elim (Option-cases (get s.proposals receipt.proposal_ref)) [
      | inl absent ↦ absurd (ground arith)
      | inr (q, there) ↦
          let t = set_status s receipt.proposal_ref q receipt.status in
          (
            with_status q receipt.status,
            ground (
              arith,
              record_decision_proposals p receipt approval t,
              get-put_self s.proposals receipt.proposal_ref (with_status q receipt.status),
            ),
            refl,
          )
    ]

blocked :
    (p : Ports) (receipt : DecisionReceipt) (approval : Option StoredApproval) (now : Instant)
    (t : OperationStore) (q : StoredProposal)
    → get t.proposals receipt.proposal_ref ≡ some q
    → is_pending q.snapshot.status ≡ false
    → decide_once p receipt approval now t ≡ (err (approval_error proposal_already_decided), t)
unfolding decide_once
blocked p receipt approval now t q there settled = ground arith

-- Once a decision that is not pending is recorded, every further decision of the same proposal
-- raises `proposal_already_decided`, whatever it says and whenever it comes, and changes nothing.
pub decide_once_final :
    (p : Ports) (receipt again : DecisionReceipt) (approval second : Option StoredApproval)
    (now later : Instant) (s : OperationStore) (returned : DecisionReceipt)
    → (decide_once p receipt approval now s).0 ≡ ok returned
    → is_pending receipt.status ≡ false
    → again.proposal_ref ≡ receipt.proposal_ref
    → let t = (decide_once p receipt approval now s).1 in
      decide_once p again second later t ≡ (err (approval_error proposal_already_decided), t)
decide_once_final p receipt again approval second now later s returned h final same =
    let t = (decide_once p receipt approval now s).1 in
    let q = decided p receipt approval now s returned h in
    blocked p again second later t q.0 (ap (get t.proposals) same ∙ q.1) (ap is_pending q.2 ∙ final)
