-- ===== src/Operations/Invariant/Deciding.antt =====
-- `decide_once` and the order of the store (src/commerce_agent/operations/_memory.py).
use commerce_analyst_agent.Prelude.{
  ◌≡◌, ◌≢◌, ◌⊎◌, refl, sym, ap, ◌∙◌, true, none, some, inl, inr, arith, Option-cases, Bool-cases,
  Option, leb,
}
use commerce_analyst_agent.Prelude.Dict.{get, put, get-put_cases, get-put_self}
use commerce_analyst_agent.Prelude.Outcome.{Result-cases}
use commerce_analyst_agent.Operations.Contracts.{
  DecisionReceipt, Instant, ProposalRef, ProposalStatus, is_pending, proposal_ref_eq,
}
use commerce_analyst_agent.Operations.Ports.{Ports}
use commerce_analyst_agent.Operations.Approval.{StoredApproval}
use commerce_analyst_agent.Operations.References.{StoredDecision, StoredProposal}
use commerce_analyst_agent.Operations.State.{OperationStore}
use commerce_analyst_agent.Operations.Proposals.{set_status, with_status}
use commerce_analyst_agent.Operations.Decisions.{
  decide_once, grant_digest, record_decision, stored_decision,
}
use commerce_analyst_agent.Operations.Invariant.{IsDecided, IsOrderly, settle-IsOrderly, undecided}

-- Writing the decision of a proposal that has just been settled keeps the order.
module _ (t : OperationStore) (o : IsOrderly t) (receipt : DecisionReceipt) (d : StoredDecision)
    (q : StoredProposal) (here : get t.proposals receipt.proposal_ref ≡ some q)
    (new : get t.decisions receipt.proposal_ref ≡ none) (hands : q.requester_id ≢ d.approver_id)
    (same : q.snapshot.status ≡ d.status) (final : d.status ≢ ProposalStatus.pending) where
  abbrev added : OperationStore
  added = record t {
    decisions = put t.decisions receipt.proposal_ref d;
    decision_receipts = put t.decision_receipts receipt.proposal_ref receipt;
  }

  after :
      (k : ProposalRef) (e : StoredDecision)
      → get added.decisions k ≡ some e
      → ((receipt.proposal_ref ≡ k) × (e ≡ d)) ⊎ (get t.decisions k ≡ some e)
  after k e h = elim (get-put_cases t.decisions receipt.proposal_ref d k) [
    | inl (f, g) ↦ inl (f, ground arith)
    | inr (n, g) ↦ inr (sym g ∙ h)
  ]

  added-IsDecided :
      (k : ProposalRef) (e : StoredDecision) → get added.decisions k ≡ some e → IsDecided added k e
  added-IsDecided k e h = elim (after k e h) [
    | inl (f, g) ↦ rw g (record {
      proposal = q;
      found = ap (get t.proposals) (sym f) ∙ here;
      other_hands = hands;
      same_status = same;
    })
    | inr old ↦
        let r = o.decided k e old in
        record {
          proposal = r.proposal;
          found = r.found;
          other_hands = r.other_hands;
          same_status = r.same_status;
        }
  ]

  added_settled :
      (k : ProposalRef) (e : StoredDecision)
      → get added.decisions k ≡ some e
      → e.status ≢ ProposalStatus.pending
  added_settled k e h = elim (after k e h) [ inl (f, g) ↦ rw g final | inr old ↦ o.settled k e old ]

  added_executed :
      (k : ProposalRef)
      → get t.executions k ≢ none
      → (e : StoredDecision) × (get added.decisions k ≡ some e)
        × (e.status ≡ ProposalStatus.approved)
  added_executed k h =
      let (e, there, approved) = o.executed k h in
      elim (get-put_cases t.decisions receipt.proposal_ref d k) [
        | inl (f, g) ↦ cc (new, there, ap (get t.decisions) f)
        | inr (n, g) ↦ (e, g ∙ there, approved)
      ]

  added-IsOrderly : IsOrderly added
  added-IsOrderly = record {
    keyed = o.keyed;
    bounded = o.bounded;
    pending_latest = o.pending_latest;
    decided = added-IsDecided;
    settled = added_settled;
    executed = added_executed;
  }

pub is_pending-eq : (a : ProposalStatus) → is_pending a ≡ true → a ≡ ProposalStatus.pending
is_pending-eq a h = ground arith

module _ (p : Ports) (receipt : DecisionReceipt) (approval : Option StoredApproval)
    (s : OperationStore) (o : IsOrderly s) (final : receipt.status ≢ ProposalStatus.pending) where
  recorded :
      (q : StoredProposal)
      → get s.proposals receipt.proposal_ref ≡ some q
      → q.snapshot.status ≡ ProposalStatus.pending
      → q.requester_id ≢ receipt.approver_id
      → IsOrderly
          (record_decision p receipt approval
            (set_status s receipt.proposal_ref q receipt.status)).1
  unfolding record_decision
  recorded q here waiting hands =
      let t = set_status s receipt.proposal_ref q receipt.status in
      let settled = settle-IsOrderly s o receipt.proposal_ref q receipt.status here waiting final in
      elim (Result-cases (grant_digest p receipt.grant)) [
        | inr (e, f) ↦ rw f settled
        | inl (digest, f) ↦ rw f (
            added-IsOrderly t settled receipt (stored_decision receipt approval digest)
              (with_status q receipt.status)
              (get-put_self s.proposals receipt.proposal_ref (with_status q receipt.status))
              (undecided s o receipt.proposal_ref q here waiting) hands refl final)
      ]

  -- A decision by someone else than the requester, with a final status, keeps the order, whether it
  -- is recorded, refused, or finds the proposal expired.
  pub decide_once-IsOrderly :
      (now : Instant)
      → ((q : StoredProposal)
          → get s.proposals receipt.proposal_ref ≡ some q
          → q.requester_id ≢ receipt.approver_id)
      → IsOrderly (decide_once p receipt approval now s).1
  unfolding decide_once
  decide_once-IsOrderly now hands = elim (Option-cases (get s.proposals receipt.proposal_ref)) [
    | inl e ↦ rw (e, decide_once) o
    | inr (q, e) ↦ elim (Bool-cases (is_pending q.snapshot.status)) [
      | inr decided ↦ rw (e, decide_once) (rw decided o)
      | inl waiting ↦ elim (Bool-cases (leb q.snapshot.expires_at now)) [
        | inl late ↦
            rw (e, decide_once)
              (rw (waiting, late)
                (settle-IsOrderly s o receipt.proposal_ref q ProposalStatus.expired e
                  (is_pending-eq q.snapshot.status waiting) (λ h. cc)))
        | inr early ↦
            rw (e, decide_once)
              (rw (waiting, early)
                (recorded q e (is_pending-eq q.snapshot.status waiting) (hands q e)))
      ]
    ]
  ]
