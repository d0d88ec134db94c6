-- ===== src/Operations/Invariant.antt =====
-- The invariant of the in-memory operation store (src/commerce_agent/operations/_memory.py): how
-- its dicts of proposals, versions, decisions and executions fit together.
pub mod Deciding
pub mod Proposing
pub mod Executing
pub mod Reach
use commerce_analyst_agent.Prelude.{
  ℕ, ◌≤◌, ◌≡◌, ◌≢◌, ◌⊎◌, sym, ap, ◌∙◌, none, some, inl, inr, arith, Option-cases, nat_eq,
}
use commerce_analyst_agent.Prelude.Dict.{get, get-put_cases}
use commerce_analyst_agent.Operations.Contracts.{ProposalRef, ProposalStatus, proposal_ref_eq}
use commerce_analyst_agent.Operations.References.{StoredDecision, StoredProposal}
use commerce_analyst_agent.Operations.State.{OperationStore}
use commerce_analyst_agent.Operations.Proposals.{set_status, with_status}

-- The proposal of a decision: someone else's, with the decision's status.
pub record IsDecided (s : OperationStore) (k : ProposalRef) (d : StoredDecision) : Type 0 where
  pub proposal : StoredProposal
  pub found : get s.proposals k ≡ some proposal
  pub other_hands : proposal.requester_id ≢ d.approver_id
  pub same_status : proposal.snapshot.status ≡ d.status

pub record IsOrderly (s : OperationStore) : Type 0 where
  -- A proposal stands under its own reference.
  pub keyed :
      (k : ProposalRef) (q : StoredProposal)
      → get s.proposals k ≡ some q
      → q.snapshot.proposal_ref ≡ k
  -- No version is past the latest.
  pub bounded :
      (k : ProposalRef) (q : StoredProposal)
      → get s.proposals k ≡ some q
      → (v : ℕ) × (get s.latest_versions k.proposal_id ≡ some v) × (k.version ≤ v)
  -- Only the latest version is pending.
  pub pending_latest :
      (k : ProposalRef) (q : StoredProposal)
      → get s.proposals k ≡ some q
      → q.snapshot.status ≡ ProposalStatus.pending
      → get s.latest_versions k.proposal_id ≡ some k.version
  pub decided :
      (k : ProposalRef) (d : StoredDecision) → get s.decisions k ≡ some d → IsDecided s k d
  -- What has been decided is no longer pending.
  pub settled :
      (k : ProposalRef) (d : StoredDecision)
      → get s.decisions k ≡ some d
      → d.status ≢ ProposalStatus.pending
  -- What has been executed was approved.
  pub executed :
      (k : ProposalRef)
      → get s.executions k ≢ none
      → (d : StoredDecision) × (get s.decisions k ≡ some d) × (d.status ≡ ProposalStatus.approved)

pub undecided :
    (s : OperationStore) (o : IsOrderly s) (key : ProposalRef) (q : StoredProposal)
    → get s.proposals key ≡ some q
    → q.snapshot.status ≡ ProposalStatus.pending
    → get s.decisions key ≡ none
undecided s o key q here waiting = elim (Option-cases (get s.decisions key)) [
  | inl e ↦ e
  | inr (d, e) ↦
      let r = o.decided key d e in
      absurd (o.settled key d e (ground (arith, r.found, r.same_status)))
]

-- Settling a pending proposal keeps the order.
module _ (s : OperationStore) (o : IsOrderly s) (key : ProposalRef) (q : StoredProposal)
    (status : ProposalStatus) (here : get s.proposals key ≡ some q)
    (waiting : q.snapshot.status ≡ ProposalStatus.pending)
    (final : status ≢ ProposalStatus.pending) where
  -- What stands at `k` afterwards is the settled proposal, or what stood there before.
  after :
      (k : ProposalRef) (r : StoredProposal)
      → get (set_status s key q status).proposals k ≡ some r
      → ((key ≡ k) × (r ≡ with_status q status)) ⊎ ((key ≢ k) × (get s.proposals k ≡ some r))
  after k r h = elim (get-put_cases s.proposals key (with_status q status) k) [
    | inl (e, f) ↦ inl (e, ground arith)
    | inr (n, f) ↦ inr (n, sym f ∙ h)
  ]

  settle_keyed :
      (k : ProposalRef) (r : StoredProposal)
      → get (set_status s key q status).proposals k ≡ some r
      → r.snapshot.proposal_ref ≡ k
  settle_keyed k r h = elim (after k r h) [
    | inl (e, f) ↦ ground (arith, o.keyed key q here)
    | inr (n, f) ↦ o.keyed k r f
  ]

  settle_bounded :
      (k : ProposalRef) (r : StoredProposal)
      → get (set_status s key q status).proposals k ≡ some r
      → (v : ℕ) × (get s.latest_versions k.proposal_id ≡ some v) × (k.version ≤ v)
  settle_bounded k r h = elim (after k r h) [
    | inl (e, f) ↦ o.bounded k q (ap (get s.proposals) (sym e) ∙ here)
    | inr (n, f) ↦ o.bounded k r f
  ]

  settle_latest :
      (k : ProposalRef) (r : StoredProposal)
      → get (set_status s key q status).proposals k ≡ some r
      → r.snapshot.status ≡ ProposalStatus.pending
      → get s.latest_versions k.proposal_id ≡ some k.version
  settle_latest k r h w = elim (after k r h) [
    | inl (e, f) ↦ absurd (final (ground arith))
    | inr (n, f) ↦ o.pending_latest k r f w
  ]

  settle-IsDecided :
      (k : ProposalRef) (d : StoredDecision)
      → get s.decisions k ≡ some d
      → IsDecided (set_status s key q status) k d
  settle-IsDecided k d h =
      let r = o.decided k d h in
      elim (get-put_cases s.proposals key (with_status q status) k) [
        | inl (e, f) ↦ cc (undecided s o key q here waiting, h, ap (get s.decisions) e)
        | inr (n, f) ↦ record {
          proposal = r.proposal;
          found = f ∙ r.found;
          other_hands = r.other_hands;
          same_status = r.same_status;
        }
      ]

  pub settle-IsOrderly : IsOrderly (set_status s key q status)
  settle-IsOrderly = record {
    keyed = settle_keyed;
    bounded = settle_bounded;
    pending_latest = settle_latest;
    decided = settle-IsDecided;
    settled = o.settled;
    executed = o.executed;
  }
