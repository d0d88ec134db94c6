-- ===== src/Operations/Decisions.antt =====
-- src/commerce_agent/operations/_memory.py: `InMemoryOperationStore.decide_once`.
pub mod Once
use commerce_analyst_agent.Prelude.{
  String, not, Option, none, some, leb, if◌then◌else◌, string_eq, option_eq, nat_eq, pair_eq,
}
use commerce_analyst_agent.Prelude.Dict.{get, put}
use commerce_analyst_agent.Prelude.Outcome.{ok, err, ◌>>=◌, bind_pure}
use commerce_analyst_agent.Operations.Errors.{
  Call, approval_error, proposal_already_decided, proposal_expired, proposal_not_found,
}
use commerce_analyst_agent.Operations.Contracts.{
  DecisionReceipt, ExecutionGrant, Instant, ProposalStatus, is_pending, proposal_ref_eq, status_eq,
}
use commerce_analyst_agent.Operations.Ports.{Ports}
use commerce_analyst_agent.Operations.Approval.{StoredApproval, execution_grant_sha256}
use commerce_analyst_agent.Operations.References.{StoredDecision}
use commerce_analyst_agent.Operations.State.{StoreMethod}
use commerce_analyst_agent.Operations.Proposals.{set_status}

-- What `decide_once` stores once the status is written; the digest of the grant may raise.
abbrev pub stored_decision :
    DecisionReceipt → Option StoredApproval → Option String → StoredDecision
stored_decision receipt approval grant_sha256 = record {
  status = receipt.status;
  approver_id = receipt.approver_id;
  decided_at = receipt.decided_at;
  reason = receipt.reason;
  approval = approval;
  grant_sha256 = grant_sha256;
}

abbrev pub grant_digest : Ports → Option ExecutionGrant → Call (Option String)
grant_digest p none = ok none
grant_digest p (some grant) = execution_grant_sha256 p grant >>= λ digest. ok (some digest)

unfoldable pub record_decision :
    Ports → DecisionReceipt → Option StoredApproval → StoreMethod DecisionReceipt
record_decision p receipt approval s =
    bind_pure (grant_digest p receipt.grant)
      (λ digest t. (
        ok receipt,
        record t {
          decisions =
              put t.decisions receipt.proposal_ref (stored_decision receipt approval digest);
          decision_receipts = put t.decision_receipts receipt.proposal_ref receipt;
        },
      ))
      s

unfoldable pub decide_once :
    Ports → DecisionReceipt → Option StoredApproval → Instant → StoreMethod DecisionReceipt
unfolding record_decision
decide_once p receipt approval now s = elim (get s.proposals receipt.proposal_ref) [
  | none ↦ (err (approval_error proposal_not_found), s)
  | some proposal ↦
      if not (is_pending proposal.snapshot.status)
      then (err (approval_error proposal_already_decided), s)
      else if leb proposal.snapshot.expires_at now
      then (
        err (approval_error proposal_expired),
        set_status s receipt.proposal_ref proposal ProposalStatus.expired,
      )
      else record_decision p receipt approval
          (set_status s receipt.proposal_ref proposal receipt.status)
]
