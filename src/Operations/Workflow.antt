-- ===== src/Operations/Workflow.antt =====
-- src/commerce_agent/operations/workflow.py: `OperationWorkflow`, its three methods over the
-- in-memory store.
use commerce_analyst_agent.Prelude.{
  ◌+◌, String, Bool, true, not, ◌||◌, Option, none, some, nat_beq, if◌then◌else◌, ◌==◌, string_eq,
  option_eq, nat_eq, pair_eq,
}
use commerce_analyst_agent.Prelude.Dict.{get}
use commerce_analyst_agent.Prelude.Outcome.{ok, err, ◌>>=◌, ◌>>◌, raise_if, bind_pure}
use commerce_analyst_agent.Operations.Errors.{
  Call, Reason, analyst_required, approval_error, approval_required, approver_required,
  authorization_error, grant_actor_mismatch, proposal_not_found, self_approval_denied,
}
use commerce_analyst_agent.Operations.Contracts.{
  ActorContext, Decision, DecisionReceipt, DecisionRequest, ExecuteRequest, ExecutionGrant,
  ExecutionReceipt, Instant, ProposalRef, ProposalSnapshot, ProposalStatus, Uuid, approve, hours,
  is_analyst, is_approved, is_approver, proposal_ref_eq, reject,
}
use commerce_analyst_agent.Operations.Ports.{Ports, Bytes}
use commerce_analyst_agent.Operations.Canonical.{canonical_command}
use commerce_analyst_agent.Operations.Approval.{
  HmacApprovalKeyring, StoredApproval, execution_grant_sha256, issue_grant, verify_grant,
}
use commerce_analyst_agent.Operations.References.{
  ProposalDraft, ProposeRequest, ReferenceValidator, StoredDecision, StoredProposal,
  validate_command,
}
use commerce_analyst_agent.Operations.State.{OperationStore, StoreMethod}
use commerce_analyst_agent.Operations.Preview.{preview_command}
use commerce_analyst_agent.Operations.Proposals.{create_or_get_proposal}
use commerce_analyst_agent.Operations.Decisions.{decide_once}
use commerce_analyst_agent.Operations.Execution.{execute_once}

-- What `OperationWorkflow` is built with. The clock, the nonce source and `uuid4` are read through
-- the arguments of the methods: each reading is an argument of its own.
pub record OperationWorkflow : Type 0 where
  pub ports : Ports
  pub references : ReferenceValidator
  pub keyring : HmacApprovalKeyring

-- `_require_role`, with the role's test
abbrev pub require_role : Bool → Reason → Call (Unit {0})
require_role holds reason = raise_if (not holds) (authorization_error reason)

unfoldable pub draft_of :
    OperationWorkflow → ProposeRequest → Instant → OperationStore → Call ProposalDraft
draft_of w request now s =
    require_role (is_analyst request.actor.role) analyst_required
    >> (validate_command w.references request.command request.evidence_refs >>= λ validated.
        preview_command s request.command >>= λ preview.
        canonical_command w.ports request.command preview.target_versions >>= λ canonical.
        ok (record {
          request = request;
          preview = preview;
          payload_sha256 = canonical.sha256;
          created_at = now;
          expires_at = now + hours 24;
          validated_references = validated;
        }))

unfoldable pub propose :
    OperationWorkflow → ProposeRequest → Instant → Uuid → StoreMethod ProposalSnapshot
unfolding draft_of create_or_get_proposal
propose w request now uuid4 s =
    bind_pure (draft_of w request now s) (create_or_get_proposal uuid4) s

-- `_require_proposal`
unfoldable pub require_proposal : OperationStore → ProposalRef → Call StoredProposal
require_proposal s proposal_ref = elim (get s.proposals proposal_ref) [
  | none ↦ err (approval_error proposal_not_found)
  | some proposal ↦ ok proposal
]

-- The readings that one `decide` takes: the nonce, and the clock three times.
pub record Readings : Type 0 where
  pub raw_nonce : Bytes
  pub issued_at : Instant
  pub decided_at : Instant
  pub committed_at : Instant

abbrev pub approval_of : StoredProposal → ActorContext → ExecutionGrant → String → StoredApproval
approval_of proposal actor grant nonce_digest = record {
  proposal_ref = proposal.snapshot.proposal_ref;
  payload_sha256 = proposal.snapshot.payload_sha256;
  requester_id = proposal.requester_id;
  approver_id = actor.actor_id;
  target_versions = proposal.snapshot.preview.target_versions;
  expires_at = grant.expires_at;
  nonce_digest = nonce_digest;
  key_version = grant.key_version;
}

-- `grant` and `approval`, which stay `None` when the request rejects
unfoldable pub issue_for :
    OperationWorkflow
    → DecisionRequest
    → Readings
    → StoredProposal
    → Call (Option ExecutionGrant × Option StoredApproval)
issue_for w request readings proposal = elim request.decision [
  | reject ↦ ok (none, none)
  | approve ↦
      issue_grant w.ports w.keyring readings.issued_at readings.raw_nonce
        proposal.snapshot.proposal_ref proposal.snapshot.payload_sha256 proposal.requester_id
        request.actor proposal.snapshot.preview.target_versions
      >>= λ issued. ok (some issued.0, some (approval_of proposal request.actor issued.0 issued.1))
]

abbrev pub decided_status : Decision → ProposalStatus
decided_status approve = ProposalStatus.approved
decided_status reject = ProposalStatus.rejected

abbrev pub receipt_of : DecisionRequest → Readings → Option ExecutionGrant → DecisionReceipt
receipt_of request readings grant = record {
  proposal_ref = request.proposal_ref;
  status = decided_status request.decision;
  approver_id = request.actor.actor_id;
  decided_at = readings.decided_at;
  reason = request.reason;
  grant = grant;
}

-- `decide` up to its call of the store: the receipt and the approval to be stored.
unfoldable pub prepare_decision :
    OperationWorkflow
    → DecisionRequest
    → Readings
    → OperationStore
    → Call (DecisionReceipt × Option StoredApproval)
unfolding require_proposal issue_for
prepare_decision w request readings s =
    require_role (is_approver request.actor.role) approver_required
    >> (require_proposal s request.proposal_ref >>= λ proposal.
        raise_if (nat_beq proposal.requester_id request.actor.actor_id)
          (authorization_error self_approval_denied)
        >> (issue_for w request readings proposal >>= λ issued.
            ok (receipt_of request readings issued.0, issued.1)))

unfoldable pub decide : OperationWorkflow → DecisionRequest → Readings → StoreMethod DecisionReceipt
unfolding prepare_decision decide_once
decide w request readings s =
    bind_pure (prepare_decision w request readings s)
      (λ prepared. decide_once w.ports prepared.0 prepared.1 readings.committed_at) s

abbrev pub granted_parts :
    Bool → Option StoredApproval → Option String → Call (StoredApproval × String)
granted_parts true (some approval) (some digest) = ok (approval, digest)
granted_parts _ _ _ = err (approval_error approval_required)

-- The `or` of `approval_required`: the decision's approval and digest, where it has all of them.
abbrev pub granted : StoredDecision → Call (StoredApproval × String)
granted d = granted_parts (is_approved d.status) d.approval d.grant_sha256

unfoldable pub require_decision : OperationStore → ProposalRef → Call StoredDecision
require_decision s proposal_ref = elim (get s.decisions proposal_ref) [
  | none ↦ err (approval_error approval_required)
  | some decision ↦ ok decision
]

abbrev pub granted_ref : ExecutionGrant → ProposalRef
granted_ref grant = record { proposal_id = grant.proposal_id; version = grant.proposal_version }

-- `existing is not None and execution_grant_sha256(request.grant) == decision.grant_sha256`
abbrev pub replayed :
    Ports → Option ExecutionReceipt → ExecutionGrant → String → Call (Option ExecutionReceipt)
replayed p none grant digest = ok none
replayed p (some existing) grant digest = execution_grant_sha256 p grant >>= λ supplied.
    ok (if supplied == digest then some existing else none)

-- What `execute` does before it calls the store: the receipt to return at once, or what to run.
pub data Plan : Type 0 where
  return_existing : ExecutionReceipt → Plan
  run_once : StoredProposal → StoredApproval → Plan

abbrev pub plan_of :
    OperationWorkflow
    → ExecuteRequest
    → Instant
    → StoredProposal
    → StoredApproval
    → Option ExecutionReceipt
    → Call Plan
plan_of w request now proposal approval (some existing) = ok (return_existing existing)
plan_of w request now proposal approval none =
    verify_grant w.ports w.keyring now request.grant approval request.actor
    >> ok (run_once proposal approval)

unfoldable pub prepare_execution :
    OperationWorkflow → ExecuteRequest → Instant → OperationStore → Call Plan
unfolding require_proposal require_decision
prepare_execution w request now s =
    require_role (is_approver request.actor.role) approver_required
    >> (require_proposal s (granted_ref request.grant) >>= λ proposal.
        require_decision s (granted_ref request.grant) >>= λ decision. granted decision >>= λ parts.
        raise_if
          (not (nat_beq request.actor.actor_id decision.approver_id)
            || not (nat_beq request.grant.approver_id decision.approver_id))
          (authorization_error grant_actor_mismatch)
        >> (replayed w.ports (get s.executions (granted_ref request.grant)) request.grant parts.1
            >>= λ existing. plan_of w request now proposal parts.0 existing))

abbrev pub run_plan : Ports → Instant → Plan → StoreMethod ExecutionReceipt
run_plan p now (return_existing existing) s = (ok existing, s)
run_plan p now (run_once proposal approval) s = execute_once p proposal approval now s

-- `execute`: `verified_at` and `committed_at` are its two readings of the clock.
unfoldable pub execute :
    OperationWorkflow → ExecuteRequest → Instant → Instant → StoreMethod ExecutionReceipt
unfolding prepare_execution execute_once
execute w request verified_at committed_at s =
    bind_pure (prepare_execution w request verified_at s) (run_plan w.ports committed_at) s
