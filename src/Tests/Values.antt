-- ===== src/Tests/Values.antt =====
-- The concrete values that the tests share.
use commerce_analyst_agent.Prelude.{ℕ, none, some, List, [], ◌∷◌}
use commerce_analyst_agent.Operations.Contracts.{
  ActorContext, ActorRole, Decision, DecisionReceipt, DecisionRequest, EvidenceRef, ExecuteRequest,
  ExecutionGrant, InvestigationStatus, ProposalRef, ProposalStatus,
}
use commerce_analyst_agent.Operations.Commands.{
  OperationCommand, Priority, create_investigation_task, transition_investigation,
}
use commerce_analyst_agent.Operations.Ports.{Bytes, Ports}
use commerce_analyst_agent.Operations.Approval.{HmacApprovalKeyring, StoredApproval}
use commerce_analyst_agent.Operations.References.{
  ProposalDraft, ProposeRequest, StoredProposal, ValidatedReferences,
}
use commerce_analyst_agent.Operations.State.{InvestigationTaskState, OperationStore, initial}
use commerce_analyst_agent.Operations.Workflow.{OperationWorkflow, Readings}

abbrev pub thirty_two_bytes : Bytes
thirty_two_bytes =
    0 ∷ 1 ∷ 2 ∷ 3 ∷ 4 ∷ 5 ∷ 6 ∷ 7 ∷ 8 ∷ 9 ∷ 10 ∷ 11 ∷ 12 ∷ 13 ∷ 14 ∷ 15 ∷ 16 ∷ 17 ∷ 18 ∷ 19 ∷ 20
    ∷ 21 ∷ 22 ∷ 23 ∷ 24 ∷ 25 ∷ 26 ∷ 27 ∷ 28 ∷ 29 ∷ 30 ∷ 31 ∷ []

abbrev pub ports : Ports
ports = record {
  sha256_hex = λ bytes. "digest";
  hmac_hex = λ key message. "mac";
  json_bytes = λ json. 123 ∷ 125 ∷ [];
  b64_encode = λ bytes. "bm9uY2U=";
  b64_decode = λ text. some thirty_two_bytes;
  isoformat = λ instant. some "1970-01-01T00:00:00Z";
  json_datetime = λ instant. "1970-01-01T00:00:00Z";
  uuid_str = λ uuid. "uuid";
  int_str = λ n. "1";
  format_4f = λ negative n. "0.0000";
  uuid5 = λ name. 500;
}

abbrev pub keyring : HmacApprovalKeyring
keyring = record { keys = (1, 42 ∷ []) ∷ []; active_version = 1 }

abbrev pub workflow : OperationWorkflow
workflow = record {
  ports = ports;
  references = record { seller_resolver = none; backtests = none };
  keyring = keyring;
}

abbrev pub analyst : ActorContext
analyst = record {
  actor_id = 1;
  role = ActorRole.analyst;
  authentication_ref = "a";
  authenticated_at = 0;
}

abbrev pub approver : ActorContext
approver = record {
  actor_id = 2;
  role = ActorRole.approver;
  authentication_ref = "b";
  authenticated_at = 0;
}

abbrev pub evidence : List EvidenceRef
evidence = record { kind = "query"; ref = "q1"; digest = "d1" } ∷ []

abbrev pub new_task : OperationCommand
new_task = create_investigation_task (record {
  evidence_refs = evidence;
  expected_target_version = 0;
  title = "late deliveries";
  priority = Priority.high;
  public_summary = "summary";
})

abbrev pub propose_request : ProposeRequest
propose_request = record {
  actor = analyst;
  command = new_task;
  evidence_refs = evidence;
  idempotency_key = "key";
  revises = none;
}

abbrev pub first_ref : ProposalRef
first_ref = record { proposal_id = 7; version = 1 }

abbrev pub decision_request : DecisionRequest
decision_request = record {
  actor = approver;
  proposal_ref = first_ref;
  decision = Decision.approve;
  reason = none;
}

abbrev pub readings : Readings
readings = record {
  raw_nonce = thirty_two_bytes;
  issued_at = 20;
  decided_at = 21;
  committed_at = 22;
}

-- The grant that the decision above issues.
abbrev pub grant : ExecutionGrant
grant = record {
  proposal_id = 7;
  proposal_version = 1;
  payload_sha256 = "digest";
  requester_id = 1;
  approver_id = 2;
  target_versions = [];
  expires_at = 600000020;
  nonce = "bm9uY2U";
  key_version = 1;
  signature = "mac";
}

abbrev pub execute_request : ExecuteRequest
execute_request = record { actor = approver; grant = grant }

abbrev pub validated : ValidatedReferences
validated = record { evidence_refs = evidence; private_bindings = [] }

abbrev pub draft : ProposalDraft
draft = record {
  request = propose_request;
  preview = record {
    command_type = "create_investigation_task";
    title = "t";
    public_summary = "s";
    target_versions = [];
    affected_rows = 1;
  };
  payload_sha256 = "digest";
  created_at = 10;
  expires_at = 1000;
  validated_references = validated;
}

abbrev pub proposal_of : ProposalRef → ProposalStatus → OperationCommand → StoredProposal
proposal_of ref status command = record {
  snapshot = record {
    proposal_ref = ref;
    status = status;
    requester_id = 1;
    command_type = "create_investigation_task";
    payload_sha256 = "digest";
    preview = draft.preview;
    created_at = 10;
    expires_at = 1000;
  };
  command = command;
  requester_id = 1;
  evidence_refs = evidence;
  idempotency_key = "key";
  revises = none;
  validated_references = validated;
}

abbrev pub approval : StoredApproval
approval = record {
  proposal_ref = first_ref;
  payload_sha256 = "digest";
  requester_id = 1;
  approver_id = 2;
  target_versions = [];
  expires_at = 600000020;
  nonce_digest = "digest";
  key_version = 1;
}

abbrev pub held_task : InvestigationTaskState
held_task = record {
  task_id = 9;
  status = InvestigationStatus.opened;
  priority = Priority.low;
  public_summary = "held";
  version = 4;
  assignee_ref = none;
  conclusion_ref = none;
  linked_risk_id = none;
}

abbrev pub stocked : OperationStore
stocked = initial ((9, held_task) ∷ [])

-- A transition of the held task, for a version that its author has seen.
abbrev pub start_work : ℕ → OperationCommand
start_work seen = transition_investigation (record {
  evidence_refs = evidence;
  task_ref = record { task_id = 9; version = seen };
  expected_target_version = seen;
  from_status = InvestigationStatus.opened;
  to_status = InvestigationStatus.in_progress;
  reason_code = "begin";
})

-- The store with one pending proposal, made through `store_proposal`'s writes.
abbrev pub proposed : OperationStore
proposed = record (initial []) {
  proposals = (first_ref, proposal_of first_ref ProposalStatus.pending new_task) ∷ [];
  latest_versions = (7, 1) ∷ [];
}

abbrev pub receipt_with : ProposalStatus → DecisionReceipt
receipt_with status = record {
  proposal_ref = first_ref;
  status = status;
  approver_id = 2;
  decided_at = 21;
  reason = none;
  grant = none;
}
