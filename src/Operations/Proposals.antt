-- ===== src/Operations/Proposals.antt =====
-- src/commerce_agent/operations/_memory.py: `InMemoryOperationStore.create_or_get_proposal`.
-- `uuid4()` is an argument.
pub mod Replay
use commerce_analyst_agent.Prelude.{
  ◌+◌, String, Bool, not, ◌&&◌, none, some, nat_beq, if◌then◌else◌, ◌==◌, string_eq, option_eq,
  nat_eq, pair_eq,
}
use commerce_analyst_agent.Prelude.Dict.{get, put}
use commerce_analyst_agent.Prelude.Outcome.{ok, err}
use commerce_analyst_agent.Operations.Errors.{
  conflict_error, idempotency_conflict, key_error, proposal_revision_conflict,
}
use commerce_analyst_agent.Operations.Contracts.{
  ProposalRef, ProposalSnapshot, ProposalStatus, Uuid, is_pending, proposal_ref_eq, status_eq,
}
use commerce_analyst_agent.Operations.Commands.{command_type}
use commerce_analyst_agent.Operations.References.{ProposalDraft, StoredProposal}
use commerce_analyst_agent.Operations.State.{OperationStore, StoreMethod}

abbrev pub new_snapshot : ProposalRef → ProposalDraft → ProposalSnapshot
new_snapshot proposal_ref draft = record {
  proposal_ref = proposal_ref;
  status = ProposalStatus.pending;
  requester_id = draft.request.actor.actor_id;
  command_type = command_type draft.request.command;
  payload_sha256 = draft.payload_sha256;
  preview = draft.preview;
  created_at = draft.created_at;
  expires_at = draft.expires_at;
}

abbrev pub new_proposal : ProposalRef → ProposalDraft → StoredProposal
new_proposal proposal_ref draft = record {
  snapshot = new_snapshot proposal_ref draft;
  command = draft.request.command;
  requester_id = draft.request.actor.actor_id;
  evidence_refs = draft.request.evidence_refs;
  idempotency_key = draft.request.idempotency_key;
  revises = draft.request.revises;
  validated_references = draft.validated_references;
}

-- The part of `create_or_get_proposal` from `snapshot = ...` on.
unfoldable pub store_proposal : ProposalRef → ProposalDraft → StoreMethod ProposalSnapshot
store_proposal proposal_ref draft s = (
  ok (new_snapshot proposal_ref draft),
  record s {
    proposals = put s.proposals proposal_ref (new_proposal proposal_ref draft);
    latest_versions = put s.latest_versions proposal_ref.proposal_id proposal_ref.version;
    idempotency =
        put s.idempotency (draft.request.actor.actor_id, draft.request.idempotency_key)
          (proposal_ref, command_type draft.request.command, draft.payload_sha256);
  },
)

-- `previous.snapshot = previous.snapshot.model_copy(update={"status": ...})`
abbrev pub with_status : StoredProposal → ProposalStatus → StoredProposal
with_status stored status = record stored { snapshot = record stored.snapshot { status = status } }

abbrev pub set_status :
    OperationStore → ProposalRef → StoredProposal → ProposalStatus → OperationStore
set_status s key stored status = record s {
  proposals = put s.proposals key (with_status stored status);
}

-- `return self._proposals[...].snapshot`
unfoldable pub snapshot_at : ProposalRef → StoreMethod ProposalSnapshot
snapshot_at key s = elim (get s.proposals key) [
  | none ↦ (err key_error, s)
  | some stored ↦ (ok stored.snapshot, s)
]

-- The branch of a known identity.
unfoldable pub replay_binding :
    ProposalRef × String × String → ProposalDraft → StoreMethod ProposalSnapshot
unfolding snapshot_at
replay_binding (ref, bound_type, payload_sha256) draft s =
    if not (
      (bound_type == command_type draft.request.command)
      && (payload_sha256 == draft.payload_sha256))
    then (err (conflict_error idempotency_conflict), s)
    else snapshot_at ref s

-- The `or` of the revision conflict, negated, once `previous` is there.
unfoldable pub may_revise : OperationStore → ProposalDraft → ProposalRef → StoredProposal → Bool
may_revise s draft old previous =
    nat_beq previous.requester_id draft.request.actor.actor_id
    && is_pending previous.snapshot.status
    && (get s.latest_versions old.proposal_id == some old.version)

abbrev pub next_version : ProposalRef → ProposalRef
next_version old = record { proposal_id = old.proposal_id; version = old.version + 1 }

unfoldable pub revise_proposal : ProposalRef → ProposalDraft → StoreMethod ProposalSnapshot
unfolding may_revise store_proposal
revise_proposal old draft s = elim (get s.proposals old) [
  | none ↦ (err (conflict_error proposal_revision_conflict), s)
  | some previous ↦
      if may_revise s draft old previous
      then store_proposal (next_version old) draft
          (set_status s old previous ProposalStatus.superseded)
      else (err (conflict_error proposal_revision_conflict), s)
]

abbrev pub first_version : Uuid → ProposalRef
first_version proposal_id = record { proposal_id = proposal_id; version = 1 }

unfoldable pub create_or_get_proposal : Uuid → ProposalDraft → StoreMethod ProposalSnapshot
unfolding replay_binding revise_proposal
create_or_get_proposal uuid4 draft s =
    elim (get s.idempotency (draft.request.actor.actor_id, draft.request.idempotency_key)) [
      | some binding ↦ replay_binding binding draft s
      | none ↦ elim draft.request.revises [
        | none ↦ store_proposal (first_version uuid4) draft s
        | some old ↦ revise_proposal old draft s
      ]
    ]
