-- ===== src/Operations/Proposals/Replay.antt =====
-- Proposing again under one idempotency key, and revising (src/commerce_agent/operations/_memory.py).
use mathlib.Core.Path.{subst}
use text.Mathlib.TextEquality.{eq_iff}
use commerce_analyst_agent.Prelude.{
  ◌≡◌, refl, ap, ◌∙◌, String, ◌&&◌, some, inl, inr, arith, nat_eq, string_eq, pair_eq, option_eq,
  Bool-cases, Option-cases, ◌==◌, if◌then◌else◌,
}
use commerce_analyst_agent.Prelude.Dict.{get, get-put_self}
use commerce_analyst_agent.Prelude.Outcome.{ok, err}
use commerce_analyst_agent.Operations.Errors.{conflict_error, idempotency_conflict}
use commerce_analyst_agent.Operations.Contracts.{
  ProposalRef, ProposalSnapshot, ProposalStatus, Uuid, proposal_ref_eq,
}
use commerce_analyst_agent.Operations.Commands.{command_type}
use commerce_analyst_agent.Operations.References.{ProposalDraft, StoredProposal}
use commerce_analyst_agent.Operations.State.{OperationStore}
use commerce_analyst_agent.Operations.Proposals.{
  create_or_get_proposal, first_version, may_revise, new_proposal, next_version, replay_binding,
  revise_proposal, set_status, snapshot_at, store_proposal,
}

-- A call returns a snapshot only with its draft's identity bound to the draft's command type and
-- payload, and to a version that holds the snapshot.
pub record IsBound (draft : ProposalDraft) (snapshot : ProposalSnapshot) (t : OperationStore)
    : Type 0 where
  pub ref : ProposalRef
  pub stored : StoredProposal
  pub binding :
      get t.idempotency (draft.request.actor.actor_id, draft.request.idempotency_key)
      ≡ some (ref, command_type draft.request.command, draft.payload_sha256)
  pub found : get t.proposals ref ≡ some stored
  pub same : stored.snapshot ≡ snapshot

store_proposal-IsBound :
    (ref : ProposalRef) (draft : ProposalDraft) (s : OperationStore) (snapshot : ProposalSnapshot)
    → (store_proposal ref draft s).0 ≡ ok snapshot
    → IsBound draft snapshot (store_proposal ref draft s).1
unfolding store_proposal
store_proposal-IsBound ref draft s snapshot h = record {
  ref = ref;
  stored = new_proposal ref draft;
  binding =
      get-put_self s.idempotency (draft.request.actor.actor_id, draft.request.idempotency_key)
        (ref, command_type draft.request.command, draft.payload_sha256);
  found = get-put_self s.proposals ref (new_proposal ref draft);
  same = ground arith;
}

revise_proposal-IsBound :
    (old : ProposalRef) (draft : ProposalDraft) (s : OperationStore) (snapshot : ProposalSnapshot)
    → (revise_proposal old draft s).0 ≡ ok snapshot
    → IsBound draft snapshot (revise_proposal old draft s).1
unfolding revise_proposal
revise_proposal-IsBound old draft s snapshot h = elim (Option-cases (get s.proposals old)) [
  | inl absent ↦ absurd (ground arith)
  | inr (previous, there) ↦ elim (Bool-cases (may_revise s draft old previous)) [
    | inr refused ↦ absurd (ground arith)
    | inl allowed ↦
        let made =
          store_proposal (next_version old) draft
            (set_status s old previous ProposalStatus.superseded) in
        let step : made ≡ revise_proposal old draft s = ground arith in
        subst (λ r. IsBound draft snapshot r.1) step
          (store_proposal-IsBound (next_version old) draft
            (set_status s old previous ProposalStatus.superseded) snapshot (ground arith))
  ]
]

replay_binding-IsBound :
    (ref : ProposalRef) (bound_type payload : String) (draft : ProposalDraft) (s : OperationStore)
    (snapshot : ProposalSnapshot)
    → get s.idempotency (draft.request.actor.actor_id, draft.request.idempotency_key)
      ≡ some (ref, bound_type, payload)
    → (replay_binding (ref, bound_type, payload) draft s).0 ≡ ok snapshot
    → IsBound draft snapshot (replay_binding (ref, bound_type, payload) draft s).1
unfolding replay_binding
replay_binding-IsBound ref bound_type payload draft s snapshot bound h =
    elim (Option-cases (get s.proposals ref)) [
      | inl absent ↦ absurd (ground arith)
      | inr (stored, there) ↦
          let kept : s ≡ (replay_binding (ref, bound_type, payload) draft s).1 = ground arith in
          subst (IsBound draft snapshot) kept (record {
            ref = ref;
            stored = stored;
            binding = ground (
              arith,
              eq_iff bound_type (command_type draft.request.command),
              eq_iff payload draft.payload_sha256,
            );
            found = there;
            same = ground arith;
          })
    ]

create-IsBound :
    (uuid4 : Uuid) (draft : ProposalDraft) (s : OperationStore) (snapshot : ProposalSnapshot)
    → (create_or_get_proposal uuid4 draft s).0 ≡ ok snapshot
    → IsBound draft snapshot (create_or_get_proposal uuid4 draft s).1
unfolding create_or_get_proposal
create-IsBound uuid4 draft s snapshot h =
    elim (Option-cases
      (get s.idempotency (draft.request.actor.actor_id, draft.request.idempotency_key))) [
        | inr ((ref, bound_type, payload), bound) ↦
            let step : replay_binding (ref, bound_type, payload) draft s
                ≡ create_or_get_proposal uuid4 draft s =
              ground arith in
            subst (λ r. IsBound draft snapshot r.1) step
              (replay_binding-IsBound ref bound_type payload draft s snapshot bound (ground arith))
        | inl fresh ↦ elim (Option-cases draft.request.revises) [
          | inl first ↦
              let step : store_proposal (first_version uuid4) draft s
                  ≡ create_or_get_proposal uuid4 draft s =
                ground arith in
              subst (λ r. IsBound draft snapshot r.1) step
                (store_proposal-IsBound (first_version uuid4) draft s snapshot (ground arith))
          | inr (old, revised) ↦
              let step : revise_proposal old draft s ≡ create_or_get_proposal uuid4 draft s =
                ground arith in
              subst (λ r. IsBound draft snapshot r.1) step
                (revise_proposal-IsBound old draft s snapshot (ground arith))
        ]
      ]

-- The answer to a binding.
replay_bound :
    (ref : ProposalRef) (bound_type payload : String) (draft : ProposalDraft) (t : OperationStore)
    (stored : StoredProposal)
    → get t.proposals ref ≡ some stored
    → replay_binding (ref, bound_type, payload) draft t ≡ (
        if (bound_type == command_type draft.request.command) && (payload == draft.payload_sha256)
        then (ok stored.snapshot, t)
        else (err (conflict_error idempotency_conflict), t))
unfolding replay_binding snapshot_at
replay_bound ref bound_type payload draft t stored there = ground arith

create_bound :
    (uuid4 : Uuid) (draft : ProposalDraft) (t : OperationStore)
    (binding : ProposalRef × String × String)
    → get t.idempotency (draft.request.actor.actor_id, draft.request.idempotency_key) ≡ some binding
    → create_or_get_proposal uuid4 draft t ≡ replay_binding binding draft t
unfolding create_or_get_proposal
create_bound uuid4 draft t binding bound = rw (bound, create_or_get_proposal) refl

-- A proposal that was returned for an identity is returned again, unchanged and without a write,
-- for every draft of the same actor and idempotency key with its command type and payload; a draft
-- with another one of the two raises `idempotency_conflict`, also without a write.
pub create_or_get_replay :
    (uuid4 other : Uuid) (first second : ProposalDraft) (s : OperationStore)
    (snapshot : ProposalSnapshot)
    → (create_or_get_proposal uuid4 first s).0 ≡ ok snapshot
    → second.request.actor.actor_id ≡ first.request.actor.actor_id
    → second.request.idempotency_key ≡ first.request.idempotency_key
    → let t = (create_or_get_proposal uuid4 first s).1 in
      create_or_get_proposal other second t ≡ (
        if (command_type first.request.command == command_type second.request.command)
          && (first.payload_sha256 == second.payload_sha256)
        then (ok snapshot, t)
        else (err (conflict_error idempotency_conflict), t))
create_or_get_replay uuid4 other first second s snapshot h same_actor same_key =
    let t = (create_or_get_proposal uuid4 first s).1 in
    let b = create-IsBound uuid4 first s snapshot h in
    let key : get t.idempotency (second.request.actor.actor_id, second.request.idempotency_key)
        ≡ some (b.ref, command_type first.request.command, first.payload_sha256) =
      ap (λ a. get t.idempotency (a, second.request.idempotency_key)) same_actor
      ∙ ap (λ k. get t.idempotency (first.request.actor.actor_id, k)) same_key
      ∙ b.binding in
    create_bound other second t (b.ref, command_type first.request.command, first.payload_sha256)
      key
    ∙ replay_bound b.ref (command_type first.request.command) first.payload_sha256 second t b.stored
        b.found
    ∙ ap
        (λ n.
          if (command_type first.request.command == command_type second.request.command)
            && (first.payload_sha256 == second.payload_sha256)
          then (ok n, t)
          else (err (conflict_error idempotency_conflict), t))
        b.same
