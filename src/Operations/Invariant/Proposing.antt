-- ===== src/Operations/Invariant/Proposing.antt =====
-- `create_or_get_proposal` and the order of the store
-- (src/commerce_agent/operations/_memory.py).
use commerce_analyst_agent.Prelude.{
  ℕ, ◌≤◌, ◌≡◌, ◌≢◌, ◌⊎◌, sym, ap, ◌∙◌, none, some, inl, inr, arith, Option-cases, Bool-cases,
  nat_eq, string_eq, pair_eq, option_beq_iff, String,
}
use commerce_analyst_agent.Prelude.Dict.{get, put, get-put_cases, get-put_self, get-put_ne}
use commerce_analyst_agent.Operations.Contracts.{ProposalRef, ProposalStatus, Uuid, proposal_ref_eq}
use commerce_analyst_agent.Operations.References.{ProposalDraft, StoredDecision, StoredProposal}
use commerce_analyst_agent.Operations.State.{OperationStore}
use commerce_analyst_agent.Operations.Proposals.{
  create_or_get_proposal, first_version, may_revise, new_proposal, next_version, replay_binding,
  revise_proposal, set_status, store_proposal, with_status,
}
use commerce_analyst_agent.Operations.Invariant.{IsDecided, IsOrderly, settle-IsOrderly}
use commerce_analyst_agent.Operations.Invariant.Deciding.{is_pending-eq}

-- Storing a proposal under a new reference, past every version of its identifier and where none of
-- them is pending, keeps the order.
module _ (s : OperationStore) (o : IsOrderly s) (key : ProposalRef) (draft : ProposalDraft)
    (fresh : get s.proposals key ≡ none)
    (newer : (v : ℕ) → get s.latest_versions key.proposal_id ≡ some v → v ≤ key.version)
    (alone : (k : ProposalRef) (q : StoredProposal)
      → get s.proposals k ≡ some q
      → q.snapshot.status ≡ ProposalStatus.pending
      → key.proposal_id ≢ k.proposal_id) where
  abbrev stored : OperationStore
  stored = unfold store_proposal in (store_proposal key draft s).1

  after :
      (k : ProposalRef) (r : StoredProposal)
      → get stored.proposals k ≡ some r
      → ((key ≡ k) × (r ≡ new_proposal key draft)) ⊎ (get s.proposals k ≡ some r)
  unfolding store_proposal
  after k r h = elim (get-put_cases s.proposals key (new_proposal key draft) k) [
    | inl (f, g) ↦ inl (f, ground arith)
    | inr (n, g) ↦ inr (sym g ∙ h)
  ]

  stored_keyed :
      (k : ProposalRef) (r : StoredProposal)
      → get stored.proposals k ≡ some r
      → r.snapshot.proposal_ref ≡ k
  stored_keyed k r h = elim (after k r h) [ inl (f, g) ↦ rw g f | inr old ↦ o.keyed k r old ]

  stored_bounded :
      (k : ProposalRef) (r : StoredProposal)
      → get stored.proposals k ≡ some r
      → (v : ℕ) × (get stored.latest_versions k.proposal_id ≡ some v) × (k.version ≤ v)
  unfolding store_proposal
  stored_bounded k r h = elim (after k r h) [
    | inl (f, g) ↦ (
      key.version,
      ap
            (λ (j : ProposalRef).
              get (put s.latest_versions key.proposal_id key.version) j.proposal_id)
            (sym f)
          ∙ get-put_self s.latest_versions key.proposal_id key.version,
      omega (arith, ap (λ (j : ProposalRef). j.version) f),
    )
    | inr old ↦
        let (v, there, le) = o.bounded k r old in
        elim (get-put_cases s.latest_versions key.proposal_id key.version k.proposal_id) [
          | inl (f, g) ↦
              (key.version, g, omega (arith, newer v (ap (get s.latest_versions) f ∙ there)))
          | inr (n, g) ↦ (v, g ∙ there, le)
        ]
  ]

  stored_latest :
      (k : ProposalRef) (r : StoredProposal)
      → get stored.proposals k ≡ some r
      → r.snapshot.status ≡ ProposalStatus.pending
      → get stored.latest_versions k.proposal_id ≡ some k.version
  unfolding store_proposal
  stored_latest k r h w = elim (after k r h) [
    | inl (f, g) ↦
        ap
          (λ (j : ProposalRef).
            get (put s.latest_versions key.proposal_id key.version) j.proposal_id)
          (sym f)
        ∙ get-put_self s.latest_versions key.proposal_id key.version
        ∙ ap (λ (j : ProposalRef). some j.version) f
    | inr old ↦
        get-put_ne s.latest_versions key.proposal_id k.proposal_id key.version (alone k r old w)
        ∙ o.pending_latest k r old w
  ]

  stored-IsDecided :
      (k : ProposalRef) (d : StoredDecision) → get s.decisions k ≡ some d → IsDecided stored k d
  unfolding store_proposal
  stored-IsDecided k d h =
      let r = o.decided k d h in
      elim (get-put_cases s.proposals key (new_proposal key draft) k) [
        | inl (f, g) ↦ cc (fresh, r.found, ap (get s.proposals) f)
        | inr (n, g) ↦ record {
          proposal = r.proposal;
          found = g ∙ r.found;
          other_hands = r.other_hands;
          same_status = r.same_status;
        }
      ]

  stored-IsOrderly : IsOrderly (store_proposal key draft s).1
  unfolding store_proposal
  stored-IsOrderly = record {
    keyed = stored_keyed;
    bounded = stored_bounded;
    pending_latest = stored_latest;
    decided = stored-IsDecided;
    settled = o.settled;
    executed = o.executed;
  }

-- An identifier that the store has never seen starts a proposal.
first-IsOrderly :
    (s : OperationStore) (o : IsOrderly s) (draft : ProposalDraft) (uuid4 : Uuid)
    → get s.latest_versions uuid4 ≡ none
    → IsOrderly (store_proposal (first_version uuid4) draft s).1
first-IsOrderly s o draft uuid4 unseen =
    stored-IsOrderly s o (first_version uuid4) draft
      (elim (Option-cases (get s.proposals (first_version uuid4))) [
        | inl e ↦ e
        | inr (q, e) ↦
            let (v, there, le) = o.bounded (first_version uuid4) q e in cc (unseen, there)
      ])
      (λ v h. cc (unseen, h)) (λ k q h w same. cc (unseen, o.pending_latest k q h w))

module _ (s : OperationStore) (o : IsOrderly s) (draft : ProposalDraft) (old : ProposalRef)
    (q : StoredProposal) (here : get s.proposals old ≡ some q)
    (waiting : q.snapshot.status ≡ ProposalStatus.pending)
    (latest : get s.latest_versions old.proposal_id ≡ some old.version) where
  abbrev t : OperationStore
  t = set_status s old q ProposalStatus.superseded

  t-IsOrderly : IsOrderly t
  t-IsOrderly = settle-IsOrderly s o old q ProposalStatus.superseded here waiting (λ h. cc)

  no_next : get t.proposals (next_version old) ≡ none
  no_next = elim (Option-cases (get t.proposals (next_version old))) [
    | inl e ↦ e
    | inr (r, e) ↦
        let (v, there, le) = t-IsOrderly.bounded (next_version old) r e in
        let same : v ≡ old.version = ground (arith, there, latest) in
        absurd (omega (arith, same, le))
  ]

  no_pending :
      (k : ProposalRef) (r : StoredProposal)
      → get t.proposals k ≡ some r
      → r.snapshot.status ≡ ProposalStatus.pending
      → old.proposal_id ≢ k.proposal_id
  no_pending k r h w same =
      let pending = t-IsOrderly.pending_latest k r h w in
      let e : old ≡ k = ground (arith, latest, pending, ap (get s.latest_versions) same) in
      cc (
        get-put_self s.proposals old (with_status q ProposalStatus.superseded),
        ap (get t.proposals) e,
        h,
        w,
      )

  revised-IsOrderly : IsOrderly (store_proposal (next_version old) draft t).1
  revised-IsOrderly =
      stored-IsOrderly t t-IsOrderly (next_version old) draft no_next
        (λ v h. ground (arith, h, latest)) no_pending

revise-IsOrderly :
    (s : OperationStore) (o : IsOrderly s) (draft : ProposalDraft) (old : ProposalRef)
    → IsOrderly (revise_proposal old draft s).1
unfolding revise_proposal may_revise
revise-IsOrderly s o draft old = elim (Option-cases (get s.proposals old)) [
  | inl e ↦ rw (e, revise_proposal) o
  | inr (q, e) ↦ elim (Bool-cases (may_revise s draft old q)) [
    | inr refused ↦ rw (e, revise_proposal) (rw refused o)
    | inl allowed ↦
        rw (e, revise_proposal)
          (rw allowed (
            revised-IsOrderly s o draft old q e (is_pending-eq q.snapshot.status (ground arith)) (
              (option_beq_iff (get s.latest_versions old.proposal_id) (some old.version)).0
                (ground arith))))
  ]
]

replay-unchanged :
    (binding : ProposalRef × String × String) (draft : ProposalDraft) (s : OperationStore)
    → (replay_binding binding draft s).1 ≡ s
unfolding replay_binding
replay-unchanged binding draft s = ground arith

-- A request for a proposal, new, repeated or revising, keeps the order, where `uuid4` gives an
-- identifier that the store has not seen.
pub create_or_get_proposal-IsOrderly :
    (uuid4 : Uuid) (draft : ProposalDraft) (s : OperationStore)
    → get s.latest_versions uuid4 ≡ none
    → IsOrderly s
    → IsOrderly (create_or_get_proposal uuid4 draft s).1
unfolding create_or_get_proposal
create_or_get_proposal-IsOrderly uuid4 draft s unseen o =
    elim (Option-cases
      (get s.idempotency (draft.request.actor.actor_id, draft.request.idempotency_key))) [
        | inr (binding, e) ↦
            rw (e, create_or_get_proposal) (rw (replay-unchanged binding draft s) o)
        | inl e ↦ elim (Option-cases draft.request.revises) [
          | inl f ↦ rw (e, create_or_get_proposal) (rw f (first-IsOrderly s o draft uuid4 unseen))
          | inr (old, f) ↦ rw (e, create_or_get_proposal) (rw f (revise-IsOrderly s o draft old))
        ]
      ]
