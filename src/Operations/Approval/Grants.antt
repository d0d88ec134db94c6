-- ===== src/Operations/Approval/Grants.antt =====
-- Grants from their issue to their verification (src/commerce_agent/operations/_approval.py).
use text.Mathlib.TextEquality.{eq_iff}
use commerce_analyst_agent.Prelude.{
  ℕ, ◌+◌, ◌<◌, ◌≡◌, refl, sym, ap, ◌∙◌, String, true, some, arith, beq_refl, nat_eq, string_eq,
  option_eq, inl, inr, Option-cases,
}
use commerce_analyst_agent.Prelude.Dict.{get}
use commerce_analyst_agent.Prelude.Outcome.{ok, Result-cases}
use commerce_analyst_agent.Operations.Contracts.{
  ActorContext, ExecutionGrant, Instant, ProposalRef, Uuid, Versions, minutes,
}
use commerce_analyst_agent.Operations.Ports.{Bytes, Ports}
use commerce_analyst_agent.Operations.Approval.{
  HmacApprovalKeyring, StoredApproval, bindings_match, envelope_bytes, envelope_of, issue_grant,
  nonce_matches, sign_grant, unsigned_grant, pad, rstrip_padding, sign, verify, verify_grant,
  versions_beq,
}

-- What `verify_grant` accepts, condition by condition.
pub record IsVerified (p : Ports) (ring : HmacApprovalKeyring) (now : Instant) (g : ExecutionGrant)
    (a : StoredApproval) (actor : ActorContext) : Type 0 where
  pub grant_actor : actor.actor_id ≡ g.approver_id
  pub stored_actor : actor.actor_id ≡ a.approver_id
  pub proposal_id : g.proposal_id ≡ a.proposal_ref.proposal_id
  pub proposal_version : g.proposal_version ≡ a.proposal_ref.version
  pub payload : g.payload_sha256 ≡ a.payload_sha256
  pub requester : g.requester_id ≡ a.requester_id
  pub versions : versions_beq g.target_versions a.target_versions ≡ true
  pub expiry : g.expires_at ≡ a.expires_at
  pub key_version : g.key_version ≡ a.key_version
  pub nonce : nonce_matches p g a ≡ true
  pub unexpired : now < g.expires_at
  pub message : Bytes
  pub signed : envelope_bytes p (envelope_of g) ≡ ok message
  pub signature : sign p ring g.key_version message ≡ ok g.signature

-- A grant that `verify_grant` accepts has the stored approval's proposal, version, payload digest,
-- requester, target versions, expiry and key version, its nonce has the stored digest, its
-- signature is the key ring's over its own envelope, it has not expired, and the caller is its
-- approver and the stored one.
pub verify_grant_sound :
    (p : Ports) (ring : HmacApprovalKeyring) (now : Instant) (g : ExecutionGrant)
    (a : StoredApproval) (actor : ActorContext)
    → verify_grant p ring now g a actor ≡ ok tt
    → IsVerified p ring now g a actor
unfolding verify_grant
verify_grant_sound p ring now g a actor h = elim (Result-cases (envelope_bytes p (envelope_of g))) [
  | inr (e, f) ↦ absurd (ground arith)
  | inl (message, f) ↦ record {
    grant_actor = ground arith;
    stored_actor = ground arith;
    proposal_id = ground arith;
    proposal_version = ground arith;
    payload = ground (arith, eq_iff g.payload_sha256 a.payload_sha256);
    requester = ground arith;
    versions = ground arith;
    expiry = ground arith;
    key_version = ground arith;
    nonce = ground arith;
    unexpired = ground arith;
    message = message;
    signed = f;
    signature =
        unfold sign in
        elim (Option-cases (get ring.keys g.key_version)) [
          | inl absent ↦ absurd (ground arith)
          | inr (key, there) ↦ ground (arith, eq_iff (p.hmac_hex key message) g.signature)
        ];
  }
]

-- The approval that is stored for an issued grant and the digest of its nonce.
abbrev pub stored_for : ProposalRef → ExecutionGrant → String → StoredApproval
stored_for ref g nonce_digest = record {
  proposal_ref = ref;
  payload_sha256 = g.payload_sha256;
  requester_id = g.requester_id;
  approver_id = g.approver_id;
  target_versions = g.target_versions;
  expires_at = g.expires_at;
  nonce_digest = nonce_digest;
  key_version = g.key_version;
}

-- A signature that was made by `sign` is one that `verify` accepts.
verify-sign :
    (p : Ports) (ring : HmacApprovalKeyring) (key_version : ℕ) (message : Bytes)
    (signature : String)
    → sign p ring key_version message ≡ ok signature
    → verify p ring key_version message signature ≡ ok true
unfolding verify
verify-sign p ring key_version message signature h =
    elim (Option-cases (get ring.keys key_version)) [
      | inl absent ↦ absurd (ground arith)
      | inr (key, there) ↦ ground (arith, eq_iff (p.hmac_hex key message) signature)
    ]

-- The signature of an issued grant verifies over its own envelope.
pub record IsSigned (p : Ports) (ring : HmacApprovalKeyring) (raw_nonce : Bytes)
    (unsigned g : ExecutionGrant) (digest : String) : Type 0 where
  pub message : Bytes
  pub envelope : envelope_bytes p (envelope_of g) ≡ ok message
  pub genuine : verify p ring g.key_version message g.signature ≡ ok true
  pub fields : g ≡ record unsigned { signature = g.signature }
  pub digest_of : digest ≡ p.sha256_hex raw_nonce

sign_grant_sound :
    (p : Ports) (ring : HmacApprovalKeyring) (raw_nonce : Bytes) (unsigned g : ExecutionGrant)
    (digest : String)
    → sign_grant p ring raw_nonce unsigned ≡ ok (g, digest)
    → IsSigned p ring raw_nonce unsigned g digest
unfolding sign_grant
sign_grant_sound p ring raw_nonce unsigned g digest h =
    elim (Result-cases (envelope_bytes p (envelope_of unsigned))) [
      | inr (e, f) ↦ absurd (ground arith)
      | inl (message, f) ↦ elim (Result-cases (sign p ring unsigned.key_version message)) [
        | inr (e, k) ↦ absurd (ground arith)
        | inl (signature, k) ↦
            let same : record unsigned { signature = signature } ≡ g = ground arith in
            rw ((sym same)) (record {
              message = message;
              envelope = f;
              genuine = verify-sign p ring unsigned.key_version message signature k;
              fields = refl;
              digest_of = ground arith;
            })
      ]
    ]

-- A grant matches the approval that is stored for it.
bindings_match-stored_for :
    (ref : ProposalRef) (g : ExecutionGrant) (digest : String)
    → g.proposal_id ≡ ref.proposal_id
    → g.proposal_version ≡ ref.version
    → versions_beq g.target_versions g.target_versions ≡ true
    → bindings_match g (stored_for ref g digest) ≡ true
unfolding bindings_match
bindings_match-stored_for ref g digest same_id same_version self =
    ground (arith, beq_refl g.payload_sha256, eq_iff g.payload_sha256 g.payload_sha256)

nonce_matches-stored_for :
    (p : Ports) (ref : ProposalRef) (g : ExecutionGrant) (raw_nonce : Bytes)
    → p.b64_decode (pad g.nonce) ≡ some raw_nonce
    → nonce_matches p g (stored_for ref g (p.sha256_hex raw_nonce)) ≡ true
unfolding nonce_matches
nonce_matches-stored_for p ref g raw_nonce decodes =
    rw (decodes, nonce_matches) (beq_refl (p.sha256_hex raw_nonce))

-- A signed grant verifies where its bindings and nonce match and it has not expired.
verify_grant_complete :
    (p : Ports) (ring : HmacApprovalKeyring) (now : Instant) (g : ExecutionGrant)
    (a : StoredApproval) (actor : ActorContext) (message : Bytes)
    → actor.actor_id ≡ g.approver_id
    → actor.actor_id ≡ a.approver_id
    → envelope_bytes p (envelope_of g) ≡ ok message
    → verify p ring g.key_version message g.signature ≡ ok true
    → bindings_match g a ≡ true
    → nonce_matches p g a ≡ true
    → now < g.expires_at
    → verify_grant p ring now g a actor ≡ ok tt
unfolding verify_grant
verify_grant_complete p ring now g a actor message by_grant by_stored envelope genuine bindings
      nonce early =
    rw (envelope, genuine, bindings, nonce) (ground arith)

-- A grant that `issue_grant` returns verifies against the approval that is stored for it, in the
-- hands of its approver and until it expires ten minutes after its issue, where the nonce's base64
-- text decodes to the nonce and the target versions are a dict, equal to itself.
pub verify-issue :
    (p : Ports) (ring : HmacApprovalKeyring) (now later : Instant) (raw_nonce : Bytes)
    (ref : ProposalRef) (payload : String) (requester : Uuid) (approver actor : ActorContext)
    (versions : Versions) (g : ExecutionGrant) (digest : String)
    → issue_grant p ring now raw_nonce ref payload requester approver versions ≡ ok (g, digest)
    → p.b64_decode (pad (rstrip_padding (p.b64_encode raw_nonce))) ≡ some raw_nonce
    → versions_beq versions versions ≡ true
    → actor.actor_id ≡ approver.actor_id
    → later < now + minutes 10
    → verify_grant p ring later g (stored_for ref g digest) actor ≡ ok tt
unfolding issue_grant
verify-issue p ring now later raw_nonce ref payload requester approver actor versions g digest h
      decodes self same early =
    let unsigned = unsigned_grant p ring now raw_nonce ref payload requester approver versions in
    let made = sign_grant_sound p ring raw_nonce unsigned g digest (ground arith) in
    verify_grant_complete p ring later g (stored_for ref g digest) actor made.message
      (same ∙ sym (ap ExecutionGrant.approver_id made.fields))
      (same ∙ sym (ap ExecutionGrant.approver_id made.fields)) made.envelope made.genuine
      (bindings_match-stored_for ref g digest (ap ExecutionGrant.proposal_id made.fields)
        (ap ExecutionGrant.proposal_version made.fields)
        (ap (λ v. versions_beq v v) (ap ExecutionGrant.target_versions made.fields) ∙ self))
      (ap (λ d. nonce_matches p g (stored_for ref g d)) made.digest_of
        ∙ nonce_matches-stored_for p ref g raw_nonce
            (ap (λ n. p.b64_decode (pad n)) (ap ExecutionGrant.nonce made.fields) ∙ decodes))
      (ground (arith, ap ExecutionGrant.expires_at made.fields))
