-- ===== src/Operations/Approval.antt =====
-- src/commerce_agent/operations/_approval.py: the HMAC envelope, the key ring and the service that
-- issues and verifies execution grants. The clock's reading and the nonce source's bytes are
-- arguments.
pub mod Grants
use Prim.Native.String.{◌++◌ as ◌+++◌, count}
use commerce_analyst_agent.Prelude.{
  ℕ, zero, suc, ◌+◌, ◌-◌, ◌%◌, String, Bool, false, not, ◌&&◌, ◌||◌, none, some, [], ◌∷◌, nat_beq,
  leb, if◌then◌else◌, length, all, ◌==◌, string_eq, option_eq, nat_eq,
}
use commerce_analyst_agent.Prelude.Dict.{Dict, get}
use commerce_analyst_agent.Prelude.Outcome.{ok, err, ◌>>=◌, ◌>>◌, raise_if}
use commerce_analyst_agent.Operations.Errors.{
  Call, approval_error, authorization_error, approval_key_unavailable, grant_actor_mismatch,
  grant_expired, nonce_entropy_invalid, signature_invalid,
}
use commerce_analyst_agent.Operations.Contracts.{
  ActorContext, ExecutionGrant, Instant, ProposalRef, Uuid, Versions, minutes,
}
use commerce_analyst_agent.Operations.Ports.{Ports, Bytes}
use commerce_analyst_agent.Operations.Canonical.{
  PyValue, canonical_json_bytes, py_datetime, py_dict, py_int, py_str, py_versions,
}

pub record ApprovalEnvelope : Type 0 where
  pub schema_version : ℕ
  pub proposal_id : Uuid
  pub proposal_version : ℕ
  pub payload_sha256 : String
  pub requester_id : Uuid
  pub approver_id : Uuid
  pub target_versions : Versions
  pub expires_at : Instant
  pub nonce : String

-- `utc_z(self.expires_at)` is taken where the projection is made canonical, which is next.
unfoldable pub canonical_projection : Ports → ApprovalEnvelope → PyValue
canonical_projection p e = py_dict (
    ("schema_version", py_int e.schema_version)
    ∷ ("proposal_id", py_str (p.uuid_str e.proposal_id))
    ∷ ("proposal_version", py_int e.proposal_version)
    ∷ ("payload_sha256", py_str e.payload_sha256)
    ∷ ("requester_id", py_str (p.uuid_str e.requester_id))
    ∷ ("approver_id", py_str (p.uuid_str e.approver_id))
    ∷ ("target_versions", py_versions e.target_versions)
    ∷ ("expires_at", py_datetime e.expires_at)
    ∷ ("nonce", py_str e.nonce)
    ∷ [])

pub record StoredApproval : Type 0 where
  pub proposal_ref : ProposalRef
  pub payload_sha256 : String
  pub requester_id : Uuid
  pub approver_id : Uuid
  pub target_versions : Versions
  pub expires_at : Instant
  pub nonce_digest : String
  pub key_version : ℕ

pub record HmacApprovalKeyring : Type 0 where
  pub keys : Dict ℕ Bytes
  pub active_version : ℕ

unfoldable pub sign : Ports → HmacApprovalKeyring → ℕ → Bytes → Call String
sign p ring key_version message = elim (get ring.keys key_version) [
  | none ↦ err (approval_error approval_key_unavailable)
  | some key ↦ ok (p.hmac_hex key message)
]

unfoldable pub verify : Ports → HmacApprovalKeyring → ℕ → Bytes → String → Call Bool
unfolding sign
verify p ring key_version message signature =
    sign p ring key_version message >>= λ expected. ok (expected == signature)

-- `s.rstrip("=")`
abbrev pub rstrip_padding : String → String
rstrip_padding String.[] = String.[]
rstrip_padding (String.◌∷◌ c s) =
    let rest = rstrip_padding s in
    if (rest == "") && (String.◌∷◌ c String.[] == "=") then "" else String.◌∷◌ c rest

abbrev pub equals_signs : ℕ → String
equals_signs zero = ""
equals_signs (suc n) = "=" +++ equals_signs n

-- `nonce + "=" * (-len(nonce) % 4)`
abbrev pub pad : String → String
pad nonce = nonce +++ equals_signs ((4 - count nonce % 4) % 4)

-- The envelope that both `issue_grant` and `verify_grant` sign, from the grant's fields.
abbrev pub envelope_of : ExecutionGrant → ApprovalEnvelope
envelope_of g = record {
  schema_version = 1;
  proposal_id = g.proposal_id;
  proposal_version = g.proposal_version;
  payload_sha256 = g.payload_sha256;
  requester_id = g.requester_id;
  approver_id = g.approver_id;
  target_versions = g.target_versions;
  expires_at = g.expires_at;
  nonce = g.nonce;
}

unfoldable pub envelope_bytes : Ports → ApprovalEnvelope → Call Bytes
unfolding canonical_json_bytes canonical_projection
envelope_bytes p e = canonical_json_bytes p (canonical_projection p e)

-- The fields of the grant that `issue_grant` returns, before it is signed.
abbrev pub unsigned_grant :
    Ports
    → HmacApprovalKeyring
    → Instant
    → Bytes
    → ProposalRef
    → String
    → Uuid
    → ActorContext
    → Versions
    → ExecutionGrant
unsigned_grant p ring now raw_nonce proposal_ref payload_sha256 requester_id approver versions =
    record {
      proposal_id = proposal_ref.proposal_id;
      proposal_version = proposal_ref.version;
      payload_sha256 = payload_sha256;
      requester_id = requester_id;
      approver_id = approver.actor_id;
      target_versions = versions;
      expires_at = now + minutes 10;
      nonce = rstrip_padding (p.b64_encode raw_nonce);
      key_version = ring.active_version;
      signature = "";
    }

-- The part of `issue_grant` from the envelope on.
unfoldable pub sign_grant :
    Ports → HmacApprovalKeyring → Bytes → ExecutionGrant → Call (ExecutionGrant × String)
sign_grant p ring raw_nonce unsigned = envelope_bytes p (envelope_of unsigned) >>= λ message.
    sign p ring unsigned.key_version message >>= λ signature.
    ok (record unsigned { signature = signature }, p.sha256_hex raw_nonce)

unfoldable pub issue_grant :
    Ports
    → HmacApprovalKeyring
    → Instant
    → Bytes
    → ProposalRef
    → String
    → Uuid
    → ActorContext
    → Versions
    → Call (ExecutionGrant × String)
issue_grant p ring now raw_nonce proposal_ref payload_sha256 requester_id approver versions =
    raise_if (not (nat_beq (length raw_nonce) 32)) (approval_error nonce_entropy_invalid)
    >> sign_grant p ring raw_nonce (
        unsigned_grant p ring now raw_nonce proposal_ref payload_sha256 requester_id approver
          versions)

-- `a == b` on Python dicts, whose order does not count.
abbrev pub versions_beq : Versions → Versions → Bool
versions_beq a b = nat_beq (length a) (length b) && all (λ e. get b e.0 == some e.1) a

-- `actual_bindings != expected_bindings`
unfoldable pub bindings_match : ExecutionGrant → StoredApproval → Bool
bindings_match g a =
    nat_beq g.proposal_id a.proposal_ref.proposal_id
    && nat_beq g.proposal_version a.proposal_ref.version
    && (g.payload_sha256 == a.payload_sha256)
    && nat_beq g.requester_id a.requester_id
    && versions_beq g.target_versions a.target_versions
    && nat_beq g.expires_at a.expires_at
    && nat_beq g.key_version a.key_version

-- `execution_grant_sha256`: the digest of the grant's JSON form
unfoldable pub execution_grant_sha256 : Ports → ExecutionGrant → Call String
unfolding canonical_json_bytes
execution_grant_sha256 p g =
    canonical_json_bytes p (
      py_dict (
        ("proposal_id", py_str (p.uuid_str g.proposal_id))
        ∷ ("proposal_version", py_int g.proposal_version)
        ∷ ("payload_sha256", py_str g.payload_sha256)
        ∷ ("requester_id", py_str (p.uuid_str g.requester_id))
        ∷ ("approver_id", py_str (p.uuid_str g.approver_id))
        ∷ ("target_versions", py_versions g.target_versions)
        ∷ ("expires_at", py_str (p.json_datetime g.expires_at))
        ∷ ("nonce", py_str g.nonce)
        ∷ ("key_version", py_int g.key_version)
        ∷ ("signature", py_str g.signature)
        ∷ []))
    >>= λ canonical. ok (p.sha256_hex canonical)

-- The `try` block and the digest comparison after it.
unfoldable pub nonce_matches : Ports → ExecutionGrant → StoredApproval → Bool
nonce_matches p g a = elim (p.b64_decode (pad g.nonce)) [
  | none ↦ false
  | some raw_nonce ↦ p.sha256_hex raw_nonce == a.nonce_digest
]

unfoldable pub verify_grant :
    Ports
    → HmacApprovalKeyring
    → Instant
    → ExecutionGrant
    → StoredApproval
    → ActorContext
    → Call (Unit {0})
unfolding verify bindings_match nonce_matches
verify_grant p ring now grant stored actor =
    raise_if
      (not (nat_beq actor.actor_id grant.approver_id)
        || not (nat_beq actor.actor_id stored.approver_id))
      (authorization_error grant_actor_mismatch)
    >> (envelope_bytes p (envelope_of grant) >>= λ message.
        verify p ring grant.key_version message grant.signature >>= λ genuine.
        raise_if (not genuine) (approval_error signature_invalid)
        >> raise_if (not (bindings_match grant stored)) (approval_error signature_invalid)
        >> raise_if (not (nonce_matches p grant stored)) (approval_error signature_invalid)
        >> raise_if (leb grant.expires_at now) (approval_error grant_expired))
