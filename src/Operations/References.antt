-- ===== src/Operations/References.antt =====
-- src/commerce_agent/operations/_store.py: the reference validator and the stored values.
use Prim.Native.String.{compare}
use text.Mathlib.Text.{is_le}
use commerce_analyst_agent.Prelude.{
  String, Bool, not, ◌&&◌, Option, none, some, List, [], ◌∷◌, nat_beq, if◌then◌else◌, ◌==◌,
  string_eq, list_eq, same_set,
}
use commerce_analyst_agent.Prelude.Outcome.{ok, err, ◌>>=◌, ◌>>◌, raise_if}
use commerce_analyst_agent.Operations.Errors.{
  Call, contract_error, backtest_not_found, backtest_spec_mismatch, backtest_validation_unavailable,
  evidence_binding_mismatch, seller_query_evidence_required, seller_ref_validation_unavailable,
}
use commerce_analyst_agent.Operations.Contracts.{
  AlertBacktestRef, AlertBacktestSnapshot, CommandPreview, EvidenceRef, Instant, ProposalRef,
  ProposalSnapshot, ProposalStatus, SellerRef, ActorContext, Uuid, comparator_value, evidence_eq,
  metric_value, window_value,
}
use commerce_analyst_agent.Operations.Commands.{
  CreateAndEnableMetricAlertRule, OpenSellerRiskCase, OperationCommand, command_evidence,
  create_and_enable_metric_alert_rule, open_seller_risk_case,
}
use commerce_analyst_agent.Operations.Approval.{StoredApproval}

-- `_seller_refs.PrivateSellerTarget`
pub record PrivateSellerTarget : Type 0 where
  pub seller_id : String
  pub evidence_digest : String

pub data PrivateBinding : Type 0 where
  seller_target : PrivateSellerTarget → PrivateBinding
  backtest : AlertBacktestSnapshot → PrivateBinding

pub record ValidatedReferences : Type 0 where
  pub evidence_refs : List EvidenceRef
  pub private_bindings : List PrivateBinding

-- The two resolvers that `DefaultReferenceValidator` may be given.
pub record ReferenceValidator : Type 0 where
  pub seller_resolver : Option (SellerRef → String → Call PrivateSellerTarget)
  pub backtests : Option (AlertBacktestRef → Option AlertBacktestSnapshot)

-- `tuple(sorted(...))` of texts
abbrev insert_sorted : String → List String → List String
insert_sorted a [] = a ∷ []
insert_sorted a (b ∷ r) = if is_le (compare a b) then a ∷ b ∷ r else b ∷ insert_sorted a r

abbrev pub sorted : List String → List String
sorted [] = []
sorted (a ∷ r) = insert_sorted a (sorted r)

abbrev pub query_evidence : List EvidenceRef → List EvidenceRef
query_evidence [] = []
query_evidence (e ∷ r) = let rest = query_evidence r in if e.kind == "query" then e ∷ rest else rest

abbrev pub seller_binding :
    (SellerRef → String → Call PrivateSellerTarget)
    → OpenSellerRiskCase
    → List EvidenceRef
    → Call (List PrivateBinding)
seller_binding resolve c (e ∷ []) =
    resolve c.seller_ref e.digest >>= λ target. ok (seller_target target ∷ [])
seller_binding resolve c _ = err (contract_error seller_query_evidence_required)

-- `actual == expected` of the rule and its backtest
unfoldable pub backtest_fits : CreateAndEnableMetricAlertRule → AlertBacktestSnapshot → Bool
backtest_fits c snapshot =
    nat_beq c.alert_backtest_ref.backtest_id snapshot.backtest_ref.backtest_id
    && (c.alert_backtest_ref.rule_spec_sha256 == snapshot.backtest_ref.rule_spec_sha256)
    && (c.metric_ref.name == metric_value snapshot.request.metric)
    && (c.metric_ref.revision == snapshot.request.metric_revision)
    && (c.grain == snapshot.request.grain)
    && (window_value c.window == window_value snapshot.request.window)
    && (comparator_value c.comparator == comparator_value snapshot.request.comparator)
    && nat_beq c.threshold snapshot.request.threshold
    && nat_beq c.minimum_denominator snapshot.request.minimum_denominator
    && (sorted c.filter_refs == sorted snapshot.request.filter_refs)

abbrev pub backtest_binding :
    Option AlertBacktestSnapshot → CreateAndEnableMetricAlertRule → Call (List PrivateBinding)
backtest_binding none c = err (contract_error backtest_not_found)
backtest_binding (some snapshot) c =
    if backtest_fits c snapshot
    then ok (backtest snapshot ∷ [])
    else err (contract_error backtest_spec_mismatch)

-- The two `isinstance` blocks of `validate_command`.
unfoldable pub bindings :
    ReferenceValidator → OperationCommand → List EvidenceRef → Call (List PrivateBinding)
bindings v (open_seller_risk_case c) evidence_refs = elim v.seller_resolver [
  | none ↦ err (contract_error seller_ref_validation_unavailable)
  | some resolve ↦ seller_binding resolve c (query_evidence evidence_refs)
]
bindings v (create_and_enable_metric_alert_rule c) evidence_refs = elim v.backtests [
  | none ↦ err (contract_error backtest_validation_unavailable)
  | some resolve ↦ backtest_binding (resolve c.alert_backtest_ref) c
]
bindings v _ evidence_refs = ok []

unfoldable pub validate_command :
    ReferenceValidator → OperationCommand → List EvidenceRef → Call ValidatedReferences
unfolding bindings
validate_command v command evidence_refs =
    raise_if (not (same_set evidence_refs (command_evidence command)))
      (contract_error evidence_binding_mismatch)
    >> (bindings v command evidence_refs >>= λ private.
        ok (record { evidence_refs = evidence_refs; private_bindings = private }))

pub record ProposeRequest : Type 0 where
  pub actor : ActorContext
  pub command : OperationCommand
  pub evidence_refs : List EvidenceRef
  pub idempotency_key : String
  pub revises : Option ProposalRef

pub record ProposalDraft : Type 0 where
  pub request : ProposeRequest
  pub preview : CommandPreview
  pub payload_sha256 : String
  pub created_at : Instant
  pub expires_at : Instant
  pub validated_references : ValidatedReferences

pub record StoredProposal : Type 0 where
  pub snapshot : ProposalSnapshot
  pub command : OperationCommand
  pub requester_id : Uuid
  pub evidence_refs : List EvidenceRef
  pub idempotency_key : String
  pub revises : Option ProposalRef
  pub validated_references : ValidatedReferences

pub record StoredDecision : Type 0 where
  pub status : ProposalStatus
  pub approver_id : Uuid
  pub decided_at : Instant
  pub reason : Option String
  pub approval : Option StoredApproval
  pub grant_sha256 : Option String
